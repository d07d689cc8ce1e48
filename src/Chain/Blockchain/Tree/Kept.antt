-- ===== src/Chain/Blockchain/Tree/Kept.antt =====
-- The tree of the known blocks, under pruning and the storing of a block.
use mathlib.Core.Path.{subst}
use browser_coin_native_mine.Prelude.{
  ℕ, ◌≡◌, none, arith, inl, some, ap, ◌∙◌, ◌⊎◌, inr, Bool-cases, ◌≤◌, sym, bytes_eq, Option,
  bytes_eq_iff, some-inj, ◌+◌, ◌<◌,
}
use browser_coin_native_mine.Chain.Block.{Block}
use browser_coin_native_mine.Chain.Blockchain.{ChainBlock, prev_key}
use browser_coin_native_mine.Chain.Blockchain.Tree.{Cleared, Prunes, Hangs, IsTree, Holds}
use browser_coin_native_mine.Chain.Consensus.{block_work}
use browser_coin_native_mine.Chain.State.{State}
use browser_coin_native_mine.Prelude.Dict.{Dict, lookup, insert, lookup-insert}
use browser_coin_native_mine.Util.Hex.{Hex, bytes_to_hex}

-- A block hangs wherever its parent is known.
Hangs-Cleared :
    (blocks blocks' : Dict ChainBlock) (e e' : ChainBlock)
    → Prunes blocks blocks'
    → Cleared e e'
    → Hangs blocks e
    → Hangs blocks' e'
Hangs-Cleared blocks blocks' e e' p (same, work, state) (inl (height, base)) =
    inl (ap (λ (b : Block). b.header.height) same ∙ height, work ∙ base)
Hangs-Cleared blocks blocks' e e' p (same, work, state) (inr (parent, found, height, sum)) =
    let (parent', found', (psame, pwork, pstate)) = p.forth (prev_key e) parent found in
    inr (
      parent',
      ap (λ (b : Block). lookup (bytes_to_hex b.header.prev_hash) blocks') same ∙ found',
      ap (λ (b : Block). b.header.height) same
          ∙ height
          ∙ ap (λ (b : Block). b.header.height + 1) (sym psame),
      work
          ∙ sum
          ∙ ap (λ (w : ℕ). w + block_work e.block.header.difficulty) (sym pwork)
          ∙ ap (λ (b : Block). parent'.work + block_work b.header.difficulty) (sym same),
    )

Holds-Cleared :
    (P : ℕ → State → Type 0) (e e' : ChainBlock)
    → Cleared e e'
    → Holds P e.block.header.height e.state
    → Holds P e'.block.header.height e'.state
Holds-Cleared P e e' (same, work, inl kept) h =
    subst (λ (b : Block). Holds P b.header.height e'.state) (sym same)
      (subst (λ (s : Option State). Holds P e.block.header.height s) (sym kept) h)
Holds-Cleared P e e' (same, work, inr gone) h =
    subst (λ (s : Option State). Holds P e'.block.header.height s) (sym gone) tt

pub Prunes-IsTree :
    (P : ℕ → State → Type 0) (root : Hex) (blocks blocks' : Dict ChainBlock) (tip_hash : Hex)
    → Prunes blocks blocks'
    → IsTree P root blocks tip_hash
    → IsTree P root blocks' tip_hash
Prunes-IsTree P root blocks blocks' tip_hash p h =
    let (t, found, most) = h.heaviest in
    let (t', found', (same, work, state)) = p.forth tip_hash t found in
    record {
      rooted = λ key e' f zeroed.
          let (e, was, cleared) = p.back key e' f in
          h.rooted key e was (ap (λ (b : Block). b.header.height) (sym cleared.0) ∙ zeroed);
      hangs = λ key e' f.
          let (e, was, cleared) = p.back key e' f in
          Hangs-Cleared blocks blocks' e e' p cleared (h.hangs key e was);
      supplied = λ key e' f.
          let (e, was, cleared) = p.back key e' f in
          Holds-Cleared P e e' cleared (h.supplied key e was);
      heaviest = (
        t',
        found',
        λ key e' f.
            let (e, was, cleared) = p.back key e' f in
            let below = most key e was in
            let same_work = cleared.1 in omega (arith, work, same_work, below),
      );
    }

module _ (P : ℕ → State → Type 0) (blocks : Dict ChainBlock) (key : Hex) (entry : ChainBlock)
    (fresh : lookup key blocks ≡ none) where
  -- What was known is found as before.
  pub lookup-kept :
      (j : Hex) (e : ChainBlock)
      → lookup j blocks ≡ some e
      → lookup j (insert key entry blocks) ≡ some e
  lookup-kept j e found = elim (Bool-cases (bytes_eq j key)) [
    | inl this ↦ absurd (cc (fresh, found, (bytes_eq_iff j key).0 this))
    | inr other ↦ rw (lookup-insert j key entry blocks, other) found
  ]

  -- What is found was known, or is the new block.
  pub lookup-new :
      (j : Hex) (e : ChainBlock)
      → lookup j (insert key entry blocks) ≡ some e
      → (lookup j blocks ≡ some e) ⊎ (entry ≡ e)
  lookup-new j e found = elim (Bool-cases (bytes_eq j key)) [
    | inl this ↦ inr (some-inj (rw (lookup-insert j key entry blocks, this) at found))
    | inr other ↦ inl (rw (lookup-insert j key entry blocks, other) at found)
  ]

  Hangs-kept : (e : ChainBlock) → Hangs blocks e → Hangs (insert key entry blocks) e
  Hangs-kept e (inl root) = inl root
  Hangs-kept e (inr (parent, found, height, work)) =
      inr (parent, lookup-kept (prev_key e) parent found, height, work)

  -- With a block that hangs on a known one the tree is a tree, whichever of the tip and the new block
  -- has the most work.
  pub insert-IsTree :
      (root tip_hash new_tip : Hex) (t : ChainBlock)
      → IsTree P root blocks tip_hash
      → 0 < entry.block.header.height
      → Hangs blocks entry
      → Holds P entry.block.header.height entry.state
      → lookup new_tip (insert key entry blocks) ≡ some t
      → entry.work ≤ t.work
      → ((j : Hex) (e : ChainBlock) → lookup j blocks ≡ some e → e.work ≤ t.work)
      → IsTree P root (insert key entry blocks) new_tip
  insert-IsTree root tip_hash new_tip t h positive hang supply_ok found above most = record {
    rooted = λ j e f zeroed. elim (lookup-new j e f) [
      | inl old ↦ h.rooted j e old zeroed
      | inr new ↦
          let same : entry.block.header.height ≡ e.block.header.height =
            ap (λ (a : ChainBlock). a.block.header.height) new in
          absurd (omega (arith, same, zeroed, positive))
    ];
    hangs = λ j e f. elim (lookup-new j e f) [
      | inl old ↦ Hangs-kept e (h.hangs j e old)
      | inr new ↦ subst (Hangs (insert key entry blocks)) new (Hangs-kept entry hang)
    ];
    supplied = λ j e f. elim (lookup-new j e f) [
      | inl old ↦ h.supplied j e old
      | inr new ↦ subst (λ (a : ChainBlock). Holds P a.block.header.height a.state) new supply_ok
    ];
    heaviest = (
      t,
      found,
      λ j e f. elim (lookup-new j e f) [
        | inl old ↦ most j e old
        | inr new ↦ subst (λ (a : ChainBlock). a.work ≤ t.work) new above
      ],
    );
  }
