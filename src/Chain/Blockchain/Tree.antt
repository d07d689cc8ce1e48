-- ===== src/Chain/Blockchain/Tree.antt =====
-- src/chain/blockchain.ts, the map of blocks: the tree of the known blocks with their work and their
-- states, and the pruning of states.
pub mod Kept
pub mod Added
use mathlib.Core.Path.{subst}
use browser_coin_native_mine.Prelude.{
  ℕ, zero, suc, ◌≡◌, refl, Option, ◌+◌, none, ◌⊎◌, inl, List, Option-cases, some, ◌∙◌, inr, ◌-◌,
  ◌∷◌, [], ◌≤◌, Bool-cases, bytes_eq, some-inj, sym, bytes_eq_iff, ap,
}
use browser_coin_native_mine.Chain.Blockchain.{
  clear_state, prune_states, clear_states, prune_rounds, prune_height, ChainBlock, Blockchain,
  at_height, prev_key,
}
use browser_coin_native_mine.Chain.Consensus.{block_work}
use browser_coin_native_mine.Chain.Genesis.{block_reward, genesis_difficulty_compact}
use browser_coin_native_mine.Chain.State.{State}
use browser_coin_native_mine.Chain.State.Invariant.{IsValid}
use browser_coin_native_mine.Chain.State.Totals.{total}
use browser_coin_native_mine.Prelude.Dict.{Dict, lookup, insert, lookup-insert}
use browser_coin_native_mine.Prelude.Int.{pos}
use browser_coin_native_mine.Util.Hex.{Hex}

-- A predicate on the height and the state of a block, where the state is kept.
abbrev pub Holds : (ℕ → State → Type 0) → ℕ → Option State → Type 0
Holds P height none = Unit
Holds P height (some s) = P height s

-- A block of height 0 with the work of its own, or a child of a known parent.
abbrev pub Hangs : Dict ChainBlock → ChainBlock → Type 0
Hangs blocks e =
    ((e.block.header.height ≡ 0) × (e.work ≡ block_work genesis_difficulty_compact))
    ⊎ ((parent : ChainBlock) × (lookup (prev_key e) blocks ≡ some parent)
        × (e.block.header.height ≡ parent.block.header.height + 1)
        × (e.work ≡ parent.work + block_work e.block.header.difficulty))

pub record IsTree (P : ℕ → State → Type 0) (root : Hex) (blocks : Dict ChainBlock) (tip_hash : Hex)
    : Type 0 where
  pub rooted :
      (key : Hex) (e : ChainBlock)
      → lookup key blocks ≡ some e
      → e.block.header.height ≡ 0
      → key ≡ root
  pub hangs : (key : Hex) (e : ChainBlock) → lookup key blocks ≡ some e → Hangs blocks e
  pub supplied :
      (key : Hex) (e : ChainBlock)
      → lookup key blocks ≡ some e
      → Holds P e.block.header.height e.state
  pub heaviest :
      (t : ChainBlock) × (lookup tip_hash blocks ≡ some t)
      × ((key : Hex) (e : ChainBlock) → lookup key blocks ≡ some e → e.work ≤ t.work)

-- The same block, with its state or without.
abbrev pub Cleared : ChainBlock → ChainBlock → Type 0
Cleared e e' =
    (e'.block ≡ e.block) × (e'.work ≡ e.work) × ((e'.state ≡ e.state) ⊎ (e'.state ≡ none))

-- The same blocks, some without their states.
pub record Prunes (blocks blocks' : Dict ChainBlock) : Type 0 where
  pub back :
      (key : Hex) (e' : ChainBlock)
      → lookup key blocks' ≡ some e'
      → (e : ChainBlock) × (lookup key blocks ≡ some e) × Cleared e e'
  pub forth :
      (key : Hex) (e : ChainBlock)
      → lookup key blocks ≡ some e
      → (e' : ChainBlock) × (lookup key blocks' ≡ some e') × Cleared e e'

Prunes-refl : (blocks : Dict ChainBlock) → Prunes blocks blocks
Prunes-refl blocks = record {
  back = λ key e h. (e, h, (refl, refl, inl refl));
  forth = λ key e h. (e, h, (refl, refl, inl refl));
}

Cleared-trans : (a b d : ChainBlock) → Cleared a b → Cleared b d → Cleared a d
Cleared-trans a b d (block, work, state) (block', work', inl kept) = (
  block' ∙ block,
  work' ∙ work,
  elim state [ inl s ↦ inl (kept ∙ s) | inr gone ↦ inr (kept ∙ gone) ],
)
Cleared-trans a b d (block, work, state) (block', work', inr gone) =
    (block' ∙ block, work' ∙ work, inr gone)

Prunes-trans : (a b d : Dict ChainBlock) → Prunes a b → Prunes b d → Prunes a d
Prunes-trans a b d p q = record {
  back = λ key e'' h.
      let (e', h', s') = q.back key e'' h in
      let (e, h₀, s) = p.back key e' h' in (e, h₀, Cleared-trans e e' e'' s s');
  forth = λ key e h.
      let (e', h', s) = p.forth key e h in
      let (e'', h'', s') = q.forth key e' h' in (e'', h'', Cleared-trans e e' e'' s s');
}

clear-Cleared : (e : ChainBlock) → Cleared e (record e { state = none })
clear-Cleared e = (refl, refl, inr refl)

-- A block stored in the place of one that it is, but for the state.
insert-Prunes :
    (k : Hex) (cb cb' : ChainBlock) (blocks : Dict ChainBlock)
    → lookup k blocks ≡ some cb
    → Cleared cb cb'
    → Prunes blocks (insert k cb' blocks)
insert-Prunes k cb cb' blocks found same = record {
  back = λ key e' h. elim (Bool-cases (bytes_eq key k)) [
    | inl this ↦
        let now : cb' ≡ e' = some-inj (rw (lookup-insert key k cb' blocks, this) at h) in
        (
          cb,
          subst (λ j. lookup j blocks ≡ some cb) (sym ((bytes_eq_iff key k).0 this)) found,
          subst (Cleared cb) now same,
        )
    | inr other ↦ (e', rw (lookup-insert key k cb' blocks, other) at h, (refl, refl, inl refl))
  ];
  forth = λ key e h. elim (Bool-cases (bytes_eq key k)) [
    | inl this ↦
        let was : cb ≡ e =
          some-inj
            (sym found ∙ ap (λ j. lookup j blocks) (sym ((bytes_eq_iff key k).0 this)) ∙ h) in
        (cb', rw (lookup-insert key k cb' blocks, this) refl, subst (λ a. Cleared a cb') was same)
    | inr other ↦ (e, rw (lookup-insert key k cb' blocks, other) h, (refl, refl, inl refl))
  ];
}

pub clear_state-Prunes : (k : Hex) (blocks : Dict ChainBlock) → Prunes blocks (clear_state k blocks)
unfolding clear_state
clear_state-Prunes k blocks = elim (Option-cases (lookup k blocks)) [
  | inl absent ↦ rw (absent, clear_state) (Prunes-refl blocks)
  | inr (cb, found) ↦
      rw (found, clear_state)
        (insert-Prunes k cb (record cb { state = none }) blocks found (clear-Cleared cb))
]

pub clear_states-Prunes :
    (keys : List Hex) (blocks : Dict ChainBlock) → Prunes blocks (clear_states keys blocks)
unfolding clear_states
clear_states-Prunes [] blocks = Prunes-refl blocks
clear_states-Prunes (k ∷ keys) blocks =
    Prunes-trans blocks (clear_state k blocks) (clear_states keys (clear_state k blocks))
      (clear_state-Prunes k blocks) (clear_states-Prunes keys (clear_state k blocks))

prune_height-Prunes :
    (c : Blockchain)
    → Prunes c.blocks (prune_height c).blocks × ((prune_height c).tip_hash ≡ c.tip_hash)
unfolding prune_height
prune_height-Prunes c = elim (Option-cases (at_height c.prune_floor c.by_height)) [
  | inl absent ↦ rw (absent, prune_height) (Prunes-refl c.blocks, refl)
  | inr (keys, found) ↦ rw (found, prune_height) (clear_states-Prunes keys c.blocks, refl)
]

prune_rounds-Prunes :
    (k : ℕ) (c : Blockchain)
    → Prunes c.blocks (prune_rounds k c).blocks × ((prune_rounds k c).tip_hash ≡ c.tip_hash)
unfolding prune_rounds
prune_rounds-Prunes zero c = (Prunes-refl c.blocks, refl)
prune_rounds-Prunes (suc k) c =
    let (p, t) = prune_height-Prunes c in
    let (q, u) = prune_rounds-Prunes k (prune_height c) in
    (Prunes-trans c.blocks (prune_height c).blocks _ p q, u ∙ t)

pub prune_states-Prunes :
    (height : ℕ) (c : Blockchain)
    → Prunes c.blocks (prune_states height c).blocks
      × ((prune_states height c).tip_hash ≡ c.tip_hash)
unfolding prune_states
prune_states-Prunes height c =
    prune_rounds-Prunes (height - c.state_retention_depth - c.prune_floor) c
