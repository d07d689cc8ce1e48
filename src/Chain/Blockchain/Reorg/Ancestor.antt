-- ===== src/Chain/Blockchain/Reorg/Ancestor.antt =====
-- src/chain/blockchain.ts, reorgDelta: the branches above a common ancestor.
use mathlib.Core.Path.{subst}
use browser_coin_native_mine.Prelude.{
  ℕ, List, ◌≢◌, length, some-inj, ap, ◌++◌, [], ◌≡◌, some, ◌≤◌, suc, inl, ◌+◌, ◌∷◌, arith, inr,
  Bool-cases, ltb, zero, ltb→lt, ◌∙◌, bytes_eq, sym, ◌-◌, bytes_eq_iff, ◌<◌, min, refl,
}
use browser_coin_native_mine.Chain.Blockchain.{
  ChainBlock, prev_key, Blockchain, new_blockchain, genesis_key,
}
use browser_coin_native_mine.Chain.Blockchain.Reach.{Reaches, Minted, Reaches-IsTree}
use browser_coin_native_mine.Chain.Blockchain.Reorg.{lower, lower_both, reorg_delta, branches}
use browser_coin_native_mine.Chain.Blockchain.Tree.{IsTree}
use browser_coin_native_mine.Chain.Crypto.{Crypto}
use browser_coin_native_mine.Chain.State.{State}
use browser_coin_native_mine.Prelude.Dict.{Dict, lookup}
use browser_coin_native_mine.Util.Hex.{Hex}

-- The blocks from a hash down to another one, which is not among them, nor is one of height 0.
pub data Descends (blocks : Dict ChainBlock) : Hex → List ChainBlock → Hex → Type 0 where
  arrives : {key : Hex} → Descends blocks key [] key
  steps :
      {key last : Hex} {cb : ChainBlock} {cbs : List ChainBlock}
      → lookup key blocks ≡ some cb
      → 0 < cb.block.header.height
      → Descends blocks (prev_key cb) cbs last
      → Descends blocks key (cb ∷ cbs) last

Descends-append :
    {blocks : Dict ChainBlock} {a b d : Hex} {xs ys : List ChainBlock}
    → Descends blocks a xs b
    → Descends blocks b ys d
    → Descends blocks a (xs ++ ys) d
Descends-append arrives q = q
Descends-append (steps found up p) q = steps found up (Descends-append p q)

-- The hash is known, at this height.
abbrev IsAt : Dict ChainBlock → Hex → ℕ → Type 0
IsAt blocks key height =
    (cb : ChainBlock) × (lookup key blocks ≡ some cb) × (cb.block.header.height ≡ height)

-- No known block that both hashes run down to is higher than this.
abbrev pub IsHighest : Dict ChainBlock → Hex → Hex → ℕ → Type 0
IsHighest blocks a_key b_key height =
    (key : Hex) (cb : ChainBlock) (xs ys : List ChainBlock)
    → lookup key blocks ≡ some cb
    → Descends blocks a_key xs key
    → Descends blocks b_key ys key
    → cb.block.header.height ≤ height

module _ (P : ℕ → State → Type 0) (blocks : Dict ChainBlock) (tip_hash root : Hex)
    (tree : IsTree P root blocks tip_hash) where
  -- Below a block that is not at height 0 there is its parent.
  pub parent_below :
      (key : Hex) (cb : ChainBlock) (height : ℕ)
      → lookup key blocks ≡ some cb
      → cb.block.header.height ≡ suc height
      → IsAt blocks (prev_key cb) height
  parent_below key cb height found above = elim (tree.hangs key cb found) [
    | inl (zeroed, _) ↦ absurd (omega (arith, zeroed, above))
    | inr (parent, known, next, _) ↦ (parent, known, omega (arith, next, above))
  ]

  -- A path goes down.
  Descends-height :
      {a_key key : Hex} {xs : List ChainBlock} (a cb : ChainBlock)
      → lookup a_key blocks ≡ some a
      → lookup key blocks ≡ some cb
      → Descends blocks a_key xs key
      → cb.block.header.height + length xs ≡ a.block.header.height
  Descends-height a cb a_found found arrives =
      let same : a ≡ cb = some-inj (sym a_found ∙ found) in
      ap (λ (k : ChainBlock). k.block.header.height + 0) (sym same) ∙ (omega arith)
  Descends-height {a_key} a cb a_found found (steps {cb = first} first_found up below) =
      let same : first ≡ a = some-inj (sym first_found ∙ a_found) in
      let level : first.block.header.height ≡ a.block.header.height =
        ap (λ (k : ChainBlock). k.block.header.height) same in
      let (parent, known, next) =
        parent_below a_key first (first.block.header.height - 1) first_found (omega (arith, up)) in
      let more = Descends-height parent cb known found below in omega (arith, more, level, next, up)

  -- The highest common hash below a block is that below its parent, if the other tip is lower.
  IsHighest-step :
      (a_key b_key : Hex) (a b : ChainBlock) (height : ℕ)
      → lookup a_key blocks ≡ some a
      → lookup b_key blocks ≡ some b
      → b.block.header.height < a.block.header.height
      → IsHighest blocks (prev_key a) b_key height
      → IsHighest blocks a_key b_key height
  IsHighest-step a_key b_key a b height a_found b_found more highest key cb _ ys found arrives
        b_down =
      let same : a ≡ cb = some-inj (sym a_found ∙ found) in
      let level = ap (λ (k : ChainBlock). k.block.header.height) same in
      let below = Descends-height b cb b_found found b_down in
      absurd (omega (arith, below, level, more))
  IsHighest-step a_key b_key a b height a_found b_found more highest key cb _ ys found
        (steps {cb = first} {cbs = cbs} first_found up a_down) b_down =
      let same : first ≡ a = some-inj (sym first_found ∙ a_found) in
      highest key cb cbs ys found
        (subst (λ (k : ChainBlock). Descends blocks (prev_key k) cbs key) same a_down) b_down

  -- So it is for two different hashes of the same height and their parents.
  IsHighest-step_both :
      (a_key b_key : Hex) (a b : ChainBlock) (height : ℕ)
      → lookup a_key blocks ≡ some a
      → lookup b_key blocks ≡ some b
      → a.block.header.height ≡ b.block.header.height
      → a_key ≢ b_key
      → IsHighest blocks (prev_key a) (prev_key b) height
      → IsHighest blocks a_key b_key height
  IsHighest-step_both a_key b_key a b height a_found b_found level apart highest key cb _ _ found
        arrives arrives =
      absurd (apart refl)
  IsHighest-step_both a_key b_key a b height a_found b_found level apart highest key cb _ _ found
        arrives (steps b_first b_up b_down) =
      let same : a ≡ cb = some-inj (sym a_found ∙ found) in
      let same_height = ap (λ (k : ChainBlock). k.block.header.height) same in
      let below = Descends-height b cb b_found found (steps b_first b_up b_down) in
      absurd (omega (arith, below, level, same_height))
  IsHighest-step_both a_key b_key a b height a_found b_found level apart highest key cb _ _ found
        (steps a_first a_up a_down) arrives =
      let same : b ≡ cb = some-inj (sym b_found ∙ found) in
      let same_height = ap (λ (k : ChainBlock). k.block.header.height) same in
      let below = Descends-height a cb a_found found (steps a_first a_up a_down) in
      absurd (omega (arith, below, level, same_height))
  IsHighest-step_both a_key b_key a b height a_found b_found level apart highest key cb _ _ found
        (steps {cb = first} {cbs = xs} a_first a_up a_down)
        (steps {cb = second} {cbs = ys} b_first b_up b_down) =
      let same : first ≡ a = some-inj (sym a_first ∙ a_found) in
      let same' : second ≡ b = some-inj (sym b_first ∙ b_found) in
      highest key cb xs ys found
        (subst (λ (k : ChainBlock). Descends blocks (prev_key k) xs key) same a_down)
        (subst (λ (k : ChainBlock). Descends blocks (prev_key k) ys key) same' b_down)

  IsHighest-level :
      (a_key b_key : Hex) (a : ChainBlock)
      → lookup a_key blocks ≡ some a
      → IsHighest blocks a_key b_key a.block.header.height
  IsHighest-level a_key b_key a a_found key cb xs ys found a_down b_down =
      let down = Descends-height a cb a_found found a_down in omega (arith, down)

  lower-Descends :
      (fuel : ℕ) (height : ℕ) (key : Hex) (cb : ChainBlock)
      → lookup key blocks ≡ some cb
      → cb.block.header.height ≤ fuel + height
      → Descends blocks key (lower fuel blocks height key).0 (lower fuel blocks height key).1
        × IsAt blocks (lower fuel blocks height key).1 (min cb.block.header.height height)
        × ((b_key : Hex) (b : ChainBlock) (top : ℕ)
            → lookup b_key blocks ≡ some b
            → b.block.header.height ≤ height
            → IsHighest blocks (lower fuel blocks height key).1 b_key top
            → IsHighest blocks key b_key top)
  unfolding lower
  lower-Descends zero height key cb found enough =
      (arrives, (cb, found, omega (arith, enough)), (λ b_key b top b_found low highest. highest))
  lower-Descends (suc fuel) height key cb found enough =
      elim (Bool-cases (ltb height cb.block.header.height)) [
        | inl higher ↦
            let more = ltb→lt _ _ higher in
            let (parent, known, next) =
              parent_below key cb (cb.block.header.height - 1) found (omega (arith, more)) in
            let (below, (last, last_found, last_height), lifts) =
              lower-Descends fuel height (prev_key cb) parent known
                (omega (arith, more, next, enough)) in
            rw (found, higher, lower)
              (
                steps found (omega (arith, more)) below,
                (last, last_found, omega (arith, more, next, last_height)),
                (λ b_key b top b_found low highest.
                    IsHighest-step key b_key cb b top found b_found (omega (arith, low, more))
                      (lifts b_key b top b_found low highest)),
              )
        | inr level ↦
            let at_most : cb.block.header.height ≤ height = ground (arith, level) in
            rw (found, level, lower)
              (
                arrives,
                (cb, found, omega (arith, at_most)),
                (λ b_key b top b_found low highest. highest),
              )
      ]

  -- There is one block at height 0.
  same_root :
      (height : ℕ) (a_key b_key : Hex) (a b : ChainBlock)
      → lookup a_key blocks ≡ some a
      → lookup b_key blocks ≡ some b
      → a.block.header.height ≡ height
      → b.block.header.height ≡ height
      → height ≡ 0
      → a_key ≡ b_key
  same_root height a_key b_key a b a_found b_found a_height b_height zeroed =
      tree.rooted a_key a a_found (a_height ∙ zeroed)
      ∙ sym (tree.rooted b_key b b_found (b_height ∙ zeroed))

  -- The two lists run down to the highest common hash, a known one.
  abbrev Ancestor : Hex → Hex → List ChainBlock × List ChainBlock → Type 0
  Ancestor a_key b_key both =
      (last : Hex) × (top : ChainBlock) × (lookup last blocks ≡ some top)
      × Descends blocks a_key both.0 last
      × Descends blocks b_key both.1 last
      × IsHighest blocks a_key b_key top.block.header.height

  lower_both-Descends :
      (fuel : ℕ) (height : ℕ) (a_key b_key : Hex)
      → height ≤ fuel
      → IsAt blocks a_key height
      → IsAt blocks b_key height
      → Ancestor a_key b_key (lower_both fuel blocks a_key b_key)
  unfolding lower_both
  lower_both-Descends zero height a_key b_key enough (a, a_found, a_height) (b, b_found, b_height) =
      let same =
        same_root height a_key b_key a b a_found b_found a_height b_height
          (omega (arith, enough)) in
      (
        a_key,
        a,
        a_found,
        arrives,
        subst (λ k. Descends blocks k [] a_key) same arrives,
        IsHighest-level a_key b_key a a_found,
      )
  lower_both-Descends (suc fuel) height a_key b_key enough (a, a_found, a_height)
        (b, b_found, b_height) =
      elim (Bool-cases (bytes_eq a_key b_key)) [
        | inl met ↦
            rw (a_found, b_found, met, lower_both)
              (
                a_key,
                a,
                a_found,
                arrives,
                subst (λ k. Descends blocks k [] a_key) ((bytes_eq_iff a_key b_key).0 met) arrives,
                IsHighest-level a_key b_key a a_found,
              )
        | inr apart ↦
            let positive : 0 < height = elim (Bool-cases (ltb 0 height)) [
              | inl more ↦ ltb→lt _ _ more
              | inr zeroed ↦
                  let same =
                    same_root height a_key b_key a b a_found b_found a_height b_height
                      (ground (arith, zeroed)) in
                  absurd (cc (apart, (bytes_eq_iff a_key b_key).1 same))
            ] in
            let (last, top, top_found, a_down, b_down, highest) =
              lower_both-Descends fuel (height - 1) (prev_key a) (prev_key b)
                (omega (arith, enough))
                (parent_below a_key a (height - 1) a_found (omega (arith, positive, a_height)))
                (parent_below b_key b (height - 1) b_found (omega (arith, positive, b_height))) in
            rw (a_found, b_found, apart, lower_both)
              (
                last,
                top,
                top_found,
                steps a_found (omega (arith, positive, a_height)) a_down,
                steps b_found (omega (arith, positive, b_height)) b_down,
                IsHighest-step_both a_key b_key a b top.block.header.height a_found b_found
                    (a_height ∙ sym b_height)
                    (λ same. absurd (cc (apart, (bytes_eq_iff a_key b_key).1 same))) highest,
              )
      ]

  swapped :
      {a_key b_key : Hex} {height : ℕ}
      → IsHighest blocks a_key b_key height
      → IsHighest blocks b_key a_key height
  swapped highest key cb xs ys found b_down a_down = highest key cb ys xs found a_down b_down

  branches-Descends :
      (old_tip new_tip : Hex) (a b : ChainBlock)
      → lookup old_tip blocks ≡ some a
      → lookup new_tip blocks ≡ some b
      → Ancestor old_tip new_tip (branches blocks old_tip new_tip)
  unfolding branches
  branches-Descends old_tip new_tip a b a_found b_found =
      let a_height = a.block.header.height in
      let b_height = b.block.header.height in
      let (old_down, (a', a'_found, a'_height), old_lifts) =
        lower-Descends a_height b_height old_tip a a_found (omega arith) in
      let (new_down, (b', b'_found, b'_height), new_lifts) =
        lower-Descends b_height a'.block.header.height new_tip b b_found (omega arith) in
      let old = lower a_height blocks b_height old_tip in
      let new = lower b_height blocks a'.block.header.height new_tip in
      let (last, top, top_found, a_down, b_down, highest) =
        lower_both-Descends a_height a'.block.header.height old.1 new.1 (omega (arith, a'_height))
          (a', a'_found, refl) (b', b'_found, omega (arith, a'_height, b'_height)) in
      rw (a_found, b_found, a'_found, branches)
        (
          last,
          top,
          top_found,
          Descends-append old_down a_down,
          Descends-append new_down b_down,
          old_lifts new_tip b _ b_found (omega arith)
              (swapped (new_lifts old.1 a' _ a'_found (omega arith) (swapped highest))),
        )

-- On every chain that blocks were added to, between two known tips, one above the other or on two
-- branches: the blocks that are disconnected are those from the old tip down to a known block, and the
-- blocks that are connected are those from the new tip down to it. It is the highest block that both
-- tips run down to.
pub reorg_delta-Descends :
    ⦃c : Crypto⦄ (depth : ℕ) (chain : Blockchain) (old_tip new_tip : Hex) (a b : ChainBlock)
    → Reaches (new_blockchain depth) chain
    → lookup old_tip chain.blocks ≡ some a
    → lookup new_tip chain.blocks ≡ some b
    → (last : Hex) × (top : ChainBlock) × (lookup last chain.blocks ≡ some top)
      × Descends chain.blocks old_tip (reorg_delta chain old_tip new_tip).disconnected last
      × Descends chain.blocks new_tip (reorg_delta chain old_tip new_tip).connected last
      × IsHighest chain.blocks old_tip new_tip top.block.header.height
unfolding reorg_delta
reorg_delta-Descends depth chain old_tip new_tip a b reached a_found b_found =
    branches-Descends Minted chain.blocks chain.tip_hash genesis_key (Reaches-IsTree depth reached)
      old_tip new_tip a b a_found b_found
