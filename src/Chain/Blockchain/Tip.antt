-- ===== src/Chain/Blockchain/Tip.antt =====
-- src/chain/blockchain.ts: tipState, and the index by height that pruneStates reads.
pub mod Kept
pub mod Reach
use mathlib.Core.Path.{subst}
use browser_coin_native_mine.Prelude.{
  none, Result, ℕ, List, ap, ◌∷◌, Option-cases, ◌≡◌, All, inl, ◌++◌, Bool-cases, some, [], ◌∙◌,
  ◌==◌, inr, some-inj, sym, ==_iff, err, ok,
}
use browser_coin_native_mine.Chain.Block.{Block}
use browser_coin_native_mine.Chain.Blockchain.{
  Blockchain, ChainBlock, set_height, index_height, tip, at_height, drop_height,
}
use browser_coin_native_mine.Chain.Blockchain.Tree.{Prunes}
use browser_coin_native_mine.Chain.State.{State}
use browser_coin_native_mine.Prelude.Dict.{Dict, lookup}
use browser_coin_native_mine.Util.Hex.{Hex}

-- `tipState`, which throws where the state is not there.
unfoldable pub tip_state : Blockchain → Result State
tip_state chain = elim (tip chain) [
  | none ↦ err "Cannot read properties of undefined (reading 'state')"
  | some t ↦ elim t.state [ none ↦ err "tip state not materialized" | some s ↦ ok s ]
]

-- A known block at this height.
abbrev pub IsAt : Dict ChainBlock → ℕ → Hex → Type 0
IsAt blocks h key = (e : ChainBlock) × (lookup key blocks ≡ some e) × (e.block.header.height ≡ h)

-- Every row of the index lists known blocks at its height.
abbrev pub IsIndex : Dict ChainBlock → List (ℕ × List Hex) → Type 0
IsIndex blocks rows = All (λ (row : ℕ × List Hex). All (IsAt blocks row.0) row.1) rows

module _ (blocks blocks' : Dict ChainBlock)
    (keep : (h : ℕ) (key : Hex) → IsAt blocks h key → IsAt blocks' h key) where
  pub All-kept : (h : ℕ) (keys : List Hex) → All (IsAt blocks h) keys → All (IsAt blocks' h) keys
  All-kept h [] all = tt
  All-kept h (key ∷ keys) all = (keep h key all.0, All-kept h keys all.1)

  pub IsIndex-kept : (rows : List (ℕ × List Hex)) → IsIndex blocks rows → IsIndex blocks' rows
  IsIndex-kept [] all = tt
  IsIndex-kept (row ∷ rows) all = (All-kept row.0 row.1 all.0, IsIndex-kept rows all.1)

pub Prunes-IsAt :
    (blocks blocks' : Dict ChainBlock)
    → Prunes blocks blocks'
    → (h : ℕ) (key : Hex) → IsAt blocks h key
    → IsAt blocks' h key
Prunes-IsAt blocks blocks' p h key (e, found, height) =
    let (e', found', (same, work, state)) = p.forth key e found in
    (e', found', ap (λ (b : Block). b.header.height) same ∙ height)

module _ (blocks : Dict ChainBlock) where
  pub drop_height-IsIndex :
      (h : ℕ) (rows : List (ℕ × List Hex))
      → IsIndex blocks rows
      → IsIndex blocks (drop_height h rows)
  unfolding drop_height
  drop_height-IsIndex h [] all = tt
  drop_height-IsIndex h (row ∷ rows) all = elim (Bool-cases (h == row.0)) [
    | inl here ↦ rw here all.1
    | inr apart ↦ rw apart (all.0, drop_height-IsIndex h rows all.1)
  ]

  pub at_height-IsAt :
      (h : ℕ) (rows : List (ℕ × List Hex)) (keys : List Hex)
      → at_height h rows ≡ some keys
      → IsIndex blocks rows
      → All (IsAt blocks h) keys
  unfolding at_height
  at_height-IsAt h [] keys found all = absurd (cc)
  at_height-IsAt h (row ∷ rows) keys found all = elim (Bool-cases (h == row.0)) [
    | inl here ↦
        let bucket : row.1 ≡ keys = some-inj (rw here at found) in
        subst (λ (l : List Hex). All (IsAt blocks h) l) bucket
          (subst (λ (n : ℕ). All (IsAt blocks n) row.1) (sym ((==_iff h row.0).0 here)) all.0)
    | inr apart ↦ at_height-IsAt h rows keys (rw apart at found) all.1
  ]

  set_height-IsIndex :
      (h : ℕ) (keys : List Hex) (rows : List (ℕ × List Hex))
      → All (IsAt blocks h) keys
      → IsIndex blocks rows
      → IsIndex blocks (set_height h keys rows)
  unfolding set_height
  set_height-IsIndex h keys [] bucket all = (bucket, tt)
  set_height-IsIndex h keys (row ∷ rows) bucket all = elim (Bool-cases (h == row.0)) [
    | inl here ↦ rw here (bucket, all.1)
    | inr apart ↦ rw apart (all.0, set_height-IsIndex h keys rows bucket all.1)
  ]

  All-snoc :
      (h : ℕ) (keys : List Hex) (key : Hex)
      → All (IsAt blocks h) keys
      → IsAt blocks h key
      → All (IsAt blocks h) (keys ++ (key ∷ []))
  All-snoc h [] key all at = (at, tt)
  All-snoc h (k ∷ keys) key all at = (all.0, All-snoc h keys key all.1 at)

  pub index_height-IsIndex :
      (h : ℕ) (key : Hex) (rows : List (ℕ × List Hex))
      → IsAt blocks h key
      → IsIndex blocks rows
      → IsIndex blocks (index_height h key rows)
  unfolding index_height
  index_height-IsIndex h key rows at all = elim (Option-cases (at_height h rows)) [
    | inl absent ↦ rw (absent, index_height) (set_height-IsIndex h (key ∷ []) rows (at, tt) all)
    | inr (keys, found) ↦
        rw (found, index_height)
          (set_height-IsIndex h (keys ++ (key ∷ [])) rows
            (All-snoc h keys key (at_height-IsAt h rows keys found all) at) all)
  ]
