-- ===== src/Chain/Blockchain/Seed/Lowest.antt =====
-- src/chain/blockchain.ts, lowestBodylessHeight: the scan for the lowest height without a body.
use mathlib.Core.Path.{subst}
use browser_coin_native_mine.Prelude.{
  All, ℕ, ◌≡◌, List, some, ◌∷◌, [], ◌<◌, ◌≤◌, none, ◌+◌, ◌⊎◌, Bool-cases, ◌==◌, arith, inl, suc,
  Option-cases, inr, zero, ==_iff, sym, refl, length, false,
}
use browser_coin_native_mine.Chain.Blockchain.{Blockchain, at_height, drop_height, set_height}
use browser_coin_native_mine.Chain.Blockchain.Seed.{lowest_bodyless_height, scan_bodyless, highest}
use browser_coin_native_mine.Util.Hex.{Hex}

-- The cursor is at most every height without a body, and is set where there is one.
abbrev pub IsScannable : Blockchain → Type 0
IsScannable chain =
    All (λ (row : ℕ × Hex). (0 < chain.bodyless_low) × (chain.bodyless_low ≤ row.0))
      chain.bodyless_by_height

module _ {ℓ κ} {V : Type ℓ} (P : ℕ → Type κ) where
  pub set_height-All :
      (h : ℕ) (v : V) (rows : List (ℕ × V))
      → P h
      → All (λ (row : ℕ × V). P row.0) rows
      → All (λ (row : ℕ × V). P row.0) (set_height h v rows)
  unfolding set_height
  set_height-All h v [] p all = (p, tt)
  set_height-All h v (e ∷ rows) p all = elim (Bool-cases (h == e.0)) [
    | inl here ↦ rw here (p, all.1)
    | inr not_here ↦ rw not_here (all.0, set_height-All h v rows p all.1)
  ]

  pub drop_height-All :
      (h : ℕ) (rows : List (ℕ × V))
      → All (λ (row : ℕ × V). P row.0) rows
      → All (λ (row : ℕ × V). P row.0) (drop_height h rows)
  unfolding drop_height
  drop_height-All h [] all = tt
  drop_height-All h (e ∷ rows) all = elim (Bool-cases (h == e.0)) [
    | inl here ↦ rw here all.1
    | inr not_here ↦ rw not_here (all.0, drop_height-All h rows all.1)
  ]

  pub at_height-All :
      (h : ℕ) (v : V) (rows : List (ℕ × V))
      → at_height h rows ≡ some v
      → All (λ (row : ℕ × V). P row.0) rows
      → P h
  unfolding at_height
  at_height-All h v [] found all = absurd (cc)
  at_height-All h v (e ∷ rows) found all = elim (Bool-cases (h == e.0)) [
    | inl here ↦ subst P (sym ((==_iff h e.0).0 here)) all.0
    | inr not_here ↦ at_height-All h v rows (rw not_here at found) all.1
  ]

-- No row has a height at which nothing is found.
absent-All :
    (h : ℕ) (rows : List (ℕ × Hex))
    → at_height h rows ≡ none
    → All (λ (row : ℕ × Hex). ¬ (h ≡ row.0)) rows
unfolding at_height
absent-All h [] e = tt
absent-All h (row ∷ rows) e = elim (Bool-cases (h == row.0)) [
  | inl here ↦ absurd (cc (rw here at e))
  | inr not_here ↦ (
    λ same. absurd (cc (not_here, (==_iff h row.0).1 same)),
    absent-All h rows (rw not_here at e),
  )
]

-- A height that is not there is not the lowest one.
raise :
    (h : ℕ) (rows : List (ℕ × Hex))
    → All (λ (row : ℕ × Hex). ¬ (h ≡ row.0)) rows
    → All (λ (row : ℕ × Hex). h ≤ row.0) rows
    → All (λ (row : ℕ × Hex). h + 1 ≤ row.0) rows
raise h [] other above = tt
raise h (row ∷ rows) other above =
    let not_here = other.0 in
    let more = above.0 in (omega (arith, not_here, more), raise h rows other.1 above.1)

-- Some row of the index is at this height, and none at a lower one.
pub record IsLowest (low : ℕ) (rows : List (ℕ × Hex)) : Type 0 where
  pub key : Hex
  pub found : at_height low rows ≡ some key
  pub least : All (λ (r : ℕ × Hex). low ≤ r.0) rows

-- The rounds that are left reach the height of some row.
scan_bodyless-IsLowest :
    (fuel : ℕ) (rows : List (ℕ × Hex)) (low : ℕ) (h : ℕ)
    → All (λ (r : ℕ × Hex). low ≤ r.0) rows
    → low ≤ h
    → h < low + fuel
    → ¬ (at_height h rows ≡ none)
    → IsLowest (scan_bodyless fuel rows low) rows
unfolding scan_bodyless
scan_bodyless-IsLowest zero rows low h above first enough some_row =
    absurd (omega (arith, first, enough))
scan_bodyless-IsLowest (suc fuel) rows low h above first enough some_row =
    elim (Option-cases (at_height low rows)) [
      | inr (key, found) ↦
          rw (found, scan_bodyless) (record { key = key; found = found; least = above })
      | inl absent ↦
          let higher : ¬ (low ≡ h) =
            λ same. some_row (subst (λ l. at_height l rows ≡ none) same absent) in
          rw (absent, scan_bodyless)
            (scan_bodyless-IsLowest fuel rows (low + 1) h
              (raise low rows (absent-All low rows absent) above) (omega (arith, higher, first))
              (omega (arith, enough)) some_row)
    ]

first_there : (row : ℕ × Hex) (rows : List (ℕ × Hex)) → ¬ (at_height row.0 (row ∷ rows) ≡ none)
unfolding at_height
first_there row rows e = let same = (==_iff row.0 row.0).1 refl in absurd (cc (rw same at e))

rows_cases :
    (rows : List (ℕ × Hex))
    → (rows ≡ []) ⊎ ((row : ℕ × Hex) × (rest : List (ℕ × Hex)) × (rows ≡ row ∷ rest))
rows_cases [] = inl refl
rows_cases (row ∷ rows) = inr (row, rows, refl)

pub All-imp {κ μ} :
    (P : ℕ → Type κ) (Q : ℕ → Type μ)
    → ((n : ℕ) → P n → Q n)
    → (rows : List (ℕ × Hex)) → All (λ (row : ℕ × Hex). P row.0) rows
    → All (λ (row : ℕ × Hex). Q row.0) rows
All-imp P Q f [] all = tt
All-imp P Q f (row ∷ rows) all = (f row.0 all.0, All-imp P Q f rows all.1)

pub All-second :
    (A : Type 0) (low : ℕ) (rows : List (ℕ × Hex))
    → All (λ (row : ℕ × Hex). A × (low ≤ row.0)) rows
    → All (λ (row : ℕ × Hex). low ≤ row.0) rows
All-second A low [] all = tt
All-second A low (row ∷ rows) all = (all.0.1, All-second A low rows all.1)

scan_some :
    (rows rest : List (ℕ × Hex)) (low : ℕ) (row : ℕ × Hex)
    → rows ≡ row ∷ rest
    → All (λ (r : ℕ × Hex). low ≤ r.0) rows
    → IsLowest (scan_bodyless (highest rows + 1) rows low) rows
scan_some rows rest low row shape above =
    let first : low ≤ row.0 = (rw shape at above).0 in
    let below : row.0 ≤ highest rows = rw shape (omega arith) in
    scan_bodyless-IsLowest (highest rows + 1) rows low row.0 above first (omega (arith, below))
      (rw shape (first_there row rest))

-- Where the cursor is at most every height without a body, the scan ends: at the lowest height
-- without a body, or at 0 where none are missing.
pub lowest_bodyless_height-IsLowest :
    (chain : Blockchain)
    → IsScannable chain
    → ((chain.bodyless_by_height ≡ []) × ((lowest_bodyless_height chain).0 ≡ 0))
      ⊎ IsLowest (lowest_bodyless_height chain).0 chain.bodyless_by_height
unfolding lowest_bodyless_height
lowest_bodyless_height-IsLowest chain h = elim (rows_cases chain.bodyless_by_height) [
  | inl empty ↦ inl (empty, rw empty refl)
  | inr (row, rest, shape) ↦
      let low =
        scan_some chain.bodyless_by_height rest chain.bodyless_low row shape (All-second _ _ _ h) in
      let some_rows : (length chain.bodyless_by_height == 0) ≡ false = rw shape (ground arith) in
      inr (rw (some_rows, lowest_bodyless_height) low)
]
