-- ===== src/Chain/Consensus/Median.antt =====
-- medianTimePast: the middle of the window.
use browser_coin_native_mine.Prelude.{
  ℕ, ◌≡◌, refl, List, length, All, suc, ◌<◌, ◌∷◌, arith, [], get_elem?, ◌∙◌, Bool-cases, leb, some,
  ap, ◌/◌, inl, zero, inr,
}
use browser_coin_native_mine.Chain.Block.{BlockHeader}
use browser_coin_native_mine.Chain.Consensus.{sort, median_time_past, insert_sorted, window}

length-insert_sorted : (t : ℕ) (ts : List ℕ) → length (insert_sorted t ts) ≡ suc (length ts)
unfolding insert_sorted
length-insert_sorted t [] = refl
length-insert_sorted t (u ∷ us) = ground (arith, length-insert_sorted t us)

length-sort : (ts : List ℕ) → length (sort ts) ≡ length ts
unfolding sort
length-sort [] = refl
length-sort (t ∷ ts) = length-insert_sorted t (sort ts) ∙ ap suc (length-sort ts)

module _ (P : ℕ → Type 0) where
  All-insert_sorted : (t : ℕ) (ts : List ℕ) → P t → All P ts → All P (insert_sorted t ts)
  unfolding insert_sorted
  All-insert_sorted t [] p h = (p, tt)
  All-insert_sorted t (u ∷ us) p h = elim (Bool-cases (leb t u)) [
    | inl first ↦ rw first (p, h)
    | inr later ↦ rw later (h.0, All-insert_sorted t us p h.1)
  ]

  All-sort : (ts : List ℕ) → All P ts → All P (sort ts)
  unfolding sort
  All-sort [] h = tt
  All-sort (t ∷ ts) h = All-insert_sorted t (sort ts) h.0 (All-sort ts h.1)

  All-get_elem? :
      (ts : List ℕ) (i : ℕ) → All P ts → i < length ts → (t : ℕ) × (get_elem? ts i ≡ some t) × P t
  All-get_elem? [] i h k = absurd (omega arith)
  All-get_elem? (t ∷ ts) zero h k = (t, refl, h.0)
  All-get_elem? (t ∷ ts) (suc i) h k = All-get_elem? ts i h.1 (omega arith)

  -- What all timestamps of the window have, the median has, if there are any: it is one of them.
  pub median_time_past-All :
      (headers : List BlockHeader)
      → 0 < length (window headers)
      → All P (window headers)
      → P (median_time_past headers)
  unfolding median_time_past
  median_time_past-All headers some_header h =
      let ts = window headers in
      let (t, found, p) =
        All-get_elem? (sort ts) (length ts / 2) (All-sort ts h) (omega (arith, length-sort ts)) in
      rw (found, median_time_past) p
