-- ===== src/Net/FastSync/Sampling.antt =====
-- src/net/fastSync.ts: the indices of the headers whose proof of work is checked.
use browser_coin_native_mine.Prelude.{
  ℕ, List, ◌≤◌, ◌++◌, ◌+◌, ◌≡◌, All, ◌<◌, true, ◌∷◌, arith, min, suc, Bool-cases, [], ◌-◌, inl,
  ==_iff, ◌==◌, zero, ltb, inr, refl, take,
}
use browser_coin_native_mine.Net.FastSync.{
  pow_indices, add_samples, add_recent, has_index, add_index,
}

has_index-append : (i : ℕ) (xs ys : List ℕ) → has_index i xs ≡ true → has_index i (xs ++ ys) ≡ true
unfolding has_index
has_index-append i [] ys h = absurd (cc)
has_index-append i (x ∷ xs) ys h = elim (Bool-cases (i == x)) [
  | inl here ↦ rw here refl
  | inr apart ↦ rw apart (has_index-append i xs ys (rw apart at h))
]

has_index-last : (i : ℕ) (xs : List ℕ) → has_index i (xs ++ (i ∷ [])) ≡ true
unfolding has_index
has_index-last i [] = rw ((==_iff i i).1 refl) refl
has_index-last i (x ∷ xs) = elim (Bool-cases (i == x)) [
  | inl here ↦ rw here refl
  | inr apart ↦ rw apart (has_index-last i xs)
]

add_index-kept :
    (i j : ℕ) (idxs : List ℕ) → has_index i idxs ≡ true → has_index i (add_index j idxs) ≡ true
add_index-kept i j idxs h = elim (Bool-cases (has_index j idxs)) [
  | inl there ↦ rw there h
  | inr new ↦ rw new (has_index-append i idxs (j ∷ []) h)
]

add_index-added : (i : ℕ) (idxs : List ℕ) → has_index i (add_index i idxs) ≡ true
add_index-added i idxs = elim (Bool-cases (has_index i idxs)) [
  | inl there ↦ rw there there
  | inr new ↦ rw new (has_index-last i idxs)
]

add_recent-kept :
    (n from i : ℕ) (idxs : List ℕ)
    → has_index i idxs ≡ true
    → has_index i (add_recent n from idxs) ≡ true
unfolding add_recent
add_recent-kept zero from i idxs h = h
add_recent-kept (suc n) from i idxs h =
    add_recent-kept n (from + 1) i (add_index from idxs) (add_index-kept i from idxs h)

add_recent-added :
    (n from i : ℕ) (idxs : List ℕ)
    → from ≤ i
    → i < from + n
    → has_index i (add_recent n from idxs) ≡ true
unfolding add_recent
add_recent-added zero from i idxs above below = absurd (omega (arith, above, below))
add_recent-added (suc n) from i idxs above below = elim (Bool-cases (i == from)) [
  | inl first ↦
      let same = (==_iff i from).0 first in
      add_recent-kept n (from + 1) i (add_index from idxs) (rw same (add_index-added from idxs))
  | inr later ↦
      add_recent-added n (from + 1) i (add_index from idxs) (ground (arith, above, later))
        (omega (arith, below))
]

add_samples-kept :
    (start i : ℕ) (samples idxs : List ℕ)
    → has_index i idxs ≡ true
    → has_index i (add_samples start samples idxs) ≡ true
unfolding add_samples
add_samples-kept start i [] idxs h = h
add_samples-kept start i (sample ∷ samples) idxs h =
    add_samples-kept start i samples (add_index (min (start - 1) sample) idxs)
      (add_index-kept i (min (start - 1) sample) idxs h)

All-add_index :
    (limit j : ℕ) (idxs : List ℕ)
    → j ≤ limit
    → All (λ i. i ≤ limit) idxs
    → All (λ i. i ≤ limit) (add_index j idxs)
All-add_index limit j idxs h all = elim (Bool-cases (has_index j idxs)) [
  | inl there ↦ rw there all
  | inr new ↦ rw new (All-snoc idxs all)
]
  where
    All-snoc : (xs : List ℕ) → All (λ i. i ≤ limit) xs → All (λ i. i ≤ limit) (xs ++ (j ∷ []))
    All-snoc [] all = (h, tt)
    All-snoc (x ∷ xs) all = (all.0, All-snoc xs all.1)

All-add_recent :
    (limit n from : ℕ) (idxs : List ℕ)
    → from + n ≤ limit + 1
    → All (λ i. i ≤ limit) idxs
    → All (λ i. i ≤ limit) (add_recent n from idxs)
unfolding add_recent
All-add_recent limit zero from idxs h all = all
All-add_recent limit (suc n) from idxs h all =
    All-add_recent limit n (from + 1) (add_index from idxs) (omega (arith, h))
      (All-add_index limit from idxs (omega (arith, h)) all)

All-add_samples :
    (limit start : ℕ) (samples idxs : List ℕ)
    → start ≤ limit + 1
    → All (λ i. i ≤ limit) idxs
    → All (λ i. i ≤ limit) (add_samples start samples idxs)
unfolding add_samples
All-add_samples limit start [] idxs h all = all
All-add_samples limit start (sample ∷ samples) idxs h all =
    All-add_samples limit start samples (add_index (min (start - 1) sample) idxs) h
      (All-add_index limit (min (start - 1) sample) idxs (omega (arith, h)) all)

-- Whatever is sampled: the proof of work is checked of every one of the last 160 headers up to the
-- anchor, and no index behind the anchor is taken.
pub pow_indices-cover :
    (anchor_idx : ℕ) (samples : List ℕ)
    → ((i : ℕ)
        → i ≤ anchor_idx
        → anchor_idx < i + 160
        → has_index i (pow_indices anchor_idx samples) ≡ true)
      × All (λ i. i ≤ anchor_idx) (pow_indices anchor_idx samples)
unfolding pow_indices
pow_indices-cover anchor_idx samples =
    let start = anchor_idx + 1 - 160 in
    let recent = add_recent (anchor_idx + 1 - start) start [] in
    let added = λ (i : ℕ) (below : i ≤ anchor_idx) (near : anchor_idx < i + 160).
      add_recent-added (anchor_idx + 1 - start) start i [] (omega (arith, below, near))
        (omega (arith, below, near)) in
    let inside = All-add_recent anchor_idx (anchor_idx + 1 - start) start [] (omega arith) tt in
    elim (Bool-cases (ltb 0 start)) [
      | inl more ↦
          rw (more, pow_indices)
            (
              λ i below near.
                  add_samples-kept start i (take 64 samples) recent (added i below near),
              All-add_samples anchor_idx start (take 64 samples) recent (omega arith) inside,
            )
      | inr all ↦ rw (all, pow_indices) (added, inside)
    ]
