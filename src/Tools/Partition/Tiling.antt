-- ===== src/Tools/Partition/Tiling.antt =====
-- The ranges of a pool tile the space.
use mathlib.Core.Path.{subst}
use native.Mathlib.Nat.{mul-div-le}
use browser_coin_native_mine.Prelude.{
  ℕ, ◌≡◌, refl, List, length, ◌+◌, ◌∷◌, max, suc, ap, min, ◌*◌, ◌≤◌, zero, [], ◌==◌, ◌-◌, true,
  ==_iff, arith, false, ◌/◌,
}
use browser_coin_native_mine.Tools.Partition.{
  ranges_from, partition_nonce_space, NonceRange, nonce_space,
}

-- Each range begins where the one before it ends, from `lo` to `hi`.
abbrev pub Tiles : ℕ → ℕ → List NonceRange → Type 0
Tiles lo hi [] = lo ≡ hi
Tiles lo hi (r ∷ ranges) = (r.start ≡ lo) × (r.start ≤ r.end) × Tiles r.end hi ranges

length-ranges_from : (n lo hi step k i : ℕ) → length (ranges_from n lo hi step k i) ≡ k
unfolding ranges_from
length-ranges_from n lo hi step zero i = refl
length-ranges_from n lo hi step (suc k) i = ap suc (length-ranges_from n lo hi step k (i + 1))

ranges_from-Tiles :
    (n lo hi step k i : ℕ)
    → i + suc k ≡ n
    → lo + i * step + suc k * step ≤ hi
    → Tiles (lo + i * step) hi (ranges_from n lo hi step (suc k) i)
unfolding ranges_from
ranges_from-Tiles n lo hi step zero i e h =
    let last : (i == n - 1) ≡ true = (==_iff _ _).1 (omega arith) in
    rw last (refl, omega arith, refl)
ranges_from-Tiles n lo hi step (suc k) i e h =
    let inner : (i == n - 1) ≡ false = ground arith in
    rw inner
      (refl, omega arith, ranges_from-Tiles n lo hi step k (i + 1) (omega arith) (omega arith))

ranges_from-all :
    (n lo hi : ℕ) → 1 ≤ n → lo ≤ hi → Tiles lo hi (ranges_from n lo hi ((hi - lo) / n) n 0)
ranges_from-all zero lo hi some_worker order = absurd (omega arith)
ranges_from-all (suc m) lo hi some_worker order =
    let step = (hi - lo) / suc m in
    let fits : suc m * step ≤ hi - lo = mul-div-le (hi - lo) (suc m) in
    let start : lo + 0 * step ≡ lo = omega arith in
    subst (λ a. Tiles a hi (ranges_from (suc m) lo hi step (suc m) 0)) start
      (ranges_from-Tiles (suc m) lo hi step m 0 (omega arith) (omega (arith, fits)))

-- There is one range for each worker, at least one; they are in order and disjoint, and together they
-- are the requested space, cut to the nonces that there are.
pub partition_nonce_space-Tiles :
    (workers space_start space_end : ℕ)
    → (length (partition_nonce_space workers space_start space_end) ≡ max 1 workers)
      × Tiles
          (min space_start nonce_space)
          (max (min space_start nonce_space) (min space_end nonce_space))
          (partition_nonce_space workers space_start space_end)
unfolding partition_nonce_space
partition_nonce_space-Tiles workers space_start space_end = (
  length-ranges_from _ _ _ _ _ _,
  ranges_from-all (max 1 workers) (min space_start nonce_space)
      (max (min space_start nonce_space) (min space_end nonce_space)) (omega arith) (omega arith),
)
