-- ===== src/Util/Compact/Rounding.antt =====
-- The loop of targetToCompact rounds a target down to three bytes.
use mathlib.Core.Path.{subst}
use native.Mathlib.Nat.{pow-suc}
use browser_coin_native_mine.Prelude.{
  ℕ, ◌≡◌, refl, ◌+◌, ◌*◌, ◌/◌, ◌≤◌, suc, arith, ◌<◌, Bool-cases, ◌^◌, ltb, inl, ltb→lt, inr, zero,
  sym, ◌⊎◌,
}
use browser_coin_native_mine.Util.Compact.{shrink}

-- A mantissa of at most three bytes, of exactly three after a round, and a number of rounds that
-- describe a target.
abbrev pub Rounds : ℕ → ℕ → ℕ × ℕ → Type 0
Rounds t exp (mant, e) =
    (k : ℕ) × (e ≡ exp + k)
    × (mant ≤ 0xffffff)
    × ((k ≡ 0) ⊎ (0x10000 ≤ mant))
    × (mant * 256 ^ k ≤ t)
    × (t < (mant + 1) * 256 ^ k)

scaled_lower : (m p t : ℕ) → m * p ≤ t / 256 → m * (p * 256) ≤ t
scaled_lower m p t h = omega arith

scaled_upper : (m p t : ℕ) → t / 256 < (m + 1) * p → t < (m + 1) * (p * 256)
scaled_upper m p t h = omega arith

one_more : (t exp : ℕ) (r : ℕ × ℕ) → 0xffffff < t → Rounds (t / 256) (exp + 1) r → Rounds t exp r
one_more t exp (mant, e) big (k, count, small, full, low, high) = (
  suc k,
  omega arith,
  small,
  inr (elim full [
    | inl none ↦
        let last : t / 256 < (mant + 1) * 256 ^ 0 =
          subst (λ n. t / 256 < (mant + 1) * 256 ^ n) none high in
        omega (arith, big, last)
    | inr three ↦ three
  ]),
  rw (pow-suc 256 k) (scaled_lower mant (256 ^ k) t low),
  rw (pow-suc 256 k) (scaled_upper mant (256 ^ k) t high),
)

shrink_lem : (fuel t exp : ℕ) → t ≤ fuel → Rounds t exp (shrink fuel t exp)
unfolding shrink
shrink_lem zero t exp h = (0, omega arith, omega arith, inl refl, omega arith, omega arith)
shrink_lem (suc fuel) t exp h = elim (Bool-cases (ltb 0xffffff t)) [
  | inl large ↦
      let big = ltb→lt _ _ large in
      let again : shrink (suc fuel) t exp ≡ shrink fuel (t / 256) (exp + 1) =
        rw (large, shrink) refl in
      subst (Rounds t exp) (sym again) (
        one_more t exp (shrink fuel (t / 256) (exp + 1)) big
          (shrink_lem fuel (t / 256) (exp + 1) (omega arith)))
  | inr fits ↦
      let small : t ≤ 0xffffff = ground (arith, fits) in
      let done : shrink (suc fuel) t exp ≡ (t, exp) = rw (fits, shrink) refl in
      subst (Rounds t exp) (sym done) (0, omega arith, small, inl refl, omega arith, omega arith)
]

-- With the target itself as fuel the loop of targetToCompact ends with a mantissa of at most three
-- bytes, and of exactly three if there was a round; this mantissa times a power of 256, one for each
-- round, is the target rounded down: one more in the mantissa would exceed it.
pub shrink-Rounds : (target : ℕ) → Rounds target 0 (shrink target target 0)
shrink-Rounds target = shrink_lem target target 0 (omega arith)
