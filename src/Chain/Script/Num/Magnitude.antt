-- ===== src/Chain/Script/Num/Magnitude.antt =====
-- A stack item split into its magnitude and its sign, and `decode_num` in these terms.

use native.Mathlib.Numerals.{towards_suc}
use browser_coin_native_mine.Prelude.{
  ℕ, zero, suc, ◌+◌, ◌-◌, ◌*◌, ◌%◌, ◌^◌, ◌<◌, ◌≤◌, ◌≡◌, refl, Bool, true, false, some, [], ◌∷◌,
  Bytes, IsBytes, leb, if◌then◌else◌, length, arith,
}
use browser_coin_native_mine.Chain.Script.Num.{le_value, is_minimal, signed_value, decode_num}
use browser_coin_native_mine.Prelude.Int.{ℤ, pos, sub_ℕ}

-- The sign bit of an item of `n` bytes.
sign_bit : ℕ → ℕ
sign_bit zero = 0
sign_bit (suc zero) = 0x80
sign_bit (suc (suc n)) = 256 * sign_bit (suc n)

sign_bit-eq-pow : (n : ℕ) → sign_bit (suc n) ≡ 2 ^ (8 * suc n - 1)
unfolding sign_bit
sign_bit-eq-pow zero = refl
sign_bit-eq-pow (suc n) =
    let step : 2 ^ (8 * suc n - 1 + 8) ≡ 256 * 2 ^ (8 * suc n - 1) =
      simp towards_suc (omega arith) in
    let same : 8 * suc (suc n) - 1 ≡ 8 * suc n - 1 + 8 = omega arith in
    rw (same, step, sign_bit-eq-pow n) refl

unfoldable pub magnitude : Bytes → ℕ
magnitude [] = 0
magnitude (b ∷ []) = b % 0x80
magnitude (b ∷ c ∷ item) = b + 256 * magnitude (c ∷ item)

unfoldable pub is_negative : Bytes → Bool
is_negative [] = false
is_negative (b ∷ []) = leb 0x80 b
is_negative (b ∷ c ∷ item) = is_negative (c ∷ item)

-- The integer of a magnitude and a sign.
abbrev pub with_sign : Bool → ℕ → ℤ
with_sign neg m = if neg then sub_ℕ 0 m else pos m

le_value_parts :
    (b : ℕ) (item : Bytes)
    → IsBytes (b ∷ item)
    → (le_value (b ∷ item)
        ≡ magnitude (b ∷ item)
          + (if is_negative (b ∷ item) then sign_bit (suc (length item)) else 0))
      × (magnitude (b ∷ item) < sign_bit (suc (length item)))
unfolding le_value magnitude is_negative sign_bit
le_value_parts b [] h = ground arith
le_value_parts b (c ∷ item) h = ground (arith, le_value_parts c item h.1)

pub signed_value-le_value :
    (b : ℕ) (item : Bytes)
    → IsBytes (b ∷ item)
    → signed_value (le_value (b ∷ item)) (2 ^ (8 * length (b ∷ item) - 1))
      ≡ with_sign (is_negative (b ∷ item)) (magnitude (b ∷ item))
unfolding signed_value
signed_value-le_value b item h =
    rw (← sign_bit-eq-pow (length item)) (ground (arith, le_value_parts b item h))

-- A minimal item stays minimal behind a further low byte.
pub is_minimal-cons :
    (b c : ℕ) (item : Bytes) → is_minimal (c ∷ item) ≡ true → is_minimal (b ∷ c ∷ item) ≡ true
unfolding is_minimal
is_minimal-cons b c [] h = ground arith
is_minimal-cons b c (d ∷ item) h = ground arith

-- What a minimal item within the limit stands for.
pub decode_num_lem :
    (b : ℕ) (item : Bytes) (max_bytes : ℕ)
    → IsBytes (b ∷ item)
    → length (b ∷ item) ≤ max_bytes
    → is_minimal (b ∷ item) ≡ true
    → decode_num (b ∷ item) max_bytes
      ≡ some (with_sign (is_negative (b ∷ item)) (magnitude (b ∷ item)))
unfolding decode_num
decode_num_lem b item max_bytes h fits minimal = ground (arith, signed_value-le_value b item h)
