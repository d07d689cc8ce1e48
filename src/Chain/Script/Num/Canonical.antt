-- ===== src/Chain/Script/Num/Canonical.antt =====
-- A stack item that decodeNum accepts is the one that encodeNum gives for its value.

use browser_coin_native_mine.Prelude.{
  some-inj, ℕ, zero, suc, ◌+◌, ◌*◌, ◌/◌, ◌%◌, ◌<◌, ◌≤◌, ◌≡◌, refl, Bool, true, false, some, [], ◌∷◌,
  Bytes, IsBytes, leb, length, arith, Bool-cases, inl, inr, sym, ◌∙◌, ap,
}
use browser_coin_native_mine.Chain.Script.Num.{is_minimal, decode_num, encode_magnitude, encode_num}
use browser_coin_native_mine.Chain.Script.Num.Magnitude.{
  magnitude, is_negative, with_sign, decode_num_lem,
}
use browser_coin_native_mine.Chain.Script.Num.RoundTrip.{decode_num-nil}
use browser_coin_native_mine.Prelude.Int.{ℤ, pos}

magnitude_pos : (b : ℕ) (item : Bytes) → is_minimal (b ∷ item) ≡ true → 0 < magnitude (b ∷ item)
unfolding magnitude is_minimal
magnitude_pos b [] minimal = ground arith
magnitude_pos b (c ∷ []) minimal = ground arith
magnitude_pos b (c ∷ d ∷ item) minimal = ground (arith, magnitude_pos c (d ∷ item))

-- A low byte in front of an item that is encoded, where a byte of the item is left over.
cons_magnitude :
    (fuel b m : ℕ) (neg : Bool) (item : Bytes)
    → b < 256
    → 0 < m
    → encode_magnitude fuel neg m ≡ item
    → encode_magnitude (suc fuel) neg (b + 256 * m) ≡ b ∷ item
unfolding encode_magnitude
cons_magnitude fuel b m neg item lt p e =
    let q : (b + 256 * m) / 256 ≡ m = omega arith in
    let r : (b + 256 * m) % 256 ≡ b = omega arith in rw (q, r) (ground arith)

last_byte :
    (fuel b : ℕ)
    → b < 256
    → is_minimal (b ∷ []) ≡ true
    → encode_magnitude (suc fuel) (leb 0x80 b) (b % 0x80) ≡ b ∷ []
unfolding encode_magnitude is_minimal
last_byte fuel b lt m = ground arith

-- An item whose last byte is only there for the sign.
sign_byte :
    (fuel b c : ℕ) (item : Bytes)
    → IsBytes (b ∷ c ∷ item)
    → is_minimal (b ∷ c ∷ item) ≡ true
    → is_minimal (c ∷ item) ≡ false
    → encode_magnitude (suc fuel) (is_negative (c ∷ item)) (b + 256 * magnitude (c ∷ item))
      ≡ b ∷ c ∷ item
unfolding encode_magnitude is_minimal magnitude is_negative
sign_byte fuel b c [] h minimal outer = ground arith
sign_byte fuel b c (d ∷ item) h minimal outer = ground arith

encode_magnitude-magnitude :
    (fuel b : ℕ) (item : Bytes)
    → IsBytes (b ∷ item)
    → is_minimal (b ∷ item) ≡ true
    → magnitude (b ∷ item) ≤ fuel
    → encode_magnitude fuel (is_negative (b ∷ item)) (magnitude (b ∷ item)) ≡ b ∷ item
unfolding magnitude is_negative
encode_magnitude-magnitude zero b item h minimal f =
    absurd (omega (arith, magnitude_pos b item minimal))
encode_magnitude-magnitude (suc fuel) b [] h minimal f = last_byte fuel b h.0 minimal
encode_magnitude-magnitude (suc fuel) b (c ∷ item) h minimal f =
    elim (Bool-cases (is_minimal (c ∷ item))) [
      | inl inner ↦
          cons_magnitude fuel b (magnitude (c ∷ item)) _ (c ∷ item) h.0 (magnitude_pos c item inner)
            (encode_magnitude-magnitude fuel c item h.1 inner
              (omega (arith, magnitude_pos c item inner)))
      | inr not_inner ↦ sign_byte fuel b c item h minimal not_inner
    ]

decode_num-minimal :
    (b : ℕ) (item : Bytes) (max_bytes : ℕ) {v : ℤ}
    → decode_num (b ∷ item) max_bytes ≡ some v
    → (length (b ∷ item) ≤ max_bytes) × (is_minimal (b ∷ item) ≡ true)
unfolding decode_num
decode_num-minimal b item max_bytes h = ground arith

sign_found :
    (neg : Bool) (m : ℕ) {v : ℤ}
    → 0 < m
    → some (with_sign neg m) ≡ some v
    → encode_num v ≡ encode_magnitude m neg m
unfolding encode_num
sign_found neg zero p h = absurd (omega arith)
sign_found true (suc m) p h = ap encode_num (sym (some-inj h)) ∙ ground arith
sign_found false (suc m) p h = ap encode_num (sym (some-inj h))

encode_num-zero : encode_num (pos 0) ≡ []
unfolding encode_num
encode_num-zero = refl

-- An item of bytes that is accepted as an integer is the encoding of this integer: no integer has two
-- encodings.
pub encode_num-decode_num :
    (item : Bytes) (max_bytes : ℕ) {v : ℤ}
    → IsBytes item
    → decode_num item max_bytes ≡ some v
    → encode_num v ≡ item
encode_num-decode_num [] max_bytes h e =
    ap encode_num (sym (some-inj (sym (decode_num-nil max_bytes) ∙ e))) ∙ encode_num-zero
encode_num-decode_num (b ∷ item) max_bytes {v} h e =
    let (fits, minimal) = decode_num-minimal b item max_bytes e in
    sign_found _ _ (magnitude_pos b item minimal)
      (sym (decode_num_lem b item max_bytes h fits minimal) ∙ e)
    ∙ encode_magnitude-magnitude (magnitude (b ∷ item)) b item h minimal (omega arith)
