-- ===== src/Chain/Script/Num/RoundTrip.antt =====
-- encodeNum and decodeNum are inverse to one another, and the length of an encoded integer.
use mathlib.Core.Path.{subst}
use native.Mathlib.Nat.{pow-suc}
use browser_coin_native_mine.Prelude.{
  Bool-cases, leb→le, inl, inr, sym, ◌∙◌, ℕ, zero, suc, ◌+◌, ◌*◌, ◌/◌, ◌%◌, ◌^◌, ◌<◌, ◌≤◌, ◌≡◌,
  Bool, true, false, some, [], ◌∷◌, Bytes, IsBytes, leb, if◌then◌else◌, length, arith,
}
use browser_coin_native_mine.Chain.Script.Num.{is_minimal, decode_num, encode_magnitude, encode_num}
use browser_coin_native_mine.Chain.Script.Num.Magnitude.{
  magnitude, is_negative, with_sign, is_minimal-cons, decode_num_lem,
}
use browser_coin_native_mine.Prelude.Int.{ℤ, pos, negsuc, pos_part, neg_part}

-- What an item that encodes a positive magnitude looks like.
record Encodes (neg : Bool) (abs : ℕ) (item : Bytes) : Type 0 where
  bytes : IsBytes item
  nonempty : 0 < length item
  same_magnitude : magnitude item ≡ abs
  same_sign : is_negative item ≡ neg
  minimal : is_minimal item ≡ true

Encodes-cons :
    (neg : Bool) (abs b : ℕ) (item : Bytes)
    → b < 256
    → Encodes neg abs item
    → Encodes neg (b + 256 * abs) (b ∷ item)
unfolding magnitude is_negative
Encodes-cons neg abs b [] lt e = absurd (omega (arith, e.nonempty))
Encodes-cons neg abs b (c ∷ item) lt e = record {
  bytes = (lt, e.bytes);
  nonempty = omega arith;
  same_magnitude = rw e.same_magnitude;
  same_sign = e.same_sign;
  minimal = is_minimal-cons b c item e.minimal;
}

last_Encodes :
    (neg : Bool) (abs : ℕ)
    → 0 < abs
    → abs < 256
    → Encodes neg abs (
        if leb 0x80 abs
        then abs ∷ (if neg then 0x80 else 0) ∷ []
        else (if neg then abs + 0x80 else abs) ∷ [])
unfolding magnitude is_negative is_minimal
last_Encodes true abs p h = ground arith
last_Encodes false abs p h = ground arith

encode_magnitude-Encodes :
    (fuel : ℕ) (neg : Bool) (abs : ℕ)
    → 0 < abs
    → abs ≤ fuel
    → Encodes neg abs (encode_magnitude fuel neg abs)
unfolding encode_magnitude
encode_magnitude-Encodes zero neg abs p h = absurd (omega arith)
encode_magnitude-Encodes (suc fuel) neg abs p h = elim (Bool-cases (leb 256 abs)) [
  | inl large ↦
      let e : abs ≡ abs % 256 + 256 * (abs / 256) = omega arith in
      let further : Encodes neg (abs / 256) (encode_magnitude fuel neg (abs / 256)) =
        encode_magnitude-Encodes fuel neg (abs / 256) (omega (arith, leb→le 256 abs large))
          (omega (arith, leb→le 256 abs large)) in
      rw large (
        subst (λ k. Encodes neg k (abs % 256 ∷ encode_magnitude fuel neg (abs / 256))) (sym e)
          (Encodes-cons neg (abs / 256) (abs % 256) _ (omega arith) further))
  | inr small ↦ rw small (last_Encodes neg abs p (ground arith))
]

decode_num-Encodes :
    (neg : Bool) (abs max_bytes : ℕ) (item : Bytes)
    → Encodes neg abs item
    → length item ≤ max_bytes
    → decode_num item max_bytes ≡ some (with_sign neg abs)
decode_num-Encodes neg abs max_bytes [] e fits = absurd (omega (arith, e.nonempty))
decode_num-Encodes neg abs max_bytes (b ∷ item) e fits =
    decode_num_lem b item max_bytes e.bytes fits e.minimal ∙ rw (e.same_magnitude, e.same_sign)

pub decode_num-nil : (max_bytes : ℕ) → decode_num [] max_bytes ≡ some (pos 0)
unfolding decode_num
decode_num-nil max_bytes = ground arith

-- An encoded integer is decoded to itself wherever its bytes are within the limit.
pub decode_num-encode_num :
    (v : ℤ) (max_bytes : ℕ)
    → length (encode_num v) ≤ max_bytes
    → decode_num (encode_num v) max_bytes ≡ some v
unfolding encode_num
decode_num-encode_num (pos zero) max_bytes fits = decode_num-nil max_bytes
decode_num-encode_num (pos (suc n)) max_bytes fits =
    decode_num-Encodes false (suc n) max_bytes _
      (encode_magnitude-Encodes (suc n) false (suc n) (omega arith) (omega arith)) fits
decode_num-encode_num (negsuc n) max_bytes fits =
    decode_num-Encodes true (suc n) max_bytes _
      (encode_magnitude-Encodes (suc n) true (suc n) (omega arith) (omega arith)) fits
    ∙ ground arith

-- A further byte multiplies by 256.
length-encode_magnitude :
    (fuel : ℕ) (neg : Bool) (abs k : ℕ)
    → abs < 0x80 * 256 ^ k
    → length (encode_magnitude fuel neg abs) ≤ suc k
unfolding encode_magnitude
length-encode_magnitude zero neg abs k h = omega arith
length-encode_magnitude (suc fuel) neg abs zero h = ground arith
length-encode_magnitude (suc fuel) neg abs (suc k) h =
    ground (arith, length-encode_magnitude fuel neg (abs / 256) k, pow-suc 256 k)

-- An integer that needs fewer than 8 * n bits besides its sign takes at most n bytes.
pub length-encode_num :
    (v : ℤ) (k : ℕ) → pos_part v + neg_part v < 0x80 * 256 ^ k → length (encode_num v) ≤ suc k
unfolding encode_num
length-encode_num (pos zero) k h = omega arith
length-encode_num (pos (suc n)) k h = length-encode_magnitude (suc n) false (suc n) k (omega arith)
length-encode_num (negsuc n) k h = length-encode_magnitude (suc n) true (suc n) k (omega arith)

pub encode_num-IsBytes : (v : ℤ) → IsBytes (encode_num v)
unfolding encode_num
encode_num-IsBytes (pos zero) = tt
encode_num-IsBytes (pos (suc n)) =
    (encode_magnitude-Encodes (suc n) false (suc n) (omega arith) (omega arith)).bytes
encode_num-IsBytes (negsuc n) =
    (encode_magnitude-Encodes (suc n) true (suc n) (omega arith) (omega arith)).bytes
