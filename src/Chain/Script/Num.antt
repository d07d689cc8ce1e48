-- ===== src/Chain/Script/Num.antt =====
-- src/chain/script.ts, lines 207 to 262: truth of a stack item, and signed integers as stack items,
-- little-endian in sign and magnitude with the least number of bytes.
pub mod Magnitude
pub mod RoundTrip
pub mod Canonical
use browser_coin_native_mine.Prelude.{
  ℕ, zero, suc, ◌+◌, ◌-◌, ◌*◌, ◌/◌, ◌%◌, ◌^◌, Bool, true, false, ◌||◌, Option, none, some, [], ◌∷◌,
  Bytes, ltb, leb, ◌==◌, if◌then◌else◌, length,
}
use browser_coin_native_mine.Prelude.Int.{ℤ, pos, negsuc, sub_ℕ}

-- Some byte is not 0, except that a last byte 0x80 behind zeros is negative zero.
unfoldable pub is_truthy : Bytes → Bool
is_truthy [] = false
is_truthy (b ∷ []) = if b == 0 then false else if b == 0x80 then false else true
is_truthy (b ∷ c ∷ item) = let rest = is_truthy (c ∷ item) in if b == 0 then rest else true

-- The last byte and the one before it, 0 where there is none.
unfoldable pub top_byte : Bytes → ℕ
top_byte [] = 0
top_byte (b ∷ []) = b
top_byte (b ∷ c ∷ item) = top_byte (c ∷ item)

unfoldable pub second_byte : Bytes → ℕ
second_byte [] = 0
second_byte (b ∷ []) = 0
second_byte (b ∷ c ∷ []) = b
second_byte (b ∷ c ∷ d ∷ item) = second_byte (c ∷ d ∷ item)

-- `result |= BigInt(item[i]) << (8n * BigInt(i))`
unfoldable pub le_value : Bytes → ℕ
le_value [] = 0
le_value (b ∷ item) = b + 256 * le_value item

-- The top byte carries magnitude, or is a sign byte that the byte before it makes necessary.
unfoldable pub is_minimal : Bytes → Bool
unfolding top_byte second_byte
is_minimal item =
    if (top_byte item % 0x80) == 0
    then (if leb (length item) 1 || ltb (second_byte item) 0x80 then false else true)
    else true

-- `result & signBit ? -(result - signBit) : result`
unfoldable pub signed_value : ℕ → ℕ → ℤ
signed_value result sign_bit =
    if ltb result sign_bit then pos result else sub_ℕ 0 (result - sign_bit)

unfoldable pub decode_num : Bytes → ℕ → Option ℤ
unfolding le_value is_minimal signed_value
decode_num item max_bytes =
    if ltb max_bytes (length item)
    then none
    else if length item == 0
    then some (pos 0)
    else if is_minimal item
    then some (signed_value (le_value item) (2 ^ (8 * length item - 1)))
    else none

-- The loop `while (abs > 0n) { bytes.push(abs & 0xff); abs >>= 8n; }` with what follows it: the
-- last byte takes the sign, or a byte is added for it. The number itself is fuel enough.
unfoldable pub encode_magnitude : ℕ → Bool → ℕ → Bytes
encode_magnitude zero neg abs = []
encode_magnitude (suc fuel) neg abs =
    let more = abs % 256 ∷ encode_magnitude fuel neg (abs / 256) in
    if leb 256 abs
    then more
    else if leb 0x80 abs
    then abs ∷ (if neg then 0x80 else 0) ∷ []
    else (if neg then abs + 0x80 else abs) ∷ []

unfoldable pub encode_num : ℤ → Bytes
unfolding encode_magnitude
encode_num (pos zero) = []
encode_num (pos (suc n)) = encode_magnitude (suc n) false (suc n)
encode_num (negsuc n) = encode_magnitude (suc n) true (suc n)

abbrev pub bool_item : Bool → Bytes
bool_item true = 1 ∷ []
bool_item false = []
