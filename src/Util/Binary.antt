-- ===== src/Util/Binary.antt =====
-- src/util/binary.ts: big-endian numbers, concatenation and comparison of byte strings.
-- `x << 8 | b` is `x * 256 + b`, as `b` is a byte. A read past the end of a `Uint8Array` gives
-- `undefined`: the bit operations of `readU16be` and `readU32be` take it for 0, while `BigInt`
-- throws on it.
pub mod Cursor
use browser_coin_native_mine.Prelude.{
  ℕ, zero, suc, ◌+◌, ◌-◌, ◌*◌, ◌/◌, ◌%◌, Bool, none, some, List, [], ◌∷◌, ◌++◌, Bytes, get_elem?,
  take, drop, ltb, ◌==◌, if◌then◌else◌, length, Result, ok, err, ◌^◌,
}
use browser_coin_native_mine.Prelude.Int.{ℤ, pos, negsuc, sub_ℕ}

unfoldable pub concat : List Bytes → Bytes
concat [] = []
concat (a ∷ arrs) = a ++ concat arrs

abbrev pub slice : Bytes → ℕ → ℕ → Bytes
slice b from len = take len (drop from b)

unfoldable pub u16be : ℕ → Bytes
u16be n = n / 256 % 256 ∷ n % 256 ∷ []

unfoldable pub u32be : ℕ → Bytes
u32be n = n / 0x1000000 % 256 ∷ n / 0x10000 % 256 ∷ n / 256 % 256 ∷ n % 256 ∷ []

-- `n & 0xffn` and `n >> 8n` on a `bigint`: a negative number is read in two's complement.
abbrev pub low_byte : ℤ → ℕ
low_byte (pos n) = n % 256
low_byte (negsuc n) = 255 - n % 256

abbrev pub shift_byte : ℤ → ℤ
shift_byte (pos n) = pos (n / 256)
shift_byte (negsuc n) = negsuc (n / 256)

-- The loop of `u64be`: it fills the bytes from the last to the first.
unfoldable pub u64be_loop : ℕ → ℤ → Bytes → Bytes
u64be_loop zero n b = b
u64be_loop (suc i) n b = u64be_loop i (shift_byte n) (low_byte n ∷ b)

unfoldable pub u64be : ℤ → Bytes
unfolding u64be_loop
u64be n = u64be_loop 8 n []

abbrev pub byte_or_zero : Bytes → ℕ → ℕ
byte_or_zero b off = elim (get_elem? b off) [ some v ↦ v | none ↦ 0 ]

unfoldable pub read_u16be : Bytes → ℕ → ℕ
read_u16be b off = (byte_or_zero b off * 256 + byte_or_zero b (off + 1)) % 0x10000

unfoldable pub read_u32be : Bytes → ℕ → ℕ
read_u32be b off =
    (byte_or_zero b off * 0x1000000
      + byte_or_zero b (off + 1) * 0x10000
      + byte_or_zero b (off + 2) * 256
      + byte_or_zero b (off + 3))
    % 2 ^ 32

-- The loop of `readU64be`, `k` rounds from `off`.
unfoldable pub read_u64be_loop : ℕ → Bytes → ℕ → ℕ → Result ℕ
read_u64be_loop zero b off n = ok n
read_u64be_loop (suc k) b off n =
    let rest = read_u64be_loop k b (off + 1) (n * 256 + byte_or_zero b off) in
    elim (get_elem? b off) [ none ↦ err "Cannot convert undefined to a BigInt" | some v ↦ rest ]

unfoldable pub read_u64be : Bytes → ℕ → Result ℕ
unfolding read_u64be_loop
read_u64be b off = read_u64be_loop 8 b off 0

-- -1, 1 or the difference of the lengths: the sign tells which string is smaller.
unfoldable pub compare_bytes : Bytes → Bytes → ℤ
compare_bytes [] ys = sub_ℕ 0 (length ys)
compare_bytes (x ∷ xs) [] = pos (suc (length xs))
compare_bytes (x ∷ xs) (y ∷ ys) =
    if x == y then compare_bytes xs ys else if ltb x y then negsuc 0 else pos 1

-- `hashMeetsTarget` reads the hash as one big-endian number.
unfoldable pub be_value : ℕ → Bytes → ℕ
be_value h [] = h
be_value h (b ∷ bs) = be_value (h * 256 + b) bs

unfoldable pub hash_meets_target : Bytes → ℕ → Bool
unfolding be_value
hash_meets_target hash target = ltb (be_value 0 hash) target
