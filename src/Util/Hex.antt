-- ===== src/Util/Hex.antt =====
-- src/util/binary.ts, bytesToHex and hexToBytes. A text is the list of its character codes.
pub mod RoundTrip
use browser_coin_native_mine.Prelude.{
  ℕ, ◌+◌, ◌-◌, ◌*◌, ◌/◌, ◌%◌, Bool, ◌&&◌, ◌||◌, Option, none, some, List, [], ◌∷◌, Bytes, get_elem?,
  leb, ◌==◌, if◌then◌else◌, length, Result, ok, err, ◌>>=◌, ◌>>◌, fail_if,
}

abbrev pub Hex : Type 0
Hex = List ℕ

-- `HEX_CHARS`
abbrev pub hex_chars : List ℕ
hex_chars =
    b'0' ∷ b'1' ∷ b'2' ∷ b'3' ∷ b'4' ∷ b'5' ∷ b'6' ∷ b'7' ∷ b'8' ∷ b'9' ∷ b'a' ∷ b'b' ∷ b'c' ∷ b'd'
    ∷ b'e' ∷ b'f' ∷ []

-- `HEX_CHARS[d]!`; past the end JavaScript has `undefined`, which no nibble reaches.
unfoldable pub hex_char : ℕ → ℕ
hex_char d = elim (get_elem? hex_chars d) [ some c ↦ c | none ↦ 0 ]

unfoldable pub bytes_to_hex : Bytes → Hex
bytes_to_hex [] = []
bytes_to_hex (b ∷ bs) = hex_char (b / 16) ∷ hex_char (b % 16) ∷ bytes_to_hex bs

-- The value of a hexadecimal digit, in either case.
pub digit_value : ℕ → Option ℕ
digit_value c =
    if leb b'0' c && leb c b'9'
    then some (c - b'0')
    else if leb b'a' c && leb c b'f'
    then some (c - b'a' + 10)
    else if leb b'A' c && leb c b'F'
    then some (c - b'A' + 10)
    else none

-- What `parseInt` skips in front of a number.
is_space : ℕ → Bool
is_space c =
    (leb 9 c && leb c 13)
    || c == 32
    || c == 0xa0
    || c == 0x1680
    || (leb 0x2000 c && leb c 0x200a)
    || c == 0x2028
    || c == 0x2029
    || c == 0x202f
    || c == 0x205f
    || c == 0x3000
    || c == 0xfeff

-- `parseInt` in base 16 on a text of two characters, as it is stored into a byte; `none` is NaN.
-- What follows the first digit is ignored if it is no digit, a sign is allowed, and `0x` has no
-- digit behind its prefix.
unfoldable pub parse_pair : ℕ → ℕ → Option ℕ
unfolding digit_value is_space
parse_pair a b =
    if is_space a || a == b'+'
    then digit_value b
    else if a == b'-'
    then elim (digit_value b) [ some d ↦ some ((256 - d) % 256) | none ↦ none ]
    else if a == b'0' && (b == b'x' || b == b'X')
    then none
    else elim (digit_value a) [
      | none ↦ none
      | some hi ↦ elim (digit_value b) [ some lo ↦ some (hi * 16 + lo) | none ↦ some hi ]
    ]

-- The loop of `hexToBytes`.
unfoldable pub parse_pairs : Hex → Result Bytes
parse_pairs [] = ok []
parse_pairs (a ∷ []) = err "invalid hex length"
parse_pairs (a ∷ b ∷ rest) =
    let others = parse_pairs rest in
    elim (parse_pair a b) [
      | none ↦ err "invalid hex char"
      | some v ↦ (others >>= λ bs. ok (v ∷ bs))
    ]

-- `if (hex.startsWith('0x')) hex = hex.slice(2)`
pub strip_prefix : Hex → Hex
strip_prefix [] = []
strip_prefix (a ∷ []) = a ∷ []
strip_prefix (a ∷ b ∷ rest) = if a == b'0' && b == b'x' then rest else a ∷ b ∷ rest

unfoldable pub hex_to_bytes : Hex → Result Bytes
unfolding parse_pairs strip_prefix
hex_to_bytes hex = do
  let digits = strip_prefix hex
  fail_if ((length digits % 2) == 1) "invalid hex length"
  parse_pairs digits
