-- ===== src/Util/Hex/RoundTrip.antt =====
-- bytesToHex followed by hexToBytes gives the bytes back.
use browser_coin_native_mine.Prelude.{
  ℕ, zero, suc, ◌*◌, ◌/◌, ◌%◌, ◌<◌, ◌≡◌, refl, Bool, true, false, ◌&&◌, Option, none, some, [], ◌∷◌,
  Bytes, IsBytes, ◌==◌, if◌then◌else◌, length, ok, arith, ap,
}
use browser_coin_native_mine.Util.Hex.{
  hex_char, bytes_to_hex, parse_pair, parse_pairs, strip_prefix, hex_to_bytes,
}

abbrev value_is : Option ℕ → ℕ → Bool
value_is none n = false
value_is (some m) n = m == n

-- A test on all numbers below a bound, which a computation decides.
module _ (test : ℕ → Bool) where
  all_below : ℕ → Bool
  all_below zero = true
  all_below (suc bound) = all_below bound && test bound

  all_below_lem : (bound v : ℕ) → v < bound → all_below bound ≡ true → test v ≡ true
  unfolding all_below
  all_below_lem zero v below passed = absurd (omega arith)
  all_below_lem (suc bound) v below passed = ground (arith, all_below_lem bound v)

pair_table :
    all_below (λ b. value_is (parse_pair (hex_char (b / 16)) (hex_char (b % 16))) b) 256 ≡ true
unfolding all_below parse_pair hex_char
pair_table = refl

value_is-eq : (o : Option ℕ) (n : ℕ) → value_is o n ≡ true → o ≡ some n
value_is-eq none n h = cc
value_is-eq (some m) n h = ground arith

parse_pair-hex_char :
    (b : ℕ) → b < 256 → parse_pair (hex_char (b / 16)) (hex_char (b % 16)) ≡ some b
parse_pair-hex_char b h = value_is-eq _ b (all_below_lem _ 256 b h pair_table)

parse_pairs-bytes_to_hex : (bs : Bytes) → IsBytes bs → parse_pairs (bytes_to_hex bs) ≡ ok bs
unfolding parse_pairs bytes_to_hex
parse_pairs-bytes_to_hex [] h = refl
parse_pairs-bytes_to_hex (b ∷ bs) h =
    ground (arith, parse_pair-hex_char b h.0, parse_pairs-bytes_to_hex bs h.1)

x_table : all_below (λ d. if hex_char d == b'x' then false else true) 16 ≡ true
unfolding all_below hex_char
x_table = refl

strip_prefix-bytes_to_hex :
    (bs : Bytes) → IsBytes bs → strip_prefix (bytes_to_hex bs) ≡ bytes_to_hex bs
unfolding strip_prefix bytes_to_hex
strip_prefix-bytes_to_hex [] h = refl
strip_prefix-bytes_to_hex (b ∷ bs) h = ground (
  arith,
  all_below_lem (λ d. if hex_char d == b'x' then false else true) 16 (b % 16) (omega arith) x_table,
)

pub length-bytes_to_hex : (bs : Bytes) → length (bytes_to_hex bs) ≡ 2 * length bs
unfolding bytes_to_hex
length-bytes_to_hex [] = refl
length-bytes_to_hex (b ∷ bs) = omega (arith, length-bytes_to_hex bs)

even_length : (bs : Bytes) → ((length (bytes_to_hex bs) % 2) == 1) ≡ false
even_length bs = rw (length-bytes_to_hex bs) (ground arith)

-- Bytes printed in hexadecimal are read back unchanged: no prefix is stripped, the length is even
-- and every pair of characters is a byte.
pub hex_to_bytes-bytes_to_hex : (bs : Bytes) → IsBytes bs → hex_to_bytes (bytes_to_hex bs) ≡ ok bs
unfolding hex_to_bytes
hex_to_bytes-bytes_to_hex bs h =
    rw (strip_prefix-bytes_to_hex bs h, even_length bs) (parse_pairs-bytes_to_hex bs h)

ok-injective : (xs ys : Bytes) → ok xs ≡ ok ys → xs ≡ ys
ok-injective xs ys h = cc

-- Two byte strings with the same hexadecimal text are equal, so a map keyed by the text is a map
-- keyed by the bytes.
pub bytes_to_hex-injective :
    (xs ys : Bytes) → IsBytes xs → IsBytes ys → bytes_to_hex xs ≡ bytes_to_hex ys → xs ≡ ys
bytes_to_hex-injective xs ys hx hy e =
    ok-injective xs ys
      (cc (hex_to_bytes-bytes_to_hex xs hx, hex_to_bytes-bytes_to_hex ys hy, ap hex_to_bytes e))
