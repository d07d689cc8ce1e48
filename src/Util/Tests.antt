-- ===== src/Util/Tests.antt =====
-- Encodings of concrete values.
use browser_coin_native_mine.Prelude.{◌≡◌, ◌∷◌, [], ok, arith, Bytes}
use browser_coin_native_mine.Util.Compact.{shrink}
use browser_coin_native_mine.Util.Compact.Rounding.{Rounds, shrink-Rounds}
use browser_coin_native_mine.Util.Hex.{hex_to_bytes, bytes_to_hex}
use browser_coin_native_mine.Util.Hex.RoundTrip.{hex_to_bytes-bytes_to_hex}

hex_to_bytes-bytes_to_hex_example :
    hex_to_bytes (bytes_to_hex (0xc0 ∷ 0x1d ∷ [])) ≡ ok (0xc0 ∷ 0x1d ∷ [])
hex_to_bytes-bytes_to_hex_example = hex_to_bytes-bytes_to_hex (0xc0 ∷ 0x1d ∷ []) (omega arith)

abbrev sample : Bytes
sample = 0xc0 ∷ 0x1d ∷ []

shrink-Rounds_example : Rounds 0x123456789 0 (shrink 0x123456789 0x123456789 0)
shrink-Rounds_example = shrink-Rounds 0x123456789
