-- ===== src/Samples.antt =====
-- A stand-in for the cryptographic library, with digests and a signature test that can be computed,
-- for the tests. It meets the laws of the interface.
use browser_coin_native_mine.Prelude.{
  ℕ, ◌+◌, ◌*◌, ◌%◌, refl, [], ◌∷◌, Bytes, IsBytes, replicate, take, bytes_eq, arith,
}
use browser_coin_native_mine.Chain.Crypto.{Crypto}

-- Ends at a number below 256.
abbrev pub checksum : Bytes → ℕ
checksum [] = 17
checksum (x ∷ xs) = (x + 3 * checksum xs) % 256

abbrev pub digest32 : Bytes → Bytes
digest32 b = checksum b % 256 ∷ replicate 31 7

abbrev pub digest20 : Bytes → Bytes
digest20 b = checksum b % 256 ∷ replicate 19 7

pub digest32-IsBytes : (b : Bytes) → IsBytes (digest32 b)
digest32-IsBytes b = omega arith

pub digest20-IsBytes : (b : Bytes) → IsBytes (digest20 b)
digest20-IsBytes b = omega arith

-- A signature is valid if it begins with the public key.
instance abbrev pub sample_crypto : Crypto
sample_crypto = record {
  noble_sha256 = digest32;
  noble_ripemd160 = digest20;
  ed_verify = λ sig message pk. bytes_eq (take 32 sig) pk;
  argon2id = λ password salt parallelism passes memory tag_length. digest32 password;
  length-noble_sha256 = λ b. refl;
  length-noble_ripemd160 = λ b. refl;
  noble_sha256-IsBytes = digest32-IsBytes;
  noble_ripemd160-IsBytes = digest20-IsBytes;
}
