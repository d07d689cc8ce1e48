-- ===== src/Chain/Crypto.antt =====
-- src/crypto/hash.ts and the `verify` of src/crypto/keys.ts over @noble/hashes and @noble/ed25519.
-- The library's functions are the fields of an interface: SHA-256 and RIPEMD-160 as functions on
-- byte strings with digests of 32 and 20 bytes, and Ed25519 as a test. Argon2id of the library
-- argon2id takes a password, a salt, the parallelism, passes, memory and the length of its tag. `verify` of keys.ts answers
-- `false` where the library throws, so the test has no third outcome.
use browser_coin_native_mine.Prelude.{◌≡◌, Bool, Bytes, IsBytes, length, ℕ}

pub record Crypto : Type 0 where
  pub noble_sha256 : Bytes → Bytes
  pub noble_ripemd160 : Bytes → Bytes
  pub ed_verify : Bytes → Bytes → Bytes → Bool
  pub argon2id : Bytes → Bytes → ℕ → ℕ → ℕ → ℕ → Bytes
  pub length-noble_sha256 : (b : Bytes) → length (noble_sha256 b) ≡ 32
  pub length-noble_ripemd160 : (b : Bytes) → length (noble_ripemd160 b) ≡ 20
  pub noble_sha256-IsBytes : (b : Bytes) → IsBytes (noble_sha256 b)
  pub noble_ripemd160-IsBytes : (b : Bytes) → IsBytes (noble_ripemd160 b)

module _ ⦃c : Crypto⦄ where
  abbrev pub sha256 : Bytes → Bytes
  sha256 bytes = c.noble_sha256 bytes

  abbrev pub sha256d : Bytes → Bytes
  sha256d bytes = c.noble_sha256 (c.noble_sha256 bytes)

  abbrev pub ripemd160 : Bytes → Bytes
  ripemd160 bytes = c.noble_ripemd160 bytes

  abbrev pub hash160 : Bytes → Bytes
  hash160 bytes = c.noble_ripemd160 (c.noble_sha256 bytes)

  -- `verify(signature, message, publicKey)`
  abbrev pub verify : Bytes → Bytes → Bytes → Bool
  verify signature message public_key = c.ed_verify signature message public_key
