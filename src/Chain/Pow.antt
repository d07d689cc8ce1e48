-- ===== src/Chain/Pow.antt =====
-- src/crypto/pow.ts and checkPoW of src/chain/consensus.ts: the proof of work of a header. Sandglass
-- has the hash of the blocks from fork #2 on. Loading the WASM module is not modelled.
pub mod Sandglass
use browser_coin_native_mine.Prelude.{
  ℕ, zero, suc, Bytes, ◌*◌, ◌∷◌, if◌then◌else◌, Bool, leb, [], ◌||◌, ltb, false,
}
use browser_coin_native_mine.Chain.Block.{BlockHeader, encode_header}
use browser_coin_native_mine.Chain.Crypto.{Crypto}
use browser_coin_native_mine.Chain.Genesis.{sandglass_fork_height, max_target}
use browser_coin_native_mine.Chain.Pow.Sandglass.{sandglass_hash}
use browser_coin_native_mine.Util.Binary.{read_u32be, hash_meets_target}
use browser_coin_native_mine.Util.Compact.{compact_to_target}

-- The code of 'browsercoin-pow-v5' in UTF-8.
abbrev pub salt : Bytes
salt =
    b'b' ∷ b'r' ∷ b'o' ∷ b'w' ∷ b's' ∷ b'e' ∷ b'r' ∷ b'c' ∷ b'o' ∷ b'i' ∷ b'n' ∷ b'-' ∷ b'p' ∷ b'o'
    ∷ b'w' ∷ b'-' ∷ b'v' ∷ b'5' ∷ []

-- The fields of `POW_PARAMS`.
abbrev pub pow_memory_size : ℕ
pow_memory_size = 32 * 1024

abbrev pub pow_iterations : ℕ
pow_iterations = 1

abbrev pub pow_parallelism : ℕ
pow_parallelism = 1

abbrev pub pow_hash_length : ℕ
pow_hash_length = 32

module _ ⦃c : Crypto⦄ where
  -- The height is read from the first four bytes.
  unfoldable pub pow_hash : Bytes → Bytes
  pow_hash header_bytes =
      if leb sandglass_fork_height (read_u32be header_bytes 0)
      then sandglass_hash header_bytes
      else c.argon2id header_bytes salt pow_parallelism pow_iterations pow_memory_size
          pow_hash_length

  unfoldable pub check_pow : BlockHeader → Bool
  check_pow header =
      let target = compact_to_target header.difficulty in
      if leb target 0 || ltb max_target target
      then false
      else hash_meets_target (pow_hash (encode_header header)) target
