-- ===== src/Net/Tests.antt =====
-- Headers and bodies from a server.
use browser_coin_native_mine.Prelude.{
  ◌≡◌, refl, ok, ◌∷◌, [], none, replicate, ℕ, List, ◌≤◌, true, Bool, ◌<◌, false, ◌⊎◌, ◌+◌, arith,
  All, Result,
}
use browser_coin_native_mine.Chain.Block.{
  BlockHeader, compute_tx_root, Block, block_size, hash_header, block_hash_hex, encode_header,
  tx_bytes,
}
use browser_coin_native_mine.Chain.Blockchain.{
  Blockchain, new_blockchain, genesis_entry, get_recent_headers, genesis, walk_headers,
  index_height, at_height, set_height, genesis_key,
}
use browser_coin_native_mine.Chain.Blockchain.Accept.{store}
use browser_coin_native_mine.Chain.Blockchain.Seed.{
  seed_header, store_bodyless, seeded_entry, seed_bodyless,
}
use browser_coin_native_mine.Chain.Consensus.{
  median_time_past, next_difficulty, scheduled_difficulty, emergency_drop, asert_target, asert_step,
  asert_exponent, asert_factor, clamp_target, block_work, insert_sorted, sort, window,
}
use browser_coin_native_mine.Chain.Genesis.{
  max_block_bytes, genesis_timestamp, genesis_difficulty_compact,
}
use browser_coin_native_mine.Net.Backfill.{attach_bodies, Backfill, fatal}
use browser_coin_native_mine.Net.Backfill.Fatal.{failing, attach_bodies-fatal}
use browser_coin_native_mine.Net.FastSync.{
  verify_header, start_rolling, has_index, roll, pow_indices, Rolling, verify_headers,
}
use browser_coin_native_mine.Net.FastSync.Run.{Passes, AreDistinct, keys_of, verify_headers-Passes}
use browser_coin_native_mine.Net.FastSync.Sampling.{pow_indices-cover}
use browser_coin_native_mine.Prelude.Dict.{lookup, insert}
use browser_coin_native_mine.Prelude.Int.{◌+ℤ◌, ◌-ℤ◌, scale, quotient}
use browser_coin_native_mine.Samples.{sample_crypto}
use browser_coin_native_mine.Util.Binary.{concat, u32be, u64be, compare_bytes}
use browser_coin_native_mine.Util.Compact.{compact_to_target, target_to_compact, shrink}
use browser_coin_native_mine.Util.Hex.{bytes_to_hex, hex_char}
use browser_coin_native_mine.Util.Merkle.{merkle_root}

abbrev start : Blockchain
start = new_blockchain 100

abbrev header : BlockHeader
header = record {
  height = 1;
  prev_hash = hash_header genesis.header;
  tx_root = replicate 32 0;
  state_root = [];
  timestamp = genesis_timestamp + 150;
  difficulty = genesis_difficulty_compact;
  nonce = 5;
  miner = replicate 32 9;
}

abbrev block : Block
block = record { header = header; transactions = [] }

-- With this definition on its `unfolding` line a test sees through the checks of a header.
verify_one : ℕ → ℕ → Rolling → BlockHeader → Result Rolling
unfolding verify_header get_recent_headers walk_headers next_difficulty scheduled_difficulty
    emergency_drop asert_target asert_step asert_exponent asert_factor clamp_target
    compact_to_target target_to_compact shrink block_work insert_sorted sort window median_time_past
    ◌+ℤ◌ ◌-ℤ◌ scale quotient lookup insert bytes_to_hex hex_char new_blockchain block_hash_hex
    hash_header encode_header concat u32be u64be compare_bytes block_size compute_tx_root
    merkle_root tx_bytes store store_bodyless seed_bodyless index_height at_height set_height
verify_one = verify_header

header_verified : verify_one 1_900_000_000 0 start_rolling header ≡ ok (roll start_rolling header)
unfolding verify_one
header_verified = refl

abbrev second : BlockHeader
second = record header {
  height = 2;
  prev_hash = hash_header header;
  timestamp = genesis_timestamp + 300;
}

abbrev two_blocks : List Block
two_blocks = block ∷ record { header = second; transactions = [] } ∷ []

headers_verified :
    verify_headers 1_900_000_000 0 start_rolling (header ∷ second ∷ [])
    ≡ ok (roll (roll start_rolling header) second)
unfolding verify_one verify_headers
headers_verified = refl

bodies_match :
    All
      (λ (b : Block).
        (block_size b ≤ max_block_bytes) × (compute_tx_root b.transactions ≡ b.header.tx_root))
      two_blocks
unfolding verify_one
bodies_match = ((omega arith, refl), ((omega arith, refl), tt))

hashes_differ : AreDistinct (genesis_key ∷ keys_of two_blocks)
unfolding verify_one
hashes_differ = ((refl, (refl, tt)), ((refl, tt), (tt, tt)))

verify_headers-Passes_example :
    (last : Blockchain) × Passes
      (record { skip_pow = true; skip_tx_sig = true; skip_state_root = true })
      false
      1_900_000_000
      (new_blockchain 100)
      two_blocks
      last
verify_headers-Passes_example =
    verify_headers-Passes 100
      (record { skip_pow = true; skip_tx_sig = true; skip_state_root = true }) false 1_900_000_000
      (roll (roll start_rolling header) second) two_blocks hashes_differ refl bodies_match
      headers_verified

pow_indices-cover_example :
    ((i : ℕ) → i ≤ 500 → 500 < i + 160 → has_index i (pow_indices 500 (3 ∷ 400 ∷ [])) ≡ true)
    × All (λ i. i ≤ 500) (pow_indices 500 (3 ∷ 400 ∷ []))
pow_indices-cover_example = pow_indices-cover 500 (3 ∷ 400 ∷ [])

abbrev seeded : Blockchain
seeded = store_bodyless (block_hash_hex header) (seeded_entry block none false genesis_entry) start

seeded_from_start : seed_header start header ≡ ok seeded
unfolding verify_one
seeded_from_start = refl

abbrev history : Backfill
history = record { chain = seeded; pow_suspects = [] }

-- The same block twice in one batch.
abbrev sent_twice : List (Block × Bool)
sent_twice = (block, false) ∷ (block, false) ∷ []

ends_fatal : (attach_bodies sent_twice history 0).1 ≡ fatal
unfolding verify_one attach_bodies has_index
ends_fatal = refl

attach_bodies-fatal_example :
    (h : ℕ) × (1 ≤ failing h sent_twice) × ((has_index h [] ≡ true) ⊎ (2 ≤ failing h sent_twice))
attach_bodies-fatal_example = attach_bodies-fatal sent_twice history 0 ends_fatal
