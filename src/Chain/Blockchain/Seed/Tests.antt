-- ===== src/Chain/Blockchain/Seed/Tests.antt =====
-- A header from fast sync and the bodies that fit it.
use browser_coin_native_mine.Prelude.{
  ◌≡◌, refl, ok, ◌∷◌, [], none, some, replicate, List, ℕ, ◌≤◌, ◌+◌, false, true, arith, Result, inr,
}
use browser_coin_native_mine.Chain.Block.{
  BlockHeader, block_size, hash_header, block_hash_hex, compute_tx_root, encode_header, tx_bytes,
}
use browser_coin_native_mine.Chain.Blockchain.{
  ChainBlock, Blockchain, new_blockchain, genesis, index_height, genesis_entry, set_height,
  inherit_anchor, at_height,
}
use browser_coin_native_mine.Chain.Blockchain.Accept.{store}
use browser_coin_native_mine.Chain.Blockchain.Seed.{
  attach_body, seed_bodyless, lowest_bodyless_height, seeded_entry, bodyless_count, with_body,
  store_bodyless, seed_header,
}
use browser_coin_native_mine.Chain.Blockchain.Seed.Body.{
  attach_body-bodyless_count, attach_body-doubled,
}
use browser_coin_native_mine.Chain.Blockchain.Seed.Reach.{then_step, unchanged, seeds_header}
use browser_coin_native_mine.Chain.Blockchain.Seed.Missing.{IsLowestMissing, Syncs-IsLowestMissing}
use browser_coin_native_mine.Chain.Consensus.{block_work}
use browser_coin_native_mine.Chain.Genesis.{
  max_block_bytes, genesis_timestamp, genesis_difficulty_compact,
}
use browser_coin_native_mine.Chain.Transaction.{
  Transaction, transfer, encode_tx, encoded_tx_len, encode_as, encode_transfer, tx_preimage,
}
use browser_coin_native_mine.Prelude.Dict.{lookup, insert}
use browser_coin_native_mine.Prelude.Int.{pos}
use browser_coin_native_mine.Samples.{sample_crypto}
use browser_coin_native_mine.Util.Binary.{concat, u32be, u64be}
use browser_coin_native_mine.Util.Compact.{compact_to_target}
use browser_coin_native_mine.Util.Hex.{bytes_to_hex, hex_char}
use browser_coin_native_mine.Util.Merkle.{merkle_root, climb, next_layer}
use browser_coin_native_mine.Util.Merkle.Doubled.{paired}

abbrev start : Blockchain
start = new_blockchain 100

abbrev pay : ℕ → Transaction
pay nonce = record {
  kind = some transfer;
  from = replicate 32 1;
  to = replicate 32 2;
  amount = pos 1000;
  fee = pos 200;
  nonce = nonce;
  signature = replicate 64 3;
  script_hash = none;
  lock_id = none;
  redeem_script = none;
  witness = none;
}

abbrev three : List Transaction
three = paired ((pay 0, pay 1) ∷ []) (pay 2 ∷ [])

abbrev four : List Transaction
four = paired ((pay 0, pay 1) ∷ []) (pay 2 ∷ pay 2 ∷ [])

abbrev header : BlockHeader
header = record {
  height = 1;
  prev_hash = hash_header genesis.header;
  tx_root = compute_tx_root three;
  state_root = [];
  timestamp = genesis_timestamp + 150;
  difficulty = genesis_difficulty_compact;
  nonce = 5;
  miner = replicate 32 9;
}

abbrev entry : ChainBlock
entry = seeded_entry (record { header = header; transactions = [] }) none false genesis_entry

abbrev seeded : Blockchain
seeded = store_bodyless (block_hash_hex header) entry start

-- With this definition on its `unfolding` line a test sees through the seeding of a header.
seed_one : Blockchain → BlockHeader → Result Blockchain
unfolding seed_bodyless store store_bodyless index_height at_height set_height inherit_anchor lookup
    insert bytes_to_hex hex_char new_blockchain block_hash_hex hash_header encode_header concat
    u32be u64be block_work compact_to_target compute_tx_root merkle_root climb next_layer encode_tx
    tx_bytes block_size paired encoded_tx_len encode_as encode_transfer tx_preimage
seed_one = seed_header

header_seeded : seed_one start header ≡ ok seeded
unfolding seed_one
header_seeded = refl

header_found : lookup (block_hash_hex header) seeded.blocks ≡ some entry
unfolding seed_one
header_found = refl

nothing_there : at_height 1 start.bodyless_by_height ≡ none
unfolding seed_one
nothing_there = refl

Syncs-IsLowestMissing_example : IsLowestMissing seeded (lowest_bodyless_height seeded).0
unfolding seed_one
Syncs-IsLowestMissing_example =
    Syncs-IsLowestMissing 100
      (then_step unchanged (seeds_header header (inr nothing_there) header_seeded))

four_fit : block_size (record { header = header; transactions = four }) ≤ max_block_bytes
unfolding seed_one
four_fit = omega arith

three_fit : block_size (record { header = header; transactions = three }) ≤ max_block_bytes
unfolding seed_one
three_fit = omega arith

attach_body-doubled_example :
    attach_body seeded (record { header = header; transactions = four })
    ≡ ok (
        with_body
          (block_hash_hex header)
          entry
          (record { header = header; transactions = four })
          seeded)
attach_body-doubled_example =
    attach_body-doubled seeded header entry (pay 0) (pay 1) [] (pay 2) header_found refl refl
      four_fit

missing : at_height 1 seeded.bodyless_by_height ≡ some (block_hash_hex header)
unfolding seed_one
missing = refl

attach_body-bodyless_count_example :
    (chain : Blockchain) × (attach_body seeded (record { header = header; transactions = three })
      ≡ ok chain)
    × (bodyless_count chain + 1 ≡ bodyless_count seeded)
    × (lookup (block_hash_hex header) chain.blocks
        ≡ some (record entry {
          block = record { header = header; transactions = three };
          has_body = true;
        }))
attach_body-bodyless_count_example =
    attach_body-bodyless_count seeded (record { header = header; transactions = three }) entry
      header_found refl missing refl three_fit
