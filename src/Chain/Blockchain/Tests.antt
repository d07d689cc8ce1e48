-- ===== src/Chain/Blockchain/Tests.antt =====
-- Blocks added to an empty chain.
use browser_coin_native_mine.Prelude.{
  ◌≡◌, refl, ok, Result, err, [], ◌+◌, replicate, ℕ, ◌∷◌, some, ◌*◌, true, none, false,
}
use browser_coin_native_mine.Chain.Block.{
  Block, hash_header, compute_tx_root, encode_header, block_size, block_hash_hex, tx_bytes,
}
use browser_coin_native_mine.Chain.Blockchain.{
  Blockchain, new_blockchain, genesis, tip, index_height, at_height, set_height, inherit_anchor,
  get_recent_headers, walk_headers, prune_states, prune_rounds, genesis_key, ChainBlock,
  genesis_entry,
}
use browser_coin_native_mine.Chain.Blockchain.Accept.{
  add_block_internal, add_to_parent, check_header, check_state, move_tip, store, check_structures,
  add_block,
}
use browser_coin_native_mine.Chain.Blockchain.Accepted.{HasPassed, add_block_accepts}
use browser_coin_native_mine.Chain.Blockchain.Canonical.{iterate_canonical}
use browser_coin_native_mine.Chain.Blockchain.Canonical.Heights.{
  RunsDown, iterate_canonical-RunsDown,
}
use browser_coin_native_mine.Chain.Blockchain.Reach.{
  Reaches, Minted, next, here, Reaches-IsTree, adds, Reaches-max_money, add_block-IsValid,
  genesis-IsTree,
}
use browser_coin_native_mine.Chain.Blockchain.Reorg.{reorg_delta}
use browser_coin_native_mine.Chain.Blockchain.Reorg.Ancestor.{
  Descends, reorg_delta-Descends, IsHighest,
}
use browser_coin_native_mine.Chain.Blockchain.Tip.{tip_state}
use browser_coin_native_mine.Chain.Blockchain.Tip.Reach.{Reaches-tip_state}
use browser_coin_native_mine.Chain.Blockchain.Tree.{IsTree}
use browser_coin_native_mine.Chain.Consensus.{
  next_difficulty, scheduled_difficulty, emergency_drop, asert_target, asert_step, asert_exponent,
  asert_factor, clamp_target, block_work, insert_sorted, sort, window, median_time_past,
}
use browser_coin_native_mine.Chain.Genesis.{
  genesis_timestamp, genesis_difficulty_compact, block_reward, max_money,
}
use browser_coin_native_mine.Chain.Pow.{check_pow, pow_hash}
use browser_coin_native_mine.Chain.State.{apply_block_txs, apply_txs, credit, State, empty_state}
use browser_coin_native_mine.Chain.State.Invariant.{IsValid}
use browser_coin_native_mine.Chain.State.Root.{
  state_root, accounts_merkle_root, locks_merkle_root, account_leaves, lock_leaves, sort_rows,
  insert_row, before, hex_to_fixed,
}
use browser_coin_native_mine.Chain.State.Totals.{total}
use browser_coin_native_mine.Prelude.Dict.{lookup, insert}
use browser_coin_native_mine.Prelude.Int.{◌+ℤ◌, ◌-ℤ◌, scale, quotient, pos, ◌≤ℤ◌}
use browser_coin_native_mine.Samples.{sample_crypto}
use browser_coin_native_mine.Util.Binary.{
  compare_bytes, concat, u32be, u64be, read_u32be, hash_meets_target, be_value,
}
use browser_coin_native_mine.Util.Compact.{compact_to_target, target_to_compact, shrink}
use browser_coin_native_mine.Util.Hex.{
  bytes_to_hex, hex_char, Hex, parse_pair, hex_to_bytes, parse_pairs,
}
use browser_coin_native_mine.Util.Merkle.{merkle_root}

abbrev start : Blockchain
start = new_blockchain 100

-- The miner is credited with the reward of the first block.
abbrev rewarded : State
rewarded = record {
  accounts =
      (bytes_to_hex (replicate 32 9), record { balance = pos 5_000_000_000; nonce = 0 }) ∷ [];
  locks = [];
}

abbrev first_block : Block
first_block = record {
  header = record {
    height = 1;
    prev_hash = hash_header genesis.header;
    tx_root = compute_tx_root [];
    state_root = state_root rewarded;
    timestamp = genesis_timestamp + 150;
    difficulty = genesis_difficulty_compact;
    nonce = 13;
    miner = replicate 32 9;
  };
  transactions = [];
}

-- With this definition on its `unfolding` line a test sees through the validation of a block.
add_one : Blockchain → ℕ → Block → Result Blockchain
unfolding add_block_internal add_to_parent check_header check_state move_tip store tip index_height
    at_height set_height inherit_anchor get_recent_headers walk_headers prune_states prune_rounds
    lookup insert bytes_to_hex hex_char new_blockchain next_difficulty scheduled_difficulty
    emergency_drop asert_target asert_step asert_exponent asert_factor clamp_target
    compact_to_target target_to_compact shrink block_work insert_sorted sort window median_time_past
    apply_block_txs apply_txs block_reward credit ◌+ℤ◌ ◌-ℤ◌ scale quotient encode_header block_size
    hash_header compute_tx_root merkle_root compare_bytes block_hash_hex concat u32be u64be tx_bytes
    check_pow pow_hash state_root accounts_merkle_root locks_merkle_root account_leaves lock_leaves
    sort_rows insert_row before hex_to_fixed read_u32be hash_meets_target be_value check_structures
    parse_pair hex_to_bytes parse_pairs
add_one = add_block

value_of : Result Blockchain → Blockchain
value_of (ok c) = c
value_of (err e) = start

abbrev grown : Blockchain
grown = value_of (add_one start 1_900_000_000 first_block)

first_added : add_one start 1_900_000_000 first_block ≡ ok grown
unfolding add_one value_of
first_added = refl

reached : Reaches start grown
unfolding add_one
reached = next here (adds 1_900_000_000 first_block first_added)

Reaches-IsTree_example : IsTree Minted genesis_key grown.blocks grown.tip_hash
Reaches-IsTree_example = Reaches-IsTree 100 reached

abbrev first_key : Hex
first_key = block_hash_hex first_block.header

abbrev first_entry : ChainBlock
first_entry = record {
  block = first_block;
  hash = hash_header first_block.header;
  work = 2 * block_work genesis_difficulty_compact;
  state = some rewarded;
  has_body = true;
  sandglass2_anchor = none;
}

first_found : lookup first_key grown.blocks ≡ some first_entry
unfolding add_one value_of
first_found = refl

Reaches-max_money_example : total rewarded ≤ℤ pos max_money
Reaches-max_money_example =
    Reaches-max_money 100 first_key first_entry rewarded reached first_found refl

fresh : lookup first_key start.blocks ≡ none
unfolding add_one
fresh = refl

add_block_accepts_example :
    (parent : ChainBlock) × (mtp : ℕ) × (state : State) × (new_state : State) × HasPassed start
      (record { skip_pow = false; skip_tx_sig = false; skip_state_root = false })
      (check_pow first_block.header)
      1_900_000_000
      first_block
      parent
      mtp
      state
      new_state
    × ((e : ChainBlock) × (lookup first_key grown.blocks ≡ some e) × (e.block ≡ first_block))
unfolding add_one
add_block_accepts_example =
    add_block_accepts start grown 1_900_000_000 first_block fresh first_added

empty_state-IsValid : IsValid empty_state
empty_state-IsValid = record {
  accounts_map = tt;
  locks_map = tt;
  balances_nonneg = tt;
  locks_nonneg = tt;
}

add_block-IsValid_example : IsTree (λ h s. IsValid s) genesis_key grown.blocks grown.tip_hash
unfolding add_one
add_block-IsValid_example =
    add_block-IsValid start grown 1_900_000_000 first_block
      (genesis-IsTree (λ h s. IsValid s) 100 empty_state-IsValid) first_added

genesis_found : lookup genesis_key grown.blocks ≡ some genesis_entry
unfolding add_one value_of
genesis_found = refl

reorg_delta-Descends_example :
    (last : Hex) × (top : ChainBlock) × (lookup last grown.blocks ≡ some top)
    × Descends grown.blocks genesis_key (reorg_delta grown genesis_key first_key).disconnected last
    × Descends grown.blocks first_key (reorg_delta grown genesis_key first_key).connected last
    × IsHighest grown.blocks genesis_key first_key top.block.header.height
reorg_delta-Descends_example =
    reorg_delta-Descends 100 grown genesis_key first_key genesis_entry first_entry reached
      genesis_found first_found

Reaches-tip_state_example : (s : State) × (tip_state grown ≡ ok s)
Reaches-tip_state_example = Reaches-tip_state 100 reached

iterate_canonical-RunsDown_example :
    (t : ChainBlock) × (tip grown ≡ some t)
    × RunsDown grown.blocks grown.tip_hash t.block.header.height (iterate_canonical grown)
iterate_canonical-RunsDown_example = iterate_canonical-RunsDown 100 grown reached
