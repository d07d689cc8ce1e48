-- ===== src/Chain/Blockchain/Accept.antt =====
-- src/chain/blockchain.ts, addBlockInternal and its callers: the validation of a block against its
-- parent, and the move of the tip. The clock, in seconds, is an argument. What `checkPoW` is awaited
-- for is the argument `pow_valid`; it is asked only where `skip_pow` is false. Where a block is
-- refused the chain is left as it was.
use browser_coin_native_mine.Prelude.{
  ℕ, Bytes, Bool, List, not, Result, Option, ◌>>=◌, ok, if◌then◌else◌, true, false, ◌>>◌, err,
  fail_if, ◌∷◌, some, ◌==◌, ◌+◌, [], ltb, ◌&&◌, none, leb,
}
use browser_coin_native_mine.Chain.Block.{
  Block, hash_header, block_hash_hex, block_size, compute_tx_root,
}
use browser_coin_native_mine.Chain.Blockchain.{
  Blockchain, ChainBlock, tip, index_height, inherit_anchor, get_recent_headers, retarget_lookback,
  prune_states,
}
use browser_coin_native_mine.Chain.Consensus.{
  block_work, scripts_active_for_mtp, next_difficulty, median_time_past,
}
use browser_coin_native_mine.Chain.Crypto.{Crypto}
use browser_coin_native_mine.Chain.Genesis.{max_block_bytes, max_future_time_s, mtp_window}
use browser_coin_native_mine.Chain.Pow.{check_pow}
use browser_coin_native_mine.Chain.State.{State, apply_block_txs}
use browser_coin_native_mine.Chain.State.Root.{state_root}
use browser_coin_native_mine.Chain.Transaction.{Transaction}
use browser_coin_native_mine.Chain.Transaction.Validate.{validate_tx_structure}
use browser_coin_native_mine.Prelude.Dict.{insert, has, lookup}
use browser_coin_native_mine.Prelude.Int.{eqb_ℤ, pos}
use browser_coin_native_mine.Util.Binary.{compare_bytes}
use browser_coin_native_mine.Util.Hex.{Hex, bytes_to_hex}

pub record AddOptions : Type 0 where
  pub skip_pow : Bool
  pub skip_tx_sig : Bool
  pub skip_state_root : Bool

abbrev pub differs : Bytes → Bytes → Bool
differs a b = not (eqb_ℤ (compare_bytes a b) (pos 0))

module _ ⦃c : Crypto⦄ where
  -- `for (const tx of transactions)`, up to the first that is refused.
  unfoldable pub check_structures : List Transaction → Result (Unit {0})
  check_structures [] = ok tt
  check_structures (tx ∷ txs) = do validate_tx_structure tx; check_structures txs

  -- Size, difficulty, timestamps, proof of work and transaction root.
  unfoldable pub check_header : Blockchain → AddOptions → Bool → ℕ → Block → ChainBlock → Result ℕ
  check_header chain opts pow_valid now block parent = do
    let header = block.header
    let parent_key = bytes_to_hex header.prev_hash
    fail_if (not (header.height == parent.block.header.height + 1)) "height not parent+1"
    fail_if (ltb max_block_bytes (block_size block)) "block too large"
    expected ←
        (next_difficulty header.height (get_recent_headers retarget_lookback chain parent_key)
          (some header.timestamp) parent.sandglass2_anchor)
    fail_if (not (header.difficulty == expected)) "bad difficulty"
    fail_if (ltb (now + max_future_time_s) header.timestamp) "timestamp too far in future"
    let mtp = median_time_past (get_recent_headers mtp_window chain parent_key)
    fail_if (ltb 0 mtp && leb header.timestamp mtp) "timestamp not above median-time-past"
    fail_if (not opts.skip_pow && not pow_valid) "PoW invalid"
    fail_if (differs (compute_tx_root block.transactions) header.tx_root) "txRoot mismatch"
    ok mtp

  -- The transactions are applied to a clone of the parent's state.
  unfoldable pub check_state : AddOptions → Block → ℕ → Option State → Result State
  check_state opts block mtp none = err "parent state unavailable (reorg below snapshot anchor)"
  check_state opts block mtp (some state) = do
    (if opts.skip_tx_sig then ok tt else check_structures block.transactions)
    new_state ←
        (apply_block_txs state block.header.height block.header.miner block.transactions
          (scripts_active_for_mtp mtp) mtp)
    fail_if (not opts.skip_state_root && differs (state_root new_state) block.header.state_root)
        "stateRoot mismatch"
    ok new_state

  abbrev pub accepted_entry : Block → ChainBlock → State → ChainBlock
  accepted_entry block parent new_state = record {
    block = block;
    hash = hash_header block.header;
    work = parent.work + block_work block.header.difficulty;
    state = some new_state;
    has_body = true;
    sandglass2_anchor = inherit_anchor parent.sandglass2_anchor block.header;
  }

  -- The block is stored.
  unfoldable pub store : Hex → ChainBlock → Blockchain → Blockchain
  store key entry chain = record chain {
    blocks = insert key entry chain.blocks;
    by_height = index_height entry.block.header.height key chain.by_height;
  }

  -- The tip moves if the new block has more work; `this.tip` is read after the block is stored.
  unfoldable pub move_tip : Hex → ChainBlock → Blockchain → Result Blockchain
  move_tip key entry chain = elim (tip chain) [
    | none ↦ err "Cannot read properties of undefined (reading 'work')"
    | some t ↦
        if ltb t.work entry.work
        then ok (prune_states entry.block.header.height (record chain { tip_hash = key }))
        else ok chain
  ]

  unfoldable pub add_to_parent :
      Blockchain → AddOptions → Bool → ℕ → Block → ChainBlock → Result Blockchain
  add_to_parent chain opts pow_valid now block parent = do
    mtp ← check_header chain opts pow_valid now block parent
    new_state ← check_state opts block mtp parent.state
    let key = block_hash_hex block.header
    let entry = accepted_entry block parent new_state
    move_tip key entry (store key entry chain)

  -- `addBlockInternal`
  unfoldable pub add_block_internal : Blockchain → AddOptions → Bool → ℕ → Block → Result Blockchain
  add_block_internal chain opts pow_valid now block =
      if has (block_hash_hex block.header) chain.blocks
      then ok chain
      else elim (lookup (bytes_to_hex block.header.prev_hash) chain.blocks) [
        | none ↦ err "parent block unknown"
        | some parent ↦ add_to_parent chain opts pow_valid now block parent
      ]

  abbrev pub add_block : Blockchain → ℕ → Block → Result Blockchain
  add_block chain now block =
      add_block_internal chain
        (record { skip_pow = false; skip_tx_sig = false; skip_state_root = false })
        (check_pow block.header) now block

  abbrev pub add_validated_block : Blockchain → ℕ → Block → Result Blockchain
  add_validated_block chain now block =
      add_block_internal chain
        (record { skip_pow = true; skip_tx_sig = true; skip_state_root = true }) false now block

  unfoldable pub add_block_with_pow : Blockchain → Bool → ℕ → Block → Result Blockchain
  add_block_with_pow chain pow_valid now block =
      if not pow_valid
      then err "PoW invalid"
      else add_block_internal chain
          (record { skip_pow = true; skip_tx_sig = false; skip_state_root = false }) false now block
