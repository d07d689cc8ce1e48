-- ===== src/Chain/Blockchain/Seed.antt =====
-- src/chain/blockchain.ts: blocks from storage and from fast sync, which are wired in without the
-- checks of a block, and the bodies that are attached to them later.
pub mod Indexed
pub mod Kept
pub mod Lowest
pub mod Scannable
pub mod Body
mod Tests
pub mod Reach
pub mod Missing
use browser_coin_native_mine.Prelude.{
  ℕ, Bool, List, length, if◌then◌else◌, suc, Result, Option, ◌==◌, ◌∷◌, max, ◌+◌, none, some, true,
  zero, ok, [], err, ◌||◌, ◌>>◌, ◌>>=◌, ltb, fail_if, not, false,
}
use browser_coin_native_mine.Chain.Block.{
  Block, BlockHeader, block_hash_hex, hash_header, block_size, compute_tx_root,
}
use browser_coin_native_mine.Chain.Blockchain.{
  Blockchain, ChainBlock, at_height, set_height, tip, drop_height, inherit_anchor,
}
use browser_coin_native_mine.Chain.Blockchain.Accept.{store, differs}
use browser_coin_native_mine.Chain.Consensus.{block_work}
use browser_coin_native_mine.Chain.Crypto.{Crypto}
use browser_coin_native_mine.Chain.Genesis.{max_block_bytes}
use browser_coin_native_mine.Chain.State.{State}
use browser_coin_native_mine.Prelude.Dict.{insert, lookup, has}
use browser_coin_native_mine.Util.Hex.{Hex, bytes_to_hex}

-- `if (state !== null) this.tipHash = hashHex`, for the designated anchor.
abbrev pub anchor_tip : Option State → Hex → Blockchain → Blockchain
anchor_tip none key chain = chain
anchor_tip (some state) key chain = record chain { tip_hash = key }

module _ ⦃c : Crypto⦄ where
  abbrev pub seeded_entry : Block → Option State → Bool → ChainBlock → ChainBlock
  seeded_entry block state has_body parent = record {
    block = block;
    hash = hash_header block.header;
    work = parent.work + block_work block.header.difficulty;
    state = state;
    has_body = has_body;
    sandglass2_anchor = inherit_anchor parent.sandglass2_anchor block.header;
  }

  -- The tip is forced to the block that carries a state, else it moves to more work.
  unfoldable pub move_seeded_tip : Hex → ChainBlock → Blockchain → Result Blockchain
  move_seeded_tip key entry chain = elim entry.state [
    | some state ↦ ok (record chain { tip_hash = key })
    | none ↦ elim (tip chain) [
      | none ↦ err "Cannot read properties of undefined (reading 'work')"
      | some t ↦ if ltb t.work entry.work then ok (record chain { tip_hash = key }) else ok chain
    ]
  ]

  -- `seedHistoricalBlock`
  unfoldable pub seed_historical_block : Blockchain → Block → Option State → Result Blockchain
  seed_historical_block chain block state =
      let key = block_hash_hex block.header in
      if has key chain.blocks
      then ok chain
      else elim (lookup (bytes_to_hex block.header.prev_hash) chain.blocks) [
        | none ↦ err "parent block unknown"
        | some parent ↦ do
          fail_if (not (block.header.height == parent.block.header.height + 1))
              "height not parent+1"
          let entry = seeded_entry block state true parent
          move_seeded_tip key entry (store key entry chain)
      ]

  -- The entry of a header without its body, and its height among those that miss a body.
  unfoldable pub store_bodyless : Hex → ChainBlock → Blockchain → Blockchain
  store_bodyless key entry chain =
      let height = entry.block.header.height in
      record (store key entry chain) {
        bodyless_by_height = set_height height key chain.bodyless_by_height;
        bodyless_low =
            if chain.bodyless_low == 0 || ltb height chain.bodyless_low
            then height
            else chain.bodyless_low;
      }

  -- `seedBodyless`
  unfoldable pub seed_bodyless : Blockchain → BlockHeader → Option State → Result Blockchain
  seed_bodyless chain header state =
      let key = block_hash_hex header in
      if has key chain.blocks
      then ok chain
      else elim (lookup (bytes_to_hex header.prev_hash) chain.blocks) [
        | none ↦ err "parent block unknown"
        | some parent ↦ do
          fail_if (not (header.height == parent.block.header.height + 1)) "height not parent+1"
          let entry =
              seeded_entry (record { header = header; transactions = [] }) state false parent
          ok (anchor_tip state key (store_bodyless key entry chain))
      ]

  abbrev pub seed_header : Blockchain → BlockHeader → Result Blockchain
  seed_header chain header = seed_bodyless chain header none

  abbrev pub seed_anchor : Blockchain → BlockHeader → State → Result Blockchain
  seed_anchor chain header state = seed_bodyless chain header (some state)

  -- The entry is changed in place.
  unfoldable pub with_body : Hex → ChainBlock → Block → Blockchain → Blockchain
  with_body key entry block chain = record chain {
    blocks = insert key (record entry { block = block; has_body = true }) chain.blocks;
    bodyless_by_height = drop_height block.header.height chain.bodyless_by_height;
  }

  -- `attachBody`
  unfoldable pub attach_body : Blockchain → Block → Result Blockchain
  attach_body chain block =
      let key = block_hash_hex block.header in
      elim (lookup key chain.blocks) [
        | none ↦ err "unknown block"
        | some entry ↦ if entry.has_body then ok chain else do
          fail_if (ltb max_block_bytes (block_size block)) "block too large"
          fail_if (differs (compute_tx_root block.transactions) block.header.tx_root)
              "txRoot mismatch"
          ok (with_body key entry block chain)
      ]

abbrev pub bodyless_count : Blockchain → ℕ
bodyless_count chain = length chain.bodyless_by_height

abbrev pub has_full_history : Blockchain → Bool
has_full_history chain = length chain.bodyless_by_height == 0

-- The loop `while (!this.bodylessByHeight.has(this.bodylessLow)) this.bodylessLow++`.
unfoldable pub scan_bodyless : ℕ → List (ℕ × Hex) → ℕ → ℕ
scan_bodyless zero rows low = low
scan_bodyless (suc fuel) rows low = elim (at_height low rows) [
  | some key ↦ low
  | none ↦ scan_bodyless fuel rows (low + 1)
]

abbrev pub highest : List (ℕ × Hex) → ℕ
highest [] = 0
highest (row ∷ rows) = max row.0 (highest rows)

-- `lowestBodylessHeight`: the height, and the chain with its cursor moved. The largest height is fuel
-- enough.
unfoldable pub lowest_bodyless_height : Blockchain → ℕ × Blockchain
lowest_bodyless_height chain =
    if length chain.bodyless_by_height == 0
    then (0, record chain { bodyless_low = 0 })
    else let low =
        scan_bodyless (highest chain.bodyless_by_height + 1) chain.bodyless_by_height
          chain.bodyless_low in
      (low, record chain { bodyless_low = low })
