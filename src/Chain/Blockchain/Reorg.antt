-- ===== src/Chain/Blockchain/Reorg.antt =====
-- src/chain/blockchain.ts, reorgDelta: the blocks and transactions that a move of the tip disconnects
-- and connects. Each round of a loop goes one block down, so the height of a tip is fuel enough.
pub mod Ancestor
use browser_coin_native_mine.Prelude.{
  none, some, ℕ, List, [], ◌∷◌, suc, ◌++◌, if◌then◌else◌, bytes_eq, ltb, zero,
}
use browser_coin_native_mine.Chain.Blockchain.{Blockchain, ChainBlock, ReorgDelta, prev_key}
use browser_coin_native_mine.Chain.Transaction.{Transaction}
use browser_coin_native_mine.Prelude.Dict.{Dict, lookup}
use browser_coin_native_mine.Util.Hex.{Hex}

-- The blocks that a loop has pushed, and where its cursor is left.
-- `while (a && b && a.block.header.height > b.block.header.height)`, for the height of `b`.
unfoldable pub lower : ℕ → Dict ChainBlock → ℕ → Hex → List ChainBlock × Hex
lower zero blocks height key = ([], key)
lower (suc fuel) blocks height key = elim (lookup key blocks) [
  | none ↦ ([], key)
  | some a ↦
      let rest = lower fuel blocks height (prev_key a) in
      if ltb height a.block.header.height then (a ∷ rest.0, rest.1) else ([], key)
]

-- `while (a && b && aHex !== bHex)`
unfoldable pub lower_both : ℕ → Dict ChainBlock → Hex → Hex → List ChainBlock × List ChainBlock
lower_both zero blocks a_key b_key = ([], [])
lower_both (suc fuel) blocks a_key b_key = elim (lookup a_key blocks) [
  | none ↦ ([], [])
  | some a ↦ elim (lookup b_key blocks) [
    | none ↦ ([], [])
    | some b ↦
        let rest = lower_both fuel blocks (prev_key a) (prev_key b) in
        if bytes_eq a_key b_key then ([], []) else (a ∷ rest.0, b ∷ rest.1)
  ]
]

-- The three loops; none runs if a tip is not known.
unfoldable pub branches : Dict ChainBlock → Hex → Hex → List ChainBlock × List ChainBlock
branches blocks old_tip new_tip = elim (lookup old_tip blocks) [
  | none ↦ ([], [])
  | some a ↦ elim (lookup new_tip blocks) [
    | none ↦ ([], [])
    | some b ↦
        let a_height = a.block.header.height in
        let b_height = b.block.header.height in
        let old = lower a_height blocks b_height old_tip in
        elim (lookup old.1 blocks) [
          | none ↦ (old.0, [])
          | some a' ↦
              let new = lower b_height blocks a'.block.header.height new_tip in
              let both = lower_both a_height blocks old.1 new.1 in
              (old.0 ++ both.0, new.0 ++ both.1)
        ]
  ]
]

-- The transactions of the blocks, in the order of the blocks.
unfoldable pub transactions_of : List ChainBlock → List Transaction
transactions_of [] = []
transactions_of (cb ∷ cbs) = cb.block.transactions ++ transactions_of cbs

unfoldable pub reorg_delta : Blockchain → Hex → Hex → ReorgDelta
reorg_delta chain old_tip new_tip =
    let (old_blocks, new_blocks) = branches chain.blocks old_tip new_tip in
    record {
      confirmed = transactions_of new_blocks;
      restored = transactions_of old_blocks;
      connected = new_blocks;
      disconnected = old_blocks;
    }
