-- ===== src/Chain/Blockchain/Canonical.antt =====
-- src/chain/blockchain.ts, iterateCanonical, canonicalHeaders and snapshotAt: the walk from the tip to
-- the genesis block. Each round goes one block down, so the height of the tip is fuel enough.
pub mod Heights
use mathlib.Core.List.{reverse, map}
use browser_coin_native_mine.Prelude.{
  none, some, true, false, ℕ, List, Option, if◌then◌else◌, [], suc, ◌+◌, ◌==◌, leb, ◌∷◌, zero,
}
use browser_coin_native_mine.Chain.Block.{BlockHeader}
use browser_coin_native_mine.Chain.Blockchain.{Blockchain, ChainBlock, tip, prev_key}
use browser_coin_native_mine.Chain.State.{State}
use browser_coin_native_mine.Prelude.Dict.{Dict, lookup}
use browser_coin_native_mine.Util.Hex.{Hex}

-- The loop of `iterateCanonical`.
unfoldable pub walk_blocks : ℕ → Dict ChainBlock → Hex → List ChainBlock
walk_blocks zero blocks cursor = []
walk_blocks (suc n) blocks cursor = elim (lookup cursor blocks) [
  | none ↦ []
  | some entry ↦
      let rest = walk_blocks n blocks (prev_key entry) in
      entry ∷ (if entry.block.header.height == 0 then [] else rest)
]

unfoldable pub iterate_canonical : Blockchain → List ChainBlock
iterate_canonical chain = elim (tip chain) [
  | none ↦ []
  | some t ↦ walk_blocks (t.block.header.height + 1) chain.blocks chain.tip_hash
]

abbrev header_of : ChainBlock → BlockHeader
header_of cb = cb.block.header

abbrev pub canonical_headers : Blockchain → List BlockHeader
canonical_headers chain = reverse (map header_of (iterate_canonical chain))

pub record Snapshot : Type 0 where
  pub hash_hex : Hex
  pub height : ℕ
  pub state : State

-- The loop of `snapshotAt`.
unfoldable pub find_snapshot : ℕ → Dict ChainBlock → ℕ → Hex → Option Snapshot
find_snapshot zero blocks finalized cursor = none
find_snapshot (suc n) blocks finalized cursor = elim (lookup cursor blocks) [
  | none ↦ none
  | some entry ↦
      let h = entry.block.header.height in
      let below = find_snapshot n blocks finalized (prev_key entry) in
      if h == finalized
      then elim entry.state [
        | none ↦ none
        | some s ↦ some (record { hash_hex = cursor; height = h; state = s })
      ]
      else if leb h finalized
      then none
      else below
]

unfoldable pub snapshot_at : Blockchain → ℕ → Option Snapshot
snapshot_at chain finalized = if finalized == 0 then none else elim (tip chain) [
  | none ↦ none
  | some t ↦ find_snapshot (t.block.header.height + 1) chain.blocks finalized chain.tip_hash
]
