-- ===== src/Chain/Blockchain.antt =====
-- src/chain/blockchain.ts: the tree of known blocks, its tip, and what is read from it. Accept has the
-- validation of a block, Seed the entries from storage and fast sync, Reorg the change of the canonical
-- chain, Canonical the walk along it. The genesis block is that of src/chain/genesis.ts.
-- Listeners are not modelled: what they are told is a result of the operation.
pub mod Accept
pub mod Tree
pub mod Seed
pub mod Reorg
pub mod Canonical
pub mod Reach
pub mod Tip
pub mod Accepted
mod Tests
use mathlib.Core.List.{reverse}
use browser_coin_native_mine.Prelude.{
  ℕ, zero, suc, ◌-◌, List, Option, some, Bool, Bytes, none, Result, ◌+◌, ◌∷◌, if◌then◌else◌, err,
  [], ◌++◌, ◌==◌, true, false,
}
use browser_coin_native_mine.Chain.Block.{Block, BlockHeader, block_hash_hex, hash_header}
use browser_coin_native_mine.Chain.Consensus.{
  median_time_past, block_work, next_difficulty, scripts_active_for_mtp,
}
use browser_coin_native_mine.Chain.Crypto.{Crypto}
use browser_coin_native_mine.Chain.Genesis.{
  difficulty_window, genesis_timestamp, mtp_window, genesis_difficulty_compact,
  sandglass2_anchor_height,
}
use browser_coin_native_mine.Chain.State.{State, empty_state}
use browser_coin_native_mine.Chain.Transaction.{zero32, Transaction}
use browser_coin_native_mine.Prelude.Dict.{Dict, lookup, insert}
use browser_coin_native_mine.Util.Hex.{Hex, bytes_to_hex}

pub record ChainBlock : Type 0 where
  pub block : Block
  pub hash : Bytes
  pub work : ℕ
  pub state : Option State
  pub has_body : Bool
  pub sandglass2_anchor : Option BlockHeader

pub record ReorgDelta : Type 0 where
  pub confirmed : List Transaction
  pub restored : List Transaction
  pub connected : List ChainBlock
  pub disconnected : List ChainBlock

-- The fields of the class `Blockchain`. A map keyed by heights is a list of pairs.
pub record Blockchain : Type 0 where
  pub blocks : Dict ChainBlock
  pub tip_hash : Hex
  pub by_height : List (ℕ × List Hex)
  pub prune_floor : ℕ
  pub bodyless_by_height : List (ℕ × Hex)
  pub bodyless_low : ℕ
  pub state_retention_depth : ℕ

abbrev pub retarget_lookback : ℕ
retarget_lookback = difficulty_window + mtp_window - 1

abbrev pub genesis : Block
genesis = record {
  header = record {
    height = 0;
    prev_hash = zero32;
    tx_root = zero32;
    state_root = zero32;
    timestamp = genesis_timestamp;
    difficulty = genesis_difficulty_compact;
    nonce = 0;
    miner = zero32;
  };
  transactions = [];
}

module _ {ℓ} {V : Type ℓ} where
  -- `map.get(h)` and `map.delete(h)` on a map keyed by heights.
  unfoldable pub at_height : ℕ → List (ℕ × V) → Option V
  at_height h [] = none
  at_height h (e ∷ rows) = if h == e.0 then some e.1 else at_height h rows

  unfoldable pub drop_height : ℕ → List (ℕ × V) → List (ℕ × V)
  drop_height h [] = []
  drop_height h (e ∷ rows) = if h == e.0 then rows else e ∷ drop_height h rows

  unfoldable pub set_height : ℕ → V → List (ℕ × V) → List (ℕ × V)
  set_height h v [] = (h, v) ∷ []
  set_height h v (e ∷ rows) = if h == e.0 then (h, v) ∷ rows else e ∷ set_height h v rows

unfoldable pub index_height : ℕ → Hex → List (ℕ × List Hex) → List (ℕ × List Hex)
index_height h key rows = elim (at_height h rows) [
  | some bucket ↦ set_height h (bucket ++ (key ∷ [])) rows
  | none ↦ set_height h (key ∷ []) rows
]

-- `cb.state = null`, for the block with this hash if it is there.
unfoldable pub clear_state : Hex → Dict ChainBlock → Dict ChainBlock
clear_state key blocks = elim (lookup key blocks) [
  | none ↦ blocks
  | some cb ↦ insert key (record cb { state = none }) blocks
]

unfoldable pub clear_states : List Hex → Dict ChainBlock → Dict ChainBlock
clear_states [] blocks = blocks
clear_states (key ∷ keys) blocks = clear_states keys (clear_state key blocks)

-- One round of the loop of `pruneStates`.
unfoldable pub prune_height : Blockchain → Blockchain
prune_height c = elim (at_height c.prune_floor c.by_height) [
  | none ↦ record c { prune_floor = c.prune_floor + 1 }
  | some keys ↦ record c {
    blocks = clear_states keys c.blocks;
    by_height = drop_height c.prune_floor c.by_height;
    prune_floor = c.prune_floor + 1;
  }
]

-- The loop, `k` rounds: each raises the floor by one, so their number is known before.
unfoldable pub prune_rounds : ℕ → Blockchain → Blockchain
prune_rounds zero c = c
prune_rounds (suc k) c = prune_rounds k (prune_height c)

-- `pruneStates`, at the height of the tip; the floor stays where it is if the boundary is below it.
unfoldable pub prune_states : ℕ → Blockchain → Blockchain
prune_states height c = prune_rounds (height - c.state_retention_depth - c.prune_floor) c

unfoldable pub tip : Blockchain → Option ChainBlock
tip c = lookup c.tip_hash c.blocks

-- `inheritAnchor`: from the block itself at the anchor's height, else from its parent.
unfoldable pub inherit_anchor : Option BlockHeader → BlockHeader → Option BlockHeader
inherit_anchor parent_anchor header =
    if header.height == sandglass2_anchor_height then some header else parent_anchor

abbrev pub prev_key : ChainBlock → Hex
prev_key cb = bytes_to_hex cb.block.header.prev_hash

-- The loop of `getRecentHeaders`, newest first.
unfoldable pub walk_headers : ℕ → Dict ChainBlock → Hex → List BlockHeader
walk_headers zero blocks cursor = []
walk_headers (suc n) blocks cursor = elim (lookup cursor blocks) [
  | none ↦ []
  | some entry ↦ entry.block.header ∷ elim (entry.block.header.height == 0) [
    | true ↦ []
    | false ↦ walk_headers n blocks (prev_key entry)
  ]
]

unfoldable pub get_recent_headers : ℕ → Blockchain → Hex → List BlockHeader
get_recent_headers n c from_hash = reverse (walk_headers n c.blocks from_hash)

unfoldable pub expected_next_difficulty : Blockchain → ℕ → Hex → Result ℕ
expected_next_difficulty c candidate_timestamp parent_key = elim (lookup parent_key c.blocks) [
  | none ↦ err "unknown parent for difficulty lookup"
  | some parent ↦
      next_difficulty (parent.block.header.height + 1)
        (get_recent_headers retarget_lookback c parent_key) (some candidate_timestamp)
        parent.sandglass2_anchor
]

-- Whether scripts are active for a child of the block, and its median-time-past.
unfoldable pub next_block_script_context : Blockchain → Hex → Bool × ℕ
next_block_script_context c parent_key =
    let mtp = median_time_past (get_recent_headers mtp_window c parent_key) in
    (scripts_active_for_mtp mtp, mtp)

module _ ⦃c : Crypto⦄ where
  abbrev pub genesis_key : Hex
  genesis_key = block_hash_hex genesis.header

  abbrev pub genesis_entry : ChainBlock
  genesis_entry = record {
    block = genesis;
    hash = hash_header genesis.header;
    work = block_work genesis_difficulty_compact;
    state = some empty_state;
    has_body = true;
    sandglass2_anchor = none;
  }

  -- The constructor, and `reset`.
  unfoldable pub new_blockchain : ℕ → Blockchain
  new_blockchain depth = record {
    blocks = (genesis_key, genesis_entry) ∷ [];
    tip_hash = genesis_key;
    by_height = (0, genesis_key ∷ []) ∷ [];
    prune_floor = 0;
    bodyless_by_height = [];
    bodyless_low = 0;
    state_retention_depth = depth;
  }

  abbrev pub reset : Blockchain → Blockchain
  reset chain = new_blockchain chain.state_retention_depth
