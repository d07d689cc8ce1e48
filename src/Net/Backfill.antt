-- ===== src/Net/Backfill.antt =====
-- src/net/backfill.ts, oneBatch: one batch of the bodies that fast sync left out. The blocks that a
-- server sent, or none, are an argument, and so is the verifier; `stopped` is taken to be false
-- throughout the batch. What is stored in the browser and logged is not modelled.
pub mod Fatal
use browser_coin_native_mine.Prelude.{
  ℕ, none, some, List, Option, ◌∷◌, Bytes, Bool, ◌++◌, false, if◌then◌else◌, ◌||◌, ◌==◌, [], err,
  length, ok, not, ◌+◌, ◌>>=◌,
}
use browser_coin_native_mine.Chain.Block.{Block, decode_block, block_hash_hex}
use browser_coin_native_mine.Chain.Blockchain.{Blockchain}
use browser_coin_native_mine.Chain.Blockchain.Seed.{lowest_bodyless_height, attach_body}
use browser_coin_native_mine.Chain.Crypto.{Crypto}
use browser_coin_native_mine.Net.FastSync.{has_index}
use browser_coin_native_mine.Prelude.Dict.{lookup}
use browser_coin_native_mine.Util.Hex.{Hex, hex_to_bytes}

pub record Backfill : Type 0 where
  pub chain : Blockchain
  pub pow_suspects : List ℕ

-- The number of bodies attached, or -1.
pub data BatchResult : Type 0 where
  attached : ℕ → BatchResult
  fatal : BatchResult

-- `set.delete(h)`
unfoldable pub delete_suspect : ℕ → List ℕ → List ℕ
delete_suspect h [] = []
delete_suspect h (s ∷ suspects) = if h == s then suspects else s ∷ delete_suspect h suspects

-- Blocks that cannot be decoded are dropped.
unfoldable pub decode_all : List Hex → List Block
decode_all [] = []
decode_all (hex ∷ rest) = elim (hex_to_bytes hex >>= decode_block) [
  | err e ↦ decode_all rest
  | ok block ↦ block ∷ decode_all rest
]

-- `powResults[i]`, where a result that is missing is false.
unfoldable pub with_results : List Block → List Bool → List (Block × Bool)
with_results [] results = []
with_results (block ∷ blocks) [] = (block, false) ∷ with_results blocks []
with_results (block ∷ blocks) (valid ∷ results) = (block, valid) ∷ with_results blocks results

unfoldable pub any_valid : List Bool → Bool
any_valid [] = false
any_valid (valid ∷ results) = valid || any_valid results

module _ ⦃c : Crypto⦄ where
  -- The loop over the decoded blocks, with the number attached so far.
  unfoldable pub attach_bodies : List (Block × Bool) → Backfill → ℕ → Backfill × BatchResult
  attach_bodies [] s count = (s, attached count)
  attach_bodies ((block, valid) ∷ items) s count =
      let h = block.header.height in
      let skipped = attach_bodies items s count in
      let suspected =
        attach_bodies items (record s { pow_suspects = s.pow_suspects ++ (h ∷ []) }) count in
      let cleared = record s { pow_suspects = delete_suspect h s.pow_suspects } in
      elim (lookup (block_hash_hex block.header) s.chain.blocks) [
        | none ↦ skipped
        | some entry ↦
            if entry.has_body
            then skipped
            else if not valid
            then (if has_index h s.pow_suspects then (s, fatal) else suspected)
            else elim (attach_body s.chain block) [
              | err e ↦ attach_bodies items cleared count
              | ok chain ↦ attach_bodies items (record cleared { chain = chain }) (count + 1)
            ]
      ]

  unfoldable pub one_batch :
      (ℕ → Option (List Hex)) → (List Block → List Bool) → Backfill → Backfill × BatchResult
  one_batch fetch_blocks verify_all s =
      let (from, chain) = lowest_bodyless_height s.chain in
      let scanned = record s { chain = chain } in
      if from == 0 then (scanned, attached 0) else elim (fetch_blocks from) [
        | none ↦ (scanned, attached 0)
        | some sent ↦
            let decoded = decode_all sent in
            let results = verify_all decoded in
            if length decoded == 0 || not (any_valid results)
            then (scanned, attached 0)
            else attach_bodies (with_results decoded results) scanned 0
      ]
