-- ===== src/Chain/Blockchain/Seed/Body.antt =====
-- src/chain/blockchain.ts, attachBody: what the transaction root of a header says of the body that is
-- attached to it.
use browser_coin_native_mine.Prelude.{
  List, ◌∷◌, [], ◌≡◌, some, false, ◌≤◌, ok, ◌∙◌, ℕ, arith, refl, ltb-false, ◌+◌, length, Bool-cases,
  true, ◌==◌, inl, inr,
}
use browser_coin_native_mine.Chain.Block.{
  compute_tx_root, BlockHeader, block_hash_hex, block_size, encode_leaf, Block,
}
use browser_coin_native_mine.Chain.Blockchain.{Blockchain, ChainBlock, drop_height, at_height}
use browser_coin_native_mine.Chain.Blockchain.Seed.{attach_body, with_body, bodyless_count}
use browser_coin_native_mine.Chain.Crypto.{Crypto}
use browser_coin_native_mine.Chain.Genesis.{max_block_bytes}
use browser_coin_native_mine.Chain.Transaction.{Transaction}
use browser_coin_native_mine.Prelude.Dict.{lookup, lookup-insert_self}
use browser_coin_native_mine.Util.Compare.{compare_bytes_self}
use browser_coin_native_mine.Util.Merkle.Doubled.{paired, map-paired, merkle_root-doubled}

module _ ⦃c : Crypto⦄ where
  compute_tx_root-doubled :
      (first second : Transaction) (pairs : List (Transaction × Transaction)) (last : Transaction)
      → compute_tx_root (paired ((first, second) ∷ pairs) (last ∷ last ∷ []))
        ≡ compute_tx_root (paired ((first, second) ∷ pairs) (last ∷ []))
  unfolding compute_tx_root
  compute_tx_root-doubled first second pairs last =
      rw
        (
          map-paired encode_leaf ((first, second) ∷ pairs) (last ∷ last ∷ []),
          map-paired encode_leaf ((first, second) ∷ pairs) (last ∷ []),
        )
        (merkle_root-doubled _ _ _ _)

  -- A known header without a body takes the following body: that of an odd number of transactions,
  -- three or more, whose transaction root is the header's, with the last transaction written twice,
  -- where this still fits a block.
  pub attach_body-doubled :
      (chain : Blockchain) (header : BlockHeader) (entry : ChainBlock) (first second : Transaction)
      (pairs : List (Transaction × Transaction)) (last : Transaction)
      → lookup (block_hash_hex header) chain.blocks ≡ some entry
      → entry.has_body ≡ false
      → compute_tx_root (paired ((first, second) ∷ pairs) (last ∷ [])) ≡ header.tx_root
      → block_size (record {
        header = header;
        transactions = paired ((first, second) ∷ pairs) (last ∷ last ∷ []);
      })
        ≤ max_block_bytes
      → attach_body chain (record {
        header = header;
        transactions = paired ((first, second) ∷ pairs) (last ∷ last ∷ []);
      })
        ≡ ok (
            with_body
              (block_hash_hex header)
              entry
              (record {
                header = header;
                transactions = paired ((first, second) ∷ pairs) (last ∷ last ∷ []);
              })
              chain)
  unfolding attach_body
  attach_body-doubled chain header entry first second pairs last found empty root fits =
      let same = compute_tx_root-doubled first second pairs last ∙ root in
      let small = ltb-false _ _ fits in
      rw (found, empty, small, same, compare_bytes_self header.tx_root, attach_body) refl

module _ {ℓ} {V : Type ℓ} where
  length-drop_height :
      (h : ℕ) (rows : List (ℕ × V)) (v : V)
      → at_height h rows ≡ some v
      → length (drop_height h rows) + 1 ≡ length rows
  unfolding at_height drop_height
  length-drop_height h [] v found = absurd (cc)
  length-drop_height h (row ∷ rows) v found = elim (Bool-cases (h == row.0)) [
    | inl here ↦ rw here (omega arith)
    | inr apart ↦
        let rest = length-drop_height h rows v (rw apart at found) in rw apart (omega (arith, rest))
  ]

module _ ⦃c : Crypto⦄ where
  -- A body that fits and matches the transaction root is attached to its header, where that is
  -- known, without a body and listed under its height: the entry then has the body, and one body
  -- fewer is missing.
  pub attach_body-bodyless_count :
      (chain : Blockchain) (block : Block) (entry : ChainBlock)
      → lookup (block_hash_hex block.header) chain.blocks ≡ some entry
      → entry.has_body ≡ false
      → at_height block.header.height chain.bodyless_by_height ≡ some (block_hash_hex block.header)
      → compute_tx_root block.transactions ≡ block.header.tx_root
      → block_size block ≤ max_block_bytes
      → (chain' : Blockchain) × (attach_body chain block ≡ ok chain')
        × (bodyless_count chain' + 1 ≡ bodyless_count chain)
        × (lookup (block_hash_hex block.header) chain'.blocks
            ≡ some (record entry { block = block; has_body = true }))
  unfolding attach_body with_body
  attach_body-bodyless_count chain block entry found empty missing root fits =
      let small = ltb-false max_block_bytes (block_size block) fits in
      (
        with_body (block_hash_hex block.header) entry block chain,
        rw (found, empty, small, root, compare_bytes_self block.header.tx_root, attach_body) refl,
        length-drop_height block.header.height chain.bodyless_by_height _ missing,
        lookup-insert_self (block_hash_hex block.header) _ chain.blocks,
      )
