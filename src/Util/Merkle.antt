-- ===== src/Util/Merkle.antt =====
-- src/util/merkle.ts: pairs are hashed upwards, and an odd node is paired with itself.
pub mod Loop
pub mod Doubled
use browser_coin_native_mine.Prelude.{
  ℕ, zero, suc, List, [], ◌∷◌, ◌++◌, Bytes, map, replicate, length,
}
use browser_coin_native_mine.Chain.Crypto.{Crypto, sha256}

module _ ⦃c : Crypto⦄ where
  -- One round of the `while` loop.
  unfoldable pub next_layer : List Bytes → List Bytes
  next_layer [] = []
  next_layer (left ∷ []) = sha256 (left ++ left) ∷ []
  next_layer (left ∷ right ∷ layer) = sha256 (left ++ right) ∷ next_layer layer

  -- The loop, which ends at a layer of one node; the number of leaves is fuel enough.
  unfoldable pub climb : ℕ → List Bytes → Bytes
  climb fuel [] = replicate 32 0
  climb fuel (node ∷ []) = node
  climb zero (node ∷ other ∷ layer) = node
  climb (suc fuel) (node ∷ other ∷ layer) = climb fuel (next_layer (node ∷ other ∷ layer))

  abbrev pub hash_leaf : Bytes → Bytes
  hash_leaf leaf = sha256 leaf

  unfoldable pub merkle_root : List Bytes → Bytes
  merkle_root [] = replicate 32 0
  merkle_root (leaf ∷ []) = sha256 leaf
  merkle_root (leaf ∷ other ∷ leaves) =
      climb (length (leaf ∷ other ∷ leaves)) (map hash_leaf (leaf ∷ other ∷ leaves))
