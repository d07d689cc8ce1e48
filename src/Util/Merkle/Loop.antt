-- ===== src/Util/Merkle/Loop.antt =====
-- src/util/merkle.ts: the loop of merkleRoot, as a relation that has no fuel.
use browser_coin_native_mine.Prelude.{
  ℕ, List, Bytes, length, ◌∷◌, ◌≡◌, ◌+◌, ◌≤◌, [], ◌++◌, ◌/◌, refl, arith, suc, zero,
}
use browser_coin_native_mine.Chain.Crypto.{Crypto, sha256}
use browser_coin_native_mine.Util.Merkle.{climb, next_layer}

module _ ⦃c : Crypto⦄ where
  -- The loop leaves the layer with this node.
  pub data Climbs : List Bytes → Bytes → Type 0 where
    ends : {node : Bytes} → Climbs (node ∷ []) node
    rises :
        {node other : Bytes} {layer : List Bytes} {root : Bytes}
        → Climbs (next_layer (node ∷ other ∷ layer)) root
        → Climbs (node ∷ other ∷ layer) root

  pub length-next_layer : (layer : List Bytes) → length (next_layer layer) ≡ (length layer + 1) / 2
  unfolding next_layer
  length-next_layer [] = refl
  length-next_layer (left ∷ []) = refl
  length-next_layer (left ∷ right ∷ layer) =
      let rest = length-next_layer layer in omega (arith, rest)

  -- The loop ends: as many rounds as there are nodes are enough for any layer that is not empty.
  pub climb-Climbs :
      (fuel : ℕ) (node : Bytes) (layer : List Bytes)
      → length layer ≤ fuel
      → Climbs (node ∷ layer) (climb fuel (node ∷ layer))
  unfolding climb next_layer
  climb-Climbs fuel node [] enough = ends
  climb-Climbs zero node (other ∷ layer) enough = absurd (omega (arith, enough))
  climb-Climbs (suc fuel) node (other ∷ layer) enough =
      let half = length-next_layer layer in
      rises (
        climb-Climbs fuel (sha256 (node ++ other)) (next_layer layer) (omega (arith, half, enough)))

  -- The node is determined.
  pub Climbs-unique :
      {layer : List Bytes} {root root' : Bytes}
      → Climbs layer root
      → Climbs layer root'
      → root ≡ root'
  Climbs-unique ends ends = refl
  Climbs-unique (rises a) (rises b) = Climbs-unique a b

  -- More rounds make no difference.
  pub climb-enough :
      (fuel fuel' : ℕ) (node : Bytes) (layer : List Bytes)
      → length layer ≤ fuel
      → length layer ≤ fuel'
      → climb fuel (node ∷ layer) ≡ climb fuel' (node ∷ layer)
  climb-enough fuel fuel' node layer enough enough' =
      Climbs-unique (climb-Climbs fuel node layer enough) (climb-Climbs fuel' node layer enough')
