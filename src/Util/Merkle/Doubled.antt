-- ===== src/Util/Merkle/Doubled.antt =====
-- src/util/merkle.ts: lists of leaves whose last leaf is written twice.
use browser_coin_native_mine.Prelude.{
  List, Bytes, map, ◌∷◌, ◌≡◌, [], refl, length, ◌≤◌, suc, arith, ap,
}
use browser_coin_native_mine.Chain.Crypto.{Crypto}
use browser_coin_native_mine.Util.Merkle.{climb, next_layer, merkle_root, hash_leaf}
use browser_coin_native_mine.Util.Merkle.Loop.{climb-enough, length-next_layer}

-- The leaves of the pairs, and the leaves behind them.
unfoldable pub paired {ℓ} : {A : Type ℓ} → List (A × A) → List A → List A
paired [] tail = tail
paired ((a, b) ∷ pairs) tail = a ∷ b ∷ paired pairs tail

pub map-paired {ℓ κ} :
    {A : Type ℓ} {B : Type κ} (f : A → B) (pairs : List (A × A)) (tail : List A)
    → map f (paired pairs tail) ≡ paired (map (λ p. (f p.0, f p.1)) pairs) (map f tail)
unfolding paired
map-paired f [] tail = refl
map-paired f ((a, b) ∷ pairs) tail = rw (map-paired f pairs tail) refl

length-map {ℓ κ} :
    {A : Type ℓ} {B : Type κ} (f : A → B) (xs : List A) → length (map f xs) ≡ length xs
length-map f [] = refl
length-map f (x ∷ xs) = ap suc (length-map f xs)

module _ ⦃c : Crypto⦄ where
  next_layer-doubled :
      (pairs : List (Bytes × Bytes)) (last : Bytes)
      → next_layer (paired pairs (last ∷ last ∷ [])) ≡ next_layer (paired pairs (last ∷ []))
  unfolding next_layer paired
  next_layer-doubled [] last = refl
  next_layer-doubled ((a, b) ∷ pairs) last = rw (next_layer-doubled pairs last) refl

  -- The layer above is no longer than the leaves.
  above_fits :
      (leaves : List Bytes) → length (next_layer (map hash_leaf leaves)) ≤ suc (length leaves)
  above_fits leaves =
      let half = length-next_layer (map hash_leaf leaves) in
      let same : length (map hash_leaf leaves) ≡ length leaves = length-map hash_leaf leaves in
      omega (arith, half, same)

  above-doubled :
      (pairs : List (Bytes × Bytes)) (last : Bytes)
      → next_layer (map hash_leaf (paired pairs (last ∷ last ∷ [])))
        ≡ next_layer (map hash_leaf (paired pairs (last ∷ [])))
  above-doubled pairs last =
      rw (map-paired hash_leaf pairs (last ∷ last ∷ []), map-paired hash_leaf pairs (last ∷ []))
        (next_layer-doubled _ _)

  -- The last leaf of an odd number of leaves, three or more, can be written twice: the root is the same.
  pub merkle_root-doubled :
      (first second : Bytes) (pairs : List (Bytes × Bytes)) (last : Bytes)
      → merkle_root (paired ((first, second) ∷ pairs) (last ∷ last ∷ []))
        ≡ merkle_root (paired ((first, second) ∷ pairs) (last ∷ []))
  unfolding merkle_root paired climb next_layer
  merkle_root-doubled first second pairs last =
      let again = above_fits (paired pairs (last ∷ last ∷ [])) in
      let once = above_fits (paired pairs (last ∷ [])) in
      let same = above-doubled pairs last in rw same (climb-enough _ _ _ _ (rw same at again) once)
