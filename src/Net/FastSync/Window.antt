-- ===== src/Net/FastSync/Window.antt =====
-- src/net/fastSync.ts, the rolling window of the loop over the headers, against the walk that
-- getRecentHeaders makes.
use mathlib.Core.List.{reverse, reverse-cons, reverse-append}
use browser_coin_native_mine.Prelude.{
  ℕ, ◌≡◌, suc, zero, inl, inr, Bool-cases, ◌==◌, List, refl, ◌∷◌, ◌++◌, [], some, none, ltb, ◌≤◌,
  ◌∙◌, ap, sym, false, ◌⊎◌, take, length, length-append, drop, arith, bytes_eq, if◌then◌else◌, true,
  bytes_eq_iff,
}
use browser_coin_native_mine.Chain.Block.{BlockHeader}
use browser_coin_native_mine.Chain.Blockchain.{walk_headers, ChainBlock, prev_key}
use browser_coin_native_mine.Prelude.Dict.{Dict, lookup, insert, lookup-insert}
use browser_coin_native_mine.Util.Hex.{Hex}

module _ {ℓ} {A : Type ℓ} where
  -- One more item is taken, or there is none.
  take_more :
      (n : ℕ) (xs : List A)
      → ((take (suc n) xs ≡ take n xs) × (length (take n xs) ≤ n))
        ⊎ ((x : A) × (take (suc n) xs ≡ take n xs ++ (x ∷ [])) × (length (take n xs) ≡ n))
  take_more zero [] = inl (refl, omega arith)
  take_more zero (x ∷ xs) = inr (x, refl, refl)
  take_more (suc n) [] = inl (refl, omega arith)
  take_more (suc n) (x ∷ xs) = elim (take_more n xs) [
    | inl (same, short) ↦ inl (ap (λ l. x ∷ l) same, omega (arith, short))
    | inr (y, more, full) ↦ inr (y, ap (λ l. x ∷ l) more, omega (arith, full))
  ]

  length-reverse : (xs : List A) → length (reverse xs) ≡ length xs
  length-reverse [] = refl
  length-reverse (x ∷ xs) =
      rw (reverse-cons x xs, length-append (reverse xs) (x ∷ []), length-reverse xs) (omega arith)

  -- A window of the newest items, oldest first, is kept by adding an item at its end and dropping the
  -- first one where it has become too long.
  pub window-∷ :
      (n : ℕ) (x : A) (xs : List A)
      → (let longer = reverse (take (suc n) xs) ++ (x ∷ []) in
          if ltb (suc n) (length longer) then drop 1 longer else longer)
        ≡ reverse (take (suc n) (x ∷ xs))
  window-∷ n x xs = elim (take_more n xs) [
    | inl (same, short) ↦
        let count = length-append (reverse (take n xs)) (x ∷ []) in
        let size = length-reverse (take n xs) in
        let fits : ltb (suc n) (length (reverse (take n xs) ++ (x ∷ []))) ≡ false =
          ground (arith, count, size, short) in
        rw (same, fits) (sym (reverse-cons x (take n xs)))
    | inr (y, more, full) ↦
        let count = length-append (reverse (take n xs)) (x ∷ []) in
        let size = length-reverse (take n xs) in
        let over : ltb (suc n) (suc (length (reverse (take n xs) ++ (x ∷ [])))) ≡ true =
          ground (arith, count, size, full) in
        rw (more, reverse-append (take n xs) (y ∷ []), over) (sym (reverse-cons x (take n xs)))
  ]

-- The headers from a hash down to height 0, newest first.
pub data HeaderPath (blocks : Dict ChainBlock) : Hex → List BlockHeader → Type 0 where
  bottom :
      {key : Hex} (cb : ChainBlock)
      → lookup key blocks ≡ some cb
      → (cb.block.header.height == 0) ≡ true
      → HeaderPath blocks key (cb.block.header ∷ [])
  above :
      {key : Hex} {hs : List BlockHeader} (cb : ChainBlock)
      → lookup key blocks ≡ some cb
      → (cb.block.header.height == 0) ≡ false
      → HeaderPath blocks (prev_key cb) hs
      → HeaderPath blocks key (cb.block.header ∷ hs)

take_nil : (n : ℕ) → take {A = BlockHeader} n [] ≡ []
take_nil zero = refl
take_nil (suc n) = refl

pub walk_headers-HeaderPath :
    (n : ℕ) {blocks : Dict ChainBlock} {key : Hex} {hs : List BlockHeader}
    → HeaderPath blocks key hs
    → walk_headers n blocks key ≡ take n hs
unfolding walk_headers
walk_headers-HeaderPath zero p = refl
walk_headers-HeaderPath (suc n) (bottom cb found low) =
    rw (found, low, walk_headers) (ap (λ l. cb.block.header ∷ l) (sym (take_nil n)))
walk_headers-HeaderPath (suc n) (above cb found high p) =
    rw (found, high, walk_headers) (ap (λ l. cb.block.header ∷ l) (walk_headers-HeaderPath n p))

pub lookup-insert_new :
    (blocks : Dict ChainBlock) (key new : Hex) (cb e : ChainBlock)
    → lookup new blocks ≡ none
    → lookup key blocks ≡ some cb
    → lookup key (insert new e blocks) ≡ some cb
lookup-insert_new blocks key new cb e fresh found = elim (Bool-cases (bytes_eq key new)) [
  | inl same ↦ absurd (cc (fresh, found, (bytes_eq_iff key new).0 same))
  | inr other ↦ lookup-insert key new e blocks ∙ rw other found
]

-- A new block leaves the headers below the others as they are.
pub insert-HeaderPath :
    {blocks : Dict ChainBlock} {key : Hex} {hs : List BlockHeader} (new : Hex) (e : ChainBlock)
    → lookup new blocks ≡ none
    → HeaderPath blocks key hs
    → HeaderPath (insert new e blocks) key hs
insert-HeaderPath {blocks} {key} new e fresh (bottom cb found low) =
    bottom cb (lookup-insert_new blocks key new cb e fresh found) low
insert-HeaderPath {blocks} {key} new e fresh (above cb found high p) =
    above cb (lookup-insert_new blocks key new cb e fresh found) high
      (insert-HeaderPath new e fresh p)
