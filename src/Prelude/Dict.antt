-- ===== src/Prelude/Dict.antt =====
-- A JavaScript `Map` keyed by texts, as an association list in insertion order: `set` on a key that
-- is there keeps its place. `IsMap` says that no key is listed twice.
use mathlib.Core.Bool.{Bool, true, false}
use mathlib.Core.List.{List, [], ◌∷◌}
use mathlib.Core.Logic.{inl, inr}
use mathlib.Core.Option.{Option, none, some}
use mathlib.Core.Path.{◌≡◌, refl, subst}
use native.Mathlib.Omega.{arith}
use browser_coin_native_mine.Prelude.{
  if◌then◌else◌, Bool-cases, some-inj, Bytes, bytes_eq, bytes_eq_iff, bytes_eq_refl, All,
}

abbrev pub Dict {ℓ} : Type ℓ → Type ℓ
Dict V = List (Bytes × V)

module _ {ℓ} {V : Type ℓ} where
  unfoldable pub lookup : Bytes → Dict V → Option V
  lookup k [] = none
  lookup k (e ∷ d) = if bytes_eq k e.0 then some e.1 else lookup k d

  abbrev pub has : Bytes → Dict V → Bool
  has k d = elim (lookup k d) [ none ↦ false | some _ ↦ true ]

  -- `map.set(k, v)`
  unfoldable pub insert : Bytes → V → Dict V → Dict V
  insert k v [] = (k, v) ∷ []
  insert k v (e ∷ d) = if bytes_eq k e.0 then (k, v) ∷ d else e ∷ insert k v d

  -- `map.delete(k)`
  unfoldable pub erase : Bytes → Dict V → Dict V
  erase k [] = []
  erase k (e ∷ d) = if bytes_eq k e.0 then d else e ∷ erase k d

  abbrev pub IsMap : Dict V → Type ℓ
  IsMap [] = Unit
  IsMap (e ∷ d) = (lookup e.0 d ≡ none) × IsMap d

  pub lookup-insert :
      (j k : Bytes) (v : V) (d : Dict V)
      → lookup j (insert k v d) ≡ (if bytes_eq j k then some v else lookup j d)
  unfolding lookup insert
  lookup-insert j k v [] = refl
  lookup-insert j k v (e ∷ d) =
      ground
        (arith, bytes_eq_iff j k, bytes_eq_iff k e.0, bytes_eq_iff j e.0, lookup-insert j k v d)

  pub lookup-insert_self : (k : Bytes) (v : V) (d : Dict V) → lookup k (insert k v d) ≡ some v
  lookup-insert_self k v d = ground (arith, lookup-insert k k v d, bytes_eq_refl k)

  pub insert-IsMap : (k : Bytes) (v : V) (d : Dict V) → IsMap d → IsMap (insert k v d)
  unfolding lookup insert
  insert-IsMap k v [] h = (refl, tt)
  insert-IsMap k v (e ∷ d) h = ground (
    arith,
    insert-IsMap k v d h.1,
    lookup-insert e.0 k v d,
    bytes_eq_iff e.0 k,
    bytes_eq_iff k e.0,
  )

  pub lookup-erase_self : (k : Bytes) (d : Dict V) → IsMap d → lookup k (erase k d) ≡ none
  unfolding lookup erase
  lookup-erase_self k [] h = refl
  lookup-erase_self k (e ∷ d) h = ground (arith, lookup-erase_self k d h.1, bytes_eq_iff k e.0)

  pub lookup-erase_ne :
      (j k : Bytes) (d : Dict V) → bytes_eq j k ≡ false → lookup j (erase k d) ≡ lookup j d
  unfolding lookup erase
  lookup-erase_ne j k [] h = refl
  lookup-erase_ne j k (e ∷ d) h =
      ground
        (arith, lookup-erase_ne j k d h, bytes_eq_iff j k, bytes_eq_iff k e.0, bytes_eq_iff j e.0)

  lookup-erase_absent : (j k : Bytes) (d : Dict V) → lookup j d ≡ none → lookup j (erase k d) ≡ none
  unfolding lookup erase
  lookup-erase_absent j k [] h = refl
  lookup-erase_absent j k (e ∷ d) h = ground (arith, lookup-erase_absent j k d)

  pub erase-IsMap : (k : Bytes) (d : Dict V) → IsMap d → IsMap (erase k d)
  unfolding erase
  erase-IsMap k [] h = tt
  erase-IsMap k (e ∷ d) h = ground (arith, erase-IsMap k d h.1, lookup-erase_absent e.0 k d h.0)

module _ {ℓ κ} {V : Type ℓ} (P : V → Type κ) where
  -- A predicate on every value.
  abbrev pub Values : Dict V → Type κ
  Values d = All (λ e. P e.1) d

  pub insert-Values : (k : Bytes) (v : V) (d : Dict V) → P v → Values d → Values (insert k v d)
  unfolding insert
  insert-Values k v [] p h = (p, tt)
  insert-Values k v (e ∷ d) p h = elim (Bool-cases (bytes_eq k e.0)) [
    | inl same ↦ rw same (p, h.1)
    | inr other ↦ rw other (h.0, insert-Values k v d p h.1)
  ]

  pub erase-Values : (k : Bytes) (d : Dict V) → Values d → Values (erase k d)
  unfolding erase
  erase-Values k [] h = tt
  erase-Values k (e ∷ d) h = elim (Bool-cases (bytes_eq k e.0)) [
    | inl same ↦ rw same h.1
    | inr other ↦ rw other (h.0, erase-Values k d h.1)
  ]

  pub lookup-Values : (k : Bytes) (d : Dict V) {v : V} → Values d → lookup k d ≡ some v → P v
  unfolding lookup
  lookup-Values k [] h e = absurd (cc)
  lookup-Values k (x ∷ d) h e = elim (Bool-cases (bytes_eq k x.0)) [
    | inl same ↦ subst P (some-inj (rw (same, lookup) at e)) h.0
    | inr other ↦ lookup-Values k d h.1 (rw (other, lookup) at e)
  ]
