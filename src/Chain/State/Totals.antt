-- ===== src/Chain/State/Totals.antt =====
-- The coins in a state, and what each change of a map does to them.
use browser_coin_native_mine.Prelude.{◌≡◌, Option, none, some, [], ◌∷◌, Bytes, refl}
use browser_coin_native_mine.Chain.State.{Account, Lock, State, empty_state}
use browser_coin_native_mine.Prelude.Dict.{Dict, lookup, insert, erase}
use browser_coin_native_mine.Prelude.Int.{ℤ, pos, ◌+ℤ◌, int_laws}

module _ {V : Type 0} (value : V → ℤ) where
  -- The sum of a field over a map.
  pub sum : Dict V → ℤ
  sum [] = pos 0
  sum (e ∷ d) = value e.1 +ℤ sum d

  abbrev pub value_at : Option V → ℤ
  value_at none = pos 0
  value_at (some v) = value v

  pub sum-insert :
      (k : Bytes) (v : V) (d : Dict V)
      → sum (insert k v d) +ℤ value_at (lookup k d) ≡ sum d +ℤ value v
  unfolding sum insert lookup
  sum-insert k v [] = omega int_laws
  sum-insert k v (e ∷ d) = grind (int_laws, sum-insert k v d)

  pub sum-erase : (k : Bytes) (d : Dict V) → sum (erase k d) +ℤ value_at (lookup k d) ≡ sum d
  unfolding sum erase lookup
  sum-erase k [] = omega int_laws
  sum-erase k (e ∷ d) = grind (int_laws, sum-erase k d)

-- All balances, and all locked amounts.
abbrev pub total : State → ℤ
total s = sum (λ (a : Account). a.balance) s.accounts +ℤ sum (λ (l : Lock). l.amount) s.locks

pub total-empty_state : total empty_state ≡ pos 0
unfolding sum ◌+ℤ◌
total-empty_state = refl
