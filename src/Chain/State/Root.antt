-- ===== src/Chain/State/Root.antt =====
-- src/chain/state.ts, stateRoot: the Merkle root over the accounts and locks in the order of their
-- keys. `Array.sort` compares texts code by code; the keys of a map are different. In hexToFixed32
-- `parseInt` gives NaN on a text that is no number, which is stored as 0.
use browser_coin_native_mine.Prelude.{
  ℕ, zero, suc, Bool, Bytes, ◌∷◌, [], List, if◌then◌else◌, drop, length, false, ◌==◌, true, ltb,
  ◌&&◌,
}
use browser_coin_native_mine.Chain.Crypto.{Crypto, sha256}
use browser_coin_native_mine.Chain.State.{Account, State, Lock}
use browser_coin_native_mine.Chain.Transaction.{value_or}
use browser_coin_native_mine.Prelude.Dict.{Dict}
use browser_coin_native_mine.Prelude.Int.{eqb_ℤ, pos}
use browser_coin_native_mine.Util.Binary.{concat, u64be, u32be}
use browser_coin_native_mine.Util.Hex.{Hex, digit_value, parse_pair}
use browser_coin_native_mine.Util.Merkle.{merkle_root}

-- The keys are hexadecimal texts, so this is the order of `sort()`.
unfoldable pub before : Hex → Hex → Bool
before [] [] = false
before [] (y ∷ ys) = true
before (x ∷ xs) [] = false
before (x ∷ xs) (y ∷ ys) = if x == y then before xs ys else ltb x y

module _ {V : Type 0} where
  unfoldable pub insert_row : Hex × V → Dict V → Dict V
  insert_row r [] = r ∷ []
  insert_row r (s ∷ rows) = if before s.0 r.0 then s ∷ insert_row r rows else r ∷ s ∷ rows

  -- The entries of a map in the order of their keys.
  unfoldable pub sort_rows : Dict V → Dict V
  sort_rows [] = []
  sort_rows (r ∷ rows) = insert_row r (sort_rows rows)

abbrev two_digits : Hex → ℕ
two_digits [] = 0
two_digits (a ∷ []) = value_or (digit_value a) 0
two_digits (a ∷ b ∷ hex) = value_or (parse_pair a b) 0

-- The loop of hexToFixed32, `k` rounds.
unfoldable pub hex_to_fixed : ℕ → Hex → Bytes
hex_to_fixed zero hex = []
hex_to_fixed (suc k) hex = two_digits hex ∷ hex_to_fixed k (drop 2 hex)

abbrev pub hex_to_fixed32 : Hex → Bytes
hex_to_fixed32 hex = hex_to_fixed 32 hex

-- Empty accounts have no leaf.
unfoldable pub account_leaves : Dict Account → List Bytes
account_leaves [] = []
account_leaves (r ∷ rows) =
    let rest = account_leaves rows in
    if eqb_ℤ r.1.balance (pos 0) && r.1.nonce == 0
    then rest
    else concat (hex_to_fixed32 r.0 ∷ u64be r.1.balance ∷ u32be r.1.nonce ∷ []) ∷ rest

unfoldable pub lock_leaves : Dict Lock → List Bytes
lock_leaves [] = []
lock_leaves (r ∷ rows) =
    concat (hex_to_fixed32 r.0 ∷ u64be r.1.amount ∷ r.1.lock_hash ∷ u32be r.1.created_height ∷ [])
    ∷ lock_leaves rows

module _ ⦃c : Crypto⦄ where
  unfoldable pub accounts_merkle_root : State → Bytes
  accounts_merkle_root state = merkle_root (account_leaves (sort_rows state.accounts))

  unfoldable pub locks_merkle_root : State → Bytes
  locks_merkle_root state = merkle_root (lock_leaves (sort_rows state.locks))

  unfoldable pub state_root : State → Bytes
  state_root state =
      let accounts_root = accounts_merkle_root state in
      if length state.locks == 0
      then accounts_root
      else sha256 (concat (accounts_root ∷ locks_merkle_root state ∷ []))
