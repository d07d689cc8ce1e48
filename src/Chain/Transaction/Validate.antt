-- ===== src/Chain/Transaction/Validate.antt =====
-- src/chain/transaction.ts, verifyTxSignature and validateTxStructure.
use browser_coin_native_mine.Prelude.{
  ℕ, Bool, false, not, ◌&&◌, ◌||◌, Option, none, some, List, [], ◌∷◌, Bytes, length, bytes_eq, ltb,
  ◌==◌, if◌then◌else◌, Result, ◌>>◌, fail_if,
}
use browser_coin_native_mine.Chain.Crypto.{Crypto, verify}
use browser_coin_native_mine.Chain.Genesis.{max_money}
use browser_coin_native_mine.Chain.Script.Limits.{
  max_script_bytes, max_witness_items, max_push_bytes,
}
use browser_coin_native_mine.Chain.Transaction.{
  Transaction, TxKind, transfer, lock, redeem, value_or, tx_kind, is_lock, tx_preimage,
  lock_preimage,
}
use browser_coin_native_mine.Prelude.Int.{ℤ, pos, ◌+ℤ◌, ltb_ℤ, eqb_ℤ}
use browser_coin_native_mine.Util.Hex.{bytes_to_hex}

abbrev pub negative : ℤ → Bool
negative v = ltb_ℤ v (pos 0)

abbrev above_max_money : ℤ → Bool
above_max_money v = ltb_ℤ (pos max_money) v

abbrev pub option_length : Option Bytes → ℕ
option_length none = 0
option_length (some b) = length b

module _ ⦃c : Crypto⦄ where
  unfoldable pub verify_tx_signature : Transaction → Bool
  verify_tx_signature tx =
      if is_lock tx
      then length tx.from == 32
        && length tx.signature == 64
        && option_length tx.script_hash == 32
        && verify tx.signature (lock_preimage tx) tx.from
      else length tx.from == 32
        && length tx.to == 32
        && length tx.signature == 64
        && verify tx.signature (tx_preimage tx) tx.from

  unfoldable pub validate_transfer_structure : Transaction → Result (Unit {0})
  validate_transfer_structure tx = do
    fail_if (negative tx.amount) "amount negative"
    fail_if (negative tx.fee) "fee negative"
    fail_if (above_max_money tx.amount) "amount exceeds MAX_MONEY"
    fail_if (above_max_money tx.fee) "fee exceeds MAX_MONEY"
    fail_if (above_max_money (tx.amount +ℤ tx.fee)) "amount + fee exceeds MAX_MONEY"
    fail_if (eqb_ℤ tx.amount (pos 0) && eqb_ℤ tx.fee (pos 0)) "tx has no value"
    fail_if (bytes_eq (bytes_to_hex tx.from) (bytes_to_hex tx.to)) "self-send forbidden"
    fail_if (not (verify_tx_signature tx)) "bad signature"

  unfoldable pub validate_lock_structure : Transaction → Result (Unit {0})
  validate_lock_structure tx = do
    fail_if (not (length tx.from == 32)) "lock: bad from"
    fail_if (not (option_length tx.script_hash == 32)) "lock: bad scriptHash"
    fail_if (negative tx.amount || negative tx.fee) "lock: negative value"
    fail_if (above_max_money tx.amount || above_max_money tx.fee) "lock: value exceeds MAX_MONEY"
    fail_if (above_max_money (tx.amount +ℤ tx.fee)) "lock: amount + fee exceeds MAX_MONEY"
    fail_if (eqb_ℤ tx.amount (pos 0)) "lock: nothing to lock"
    fail_if (not (verify_tx_signature tx)) "lock: bad signature"

-- `for (const item of w) if (item.length > MAX_PUSH_BYTES) return …`
unfoldable pub witness_too_large : List Bytes → Bool
witness_too_large [] = false
witness_too_large (item ∷ w) = ltb max_push_bytes (length item) || witness_too_large w

unfoldable pub validate_redeem_structure : Transaction → Result (Unit {0})
validate_redeem_structure tx = do
  fail_if (not (length tx.to == 32)) "redeem: bad destination"
  fail_if (not (option_length tx.lock_id == 32)) "redeem: bad lockId"
  fail_if (negative tx.amount || negative tx.fee) "redeem: negative value"
  fail_if (above_max_money tx.amount) "redeem: amount exceeds MAX_MONEY"
  fail_if (ltb_ℤ tx.amount tx.fee) "redeem: fee exceeds claimed amount"
  fail_if (option_length tx.redeem_script == 0) "redeem: empty script"
  fail_if (ltb max_script_bytes (option_length tx.redeem_script)) "redeem: script too long"
  let w = value_or tx.witness []
  fail_if (ltb max_witness_items (length w)) "redeem: too many witness items"
  fail_if (witness_too_large w) "redeem: witness item too large"

module _ ⦃c : Crypto⦄ where
  abbrev pub validate_as : TxKind → Transaction → Result (Unit {0})
  validate_as lock tx = validate_lock_structure tx
  validate_as redeem tx = validate_redeem_structure tx
  validate_as transfer tx = validate_transfer_structure tx

  unfoldable pub validate_tx_structure : Transaction → Result (Unit {0})
  validate_tx_structure tx = validate_as (tx_kind tx) tx
