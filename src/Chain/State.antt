-- ===== src/Chain/State.antt =====
-- src/chain/state.ts: accounts and script locks, and how transactions and blocks change them. Root has
-- the state root, Totals and Conserve the supply, Invariant and Blocks the well-formed states, Redeem
-- what a redeem is checked for, and Replay what a spent transaction does.
-- In applyTx every check stands in front of the first write, so a failing branch returns no state;
-- a block that fails returns none either, as its callers work on a clone. `locksCreatedThisBlock` is
-- passed along with the state. A field that the source takes as present (`tx.lockId!`) and that is
-- missing is the empty string here; the structural checks refuse such a transaction beforehand.
pub mod Totals
pub mod Redeem
pub mod Conserve
pub mod Invariant
pub mod Replay
pub mod Root
pub mod Blocks
mod Tests
use mathlib.Core.List.{dec_mem}
use browser_coin_native_mine.Prelude.{
  ℕ, ◌+◌, Bool, true, false, not, ◌&&◌, ◌||◌, Option, none, some, List, [], ◌∷◌, Bytes, bytes_eq,
  ltb, ◌==◌, if◌then◌else◌, Result, ok, err, ◌>>=◌, ◌>>◌, fail_if,
}
use browser_coin_native_mine.Chain.Crypto.{Crypto}
use browser_coin_native_mine.Chain.Genesis.{block_reward}
use browser_coin_native_mine.Chain.Script.Limits.{ScriptContext}
use browser_coin_native_mine.Chain.Script.Machine.{eval_script, script_hash}
use browser_coin_native_mine.Chain.Transaction.{
  Transaction, TxKind, transfer, lock, redeem, value_or, tx_kind, tx_hash, redeem_sighash,
}
use browser_coin_native_mine.Prelude.Dict.{Dict, lookup, has, insert, erase}
use browser_coin_native_mine.Prelude.Int.{ℤ, pos, ◌+ℤ◌, ◌-ℤ◌, ltb_ℤ, eqb_ℤ}
use browser_coin_native_mine.Util.Hex.{Hex, bytes_to_hex}

pub record Account : Type 0 where
  pub balance : ℤ
  pub nonce : ℕ

pub record Lock : Type 0 where
  pub amount : ℤ
  pub lock_hash : Bytes
  pub created_height : ℕ

pub record State : Type 0 where
  pub accounts : Dict Account
  pub locks : Dict Lock

pub record ApplyContext : Type 0 where
  pub scripts_active : Bool
  pub block_height : ℕ
  pub block_mtp : ℕ
  pub locks_created_this_block : List Hex

abbrev pub empty_state : State
empty_state = record { accounts = []; locks = [] }

abbrev pub get_account : State → Hex → Account
get_account s address = value_or (lookup address s.accounts) (record { balance = pos 0; nonce = 0 })

abbrev pub get_lock : State → Hex → Option Lock
get_lock s lock_id = lookup lock_id s.locks

abbrev pub contains : List Hex → Hex → Bool
contains [] a = false
contains (x ∷ xs) a = bytes_eq a x || contains xs a

-- The checks that a transfer and a lock share: funds, then the nonce.
unfoldable pub check_sender : Account → ℤ → ℕ → Result (Unit {0})
check_sender sender total nonce = do
  fail_if (ltb_ℤ sender.balance total) "insufficient balance"
  fail_if (not (nonce == sender.nonce)) "bad nonce"

-- `sender.balance -= total; sender.nonce += 1`, and an account that is empty is removed.
unfoldable pub charge : Hex → Account → ℤ → Dict Account → Dict Account
charge from sender total accounts =
    let balance = sender.balance -ℤ total in
    let nonce = sender.nonce + 1 in
    if eqb_ℤ balance (pos 0) && (nonce == 0)
    then erase from accounts
    else insert from (record { balance = balance; nonce = nonce }) accounts

-- `recipient.balance += value`
unfoldable pub credit : State → Hex → ℤ → State
credit s to value =
    let recipient = get_account s to in
    record s {
      accounts = insert to (record recipient { balance = recipient.balance +ℤ value }) s.accounts;
    }

unfoldable pub apply_transfer : State → Transaction → Result State
apply_transfer s tx = do
  let from = bytes_to_hex tx.from
  let sender = get_account s from
  let total = tx.amount +ℤ tx.fee
  check_sender sender total tx.nonce
  ok (
      credit (record s { accounts = charge from sender total s.accounts }) (bytes_to_hex tx.to)
        tx.amount)

module _ ⦃c : Crypto⦄ where
  unfoldable pub apply_lock : State → Transaction → ApplyContext → Result (State × ApplyContext)
  apply_lock s tx ctx = do
    let from = bytes_to_hex tx.from
    let sender = get_account s from
    let total = tx.amount +ℤ tx.fee
    check_sender sender total tx.nonce
    let lock_id = bytes_to_hex (tx_hash tx)
    fail_if (has lock_id s.locks) "lock id already exists"
    ok (
      record {
        accounts = charge from sender total s.accounts;
        locks =
            insert lock_id
              (record {
                amount = tx.amount;
                lock_hash = value_or tx.script_hash [];
                created_height = ctx.block_height;
              })
              s.locks;
      },
      record ctx { locks_created_this_block = lock_id ∷ ctx.locks_created_this_block },
    )

  -- The lock is spent: it is deleted, and what the fee leaves goes to the destination.
  unfoldable pub spend_lock : State → Hex → ℤ → Hex → State
  spend_lock s lock_id payout to =
      let s' = record s { locks = erase lock_id s.locks } in
      if ltb_ℤ (pos 0) payout then credit s' to payout else s'

  -- `compareScriptHash(…) !== 0` is a difference of the byte strings.
  unfoldable pub redeem_lock : State → Transaction → ApplyContext → Hex → Lock → Result State
  redeem_lock s tx ctx lock_id l = do
    fail_if (contains ctx.locks_created_this_block lock_id)
        "lock not spendable in its creation block"
    let redeem_script = value_or tx.redeem_script []
    fail_if (not (bytes_eq (script_hash redeem_script) l.lock_hash))
        "redeem script does not match lock"
    fail_if (not (eqb_ℤ tx.amount l.amount)) "redeem amount mismatch"
    fail_if (ltb_ℤ l.amount tx.fee) "redeem fee exceeds locked amount"
    eval_script
        (record {
          sighash = redeem_sighash tx;
          block_height = ctx.block_height;
          block_mtp = ctx.block_mtp;
        })
        redeem_script (value_or tx.witness [])
    ok (spend_lock s lock_id (l.amount -ℤ tx.fee) (bytes_to_hex tx.to))

  unfoldable pub apply_redeem : State → Transaction → ApplyContext → Result State
  apply_redeem s tx ctx =
      let lock_id = bytes_to_hex (value_or tx.lock_id []) in
      elim (get_lock s lock_id) [
        | none ↦ err "unknown or already-spent lock"
        | some l ↦ redeem_lock s tx ctx lock_id l
      ]

  -- `applyTx`, by the kind of the transaction.
  unfoldable pub apply_as :
      TxKind → State → Transaction → ApplyContext → Result (State × ApplyContext)
  apply_as lock s tx ctx = do
    fail_if (not ctx.scripts_active) "lock tx before fork activation"
    apply_lock s tx ctx
  apply_as redeem s tx ctx = do
    fail_if (not ctx.scripts_active) "redeem tx before fork activation"
    s' ← apply_redeem s tx ctx
    ok (s', ctx)
  apply_as transfer s tx ctx = do s' ← apply_transfer s tx; ok (s', ctx)

  unfoldable pub apply_tx : State → Transaction → ApplyContext → Result (State × ApplyContext)
  apply_tx s tx ctx = apply_as (tx_kind tx) s tx ctx

  -- The loop over the transactions, with the sum of the fees.
  unfoldable pub apply_txs : List Transaction → State → ApplyContext → ℤ → Result (State × ℤ)
  apply_txs [] s ctx fees = ok (s, fees)
  apply_txs (tx ∷ txs) s ctx fees = do
    (s', ctx') ← apply_tx s tx ctx
    apply_txs txs s' ctx' (fees +ℤ tx.fee)

  -- `applyBlockTxs`: the miner gets the reward and the fees.
  unfoldable pub apply_block_txs : State → ℕ → Bytes → List Transaction → Bool → ℕ → Result State
  apply_block_txs s height miner txs scripts_active block_mtp = do
    (s', fees) ←
        (apply_txs txs s
          (record {
            scripts_active = scripts_active;
            block_height = height;
            block_mtp = block_mtp;
            locks_created_this_block = [];
          })
          (pos 0))
    ok (credit s' (bytes_to_hex miner) (pos (block_reward height) +ℤ fees))
