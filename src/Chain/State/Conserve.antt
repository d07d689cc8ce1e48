-- ===== src/Chain/State/Conserve.antt =====
-- No transaction makes or destroys coins but for its fee, and a block adds its reward.
use browser_coin_native_mine.Prelude.{
  ap, ◌+◌, ◌≡◌, arith, Option-cases, inl, inr, >>=-eq-ok, ok-inj, fail_if-false, ◌∙◌, ok, some,
  false, [], fail_if, ℕ, List, Bytes, ◌∷◌, Bool, not,
}
use browser_coin_native_mine.Chain.Crypto.{Crypto}
use browser_coin_native_mine.Chain.Genesis.{block_reward}
use browser_coin_native_mine.Chain.State.{
  Account, Lock, State, get_account, charge, credit, apply_transfer, check_sender, spend_lock,
  ApplyContext, apply_lock, apply_redeem, apply_tx, apply_txs, apply_block_txs, apply_as,
}
use browser_coin_native_mine.Chain.State.Redeem.{apply_redeem_lem}
use browser_coin_native_mine.Chain.State.Totals.{sum, sum-insert, sum-erase, total}
use browser_coin_native_mine.Chain.Transaction.{
  Transaction, TxKind, transfer, lock, redeem, tx_hash, value_or, tx_kind,
}
use browser_coin_native_mine.Prelude.Dict.{Dict, lookup, insert, erase, has}
use browser_coin_native_mine.Prelude.Int.{ℤ, ◌+ℤ◌, ◌-ℤ◌, int_laws, ltb_ℤ, pos}
use browser_coin_native_mine.Util.Hex.{Hex, bytes_to_hex}

abbrev balances : Dict Account → ℤ
balances = sum (λ a. a.balance)

abbrev locked : Dict Lock → ℤ
locked = sum (λ l. l.amount)

balances-insert :
    (address : Hex) (a : Account) (s : State)
    → balances (insert address a s.accounts) +ℤ (get_account s address).balance
      ≡ balances s.accounts +ℤ a.balance
balances-insert address a s = elim (Option-cases (lookup address s.accounts)) [
  | inl absent ↦ ground (arith, sum-insert (λ (a : Account). a.balance) address a s.accounts)
  | inr (old, found) ↦ ground (arith, sum-insert (λ (a : Account). a.balance) address a s.accounts)
]

balances-erase :
    (address : Hex) (s : State)
    → balances (erase address s.accounts) +ℤ (get_account s address).balance ≡ balances s.accounts
balances-erase address s = elim (Option-cases (lookup address s.accounts)) [
  | inl absent ↦ ground (arith, sum-erase (λ (a : Account). a.balance) address s.accounts)
  | inr (old, found) ↦ ground (arith, sum-erase (λ (a : Account). a.balance) address s.accounts)
]

charge-balances :
    (address : Hex) (cost : ℤ) (s : State)
    → balances (charge address (get_account s address) cost s.accounts) +ℤ cost
      ≡ balances s.accounts
unfolding charge
charge-balances address cost s = grind (
  int_laws,
  balances-erase address s,
  balances-insert address
      (record {
        balance = (get_account s address).balance -ℤ cost;
        nonce = (get_account s address).nonce + 1;
      })
      s,
)

credit-total : (s : State) (to : Hex) (v : ℤ) → total (credit s to v) ≡ total s +ℤ v
unfolding credit
credit-total s to v = grind (
  int_laws,
  balances-insert to (record (get_account s to) { balance = (get_account s to).balance +ℤ v }) s,
)

apply_transfer-total :
    (s : State) (tx : Transaction) {s' : State}
    → apply_transfer s tx ≡ ok s'
    → total s' +ℤ tx.fee ≡ total s
unfolding apply_transfer
apply_transfer-total s tx e =
    let (_, checked, done) =
      >>=-eq-ok (check_sender (get_account s (bytes_to_hex tx.from)) (tx.amount +ℤ tx.fee) tx.nonce)
        _ e in
    let s₁ = record s {
      accounts =
          charge (bytes_to_hex tx.from) (get_account s (bytes_to_hex tx.from)) (tx.amount +ℤ tx.fee)
            s.accounts;
    } in
    grind (
      int_laws,
      ok-inj done,
      charge-balances (bytes_to_hex tx.from) (tx.amount +ℤ tx.fee) s,
      credit-total s₁ (bytes_to_hex tx.to) tx.amount,
    )

locked-insert_new :
    (lock_id : Hex) (l : Lock) (d : Dict Lock)
    → has lock_id d ≡ false
    → locked (insert lock_id l d) ≡ locked d +ℤ l.amount
locked-insert_new lock_id l d h = elim (Option-cases (lookup lock_id d)) [
  | inl absent ↦ grind (int_laws, sum-insert (λ (l : Lock). l.amount) lock_id l d, absent)
  | inr (old, found) ↦ absurd (cc (rw (found, has) at h))
]

locked-erase :
    (lock_id : Hex) (l : Lock) (d : Dict Lock)
    → lookup lock_id d ≡ some l
    → locked (erase lock_id d) +ℤ l.amount ≡ locked d
locked-erase lock_id l d h = grind (int_laws, sum-erase (λ (l : Lock). l.amount) lock_id d, h)

module _ ⦃c : Crypto⦄ where
  apply_lock-total :
      (s : State) (tx : Transaction) (ctx : ApplyContext) {s' : State} {ctx' : ApplyContext}
      → apply_lock s tx ctx ≡ ok (s', ctx')
      → total s' +ℤ tx.fee ≡ total s
  unfolding apply_lock
  apply_lock-total s tx ctx e =
      let from = bytes_to_hex tx.from in
      let lock_id = bytes_to_hex (tx_hash tx) in
      let l : Lock = record {
        amount = tx.amount;
        lock_hash = value_or tx.script_hash [];
        created_height = ctx.block_height;
      } in
      let (_, checked, e₁) =
        >>=-eq-ok (check_sender (get_account s from) (tx.amount +ℤ tx.fee) tx.nonce) _ e in
      let (_, fresh, e₂) = >>=-eq-ok (fail_if (has lock_id s.locks) _) _ e₁ in
      grind (
        int_laws,
        ok-inj e₂,
        charge-balances from (tx.amount +ℤ tx.fee) s,
        locked-insert_new lock_id l s.locks (fail_if-false _ _ fresh),
      )

  spend_lock-total :
      (s : State) (lock_id : Hex) (l : Lock) (fee : ℤ) (to : Hex)
      → lookup lock_id s.locks ≡ some l
      → ltb_ℤ l.amount fee ≡ false
      → total (spend_lock s lock_id (l.amount -ℤ fee) to) +ℤ fee ≡ total s
  unfolding spend_lock
  spend_lock-total s lock_id l fee to h f =
      let s' = record s { locks = erase lock_id s.locks } in
      grind (int_laws, locked-erase lock_id l s.locks h, credit-total s' to (l.amount -ℤ fee))

  apply_redeem-total :
      (s : State) (tx : Transaction) (ctx : ApplyContext) {s' : State}
      → apply_redeem s tx ctx ≡ ok s'
      → total s' +ℤ tx.fee ≡ total s
  apply_redeem-total s tx ctx e =
      let lock_id = bytes_to_hex (value_or tx.lock_id []) in
      let (l, r, spent) = apply_redeem_lem s tx ctx e in
      rw spent (spend_lock-total s lock_id l tx.fee (bytes_to_hex tx.to) r.found r.fee_covered)

  apply_as-total :
      (k : TxKind) (s : State) (tx : Transaction) (ctx : ApplyContext) {s' : State}
      {ctx' : ApplyContext}
      → apply_as k s tx ctx ≡ ok (s', ctx')
      → total s' +ℤ tx.fee ≡ total s
  unfolding apply_as
  apply_as-total lock s tx ctx e =
      let (_, active, locked_now) = >>=-eq-ok (fail_if (not ctx.scripts_active) _) _ e in
      apply_lock-total s tx ctx locked_now
  apply_as-total redeem s tx ctx e =
      let (_, active, e') = >>=-eq-ok (fail_if (not ctx.scripts_active) _) _ e in
      let (s₁, redeemed, done) = >>=-eq-ok (apply_redeem s tx ctx) _ e' in
      apply_redeem-total s tx ctx
        (redeemed ∙ ap ok (ap (λ (p : State × ApplyContext). p.0) (ok-inj done)))
  apply_as-total transfer s tx ctx e =
      let (s₁, moved, done) = >>=-eq-ok (apply_transfer s tx) _ e in
      apply_transfer-total s tx
        (moved ∙ ap ok (ap (λ (p : State × ApplyContext). p.0) (ok-inj done)))

  -- A transaction that is applied takes its fee out of the balances and locks, and nothing else: what
  -- it moves from one account or lock arrives at another.
  pub apply_tx-total :
      (s : State) (tx : Transaction) (ctx : ApplyContext) {s' : State} {ctx' : ApplyContext}
      → apply_tx s tx ctx ≡ ok (s', ctx')
      → total s' +ℤ tx.fee ≡ total s
  unfolding apply_tx
  apply_tx-total s tx ctx e = apply_as-total (tx_kind tx) s tx ctx e

  apply_txs-total :
      (txs : List Transaction) (s : State) (ctx : ApplyContext) (fees : ℤ) {s' : State} {fees' : ℤ}
      → apply_txs txs s ctx fees ≡ ok (s', fees')
      → total s' +ℤ fees' ≡ total s +ℤ fees
  unfolding apply_txs
  apply_txs-total [] s ctx fees e = cc
  apply_txs-total (tx ∷ txs) s ctx fees e =
      let ((s₁, ctx₁), applied, rest) = >>=-eq-ok (apply_tx s tx ctx) _ e in
      grind (
        int_laws,
        apply_tx-total s tx ctx applied,
        apply_txs-total txs s₁ ctx₁ (fees +ℤ tx.fee) rest,
      )

  -- A block that is applied makes exactly its reward: the fees of its transactions come back to the
  -- miner.
  pub apply_block_txs-total :
      (s : State) (height : ℕ) (miner : Bytes) (txs : List Transaction) (scripts_active : Bool)
      (block_mtp : ℕ) {s' : State}
      → apply_block_txs s height miner txs scripts_active block_mtp ≡ ok s'
      → total s' ≡ total s +ℤ pos (block_reward height)
  unfolding apply_block_txs
  apply_block_txs-total s height miner txs scripts_active block_mtp e =
      let ctx : ApplyContext = record {
        scripts_active = scripts_active;
        block_height = height;
        block_mtp = block_mtp;
        locks_created_this_block = [];
      } in
      let ((s₁, fees), applied, done) = >>=-eq-ok (apply_txs txs s ctx (pos 0)) _ e in
      grind (
        int_laws,
        ok-inj done,
        apply_txs-total txs s ctx (pos 0) applied,
        credit-total s₁ (bytes_to_hex miner) (pos (block_reward height) +ℤ fees),
      )
