-- ===== src/Chain/State/Replay.antt =====
-- No transaction is applied twice: the nonce of a transfer or lock has moved on, and the lock of a
-- redeem is gone.
use browser_coin_native_mine.Prelude.{
  ℕ, ◌≡◌, suc, arith, Bool-cases, ◌≢◌, ok, bytes_eq, >>=-eq-ok, inl, [], none, ap, ◌&&◌, ok-inj,
  ◌+◌, sym, bytes_eq_iff, ◌==◌, fail_if, false, not, inr, refl,
}
use browser_coin_native_mine.Chain.Crypto.{Crypto}
use browser_coin_native_mine.Chain.State.{
  check_sender, credit, apply_transfer, charge, apply_lock, apply_tx, apply_as, State, Account,
  spend_lock, get_account, ApplyContext, apply_redeem,
}
use browser_coin_native_mine.Chain.State.Invariant.{
  IsValid, charged, apply_transfer_lem, apply_lock_lem,
}
use browser_coin_native_mine.Chain.State.Redeem.{apply_redeem_lem}
use browser_coin_native_mine.Chain.Transaction.{
  Transaction, TxKind, value_or, tx_kind, transfer, lock, redeem,
}
use browser_coin_native_mine.Prelude.Dict.{
  erase, lookup, lookup-insert, lookup-insert_self, lookup-erase_self,
}
use browser_coin_native_mine.Prelude.Int.{ℤ, eqb_ℤ, ◌-ℤ◌, ◌+ℤ◌, pos}
use browser_coin_native_mine.Util.Hex.{Hex, bytes_to_hex}

-- The nonce of an account after it has paid.
nonce-charge :
    (s : State) (from : Hex) (cost : ℤ)
    → (get_account (charged s from cost) from).nonce ≡ suc (get_account s from).nonce
unfolding charge
nonce-charge s from cost =
    let kept : (eqb_ℤ ((get_account s from).balance -ℤ cost) (pos 0)
          && ((get_account s from).nonce + 1 == 0))
        ≡ false =
      ground arith in
    rw (kept, lookup-insert_self) (omega arith)

-- A payment to any address leaves all nonces alone.
nonce-credit :
    (s : State) (to address : Hex) (v : ℤ)
    → (get_account (credit s to v) address).nonce ≡ (get_account s address).nonce
unfolding credit
nonce-credit s to address v = elim (Bool-cases (bytes_eq address to)) [
  | inl same ↦
      rw (lookup-insert, same)
        (ap (λ a. (get_account s a).nonce) (sym ((bytes_eq_iff address to).0 same)))
  | inr other ↦ rw (lookup-insert, other)
]

-- A sender whose nonce has moved past the transaction's is refused.
check_sender_spent :
    (sender : Account) (cost : ℤ) (nonce : ℕ) {u : Unit {0}}
    → sender.nonce ≡ suc nonce
    → check_sender sender cost nonce ≢ ok u
unfolding check_sender
check_sender_spent sender cost nonce h e = ground arith

-- No transaction from a sender is accepted in the place of one with a higher nonce.
transfer_refused :
    (s : State) (tx : Transaction) {r : State}
    → (get_account s (bytes_to_hex tx.from)).nonce ≡ suc tx.nonce
    → apply_transfer s tx ≢ ok r
unfolding apply_transfer
transfer_refused s tx h e =
    let (_, checked, _) =
      >>=-eq-ok (check_sender (get_account s (bytes_to_hex tx.from)) (tx.amount +ℤ tx.fee) tx.nonce)
        _ e in
    check_sender_spent _ _ _ h checked

module _ ⦃c : Crypto⦄ where
  lock_refused :
      (s : State) (tx : Transaction) (ctx : ApplyContext) {r : State × ApplyContext}
      → (get_account s (bytes_to_hex tx.from)).nonce ≡ suc tx.nonce
      → apply_lock s tx ctx ≢ ok r
  unfolding apply_lock
  lock_refused s tx ctx h e =
      let (_, checked, _) =
        >>=-eq-ok
          (check_sender (get_account s (bytes_to_hex tx.from)) (tx.amount +ℤ tx.fee) tx.nonce) _
          e in
      check_sender_spent _ _ _ h checked

  redeem_refused :
      (s : State) (tx : Transaction) (ctx : ApplyContext) {r : State}
      → lookup (bytes_to_hex (value_or tx.lock_id [])) s.locks ≡ none
      → apply_redeem s tx ctx ≢ ok r
  redeem_refused s tx ctx gone e = let (l, r, _) = apply_redeem_lem s tx ctx e in cc (r.found, gone)

  locks-spend_lock :
      (s : State) (lock_id : Hex) (payout : ℤ) (to : Hex)
      → (spend_lock s lock_id payout to).locks ≡ erase lock_id s.locks
  unfolding spend_lock credit
  locks-spend_lock s lock_id payout to = ground arith

  apply_as_spends :
      (k : TxKind) (s : State) (tx : Transaction) (ctx ctx'' : ApplyContext) {s' : State}
      {ctx' : ApplyContext} {r : State × ApplyContext}
      → IsValid s
      → apply_as k s tx ctx ≡ ok (s', ctx')
      → apply_as k s' tx ctx'' ≢ ok r
  unfolding apply_as
  apply_as_spends transfer s tx ctx ctx'' {s'} h e again =
      let (s₁, moved, done) = >>=-eq-ok (apply_transfer s tx) _ e in
      let (shape, funds, nonce) = apply_transfer_lem s tx moved in
      let (s₂, moved_again, _) = >>=-eq-ok (apply_transfer s' tx) _ again in
      let same : s₁ ≡ s' = ap (λ (p : State × ApplyContext). p.0) (ok-inj done) in
      let paid = nonce-charge s (bytes_to_hex tx.from) (tx.amount +ℤ tx.fee) in
      let kept =
        nonce-credit (charged s (bytes_to_hex tx.from) (tx.amount +ℤ tx.fee)) (bytes_to_hex tx.to)
          (bytes_to_hex tx.from) tx.amount in
      let moved_on : (get_account s' (bytes_to_hex tx.from)).nonce ≡ suc tx.nonce =
        rw (← same, shape, kept, paid, nonce) refl in
      transfer_refused s' tx moved_on moved_again
  apply_as_spends lock s tx ctx ctx'' {s'} h e again =
      let (_, active, e₁) = >>=-eq-ok (fail_if (not ctx.scripts_active) _) _ e in
      let (shape, funds, nonce, fresh, made) = apply_lock_lem s tx ctx e₁ in
      let (_, active_again, e₂) = >>=-eq-ok (fail_if (not ctx''.scripts_active) _) _ again in
      let paid = nonce-charge s (bytes_to_hex tx.from) (tx.amount +ℤ tx.fee) in
      let moved_on : (get_account s' (bytes_to_hex tx.from)).nonce ≡ suc tx.nonce =
        rw (shape, paid, nonce) refl in
      lock_refused s' tx ctx'' moved_on e₂
  apply_as_spends redeem s tx ctx ctx'' {s'} h e again =
      let (_, active, e₁) = >>=-eq-ok (fail_if (not ctx.scripts_active) _) _ e in
      let (s₁, redeemed, done) = >>=-eq-ok (apply_redeem s tx ctx) _ e₁ in
      let (l, r, shape) = apply_redeem_lem s tx ctx redeemed in
      let (_, active_again, e₂) = >>=-eq-ok (fail_if (not ctx''.scripts_active) _) _ again in
      let (s₂, redeemed_again, _) = >>=-eq-ok (apply_redeem s' tx ctx'') _ e₂ in
      let same : s₁ ≡ s' = ap (λ (p : State × ApplyContext). p.0) (ok-inj done) in
      let lock_id = bytes_to_hex (value_or tx.lock_id []) in
      let gone : lookup lock_id s'.locks ≡ none =
        rw (← same, shape, locks-spend_lock) (lookup-erase_self lock_id s.locks h.locks_map) in
      redeem_refused s' tx ctx'' gone redeemed_again

  -- A transaction that was applied to a well-formed state is refused on the state that it leaves, in
  -- whatever block it comes back.
  pub apply_tx_once :
      (s : State) (tx : Transaction) (ctx ctx'' : ApplyContext) {s' : State} {ctx' : ApplyContext}
      {r : State × ApplyContext}
      → IsValid s
      → apply_tx s tx ctx ≡ ok (s', ctx')
      → apply_tx s' tx ctx'' ≢ ok r
  unfolding apply_tx
  apply_tx_once s tx ctx ctx'' h e = apply_as_spends (tx_kind tx) s tx ctx ctx'' h e
