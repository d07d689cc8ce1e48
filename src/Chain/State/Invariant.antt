-- ===== src/Chain/State/Invariant.antt =====
-- The well-formed states: maps with distinct keys, and no negative balance or lock. A transaction
-- whose values are not negative, which its structural checks ensure, keeps a state well formed.
use mathlib.Core.Path.{subst}
use browser_coin_native_mine.Prelude.{
  ℕ, ◌≡◌, ok, false, [], arith, Bool-cases, >>=-eq-ok, Option-cases, inl, inr, sym, ap, ok-inj,
  fail_if, ◌&&◌, not, ◌+◌, ◌==◌, ◌∷◌, fail_if-false,
}
use browser_coin_native_mine.Chain.Crypto.{Crypto}
use browser_coin_native_mine.Chain.State.{
  credit, State, apply_transfer, charge, check_sender, ApplyContext, apply_as, apply_tx, Account,
  spend_lock, apply_lock, Lock, get_account, apply_redeem,
}
use browser_coin_native_mine.Chain.State.Redeem.{apply_redeem_lem}
use browser_coin_native_mine.Chain.Transaction.{
  Transaction, TxKind, value_or, tx_kind, tx_hash, transfer, lock, redeem,
}
use browser_coin_native_mine.Prelude.Dict.{
  IsMap, erase, Values, erase-IsMap, erase-Values, insert-IsMap, lookup, insert-Values,
  lookup-Values, insert, has,
}
use browser_coin_native_mine.Prelude.Int.{◌-ℤ◌, ℤ, ltb_ℤ, pos, ◌≤ℤ◌, eqb_ℤ, int_laws, ◌+ℤ◌}
use browser_coin_native_mine.Util.Hex.{Hex, bytes_to_hex}

pub record IsValid (s : State) : Type 0 where
  pub accounts_map : IsMap s.accounts
  pub locks_map : IsMap s.locks
  pub balances_nonneg : Values (λ (a : Account). pos 0 ≤ℤ a.balance) s.accounts
  pub locks_nonneg : Values (λ (l : Lock). pos 0 ≤ℤ l.amount) s.locks

get_account_nonneg :
    (s : State) (address : Hex) → IsValid s → pos 0 ≤ℤ (get_account s address).balance
get_account_nonneg s address h = elim (Option-cases (lookup address s.accounts)) [
  | inl absent ↦ rw absent (omega arith)
  | inr (a, found) ↦ rw found (
      lookup-Values (λ (a : Account). pos 0 ≤ℤ a.balance) address s.accounts h.balances_nonneg
        found)
]

pub credit-IsValid :
    (s : State) (to : Hex) (v : ℤ) → IsValid s → pos 0 ≤ℤ v → IsValid (credit s to v)
unfolding credit
credit-IsValid s to v h p = record {
  accounts_map = insert-IsMap to _ s.accounts h.accounts_map;
  locks_map = h.locks_map;
  balances_nonneg =
      insert-Values _ to _ s.accounts (omega (int_laws, get_account_nonneg s to h))
        h.balances_nonneg;
  locks_nonneg = h.locks_nonneg;
}

-- The state once the sender has paid.
abbrev pub charged : State → Hex → ℤ → State
charged s from cost = record s { accounts = charge from (get_account s from) cost s.accounts }

left_nonneg : (a b : ℤ) → ltb_ℤ a b ≡ false → pos 0 ≤ℤ (a -ℤ b)
unfolding ◌-ℤ◌
left_nonneg a b h = ground arith

charge-IsValid :
    (s : State) (from : Hex) (cost : ℤ)
    → IsValid s
    → ltb_ℤ (get_account s from).balance cost ≡ false
    → IsValid (charged s from cost)
unfolding charge
charge-IsValid s from cost h funds =
    elim (Bool-cases (
      eqb_ℤ ((get_account s from).balance -ℤ cost) (pos 0)
      && ((get_account s from).nonce + 1 == 0))) [
        | inl emptied ↦ rw emptied (record {
          accounts_map = erase-IsMap from s.accounts h.accounts_map;
          locks_map = h.locks_map;
          balances_nonneg = erase-Values _ from s.accounts h.balances_nonneg;
          locks_nonneg = h.locks_nonneg;
        })
        | inr kept ↦ rw kept (record {
          accounts_map = insert-IsMap from _ s.accounts h.accounts_map;
          locks_map = h.locks_map;
          balances_nonneg =
              insert-Values _ from _ s.accounts (left_nonneg _ cost funds) h.balances_nonneg;
          locks_nonneg = h.locks_nonneg;
        })
      ]

check_sender_lem :
    (sender : Account) (cost : ℤ) (nonce : ℕ) {u : Unit {0}}
    → check_sender sender cost nonce ≡ ok u
    → (ltb_ℤ sender.balance cost ≡ false) × (nonce ≡ sender.nonce)
unfolding check_sender
check_sender_lem sender cost nonce e = ground arith

-- A transfer that goes through is covered and carries the sender's nonce; it charges and credits.
pub apply_transfer_lem :
    (s : State) (tx : Transaction) {s' : State}
    → apply_transfer s tx ≡ ok s'
    → (s'
        ≡ credit
            (charged s (bytes_to_hex tx.from) (tx.amount +ℤ tx.fee))
            (bytes_to_hex tx.to)
            tx.amount)
      × (ltb_ℤ (get_account s (bytes_to_hex tx.from)).balance (tx.amount +ℤ tx.fee) ≡ false)
      × (tx.nonce ≡ (get_account s (bytes_to_hex tx.from)).nonce)
unfolding apply_transfer
apply_transfer_lem s tx e =
    let (_, checked, done) =
      >>=-eq-ok (check_sender (get_account s (bytes_to_hex tx.from)) (tx.amount +ℤ tx.fee) tx.nonce)
        _ e in
    let (funds, nonce) = check_sender_lem _ _ _ checked in (sym (ok-inj done), funds, nonce)

-- The lock that a lock transaction makes.
abbrev pub new_lock : Transaction → ApplyContext → Lock
new_lock tx ctx = record {
  amount = tx.amount;
  lock_hash = value_or tx.script_hash [];
  created_height = ctx.block_height;
}

module _ ⦃c : Crypto⦄ where
  pub apply_lock_lem :
      (s : State) (tx : Transaction) (ctx : ApplyContext) {s' : State} {ctx' : ApplyContext}
      → apply_lock s tx ctx ≡ ok (s', ctx')
      → (s' ≡ record (charged s (bytes_to_hex tx.from) (tx.amount +ℤ tx.fee)) {
        locks = insert (bytes_to_hex (tx_hash tx)) (new_lock tx ctx) s.locks;
      })
        × (ltb_ℤ (get_account s (bytes_to_hex tx.from)).balance (tx.amount +ℤ tx.fee) ≡ false)
        × (tx.nonce ≡ (get_account s (bytes_to_hex tx.from)).nonce)
        × (has (bytes_to_hex (tx_hash tx)) s.locks ≡ false)
        × (ctx'.locks_created_this_block ≡ bytes_to_hex (tx_hash tx) ∷ ctx.locks_created_this_block)
  unfolding apply_lock
  apply_lock_lem s tx ctx e =
      let (_, checked, e₁) =
        >>=-eq-ok
          (check_sender (get_account s (bytes_to_hex tx.from)) (tx.amount +ℤ tx.fee) tx.nonce) _
          e in
      let (_, fresh, done) = >>=-eq-ok (fail_if (has (bytes_to_hex (tx_hash tx)) s.locks) _) _ e₁ in
      let (funds, nonce) = check_sender_lem _ _ _ checked in
      (cc, funds, nonce, fail_if-false _ _ fresh, cc)

  spend_lock-IsValid :
      (s : State) (lock_id : Hex) (payout : ℤ) (to : Hex)
      → IsValid s
      → IsValid (spend_lock s lock_id payout to)
  unfolding spend_lock
  spend_lock-IsValid s lock_id payout to h =
      let spent : IsValid (record s { locks = erase lock_id s.locks }) = record {
        accounts_map = h.accounts_map;
        locks_map = erase-IsMap lock_id s.locks h.locks_map;
        balances_nonneg = h.balances_nonneg;
        locks_nonneg = erase-Values _ lock_id s.locks h.locks_nonneg;
      } in
      elim (Bool-cases (ltb_ℤ (pos 0) payout)) [
        | inl paid ↦ rw paid (credit-IsValid _ to payout spent (ground arith))
        | inr nothing_left ↦ rw nothing_left spent
      ]

  apply_as-IsValid :
      (k : TxKind) (s : State) (tx : Transaction) (ctx : ApplyContext) {s' : State}
      {ctx' : ApplyContext}
      → pos 0 ≤ℤ tx.amount
      → IsValid s
      → apply_as k s tx ctx ≡ ok (s', ctx')
      → IsValid s'
  unfolding apply_as
  apply_as-IsValid transfer s tx ctx a h e =
      let (s₁, moved, done) = >>=-eq-ok (apply_transfer s tx) _ e in
      let (shape, funds, nonce) = apply_transfer_lem s tx moved in
      let valid : IsValid s₁ = subst IsValid (sym shape) (
        credit-IsValid _ (bytes_to_hex tx.to) tx.amount
          (charge-IsValid s (bytes_to_hex tx.from) _ h funds) a) in
      subst IsValid (ap (λ (p : State × ApplyContext). p.0) (ok-inj done)) valid
  apply_as-IsValid lock s tx ctx a h e =
      let (_, active, e₁) = >>=-eq-ok (fail_if (not ctx.scripts_active) _) _ e in
      let (shape, funds, nonce, fresh, made) = apply_lock_lem s tx ctx e₁ in
      let paid = charge-IsValid s (bytes_to_hex tx.from) _ h funds in
      subst IsValid (sym shape) (record {
        accounts_map = paid.accounts_map;
        locks_map = insert-IsMap _ _ s.locks h.locks_map;
        balances_nonneg = paid.balances_nonneg;
        locks_nonneg = insert-Values _ _ _ s.locks a h.locks_nonneg;
      })
  apply_as-IsValid redeem s tx ctx a h e =
      let (_, active, e₁) = >>=-eq-ok (fail_if (not ctx.scripts_active) _) _ e in
      let (s₁, redeemed, done) = >>=-eq-ok (apply_redeem s tx ctx) _ e₁ in
      let (l, r, shape) = apply_redeem_lem s tx ctx redeemed in
      let valid : IsValid s₁ = subst IsValid (sym shape) (spend_lock-IsValid s _ _ _ h) in
      subst IsValid (ap (λ (p : State × ApplyContext). p.0) (ok-inj done)) valid

  -- A transaction whose amount is not negative keeps a state well formed: no balance and no lock
  -- becomes negative, and no key is listed twice.
  pub apply_tx-IsValid :
      (s : State) (tx : Transaction) (ctx : ApplyContext) {s' : State} {ctx' : ApplyContext}
      → pos 0 ≤ℤ tx.amount
      → IsValid s
      → apply_tx s tx ctx ≡ ok (s', ctx')
      → IsValid s'
  unfolding apply_tx
  apply_tx-IsValid s tx ctx a h e = apply_as-IsValid (tx_kind tx) s tx ctx a h e
