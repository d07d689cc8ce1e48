-- ===== src/Chain/State/Redeem/Spend.antt =====
-- src/chain/state.ts, applyRedeem: when a redeem goes through, and the accounts and locks it leaves.
use mathlib.Core.Path.{subst}
use browser_coin_native_mine.Prelude.{
  ◌≡◌, false, bytes_eq, ok, none, [], refl, Bool-cases, inl, inr, ◌∙◌, sym,
}
use browser_coin_native_mine.Chain.Crypto.{Crypto}
use browser_coin_native_mine.Chain.State.{
  Lock, State, ApplyContext, apply_redeem, spend_lock, credit, get_account,
}
use browser_coin_native_mine.Chain.State.Redeem.{Redeems, apply_redeem_lem}
use browser_coin_native_mine.Chain.Transaction.{Transaction, value_or}
use browser_coin_native_mine.Prelude.Dict.{
  IsMap, lookup, lookup-erase_self, lookup-erase_ne, lookup-insert, lookup-insert_self,
}
use browser_coin_native_mine.Prelude.Int.{ℤ, ◌+ℤ◌, ◌-ℤ◌, ltb_ℤ, pos, int_laws}
use browser_coin_native_mine.Util.Hex.{Hex, bytes_to_hex}

-- The lock is gone and its payout is in the account of the recipient; every other lock and account is
-- as it was.
pub record Pays (s : State) (key : Hex) (payout : ℤ) (to : Hex) (s' : State) : Type 0 where
  pub lock_gone : lookup key s'.locks ≡ none
  pub locks_kept : (j : Hex) → bytes_eq j key ≡ false → lookup j s'.locks ≡ lookup j s.locks
  pub paid : (get_account s' to).balance ≡ (get_account s to).balance +ℤ payout
  pub nonce_kept : (get_account s' to).nonce ≡ (get_account s to).nonce
  pub accounts_kept : (j : Hex) → bytes_eq j to ≡ false → lookup j s'.accounts ≡ lookup j s.accounts

nothing_due :
    (balance amount fee : ℤ)
    → ltb_ℤ amount fee ≡ false
    → ltb_ℤ (pos 0) (amount -ℤ fee) ≡ false
    → balance ≡ balance +ℤ (amount -ℤ fee)
nothing_due balance amount fee covered none_due = grind (int_laws, covered, none_due)

spend_lock-Pays :
    ⦃c : Crypto⦄ (s : State) (key : Hex) (amount fee : ℤ) (to : Hex)
    → IsMap s.locks
    → ltb_ℤ amount fee ≡ false
    → Pays s key (amount -ℤ fee) to (spend_lock s key (amount -ℤ fee) to)
unfolding spend_lock credit
spend_lock-Pays s key amount fee to map covered =
    elim (Bool-cases (ltb_ℤ (pos 0) (amount -ℤ fee))) [
      | inl due ↦
          rw (due, spend_lock)
            (record {
              lock_gone = lookup-erase_self key s.locks map;
              locks_kept = λ j other. lookup-erase_ne j key s.locks other;
              paid = rw (lookup-insert_self to _ s.accounts) refl;
              nonce_kept = rw (lookup-insert_self to _ s.accounts) refl;
              accounts_kept = λ j other. lookup-insert j to _ s.accounts ∙ (rw other refl);
            })
      | inr not_due ↦
          rw (not_due, spend_lock)
            (record {
              lock_gone = lookup-erase_self key s.locks map;
              locks_kept = λ j other. lookup-erase_ne j key s.locks other;
              paid = nothing_due _ amount fee covered not_due;
              nonce_kept = refl;
              accounts_kept = λ j other. refl;
            })
    ]

module _ ⦃c : Crypto⦄ (s : State) (tx : Transaction) (ctx : ApplyContext) where
  -- Where no lock is listed twice, a redeem that goes through met every condition of its lock. It
  -- leaves a state without the lock, the amount less the fee added to the balance of the recipient,
  -- whose nonce is kept, and every other lock and account as it was.
  pub apply_redeem-Pays :
      (s' : State)
      → IsMap s.locks
      → apply_redeem s tx ctx ≡ ok s'
      → (l : Lock) × Redeems s tx ctx l
        × Pays s
            (bytes_to_hex (value_or tx.lock_id []))
            (l.amount -ℤ tx.fee)
            (bytes_to_hex tx.to)
            s'
  apply_redeem-Pays s' map e =
      let (l, r, spent) = apply_redeem_lem s tx ctx e in
      (
        l,
        r,
        subst
            (λ k.
              Pays s (bytes_to_hex (value_or tx.lock_id [])) (l.amount -ℤ tx.fee)
                (bytes_to_hex tx.to) k)
            (sym spent) (spend_lock-Pays s _ l.amount tx.fee _ map r.fee_covered),
      )
