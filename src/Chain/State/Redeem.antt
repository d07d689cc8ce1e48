-- ===== src/Chain/State/Redeem.antt =====
-- What a redeem that goes through has been checked for, and what it leaves.
pub mod Spend
use browser_coin_native_mine.Prelude.{
  ◌≡◌, sym, true, false, not, some, [], bytes_eq, Option-cases, ok, fail_if, >>=-eq-ok, ok-inj,
  fail_if-false, inl, inr, not-false,
}
use browser_coin_native_mine.Chain.Crypto.{Crypto}
use browser_coin_native_mine.Chain.Script.Limits.{ScriptContext}
use browser_coin_native_mine.Chain.Script.Machine.{eval_script, script_hash}
use browser_coin_native_mine.Chain.State.{
  Lock, State, ApplyContext, contains, spend_lock, redeem_lock, apply_redeem,
}
use browser_coin_native_mine.Chain.Transaction.{Transaction, value_or, redeem_sighash}
use browser_coin_native_mine.Prelude.Dict.{lookup}
use browser_coin_native_mine.Prelude.Int.{◌-ℤ◌, ltb_ℤ, eqb_ℤ}
use browser_coin_native_mine.Util.Hex.{Hex, bytes_to_hex}

module _ ⦃c : Crypto⦄ (s : State) (tx : Transaction) (ctx : ApplyContext) where
  abbrev lock_key : Hex
  lock_key = bytes_to_hex (value_or tx.lock_id [])

  abbrev spend_context : ScriptContext
  spend_context = record {
    sighash = redeem_sighash tx;
    block_height = ctx.block_height;
    block_mtp = ctx.block_mtp;
  }

  -- What a redeem that goes through has been checked for.
  pub record Redeems (l : Lock) : Type 0 where
    pub found : lookup (bytes_to_hex (value_or tx.lock_id [])) s.locks ≡ some l
    pub not_new :
        contains ctx.locks_created_this_block (bytes_to_hex (value_or tx.lock_id [])) ≡ false
    pub script_matches : bytes_eq (script_hash (value_or tx.redeem_script [])) l.lock_hash ≡ true
    pub same_amount : eqb_ℤ tx.amount l.amount ≡ true
    pub fee_covered : ltb_ℤ l.amount tx.fee ≡ false
    pub script_accepts :
        eval_script
          (record {
            sighash = redeem_sighash tx;
            block_height = ctx.block_height;
            block_mtp = ctx.block_mtp;
          })
          (value_or tx.redeem_script [])
          (value_or tx.witness [])
        ≡ ok tt

  redeem_lock_lem :
      (l : Lock) {s' : State}
      → lookup lock_key s.locks ≡ some l
      → redeem_lock s tx ctx lock_key l ≡ ok s'
      → Redeems l × (s' ≡ spend_lock s lock_key (l.amount -ℤ tx.fee) (bytes_to_hex tx.to))
  unfolding redeem_lock
  redeem_lock_lem l found e =
      let (_, old, e₁) =
        >>=-eq-ok (fail_if (contains ctx.locks_created_this_block lock_key) _) _ e in
      let (_, hash, e₂) =
        >>=-eq-ok
          (fail_if (not (bytes_eq (script_hash (value_or tx.redeem_script [])) l.lock_hash)) _) _
          e₁ in
      let (_, amount, e₃) = >>=-eq-ok (fail_if (not (eqb_ℤ tx.amount l.amount)) _) _ e₂ in
      let (_, fee, e₄) = >>=-eq-ok (fail_if (ltb_ℤ l.amount tx.fee) _) _ e₃ in
      let (_, accepted, e₅) =
        >>=-eq-ok
          (eval_script spend_context (value_or tx.redeem_script []) (value_or tx.witness [])) _
          e₄ in
      (
        record {
          found = found;
          not_new = fail_if-false _ _ old;
          script_matches = not-false _ (fail_if-false _ _ hash);
          same_amount = not-false _ (fail_if-false _ _ amount);
          fee_covered = fail_if-false _ _ fee;
          script_accepts = accepted;
        },
        sym (ok-inj e₅),
      )

  -- A redeem that goes through spends a lock that is there, was not made in the same block, and whose
  -- committed hash is that of the script; it claims the whole amount, its fee is covered, and the
  -- script accepts the witness. The lock is then spent.
  pub apply_redeem_lem :
      {s' : State}
      → apply_redeem s tx ctx ≡ ok s'
      → (l : Lock) × Redeems l
        × (s' ≡ spend_lock s lock_key (l.amount -ℤ tx.fee) (bytes_to_hex tx.to))
  unfolding apply_redeem
  apply_redeem_lem e = elim (Option-cases (lookup lock_key s.locks)) [
    | inl unknown ↦ absurd (cc (rw (unknown, apply_redeem) at e))
    | inr (l, found) ↦
        let (r, spent) = redeem_lock_lem l found (rw (found, apply_redeem) at e) in (l, r, spent)
  ]
