-- ===== src/Chain/State/Blocks.antt =====
-- Blocks of transactions that passed their structural checks keep a state well formed.
use mathlib.Core.Path.{subst}
use browser_coin_native_mine.Prelude.{
  ℕ, ◌≡◌, Bool, ◌||◌, false, List, ok, Bytes, arith, All, ok-inj, >>=-eq-ok, [], fail_if,
  fail_if-false, ap, not, ◌∷◌, length, ◌==◌,
}
use browser_coin_native_mine.Chain.Crypto.{Crypto}
use browser_coin_native_mine.Chain.Genesis.{block_reward}
use browser_coin_native_mine.Chain.State.{apply_block_txs, apply_txs, State, ApplyContext, apply_tx}
use browser_coin_native_mine.Chain.State.Invariant.{IsValid, credit-IsValid, apply_tx-IsValid}
use browser_coin_native_mine.Chain.Transaction.{
  Transaction, tx_kind, TxKind, transfer, lock, redeem,
}
use browser_coin_native_mine.Chain.Transaction.Validate.{
  validate_tx_structure, validate_transfer_structure, negative, validate_lock_structure,
  validate_redeem_structure, validate_as, option_length,
}
use browser_coin_native_mine.Prelude.Int.{ℤ, pos, ◌≤ℤ◌, ◌+ℤ◌, int_laws}
use browser_coin_native_mine.Util.Hex.{bytes_to_hex}

-- Neither the amount nor the fee is below zero.
abbrev Nonneg : Transaction → Type 0
Nonneg tx = (pos 0 ≤ℤ tx.amount) × (pos 0 ≤ℤ tx.fee)

not_negative : (v : ℤ) → negative v ≡ false → pos 0 ≤ℤ v
not_negative v h = ground (arith, h)

neither : (a b : Bool) → (a || b) ≡ false → (a ≡ false) × (b ≡ false)
neither a b h = ground arith

module _ ⦃c : Crypto⦄ where
  validate_as-Nonneg :
      (k : TxKind) (tx : Transaction) {u : Unit {0}} → validate_as k tx ≡ ok u → Nonneg tx
  unfolding validate_transfer_structure validate_lock_structure validate_redeem_structure
  validate_as-Nonneg transfer tx e =
      let (_, amount, e₁) = >>=-eq-ok (fail_if (negative tx.amount) _) _ e in
      let (_, fee, e₂) = >>=-eq-ok (fail_if (negative tx.fee) _) _ e₁ in
      (not_negative _ (fail_if-false _ _ amount), not_negative _ (fail_if-false _ _ fee))
  validate_as-Nonneg lock tx e =
      let (_, from, e₁) = >>=-eq-ok (fail_if (not (length tx.from == 32)) _) _ e in
      let (_, hash, e₂) = >>=-eq-ok (fail_if (not (option_length tx.script_hash == 32)) _) _ e₁ in
      let (_, values, e₃) = >>=-eq-ok (fail_if (negative tx.amount || negative tx.fee) _) _ e₂ in
      let (amount, fee) = neither _ _ (fail_if-false _ _ values) in
      (not_negative _ amount, not_negative _ fee)
  validate_as-Nonneg redeem tx e =
      let (_, to, e₁) = >>=-eq-ok (fail_if (not (length tx.to == 32)) _) _ e in
      let (_, id, e₂) = >>=-eq-ok (fail_if (not (option_length tx.lock_id == 32)) _) _ e₁ in
      let (_, values, e₃) = >>=-eq-ok (fail_if (negative tx.amount || negative tx.fee) _) _ e₂ in
      let (amount, fee) = neither _ _ (fail_if-false _ _ values) in
      (not_negative _ amount, not_negative _ fee)

  validate_tx_structure-Nonneg :
      (tx : Transaction) {u : Unit {0}} → validate_tx_structure tx ≡ ok u → Nonneg tx
  unfolding validate_tx_structure
  validate_tx_structure-Nonneg tx e = validate_as-Nonneg (tx_kind tx) tx e

  apply_txs-IsValid :
      (txs : List Transaction) (s : State) (ctx : ApplyContext) (fees : ℤ) {s' : State} {fees' : ℤ}
      → All (λ tx. validate_tx_structure tx ≡ ok tt) txs
      → pos 0 ≤ℤ fees
      → IsValid s
      → apply_txs txs s ctx fees ≡ ok (s', fees')
      → IsValid s' × (pos 0 ≤ℤ fees')
  unfolding apply_txs
  apply_txs-IsValid [] s ctx fees checks p h e =
      let done = ok-inj e in
      (
        subst IsValid (ap (λ (q : State × ℤ). q.0) done) h,
        subst (λ v. pos 0 ≤ℤ v) (ap (λ (q : State × ℤ). q.1) done) p,
      )
  apply_txs-IsValid (tx ∷ txs) s ctx fees checks p h e =
      let ((s₁, ctx₁), applied, rest) = >>=-eq-ok (apply_tx s tx ctx) _ e in
      let (amount, fee) = validate_tx_structure-Nonneg tx checks.0 in
      let valid = apply_tx-IsValid s tx ctx amount h applied in
      let sum_nonneg : pos 0 ≤ℤ (fees +ℤ tx.fee) = omega int_laws in
      apply_txs-IsValid txs s₁ ctx₁ (fees +ℤ tx.fee) checks.1 sum_nonneg valid rest

  -- A block whose transactions all passed their structural checks keeps a state well formed: no
  -- balance and no lock becomes negative, the miner's included.
  pub apply_block_txs-IsValid :
      (s : State) (height : ℕ) (miner : Bytes) (txs : List Transaction) (scripts_active : Bool)
      (block_mtp : ℕ) {s' : State}
      → All (λ tx. validate_tx_structure tx ≡ ok tt) txs
      → IsValid s
      → apply_block_txs s height miner txs scripts_active block_mtp ≡ ok s'
      → IsValid s'
  unfolding apply_block_txs
  apply_block_txs-IsValid s height miner txs scripts_active block_mtp checks h e =
      let ctx : ApplyContext = record {
        scripts_active = scripts_active;
        block_height = height;
        block_mtp = block_mtp;
        locks_created_this_block = [];
      } in
      let ((s₁, fees), applied, done) = >>=-eq-ok (apply_txs txs s ctx (pos 0)) _ e in
      let (valid, fees_nonneg) =
        apply_txs-IsValid txs s ctx (pos 0) checks (omega arith) h applied in
      subst IsValid (ok-inj done) (
        credit-IsValid s₁ (bytes_to_hex miner) (pos (block_reward height) +ℤ fees) valid
          (omega int_laws))
