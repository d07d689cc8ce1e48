-- ===== src/Chain/Mempool/Prefix.antt =====
-- The part of a sender's transactions that can be mined.
use browser_coin_native_mine.Prelude.{
  ℕ, ◌≡◌, refl, ◌++◌, ◌∷◌, Bool-cases, not, ◌==◌, ◌+◌, ◌||◌, [], inl, inr, ap, arith,
}
use browser_coin_native_mine.Chain.Mempool.{
  mineable_prefix, split_prefix, Entries, sort_by, lower_nonce,
}
use browser_coin_native_mine.Chain.State.{State, get_account}
use browser_coin_native_mine.Prelude.Int.{ℤ, ◌+ℤ◌, ◌≤ℤ◌, ◌-ℤ◌, ltb_ℤ}
use browser_coin_native_mine.Util.Hex.{Hex}

-- Nonces that follow one another from `expected`, each cost covered by what is left of `balance`.
abbrev pub Runs : ℕ → ℤ → Entries → Type 0
Runs expected balance [] = Unit
Runs expected balance (e ∷ entries) =
    (e.tx.nonce ≡ expected)
    × ((e.tx.amount +ℤ e.tx.fee) ≤ℤ balance)
    × Runs (expected + 1) (balance -ℤ (e.tx.amount +ℤ e.tx.fee)) entries

split_prefix-Runs :
    (expected : ℕ) (balance : ℤ) (entries : Entries)
    → Runs expected balance (split_prefix expected balance entries).0
unfolding split_prefix
split_prefix-Runs expected balance [] = tt
split_prefix-Runs expected balance (e ∷ entries) =
    elim (Bool-cases (not (e.tx.nonce == expected) || ltb_ℤ balance (e.tx.amount +ℤ e.tx.fee))) [
      | inl stop ↦ rw stop tt
      | inr go ↦
          let fits : (e.tx.nonce ≡ expected) × ((e.tx.amount +ℤ e.tx.fee) ≤ℤ balance) =
            ground (arith, go) in
          rw go (
            fits.0,
            fits.1,
            split_prefix-Runs (expected + 1) (balance -ℤ (e.tx.amount +ℤ e.tx.fee)) entries,
          )
    ]

split_prefix-append :
    (expected : ℕ) (balance : ℤ) (entries : Entries)
    → (split_prefix expected balance entries).0 ++ (split_prefix expected balance entries).1
      ≡ entries
unfolding split_prefix
split_prefix-append expected balance [] = refl
split_prefix-append expected balance (e ∷ entries) =
    elim (Bool-cases (not (e.tx.nonce == expected) || ltb_ℤ balance (e.tx.amount +ℤ e.tx.fee))) [
      | inl stop ↦ rw stop refl
      | inr go ↦ rw go (
          ap (λ l. e ∷ l)
            (split_prefix-append (expected + 1) (balance -ℤ (e.tx.amount +ℤ e.tx.fee)) entries))
    ]

-- What is kept of a sender's transactions runs on from the account's nonce without a gap and is
-- covered by the account's balance; with what is dropped it makes up all of them, by nonce.
pub mineable_prefix-Runs :
    (state : State) (sender : Hex) (entries : Entries)
    → Runs
        (get_account state sender).nonce
        (get_account state sender).balance
        (mineable_prefix state sender entries).0
      × ((mineable_prefix state sender entries).0 ++ (mineable_prefix state sender entries).1
          ≡ sort_by lower_nonce entries)
unfolding mineable_prefix
mineable_prefix-Runs state sender entries = (
  split_prefix-Runs (get_account state sender).nonce (get_account state sender).balance
      (sort_by lower_nonce entries),
  split_prefix-append (get_account state sender).nonce (get_account state sender).balance
      (sort_by lower_nonce entries),
)
