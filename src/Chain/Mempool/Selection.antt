-- ===== src/Chain/Mempool/Selection.antt =====
-- What the pool selects for a block.
use browser_coin_native_mine.Prelude.{
  ℕ, ◌≡◌, refl, List, ◌≤◌, Option, ◌∷◌, Bool-cases, ◌+◌, arith, [], ◌&&◌, inl, false, inr,
  if◌then◌else◌, ltb,
}
use browser_coin_native_mine.Chain.Block.{tx_bytes}
use browser_coin_native_mine.Chain.Crypto.{Crypto}
use browser_coin_native_mine.Chain.Mempool.{Entries, SelectScriptContext, sort_by}
use browser_coin_native_mine.Chain.Mempool.Select.{
  pack_txs, select_for_block, lock_key, better, eligible,
}
use browser_coin_native_mine.Chain.State.{State, contains}
use browser_coin_native_mine.Chain.Transaction.{Transaction, is_redeem, encoded_tx_len}
use browser_coin_native_mine.Util.Hex.{Hex}

pack_txs-bytes :
    (used : List Hex) (bytes_used max_bytes : ℕ) (entries : Entries)
    → bytes_used ≤ max_bytes
    → bytes_used + tx_bytes (pack_txs used bytes_used max_bytes entries) ≤ max_bytes
unfolding pack_txs tx_bytes
pack_txs-bytes used bytes_used max_bytes [] h = omega arith
pack_txs-bytes used bytes_used max_bytes (e ∷ entries) h =
    let key = lock_key e.tx in
    let size = encoded_tx_len e.tx in
    ground (
      arith,
      pack_txs-bytes used bytes_used max_bytes entries,
      pack_txs-bytes (key ∷ used) (bytes_used + size) max_bytes entries,
      pack_txs-bytes used (bytes_used + size) max_bytes entries,
    )

-- No lock of `used`, and no lock twice.
abbrev pub SpendsOnce : List Hex → List Transaction → Type 0
SpendsOnce used [] = Unit
SpendsOnce used (tx ∷ txs) =
    (is_redeem tx && contains used (lock_key tx) ≡ false)
    × SpendsOnce (if is_redeem tx then lock_key tx ∷ used else used) txs

pack_txs-SpendsOnce :
    (used : List Hex) (bytes_used max_bytes : ℕ) (entries : Entries)
    → SpendsOnce used (pack_txs used bytes_used max_bytes entries)
unfolding pack_txs
pack_txs-SpendsOnce used bytes_used max_bytes [] = tt
pack_txs-SpendsOnce used bytes_used max_bytes (e ∷ entries) =
    elim (Bool-cases (is_redeem e.tx && contains used (lock_key e.tx))) [
      | inl again ↦ rw again (pack_txs-SpendsOnce used bytes_used max_bytes entries)
      | inr first ↦ elim (Bool-cases (ltb max_bytes (bytes_used + encoded_tx_len e.tx))) [
        | inl too_large ↦ rw (first, too_large) tt
        | inr fits ↦ elim (Bool-cases (is_redeem e.tx)) [
          | inl redeems ↦
              rw (first, fits, redeems)
                (
                  rw redeems at first,
                  pack_txs-SpendsOnce (lock_key e.tx ∷ used) (bytes_used + encoded_tx_len e.tx)
                      max_bytes entries,
                )
          | inr pays ↦
              rw (first, fits, pays)
                (
                  refl,
                  pack_txs-SpendsOnce used (bytes_used + encoded_tx_len e.tx) max_bytes entries,
                )
        ]
      ]
    ]

module _ ⦃c : Crypto⦄ where
  -- The selected transactions fit the bytes that they were selected for, and no lock is spent by two
  -- of them.
  pub select_for_block_fits :
      (state : State) (max_bytes : ℕ) (ctx : Option SelectScriptContext) (entries : Entries)
      → (tx_bytes (select_for_block state max_bytes ctx entries) ≤ max_bytes)
        × SpendsOnce [] (select_for_block state max_bytes ctx entries)
  unfolding select_for_block
  select_for_block_fits state max_bytes ctx entries = (
    omega (arith, pack_txs-bytes [] 0 max_bytes (sort_by better (eligible state ctx entries))),
    pack_txs-SpendsOnce [] 0 max_bytes (sort_by better (eligible state ctx entries)),
  )
