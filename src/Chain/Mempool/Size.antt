-- ===== src/Chain/Mempool/Size.antt =====
-- The pool never grows beyond its limit.
use mathlib.Core.Path.{subst}
use browser_coin_native_mine.Prelude.{
  ℕ, ◌≡◌, refl, String, Bool, ◌<◌, length, ok, true, suc, inl, ◌≤◌, ◌∷◌, ok-inj, arith, inr,
  bytes_eq_refl, length-append, [], Bool-cases, ltb, ap, ltb→lt, sym, ◌∙◌, Result-cases,
}
use browser_coin_native_mine.Chain.Crypto.{Crypto}
use browser_coin_native_mine.Chain.Genesis.{max_mempool_txs, min_fee_per_byte}
use browser_coin_native_mine.Chain.Mempool.{
  evict_for_room, evict_worst, admit, worst_of, remove, replace_rival, add_account, add_redeem,
  MempoolEntry, get, add, Entries, has_hash, check_account, check_lock, fee_rate,
}
use browser_coin_native_mine.Chain.State.{State, get_lock}
use browser_coin_native_mine.Chain.Transaction.{Transaction, value_or, tx_hash, is_redeem}
use browser_coin_native_mine.Chain.Transaction.Validate.{validate_tx_structure}
use browser_coin_native_mine.Prelude.Int.{ℤ, leb_ℤ, ltb_ℤ, pos}
use browser_coin_native_mine.Util.Hex.{Hex, bytes_to_hex}

length-remove_le : (hash : Hex) (entries : Entries) → length (remove hash entries) ≤ length entries
unfolding remove
length-remove_le hash [] = omega arith
length-remove_le hash (e ∷ entries) = ground (arith, length-remove_le hash entries)

length-remove :
    (hash : Hex) (entries : Entries)
    → has_hash hash entries ≡ true
    → suc (length (remove hash entries)) ≡ length entries
unfolding remove get
length-remove hash [] h = cc
length-remove hash (e ∷ entries) h = ground (arith, length-remove hash entries)

has_hash-worst_of :
    (worst : MempoolEntry) (entries : Entries)
    → has_hash (worst_of worst entries).hash_hex (worst ∷ entries) ≡ true
unfolding worst_of get
has_hash-worst_of worst [] = ground (arith, bytes_eq_refl worst.hash_hex)
has_hash-worst_of worst (e ∷ entries) =
    elim (Bool-cases (ltb_ℤ e.fee_per_byte worst.fee_per_byte)) [
      | inl lower ↦
          let next : worst_of worst (e ∷ entries) ≡ worst_of e entries = rw lower refl in
          subst (λ w. has_hash w.hash_hex (worst ∷ e ∷ entries) ≡ true) (sym next)
            (ground (arith, has_hash-worst_of e entries))
      | inr higher ↦
          let next : worst_of worst (e ∷ entries) ≡ worst_of worst entries = rw higher refl in
          subst (λ w. has_hash w.hash_hex (worst ∷ e ∷ entries) ≡ true) (sym next)
            (ground (arith, has_hash-worst_of worst entries))
    ]

evict_worst-length :
    (fee : ℤ) (entries : Entries) {room : Entries}
    → 0 < length entries
    → evict_worst fee entries ≡ ok room
    → suc (length room) ≡ length entries
unfolding evict_worst
evict_worst-length fee [] h e = absurd (omega arith)
evict_worst-length fee (w ∷ entries) h e =
    elim (Bool-cases (leb_ℤ fee (worst_of w entries).fee_per_byte)) [
      | inl full ↦ absurd (cc (rw (full, evict_worst) at e))
      | inr outbid ↦
          ap (λ r. suc (length r)) (sym (ok-inj (rw (outbid, evict_worst) at e)))
          ∙ length-remove (worst_of w entries).hash_hex (w ∷ entries) (has_hash-worst_of w entries)
    ]

evict_for_room-length :
    (fee : ℤ) (entries : Entries) {room : Entries}
    → length entries ≤ max_mempool_txs
    → evict_for_room fee entries ≡ ok room
    → suc (length room) ≤ max_mempool_txs
unfolding evict_for_room
evict_for_room-length fee entries {room} h e =
    elim (Bool-cases (ltb (length entries) max_mempool_txs)) [
      | inl space ↦
          let same : entries ≡ room = ok-inj (rw (space, evict_for_room) at e) in
          let below = ltb→lt _ _ space in rw (← same) (omega arith)
      | inr full ↦
          let many : max_mempool_txs ≤ length entries = ground (arith, full) in
          let left =
            evict_worst-length fee entries (omega arith) (rw (full, evict_for_room) at e) in
          omega (arith, left)
    ]

replace_rival-length :
    (rival : MempoolEntry → Bool) (refusal : String) (fee : ℤ) (entries all : Entries)
    {kept : Entries}
    → replace_rival rival refusal fee entries all ≡ ok kept
    → length kept ≤ length all
unfolding replace_rival
replace_rival-length rival refusal fee [] all {kept} e =
    let same : all ≡ kept = ok-inj e in rw (← same) (omega arith)
replace_rival-length rival refusal fee (r ∷ entries) all {kept} e = elim (Bool-cases (rival r)) [
  | inl found ↦ elim (Bool-cases (leb_ℤ fee r.fee_per_byte)) [
    | inl refused ↦ absurd (cc (rw (found, refused, replace_rival) at e))
    | inr replaced ↦
        let same : remove r.hash_hex all ≡ kept =
          ok-inj (rw (found, replaced, replace_rival) at e) in
        rw (← same) (length-remove_le r.hash_hex all)
  ]
  | inr other ↦ replace_rival-length rival refusal fee entries all (rw (other, replace_rival) at e)
]

admit-length :
    (rival : MempoolEntry → Bool) (refusal : String) (entry : MempoolEntry) (entries : Entries)
    → length entries ≤ max_mempool_txs
    → length (admit rival refusal entry entries).0 ≤ max_mempool_txs
unfolding admit
admit-length rival refusal entry entries h =
    elim (Result-cases (replace_rival rival refusal entry.fee_per_byte entries entries)) [
      | inl (text, refused) ↦ rw (refused, admit) h
      | inr (kept, replaced) ↦
          let fewer =
            replace_rival-length rival refusal entry.fee_per_byte entries entries replaced in
          elim (Result-cases (evict_for_room entry.fee_per_byte kept)) [
            | inl (text, full) ↦ rw (replaced, full, admit) (omega (arith, fewer))
            | inr (room, made) ↦
                let space =
                  evict_for_room-length entry.fee_per_byte kept (omega (arith, fewer)) made in
                rw (replaced, made, admit) (omega (arith, length-append room (entry ∷ []), space))
          ]
    ]

module _ ⦃c : Crypto⦄ where
  add_account-length :
      (tx : Transaction) (state : State) (entry : MempoolEntry) (entries : Entries)
      → length entries ≤ max_mempool_txs
      → length (add_account tx state entry entries).0 ≤ max_mempool_txs
  unfolding add_account
  add_account-length tx state entry entries h = elim (Result-cases (check_account state tx)) [
    | inl (text, refused) ↦ rw (refused, add_account) h
    | inr (u, passed) ↦ rw (passed, add_account) (admit-length _ _ entry entries h)
  ]

  add_redeem-length :
      (tx : Transaction) (state : State) (entry : MempoolEntry) (entries : Entries)
      → length entries ≤ max_mempool_txs
      → length (add_redeem tx state entry entries).0 ≤ max_mempool_txs
  unfolding add_redeem
  add_redeem-length tx state entry entries h =
      elim (Result-cases (check_lock tx (get_lock state (bytes_to_hex (value_or tx.lock_id []))))) [
        | inl (text, refused) ↦ rw (refused, add_redeem) h
        | inr (u, passed) ↦ rw (passed, add_redeem) (admit-length _ _ entry entries h)
      ]

  -- A pool within its limit stays within it, whatever is offered to it.
  pub add-length :
      (tx : Transaction) (state : State) (now : ℕ) (entries : Entries)
      → length entries ≤ max_mempool_txs
      → length (add tx state now entries).0 ≤ max_mempool_txs
  unfolding add
  add-length tx state now entries h = elim (Result-cases (validate_tx_structure tx)) [
    | inl (text, refused) ↦ rw (refused, add) h
    | inr (u, valid) ↦ elim (Bool-cases (ltb_ℤ (fee_rate tx) (pos min_fee_per_byte))) [
      | inl low ↦ rw (valid, low, add) h
      | inr paid ↦ elim (Bool-cases (has_hash (bytes_to_hex (tx_hash tx)) entries)) [
        | inl known ↦ rw (valid, paid, known, add) h
        | inr new ↦ elim (Bool-cases (is_redeem tx)) [
          | inl redeems ↦
              rw (valid, paid, new, redeems, add) (add_redeem-length tx state _ entries h)
          | inr pays ↦ rw (valid, paid, new, pays, add) (add_account-length tx state _ entries h)
        ]
      ]
    ]
  ]
