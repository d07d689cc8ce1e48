-- ===== src/Chain/Mempool.antt =====
-- src/chain/mempool.ts: the pending transactions. The map is kept in insertion order; an entry is
-- keyed by the hash that it also holds. An admission gives the pool that is left and `null` or a text.
-- Select has the choice for a block, Prune the clean-up when the tip changes.
pub mod Select
pub mod Prune
pub mod Size
pub mod Prefix
pub mod Selection
mod Tests
use browser_coin_native_mine.Prelude.{
  ℕ, zero, suc, Option, List, Bool, ◌∷◌, String, Bytes, none, err, [], not, Result, ◌*◌, ltb,
  if◌then◌else◌, ok, ◌>>=◌, length, bytes_eq, ◌>>◌, some, ◌&&◌, false, ◌+◌, ◌==◌, true, fail_if,
  leb, ◌++◌, ◌||◌,
}
use browser_coin_native_mine.Chain.Crypto.{Crypto}
use browser_coin_native_mine.Chain.Genesis.{target_block_time_s, max_mempool_txs, min_fee_per_byte}
use browser_coin_native_mine.Chain.Script.Machine.{script_hash}
use browser_coin_native_mine.Chain.State.{State, get_account, Lock, get_lock}
use browser_coin_native_mine.Chain.Transaction.{
  Transaction, value_or, is_redeem, encoded_tx_len, tx_hash,
}
use browser_coin_native_mine.Chain.Transaction.Validate.{validate_tx_structure}
use browser_coin_native_mine.Prelude.Dict.{Dict, insert, lookup}
use browser_coin_native_mine.Prelude.Int.{ℤ, quotient, ◌+ℤ◌, ltb_ℤ, ◌-ℤ◌, leb_ℤ, pos, eqb_ℤ}
use browser_coin_native_mine.Util.Hex.{Hex, bytes_to_hex}

-- `SelectScriptContext`
pub record SelectScriptContext : Type 0 where
  pub scripts_active : Bool
  pub block_height : ℕ
  pub block_mtp : ℕ

pub record MempoolEntry : Type 0 where
  pub tx : Transaction
  pub hash_hex : Hex
  pub fee_per_byte : ℤ
  pub received_at : ℕ

abbrev pub unminable_grace_ms : ℕ
unminable_grace_ms = target_block_time_s * 1000

abbrev pub Entries : Type 0
Entries = List MempoolEntry

-- `this.entries.delete(hash)`
unfoldable pub remove : Hex → Entries → Entries
remove hash [] = []
remove hash (e ∷ entries) = if bytes_eq hash e.hash_hex then entries else e ∷ remove hash entries

-- `this.entries.get(hash)?.tx`
unfoldable pub get : Hex → Entries → Option Transaction
get hash [] = none
get hash (e ∷ entries) = if bytes_eq hash e.hash_hex then some e.tx else get hash entries

abbrev pub has_hash : Hex → Entries → Bool
has_hash hash entries = elim (get hash entries) [ none ↦ false | some tx ↦ true ]

-- The entry with the lowest fee, the first of several.
unfoldable pub worst_of : MempoolEntry → Entries → MempoolEntry
worst_of worst [] = worst
worst_of worst (e ∷ entries) =
    worst_of (if ltb_ℤ e.fee_per_byte worst.fee_per_byte then e else worst) entries

unfoldable pub evict_worst : ℤ → Entries → Result Entries
evict_worst fee_per_byte [] = ok []
evict_worst fee_per_byte (e ∷ entries) =
    let worst = worst_of e entries in
    if leb_ℤ fee_per_byte worst.fee_per_byte
    then err "mempool full"
    else ok (remove worst.hash_hex (e ∷ entries))

unfoldable pub evict_for_room : ℤ → Entries → Result Entries
evict_for_room fee_per_byte entries =
    if ltb (length entries) max_mempool_txs then ok entries else evict_worst fee_per_byte entries

-- What the loops over rivals do: the first rival is replaced if the fee is higher.
unfoldable pub replace_rival :
    (MempoolEntry → Bool) → String → ℤ → Entries → Entries → Result Entries
replace_rival rival refusal fee_per_byte [] all = ok all
replace_rival rival refusal fee_per_byte (e ∷ entries) all =
    let rest = replace_rival rival refusal fee_per_byte entries all in
    if rival e
    then if leb_ℤ fee_per_byte e.fee_per_byte then err refusal else ok (remove e.hash_hex all)
    else rest

-- A transfer or lock of the sender with the same nonce.
abbrev pub same_nonce : Transaction → MempoolEntry → Bool
same_nonce tx e =
    not (is_redeem e.tx)
    && e.tx.nonce == tx.nonce
    && bytes_eq (bytes_to_hex e.tx.from) (bytes_to_hex tx.from)

abbrev lock_id_is : Hex → Option Bytes → Bool
lock_id_is lock_id none = false
lock_id_is lock_id (some id) = bytes_eq (bytes_to_hex id) lock_id

-- A redeem of the same lock.
abbrev pub same_lock : Hex → MempoolEntry → Bool
same_lock lock_id e = is_redeem e.tx && lock_id_is lock_id e.tx.lock_id

-- The pool, and `null` or the text that `add` returns.
abbrev pub Outcome : Type 0
Outcome = Entries × Option String

-- The end that both admissions share: the rival is replaced, room is made, the entry is stored.
unfoldable pub admit : (MempoolEntry → Bool) → String → MempoolEntry → Entries → Outcome
admit rival refusal entry entries =
    elim (replace_rival rival refusal entry.fee_per_byte entries entries) [
      | err e ↦ (entries, some e)
      | ok kept ↦ elim (evict_for_room entry.fee_per_byte kept) [
        | err e ↦ (kept, some e)
        | ok room ↦ (room ++ (entry ∷ []), none)
      ]
    ]

-- `tx.fee / BigInt(encodedTxLen(tx))`
unfoldable pub fee_rate : Transaction → ℤ
fee_rate tx = quotient tx.fee (encoded_tx_len tx)

-- What a transfer or lock is checked for.
unfoldable pub check_account : State → Transaction → Result (Unit {0})
check_account state tx = do
  let sender = get_account state (bytes_to_hex tx.from)
  fail_if (ltb_ℤ sender.balance (tx.amount +ℤ tx.fee)) "insufficient balance"
  fail_if (ltb tx.nonce sender.nonce) "nonce too low"
  fail_if (ltb (sender.nonce + 16) tx.nonce) "nonce too far ahead"

module _ ⦃c : Crypto⦄ where
  -- What a redeem is checked for.
  unfoldable pub check_lock : Transaction → Option Lock → Result (Unit {0})
  check_lock tx none = err "unknown or unconfirmed lock"
  check_lock tx (some lock) = do
    fail_if (not (bytes_eq (script_hash (value_or tx.redeem_script [])) lock.lock_hash))
        "redeem script does not match lock"
    fail_if (not (eqb_ℤ tx.amount lock.amount)) "redeem amount mismatch"
    fail_if (ltb_ℤ lock.amount tx.fee) "redeem fee exceeds locked amount"

  unfoldable pub add_redeem : Transaction → State → MempoolEntry → Entries → Outcome
  add_redeem tx state entry entries =
      let lock_id = bytes_to_hex (value_or tx.lock_id []) in
      elim (check_lock tx (get_lock state lock_id)) [
        | err e ↦ (entries, some e)
        | ok u ↦ admit (same_lock lock_id) "lock already being redeemed" entry entries
      ]

  unfoldable pub add_account : Transaction → State → MempoolEntry → Entries → Outcome
  add_account tx state entry entries = elim (check_account state tx) [
    | err e ↦ (entries, some e)
    | ok u ↦ admit (same_nonce tx) "nonce already pending" entry entries
  ]

  unfoldable pub add : Transaction → State → ℕ → Entries → Outcome
  add tx state now entries =
      let rate = fee_rate tx in
      let hash = bytes_to_hex (tx_hash tx) in
      let entry : MempoolEntry = record {
        tx = tx;
        hash_hex = hash;
        fee_per_byte = rate;
        received_at = now;
      } in
      elim (validate_tx_structure tx) [
        | err e ↦ (entries, some e)
        | ok u ↦
            if ltb_ℤ rate (pos min_fee_per_byte)
            then (entries, some "fee too low")
            else if has_hash hash entries
            then (entries, none)
            else if is_redeem tx
            then add_redeem tx state entry entries
            else add_account tx state entry entries
      ]

  unfoldable pub remove_many : List Transaction → Entries → Entries
  remove_many [] entries = entries
  remove_many (tx ∷ txs) entries = remove_many txs (remove (bytes_to_hex (tx_hash tx)) entries)

-- `nextNonceFor`, from the nonce `next`.
unfoldable pub next_nonce_for : Hex → ℕ → Entries → ℕ
next_nonce_for address next [] = next
next_nonce_for address next (e ∷ entries) =
    let mine = not (is_redeem e.tx) && bytes_eq (bytes_to_hex e.tx.from) address in
    next_nonce_for address (if mine && leb next e.tx.nonce then e.tx.nonce + 1 else next) entries

-- A stable sort by a test that says which of two entries has to come first.
unfoldable pub insert_by : (MempoolEntry → MempoolEntry → Bool) → MempoolEntry → Entries → Entries
insert_by before e [] = e ∷ []
insert_by before e (f ∷ entries) =
    if before f e then f ∷ insert_by before e entries else e ∷ f ∷ entries

unfoldable pub sort_by : (MempoolEntry → MempoolEntry → Bool) → Entries → Entries
sort_by before [] = []
sort_by before (e ∷ entries) = insert_by before e (sort_by before entries)

abbrev pub lower_nonce : MempoolEntry → MempoolEntry → Bool
lower_nonce e f = ltb e.tx.nonce f.tx.nonce

-- The loop of `mineablePrefix`: the entries to keep and those to drop.
unfoldable pub split_prefix : ℕ → ℤ → Entries → Entries × Entries
split_prefix expected balance [] = ([], [])
split_prefix expected balance (e ∷ entries) =
    let cost = e.tx.amount +ℤ e.tx.fee in
    let rest = split_prefix (expected + 1) (balance -ℤ cost) entries in
    if not (e.tx.nonce == expected) || ltb_ℤ balance cost
    then ([], e ∷ entries)
    else (e ∷ rest.0, rest.1)

unfoldable pub mineable_prefix : State → Hex → Entries → Entries × Entries
mineable_prefix state sender entries =
    let account = get_account state sender in
    split_prefix account.nonce account.balance (sort_by lower_nonce entries)

-- `bySender`: the transfers and locks of each sender, in the order in which the senders appear.
abbrev pub entries_of : Option Entries → Entries
entries_of o = value_or o []

unfoldable pub by_sender : Entries → Dict Entries → Dict Entries
by_sender [] groups = groups
by_sender (e ∷ entries) groups =
    let k = bytes_to_hex e.tx.from in
    by_sender entries (
      if is_redeem e.tx then groups else insert k (entries_of (lookup k groups) ++ (e ∷ [])) groups)
