-- ===== src/Chain/Mempool/Select.antt =====
-- src/chain/mempool.ts, selectForBlock.
use browser_coin_native_mine.Prelude.{
  ℕ, Result, List, Option, Bool, ◌∷◌, [], ok, false, true, some, ◌++◌, ◌+◌, bytes_eq, err, ◌&&◌,
  not, none, if◌then◌else◌, ltb,
}
use browser_coin_native_mine.Chain.Crypto.{Crypto}
use browser_coin_native_mine.Chain.Mempool.{
  Entries, MempoolEntry, SelectScriptContext, mineable_prefix, sort_by, by_sender,
}
use browser_coin_native_mine.Chain.Script.Machine.{eval_script, script_hash}
use browser_coin_native_mine.Chain.State.{State, Lock, contains, get_lock}
use browser_coin_native_mine.Chain.Transaction.{
  Transaction, encoded_tx_len, value_or, redeem_sighash, is_redeem, is_lock,
}
use browser_coin_native_mine.Prelude.Dict.{Dict}
use browser_coin_native_mine.Prelude.Int.{eqb_ℤ, ltb_ℤ}
use browser_coin_native_mine.Util.Hex.{Hex, bytes_to_hex}

-- `keep.slice(0, lockIdx)`: the entries in front of the first lock.
unfoldable pub before_lock : Entries → Entries
before_lock [] = []
before_lock (e ∷ entries) = let rest = before_lock entries in if is_lock e.tx then [] else e ∷ rest

abbrev pub account_prefix : State → Bool → Hex → Entries → Entries
account_prefix state scripts_active sender entries =
    let keep = (mineable_prefix state sender entries).0 in
    if scripts_active then keep else before_lock keep

-- The mineable prefixes of all senders.
unfoldable pub eligible_accounts : State → Bool → Dict Entries → Entries
eligible_accounts state scripts_active [] = []
eligible_accounts state scripts_active (g ∷ groups) =
    account_prefix state scripts_active g.0 g.1 ++ eligible_accounts state scripts_active groups

abbrev pub accepts : Result (Unit {0}) → Bool
accepts (ok u) = true
accepts (err e) = false

module _ ⦃c : Crypto⦄ where
  -- What a redeem has to meet to be mined.
  unfoldable pub redeemable : SelectScriptContext → Transaction → Option Lock → Bool
  redeemable ctx tx none = false
  redeemable ctx tx (some lock) =
      bytes_eq (script_hash (value_or tx.redeem_script [])) lock.lock_hash
      && eqb_ℤ tx.amount lock.amount
      && not (ltb_ℤ lock.amount tx.fee)
      && accepts (
          eval_script
            (record {
              sighash = redeem_sighash tx;
              block_height = ctx.block_height;
              block_mtp = ctx.block_mtp;
            })
            (value_or tx.redeem_script []) (value_or tx.witness []))

  unfoldable pub eligible_redeems : State → SelectScriptContext → Entries → Entries
  eligible_redeems state ctx [] = []
  eligible_redeems state ctx (e ∷ entries) =
      let rest = eligible_redeems state ctx entries in
      if is_redeem e.tx
        && redeemable ctx e.tx (get_lock state (bytes_to_hex (value_or e.tx.lock_id [])))
      then e ∷ rest
      else rest

  unfoldable pub eligible : State → Option SelectScriptContext → Entries → Entries
  eligible state none entries = eligible_accounts state false (by_sender entries [])
  eligible state (some ctx) entries =
      eligible_accounts state ctx.scripts_active (by_sender entries [])
      ++ (if ctx.scripts_active then eligible_redeems state ctx entries else [])

-- A higher fee first, and of the same fee a lower nonce.
abbrev pub better : MempoolEntry → MempoolEntry → Bool
better e f =
    if eqb_ℤ e.fee_per_byte f.fee_per_byte
    then ltb e.tx.nonce f.tx.nonce
    else ltb_ℤ f.fee_per_byte e.fee_per_byte

abbrev pub lock_key : Transaction → Hex
lock_key tx = bytes_to_hex (value_or tx.lock_id [])

-- The loop over the sorted entries, with the locks used and the bytes left: it ends at the first
-- transaction that does not fit.
unfoldable pub pack_txs : List Hex → ℕ → ℕ → Entries → List Transaction
pack_txs used bytes_used max_bytes [] = []
pack_txs used bytes_used max_bytes (e ∷ entries) =
    let key = lock_key e.tx in
    let size = encoded_tx_len e.tx in
    let skipped = pack_txs used bytes_used max_bytes entries in
    let locked = pack_txs (key ∷ used) (bytes_used + size) max_bytes entries in
    let plain = pack_txs used (bytes_used + size) max_bytes entries in
    if is_redeem e.tx && contains used key
    then skipped
    else if ltb max_bytes (bytes_used + size)
    then []
    else e.tx ∷ (if is_redeem e.tx then locked else plain)

module _ ⦃c : Crypto⦄ where
  unfoldable pub select_for_block :
      State → ℕ → Option SelectScriptContext → Entries → List Transaction
  select_for_block state max_bytes ctx entries =
      pack_txs [] 0 max_bytes (sort_by better (eligible state ctx entries))
