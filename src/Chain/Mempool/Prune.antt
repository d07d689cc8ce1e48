-- ===== src/Chain/Mempool/Prune.antt =====
-- src/chain/mempool.ts, pruneUnminable. `now - receivedAt >= limit` is the same on natural numbers,
-- as the limits are positive.
use browser_coin_native_mine.Prelude.{
  ℕ, Bool, leb, [], ◌∷◌, ltb, ◌-◌, ◌||◌, ◌&&◌, ◌+◌, not, if◌then◌else◌,
}
use browser_coin_native_mine.Chain.Genesis.{mempool_tx_ttl_ms}
use browser_coin_native_mine.Chain.Mempool.{
  MempoolEntry, Entries, by_sender, remove, unminable_grace_ms, mineable_prefix,
}
use browser_coin_native_mine.Chain.State.{State, get_account}
use browser_coin_native_mine.Chain.Transaction.{is_redeem, value_or}
use browser_coin_native_mine.Prelude.Dict.{Dict, has}
use browser_coin_native_mine.Util.Hex.{bytes_to_hex}

-- The pool, and the number of entries removed.
abbrev pub Pruned : Type 0
Pruned = Entries × ℕ

abbrev pub stale : ℕ → ℕ → MempoolEntry → Bool
stale limit now e = leb limit (now - e.received_at)

-- `this.entries.delete(e.hashHex); removed++` for each entry that a test picks.
unfoldable pub remove_if : (MempoolEntry → Bool) → Entries → Pruned → Pruned
remove_if bad [] (entries, removed) = (entries, removed)
remove_if bad (e ∷ candidates) (entries, removed) =
    let removing = remove_if bad candidates (remove e.hash_hex entries, removed + 1) in
    let keeping = remove_if bad candidates (entries, removed) in if bad e then removing else keeping

abbrev pub dead_or_stale : ℕ → ℕ → MempoolEntry → Bool
dead_or_stale sender_nonce now e = ltb e.tx.nonce sender_nonce || stale unminable_grace_ms now e

unfoldable pub prune_senders : State → ℕ → Dict Entries → Pruned → Pruned
prune_senders state now [] p = p
prune_senders state now (g ∷ groups) p =
    let sender_nonce = (get_account state g.0).nonce in
    prune_senders state now groups
      (remove_if (dead_or_stale sender_nonce now) (mineable_prefix state g.0 g.1).1 p)

-- A redeem whose lock is gone, after the grace.
abbrev pub lockless : State → ℕ → MempoolEntry → Bool
lockless state now e =
    is_redeem e.tx
    && not (has (bytes_to_hex (value_or e.tx.lock_id [])) state.locks)
    && stale unminable_grace_ms now e

unfoldable pub prune_unminable : State → ℕ → Entries → Pruned
prune_unminable state now entries =
    let senders = prune_senders state now (by_sender entries []) (entries, 0) in
    let redeems = remove_if (lockless state now) senders.0 senders in
    remove_if (stale mempool_tx_ttl_ms now) redeems.0 redeems
