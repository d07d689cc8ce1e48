-- ===== src/Chain/Mempool/Tests.antt =====
-- A pool with two transfers of one sender.
use browser_coin_native_mine.Prelude.{
  ℕ, ◌≡◌, refl, ◌∷◌, length, Bytes, [], none, ◌*◌, replicate, ◌≤◌, ◌++◌, arith, false, err, List,
}
use browser_coin_native_mine.Chain.Block.{tx_bytes}
use browser_coin_native_mine.Chain.Genesis.{max_mempool_txs}
use browser_coin_native_mine.Chain.Mempool.{
  MempoolEntry, Entries, add, mineable_prefix, sort_by, insert_by, lower_nonce, split_prefix,
  by_sender,
}
use browser_coin_native_mine.Chain.Mempool.Prefix.{Runs, mineable_prefix-Runs}
use browser_coin_native_mine.Chain.Mempool.Select.{
  select_for_block, pack_txs, eligible, eligible_accounts, eligible_redeems, before_lock,
}
use browser_coin_native_mine.Chain.Mempool.Selection.{SpendsOnce, select_for_block_fits}
use browser_coin_native_mine.Chain.Mempool.Size.{add-length}
use browser_coin_native_mine.Chain.State.{
  State, apply_block_txs, get_account, apply_txs, apply_tx, apply_as, apply_transfer, check_sender,
}
use browser_coin_native_mine.Chain.Transaction.{
  Transaction, encoded_tx_len, encode_tx, encode_as, encode_transfer, tx_preimage,
}
use browser_coin_native_mine.Prelude.Dict.{lookup, insert}
use browser_coin_native_mine.Prelude.Int.{pos, ◌+ℤ◌, ◌-ℤ◌}
use browser_coin_native_mine.Samples.{sample_crypto}
use browser_coin_native_mine.Util.Binary.{concat, u32be, u64be, u64be_loop}
use browser_coin_native_mine.Util.Hex.{bytes_to_hex, hex_char}

abbrev alice : Bytes
alice = replicate 32 1

abbrev transfer_of : ℕ → ℕ → Transaction
transfer_of nonce fee = record {
  kind = none;
  from = alice;
  to = replicate 32 2;
  amount = pos 10;
  fee = pos fee;
  nonce = nonce;
  signature = replicate 64 1;
  script_hash = none;
  lock_id = none;
  redeem_script = none;
  witness = none;
}

abbrev entry_of : ℕ → ℕ → MempoolEntry
entry_of nonce rate = record {
  tx = transfer_of nonce (rate * 152);
  hash_hex = nonce ∷ [];
  fee_per_byte = pos rate;
  received_at = 0;
}

abbrev state : State
state = record {
  accounts = (bytes_to_hex alice, record { balance = pos 100_000; nonce = 3 }) ∷ [];
  locks = [];
}

abbrev pool : Entries
pool = entry_of 3 1 ∷ entry_of 4 20 ∷ []

-- With this definition on its `unfolding` line a test sees through the selection.
select : ℕ → Entries → List Transaction
unfolding select_for_block pack_txs sort_by insert_by eligible eligible_accounts eligible_redeems
    before_lock mineable_prefix split_prefix by_sender lookup insert bytes_to_hex hex_char
    encoded_tx_len encode_tx encode_as encode_transfer tx_preimage concat u32be u64be u64be_loop
    ◌+ℤ◌ ◌-ℤ◌
select max_bytes entries = select_for_block state max_bytes none entries

-- The later nonce pays more and is put first, where a block needs it second.
later_nonce_first : select 1000 pool ≡ transfer_of 4 3040 ∷ transfer_of 3 152 ∷ []
unfolding select
later_nonce_first = refl

-- A block of that selection is refused.
selection_refused : apply_block_txs state 9 alice (select 1000 pool) false 0 ≡ err "bad nonce"
unfolding select apply_block_txs apply_txs apply_tx apply_as apply_transfer check_sender
selection_refused = refl

select_for_block_fits_example :
    (tx_bytes (select_for_block state 1000 none pool) ≤ 1000)
    × SpendsOnce [] (select_for_block state 1000 none pool)
select_for_block_fits_example = select_for_block_fits state 1000 none pool

mineable_prefix-Runs_example :
    Runs
      (get_account state (bytes_to_hex alice)).nonce
      (get_account state (bytes_to_hex alice)).balance
      (mineable_prefix state (bytes_to_hex alice) pool).0
    × ((mineable_prefix state (bytes_to_hex alice) pool).0
          ++ (mineable_prefix state (bytes_to_hex alice) pool).1
        ≡ sort_by lower_nonce pool)
mineable_prefix-Runs_example = mineable_prefix-Runs state (bytes_to_hex alice) pool

add-length_example : length (add (transfer_of 5 304) state 7 pool).0 ≤ max_mempool_txs
add-length_example = add-length (transfer_of 5 304) state 7 pool (omega arith)
