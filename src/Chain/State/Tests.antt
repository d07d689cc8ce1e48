-- ===== src/Chain/State/Tests.antt =====
-- Transactions applied to concrete states.
use browser_coin_native_mine.Prelude.{
  ℕ, ◌≡◌, refl, ok, Bytes, ◌∷◌, ◌≢◌, true, [], replicate, some, arith, none, List, Result,
}
use browser_coin_native_mine.Chain.Genesis.{block_reward}
use browser_coin_native_mine.Chain.Script.Exec.{run_opcode}
use browser_coin_native_mine.Chain.Script.Machine.{
  eval_script, run, step, is_push, push_length, push_data, step_push, executing, finish, check_top,
  seed, start, step_opcode,
}
use browser_coin_native_mine.Chain.Script.Num.{is_truthy, encode_num}
use browser_coin_native_mine.Chain.Script.Opcode.{opcode_of}
use browser_coin_native_mine.Chain.Script.Stack.{checked}
use browser_coin_native_mine.Chain.State.{
  apply_redeem, apply_tx, Lock, ApplyContext, apply_block_txs, State, apply_as, apply_txs,
  spend_lock, apply_transfer, check_sender, charge, credit, apply_lock, redeem_lock,
}
use browser_coin_native_mine.Chain.State.Blocks.{apply_block_txs-IsValid}
use browser_coin_native_mine.Chain.State.Conserve.{apply_block_txs-total}
use browser_coin_native_mine.Chain.State.Invariant.{IsValid}
use browser_coin_native_mine.Chain.State.Redeem.{Redeems}
use browser_coin_native_mine.Chain.State.Redeem.Spend.{apply_redeem-Pays, Pays}
use browser_coin_native_mine.Chain.State.Replay.{apply_tx_once}
use browser_coin_native_mine.Chain.State.Totals.{total}
use browser_coin_native_mine.Chain.Transaction.{Transaction, redeem, zero32, redeem_sighash}
use browser_coin_native_mine.Chain.Transaction.Validate.{
  validate_tx_structure, validate_transfer_structure, verify_tx_signature,
}
use browser_coin_native_mine.Prelude.Dict.{lookup, insert, erase}
use browser_coin_native_mine.Prelude.Int.{◌+ℤ◌, pos, ◌-ℤ◌}
use browser_coin_native_mine.Samples.{digest32, sample_crypto}
use browser_coin_native_mine.Util.Hex.{Hex, bytes_to_hex, hex_char}

abbrev alice : Bytes
alice = replicate 32 1

abbrev bob : Bytes
bob = replicate 32 2

abbrev alice_key : Hex
alice_key = bytes_to_hex alice

abbrev bob_key : Hex
bob_key = bytes_to_hex bob

abbrev script : Bytes
script = 0x51 ∷ []

abbrev lock_id : Bytes
lock_id = replicate 32 5

-- Alice has 100 and a lock of 40 is open to the script OP_1.
abbrev funded : State
funded = record {
  accounts = (alice_key, record { balance = pos 100; nonce = 3 }) ∷ [];
  locks =
      (
        bytes_to_hex lock_id,
        record { amount = pos 40; lock_hash = digest32 script; created_height = 7 },
      )
      ∷ [];
}

abbrev block_ctx : ApplyContext
block_ctx = record {
  scripts_active = true;
  block_height = 9;
  block_mtp = 1_800_000_000;
  locks_created_this_block = [];
}

abbrev payment : Transaction
payment = record {
  kind = none;
  from = alice;
  to = bob;
  amount = pos 60;
  fee = pos 5;
  nonce = 3;
  signature = replicate 64 1;
  script_hash = none;
  lock_id = none;
  redeem_script = none;
  witness = none;
}

abbrev paid : State
paid = record {
  accounts =
      (alice_key, record { balance = pos 35; nonce = 4 })
      ∷ (bob_key, record { balance = pos 60; nonce = 0 })
      ∷ [];
  locks = funded.locks;
}

abbrev claim : Transaction
claim = record {
  kind = some redeem;
  from = zero32;
  to = bob;
  amount = pos 40;
  fee = pos 4;
  nonce = 0;
  signature = [];
  script_hash = none;
  lock_id = some lock_id;
  redeem_script = some script;
  witness = some [];
}

abbrev claimed : State
claimed = record {
  accounts =
      (alice_key, record { balance = pos 100; nonce = 3 })
      ∷ (bob_key, record { balance = pos 36; nonce = 0 })
      ∷ [];
  locks = [];
}

-- After a block of Bob's with the payment in it: the reward and the fee are his.
abbrev mined : State
mined = record {
  accounts =
      (alice_key, record { balance = pos 35; nonce = 4 })
      ∷ (bob_key, record { balance = pos 5_000_000_065; nonce = 0 })
      ∷ [];
  locks = funded.locks;
}

-- With this definition on its `unfolding` line a test sees through the application of transactions.
apply : State → Transaction → ApplyContext → Result (State × ApplyContext)
unfolding apply_tx apply_as apply_transfer check_sender charge credit apply_lock apply_redeem
    redeem_lock spend_lock lookup insert erase bytes_to_hex hex_char ◌+ℤ◌ ◌-ℤ◌ redeem_sighash
    eval_script run step is_push push_length push_data step_push step_opcode opcode_of run_opcode
    encode_num executing finish check_top seed start checked is_truthy
apply = apply_tx

apply_block : State → ℕ → Bytes → List Transaction → Result State
unfolding apply apply_block_txs apply_txs block_reward
apply_block s height miner txs = apply_block_txs s height miner txs true 1_800_000_000

payment_applies : apply funded payment block_ctx ≡ ok (paid, block_ctx)
unfolding apply
payment_applies = refl

claim_applies : apply funded claim block_ctx ≡ ok (claimed, block_ctx)
unfolding apply
claim_applies = refl

block_applies : apply_block funded 9 bob (payment ∷ []) ≡ ok mined
unfolding apply_block
block_applies = refl

funded-IsValid : IsValid funded
unfolding apply lookup
funded-IsValid = record {
  accounts_map = (refl, tt);
  locks_map = (refl, tt);
  balances_nonneg = (omega arith, tt);
  locks_nonneg = (omega arith, tt);
}

apply_block_txs-total_example : total mined ≡ total funded +ℤ pos (block_reward 9)
unfolding apply_block
apply_block_txs-total_example =
    apply_block_txs-total funded 9 bob (payment ∷ []) true 1_800_000_000 {s' = mined} block_applies

apply_tx_once_example : apply_tx paid payment block_ctx ≢ ok (paid, block_ctx)
unfolding apply
apply_tx_once_example =
    apply_tx_once funded payment block_ctx block_ctx {s' = paid} {ctx' = block_ctx}
      {r = (paid, block_ctx)} funded-IsValid payment_applies

claim_redeems : apply_redeem funded claim block_ctx ≡ ok claimed
unfolding apply
claim_redeems = refl

apply_redeem-Pays_example :
    (l : Lock) × Redeems funded claim block_ctx l
    × Pays funded (bytes_to_hex lock_id) (l.amount -ℤ pos 4) bob_key claimed
unfolding apply
apply_redeem-Pays_example =
    apply_redeem-Pays funded claim block_ctx claimed funded-IsValid.locks_map claim_redeems

payment_checked : validate_tx_structure payment ≡ ok tt
unfolding validate_tx_structure validate_transfer_structure verify_tx_signature bytes_to_hex
    hex_char ◌+ℤ◌
payment_checked = refl

apply_block_txs-IsValid_example : IsValid mined
unfolding apply_block
apply_block_txs-IsValid_example =
    apply_block_txs-IsValid funded 9 bob (payment ∷ []) true 1_800_000_000 {s' = mined}
      (payment_checked, tt) funded-IsValid block_applies
