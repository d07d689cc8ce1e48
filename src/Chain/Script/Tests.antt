-- ===== src/Chain/Script/Tests.antt =====
-- Scripts run on concrete inputs.
use browser_coin_native_mine.Prelude.{
  ◌≡◌, refl, Result, ◌∷◌, ◌≤◌, Bytes, replicate, [], ok, true, false, err, some, arith, ◌↔◌, List,
  ℕ, ◌++◌,
}
use browser_coin_native_mine.Chain.Script.Bounds.{IsBounded, run-IsBounded}
use browser_coin_native_mine.Chain.Script.Branches.{Accepted, eval_script_accepts}
use browser_coin_native_mine.Chain.Script.Branches.Skipped.{step_skipped, Skips}
use browser_coin_native_mine.Chain.Script.Build.{push_data_script}
use browser_coin_native_mine.Chain.Script.Build.Pushes.{step-push_data_script}
use browser_coin_native_mine.Chain.Script.Disasm.{tokenize_loop, read_token, read_payload, tokenize}
use browser_coin_native_mine.Chain.Script.Disasm.Lossless.{script_bytes, script_bytes-tokenize}
use browser_coin_native_mine.Chain.Script.Exec.{
  run_opcode, run_verify, run_equal, run_equalverify, run_unary, run_binary, apply_binary,
  apply_unary, run_numequalverify, pop_two, run_within, run_hash, run_checksig, run_checksigverify,
  run_checklocktime, same_bytes,
}
use browser_coin_native_mine.Chain.Script.Limits.{
  ScriptContext, max_script_bytes, max_witness_items, AreItems,
}
use browser_coin_native_mine.Chain.Script.Machine.{
  Machine, eval_script, run, step, is_push, push_length, push_data, step_push, step_if, step_else,
  step_endif, step_opcode, executing, finish, check_top, seed, start,
}
use browser_coin_native_mine.Chain.Script.Multisig.{
  match_sigs, op_check_multisig, check_sigs, next_match, count_between,
}
use browser_coin_native_mine.Chain.Script.Multisig.Matching.{Matches, match_sigs_iff}
use browser_coin_native_mine.Chain.Script.Num.{
  decode_num, encode_num, is_truthy, encode_magnitude, is_minimal, top_byte, second_byte, le_value,
  signed_value,
}
use browser_coin_native_mine.Chain.Script.Num.Canonical.{encode_num-decode_num}
use browser_coin_native_mine.Chain.Script.Num.RoundTrip.{decode_num-encode_num}
use browser_coin_native_mine.Chain.Script.Opcode.{opcode_of}
use browser_coin_native_mine.Chain.Script.Progress.{run_total}
use browser_coin_native_mine.Chain.Script.Stack.{
  checked, run_stack_op, move, pick_or_roll, index_of, remove_at, with_main,
}
use browser_coin_native_mine.Prelude.Int.{negsuc, ◌+ℤ◌, ◌-ℤ◌}
use browser_coin_native_mine.Samples.{sample_crypto}
use browser_coin_native_mine.Util.Binary.{compare_bytes}

abbrev ctx : ScriptContext
ctx = record { sighash = replicate 32 1; block_height = 100; block_mtp = 1_800_000_000 }

-- With this definition on its `unfolding` line a test sees through the interpreter.
evaluate : Bytes → List Bytes → Result (Unit {0})
unfolding eval_script run step is_push push_length push_data step_push step_if step_else step_endif
    step_opcode executing finish check_top seed start checked opcode_of run_opcode run_verify
    run_equal run_equalverify run_unary run_binary apply_binary apply_unary run_numequalverify
    pop_two run_within run_hash run_checksig run_checksigverify op_check_multisig check_sigs
    match_sigs next_match count_between run_checklocktime run_stack_op move pick_or_roll index_of
    remove_at same_bytes is_truthy decode_num encode_num encode_magnitude is_minimal top_byte
    second_byte le_value signed_value compare_bytes ◌+ℤ◌ ◌-ℤ◌
evaluate = eval_script ctx

abbrev key : Bytes
key = replicate 32 9

abbrev signature : Bytes
signature = replicate 64 9

-- 2 3 OP_ADD 5 OP_NUMEQUAL
add_script : evaluate (0x52 ∷ 0x53 ∷ 0x93 ∷ 0x55 ∷ 0x9c ∷ []) [] ≡ ok tt
unfolding evaluate
add_script = refl

-- OP_IF 1 OP_ELSE OP_CHECKSIG OP_ENDIF, both branches
branch_script : evaluate (0x63 ∷ 0x51 ∷ 0x67 ∷ 0xac ∷ 0x68 ∷ []) ((1 ∷ []) ∷ []) ≡ ok tt
unfolding evaluate
branch_script = refl

other_branch :
    evaluate (0x63 ∷ 0x51 ∷ 0x67 ∷ 0xac ∷ 0x68 ∷ []) ([] ∷ [])
    ≡ err "OP_CHECKSIG: need sig + pubkey"
unfolding evaluate
other_branch = refl

unbalanced : evaluate (0x51 ∷ 0x63 ∷ 0x51 ∷ []) [] ≡ err "unbalanced OP_IF/OP_ENDIF"
unfolding evaluate
unbalanced = refl

-- OP_CHECKSIG with the signature and the key as the witness.
checksig_script : evaluate (0xac ∷ []) (signature ∷ key ∷ []) ≡ ok tt
unfolding evaluate
checksig_script = refl

-- 1-of-2 multisig, with the second key.
multisig_script :
    evaluate (0xae ∷ []) (signature ∷ (1 ∷ []) ∷ replicate 32 8 ∷ key ∷ (2 ∷ []) ∷ []) ≡ ok tt
unfolding evaluate
multisig_script = refl

-- A locktime of 99 at height 100.
locktime_script : evaluate (0x01 ∷ 99 ∷ 0xb1 ∷ []) [] ≡ ok tt
unfolding evaluate
locktime_script = refl

minus_1000 : encode_num (negsuc 999) ≡ 0xe8 ∷ 0x83 ∷ []
unfolding evaluate
minus_1000 = refl

-- A machine at the first byte of a script, in a branch that is not taken.
abbrev skipping : Machine
skipping = record {
  rest = 0x51 ∷ 0x68 ∷ [];
  stacks = record { main = []; alt = [] };
  cond_stack = false ∷ [];
  op_count = 3;
}

decode_num-encode_num_example : decode_num (encode_num (negsuc 999)) 2 ≡ some (negsuc 999)
unfolding evaluate
decode_num-encode_num_example = decode_num-encode_num (negsuc 999) 2 (omega arith)

encode_num-decode_num_example : encode_num (negsuc 999) ≡ 0xe8 ∷ 0x83 ∷ []
unfolding evaluate
encode_num-decode_num_example =
    encode_num-decode_num (0xe8 ∷ 0x83 ∷ []) 4 {v = negsuc 999} (omega arith) refl

run_total_example : (q : Result Machine) × (run ctx 2 skipping ≡ some q)
run_total_example = run_total ctx 2 skipping (omega arith)

run-IsBounded_example : IsBounded (record skipping { rest = []; cond_stack = [] })
unfolding evaluate
run-IsBounded_example =
    run-IsBounded ctx 2 skipping (record skipping { rest = []; cond_stack = [] }) (omega arith) refl

step_skipped_example :
    ((record skipping { rest = 0x68 ∷ [] }).stacks ≡ skipping.stacks)
    × ((record skipping { rest = 0x68 ∷ [] }).op_count ≡ skipping.op_count)
    × Skips 0x01 (0x68 ∷ 0x68 ∷ []) skipping.cond_stack (0x68 ∷ []) skipping.cond_stack
unfolding evaluate
step_skipped_example =
    step_skipped ctx 0x01 (0x68 ∷ 0x68 ∷ []) skipping (record skipping { rest = 0x68 ∷ [] }) refl
      refl

eval_script_accepts_example :
    (2 ≤ max_script_bytes)
    × (1 ≤ max_witness_items)
    × AreItems ((1 ∷ []) ∷ [])
    × Accepted ctx (0x76 ∷ 0x9c ∷ []) ((1 ∷ []) ∷ [])
unfolding evaluate
eval_script_accepts_example = eval_script_accepts ctx (0x76 ∷ 0x9c ∷ []) ((1 ∷ []) ∷ []) refl

match_sigs_iff_example :
    (match_sigs (replicate 32 1) (signature ∷ []) (replicate 32 8 ∷ key ∷ []) ≡ true)
    ↔ Matches (replicate 32 1) (signature ∷ []) (replicate 32 8 ∷ key ∷ [])
match_sigs_iff_example =
    match_sigs_iff (replicate 32 1) (signature ∷ []) (replicate 32 8 ∷ key ∷ [])

-- A machine in a branch that is taken.
abbrev ready : Machine
ready = record skipping { cond_stack = true ∷ [] }

step-push_data_script_example :
    (op : ℕ) × (behind : Bytes) × (push_data_script (7 ∷ 8 ∷ []) ++ (0x87 ∷ []) ≡ op ∷ behind)
    × (step ctx op behind ready
        ≡ ok (record ready {
          rest = 0x87 ∷ [];
          stacks = with_main ready.stacks ((7 ∷ 8 ∷ []) ∷ ready.stacks.main);
        }))
unfolding evaluate
step-push_data_script_example =
    step-push_data_script ctx (7 ∷ 8 ∷ []) (0x87 ∷ []) ready (omega arith) refl refl

-- A one-byte push, OP_SHA256, and a push by OP_PUSHDATA2.
abbrev mixed : Bytes
mixed = 0x01 ∷ 0x2a ∷ 0xa8 ∷ 0x4d ∷ 0x02 ∷ 0x00 ∷ 0x07 ∷ 0x08 ∷ []

script_bytes-tokenize_example : script_bytes (tokenize mixed).0 ≡ mixed
unfolding tokenize_loop read_token read_payload
script_bytes-tokenize_example = script_bytes-tokenize mixed (omega arith) refl
