-- ===== src/Chain/Script/Exec.antt =====
-- src/chain/script.ts, lines 363 to 584: the cases of the `switch`, less the moves of Stack.
use browser_coin_native_mine.Prelude.{
  Bool, not, ◌&&◌, ◌||◌, none, some, [], ◌∷◌, Bytes, ltb, ◌==◌, if◌then◌else◌, length, Result, ok,
  err, ◌>>=◌, ◌>>◌, fail_if,
}
use browser_coin_native_mine.Chain.Crypto.{Crypto, sha256, ripemd160, hash160}
use browser_coin_native_mine.Chain.Script.Limits.{ScriptContext, max_num_bytes, locktime_threshold}
use browser_coin_native_mine.Chain.Script.Multisig.{signature_valid, op_check_multisig}
use browser_coin_native_mine.Chain.Script.Num.{is_truthy, decode_num, encode_num, bool_item}
use browser_coin_native_mine.Chain.Script.Opcode.{
  UnaryOp, op_1add, op_1sub, op_negate, op_abs, op_not, op_0notequal, BinaryOp, op_add, op_sub,
  op_booland, op_boolor, op_numequal, op_numnotequal, op_lessthan, op_greaterthan,
  op_lessthanorequal, op_greaterthanorequal, op_min, op_max, HashOp, op_ripemd160, op_sha256,
  op_hash160, op_hash256, Opcode, op_n, op_nop, op_verify, op_equal, op_equalverify,
  op_numequalverify, op_within, on_stack, unary, binary, hashing, op_checksig, op_checksigverify,
  op_checkmultisig, op_checklocktimeverify,
}
use browser_coin_native_mine.Chain.Script.Stack.{Items, Stacks, with_main, checked, run_stack_op}
use browser_coin_native_mine.Prelude.Int.{ℤ, pos, negsuc, ◌+ℤ◌, ◌-ℤ◌, ltb_ℤ, leb_ℤ, eqb_ℤ}
use browser_coin_native_mine.Util.Binary.{compare_bytes}

-- `a.length === b.length && compareBytes(a, b) === 0`
unfoldable pub same_bytes : Bytes → Bytes → Bool
same_bytes a b = length a == length b && eqb_ℤ (compare_bytes a b) (pos 0)

-- The truth of a test as a number.
abbrev pub flag : Bool → ℤ
flag b = if b then pos 1 else pos 0

abbrev is_zero : ℤ → Bool
is_zero a = eqb_ℤ a (pos 0)

unfoldable pub apply_unary : UnaryOp → ℤ → ℤ
apply_unary op_1add a = a +ℤ pos 1
apply_unary op_1sub a = a -ℤ pos 1
apply_unary op_negate a = pos 0 -ℤ a
apply_unary op_abs a = if ltb_ℤ a (pos 0) then pos 0 -ℤ a else a
apply_unary op_not a = flag (is_zero a)
apply_unary op_0notequal a = if is_zero a then pos 0 else pos 1

unfoldable pub apply_binary : BinaryOp → ℤ → ℤ → ℤ
apply_binary op_add a b = a +ℤ b
apply_binary op_sub a b = a -ℤ b
apply_binary op_booland a b = flag (not (is_zero a) && not (is_zero b))
apply_binary op_boolor a b = flag (not (is_zero a) || not (is_zero b))
apply_binary op_numequal a b = flag (eqb_ℤ a b)
apply_binary op_numnotequal a b = flag (not (eqb_ℤ a b))
apply_binary op_lessthan a b = flag (ltb_ℤ a b)
apply_binary op_greaterthan a b = flag (ltb_ℤ b a)
apply_binary op_lessthanorequal a b = flag (leb_ℤ a b)
apply_binary op_greaterthanorequal a b = flag (leb_ℤ b a)
apply_binary op_min a b = if ltb_ℤ a b then a else b
apply_binary op_max a b = if ltb_ℤ b a then a else b

-- The result of a comparison of numbers; OP_NUMEQUALVERIFY pushes nothing.
unfoldable pub run_unary : UnaryOp → Items → Result Items
run_unary op [] = err "arithmetic: bad number"
run_unary op (a_item ∷ r) = elim (decode_num a_item max_num_bytes) [
  | none ↦ err "arithmetic: bad number"
  | some a ↦ ok (encode_num (apply_unary op a) ∷ r)
]

-- The two numbers on top, the lower one first, and what lies below them.
unfoldable pub pop_two : Items → Result (ℤ × ℤ × Items)
pop_two (b_item ∷ a_item ∷ r) = elim (decode_num a_item max_num_bytes) [
  | none ↦ err "arithmetic: bad number"
  | some a ↦ elim (decode_num b_item max_num_bytes) [
    | none ↦ err "arithmetic: bad number"
    | some b ↦ ok (a, b, r)
  ]
]
pop_two r = err "arithmetic: need 2 numbers"

unfoldable pub run_binary : BinaryOp → Items → Result Items
run_binary op items = do (a, b, r) ← pop_two items; ok (encode_num (apply_binary op a b) ∷ r)

unfoldable pub run_numequalverify : Items → Result Items
run_numequalverify items = do
  (a, b, r) ← pop_two items
  fail_if (is_zero (apply_binary op_numequal a b)) "OP_NUMEQUALVERIFY failed"
  ok r

unfoldable pub run_within : Items → Result Items
run_within (max_item ∷ min_item ∷ x_item ∷ r) = elim (decode_num x_item max_num_bytes) [
  | none ↦ err "OP_WITHIN: bad number"
  | some x ↦ elim (decode_num min_item max_num_bytes) [
    | none ↦ err "OP_WITHIN: bad number"
    | some min ↦ elim (decode_num max_item max_num_bytes) [
      | none ↦ err "OP_WITHIN: bad number"
      | some max ↦ ok (bool_item (leb_ℤ min x && ltb_ℤ x max) ∷ r)
    ]
  ]
]
run_within r = err "OP_WITHIN: need 3 numbers"

unfoldable pub run_verify : Items → Result Items
run_verify [] = err "OP_VERIFY: empty stack"
run_verify (a ∷ r) = if is_truthy a then ok r else err "OP_VERIFY failed"

unfoldable pub run_equal : Items → Result Items
run_equal (a ∷ b ∷ r) = ok (bool_item (same_bytes a b) ∷ r)
run_equal r = err "OP_EQUAL: need 2 items"

unfoldable pub run_equalverify : Items → Result Items
run_equalverify (a ∷ b ∷ r) = if same_bytes a b then ok r else err "OP_EQUALVERIFY failed"
run_equalverify r = err "OP_EQUAL: need 2 items"

-- BIP65: the required height or time stays on the stack.
unfoldable pub run_checklocktime : ScriptContext → Items → Result Items
run_checklocktime ctx [] = err "OP_CLTV: empty stack"
run_checklocktime ctx (req_item ∷ r) = elim (decode_num req_item 5) [
  | none ↦ err "OP_CLTV: bad number"
  | some req ↦ elim req [
    | negsuc n ↦ err "OP_CLTV: negative locktime"
    | pos n ↦
        let chain_val = if ltb n locktime_threshold then ctx.block_height else ctx.block_mtp in
        if ltb chain_val n then err "OP_CLTV: locktime not reached" else ok (req_item ∷ r)
  ]
]

module _ ⦃c : Crypto⦄ where
  abbrev pub apply_hash : HashOp → Bytes → Bytes
  apply_hash op_ripemd160 a = ripemd160 a
  apply_hash op_sha256 a = sha256 a
  apply_hash op_hash160 a = hash160 a
  apply_hash op_hash256 a = sha256 (sha256 a)

  unfoldable pub run_hash : HashOp → Items → Result Items
  run_hash op [] = err "hash: empty stack"
  run_hash op (a ∷ r) = ok (apply_hash op a ∷ r)

  unfoldable pub run_checksig : ScriptContext → Items → Result Items
  run_checksig ctx (pubkey ∷ sig ∷ r) = ok (bool_item (signature_valid ctx.sighash sig pubkey) ∷ r)
  run_checksig ctx r = err "OP_CHECKSIG: need sig + pubkey"

  unfoldable pub run_checksigverify : ScriptContext → Items → Result Items
  run_checksigverify ctx (pubkey ∷ sig ∷ r) =
      if signature_valid ctx.sighash sig pubkey then ok r else err "OP_CHECKSIGVERIFY failed"
  run_checksigverify ctx r = err "OP_CHECKSIG: need sig + pubkey"

  -- The `switch`.
  unfoldable pub run_opcode : ScriptContext → Opcode → Stacks → Result Stacks
  run_opcode ctx op_nop s = ok s
  run_opcode ctx (op_n n) s = checked (with_main s (encode_num (pos n) ∷ s.main))
  run_opcode ctx (on_stack op) s = run_stack_op op s
  run_opcode ctx op_verify s = do r ← run_verify s.main; ok (with_main s r)
  run_opcode ctx op_equal s = do r ← run_equal s.main; ok (with_main s r)
  run_opcode ctx op_equalverify s = do r ← run_equalverify s.main; ok (with_main s r)
  run_opcode ctx (unary op) s = do r ← run_unary op s.main; ok (with_main s r)
  run_opcode ctx (binary op) s = do r ← run_binary op s.main; ok (with_main s r)
  run_opcode ctx op_numequalverify s = do r ← run_numequalverify s.main; ok (with_main s r)
  run_opcode ctx op_within s = do r ← run_within s.main; ok (with_main s r)
  run_opcode ctx (hashing op) s = do r ← run_hash op s.main; ok (with_main s r)
  run_opcode ctx op_checksig s = do r ← run_checksig ctx s.main; ok (with_main s r)
  run_opcode ctx op_checksigverify s = do r ← run_checksigverify ctx s.main; ok (with_main s r)
  run_opcode ctx op_checkmultisig s = do
    r ← op_check_multisig ctx.sighash s.main
    ok (with_main s r)
  run_opcode ctx op_checklocktimeverify s = do r ← run_checklocktime ctx s.main; ok (with_main s r)
