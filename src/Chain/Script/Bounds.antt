-- ===== src/Chain/Script/Bounds.antt =====
-- What bounds the work of a script: the two stacks together never exceed 1000 items, and no more
-- than 201 opcodes are run.
use mathlib.Core.List.{reverse}
use browser_coin_native_mine.Prelude.{
  Option-cases, ap, ℕ, zero, suc, ◌≤◌, ◌≡◌, refl, Bool, true, false, some, List, [], ◌∷◌, Bytes,
  get_elem?, drop, take, length, length-drop, arith, Result, ok, err, ◌>>=◌, >>=-eq-ok, inl, inr,
}
use browser_coin_native_mine.Chain.Crypto.{Crypto}
use browser_coin_native_mine.Chain.Script.Exec.{
  run_unary, pop_two, run_binary, run_numequalverify, run_within, run_verify, run_equal,
  run_equalverify, run_hash, run_checksig, run_checksigverify, run_checklocktime, run_opcode,
}
use browser_coin_native_mine.Chain.Script.Limits.{
  ScriptContext, max_multisig_keys, max_stack_size, max_ops,
}
use browser_coin_native_mine.Chain.Script.Machine.{
  push_length, Machine, push_data, step_push, step_if, step_else, step_endif, step_opcode, step,
  run,
}
use browser_coin_native_mine.Chain.Script.Multisig.{count_between, check_sigs, op_check_multisig}
use browser_coin_native_mine.Chain.Script.Opcode.{
  opcode_of, UnaryOp, BinaryOp, HashOp, StackOp, op_toaltstack, op_fromaltstack, op_2dup, op_ifdup,
  op_depth, op_drop, op_dup, op_nip, op_over, op_pick, op_roll, op_rot, op_swap, op_tuck, op_size,
  Opcode, op_n, op_nop, op_verify, op_equal, op_equalverify, op_numequalverify, op_within, on_stack,
  unary, binary, hashing, op_checksig, op_checksigverify, op_checkmultisig, op_checklocktimeverify,
}
use browser_coin_native_mine.Chain.Script.Progress.{run_inv}
use browser_coin_native_mine.Chain.Script.Stack.{
  index_of, Items, Stacks, depth, with_main, checked, remove_at, pick_or_roll, move, run_stack_op,
}
use browser_coin_native_mine.Prelude.Int.{ℤ}

checked-depth : (s : Stacks) {s' : Stacks} → checked s ≡ ok s' → depth s' ≤ max_stack_size
unfolding checked
checked-depth s h = ground arith

length-remove_at {ℓ} :
    {A : Type ℓ} (i : ℕ) (xs : List A) {x : A}
    → get_elem? xs i ≡ some x
    → suc (length (remove_at i xs)) ≡ length xs
unfolding remove_at
length-remove_at i [] h = cc
length-remove_at zero (x ∷ xs) h = refl
length-remove_at (suc i) (x ∷ xs) h = ap suc (length-remove_at i xs h)

pick_or_roll-depth :
    (roll : Bool) (r : Items) (s : Stacks) {s' : Stacks}
    → depth (with_main s r) ≤ max_stack_size
    → pick_or_roll roll r s ≡ ok s'
    → depth s' ≤ max_stack_size
unfolding pick_or_roll
pick_or_roll-depth roll [] s h e = cc
pick_or_roll-depth roll (top ∷ rest) s {s'} h e = elim (Option-cases (index_of top)) [
  | inl bad ↦ ground arith
  | inr (i, found) ↦ elim (Option-cases (get_elem? rest i)) [
    | inl outside ↦ ground arith
    | inr (item, at_index) ↦ ground (
      arith,
      checked-depth (with_main s (item ∷ rest)) {s' = s'},
      length-remove_at {0} i rest {x = item},
    )
  ]
]

move-depth :
    (op : StackOp) (r : Items) (s : Stacks) {s' : Stacks}
    → depth (with_main s r) ≤ max_stack_size
    → move op r s ≡ ok s'
    → depth s' ≤ max_stack_size
unfolding move
move-depth op_toaltstack (a ∷ r) s h e = ground arith
move-depth op_toaltstack [] s h e = cc
move-depth op_fromaltstack r s h e = ground arith
move-depth op_drop (a ∷ r) s h e = ground arith
move-depth op_drop [] s h e = cc
move-depth op_2dup (a ∷ b ∷ r) s h e = checked-depth _ e
move-depth op_2dup [] s h e = cc
move-depth op_2dup (a ∷ []) s h e = cc
move-depth op_dup (a ∷ r) s h e = checked-depth _ e
move-depth op_dup [] s h e = cc
move-depth op_ifdup (a ∷ r) s {s'} h e =
    ground (arith, checked-depth (with_main s (a ∷ a ∷ r)) {s' = s'})
move-depth op_ifdup [] s h e = cc
move-depth op_depth r s h e = checked-depth _ e
move-depth op_nip (a ∷ b ∷ r) s h e = ground arith
move-depth op_nip [] s h e = cc
move-depth op_nip (a ∷ []) s h e = cc
move-depth op_over (a ∷ b ∷ r) s h e = checked-depth _ e
move-depth op_over [] s h e = cc
move-depth op_over (a ∷ []) s h e = cc
move-depth op_pick r s h e = pick_or_roll-depth false r s h e
move-depth op_roll r s h e = pick_or_roll-depth true r s h e
move-depth op_rot (a ∷ b ∷ c ∷ r) s h e = ground arith
move-depth op_rot [] s h e = cc
move-depth op_rot (a ∷ []) s h e = cc
move-depth op_rot (a ∷ b ∷ []) s h e = cc
move-depth op_swap (a ∷ b ∷ r) s h e = ground arith
move-depth op_swap [] s h e = cc
move-depth op_swap (a ∷ []) s h e = cc
move-depth op_tuck (a ∷ b ∷ r) s h e = checked-depth _ e
move-depth op_tuck [] s h e = cc
move-depth op_tuck (a ∷ []) s h e = cc
move-depth op_size (a ∷ r) s h e = checked-depth _ e
move-depth op_size [] s h e = cc

-- An opcode that works on the main stack alone and checks no overflow leaves it no longer.
run_verify-length : (r : Items) {r' : Items} → run_verify r ≡ ok r' → length r' ≤ length r
unfolding run_verify
run_verify-length [] e = ground arith
run_verify-length (a ∷ r) e = ground arith

run_equal-length : (r : Items) {r' : Items} → run_equal r ≡ ok r' → length r' ≤ length r
unfolding run_equal
run_equal-length [] e = ground arith
run_equal-length (a ∷ []) e = ground arith
run_equal-length (a ∷ b ∷ r) e = ground arith

run_equalverify-length : (r : Items) {r' : Items} → run_equalverify r ≡ ok r' → length r' ≤ length r
unfolding run_equalverify
run_equalverify-length [] e = ground arith
run_equalverify-length (a ∷ []) e = ground arith
run_equalverify-length (a ∷ b ∷ r) e = ground arith

run_within-length : (r : Items) {r' : Items} → run_within r ≡ ok r' → length r' ≤ length r
unfolding run_within
run_within-length [] e = ground arith
run_within-length (a ∷ []) e = ground arith
run_within-length (a ∷ b ∷ []) e = ground arith
run_within-length (a ∷ b ∷ c ∷ r) e = ground arith

run_unary-length :
    (op : UnaryOp) (r : Items) {r' : Items} → run_unary op r ≡ ok r' → length r' ≤ length r
unfolding run_unary
run_unary-length op [] e = ground arith
run_unary-length op (a ∷ r) e = ground arith

pop_two-length :
    (r : Items) {a b : ℤ} {r' : Items}
    → pop_two r ≡ ok (a, b, r')
    → suc (suc (length r')) ≡ length r
unfolding pop_two
pop_two-length [] e = ground arith
pop_two-length (a ∷ []) e = ground arith
pop_two-length (a ∷ b ∷ r) e = ground arith

run_binary-length :
    (op : BinaryOp) (r : Items) {r' : Items} → run_binary op r ≡ ok r' → length r' ≤ length r
unfolding run_binary
run_binary-length op r e =
    let ((a, b, r'), popped, done) = >>=-eq-ok (pop_two r) _ e in
    ground (arith, pop_two-length r popped, done)

run_numequalverify-length :
    (r : Items) {r' : Items} → run_numequalverify r ≡ ok r' → length r' ≤ length r
unfolding run_numequalverify
run_numequalverify-length r e =
    let ((a, b, r'), popped, done) = >>=-eq-ok (pop_two r) _ e in
    ground (arith, pop_two-length r popped, done)

run_checklocktime-length :
    (ctx : ScriptContext) (r : Items) {r' : Items}
    → run_checklocktime ctx r ≡ ok r'
    → length r' ≤ length r
unfolding run_checklocktime
run_checklocktime-length ctx [] e = ground arith
run_checklocktime-length ctx (a ∷ r) e = ground arith

module _ ⦃c : Crypto⦄ where
  run_hash-length :
      (op : HashOp) (r : Items) {r' : Items} → run_hash op r ≡ ok r' → length r' ≤ length r
  unfolding run_hash
  run_hash-length op [] e = ground arith
  run_hash-length op (a ∷ r) e = ground arith

  run_checksig-length :
      (ctx : ScriptContext) (r : Items) {r' : Items}
      → run_checksig ctx r ≡ ok r'
      → length r' ≤ length r
  unfolding run_checksig
  run_checksig-length ctx [] e = ground arith
  run_checksig-length ctx (a ∷ []) e = ground arith
  run_checksig-length ctx (a ∷ b ∷ r) e = ground arith

  run_checksigverify-length :
      (ctx : ScriptContext) (r : Items) {r' : Items}
      → run_checksigverify ctx r ≡ ok r'
      → length r' ≤ length r
  unfolding run_checksigverify
  run_checksigverify-length ctx [] e = ground arith
  run_checksigverify-length ctx (a ∷ []) e = ground arith
  run_checksigverify-length ctx (a ∷ b ∷ r) e = ground arith

  check_sigs-length :
      (sighash : Bytes) (n : ℕ) (pubkeys r : Items) {r' : Items}
      → check_sigs sighash n pubkeys r ≡ ok r'
      → length r' ≤ length r
  unfolding check_sigs
  check_sigs-length sighash n pubkeys [] e = ground arith
  check_sigs-length sighash n pubkeys (m_item ∷ r) e =
      elim (Option-cases (count_between 1 n m_item)) [
        | inl none_found ↦ ground arith
        | inr (m, found) ↦ ground (arith, length-drop m r)
      ]

  op_check_multisig-length :
      (sighash : Bytes) (r : Items) {r' : Items}
      → op_check_multisig sighash r ≡ ok r'
      → length r' ≤ length r
  unfolding op_check_multisig
  op_check_multisig-length sighash [] e = ground arith
  op_check_multisig-length sighash (n_item ∷ r) {r'} e =
      elim (Option-cases (count_between 1 max_multisig_keys n_item)) [
        | inl none_found ↦ ground arith
        | inr (n, found) ↦ ground (
          arith,
          length-drop n r,
          check_sigs-length sighash n (reverse (take n r)) (drop n r) {r' = r'},
        )
      ]

-- The main stack is replaced by one that is no longer.
main-depth :
    (s : Stacks) (m : Result Items) {s' : Stacks}
    → ((r : Items) → m ≡ ok r → length r ≤ length s.main)
    → depth s ≤ max_stack_size
    → (m >>= λ r. ok (with_main s r)) ≡ ok s'
    → depth s' ≤ max_stack_size
main-depth s (ok r) k h e = ground (arith, k r)
main-depth s (err x) k h e = cc

run_opcode-depth :
    ⦃c : Crypto⦄ (ctx : ScriptContext) (o : Opcode) (s : Stacks) {s' : Stacks}
    → depth s ≤ max_stack_size
    → run_opcode ctx o s ≡ ok s'
    → depth s' ≤ max_stack_size
unfolding run_opcode run_stack_op
run_opcode-depth ctx op_nop s h e = ground arith
run_opcode-depth ctx (op_n n) s h e = checked-depth _ e
run_opcode-depth ctx (on_stack op) s h e = move-depth op s.main s h e
run_opcode-depth ctx op_verify s h e = main-depth s _ (λ r. run_verify-length s.main) h e
run_opcode-depth ctx op_equal s h e = main-depth s _ (λ r. run_equal-length s.main) h e
run_opcode-depth ctx op_equalverify s h e = main-depth s _ (λ r. run_equalverify-length s.main) h e
run_opcode-depth ctx (unary op) s h e = main-depth s _ (λ r. run_unary-length op s.main) h e
run_opcode-depth ctx (binary op) s h e = main-depth s _ (λ r. run_binary-length op s.main) h e
run_opcode-depth ctx op_numequalverify s h e =
    main-depth s _ (λ r. run_numequalverify-length s.main) h e
run_opcode-depth ctx op_within s h e = main-depth s _ (λ r. run_within-length s.main) h e
run_opcode-depth ctx (hashing op) s h e = main-depth s _ (λ r. run_hash-length op s.main) h e
run_opcode-depth ctx op_checksig s h e = main-depth s _ (λ r. run_checksig-length ctx s.main) h e
run_opcode-depth ctx op_checksigverify s h e =
    main-depth s _ (λ r. run_checksigverify-length ctx s.main) h e
run_opcode-depth ctx op_checkmultisig s h e =
    main-depth s _ (λ r. op_check_multisig-length ctx.sighash s.main) h e
run_opcode-depth ctx op_checklocktimeverify s h e =
    main-depth s _ (λ r. run_checklocktime-length ctx s.main) h e

-- The limits that hold between two rounds of the loop.
pub record IsBounded (m : Machine) : Type 0 where
  pub stack_size : depth m.stacks ≤ max_stack_size
  pub ops : m.op_count ≤ max_ops

push_data-IsBounded :
    (len : ℕ) (body : Bytes) (m m' : Machine)
    → IsBounded m
    → push_data len body m ≡ ok m'
    → IsBounded m'
unfolding push_data checked
push_data-IsBounded len body m m' b e = ground arith

step_push-IsBounded :
    (op : ℕ) (rest : Bytes) (m m' : Machine)
    → IsBounded m
    → step_push op rest m ≡ ok m'
    → IsBounded m'
unfolding step_push
step_push-IsBounded op rest m m' b e =
    let ((len, body), found, pushed) = >>=-eq-ok (push_length op rest) _ e in
    push_data-IsBounded len body m m' b pushed

step_if-IsBounded :
    (rest : Bytes) (m m' : Machine) → IsBounded m → step_if rest m ≡ ok m' → IsBounded m'
unfolding step_if
step_if-IsBounded rest m m' b e = ground arith

step_else-IsBounded :
    (rest : Bytes) (m m' : Machine) → IsBounded m → step_else rest m ≡ ok m' → IsBounded m'
unfolding step_else
step_else-IsBounded rest m m' b e = ground arith

step_endif-IsBounded :
    (rest : Bytes) (m m' : Machine) → IsBounded m → step_endif rest m ≡ ok m' → IsBounded m'
unfolding step_endif
step_endif-IsBounded rest m m' b e = ground arith

module _ ⦃c : Crypto⦄ (ctx : ScriptContext) where
  step_opcode-IsBounded :
      (op : ℕ) (rest : Bytes) (m m' : Machine)
      → IsBounded m
      → step_opcode ctx op rest m ≡ ok m'
      → IsBounded m'
  unfolding step_opcode
  step_opcode-IsBounded op rest m m' b e = elim (Option-cases (opcode_of op)) [
    | inl unknown ↦ ground arith
    | inr (o, known) ↦ ground (arith, run_opcode-depth ctx o m.stacks {s' = m'.stacks} b.stack_size)
  ]

  -- Every round keeps the limits.
  pub step-IsBounded :
      (op : ℕ) (rest : Bytes) (m m' : Machine)
      → IsBounded m
      → step ctx op rest m ≡ ok m'
      → IsBounded m'
  unfolding step
  step-IsBounded op rest m m' b e = ground (
    arith,
    step_push-IsBounded op rest m m' b,
    step_if-IsBounded rest m m' b,
    step_else-IsBounded rest m m' b,
    step_endif-IsBounded rest m m' b,
    step_opcode-IsBounded op rest m m' b,
  )

  -- A run that succeeds ends within the limits on the items of both stacks together and on the count
  -- of opcodes, if it began within them.
  pub run-IsBounded :
      (fuel : ℕ) (m m' : Machine) → IsBounded m → run ctx fuel m ≡ some (ok m') → IsBounded m'
  run-IsBounded fuel m m' b e =
      run_inv ctx IsBounded (λ op rest m m' at b stepped. step-IsBounded op rest m m' b stepped)
        fuel m b e
