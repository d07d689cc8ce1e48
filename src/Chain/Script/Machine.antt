-- ===== src/Chain/Script/Machine.antt =====
-- src/chain/script.ts, evalScript: the state of the interpreter, one round of its loop, and the
-- loop. The program counter is kept as the bytes of the script that lie behind it.
use mathlib.Core.List.{reverse}
use browser_coin_native_mine.Prelude.{
  ℕ, zero, suc, ◌+◌, ◌*◌, Bool, true, false, not, ◌&&◌, ◌||◌, Option, none, some, List, [], ◌∷◌,
  Bytes, take, drop, ltb, leb, ◌==◌, if◌then◌else◌, length, Result, ok, err, ◌>>=◌, ◌>>◌, fail_if,
}
use browser_coin_native_mine.Chain.Crypto.{Crypto, sha256}
use browser_coin_native_mine.Chain.Script.Exec.{run_opcode}
use browser_coin_native_mine.Chain.Script.Limits.{
  ScriptContext, max_script_bytes, max_witness_items, max_push_bytes, max_ops,
}
use browser_coin_native_mine.Chain.Script.Num.{is_truthy}
use browser_coin_native_mine.Chain.Script.Opcode.{
  op_pushdata1, op_pushdata2, op_push_max, op_if, op_else, op_endif, opcode_of,
}
use browser_coin_native_mine.Chain.Script.Stack.{Items, Stacks, with_main, overflowed, checked}

-- `cond_stack` has the innermost OP_IF first.
pub record Machine : Type 0 where
  pub rest : Bytes
  pub stacks : Stacks
  pub cond_stack : List Bool
  pub op_count : ℕ

unfoldable pub executing : List Bool → Bool
executing [] = true
executing (b ∷ cond_stack) = b && executing cond_stack

unfoldable pub is_push : ℕ → Bool
is_push op = leb op op_push_max || op == op_pushdata1 || op == op_pushdata2

-- The length of a push, and the bytes behind its length field.
unfoldable pub push_length : ℕ → Bytes → Result (ℕ × Bytes)
push_length op rest =
    if op == op_pushdata1
    then elim rest [ [] ↦ err "truncated pushdata length" | len ∷ rest' ↦ ok (len, rest') ]
    else if op == op_pushdata2
    then elim rest [
      | [] ↦ err "truncated pushdata length"
      | lo ∷ rest' ↦ elim rest' [
        | [] ↦ err "truncated pushdata length"
        | hi ∷ rest'' ↦ ok (lo + 256 * hi, rest'')
      ]
    ]
    else ok (op, rest)

-- `len` bytes are pushed if the branch is executed, and skipped in any case.
unfoldable pub push_data : ℕ → Bytes → Machine → Result Machine
push_data len body m = do
  fail_if (ltb max_push_bytes len) "push too large"
  fail_if (ltb (length body) len) "truncated push"
  s ←
      (if executing m.cond_stack
        then checked (with_main m.stacks (take len body ∷ m.stacks.main))
        else ok m.stacks)
  ok (record m { rest = drop len body; stacks = s })

unfoldable pub step_push : ℕ → Bytes → Machine → Result Machine
step_push op rest m = do (len, body) ← push_length op rest; push_data len body m

-- OP_IF takes its condition from the stack if it is executed.
unfoldable pub step_if : Bytes → Machine → Result Machine
step_if rest m =
    if executing m.cond_stack
    then elim m.stacks.main [
      | [] ↦ err "OP_IF: empty stack"
      | a ∷ r ↦ ok (record m {
        rest = rest;
        stacks = with_main m.stacks r;
        cond_stack = is_truthy a ∷ m.cond_stack;
      })
    ]
    else ok (record m { rest = rest; cond_stack = false ∷ m.cond_stack })

unfoldable pub step_else : Bytes → Machine → Result Machine
step_else rest m = elim m.cond_stack [
  | [] ↦ err "OP_ELSE without OP_IF"
  | b ∷ outer ↦ ok (record m { rest = rest; cond_stack = not b ∷ outer })
]

unfoldable pub step_endif : Bytes → Machine → Result Machine
step_endif rest m = elim m.cond_stack [
  | [] ↦ err "OP_ENDIF without OP_IF"
  | b ∷ outer ↦ ok (record m { rest = rest; cond_stack = outer })
]

-- What is checked when the script has ended.
unfoldable pub check_top : Items → Result (Unit {0})
check_top [] = err "empty stack at end"
check_top (top ∷ r) = if is_truthy top then ok tt else err "top of stack is false"

unfoldable pub finish : Machine → Result (Unit {0})
finish m =
    if not (length m.cond_stack == 0)
    then err "unbalanced OP_IF/OP_ENDIF"
    else check_top m.stacks.main

-- The end of the loop. That the fuel never runs out is proved of `run`.
abbrev pub outcome : Option (Result Machine) → Result (Unit {0})
outcome none = err "out of fuel"
outcome (some r) = r >>= finish

-- The witness becomes the main stack, its last item on top.
unfoldable pub seed : Items → Result Items
seed [] = ok []
seed (item ∷ witness) = do
  fail_if (ltb max_push_bytes (length item)) "witness item too large"
  items ← seed witness
  ok (item ∷ items)

unfoldable pub start : Bytes → Items → Machine
start redeem_script witness = record {
  rest = redeem_script;
  stacks = record { main = reverse witness; alt = [] };
  cond_stack = [];
  op_count = 0;
}

module _ ⦃c : Crypto⦄ (ctx : ScriptContext) where
  -- Any other opcode: it counts, and is run.
  unfoldable pub step_opcode : ℕ → Bytes → Machine → Result Machine
  step_opcode op rest m = do
    fail_if (ltb max_ops (m.op_count + 1)) "op count exceeded"
    s ← (elim (opcode_of op) [ none ↦ err "unknown opcode" | some o ↦ run_opcode ctx o m.stacks ])
    ok (record m { rest = rest; stacks = s; op_count = m.op_count + 1 })

  -- One round of the loop, at the opcode `op`.
  unfoldable pub step : ℕ → Bytes → Machine → Result Machine
  step op rest m =
      if is_push op
      then step_push op rest m
      else if op == op_if
      then step_if rest m
      else if op == op_else
      then step_else rest m
      else if op == op_endif
      then step_endif rest m
      else if not (executing m.cond_stack)
      then ok (record m { rest = rest })
      else step_opcode op rest m

  -- The loop; `none` means that the fuel ran out.
  unfoldable pub run : ℕ → Machine → Option (Result Machine)
  run zero m = elim m.rest [ [] ↦ some (ok m) | op ∷ rest ↦ none ]
  run (suc fuel) m = elim m.rest [
    | [] ↦ some (ok m)
    | op ∷ rest ↦ elim (step op rest m) [ err e ↦ some (err e) | ok m' ↦ run fuel m' ]
  ]

  -- Each round takes a byte of the script at least, so its length is fuel enough.
  unfoldable pub eval_script : Bytes → Items → Result (Unit {0})
  eval_script redeem_script witness = do
    fail_if (ltb max_script_bytes (length redeem_script)) "script too long"
    fail_if (ltb max_witness_items (length witness)) "too many witness items"
    items ← seed witness
    let m = start redeem_script items
    fail_if (overflowed m.stacks) "stack overflow"
    outcome (run (length redeem_script) m)

-- `scriptHash`
module _ ⦃c : Crypto⦄ where
  abbrev pub script_hash : Bytes → Bytes
  script_hash script = sha256 script
