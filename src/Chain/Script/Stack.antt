-- ===== src/Chain/Script/Stack.antt =====
-- src/chain/script.ts, lines 374 to 483: the opcodes that move items on the two stacks.
use browser_coin_native_mine.Prelude.{
  ℕ, zero, suc, ◌+◌, Bool, true, false, Option, none, some, List, [], ◌∷◌, Bytes, get_elem?, ltb,
  if◌then◌else◌, length, Result, ok, err,
}
use browser_coin_native_mine.Chain.Script.Limits.{max_stack_size, max_num_bytes}
use browser_coin_native_mine.Chain.Script.Num.{is_truthy, decode_num, encode_num}
use browser_coin_native_mine.Chain.Script.Opcode.{
  StackOp, op_toaltstack, op_fromaltstack, op_2dup, op_ifdup, op_depth, op_drop, op_dup, op_nip,
  op_over, op_pick, op_roll, op_rot, op_swap, op_tuck, op_size,
}
use browser_coin_native_mine.Prelude.Int.{pos, negsuc}

abbrev pub Items : Type 0
Items = List Bytes

pub record Stacks : Type 0 where
  pub main : Items
  pub alt : Items

abbrev pub depth : Stacks → ℕ
depth s = length s.main + length s.alt

abbrev pub overflowed : Stacks → Bool
overflowed s = ltb max_stack_size (depth s)

-- The stacks after a push, and the check that follows most pushes.
abbrev pub with_main : Stacks → Items → Stacks
with_main s items = record s { main = items }

unfoldable pub checked : Stacks → Result Stacks
checked s = if overflowed s then err "stack overflow" else ok s

-- `stack.splice(idx, 1)`, by the distance from the top.
unfoldable pub remove_at {ℓ} : {A : Type ℓ} → ℕ → List A → List A
remove_at i [] = []
remove_at zero (x ∷ xs) = xs
remove_at (suc i) (x ∷ xs) = x ∷ remove_at i xs

-- The index that OP_PICK and OP_ROLL take from the top item.
unfoldable pub index_of : Bytes → Option ℕ
index_of item = elim (decode_num item max_num_bytes) [
  | none ↦ none
  | some n ↦ elim n [ pos i ↦ some i | negsuc i ↦ none ]
]

-- OP_PICK copies the item at the index, OP_ROLL moves it.
unfoldable pub pick_or_roll : Bool → Items → Stacks → Result Stacks
pick_or_roll roll [] s = err "OP_PICK/ROLL: empty stack"
pick_or_roll roll (top ∷ rest) s = elim (index_of top) [
  | none ↦ err "OP_PICK/ROLL: bad index"
  | some i ↦ elim (get_elem? rest i) [
    | none ↦ err "OP_PICK/ROLL: bad index"
    | some item ↦
        if roll
        then ok (with_main s (item ∷ remove_at i rest))
        else checked (with_main s (item ∷ rest))
  ]
]

-- One opcode on the main stack, given apart so that it can be matched.
unfoldable pub move : StackOp → Items → Stacks → Result Stacks
move op_toaltstack (a ∷ r) s = ok (record { main = r; alt = a ∷ s.alt })
move op_toaltstack [] s = err "OP_TOALTSTACK: empty stack"
move op_fromaltstack r s = elim s.alt [
  | [] ↦ err "OP_FROMALTSTACK: empty alt stack"
  | a ∷ alt ↦ ok (record { main = a ∷ r; alt = alt })
]
move op_drop (a ∷ r) s = ok (with_main s r)
move op_drop [] s = err "OP_DROP: empty stack"
move op_2dup (a ∷ b ∷ r) s = checked (with_main s (a ∷ b ∷ a ∷ b ∷ r))
move op_2dup r s = err "OP_2DUP: need 2 items"
move op_dup (a ∷ r) s = checked (with_main s (a ∷ a ∷ r))
move op_dup [] s = err "OP_DUP: empty stack"
move op_ifdup (a ∷ r) s =
    if is_truthy a then checked (with_main s (a ∷ a ∷ r)) else ok (with_main s (a ∷ r))
move op_ifdup [] s = err "OP_IFDUP: empty stack"
move op_depth r s = checked (with_main s (encode_num (pos (length r)) ∷ r))
move op_nip (a ∷ b ∷ r) s = ok (with_main s (a ∷ r))
move op_nip r s = err "OP_NIP: need 2 items"
move op_over (a ∷ b ∷ r) s = checked (with_main s (b ∷ a ∷ b ∷ r))
move op_over r s = err "OP_OVER: need 2 items"
move op_pick r s = pick_or_roll false r s
move op_roll r s = pick_or_roll true r s
move op_rot (a ∷ b ∷ c ∷ r) s = ok (with_main s (c ∷ a ∷ b ∷ r))
move op_rot r s = err "OP_ROT: need 3 items"
move op_swap (a ∷ b ∷ r) s = ok (with_main s (b ∷ a ∷ r))
move op_swap r s = err "OP_SWAP: need 2 items"
move op_tuck (a ∷ b ∷ r) s = checked (with_main s (a ∷ b ∷ a ∷ r))
move op_tuck r s = err "OP_TUCK: need 2 items"
move op_size (a ∷ r) s = checked (with_main s (encode_num (pos (length a)) ∷ a ∷ r))
move op_size [] s = err "OP_SIZE: empty stack"

unfoldable pub run_stack_op : StackOp → Stacks → Result Stacks
run_stack_op op s = move op s.main s
