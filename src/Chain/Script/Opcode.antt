-- ===== src/Chain/Script/Opcode.antt =====
-- src/chain/script.ts, lines 40 to 143: the opcodes. The constants of `Op` become constructors,
-- grouped as the `switch` of `evalScript` groups them; pushes, OP_IF, OP_ELSE and OP_ENDIF are
-- dealt with by number, before the `switch`.
use browser_coin_native_mine.Prelude.{
  ℕ, ◌-◌, Bool, ◌&&◌, ◌||◌, Option, none, some, List, [], ◌∷◌, leb, ◌==◌, if◌then◌else◌,
}

pub data StackOp : Type 0 where
  op_toaltstack op_fromaltstack op_2dup op_ifdup op_depth op_drop op_dup op_nip op_over : StackOp
  op_pick op_roll op_rot op_swap op_tuck op_size : StackOp

pub data UnaryOp : Type 0 where
  op_1add op_1sub op_negate op_abs op_not op_0notequal : UnaryOp

pub data BinaryOp : Type 0 where
  op_add op_sub op_booland op_boolor op_numequal op_numnotequal op_lessthan op_greaterthan :
      BinaryOp
  op_lessthanorequal op_greaterthanorequal op_min op_max : BinaryOp

pub data HashOp : Type 0 where
  op_ripemd160 op_sha256 op_hash160 op_hash256 : HashOp

pub data Opcode : Type 0 where
  op_n : ℕ → Opcode
  op_nop op_verify op_equal op_equalverify op_numequalverify op_within : Opcode
  on_stack : StackOp → Opcode
  unary : UnaryOp → Opcode
  binary : BinaryOp → Opcode
  hashing : HashOp → Opcode
  op_checksig op_checksigverify op_checkmultisig op_checklocktimeverify : Opcode

abbrev pub op_pushdata1 : ℕ
op_pushdata1 = 0x4c

abbrev pub op_pushdata2 : ℕ
op_pushdata2 = 0x4d

-- The largest opcode that pushes as many bytes as its number says.
abbrev pub op_push_max : ℕ
op_push_max = 0x4b

abbrev pub op_if : ℕ
op_if = 0x63

abbrev pub op_else : ℕ
op_else = 0x67

abbrev pub op_endif : ℕ
op_endif = 0x68

-- `RESERVED_NOPS`: OP_NOP, OP_NOP1 and OP_NOP3 to OP_NOP10.
pub is_reserved_nop : ℕ → Bool
is_reserved_nop op = op == 0x61 || op == 0xb0 || (leb 0xb2 op && leb op 0xb9)

pub opcode_table : List (ℕ × Opcode)
opcode_table =
    (0x69, op_verify)
    ∷ (0x6b, on_stack op_toaltstack)
    ∷ (0x6c, on_stack op_fromaltstack)
    ∷ (0x6e, on_stack op_2dup)
    ∷ (0x73, on_stack op_ifdup)
    ∷ (0x74, on_stack op_depth)
    ∷ (0x75, on_stack op_drop)
    ∷ (0x76, on_stack op_dup)
    ∷ (0x77, on_stack op_nip)
    ∷ (0x78, on_stack op_over)
    ∷ (0x79, on_stack op_pick)
    ∷ (0x7a, on_stack op_roll)
    ∷ (0x7b, on_stack op_rot)
    ∷ (0x7c, on_stack op_swap)
    ∷ (0x7d, on_stack op_tuck)
    ∷ (0x82, on_stack op_size)
    ∷ (0x87, op_equal)
    ∷ (0x88, op_equalverify)
    ∷ (0x8b, unary op_1add)
    ∷ (0x8c, unary op_1sub)
    ∷ (0x8f, unary op_negate)
    ∷ (0x90, unary op_abs)
    ∷ (0x91, unary op_not)
    ∷ (0x92, unary op_0notequal)
    ∷ (0x93, binary op_add)
    ∷ (0x94, binary op_sub)
    ∷ (0x9a, binary op_booland)
    ∷ (0x9b, binary op_boolor)
    ∷ (0x9c, binary op_numequal)
    ∷ (0x9d, op_numequalverify)
    ∷ (0x9e, binary op_numnotequal)
    ∷ (0x9f, binary op_lessthan)
    ∷ (0xa0, binary op_greaterthan)
    ∷ (0xa1, binary op_lessthanorequal)
    ∷ (0xa2, binary op_greaterthanorequal)
    ∷ (0xa3, binary op_min)
    ∷ (0xa4, binary op_max)
    ∷ (0xa5, op_within)
    ∷ (0xa6, hashing op_ripemd160)
    ∷ (0xa8, hashing op_sha256)
    ∷ (0xa9, hashing op_hash160)
    ∷ (0xaa, hashing op_hash256)
    ∷ (0xac, op_checksig)
    ∷ (0xad, op_checksigverify)
    ∷ (0xae, op_checkmultisig)
    ∷ (0xb1, op_checklocktimeverify)
    ∷ []

pub find_opcode : ℕ → List (ℕ × Opcode) → Option Opcode
find_opcode op [] = none
find_opcode op ((code, o) ∷ table) = if op == code then some o else find_opcode op table

-- What the `switch` does with an opcode; `none` is its default case.
unfoldable pub opcode_of : ℕ → Option Opcode
unfolding is_reserved_nop opcode_table find_opcode
opcode_of op =
    if is_reserved_nop op
    then some op_nop
    else if leb 0x51 op && leb op 0x60
    then some (op_n (op - 0x50))
    else find_opcode op opcode_table
