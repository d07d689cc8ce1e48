-- ===== src/Chain/Script/Disasm.antt =====
-- src/chain/scriptDisasm.ts, tokenize. The name of a token, which is read off a table, is not modelled:
-- it is PUSH where the token has a payload. The length of the script is fuel enough, as each round takes a
-- byte.
pub mod Lossless
use browser_coin_native_mine.Prelude.{
  none, some, true, false, Bytes, ℕ, Option, List, if◌then◌else◌, Bool, ltb, ◌∷◌, length, leb, [],
  ◌&&◌, take, ◌==◌, suc, drop, zero, ◌+◌, ◌*◌,
}
use browser_coin_native_mine.Chain.Script.Opcode.{op_pushdata1, op_pushdata2, op_push_max}

pub record ScriptToken : Type 0 where
  pub op : ℕ
  pub payload : Option Bytes

-- The payload of a push, or nothing where the script ends before it does.
unfoldable pub read_payload : ℕ → ℕ → Bytes → Option (ScriptToken × Bytes)
read_payload op len rest =
    if ltb (length rest) len
    then none
    else some (record { op = op; payload = some (take len rest) }, drop len rest)

-- The token of an opcode byte, and what follows it.
unfoldable pub read_token : ℕ → Bytes → Option (ScriptToken × Bytes)
read_token op rest =
    if leb 1 op && leb op op_push_max
    then read_payload op op rest
    else if op == op_pushdata1
    then elim rest [ [] ↦ none | len ∷ rest' ↦ read_payload op len rest' ]
    else if op == op_pushdata2
    then elim rest [
      | [] ↦ none
      | lo ∷ rest' ↦ elim rest' [ [] ↦ none | hi ∷ rest'' ↦ read_payload op (lo + 256 * hi) rest'' ]
    ]
    else some (record { op = op; payload = none }, rest)

-- The tokens, and whether the script was truncated.
unfoldable pub tokenize_loop : ℕ → Bytes → List ScriptToken × Bool
tokenize_loop fuel [] = ([], false)
tokenize_loop zero (op ∷ rest) = ([], true)
tokenize_loop (suc fuel) (op ∷ rest) = elim (read_token op rest) [
  | none ↦ ([], true)
  | some r ↦ let later = tokenize_loop fuel r.1 in (r.0 ∷ later.0, later.1)
]

abbrev pub tokenize : Bytes → List ScriptToken × Bool
tokenize script = tokenize_loop (length script) script
