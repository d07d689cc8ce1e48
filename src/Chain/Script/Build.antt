-- ===== src/Chain/Script/Build.antt =====
-- src/chain/scriptBuild.ts: scripts from templates. Pushes has the theorem that the interpreter reads
-- back what `pushData` writes. A locktime may be negative, as in `encodeScriptNum`, which for integers
-- is the encoding of script.ts.
pub mod Pushes
use browser_coin_native_mine.Prelude.{
  ℕ, zero, suc, Bool, Bytes, length, [], ◌∷◌, if◌then◌else◌, ◌/◌, false, ◌==◌, leb, ◌%◌, ◌+◌, true,
}
use browser_coin_native_mine.Chain.Script.Opcode.{
  op_if, op_else, op_endif, op_pushdata1, op_pushdata2,
}
use browser_coin_native_mine.Prelude.Int.{ℤ, pos, negsuc}
use browser_coin_native_mine.Util.Binary.{concat}

unfoldable pub push_data_script : Bytes → Bytes
push_data_script item =
    let len = length item in
    if leb len 0x4b
    then len ∷ item
    else if leb len 0xff
    then op_pushdata1 ∷ len ∷ item
    else op_pushdata2 ∷ len % 256 ∷ len / 256 % 256 ∷ item

-- OP_SHA256 <hash> OP_EQUAL
unfoldable pub hashlock_script : Bytes → Bytes
hashlock_script sha256_hash = concat ((0xa8 ∷ []) ∷ push_data_script sha256_hash ∷ (0x87 ∷ []) ∷ [])

-- OP_SHA256 <hash> OP_EQUALVERIFY <pubkey> OP_CHECKSIG
unfoldable pub hashlock_sig_script : Bytes → Bytes → Bytes
hashlock_sig_script sha256_hash pubkey = concat (
    (0xa8 ∷ [])
    ∷ push_data_script sha256_hash
    ∷ (0x88 ∷ [])
    ∷ push_data_script pubkey
    ∷ (0xac ∷ [])
    ∷ [])

-- The loop `while (v > 0)`: the bytes of the magnitude, lowest first; `v` itself is fuel enough.
unfoldable pub magnitude_bytes : ℕ → ℕ → Bytes
magnitude_bytes zero v = []
magnitude_bytes (suc fuel) v =
    let rest = magnitude_bytes fuel (v / 256) in if v == 0 then [] else v % 256 ∷ rest

-- The sign goes to the top bit of the last byte, or into a byte of its own if that bit is taken.
unfoldable pub put_sign : Bool → Bytes → Bytes
put_sign neg [] = []
put_sign neg (b ∷ []) =
    if leb 0x80 b
    then b ∷ ((if neg then 0x80 else 0) ∷ [])
    else (if neg then (b + 0x80) ∷ [] else b ∷ [])
put_sign neg (b ∷ c ∷ bytes) = b ∷ put_sign neg (c ∷ bytes)

unfoldable pub encode_script_num : ℤ → Bytes
encode_script_num (pos v) = put_sign false (magnitude_bytes v v)
encode_script_num (negsuc v) = put_sign true (magnitude_bytes (suc v) (suc v))

-- OP_IF OP_SHA256 <h> OP_EQUALVERIFY <recipient> OP_CHECKSIG
-- OP_ELSE <locktime> OP_CHECKLOCKTIMEVERIFY OP_DROP <sender> OP_CHECKSIG OP_ENDIF
unfoldable pub htlc_script : Bytes → Bytes → ℤ → Bytes → Bytes
htlc_script sha256_hash recipient_pubkey locktime sender_pubkey = concat (
    (op_if ∷ [])
    ∷ (0xa8 ∷ [])
    ∷ push_data_script sha256_hash
    ∷ (0x88 ∷ [])
    ∷ push_data_script recipient_pubkey
    ∷ (0xac ∷ [])
    ∷ (op_else ∷ [])
    ∷ push_data_script (encode_script_num locktime)
    ∷ (0xb1 ∷ 0x75 ∷ [])
    ∷ push_data_script sender_pubkey
    ∷ (0xac ∷ [])
    ∷ (op_endif ∷ [])
    ∷ [])
