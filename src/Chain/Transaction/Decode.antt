-- ===== src/Chain/Transaction/Decode.antt =====
-- src/chain/transaction.ts, decodeTx and its three decoders. `buf.length - off` may be negative in
-- the source, where it is below the limit as 0 is here. Fields of a redeem are not checked against
-- the end of the buffer: a slice past it is shorter, and a count past it is `undefined`, which no
-- test exceeds and no loop reaches.
use browser_coin_native_mine.Prelude.{
  ℕ, zero, suc, ◌+◌, ◌-◌, not, none, some, List, [], ◌∷◌, Bytes, length, ltb, ◌==◌, if◌then◌else◌,
  Result, ok, err, ◌>>=◌, ◌>>◌, fail_if,
}
use browser_coin_native_mine.Chain.Genesis.{chain_id}
use browser_coin_native_mine.Chain.Script.Limits.{
  max_script_bytes, max_witness_items, max_push_bytes,
}
use browser_coin_native_mine.Chain.Transaction.{
  Transaction, transfer, lock, redeem, lock_tag, redeem_tag, tx_encoded_len, zero32,
}
use browser_coin_native_mine.Prelude.Int.{pos}
use browser_coin_native_mine.Util.Binary.{slice, read_u16be, read_u32be, read_u64be, byte_or_zero}

unfoldable pub decode_transfer : Bytes → ℕ → Result (Transaction × ℕ)
decode_transfer buf off = do
  fail_if (ltb (length buf - off) tx_encoded_len) "tx truncated"
  fail_if (not (read_u32be buf off == chain_id)) "tx chain id mismatch"
  amount ← read_u64be buf (off + 4 + 32 + 32)
  fee ← read_u64be buf (off + 4 + 32 + 32 + 8)
  ok (
    record {
      kind = some transfer;
      from = slice buf (off + 4) 32;
      to = slice buf (off + 4 + 32) 32;
      amount = pos amount;
      fee = pos fee;
      nonce = read_u32be buf (off + 4 + 32 + 32 + 8 + 8);
      signature = slice buf (off + 4 + 32 + 32 + 8 + 8 + 4) 64;
      script_hash = none;
      lock_id = none;
      redeem_script = none;
      witness = none;
    },
    off + 4 + 32 + 32 + 8 + 8 + 4 + 64,
  )

unfoldable pub decode_lock : Bytes → ℕ → Result (Transaction × ℕ)
decode_lock buf off = do
  fail_if (not (read_u32be buf (off + 4) == chain_id)) "lock chain id mismatch"
  amount ← read_u64be buf (off + 4 + 4 + 32)
  fee ← read_u64be buf (off + 4 + 4 + 32 + 8)
  ok (
    record {
      kind = some lock;
      from = slice buf (off + 4 + 4) 32;
      to = zero32;
      amount = pos amount;
      fee = pos fee;
      nonce = read_u32be buf (off + 4 + 4 + 32 + 8 + 8);
      signature = slice buf (off + 4 + 4 + 32 + 8 + 8 + 4 + 32) 64;
      script_hash = some (slice buf (off + 4 + 4 + 32 + 8 + 8 + 4) 32);
      lock_id = none;
      redeem_script = none;
      witness = none;
    },
    off + 4 + 4 + 32 + 8 + 8 + 4 + 32 + 64,
  )

-- The loop over the witness items, with the offset behind them.
unfoldable pub decode_witness : ℕ → Bytes → ℕ → Result (List Bytes × ℕ)
decode_witness zero buf p = ok ([], p)
decode_witness (suc n) buf p = do
  let wlen = read_u16be buf p
  fail_if (ltb max_push_bytes wlen) "witness item too large"
  (witness, next) ← decode_witness n buf (p + 2 + wlen)
  ok (slice buf (p + 2) wlen ∷ witness, next)

-- The script of a redeem and what follows it, at the offset `p` of the script's length.
unfoldable pub decode_script : Bytes → ℕ → Result (Bytes × List Bytes × ℕ)
decode_script buf p = do
  let script_len = read_u16be buf p
  fail_if (ltb max_script_bytes script_len) "redeem script too long"
  let witness_count = byte_or_zero buf (p + 2 + script_len)
  fail_if (ltb max_witness_items witness_count) "too many witness items"
  (witness, next) ← decode_witness witness_count buf (p + 2 + script_len + 1)
  ok (slice buf (p + 2) script_len, witness, next)

unfoldable pub decode_redeem : Bytes → ℕ → Result (Transaction × ℕ)
decode_redeem buf off = do
  amount ← read_u64be buf (off + 4 + 32 + 32)
  fee ← read_u64be buf (off + 4 + 32 + 32 + 8)
  (redeem_script, witness, next) ← decode_script buf (off + 4 + 32 + 32 + 8 + 8)
  ok (
    record {
      kind = some redeem;
      from = zero32;
      to = slice buf (off + 4 + 32) 32;
      amount = pos amount;
      fee = pos fee;
      nonce = 0;
      signature = [];
      script_hash = none;
      lock_id = some (slice buf (off + 4) 32);
      redeem_script = some redeem_script;
      witness = some witness;
    },
    next,
  )

unfoldable pub decode_tx : Bytes → ℕ → Result (Transaction × ℕ)
decode_tx buf off =
    if ltb (length buf - off) 4
    then err "tx truncated"
    else let tag = read_u32be buf off in
      if tag == chain_id
      then decode_transfer buf off
      else if tag == lock_tag
      then decode_lock buf off
      else if tag == redeem_tag
      then decode_redeem buf off
      else err "unknown tx tag"
