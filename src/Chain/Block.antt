-- ===== src/Chain/Block.antt =====
-- src/chain/block.ts: headers and blocks, their wire encoding, hash and size. RoundTrip has the
-- theorems. A timestamp is a number of seconds, and `Number(readU64be(…))` is exact below 2 ^ 53.
pub mod RoundTrip
mod Tests
use browser_coin_native_mine.Prelude.{
  ℕ, zero, suc, Bytes, ◌+◌, List, Result, ◌++◌, ok, ◌∷◌, length, map, [], ◌>>=◌, ◌>>◌, fail_if, not,
  ltb, ◌==◌, ◌-◌,
}
use browser_coin_native_mine.Chain.Crypto.{Crypto, sha256}
use browser_coin_native_mine.Chain.Transaction.{Transaction, encode_tx, encoded_tx_len}
use browser_coin_native_mine.Chain.Transaction.Decode.{decode_tx}
use browser_coin_native_mine.Prelude.Int.{pos}
use browser_coin_native_mine.Util.Binary.{concat, u32be, u64be, read_u32be, read_u64be, slice}
use browser_coin_native_mine.Util.Hex.{Hex, bytes_to_hex}
use browser_coin_native_mine.Util.Merkle.{merkle_root}

pub record BlockHeader : Type 0 where
  pub height : ℕ
  pub prev_hash : Bytes
  pub tx_root : Bytes
  pub state_root : Bytes
  pub timestamp : ℕ
  pub difficulty : ℕ
  pub nonce : ℕ
  pub miner : Bytes

abbrev pub header_len : ℕ
header_len = 4 + 32 + 32 + 32 + 8 + 4 + 4 + 32

pub record Block : Type 0 where
  pub header : BlockHeader
  pub transactions : List Transaction

unfoldable pub encode_header : BlockHeader → Bytes
encode_header h = concat (
    u32be h.height
    ∷ h.prev_hash
    ∷ h.tx_root
    ∷ h.state_root
    ∷ u64be (pos h.timestamp)
    ∷ u32be h.difficulty
    ∷ u32be h.nonce
    ∷ h.miner
    ∷ [])

unfoldable pub decode_header : Bytes → ℕ → Result BlockHeader
decode_header buf off = do
  fail_if (ltb (length buf - off) header_len) "header truncated"
  timestamp ← read_u64be buf (off + 4 + 32 + 32 + 32)
  ok (record {
    height = read_u32be buf off;
    prev_hash = slice buf (off + 4) 32;
    tx_root = slice buf (off + 4 + 32) 32;
    state_root = slice buf (off + 4 + 32 + 32) 32;
    timestamp = timestamp;
    difficulty = read_u32be buf (off + 4 + 32 + 32 + 32 + 8);
    nonce = read_u32be buf (off + 4 + 32 + 32 + 32 + 8 + 4);
    miner = slice buf (off + 4 + 32 + 32 + 32 + 8 + 4 + 4) 32;
  })

-- The loop `for (const t of b.transactions) parts.push(encodeTx(t));`
unfoldable pub encode_txs : List Transaction → Bytes
encode_txs [] = []
encode_txs (t ∷ txs) = encode_tx t ++ encode_txs txs

unfoldable pub encode_block : Block → Bytes
encode_block b =
    encode_header b.header ++ (u32be (length b.transactions) ++ encode_txs b.transactions)

-- The loop over the transactions, with the offset behind them.
unfoldable pub decode_txs : ℕ → Bytes → ℕ → Result (List Transaction × ℕ)
decode_txs zero buf p = ok ([], p)
decode_txs (suc n) buf p = do
  (tx, next) ← decode_tx buf p
  (txs, end) ← decode_txs n buf next
  ok (tx ∷ txs, end)

unfoldable pub decode_block : Bytes → Result Block
decode_block buf = do
  header ← decode_header buf 0
  (transactions, p) ← decode_txs (read_u32be buf header_len) buf (header_len + 4)
  fail_if (not (p == length buf)) "trailing bytes in block"
  ok (record { header = header; transactions = transactions })

unfoldable pub tx_bytes : List Transaction → ℕ
tx_bytes [] = 0
tx_bytes (t ∷ txs) = encoded_tx_len t + tx_bytes txs

unfoldable pub block_size : Block → ℕ
block_size b = header_len + 4 + tx_bytes b.transactions

module _ ⦃c : Crypto⦄ where
  unfoldable pub hash_header : BlockHeader → Bytes
  hash_header h = sha256 (encode_header h)

  unfoldable pub block_hash_hex : BlockHeader → Hex
  block_hash_hex h = bytes_to_hex (hash_header h)

  abbrev pub encode_leaf : Transaction → Bytes
  encode_leaf t = encode_tx t

  unfoldable pub compute_tx_root : List Transaction → Bytes
  compute_tx_root txs = merkle_root (map encode_leaf txs)
