-- ===== src/Chain/Block/RoundTrip.antt =====
-- decodeBlock after encodeBlock, and the size of a block.
use browser_coin_native_mine.Prelude.{
  ℕ, ◌≡◌, refl, Bytes, List, ◌<◌, length, drop, ◌^◌, ◌++◌, arith, All, ok, ◌∷◌, length-append,
  drop-length-append, ◌+◌, ap, append_assoc, ◌∙◌, ◌==◌, append-nil, true, [], sym, ==_iff,
}
use browser_coin_native_mine.Chain.Block.{
  block_size, decode_block, encode_header, decode_header, encode_txs, decode_txs, BlockHeader,
  encode_block, tx_bytes, Block, header_len,
}
use browser_coin_native_mine.Chain.Transaction.{encoded_tx_len, Transaction, encode_tx}
use browser_coin_native_mine.Chain.Transaction.RoundTrip.{IsWire, enough, decode_tx-encode_tx}
use browser_coin_native_mine.Prelude.Int.{pos}
use browser_coin_native_mine.Util.Binary.{concat, u32be, u64be}
use browser_coin_native_mine.Util.Binary.Cursor.{
  length-u32be, read_u32be_lem, length-u64be, drop-add, slice_lem, read_u64be_lem,
}

-- A header whose fields have the sizes of the wire format.
pub record IsHeader (h : BlockHeader) : Type 0 where
  pub height_fits : h.height < 2 ^ 32
  pub prev_hash_fits : length h.prev_hash ≡ 32
  pub tx_root_fits : length h.tx_root ≡ 32
  pub state_root_fits : length h.state_root ≡ 32
  pub timestamp_fits : h.timestamp < 2 ^ 64
  pub difficulty_fits : h.difficulty < 2 ^ 32
  pub nonce_fits : h.nonce < 2 ^ 32
  pub miner_fits : length h.miner ≡ 32

encode_header_fields :
    (h : BlockHeader) (rest : Bytes)
    → encode_header h ++ rest
      ≡ u32be h.height
        ++ (h.prev_hash
            ++ (h.tx_root
                ++ (h.state_root
                    ++ (u64be (pos h.timestamp)
                        ++ (u32be h.difficulty ++ (u32be h.nonce ++ (h.miner ++ rest)))))))
unfolding encode_header concat
encode_header_fields h rest = simp (append_assoc, append-nil)

pub length-encode_header : (h : BlockHeader) → IsHeader h → length (encode_header h) ≡ header_len
unfolding encode_header concat
length-encode_header h w = omega (
  arith,
  length-append {0},
  length-u32be,
  length-u64be,
  w.prev_hash_fits,
  w.tx_root_fits,
  w.state_root_fits,
  w.miner_fits,
)

-- An encoded header is read back, wherever it stands in a buffer.
pub decode_header-encode_header :
    (h : BlockHeader) (buf : Bytes) (off : ℕ) (rest : Bytes)
    → IsHeader h
    → drop off buf ≡ encode_header h ++ rest
    → decode_header buf off ≡ ok h
unfolding decode_header
decode_header-encode_header h buf off rest w e =
    let fits =
      enough buf off header_len (encode_header h) rest e
        (omega (arith, length-encode_header h w)) in
    let (height_read, e₁) =
      read_u32be_lem buf off h.height _ (e ∙ encode_header_fields h rest) w.height_fits in
    let (prev_read, e₂) = slice_lem buf (off + 4) 32 h.prev_hash _ e₁ w.prev_hash_fits in
    let (tx_read, e₃) = slice_lem buf (off + 4 + 32) 32 h.tx_root _ e₂ w.tx_root_fits in
    let (state_read, e₄) =
      slice_lem buf (off + 4 + 32 + 32) 32 h.state_root _ e₃ w.state_root_fits in
    let (time_read, e₅) =
      read_u64be_lem buf (off + 4 + 32 + 32 + 32) h.timestamp _ e₄ w.timestamp_fits in
    let (diff_read, e₆) =
      read_u32be_lem buf (off + 4 + 32 + 32 + 32 + 8) h.difficulty _ e₅ w.difficulty_fits in
    let (nonce_read, e₇) =
      read_u32be_lem buf (off + 4 + 32 + 32 + 32 + 8 + 4) h.nonce _ e₆ w.nonce_fits in
    let (miner_read, e₈) =
      slice_lem buf (off + 4 + 32 + 32 + 32 + 8 + 4 + 4) 32 h.miner _ e₇ w.miner_fits in
    rw (
      fits, height_read, prev_read, tx_read, state_read, time_read, diff_read, nonce_read,
      miner_read,
    )

decode_txs-encode_txs :
    (txs : List Transaction) (buf : Bytes) (p : ℕ) (rest : Bytes)
    → All IsWire txs
    → drop p buf ≡ encode_txs txs ++ rest
    → decode_txs (length txs) buf p ≡ ok (txs, p + length (encode_txs txs))
unfolding decode_txs encode_txs
decode_txs-encode_txs [] buf p rest w e = ap (λ q. ok ([], q)) (omega arith)
decode_txs-encode_txs (t ∷ txs) buf p rest w e =
    let e' : drop p buf ≡ encode_tx t ++ (encode_txs txs ++ rest) =
      e ∙ append_assoc (encode_tx t) (encode_txs txs) rest in
    let next : drop (p + length (encode_tx t)) buf ≡ encode_txs txs ++ rest =
      drop-add p (length (encode_tx t)) buf
      ∙ rw e'
          (drop-length-append (length (encode_tx t)) (encode_tx t) (encode_txs txs ++ rest) refl) in
    rw
      (
        decode_tx-encode_tx t buf p _ w.0 e',
        decode_txs-encode_txs txs buf (p + length (encode_tx t)) rest w.1 next,
      )
      (ap (λ q. ok (t ∷ txs, q)) (omega (arith, length-append (encode_tx t) (encode_txs txs))))

length-encode_txs : (txs : List Transaction) → length (encode_txs txs) ≡ tx_bytes txs
unfolding encode_txs tx_bytes encoded_tx_len
length-encode_txs [] = refl
length-encode_txs (t ∷ txs) =
    length-append (encode_tx t) (encode_txs txs)
    ∙ ap (λ n. length (encode_tx t) + n) (length-encode_txs txs)

-- The size that a block is said to have is the length of its encoding, if its header has the sizes
-- of the wire format.
pub block_size_lem : (b : Block) → IsHeader b.header → block_size b ≡ length (encode_block b)
unfolding block_size encode_block
block_size_lem b w = omega (
  arith,
  length-append {0},
  length-u32be (length b.transactions),
  length-encode_header b.header w,
  length-encode_txs b.transactions,
)

-- A block whose header and transactions have the sizes of the wire format, with fewer than 2 ^ 32
-- transactions, is read back from its encoding.
pub decode_block-encode_block :
    (b : Block)
    → IsHeader b.header
    → All IsWire b.transactions
    → length b.transactions < 2 ^ 32
    → decode_block (encode_block b) ≡ ok b
unfolding decode_block encode_block
decode_block-encode_block b w ws n =
    let buf =
      encode_header b.header ++ (u32be (length b.transactions) ++ encode_txs b.transactions) in
    let e₁ : drop header_len buf ≡ u32be (length b.transactions) ++ encode_txs b.transactions =
      drop-length-append header_len (encode_header b.header) _ (length-encode_header b.header w) in
    let (count, e₂) =
      read_u32be_lem buf header_len (length b.transactions) (encode_txs b.transactions) e₁ n in
    let all_read : length (encode_txs b.transactions) + 152 ≡ length buf = omega (
      arith,
      length-append {0},
      length-u32be (length b.transactions),
      length-encode_header b.header w,
    ) in
    let at_end : (header_len + 4 + length (encode_txs b.transactions) == length buf) ≡ true =
      (==_iff _ _).1 (omega (arith, all_read)) in
    rw (
      decode_header-encode_header b.header buf 0
          (u32be (length b.transactions) ++ encode_txs b.transactions) w refl,
      count,
      decode_txs-encode_txs b.transactions buf (header_len + 4) [] ws
          (e₂ ∙ sym (append-nil (encode_txs b.transactions))),
      at_end,
    )
