-- ===== src/Chain/Transaction/RoundTrip.antt =====
-- decodeTx after encodeTx, anywhere in a buffer.
use browser_coin_native_mine.Prelude.{
  refl, ◌%◌, ℕ, ◌+◌, ◌-◌, ◌^◌, ◌<◌, ◌≡◌, ◌∙◌, false, none, some, ◌++◌, Bytes, length, ltb, ok,
  append_assoc, append-nil, arith, drop, length-append, ◌≤◌, ap, sym, length-drop, List, ◌∷◌, [],
}
use browser_coin_native_mine.Chain.Genesis.{chain_id}
use browser_coin_native_mine.Chain.Script.Limits.{
  AreItems, max_script_bytes, max_witness_items, max_push_bytes,
}
use browser_coin_native_mine.Chain.Transaction.{
  Transaction, transfer, tx_encoded_len, encode_transfer, tx_preimage, encode_lock, lock,
  encode_witness, lock_preimage, lock_tag, zero32, encode_redeem, redeem, redeem_tag, encode_tx,
  encode_as,
}
use browser_coin_native_mine.Chain.Transaction.Decode.{
  decode_transfer, decode_witness, decode_lock, decode_redeem, decode_script, decode_tx,
}
use browser_coin_native_mine.Prelude.Int.{pos}
use browser_coin_native_mine.Util.Binary.{concat, u32be, u64be, read_u32be, u16be}
use browser_coin_native_mine.Util.Binary.Cursor.{
  slice_lem, read_u32be_lem, read_u64be_lem, length-u32be, length-u16be, length-u64be,
  read_u16be_lem, byte_or_zero_lem,
}

-- The fields of a transfer, as the decoder gives them.
abbrev transfer_tx : Bytes → Bytes → ℕ → ℕ → ℕ → Bytes → Transaction
transfer_tx from to amount fee nonce signature = record {
  kind = some transfer;
  from = from;
  to = to;
  amount = pos amount;
  fee = pos fee;
  nonce = nonce;
  signature = signature;
  script_hash = none;
  lock_id = none;
  redeem_script = none;
  witness = none;
}

encode_transfer_fields :
    (from to : Bytes) (amount fee nonce : ℕ) (signature rest : Bytes)
    → encode_transfer (transfer_tx from to amount fee nonce signature) ++ rest
      ≡ u32be chain_id
        ++ (from
            ++ (to
                ++ (u64be (pos amount)
                    ++ (u64be (pos fee) ++ (u32be nonce ++ (signature ++ rest))))))
unfolding encode_transfer tx_preimage concat
encode_transfer_fields from to amount fee nonce signature rest = simp (append_assoc, append-nil)

decode_transfer-encode :
    (buf : Bytes) (off : ℕ) (from to : Bytes) (amount fee nonce : ℕ) (signature rest : Bytes)
    → ltb (length buf - off) tx_encoded_len ≡ false
    → drop off buf ≡ encode_transfer (transfer_tx from to amount fee nonce signature) ++ rest
    → length from ≡ 32
    → length to ≡ 32
    → amount < 2 ^ 64
    → fee < 2 ^ 64
    → nonce < 2 ^ 32
    → length signature ≡ 64
    → decode_transfer buf off
      ≡ ok (transfer_tx from to amount fee nonce signature, off + 4 + 32 + 32 + 8 + 8 + 4 + 64)
unfolding decode_transfer
decode_transfer-encode buf off from to amount fee nonce signature rest fits e lf lt la le ln ls =
    let (chain, e₁) =
      read_u32be_lem buf off chain_id _
        (e ∙ encode_transfer_fields from to amount fee nonce signature rest) (omega arith) in
    let (from_read, e₂) = slice_lem buf (off + 4) 32 from _ e₁ lf in
    let (to_read, e₃) = slice_lem buf (off + 4 + 32) 32 to _ e₂ lt in
    let (amount_read, e₄) = read_u64be_lem buf (off + 4 + 32 + 32) amount _ e₃ la in
    let (fee_read, e₅) = read_u64be_lem buf (off + 4 + 32 + 32 + 8) fee _ e₄ le in
    let (nonce_read, e₆) = read_u32be_lem buf (off + 4 + 32 + 32 + 8 + 8) nonce _ e₅ ln in
    let (signature_read, e₇) = slice_lem buf (off + 4 + 32 + 32 + 8 + 8 + 4) 64 signature _ e₆ ls in
    rw (fits, chain, from_read, to_read, amount_read, fee_read, nonce_read, signature_read)

length-encode_transfer :
    (from to : Bytes) (amount fee nonce : ℕ) (signature : Bytes)
    → length from ≡ 32
    → length to ≡ 32
    → length signature ≡ 64
    → length (encode_transfer (transfer_tx from to amount fee nonce signature)) ≡ tx_encoded_len
unfolding encode_transfer tx_preimage concat
length-encode_transfer from to amount fee nonce signature lf lt ls =
    omega (arith, length-append {0}, length-u32be, length-u64be)

-- The fields of a lock, as the decoder gives them.
abbrev lock_tx : Bytes → ℕ → ℕ → ℕ → Bytes → Bytes → Transaction
lock_tx from amount fee nonce script_hash signature = record {
  kind = some lock;
  from = from;
  to = zero32;
  amount = pos amount;
  fee = pos fee;
  nonce = nonce;
  signature = signature;
  script_hash = some script_hash;
  lock_id = none;
  redeem_script = none;
  witness = none;
}

encode_lock_fields :
    (from : Bytes) (amount fee nonce : ℕ) (script_hash signature rest : Bytes)
    → encode_lock (lock_tx from amount fee nonce script_hash signature) ++ rest
      ≡ u32be lock_tag
        ++ (u32be chain_id
            ++ (from
                ++ (u64be (pos amount)
                    ++ (u64be (pos fee) ++ (u32be nonce ++ (script_hash ++ (signature ++ rest)))))))
unfolding encode_lock lock_preimage concat
encode_lock_fields from amount fee nonce script_hash signature rest =
    simp (append_assoc, append-nil)

length-encode_lock :
    (from : Bytes) (amount fee nonce : ℕ) (script_hash signature : Bytes)
    → length from ≡ 32
    → length script_hash ≡ 32
    → length signature ≡ 64
    → length (encode_lock (lock_tx from amount fee nonce script_hash signature)) ≡ 156
unfolding encode_lock lock_preimage concat
length-encode_lock from amount fee nonce script_hash signature lf lh ls =
    omega (arith, length-append {0}, length-u32be, length-u64be)

decode_lock-encode :
    (buf : Bytes) (off : ℕ) (from : Bytes) (amount fee nonce : ℕ)
    (script_hash signature rest : Bytes)
    → drop off buf ≡ encode_lock (lock_tx from amount fee nonce script_hash signature) ++ rest
    → length from ≡ 32
    → amount < 2 ^ 64
    → fee < 2 ^ 64
    → nonce < 2 ^ 32
    → length script_hash ≡ 32
    → length signature ≡ 64
    → decode_lock buf off
      ≡ ok (
        lock_tx from amount fee nonce script_hash signature,
        off + 4 + 4 + 32 + 8 + 8 + 4 + 32 + 64,
      )
unfolding decode_lock
decode_lock-encode buf off from amount fee nonce script_hash signature rest e lf la le ln lh ls =
    let (tag, e₀) =
      read_u32be_lem buf off lock_tag _
        (e ∙ encode_lock_fields from amount fee nonce script_hash signature rest) (omega arith) in
    let (chain, e₁) = read_u32be_lem buf (off + 4) chain_id _ e₀ (omega arith) in
    let (from_read, e₂) = slice_lem buf (off + 4 + 4) 32 from _ e₁ lf in
    let (amount_read, e₃) = read_u64be_lem buf (off + 4 + 4 + 32) amount _ e₂ la in
    let (fee_read, e₄) = read_u64be_lem buf (off + 4 + 4 + 32 + 8) fee _ e₃ le in
    let (nonce_read, e₅) = read_u32be_lem buf (off + 4 + 4 + 32 + 8 + 8) nonce _ e₄ ln in
    let (hash_read, e₆) = slice_lem buf (off + 4 + 4 + 32 + 8 + 8 + 4) 32 script_hash _ e₅ lh in
    let (signature_read, e₇) =
      slice_lem buf (off + 4 + 4 + 32 + 8 + 8 + 4 + 32) 64 signature _ e₆ ls in
    rw (chain, from_read, amount_read, fee_read, nonce_read, hash_read, signature_read)

length-encode_witness-cons :
    (w : Bytes) (witness : List Bytes)
    → length (encode_witness (w ∷ witness)) ≡ 2 + length w + length (encode_witness witness)
unfolding encode_witness
length-encode_witness-cons w witness = omega (arith, length-append {0}, length-u16be)

length-encode_witness-nil : (p : ℕ) → p ≡ p + length (encode_witness [])
unfolding encode_witness
length-encode_witness-nil p = omega arith

encode_witness_fields :
    (w : Bytes) (witness : List Bytes) (rest : Bytes)
    → encode_witness (w ∷ witness) ++ rest
      ≡ u16be (length w) ++ (w ++ (encode_witness witness ++ rest))
unfolding encode_witness
encode_witness_fields w witness rest = simp append_assoc

small_item : (len : ℕ) → len ≤ max_push_bytes → ltb max_push_bytes len ≡ false
small_item len h = ground arith

decode_witness-encode :
    (witness : List Bytes) (buf : Bytes) (p : ℕ) (rest : Bytes)
    → AreItems witness
    → drop p buf ≡ encode_witness witness ++ rest
    → decode_witness (length witness) buf p ≡ ok (witness, p + length (encode_witness witness))
unfolding decode_witness
decode_witness-encode [] buf p rest small e = ap (λ q. ok ([], q)) (length-encode_witness-nil p)
decode_witness-encode (w ∷ witness) buf p rest small e =
    let (len_read, e₁) =
      read_u16be_lem buf p (length w) _ (e ∙ encode_witness_fields w witness rest) (omega arith) in
    let (item_read, e₂) = slice_lem buf (p + 2) (length w) w _ e₁ refl in
    rw
      (
        len_read,
        small_item (length w) small.0,
        item_read,
        decode_witness-encode witness buf (p + 2 + length w) rest small.1 e₂,
      )
      (ap (λ q. ok (w ∷ witness, q)) (omega (arith, length-encode_witness-cons w witness)))

-- The fields of a redeem, as the decoder gives them.
abbrev redeem_tx : Bytes → Bytes → ℕ → ℕ → Bytes → List Bytes → Transaction
redeem_tx lock_id to amount fee redeem_script witness = record {
  kind = some redeem;
  from = zero32;
  to = to;
  amount = pos amount;
  fee = pos fee;
  nonce = 0;
  signature = [];
  script_hash = none;
  lock_id = some lock_id;
  redeem_script = some redeem_script;
  witness = some witness;
}

encode_redeem_fields :
    (lock_id to : Bytes) (amount fee : ℕ) (redeem_script : Bytes) (witness : List Bytes)
    (rest : Bytes)
    → encode_redeem (redeem_tx lock_id to amount fee redeem_script witness) ++ rest
      ≡ u32be redeem_tag
        ++ (lock_id
            ++ (to
                ++ (u64be (pos amount)
                    ++ (u64be (pos fee)
                        ++ (u16be (length redeem_script)
                            ++ (redeem_script
                                ++ (length witness % 256 ∷ (encode_witness witness ++ rest))))))))
unfolding encode_redeem concat
encode_redeem_fields lock_id to amount fee redeem_script witness rest =
    simp (append_assoc, append-nil)

length-encode_redeem :
    (lock_id to : Bytes) (amount fee : ℕ) (redeem_script : Bytes) (witness : List Bytes)
    → length lock_id ≡ 32
    → length to ≡ 32
    → length (encode_redeem (redeem_tx lock_id to amount fee redeem_script witness))
      ≡ 4 + 32 + 32 + 8 + 8 + 2 + length redeem_script + 1 + length (encode_witness witness)
unfolding encode_redeem concat
length-encode_redeem lock_id to amount fee redeem_script witness ll lt =
    omega (arith, length-append {0}, length-u32be, length-u64be, length-u16be)

script_fits : (len : ℕ) → len ≤ max_script_bytes → ltb max_script_bytes len ≡ false
script_fits len h = ground arith

count_fits : (n : ℕ) → n ≤ max_witness_items → ltb max_witness_items n ≡ false
count_fits n h = ground arith

decode_script-encode :
    (buf : Bytes) (p : ℕ) (redeem_script : Bytes) (witness : List Bytes) (rest : Bytes)
    → length redeem_script ≤ max_script_bytes
    → length witness ≤ max_witness_items
    → AreItems witness
    → drop p buf
      ≡ u16be (length redeem_script)
        ++ (redeem_script ++ (length witness % 256 ∷ (encode_witness witness ++ rest)))
    → decode_script buf p
      ≡ ok (
        redeem_script,
        witness,
        p + 2 + length redeem_script + 1 + length (encode_witness witness),
      )
unfolding decode_script
decode_script-encode buf p redeem_script witness rest ls lw small e =
    let (len_read, e₁) = read_u16be_lem buf p (length redeem_script) _ e (omega arith) in
    let (script_read, e₂) = slice_lem buf (p + 2) (length redeem_script) redeem_script _ e₁ refl in
    let (count_read, e₃) =
      byte_or_zero_lem buf (p + 2 + length redeem_script) (length witness % 256) _ e₂ in
    let count : length witness % 256 ≡ length witness = omega arith in
    rw (
      len_read,
      script_fits _ ls,
      script_read,
      count_read ∙ count,
      count_fits _ lw,
      decode_witness-encode witness buf (p + 2 + length redeem_script + 1) rest small e₃,
    )

decode_redeem-encode :
    (buf : Bytes) (off : ℕ) (lock_id to : Bytes) (amount fee : ℕ) (redeem_script : Bytes)
    (witness : List Bytes) (rest : Bytes)
    → drop off buf ≡ encode_redeem (redeem_tx lock_id to amount fee redeem_script witness) ++ rest
    → length lock_id ≡ 32
    → length to ≡ 32
    → amount < 2 ^ 64
    → fee < 2 ^ 64
    → length redeem_script ≤ max_script_bytes
    → length witness ≤ max_witness_items
    → AreItems witness
    → decode_redeem buf off
      ≡ ok (
        redeem_tx lock_id to amount fee redeem_script witness,
        off + 4 + 32 + 32 + 8 + 8 + 2 + length redeem_script + 1 + length (encode_witness witness),
      )
unfolding decode_redeem
decode_redeem-encode buf off lock_id to amount fee redeem_script witness rest e ll lt la le ls lw
      small =
    let (tag, e₀) =
      read_u32be_lem buf off redeem_tag _
        (e ∙ encode_redeem_fields lock_id to amount fee redeem_script witness rest) (omega arith) in
    let (lock_read, e₁) = slice_lem buf (off + 4) 32 lock_id _ e₀ ll in
    let (to_read, e₂) = slice_lem buf (off + 4 + 32) 32 to _ e₁ lt in
    let (amount_read, e₃) = read_u64be_lem buf (off + 4 + 32 + 32) amount _ e₂ la in
    let (fee_read, e₄) = read_u64be_lem buf (off + 4 + 32 + 32 + 8) fee _ e₃ le in
    rw (
      lock_read,
      to_read,
      amount_read,
      fee_read,
      decode_script-encode buf (off + 4 + 32 + 32 + 8 + 8) redeem_script witness rest ls lw small
          e₄,
    )

-- A transaction as a decoder makes it: the fields of its kind have their sizes, and the other
-- fields are empty.
pub data IsWire : Transaction → Type 0 where
  transfer_wire :
      (from to : Bytes) (amount fee nonce : ℕ) (signature : Bytes)
      → length from ≡ 32
      → length to ≡ 32
      → amount < 2 ^ 64
      → fee < 2 ^ 64
      → nonce < 2 ^ 32
      → length signature ≡ 64
      → IsWire (transfer_tx from to amount fee nonce signature)
  lock_wire :
      (from : Bytes) (amount fee nonce : ℕ) (script_hash signature : Bytes)
      → length from ≡ 32
      → amount < 2 ^ 64
      → fee < 2 ^ 64
      → nonce < 2 ^ 32
      → length script_hash ≡ 32
      → length signature ≡ 64
      → IsWire (lock_tx from amount fee nonce script_hash signature)
  redeem_wire :
      (lock_id to : Bytes) (amount fee : ℕ) (redeem_script : Bytes) (witness : List Bytes)
      → length lock_id ≡ 32
      → length to ≡ 32
      → amount < 2 ^ 64
      → fee < 2 ^ 64
      → length redeem_script ≤ max_script_bytes
      → length witness ≤ max_witness_items
      → AreItems witness
      → IsWire (redeem_tx lock_id to amount fee redeem_script witness)

-- The bytes from the cursor on are as many as those that stand there.
pub enough :
    (buf : Bytes) (off n : ℕ) (x rest : Bytes)
    → drop off buf ≡ x ++ rest
    → n ≤ length x
    → ltb (length buf - off) n ≡ false
enough buf off n x rest e h =
    let total : length buf - off ≡ length x + length rest =
      sym (length-drop off buf) ∙ ap length e ∙ length-append x rest in
    rw total (ground arith)

-- The tag of an encoding, where it starts.
tag_of :
    (buf : Bytes) (off tag : ℕ) (x rest : Bytes) (fields : Bytes)
    → drop off buf ≡ x ++ rest
    → x ++ rest ≡ u32be tag ++ fields
    → tag < 2 ^ 32
    → read_u32be buf off ≡ tag
tag_of buf off tag x rest fields e f h = (read_u32be_lem buf off tag fields (e ∙ f) h).0

-- What the encoder writes for a transaction that a decoder could have made, the decoder reads back,
-- wherever it stands in a buffer and whatever follows, and it stops right behind it.
pub decode_tx-encode_tx :
    (tx : Transaction) (buf : Bytes) (off : ℕ) (rest : Bytes)
    → IsWire tx
    → drop off buf ≡ encode_tx tx ++ rest
    → decode_tx buf off ≡ ok (tx, off + length (encode_tx tx))
unfolding decode_tx encode_tx encode_as
decode_tx-encode_tx _ buf off rest
      (transfer_wire from to amount fee nonce signature lf lt la le ln ls) e =
    let len : length (encode_transfer (transfer_tx from to amount fee nonce signature))
        ≡ tx_encoded_len =
      length-encode_transfer from to amount fee nonce signature lf lt ls in
    rw
      (
        enough buf off 4 _ rest e (omega (arith, len)),
        tag_of buf off chain_id _ rest _ e
            (encode_transfer_fields from to amount fee nonce signature rest) (omega arith),
        decode_transfer-encode buf off from to amount fee nonce signature rest
            (enough buf off tx_encoded_len _ rest e (omega (arith, len))) e lf lt la le ln ls,
      )
      (ap (λ q. ok (transfer_tx from to amount fee nonce signature, q)) (omega (arith, len)))
decode_tx-encode_tx _ buf off rest
      (lock_wire from amount fee nonce script_hash signature lf la le ln lh ls) e =
    let len : length (encode_lock (lock_tx from amount fee nonce script_hash signature)) ≡ 156 =
      length-encode_lock from amount fee nonce script_hash signature lf lh ls in
    rw
      (
        enough buf off 4 _ rest e (omega (arith, len)),
        tag_of buf off lock_tag _ rest _ e
            (encode_lock_fields from amount fee nonce script_hash signature rest) (omega arith),
        decode_lock-encode buf off from amount fee nonce script_hash signature rest e lf la le ln lh
            ls,
      )
      (ap (λ q. ok (lock_tx from amount fee nonce script_hash signature, q)) (omega (arith, len)))
decode_tx-encode_tx _ buf off rest
      (redeem_wire lock_id to amount fee redeem_script witness ll lt la le ls lw small) e =
    let len = length-encode_redeem lock_id to amount fee redeem_script witness ll lt in
    rw
      (
        enough buf off 4 _ rest e (omega (arith, len)),
        tag_of buf off redeem_tag _ rest _ e
            (encode_redeem_fields lock_id to amount fee redeem_script witness rest) (omega arith),
        decode_redeem-encode buf off lock_id to amount fee redeem_script witness rest e ll lt la le
            ls lw small,
      )
      (ap (λ q. ok (redeem_tx lock_id to amount fee redeem_script witness, q)) (omega (arith, len)))
