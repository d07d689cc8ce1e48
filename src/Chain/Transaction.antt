-- ===== src/Chain/Transaction.antt =====
-- src/chain/transaction.ts: the transaction, its wire encoding and its hash. Decode has the decoder,
-- Validate the structural checks, RoundTrip the theorem that joins the first two.
-- A nonce is a non-negative integer, as every decoder and every signer in the repository makes it.
pub mod Decode
pub mod Validate
pub mod RoundTrip
mod Tests
use browser_coin_native_mine.Prelude.{
  ℕ, ◌+◌, ◌%◌, Bool, true, false, Option, none, some, List, [], ◌∷◌, ◌++◌, Bytes, length, replicate,
  map, ◌==◌, if◌then◌else◌,
}
use browser_coin_native_mine.Chain.Crypto.{Crypto, sha256}
use browser_coin_native_mine.Chain.Genesis.{chain_id}
use browser_coin_native_mine.Prelude.Int.{ℤ}
use browser_coin_native_mine.Util.Binary.{concat, u16be, u32be, u64be}

pub data TxKind : Type 0 where
  transfer lock redeem : TxKind

-- A field that may be `undefined` is an option.
pub record Transaction : Type 0 where
  pub kind : Option TxKind
  pub from : Bytes
  pub to : Bytes
  pub amount : ℤ
  pub fee : ℤ
  pub nonce : ℕ
  pub signature : Bytes
  pub script_hash : Option Bytes
  pub lock_id : Option Bytes
  pub redeem_script : Option Bytes
  pub witness : Option (List Bytes)

abbrev pub value_or {ℓ} : {A : Type ℓ} → Option A → A → A
value_or none d = d
value_or (some a) d = a

abbrev pub tx_kind : Transaction → TxKind
tx_kind tx = value_or tx.kind transfer

abbrev is_lock_kind : TxKind → Bool
is_lock_kind lock = true
is_lock_kind transfer = false
is_lock_kind redeem = false

abbrev is_redeem_kind : TxKind → Bool
is_redeem_kind redeem = true
is_redeem_kind transfer = false
is_redeem_kind lock = false

abbrev pub is_lock : Transaction → Bool
is_lock tx = is_lock_kind (tx_kind tx)

abbrev pub is_redeem : Transaction → Bool
is_redeem tx = is_redeem_kind (tx_kind tx)

abbrev pub lock_tag : ℕ
lock_tag = 0x4c4f434b

abbrev pub redeem_tag : ℕ
redeem_tag = 0x52444d31

abbrev pub zero32 : Bytes
zero32 = replicate 32 0

abbrev pub tx_preimage_len : ℕ
tx_preimage_len = 4 + 32 + 32 + 8 + 8 + 4

abbrev pub tx_encoded_len : ℕ
tx_encoded_len = tx_preimage_len + 64

unfoldable pub tx_preimage : Transaction → Bytes
tx_preimage tx =
    concat (u32be chain_id ∷ tx.from ∷ tx.to ∷ u64be tx.amount ∷ u64be tx.fee ∷ u32be tx.nonce ∷ [])

unfoldable pub encode_transfer : Transaction → Bytes
encode_transfer tx = concat (tx_preimage tx ∷ tx.signature ∷ [])

unfoldable pub lock_preimage : Transaction → Bytes
lock_preimage tx = concat (
    u32be lock_tag
    ∷ u32be chain_id
    ∷ tx.from
    ∷ u64be tx.amount
    ∷ u64be tx.fee
    ∷ u32be tx.nonce
    ∷ value_or tx.script_hash zero32
    ∷ [])

unfoldable pub encode_lock : Transaction → Bytes
encode_lock tx = concat (lock_preimage tx ∷ tx.signature ∷ [])

-- What the signatures of a redeem commit to: the lock, the destination, the values and the script.
unfoldable pub redeem_preimage : Transaction → Bytes
redeem_preimage tx = concat (
    u32be redeem_tag
    ∷ u32be chain_id
    ∷ value_or tx.lock_id zero32
    ∷ tx.to
    ∷ u64be tx.amount
    ∷ u64be tx.fee
    ∷ value_or tx.redeem_script []
    ∷ [])

-- `for (const w of witness) parts.push(u16be(w.length), w);`
unfoldable pub encode_witness : List Bytes → Bytes
encode_witness [] = []
encode_witness (w ∷ witness) = u16be (length w) ++ (w ++ encode_witness witness)

-- The count of witness items is stored into one byte.
unfoldable pub encode_redeem : Transaction → Bytes
encode_redeem tx =
    let redeem_script = value_or tx.redeem_script [] in
    let witness = value_or tx.witness [] in
    concat (
      u32be redeem_tag
      ∷ value_or tx.lock_id zero32
      ∷ tx.to
      ∷ u64be tx.amount
      ∷ u64be tx.fee
      ∷ u16be (length redeem_script)
      ∷ redeem_script
      ∷ (length witness % 256 ∷ [])
      ∷ encode_witness witness
      ∷ [])

unfoldable pub encode_as : TxKind → Transaction → Bytes
encode_as lock tx = encode_lock tx
encode_as redeem tx = encode_redeem tx
encode_as transfer tx = encode_transfer tx

unfoldable pub encode_tx : Transaction → Bytes
encode_tx tx = encode_as (tx_kind tx) tx

unfoldable pub encoded_tx_len : Transaction → ℕ
encoded_tx_len tx = length (encode_tx tx)

module _ ⦃c : Crypto⦄ where
  unfoldable pub redeem_sighash : Transaction → Bytes
  redeem_sighash tx = sha256 (redeem_preimage tx)

  unfoldable pub tx_hash : Transaction → Bytes
  tx_hash tx = sha256 (encode_tx tx)
