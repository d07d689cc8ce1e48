-- ===== src/Chain/Transaction/Tests.antt =====
-- Transactions encoded and decoded.
use browser_coin_native_mine.Prelude.{
  ◌≡◌, refl, some, ◌∷◌, replicate, arith, ◌++◌, [], none, ok, ◌+◌, length,
}
use browser_coin_native_mine.Chain.Transaction.{Transaction, transfer, encode_tx}
use browser_coin_native_mine.Chain.Transaction.Decode.{decode_tx}
use browser_coin_native_mine.Chain.Transaction.RoundTrip.{
  IsWire, transfer_wire, decode_tx-encode_tx,
}
use browser_coin_native_mine.Prelude.Int.{pos}

abbrev payment : Transaction
payment = record {
  kind = some transfer;
  from = replicate 32 1;
  to = replicate 32 2;
  amount = pos 1000;
  fee = pos 200;
  nonce = 7;
  signature = replicate 64 3;
  script_hash = none;
  lock_id = none;
  redeem_script = none;
  witness = none;
}

payment-IsWire : IsWire payment
payment-IsWire =
    transfer_wire (replicate 32 1) (replicate 32 2) 1000 200 7 (replicate 64 3) refl refl
      (omega arith) (omega arith) (omega arith) refl

decode_tx-encode_tx_example :
    decode_tx (9 ∷ (encode_tx payment ++ (8 ∷ []))) 1 ≡ ok (payment, 1 + length (encode_tx payment))
decode_tx-encode_tx_example =
    decode_tx-encode_tx payment (9 ∷ (encode_tx payment ++ (8 ∷ []))) 1 (8 ∷ []) payment-IsWire refl
