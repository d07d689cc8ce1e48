-- ===== src/Chain/Block/Tests.antt =====
-- A block encoded and decoded.
use browser_coin_native_mine.Prelude.{◌≡◌, refl, arith, replicate, ◌∷◌, some, [], ok, none}
use browser_coin_native_mine.Chain.Block.{decode_block, Block, BlockHeader, encode_block}
use browser_coin_native_mine.Chain.Block.RoundTrip.{IsHeader, decode_block-encode_block}
use browser_coin_native_mine.Chain.Transaction.{Transaction, transfer}
use browser_coin_native_mine.Chain.Transaction.RoundTrip.{IsWire, transfer_wire}
use browser_coin_native_mine.Prelude.Int.{pos}

abbrev header : BlockHeader
header = record {
  height = 12;
  prev_hash = replicate 32 1;
  tx_root = replicate 32 2;
  state_root = replicate 32 3;
  timestamp = 1_800_000_000;
  difficulty = 0x20020000;
  nonce = 99;
  miner = replicate 32 4;
}

abbrev payment : Transaction
payment = record {
  kind = some transfer;
  from = replicate 32 1;
  to = replicate 32 2;
  amount = pos 1000;
  fee = pos 200;
  nonce = 7;
  signature = replicate 64 3;
  script_hash = none;
  lock_id = none;
  redeem_script = none;
  witness = none;
}

abbrev block : Block
block = record { header = header; transactions = payment ∷ [] }

header-IsHeader : IsHeader header
header-IsHeader = record {
  height_fits = omega arith;
  prev_hash_fits = refl;
  tx_root_fits = refl;
  state_root_fits = refl;
  timestamp_fits = omega arith;
  difficulty_fits = omega arith;
  nonce_fits = omega arith;
  miner_fits = refl;
}

payment-IsWire : IsWire payment
payment-IsWire =
    transfer_wire (replicate 32 1) (replicate 32 2) 1000 200 7 (replicate 64 3) refl refl
      (omega arith) (omega arith) (omega arith) refl

decode_block-encode_block_example : decode_block (encode_block block) ≡ ok block
decode_block-encode_block_example =
    decode_block-encode_block block header-IsHeader (payment-IsWire, tt) (omega arith)
