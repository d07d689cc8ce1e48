-- ===== src/Chain/Script/Multisig.antt =====
-- src/chain/script.ts, opCheckMultisig.
pub mod Matching
use mathlib.Core.List.{reverse}
use browser_coin_native_mine.Prelude.{
  ℕ, ◌+◌, Bool, true, false, ◌&&◌, ◌||◌, Option, none, some, [], ◌∷◌, Bytes, take, drop, ltb, ◌==◌,
  if◌then◌else◌, length, Result, ok, err,
}
use browser_coin_native_mine.Chain.Crypto.{Crypto, verify}
use browser_coin_native_mine.Chain.Script.Limits.{max_multisig_keys}
use browser_coin_native_mine.Chain.Script.Num.{decode_num, encode_num}
use browser_coin_native_mine.Chain.Script.Stack.{Items}
use browser_coin_native_mine.Prelude.Int.{pos, negsuc}

-- A count from `low` to `high`, as `n` and `m` are read.
unfoldable pub count_between : ℕ → ℕ → Bytes → Option ℕ
count_between low high item = elim (decode_num item 4) [
  | none ↦ none
  | some v ↦ elim v [ pos n ↦ if ltb n low || ltb high n then none else some n | negsuc n ↦ none ]
]

module _ ⦃c : Crypto⦄ (sighash : Bytes) where
  -- `pk.length === 32 && sig.length === 64 && edVerify(sig, ctx.sighash, pk)`
  abbrev pub signature_valid : Bytes → Bytes → Bool
  signature_valid sig pk = length pk == 32 && length sig == 64 && verify sig sighash pk

  -- The inner loop: the keys behind the first one that fits.
  unfoldable pub next_match : Bytes → Items → Option Items
  next_match sig [] = none
  next_match sig (pk ∷ pubkeys) =
      let rest = next_match sig pubkeys in if signature_valid sig pk then some pubkeys else rest

  -- The outer loop over the signatures.
  unfoldable pub match_sigs : Items → Items → Bool
  match_sigs [] pubkeys = true
  match_sigs (sig ∷ sigs) pubkeys = elim (next_match sig pubkeys) [
    | none ↦ false
    | some rest ↦ match_sigs sigs rest
  ]

  -- The signatures below `m`, once `pubkeys` are taken.
  unfoldable pub check_sigs : ℕ → Items → Items → Result Items
  check_sigs n pubkeys [] = err "OP_CHECKMULTISIG: not enough pubkeys"
  check_sigs n pubkeys (m_item ∷ r) = elim (count_between 1 n m_item) [
    | none ↦ err "OP_CHECKMULTISIG: bad m"
    | some m ↦
        if ltb (length r) m
        then err "OP_CHECKMULTISIG: not enough signatures"
        else ok
            (encode_num (pos (if match_sigs (reverse (take m r)) pubkeys then 1 else 0)) ∷ drop m r)
  ]

  -- The new main stack, its top first.
  unfoldable pub op_check_multisig : Items → Result Items
  op_check_multisig [] = err "OP_CHECKMULTISIG: empty stack"
  op_check_multisig (n_item ∷ r) = elim (count_between 1 max_multisig_keys n_item) [
    | none ↦ err "OP_CHECKMULTISIG: bad n"
    | some n ↦
        if ltb (length r) (n + 1)
        then err "OP_CHECKMULTISIG: not enough pubkeys"
        else check_sigs n (reverse (take n r)) (drop n r)
  ]
