-- ===== src/Chain/Script/Build/Pushes.antt =====
-- The interpreter reads back what `pushData` writes.
use browser_coin_native_mine.Prelude.{
  ℕ, ◌≡◌, refl, Bytes, length, ◌≤◌, ◌++◌, ◌∷◌, true, ok, Bool-cases, false, leb, inl, ltb, arith,
  length-append, inr, take-length-append, drop-length-append, ◌%◌, ◌/◌, ap,
}
use browser_coin_native_mine.Chain.Crypto.{Crypto}
use browser_coin_native_mine.Chain.Script.Build.{push_data_script}
use browser_coin_native_mine.Chain.Script.Limits.{ScriptContext, max_push_bytes}
use browser_coin_native_mine.Chain.Script.Machine.{
  push_data, push_length, step, is_push, step_push, Machine, executing,
}
use browser_coin_native_mine.Chain.Script.Opcode.{op_pushdata1, op_pushdata2}
use browser_coin_native_mine.Chain.Script.Stack.{checked, overflowed, with_main}

-- The opcode and the bytes behind it.
push_length-push_data_script :
    (item rest : Bytes)
    → length item ≤ max_push_bytes
    → (op : ℕ) × (behind : Bytes) × (push_data_script item ++ rest ≡ op ∷ behind)
      × (is_push op ≡ true)
      × (push_length op behind ≡ ok (length item, item ++ rest))
unfolding push_data_script push_length is_push
push_length-push_data_script item rest h = elim (Bool-cases (leb (length item) 0x4b)) [
  | inl short ↦
      rw short (length item, item ++ rest, refl, ground (arith, short), ground (arith, short))
  | inr longer ↦ elim (Bool-cases (leb (length item) 0xff)) [
    | inl medium ↦ rw (longer, medium) (op_pushdata1, length item ∷ item ++ rest, refl, refl, refl)
    | inr long ↦
        rw (longer, long)
          (
            op_pushdata2,
            length item % 256 ∷ length item / 256 % 256 ∷ item ++ rest,
            refl,
            refl,
            ap (λ n. ok (n, item ++ rest)) (omega arith),
          )
  ]
]

push_data-item :
    (item rest : Bytes) (m : Machine)
    → length item ≤ max_push_bytes
    → executing m.cond_stack ≡ true
    → overflowed (with_main m.stacks (item ∷ m.stacks.main)) ≡ false
    → push_data (length item) (item ++ rest) m
      ≡ ok (record m { rest = rest; stacks = with_main m.stacks (item ∷ m.stacks.main) })
unfolding push_data checked
push_data-item item rest m small executed room =
    let fits : ltb max_push_bytes (length item) ≡ false = ground (arith, small) in
    let whole : ltb (length (item ++ rest)) (length item) ≡ false =
      rw (length-append item rest) (ground arith) in
    rw (
      fits,
      whole,
      executed,
      take-length-append (length item) item rest refl,
      room,
      drop-length-append (length item) item rest refl,
    )

module _ ⦃c : Crypto⦄ where
  -- Of an item that may be pushed, `pushData` writes an opcode and bytes behind it that the
  -- interpreter takes, in a branch that is executed and if the stack has room, as a push of that very
  -- item, and it goes on right behind them.
  pub step-push_data_script :
      (ctx : ScriptContext) (item rest : Bytes) (m : Machine)
      → length item ≤ max_push_bytes
      → executing m.cond_stack ≡ true
      → overflowed (with_main m.stacks (item ∷ m.stacks.main)) ≡ false
      → (op : ℕ) × (behind : Bytes) × (push_data_script item ++ rest ≡ op ∷ behind)
        × (step ctx op behind m
            ≡ ok (record m { rest = rest; stacks = with_main m.stacks (item ∷ m.stacks.main) }))
  unfolding step step_push
  step-push_data_script ctx item rest m small executed room =
      let (op, behind, written, push, read) = push_length-push_data_script item rest small in
      (
        op,
        behind,
        written,
        rw (push, read, step, step_push) (push_data-item item rest m small executed room),
      )
