-- ===== src/Chain/Script/Branches/Skipped.antt =====
-- src/chain/script.ts, evalScript: a round in a branch that is not taken.
use mathlib.Core.Path.{subst}
use browser_coin_native_mine.Prelude.{
  ℕ, ok, true, false, Bytes, List, ◌≡◌, take, Bool, ◌++◌, length, Bool-cases, ◌≤◌, >>=-eq-ok, drop,
  suc, fail_if, ◌==◌, ◌∷◌, ltb, ap, ◌+◌, inl, inr, zero, ◌*◌, arith, ok-inj, not, refl,
  fail_if-false, ◌<◌, [], ◌≢◌, length-take, sym, ◌∙◌, ==_iff,
}
use browser_coin_native_mine.Chain.Crypto.{Crypto}
use browser_coin_native_mine.Chain.Script.Limits.{max_push_bytes, ScriptContext}
use browser_coin_native_mine.Chain.Script.Machine.{
  push_data, step_push, Machine, executing, push_length, is_push, step_endif, step_if, step,
  step_else,
}

-- What is skipped at an opcode: the bytes behind it and the open branches, before and after. A push is
-- skipped with all its bytes, OP_IF opens a branch that is not taken, OP_ELSE turns the innermost one
-- round, OP_ENDIF closes it, and any other opcode is skipped alone.
pub data Skips : ℕ → Bytes → List Bool → Bytes → List Bool → Type 0 where
  direct_push :
      {op : ℕ} {rest : Bytes} {cond : List Bool} (payload : Bytes)
      → op ≤ 0x4b
      → length payload ≡ op
      → Skips op (payload ++ rest) cond rest cond
  push_1 :
      {op : ℕ} {rest : Bytes} {cond : List Bool} (payload : Bytes)
      → op ≡ 0x4c
      → Skips op (length payload ∷ payload ++ rest) cond rest cond
  push_2 :
      {op lo hi : ℕ} {rest : Bytes} {cond : List Bool} (payload : Bytes)
      → op ≡ 0x4d
      → length payload ≡ lo + 256 * hi
      → Skips op (lo ∷ hi ∷ payload ++ rest) cond rest cond
  opens :
      {op : ℕ} {rest : Bytes} {cond : List Bool}
      → op ≡ 0x63
      → Skips op rest cond rest (false ∷ cond)
  turns :
      {op : ℕ} {rest : Bytes} {b : Bool} {outer : List Bool}
      → op ≡ 0x67
      → Skips op rest (b ∷ outer) rest (not b ∷ outer)
  closes :
      {op : ℕ} {rest : Bytes} {b : Bool} {outer : List Bool}
      → op ≡ 0x68
      → Skips op rest (b ∷ outer) rest outer
  passes :
      {op : ℕ} {rest : Bytes} {cond : List Bool}
      → 0x4d < op
      → op ≢ 0x63
      → op ≢ 0x67
      → op ≢ 0x68
      → Skips op rest cond rest cond

-- The stacks and the count of opcodes are left alone.
abbrev SameData : Machine → Machine → Type 0
SameData m m' = (m'.stacks ≡ m.stacks) × (m'.op_count ≡ m.op_count)

take-append-drop : (n : ℕ) (xs : Bytes) → take n xs ++ drop n xs ≡ xs
take-append-drop zero xs = refl
take-append-drop (suc n) [] = refl
take-append-drop (suc n) (x ∷ xs) = ap (λ l. x ∷ l) (take-append-drop n xs)

push_data_skipped :
    (len : ℕ) (body : Bytes) (m m' : Machine)
    → executing m.cond_stack ≡ false
    → push_data len body m ≡ ok m'
    → SameData m m'
      × ((payload : Bytes) × (length payload ≡ len) × (body ≡ payload ++ m'.rest))
      × (m'.cond_stack ≡ m.cond_stack)
unfolding push_data
push_data_skipped len body m m' off e =
    let (_, small, e₁) = >>=-eq-ok (fail_if (ltb max_push_bytes len) _) _ e in
    let (_, whole, e₂) = >>=-eq-ok (fail_if (ltb (length body) len) _) _ e₁ in
    let done : record m { rest = drop len body } ≡ m' = ok-inj (rw off at e₂) in
    let fits = fail_if-false _ _ whole in
    let cut : length (take len body) ≡ len =
      let n = length-take len body in ground (arith, n, fits) in
    (
      (ap (λ (k : Machine). k.stacks) (sym done), ap (λ (k : Machine). k.op_count) (sym done)),
      (
        take len body,
        cut,
        sym (take-append-drop len body) ∙ ap (λ (k : Machine). take len body ++ k.rest) done,
      ),
      ap (λ (k : Machine). k.cond_stack) (sym done),
    )

pushed_1 :
    (op : ℕ) (rest : Bytes) (m m' : Machine)
    → (op == 0x4c) ≡ true
    → executing m.cond_stack ≡ false
    → step_push op rest m ≡ ok m'
    → SameData m m' × Skips op rest m.cond_stack m'.rest m'.cond_stack
unfolding step_push push_length
pushed_1 op [] m m' one off e = absurd (cc (rw one at e))
pushed_1 op (len ∷ body) m m' one off e =
    let (same, (payload, cut, split), cond) = push_data_skipped len body m m' off (rw one at e) in
    (same, rw (split, cond, sym cut) (push_1 payload ((==_iff op 0x4c).0 one)))

pushed_2 :
    (op : ℕ) (rest : Bytes) (m m' : Machine)
    → (op == 0x4c) ≡ false
    → (op == 0x4d) ≡ true
    → executing m.cond_stack ≡ false
    → step_push op rest m ≡ ok m'
    → SameData m m' × Skips op rest m.cond_stack m'.rest m'.cond_stack
unfolding step_push push_length
pushed_2 op [] m m' not_one two off e = absurd (cc (rw (not_one, two) at e))
pushed_2 op (lo ∷ []) m m' not_one two off e = absurd (cc (rw (not_one, two) at e))
pushed_2 op (lo ∷ hi ∷ body) m m' not_one two off e =
    let (same, (payload, cut, split), cond) =
      push_data_skipped (lo + 256 * hi) body m m' off (rw (not_one, two) at e) in
    (same, rw (split, cond) (push_2 payload ((==_iff op 0x4d).0 two) cut))

-- A push with the bytes of its length.
step_push_skipped :
    (op : ℕ) (rest : Bytes) (m m' : Machine)
    → is_push op ≡ true
    → executing m.cond_stack ≡ false
    → step_push op rest m ≡ ok m'
    → SameData m m' × Skips op rest m.cond_stack m'.rest m'.cond_stack
unfolding step_push push_length is_push
step_push_skipped op rest m m' pushes off e = elim (Bool-cases (op == 0x4c)) [
  | inl one ↦ pushed_1 op rest m m' one off e
  | inr not_one ↦ elim (Bool-cases (op == 0x4d)) [
    | inl two ↦ pushed_2 op rest m m' not_one two off e
    | inr not_two ↦
        let (same, (payload, len, split), cond) =
          push_data_skipped op rest m m' off (rw (not_one, not_two) at e) in
        (
          same,
          rw (split, cond) (direct_push payload (ground (arith, pushes, not_one, not_two)) len),
        )
  ]
]

skipped_if :
    (op : ℕ) (rest : Bytes) (m m' : Machine)
    → op ≡ 0x63
    → executing m.cond_stack ≡ false
    → step_if rest m ≡ ok m'
    → SameData m m' × Skips op rest m.cond_stack m'.rest m'.cond_stack
unfolding step_if
skipped_if op rest m m' is_if off e =
    subst (λ (k : Machine). SameData m k × Skips op rest m.cond_stack k.rest k.cond_stack)
      (ok-inj (rw off at e)) ((refl, refl), opens is_if)

-- OP_ELSE and OP_ENDIF need an open branch, which a branch that is not taken is.
skipped_else :
    (op : ℕ) (rest : Bytes) (m m' : Machine) (cond : List Bool)
    → op ≡ 0x67
    → m.cond_stack ≡ cond
    → step_else rest m ≡ ok m'
    → SameData m m' × Skips op rest cond m'.rest m'.cond_stack
unfolding step_else
skipped_else op rest m m' [] is_else at e = absurd (cc (rw (at, step_else) at e))
skipped_else op rest m m' (b ∷ outer) is_else at e =
    subst (λ (k : Machine). SameData m k × Skips op rest (b ∷ outer) k.rest k.cond_stack)
      (ok-inj (rw (at, step_else) at e)) ((refl, refl), turns is_else)

skipped_endif :
    (op : ℕ) (rest : Bytes) (m m' : Machine) (cond : List Bool)
    → op ≡ 0x68
    → m.cond_stack ≡ cond
    → step_endif rest m ≡ ok m'
    → SameData m m' × Skips op rest cond m'.rest m'.cond_stack
unfolding step_endif
skipped_endif op rest m m' [] is_endif at e = absurd (cc (rw (at, step_endif) at e))
skipped_endif op rest m m' (b ∷ outer) is_endif at e =
    subst (λ (k : Machine). SameData m k × Skips op rest (b ∷ outer) k.rest k.cond_stack)
      (ok-inj (rw (at, step_endif) at e)) ((refl, refl), closes is_endif)

past_pushes : (op : ℕ) → is_push op ≡ false → 0x4d < op
unfolding is_push
past_pushes op h = ground arith

other : (a b : ℕ) → (a == b) ≡ false → a ≢ b
other a b h same = absurd (cc (h, (==_iff a b).1 same))

-- In a branch that is not taken a round that succeeds leaves both stacks and the count of opcodes
-- alone. A push is skipped with its length and all its data, OP_IF opens a branch that is not taken,
-- OP_ELSE turns the innermost branch round, OP_ENDIF closes it, and any other opcode, known or not, is
-- skipped and leaves the open branches as they are.
pub step_skipped :
    ⦃c : Crypto⦄ (ctx : ScriptContext) (op : ℕ) (rest : Bytes) (m m' : Machine)
    → executing m.cond_stack ≡ false
    → step ctx op rest m ≡ ok m'
    → (m'.stacks ≡ m.stacks)
      × (m'.op_count ≡ m.op_count)
      × Skips op rest m.cond_stack m'.rest m'.cond_stack
unfolding step
step_skipped ctx op rest m m' off e = let (same, skips) = round in (same.0, same.1, skips)
  where
    round : SameData m m' × Skips op rest m.cond_stack m'.rest m'.cond_stack
    round = elim (Bool-cases (is_push op)) [
      | inl pushes ↦ step_push_skipped op rest m m' pushes off (rw (pushes, step) at e)
      | inr no_push ↦ elim (Bool-cases (op == 0x63)) [
        | inl is_if ↦
            skipped_if op rest m m' ((==_iff op 0x63).0 is_if) off (rw (no_push, is_if, step) at e)
        | inr not_if ↦ elim (Bool-cases (op == 0x67)) [
          | inl is_else ↦
              skipped_else op rest m m' m.cond_stack ((==_iff op 0x67).0 is_else) refl
                (rw (no_push, not_if, is_else, step) at e)
          | inr not_else ↦ elim (Bool-cases (op == 0x68)) [
            | inl is_endif ↦
                skipped_endif op rest m m' m.cond_stack ((==_iff op 0x68).0 is_endif) refl
                  (rw (no_push, not_if, not_else, is_endif, step) at e)
            | inr not_endif ↦
                subst
                  (λ (k : Machine). SameData m k × Skips op rest m.cond_stack k.rest k.cond_stack)
                  (ok-inj (rw (no_push, not_if, not_else, not_endif, off, step) at e))
                  (
                    (refl, refl),
                    passes (past_pushes op no_push) (other op 0x63 not_if) (other op 0x67 not_else)
                        (other op 0x68 not_endif),
                  )
          ]
        ]
      ]
    ]
