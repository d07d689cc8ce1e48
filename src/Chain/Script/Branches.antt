-- ===== src/Chain/Script/Branches.antt =====
-- src/chain/script.ts, evalScript: a script that is accepted. Skipped has the branches that are not
-- taken.
pub mod Skipped
use mathlib.Core.Path.{subst}
use browser_coin_native_mine.Prelude.{
  fail_if-false, ap, ◌∙◌, ℕ, ◌≤◌, ◌≡◌, refl, Bool, true, false, some, List, [], ◌∷◌, Bytes, length,
  arith, ok, fail_if, >>=-eq-ok, ltb, ◌==◌, Bool-cases, inl, inr,
}
use browser_coin_native_mine.Chain.Crypto.{Crypto}
use browser_coin_native_mine.Chain.Script.Bounds.{IsBounded, run-IsBounded}
use browser_coin_native_mine.Chain.Script.Limits.{
  AreItems, ScriptContext, max_script_bytes, max_witness_items, max_push_bytes,
}
use browser_coin_native_mine.Chain.Script.Machine.{
  Machine, executing, push_length, push_data, step_push, step_if, step_else, step_endif, step, run,
  seed, start, check_top, finish, outcome, eval_script,
}
use browser_coin_native_mine.Chain.Script.Num.{is_truthy}
use browser_coin_native_mine.Chain.Script.Progress.{run_total}
use browser_coin_native_mine.Chain.Script.Stack.{Items, overflowed}

seed_lem : (w : Items) {items : Items} → seed w ≡ ok items → (items ≡ w) × AreItems w
unfolding seed
seed_lem [] e = (cc, tt)
seed_lem (item ∷ w) e =
    let (_, small, e') = >>=-eq-ok (fail_if (ltb max_push_bytes (length item)) _) _ e in
    let (items, seeded, e'') = >>=-eq-ok (seed w) _ e' in
    let (same, rest) = seed_lem w seeded in (cc, (ground (arith, fail_if-false _ _ small), rest))

no_cond : (cond_stack : List Bool) → (length cond_stack == 0) ≡ true → cond_stack ≡ []
no_cond [] h = refl
no_cond (b ∷ r) h = ground arith

check_top_lem :
    (main : Items)
    → check_top main ≡ ok tt
    → (top : Bytes) × (r : Items) × (main ≡ top ∷ r) × (is_truthy top ≡ true)
unfolding check_top
check_top_lem [] h = absurd (cc)
check_top_lem (top ∷ r) h = (top, r, refl, ground arith)

finish_lem :
    (m : Machine)
    → finish m ≡ ok tt
    → (m.cond_stack ≡ [])
      × (top : Bytes) × (r : Items) × (m.stacks.main ≡ top ∷ r)
      × (is_truthy top ≡ true)
unfolding finish
finish_lem m h = elim (Bool-cases (length m.cond_stack == 0)) [
  | inl closed ↦
      let (top, r, at, true_top) = check_top_lem m.stacks.main (rw closed at h) in
      (no_cond m.cond_stack closed, top, r, at, true_top)
  | inr open_if ↦ absurd (cc (rw open_if at h))
]

script_length : (script : Bytes) (items : Items) → length (start script items).rest ≤ length script
unfolding start
script_length script items = omega arith

start-IsBounded :
    (redeem_script : Bytes) (items : Items)
    → overflowed (start redeem_script items).stacks ≡ false
    → IsBounded (start redeem_script items)
unfolding start
start-IsBounded redeem_script items h = ground arith

module _ ⦃c : Crypto⦄ (ctx : ScriptContext) (redeem_script : Bytes) where
  -- What acceptance says of the run on the stack `items`.
  abbrev pub Accepted : Items → Type 0
  Accepted items =
      (m : Machine) × (run ctx (length redeem_script) (start redeem_script items) ≡ some (ok m))
      × IsBounded m
      × (m.cond_stack ≡ [])
      × (top : Bytes) × (r : Items) × (m.stacks.main ≡ top ∷ r)
      × (is_truthy top ≡ true)

  loop_accepts :
      (items : Items)
      → overflowed (start redeem_script items).stacks ≡ false
      → outcome (run ctx (length redeem_script) (start redeem_script items)) ≡ ok tt
      → Accepted items
  loop_accepts items fits e =
      let (q, ends) =
        run_total ctx (length redeem_script) (start redeem_script items)
          (script_length redeem_script items) in
      let (m, is_ok, finished) = >>=-eq-ok q finish (rw ends at e) in
      let (closed, top, r, at, true_top) = finish_lem m finished in
      let ended = ends ∙ ap some is_ok in
      (
        m,
        ended,
        run-IsBounded ctx _ _ m (start-IsBounded redeem_script items fits) ended,
        closed,
        top,
        r,
        at,
        true_top,
      )

  -- A script that is accepted is at most 10000 bytes long and has at most 100 witness items of at
  -- most 520 bytes each; its loop ends, with a machine within the limits of stack size and opcode
  -- count, with every OP_IF closed and a true item on top.
  pub eval_script_accepts :
      (witness : Items)
      → eval_script ctx redeem_script witness ≡ ok tt
      → (length redeem_script ≤ max_script_bytes)
        × (length witness ≤ max_witness_items)
        × AreItems witness
        × Accepted witness
  unfolding eval_script
  eval_script_accepts witness e =
      let (_, short, e₁) =
        >>=-eq-ok (fail_if (ltb max_script_bytes (length redeem_script)) _) _ e in
      let (_, few, e₂) = >>=-eq-ok (fail_if (ltb max_witness_items (length witness)) _) _ e₁ in
      let (items, seeded, e₃) = >>=-eq-ok (seed witness) _ e₂ in
      let (same, small) = seed_lem witness seeded in
      let (_, fits, e₄) =
        >>=-eq-ok (fail_if (overflowed (start redeem_script items).stacks) _) _ e₃ in
      (
        ground (arith, fail_if-false _ _ short),
        ground (arith, fail_if-false _ _ few),
        small,
        subst Accepted same (loop_accepts items (fail_if-false _ _ fits) e₄),
      )
