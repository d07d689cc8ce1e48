-- ===== src/Chain/Script/Progress.antt =====
-- The loop of evalScript ends: every round takes at least one byte of the script.
use mathlib.Core.Path.{subst}
use browser_coin_native_mine.Prelude.{
  ◌∙◌, sym, ℕ, zero, suc, ◌≤◌, ◌≡◌, refl, Option, some, [], ◌∷◌, Bytes, length, length-drop, arith,
  Result, ok, err, >>=-eq-ok,
}
use browser_coin_native_mine.Chain.Crypto.{Crypto}
use browser_coin_native_mine.Chain.Script.Limits.{ScriptContext}
use browser_coin_native_mine.Chain.Script.Machine.{
  Machine, push_length, step_push, step_if, step_else, step_endif, step_opcode, step, run,
  push_data,
}

push_length-le :
    (op : ℕ) (rest : Bytes) {len : ℕ} {body : Bytes}
    → push_length op rest ≡ ok (len, body)
    → length body ≤ length rest
unfolding push_length
push_length-le op [] h = ground arith
push_length-le op (a ∷ []) h = ground arith
push_length-le op (a ∷ b ∷ rest) h = ground arith

push_data-rest :
    (len : ℕ) (body : Bytes) (m : Machine) {m' : Machine}
    → push_data len body m ≡ ok m'
    → length m'.rest ≤ length body
unfolding push_data
push_data-rest len body m h = ground (arith, length-drop len body)

step_push-rest :
    (op : ℕ) (rest : Bytes) (m : Machine) {m' : Machine}
    → step_push op rest m ≡ ok m'
    → length m'.rest ≤ length rest
unfolding step_push
step_push-rest op rest m h =
    let ((len, body), found, pushed) = >>=-eq-ok (push_length op rest) _ h in
    omega (arith, push_length-le op rest found, push_data-rest len body m pushed)

step_if-rest : (rest : Bytes) (m : Machine) {m' : Machine} → step_if rest m ≡ ok m' → m'.rest ≡ rest
unfolding step_if
step_if-rest rest m h = ground arith

step_else-rest :
    (rest : Bytes) (m : Machine) {m' : Machine} → step_else rest m ≡ ok m' → m'.rest ≡ rest
unfolding step_else
step_else-rest rest m h = ground arith

step_endif-rest :
    (rest : Bytes) (m : Machine) {m' : Machine} → step_endif rest m ≡ ok m' → m'.rest ≡ rest
unfolding step_endif
step_endif-rest rest m h = ground arith

module _ ⦃c : Crypto⦄ (ctx : ScriptContext) where
  step_opcode-rest :
      (op : ℕ) (rest : Bytes) (m : Machine) {m' : Machine}
      → step_opcode ctx op rest m ≡ ok m'
      → m'.rest ≡ rest
  unfolding step_opcode
  step_opcode-rest op rest m h = ground arith

  -- A round that succeeds leaves no more than the bytes behind the opcode.
  pub step-rest :
      (op : ℕ) (rest : Bytes) (m : Machine) {m' : Machine}
      → step ctx op rest m ≡ ok m'
      → length m'.rest ≤ length rest
  unfolding step
  step-rest op rest m {m'} h = ground (
    arith,
    step_push-rest op rest m {m' = m'},
    step_if-rest rest m {m' = m'},
    step_else-rest rest m {m' = m'},
    step_endif-rest rest m {m' = m'},
    step_opcode-rest op rest m {m' = m'},
  )

  -- What the loop does with the outcome of a round.
  abbrev pub go_on : ℕ → Result Machine → Option (Result Machine)
  go_on fuel (ok m) = run ctx fuel m
  go_on fuel (err e) = some (err e)

  pub run-nil : (fuel : ℕ) (m : Machine) → m.rest ≡ [] → run ctx fuel m ≡ some (ok m)
  unfolding run
  run-nil zero m e = ground arith
  run-nil (suc fuel) m e = ground arith

  pub run-cons :
      (fuel op : ℕ) (rest : Bytes) (m : Machine)
      → m.rest ≡ op ∷ rest
      → run ctx (suc fuel) m ≡ go_on fuel (step ctx op rest m)
  unfolding run
  run-cons fuel op rest m e = ground arith

  stuck :
      (m : Machine) {op : ℕ} {rest : Bytes} {q : Result Machine}
      → m.rest ≡ op ∷ rest
      → run ctx 0 m ≡ some q
      → ⊥
  unfolding run
  stuck m e h = ground arith

  go_on_total :
      (fuel : ℕ) (r : Result Machine)
      → ((m' : Machine) → r ≡ ok m' → (q : Result Machine) × (run ctx fuel m' ≡ some q))
      → (q : Result Machine) × (go_on fuel r ≡ some q)
  go_on_total fuel (ok m') k = k m' refl
  go_on_total fuel (err e) k = (err e, refl)

  run_from :
      (fuel : ℕ) (m : Machine) (rest : Bytes)
      → m.rest ≡ rest
      → length rest ≤ fuel
      → (q : Result Machine) × (run ctx fuel m ≡ some q)
  run_from fuel m [] e h = (ok m, run-nil fuel m e)
  run_from zero m (op ∷ rest) e h = absurd (omega arith)
  run_from (suc fuel) m (op ∷ rest) e h =
      let (q, ends) = go_on_total fuel (step ctx op rest m) (λ m' stepped.
        run_from fuel m' m'.rest refl (omega (arith, step-rest op rest m stepped))) in
      (q, run-cons fuel op rest m e ∙ ends)

  -- With as much fuel as the script has bytes the loop ends, with a machine or with an error.
  pub run_total :
      (fuel : ℕ) (m : Machine)
      → length m.rest ≤ fuel
      → (q : Result Machine) × (run ctx fuel m ≡ some q)
  run_total fuel m h = run_from fuel m m.rest refl h

  module _ (P : Machine → Type 0)
      (keep : (op : ℕ) (rest : Bytes) (m m' : Machine)
        → m.rest ≡ op ∷ rest
        → P m
        → step ctx op rest m ≡ ok m'
        → P m') where
    go_on_inv :
        (fuel : ℕ) (r : Result Machine) {m'' : Machine}
        → ((m' : Machine) → r ≡ ok m' → run ctx fuel m' ≡ some (ok m'') → P m'')
        → go_on fuel r ≡ some (ok m'')
        → P m''
    go_on_inv fuel (ok m') k h = k m' refl h
    go_on_inv fuel (err e) k h = cc

    inv_from :
        (fuel : ℕ) (m : Machine) (rest : Bytes) {m'' : Machine}
        → m.rest ≡ rest
        → P m
        → run ctx fuel m ≡ some (ok m'')
        → P m''
    inv_from fuel m [] e p h = subst P (same (sym (run-nil fuel m e) ∙ h)) p
      where
        same : {a b : Machine} → some (ok a) ≡ some (ok b) → a ≡ b
        same q = cc
    inv_from zero m (op ∷ rest) e p h = absurd (stuck m e h)
    inv_from (suc fuel) m (op ∷ rest) e p h =
        go_on_inv fuel (step ctx op rest m)
          (λ m' stepped ends. inv_from fuel m' m'.rest refl (keep op rest m m' e p stepped) ends)
          (sym (run-cons fuel op rest m e) ∙ h)

    -- What every round keeps holds when the loop ends.
    pub run_inv :
        (fuel : ℕ) (m : Machine) {m'' : Machine} → P m → run ctx fuel m ≡ some (ok m'') → P m''
    run_inv fuel m p h = inv_from fuel m m.rest refl p h
