-- ===== src/Prelude/Results.antt =====
-- A computation that returns a value or an error text.
use Prim.Native.String.{String}
use mathlib.Core.Bool.{Bool, true, false}
use mathlib.Core.Logic.{◌⊎◌, inl, inr}
use mathlib.Core.Path.{◌≡◌, refl}

pub data Result {ℓ} (A : Type ℓ) : Type ℓ where
  ok : A → Result A
  err : String → Result A

-- `if (bad) return error`.
abbrev pub fail_if : Bool → String → Result (Unit {0})
fail_if true text = err text
fail_if false text = ok tt

infixl 5 ◌>>=◌ ◌>>◌
abbrev pub ◌>>=◌ {ℓ κ} : {A : Type ℓ} {B : Type κ} → Result A → (A → Result B) → Result B
err text >>= next = err text
ok x >>= next = next x

-- The check in front of a statement.
abbrev pub ◌>>◌ {ℓ} : {A : Type ℓ} → Result (Unit {0}) → Result A → Result A
check >> next = check >>= λ passed. next

pub >>=-eq-ok {ℓ κ} :
    {A : Type ℓ} {B : Type κ} (r : Result A) (next : A → Result B) {y : B}
    → (r >>= next) ≡ ok y
    → (x : A) × (r ≡ ok x) × (next x ≡ ok y)
>>=-eq-ok (err text) next e = cc
>>=-eq-ok (ok x) next e = (x, refl, e)

pub ok-inj {ℓ} : {A : Type ℓ} {a b : A} → ok a ≡ ok b → a ≡ b
ok-inj h = cc

pub fail_if-false : (b : Bool) (e : String) {u : Unit {0}} → fail_if b e ≡ ok u → b ≡ false
fail_if-false true e h = cc
fail_if-false false e h = refl

pub Result-cases {ℓ} :
    {A : Type ℓ} (r : Result A) → ((e : String) × (r ≡ err e)) ⊎ ((a : A) × (r ≡ ok a))
Result-cases (err e) = inl (e, refl)
Result-cases (ok a) = inr (a, refl)
