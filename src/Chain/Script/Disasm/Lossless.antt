-- ===== src/Chain/Script/Disasm/Lossless.antt =====
-- The tokens of a script beside its bytes, and the fuel of the loop.
use mathlib.Core.List.{append_assoc}
use browser_coin_native_mine.Prelude.{
  none, some, true, false, ℕ, List, Bytes, ◌∷◌, length, if◌then◌else◌, IsBytes, ◌≡◌, suc, [], take,
  ◌==◌, leb, ◌++◌, ◌&&◌, Option-cases, drop, Bool-cases, inl, ltb, ap, arith, inr, zero, ◌%◌, ◌+◌,
  ◌*◌, ◌/◌, ◌∙◌, refl, some-inj, sym, length-take, ◌≤◌, length-append, Bool,
}
use browser_coin_native_mine.Chain.Script.Disasm.{
  ScriptToken, read_payload, tokenize_loop, read_token, tokenize,
}
use browser_coin_native_mine.Chain.Script.Opcode.{op_pushdata1, op_push_max, op_pushdata2}

-- The bytes of a token: a push has its length behind OP_PUSHDATA1 and OP_PUSHDATA2.
unfoldable pub length_bytes : ℕ → Bytes → Bytes
length_bytes op payload =
    if op == op_pushdata1
    then length payload ∷ []
    else if op == op_pushdata2
    then length payload % 256 ∷ length payload / 256 ∷ []
    else []

unfoldable pub token_bytes : ScriptToken → Bytes
token_bytes t = elim t.payload [
  | none ↦ t.op ∷ []
  | some payload ↦ t.op ∷ length_bytes t.op payload ++ payload
]

unfoldable pub script_bytes : List ScriptToken → Bytes
script_bytes [] = []
script_bytes (t ∷ tokens) = token_bytes t ++ script_bytes tokens

take-append-drop {ℓ} : {A : Type ℓ} (n : ℕ) (xs : List A) → xs ≡ take n xs ++ drop n xs
take-append-drop zero xs = refl
take-append-drop (suc n) [] = refl
take-append-drop (suc n) (x ∷ xs) = ap (λ l. x ∷ l) (take-append-drop n xs)

-- A payload and what it is cut from.
read_payload_lem :
    (op len : ℕ) (rest : Bytes) {t : ScriptToken} {later : Bytes}
    → read_payload op len rest ≡ some (t, later)
    → (payload : Bytes) × (t ≡ record { op = op; payload = some payload })
      × (length payload ≡ len)
      × (rest ≡ payload ++ later)
unfolding read_payload
read_payload_lem op len rest {t} {later} e = elim (Bool-cases (ltb (length rest) len)) [
  | inl short ↦ absurd (cc (rw short at e))
  | inr enough ↦
      let read = some-inj (rw enough at e) in
      let cut : length (take len rest) ≡ len =
        let n = length-take len rest in ground (arith, n, enough) in
      (
        take len rest,
        sym (ap (λ (p : ScriptToken × Bytes). p.0) read),
        cut,
        take-append-drop len rest
            ∙ ap (λ l. take len rest ++ l) (ap (λ (p : ScriptToken × Bytes). p.1) read),
      )
]

All-drop : (xs ys : Bytes) → IsBytes (xs ++ ys) → IsBytes ys
All-drop [] ys all = all
All-drop (x ∷ xs) ys all = All-drop xs ys all.1

-- A push of this shape is written as it was read.
pushed :
    (op len : ℕ) (front rest : Bytes) {t : ScriptToken} {later : Bytes}
    → ((payload : Bytes) → length payload ≡ len → length_bytes op payload ≡ front)
    → IsBytes rest
    → read_payload op len rest ≡ some (t, later)
    → (op ∷ front ++ rest ≡ token_bytes t ++ later) × IsBytes later
unfolding token_bytes
pushed op len front rest {t} {later} shape bytes e =
    let (payload, token, cut, split) = read_payload_lem op len rest e in
    let lengths = shape payload cut in
    (
      rw (token, lengths, split) (ap (λ l. op ∷ l) (sym (append_assoc front payload later))),
      All-drop payload later (rw split at bytes),
    )

push_one :
    (op : ℕ) (rest : Bytes) {t : ScriptToken} {later : Bytes}
    → IsBytes rest
    → (leb 1 op && leb op op_push_max) ≡ false
    → (op == 0x4c) ≡ true
    → read_token op rest ≡ some (t, later)
    → (op ∷ rest ≡ token_bytes t ++ later) × IsBytes later
unfolding read_token length_bytes
push_one op [] bytes indirect one e = absurd (cc (rw (indirect, one, read_token) at e))
push_one op (len ∷ rest) bytes indirect one e =
    pushed op len (len ∷ []) rest (λ payload cut. rw (one, cut, length_bytes) refl) bytes.1
      (rw (indirect, one, read_token) at e)

push_two :
    (op : ℕ) (rest : Bytes) {t : ScriptToken} {later : Bytes}
    → IsBytes rest
    → (leb 1 op && leb op op_push_max) ≡ false
    → (op == 0x4c) ≡ false
    → (op == 0x4d) ≡ true
    → read_token op rest ≡ some (t, later)
    → (op ∷ rest ≡ token_bytes t ++ later) × IsBytes later
unfolding read_token length_bytes
push_two op [] bytes indirect not1 two e = absurd (cc (rw (indirect, not1, two, read_token) at e))
push_two op (lo ∷ []) bytes indirect not1 two e =
    absurd (cc (rw (indirect, not1, two, read_token) at e))
push_two op (lo ∷ hi ∷ rest) bytes indirect not1 two e =
    let low = bytes.0 in
    let high = bytes.1.0 in
    pushed op (lo + 256 * hi) (lo ∷ hi ∷ []) rest
      (λ payload cut.
        let a : length payload % 256 ≡ lo = omega (arith, low, cut) in
        let b : length payload / 256 ≡ hi = omega (arith, low, cut) in
        rw (not1, two, a, b, length_bytes) refl)
      bytes.1.1 (rw (indirect, not1, two, read_token) at e)

read_token_lem :
    (op : ℕ) (rest : Bytes) {t : ScriptToken} {later : Bytes}
    → IsBytes rest
    → read_token op rest ≡ some (t, later)
    → (op ∷ rest ≡ token_bytes t ++ later) × IsBytes later
unfolding read_token token_bytes length_bytes
read_token_lem op rest {t} {later} bytes e = elim (Bool-cases (leb 1 op && leb op op_push_max)) [
  | inl direct ↦
      let not1 : (op == 0x4c) ≡ false = ground (arith, direct) in
      let not2 : (op == 0x4d) ≡ false = ground (arith, direct) in
      pushed op op [] rest (λ payload cut. rw (not1, not2, length_bytes) refl) bytes
        (rw (direct, read_token) at e)
  | inr indirect ↦ elim (Bool-cases (op == 0x4c)) [
    | inl one ↦ push_one op rest bytes indirect one e
    | inr not1 ↦ elim (Bool-cases (op == 0x4d)) [
      | inl two ↦ push_two op rest bytes indirect not1 two e
      | inr not2 ↦
          let read = some-inj (rw (indirect, not1, not2, read_token) at e) in
          let token = ap (λ (p : ScriptToken × Bytes). p.0) read in
          let same = ap (λ (p : ScriptToken × Bytes). p.1) read in
          (rw (sym token, same) refl, rw same at bytes)
    ]
  ]
]

tokenize_loop_lem :
    (fuel : ℕ) (script : Bytes)
    → IsBytes script
    → (tokenize_loop fuel script).1 ≡ false
    → script_bytes (tokenize_loop fuel script).0 ≡ script
unfolding tokenize_loop script_bytes
tokenize_loop_lem fuel [] bytes whole = refl
tokenize_loop_lem zero (op ∷ rest) bytes whole = absurd (cc)
tokenize_loop_lem (suc fuel) (op ∷ rest) bytes whole = elim (Option-cases (read_token op rest)) [
  | inl cut_off ↦ absurd (cc (rw (cut_off, tokenize_loop) at whole))
  | inr (r, read) ↦
      let (split, left) = read_token_lem op rest bytes.1 read in
      let later = tokenize_loop_lem fuel r.1 left (rw (read, tokenize_loop) at whole) in
      rw (read, tokenize_loop, script_bytes) (ap (λ l. token_bytes r.0 ++ l) later ∙ sym split)
]

-- The tokens of a script that is not truncated lose nothing: written out again, each push with its
-- length as it stood, they are the script.
pub script_bytes-tokenize :
    (script : Bytes)
    → IsBytes script
    → (tokenize script).1 ≡ false
    → script_bytes (tokenize script).0 ≡ script
script_bytes-tokenize script bytes whole = tokenize_loop_lem (length script) script bytes whole

token_bytes_cases : (t : ScriptToken) → (op : ℕ) × (bytes : Bytes) × (token_bytes t ≡ op ∷ bytes)
unfolding token_bytes
token_bytes_cases t = elim (Option-cases t.payload) [
  | inl plain ↦ (t.op, [], rw (plain, token_bytes) refl)
  | inr (payload, pushes) ↦
      (t.op, length_bytes t.op payload ++ payload, rw (pushes, token_bytes) refl)
]

-- A token takes at least its opcode.
read_token-length :
    (op : ℕ) (rest : Bytes) {t : ScriptToken} {later : Bytes}
    → IsBytes rest
    → read_token op rest ≡ some (t, later)
    → length later ≤ length rest
read_token-length op rest {t} {later} bytes e =
    let (split, _) = read_token_lem op rest bytes e in
    let (op', front, shape) = token_bytes_cases t in
    let whole : suc (length rest) ≡ length (op' ∷ front ++ later) =
      ap length (split ∙ ap (λ l. l ++ later) shape) in
    let parts = length-append front later in omega (arith, whole, parts)

-- Fuel for every byte of a script is enough: more makes no difference.
pub tokenize_loop_enough :
    (fuel : ℕ) (script : Bytes)
    → IsBytes script
    → length script ≤ fuel
    → tokenize_loop (suc fuel) script ≡ tokenize_loop fuel script
unfolding tokenize_loop
tokenize_loop_enough fuel [] bytes enough = refl
tokenize_loop_enough zero (op ∷ rest) bytes enough = absurd (omega (arith, enough))
tokenize_loop_enough (suc fuel) (op ∷ rest) bytes enough =
    elim (Option-cases (read_token op rest)) [
      | inl short ↦ rw (short, tokenize_loop) refl
      | inr ((t, later), read) ↦
          let (_, later_bytes) = read_token_lem op rest bytes.1 read in
          let shorter = read_token-length op rest bytes.1 read in
          let same = tokenize_loop_enough fuel later later_bytes (omega (arith, shorter, enough)) in
          rw (read, tokenize_loop) (ap (λ (l : List ScriptToken × Bool). (t ∷ l.0, l.1)) same)
    ]
