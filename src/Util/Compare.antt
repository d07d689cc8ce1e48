-- ===== src/Util/Compare.antt =====
-- src/util/binary.ts, compareBytes, on equal bytes.
use browser_coin_native_mine.Prelude.{
  Bytes, ◌≡◌, true, [], ◌∷◌, Bool-cases, ◌==◌, inl, ==_iff, inr, ltb, refl, arith,
}
use browser_coin_native_mine.Prelude.Int.{eqb_ℤ, pos}
use browser_coin_native_mine.Util.Binary.{compare_bytes}

pub compare_bytes-eq : (a b : Bytes) → eqb_ℤ (compare_bytes a b) (pos 0) ≡ true → a ≡ b
unfolding compare_bytes
compare_bytes-eq [] [] e = refl
compare_bytes-eq [] (y ∷ ys) e = absurd (ground arith)
compare_bytes-eq (x ∷ xs) [] e = absurd (ground arith)
compare_bytes-eq (x ∷ xs) (y ∷ ys) e = elim (Bool-cases (x == y)) [
  | inl same ↦
      let rest = compare_bytes-eq xs ys (rw same at e) in
      let first = (==_iff _ _).0 same in rw (first, rest) refl
  | inr apart ↦ elim (Bool-cases (ltb x y)) [
    | inl l ↦ absurd (cc (rw (apart, l) at e))
    | inr l ↦ absurd (cc (rw (apart, l) at e))
  ]
]

pub compare_bytes_self : (a : Bytes) → compare_bytes a a ≡ pos 0
unfolding compare_bytes
compare_bytes_self [] = refl
compare_bytes_self (x ∷ xs) = rw ((==_iff x x).1 refl) (compare_bytes_self xs)
