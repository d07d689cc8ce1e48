-- ===== src/Chain/Pow/Sandglass/Words.antt =====
-- The walk of Sandglass stays inside its buffer.
use native.Mathlib.Nat.{mod-lt}
use browser_coin_native_mine.Prelude.{
  ℕ, ◌≡◌, refl, List, ◌<◌, length, ◌∷◌, suc, All, [], ap, ◌+◌, zero, bit_xor, ◌%◌, ◌^◌, ◌∙◌,
}
use browser_coin_native_mine.Chain.Pow.Sandglass.{
  walk_loop, step_walkers, fill_loop, set_word, Walker, step_walker, start_walker, mix, word_at,
}

-- Every address is one of the buffer, whose size stays as it is.
abbrev pub AreInside : ℕ → List Walker → List ℕ → Type 0
AreInside size walkers buf = (length buf ≡ size) × All (λ (w : Walker). w.address < size) walkers

length-set_word : (i v : ℕ) (buf : List ℕ) → length (set_word i v buf) ≡ length buf
unfolding set_word
length-set_word i v [] = refl
length-set_word zero v (w ∷ buf) = refl
length-set_word (suc i) v (w ∷ buf) = ap suc (length-set_word i v buf)

step_walkers-AreInside :
    (size s : ℕ) (walkers : List Walker) (buf : List ℕ)
    → 0 < size
    → AreInside size walkers buf
    → AreInside size (step_walkers size s walkers buf).0 (step_walkers size s walkers buf).1
unfolding step_walkers step_walker
step_walkers-AreInside size s [] buf p h = h
step_walkers-AreInside size s (w ∷ walkers) buf p h =
    let a = mix (bit_xor w.acc (word_at buf w.address)) in
    let buf' = set_word w.address ((a + s) % 2 ^ 32) buf in
    let rest =
      step_walkers-AreInside size s walkers buf' p
        (length-set_word w.address ((a + s) % 2 ^ 32) buf ∙ h.0, h.1.1) in
    (rest.0, (mod-lt a p, rest.1))

walk_loop-AreInside :
    (k size s : ℕ) (walkers : List Walker) (buf : List ℕ)
    → 0 < size
    → AreInside size walkers buf
    → AreInside size (walk_loop k size s walkers buf).0 (walk_loop k size s walkers buf).1
unfolding walk_loop
walk_loop-AreInside zero size s walkers buf p h = h
walk_loop-AreInside (suc k) size s walkers buf p h =
    walk_loop-AreInside k size (s + 1) (step_walkers size s walkers buf).0
      (step_walkers size s walkers buf).1 p (step_walkers-AreInside size s walkers buf p h)

length-fill_loop : (k : ℕ) (sw : List ℕ) (i h : ℕ) → length (fill_loop k sw i h).0 ≡ k
unfolding fill_loop
length-fill_loop zero sw i h = refl
length-fill_loop (suc k) sw i h = ap suc (length-fill_loop k sw (i + 1) _)

-- After any number of steps, from a buffer as the fill leaves it and walkers as they are started, every
-- address that a chain reads and writes next lies inside the buffer: no word past its end is used.
pub fill_loop-walk_loop-AreInside :
    (k size s h x0 x1 x2 x3 : ℕ) (sw : List ℕ)
    → 0 < size
    → AreInside size
        (walk_loop k size s
          (start_walker size x0
            ∷ start_walker size x1
            ∷ start_walker size x2
            ∷ start_walker size x3
            ∷ [])
          (fill_loop size sw 0 h).0).0
        (walk_loop k size s
          (start_walker size x0
            ∷ start_walker size x1
            ∷ start_walker size x2
            ∷ start_walker size x3
            ∷ [])
          (fill_loop size sw 0 h).0).1
fill_loop-walk_loop-AreInside k size s h x0 x1 x2 x3 sw p =
    walk_loop-AreInside k size s _ _ p
      (length-fill_loop size sw 0 h, (mod-lt x0 p, (mod-lt x1 p, (mod-lt x2 p, (mod-lt x3 p, tt)))))
