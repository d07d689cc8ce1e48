-- ===== src/Chain/Pow/Sandglass/Tests.antt =====
-- A walk on a small buffer.
use browser_coin_native_mine.Prelude.{◌≡◌, refl, ◌∷◌, [], arith}
use browser_coin_native_mine.Chain.Pow.Sandglass.{mix, walk_loop, start_walker, fill_loop}
use browser_coin_native_mine.Chain.Pow.Sandglass.Words.{AreInside, fill_loop-walk_loop-AreInside}

-- The finalizer at one word.
mix_one : mix 1 ≡ 0x688990c0
unfolding mix
mix_one = refl

fill_loop-walk_loop-AreInside_example :
    AreInside 4
      (walk_loop 3 4 0
        (start_walker 4 5 ∷ start_walker 4 6 ∷ start_walker 4 7 ∷ start_walker 4 8 ∷ [])
        (fill_loop 4 (1 ∷ 2 ∷ []) 0 9).0).0
      (walk_loop 3 4 0
        (start_walker 4 5 ∷ start_walker 4 6 ∷ start_walker 4 7 ∷ start_walker 4 8 ∷ [])
        (fill_loop 4 (1 ∷ 2 ∷ []) 0 9).0).1
fill_loop-walk_loop-AreInside_example =
    fill_loop-walk_loop-AreInside 3 4 0 9 5 6 7 8 (1 ∷ 2 ∷ []) (omega arith)
