-- ===== src/Chain/Consensus/Difficulty.antt =====
-- nextDifficulty: what of the chain it depends on, and where the difficulty carries over.
use browser_coin_native_mine.Prelude.{
  ℕ, ◌≡◌, refl, List, Option, ◌≤◌, ◌++◌, ◌∷◌, some, none, ok, [], ◌+◌, ap, arith, ==_iff, ◌∙◌,
}
use browser_coin_native_mine.Chain.Block.{BlockHeader}
use browser_coin_native_mine.Chain.Consensus.{
  scheduled_difficulty, next_difficulty, last_two, fork3_difficulty, after_parent, emergency_drop,
  floor_target, asert_target,
}
use browser_coin_native_mine.Chain.Consensus.Asert.{asert_target-on_schedule}
use browser_coin_native_mine.Chain.Genesis.{sandglass2_anchor_height}
use browser_coin_native_mine.Util.Compact.{compact_to_target, target_to_compact}

last_two-append :
    (headers : List BlockHeader) (grand prev : BlockHeader)
    → last_two (headers ++ (grand ∷ prev ∷ [])) ≡ some (prev, some grand)
last_two-append [] grand prev = refl
last_two-append (h ∷ []) grand prev = refl
last_two-append (h ∷ h₁ ∷ []) grand prev = refl
last_two-append (h ∷ h₁ ∷ h₂ ∷ headers) grand prev = last_two-append (h₁ ∷ h₂ ∷ headers) grand prev

-- How many headers are passed makes no difference, as long as there are two: full nodes and
-- fast-syncing tabs, which pass windows of different lengths, agree.
pub next_difficulty_window :
    (next_height : ℕ) (longer shorter : List BlockHeader) (grand prev : BlockHeader)
    (candidate : Option ℕ) (anchor : Option BlockHeader)
    → next_difficulty next_height (longer ++ (grand ∷ prev ∷ [])) candidate anchor
      ≡ next_difficulty next_height (shorter ++ (grand ∷ prev ∷ [])) candidate anchor
unfolding next_difficulty
next_difficulty_window next_height longer shorter grand prev candidate anchor =
    rw (last_two-append longer grand prev, last_two-append shorter grand prev) refl

after_anchor :
    (anchor : BlockHeader)
    → 1 ≤ compact_to_target anchor.difficulty
    → compact_to_target anchor.difficulty ≤ floor_target
    → asert_target anchor.height anchor.timestamp anchor.height anchor.timestamp
        (compact_to_target anchor.difficulty)
      ≡ compact_to_target anchor.difficulty
after_anchor anchor low high =
    ap
      (λ t.
        asert_target anchor.height t anchor.height anchor.timestamp
          (compact_to_target anchor.difficulty))
      (omega arith)
    ∙ asert_target-on_schedule anchor.height anchor.height anchor.timestamp _ (omega arith) low high

-- The first block above the anchor of fork #3 carries the anchor's difficulty over, in canonical
-- form, if no emergency drop is due and the anchor's target is one that a block can have.
pub next_difficulty-after_anchor :
    (headers : List BlockHeader) (grand anchor : BlockHeader) (candidate : Option ℕ)
    → anchor.height ≡ sandglass2_anchor_height
    → emergency_drop anchor (some grand) candidate ≡ none
    → 1 ≤ compact_to_target anchor.difficulty
    → compact_to_target anchor.difficulty ≤ floor_target
    → next_difficulty
        (sandglass2_anchor_height + 1)
        (headers ++ (grand ∷ anchor ∷ []))
        candidate
        (some anchor)
      ≡ ok (target_to_compact (compact_to_target anchor.difficulty))
unfolding next_difficulty scheduled_difficulty fork3_difficulty
next_difficulty-after_anchor headers grand anchor candidate h not_due low high =
    rw
      (
        last_two-append headers grand anchor,
        not_due,
        after_parent,
        (==_iff _ _).1 h,
        after_anchor anchor low high,
      )
      refl
