-- ===== src/Chain/Consensus/Asert.antt =====
-- asertTarget: its bounds, and that it stands still on schedule.
use browser_coin_native_mine.Prelude.{ℕ, ◌≡◌, refl, ◌≤◌, arith, ◌+◌, ◌*◌, ap, ◌^◌, ◌∙◌, ◌-◌}
use browser_coin_native_mine.Chain.Consensus.{
  asert_step, clamp_target, asert_target, asert_factor, asert_exponent, floor_target,
}
use browser_coin_native_mine.Chain.Genesis.{target_block_time_s}
use browser_coin_native_mine.Prelude.Int.{scale, quotient, pos, ◌-ℤ◌}
use browser_coin_native_mine.Util.Compact.{compact_to_target}

floor_target_value : floor_target ≡ 2 * 2 ^ 248
unfolding compact_to_target
floor_target_value = refl

clamp_target-bounds : (t : ℕ) → (1 ≤ clamp_target t) × (clamp_target t ≤ floor_target)
unfolding clamp_target
clamp_target-bounds t = ground (arith, floor_target_value)

-- Whatever the heights and timestamps are, the target of the next block is at least 1 and at most the
-- floor of the difficulty.
pub asert_target-bounds :
    (parent_height parent_time anchor_height anchor_time target : ℕ)
    → (1 ≤ asert_target parent_height parent_time anchor_height anchor_time target)
      × (asert_target parent_height parent_time anchor_height anchor_time target ≤ floor_target)
unfolding asert_target asert_step
asert_target-bounds parent_height parent_time anchor_height anchor_time target =
    clamp_target-bounds _

clamp_target-inside : (t : ℕ) → 1 ≤ t → t ≤ floor_target → clamp_target t ≡ t
unfolding clamp_target
clamp_target-inside t h k = ground (arith, floor_target_value)

on_time :
    (parent_height anchor_height anchor_time : ℕ)
    → anchor_height ≤ parent_height
    → asert_exponent parent_height
        (anchor_time + target_block_time_s * (parent_height - anchor_height))
        anchor_height
        anchor_time
      ≡ pos 0
unfolding asert_exponent scale quotient ◌-ℤ◌
on_time parent_height anchor_height anchor_time h = ground arith

asert_factor-zero : asert_factor 0 ≡ 65536
unfolding asert_factor
asert_factor-zero = refl

asert_step-zero : (t : ℕ) → 1 ≤ t → t ≤ floor_target → asert_step (pos 0) t ≡ t
unfolding asert_step
asert_step-zero t h k =
    rw asert_factor-zero (ap clamp_target (omega arith) ∙ clamp_target-inside t h k)

-- A chain that is exactly on schedule since its anchor keeps the anchor's target, if that is at least
-- 1 and at most the floor of the difficulty.
pub asert_target-on_schedule :
    (parent_height anchor_height anchor_time target : ℕ)
    → anchor_height ≤ parent_height
    → 1 ≤ target
    → target ≤ floor_target
    → asert_target parent_height
        (anchor_time + target_block_time_s * (parent_height - anchor_height))
        anchor_height
        anchor_time
        target
      ≡ target
unfolding asert_target
asert_target-on_schedule parent_height anchor_height anchor_time target order low high =
    rw (on_time parent_height anchor_height anchor_time order) (asert_step-zero target low high)
