-- ===== src/Chain/Consensus/Tests.antt =====
-- Difficulties of concrete headers.
use browser_coin_native_mine.Prelude.{ℕ, ◌≡◌, refl, ◌≤◌, [], ◌+◌, ◌∷◌, ◌*◌, some, ok, arith}
use browser_coin_native_mine.Chain.Block.{BlockHeader}
use browser_coin_native_mine.Chain.Consensus.{
  next_difficulty, asert_target, emergency_drop, asert_step, floor_target, asert_exponent,
  asert_factor, clamp_target,
}
use browser_coin_native_mine.Chain.Consensus.Asert.{asert_target-bounds, asert_target-on_schedule}
use browser_coin_native_mine.Chain.Consensus.Difficulty.{next_difficulty-after_anchor}
use browser_coin_native_mine.Prelude.Int.{scale, quotient, ◌-ℤ◌, ◌+ℤ◌}
use browser_coin_native_mine.Util.Compact.{compact_to_target, target_to_compact}

abbrev header_at : ℕ → ℕ → BlockHeader
header_at height timestamp = record {
  height = height;
  prev_hash = [];
  tx_root = [];
  state_root = [];
  timestamp = timestamp;
  difficulty = 0x20010000;
  nonce = 0;
  miner = [];
}

abbrev anchor : BlockHeader
anchor = header_at 35_550 1_785_000_000

abbrev grand : BlockHeader
grand = header_at 35_549 1_784_999_900

-- An hour behind schedule, the target grows to the floor.
late : asert_target 1 (3600 + 150) 0 0 1000 ≡ 64000
unfolding asert_target asert_step asert_exponent asert_factor clamp_target compact_to_target scale
    quotient ◌-ℤ◌ ◌+ℤ◌
late = refl

asert_target-on_schedule_example : asert_target 110 (5_000 + 150 * 10) 100 5_000 123_456 ≡ 123_456
unfolding compact_to_target
asert_target-on_schedule_example =
    asert_target-on_schedule 110 100 5_000 123_456 (omega arith) (omega arith) (omega arith)

asert_target-bounds_example :
    (1 ≤ asert_target 1 3750 0 0 1000) × (asert_target 1 3750 0 0 1000 ≤ floor_target)
asert_target-bounds_example = asert_target-bounds 1 3750 0 0 1000

next_difficulty-after_anchor_example :
    next_difficulty 35_551 (grand ∷ anchor ∷ []) (some 1_785_000_100) (some anchor)
    ≡ ok (target_to_compact (compact_to_target 0x20010000))
unfolding emergency_drop compact_to_target
next_difficulty-after_anchor_example =
    next_difficulty-after_anchor [] grand anchor (some 1_785_000_100) refl refl (omega arith)
      (omega arith)
