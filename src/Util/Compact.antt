-- ===== src/Util/Compact.antt =====
-- src/util/binary.ts, compactToTarget and targetToCompact: a difficulty as an exponent and a
-- three-byte mantissa. Targets are never negative, so the test `target <= 0n` is one for zero. For a
-- target below 2 ^ 1000 the exponent stays below 128 and JavaScript's `<< 24` does not overflow.
pub mod Rounding
use browser_coin_native_mine.Prelude.{
  ℕ, zero, suc, ◌+◌, ◌-◌, ◌*◌, ◌/◌, ◌%◌, ◌^◌, true, false, ltb, leb, ◌==◌, if◌then◌else◌,
}

unfoldable pub compact_to_target : ℕ → ℕ
compact_to_target compact =
    let exp = compact / 2 ^ 24 % 256 in
    let mant = compact % 2 ^ 24 in
    if leb exp 3 then mant / 2 ^ (8 * (3 - exp)) else mant * 2 ^ (8 * (exp - 3))

-- The loop `while (t > 0xff_ffffn) { t >>= 8n; exp++; }`. The target itself is fuel enough.
unfoldable pub shrink : ℕ → ℕ → ℕ → ℕ × ℕ
shrink zero t exp = (t, exp)
shrink (suc fuel) t exp = elim (ltb 0xffffff t) [
  | true ↦ shrink fuel (t / 256) (exp + 1)
  | false ↦ (t, exp)
]

-- The mantissa and the exponent are put together, the mantissa's top bit kept clear.
unfoldable pub pack : ℕ × ℕ → ℕ
pack (mant, e) =
    let exp = e + 3 in
    if leb 0x800000 mant
    then ((exp + 1) % 256) * 2 ^ 24 + mant / 256
    else (exp % 256) * 2 ^ 24 + mant

unfoldable pub target_to_compact : ℕ → ℕ
unfolding shrink pack
target_to_compact target = if target == 0 then 0 else pack (shrink target target 0)
