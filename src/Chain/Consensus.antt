-- ===== src/Chain/Consensus.antt =====
-- src/chain/consensus.ts and src/chain/fork.ts: the difficulty of the next block, its work, and the
-- median-time-past. Asert, Difficulty and Median have the theorems. Heights and timestamps are
-- natural numbers; their differences are integers. `target << shifts` of asertTarget throws a RangeError
-- once the shift is larger than the engine's limit on a BigInt, which only a timestamp that no check
-- has seen can cause; the model shifts by any number.
pub mod Asert
pub mod Difficulty
pub mod Median
mod Tests
use browser_coin_native_mine.Prelude.{
  ℕ, zero, suc, List, ◌/◌, Bool, ◌^◌, ◌+◌, Option, if◌then◌else◌, Result, none, leb, get_elem?, ◌∷◌,
  map, ◌*◌, drop, ◌==◌, ◌%◌, [], length, some, err, ltb, ◌-◌, ok, ◌&&◌,
}
use browser_coin_native_mine.Chain.Block.{BlockHeader}
use browser_coin_native_mine.Chain.Genesis.{
  genesis_difficulty_compact, sandglass_anchor_attempts, sandglass_fork_height,
  sandglass_anchor_timestamp, fork1_activation_time, emergency_drop_mult,
  sandglass_anchor_clamp_blocks, sandglass2_anchor_height, mtp_window, genesis_timestamp,
  target_block_time_s, halflife_s,
}
use browser_coin_native_mine.Prelude.Int.{ℤ, sub_ℕ, pos, negsuc, quotient, ◌+ℤ◌, scale, ◌-ℤ◌}
use browser_coin_native_mine.Util.Compact.{compact_to_target, target_to_compact}

abbrev pub floor_target : ℕ
floor_target = compact_to_target genesis_difficulty_compact

abbrev pub anchor_target : ℕ
anchor_target = compact_to_target genesis_difficulty_compact

abbrev pub sandglass_anchor_target : ℕ
sandglass_anchor_target = 2 ^ 256 / sandglass_anchor_attempts

abbrev pub sandglass_anchor_difficulty_compact : ℕ
sandglass_anchor_difficulty_compact = target_to_compact sandglass_anchor_target

-- `((timeDiff - heightDiff * spacing) << 16) / halflife`, where `/` on a `bigint` cuts towards zero.
unfoldable pub asert_exponent : ℕ → ℕ → ℕ → ℕ → ℤ
asert_exponent parent_height parent_time anchor_height anchor_time =
    let height_diff = sub_ℕ parent_height anchor_height in
    let time_diff = sub_ℕ parent_time anchor_time in
    quotient (scale 0x10000 (time_diff -ℤ scale target_block_time_s height_diff)) halflife_s

-- `exponent >> 16n`, which rounds down.
abbrev pub whole_shifts : ℤ → ℤ
whole_shifts (pos n) = pos (n / 0x10000)
whole_shifts (negsuc n) = negsuc (n / 0x10000)

-- `((exponent % 65536n) + 65536n) % 65536n`
abbrev pub fraction : ℤ → ℕ
fraction (pos n) = (n % 65536 + 65536) % 65536
fraction (negsuc n) = (65536 - suc n % 65536) % 65536

-- The cubic approximation of 2 ^ (frac / 65536), in units of 1 / 65536.
unfoldable pub asert_factor : ℕ → ℕ
asert_factor frac =
    65536
    + (195766423245049 * frac + 971821376 * frac * frac + 5127 * frac * frac * frac + 2 ^ 47)
      / 2 ^ 48

-- `target >> -shifts` or `target << shifts`
abbrev pub shift_target : ℤ → ℕ → ℕ
shift_target (pos n) target = target * 2 ^ n
shift_target (negsuc n) target = target / 2 ^ suc n

-- The result is at least 1 and at most the floor of the difficulty.
unfoldable pub clamp_target : ℕ → ℕ
clamp_target target =
    let target = if leb target 0 then 1 else target in
    if ltb floor_target target then floor_target else target

-- The steps behind the exponent. The fraction is below 65536 and is never carried.
unfoldable pub asert_step : ℤ → ℕ → ℕ
asert_step exponent target =
    let frac = fraction exponent in
    let carried = leb 65536 frac in
    let shifts = if carried then whole_shifts exponent +ℤ pos 1 else whole_shifts exponent in
    let frac = if carried then frac - 65536 else frac in
    clamp_target (shift_target shifts (target * asert_factor frac) / 2 ^ 16)

unfoldable pub asert_target : ℕ → ℕ → ℕ → ℕ → ℕ → ℕ
asert_target parent_height parent_time anchor_height anchor_time target =
    asert_step (asert_exponent parent_height parent_time anchor_height anchor_time) target

-- `previousHeaders[length - 1]` and `previousHeaders[length - 2]`.
abbrev pub last_two : List BlockHeader → Option (BlockHeader × Option BlockHeader)
last_two [] = none
last_two (prev ∷ []) = some (prev, none)
last_two (grand ∷ prev ∷ []) = some (prev, some grand)
last_two (header ∷ grand ∷ prev ∷ headers) = last_two (grand ∷ prev ∷ headers)

-- Twice the parent's target, and at most the floor.
abbrev eased : ℕ → ℕ
eased target =
    let dropped = target * 2 in
    target_to_compact (if ltb floor_target dropped then floor_target else dropped)

-- It is due if both the parent and the candidate were slow; `a - b > limit` is the same on natural
-- numbers.
unfoldable pub emergency_drop : BlockHeader → Option BlockHeader → Option ℕ → Option ℕ
emergency_drop prev (some grand) (some candidate) =
    let limit = emergency_drop_mult * target_block_time_s in
    if ltb 0 grand.height
      && ltb limit (prev.timestamp - grand.timestamp)
      && ltb limit (candidate - prev.timestamp)
    then some (eased (compact_to_target prev.difficulty))
    else none
emergency_drop prev (some grand) none = none
emergency_drop prev none candidate = none

-- Fork #3: anchored on the real header of block 35,550.
unfoldable pub fork3_difficulty : BlockHeader → Option BlockHeader → Result ℕ
fork3_difficulty prev none = err "fork #3 anchor header missing"
fork3_difficulty prev (some anchor) =
    if anchor.height == sandglass2_anchor_height
    then ok (
        target_to_compact (
          asert_target prev.height prev.timestamp anchor.height anchor.timestamp
            (compact_to_target anchor.difficulty)))
    else err "fork #3 anchor header wrong"

-- The band around the reset of fork #2.
abbrev pub clamp_band : ℕ → ℕ
clamp_band t =
    let hardest = sandglass_anchor_target / 4 in
    let easiest = sandglass_anchor_target * 4 in
    if ltb t hardest then hardest else if ltb easiest t then easiest else t

unfoldable pub fork2_difficulty : ℕ → BlockHeader → ℕ
fork2_difficulty next_height prev =
    let t =
      asert_target prev.height prev.timestamp sandglass_fork_height sandglass_anchor_timestamp
        sandglass_anchor_target in
    target_to_compact (
      if leb next_height (sandglass_fork_height + sandglass_anchor_clamp_blocks)
      then clamp_band t
      else t)

-- The regime of a height behind the resets, when no emergency drop is due.
unfoldable pub scheduled_difficulty : ℕ → BlockHeader → Option BlockHeader → Result ℕ
scheduled_difficulty next_height prev anchor =
    if ltb sandglass2_anchor_height next_height
    then fork3_difficulty prev anchor
    else if ltb sandglass_fork_height next_height
    then ok (fork2_difficulty next_height prev)
    else ok (
        target_to_compact
          (asert_target prev.height prev.timestamp 0 genesis_timestamp anchor_target))

abbrev pub after_parent :
    ℕ → Option ℕ → Option BlockHeader → Option (BlockHeader × Option BlockHeader) → Result ℕ
after_parent next_height candidate anchor none =
    err "Cannot read properties of undefined (reading 'difficulty')"
after_parent next_height candidate anchor (some (prev, grand)) =
    elim (emergency_drop prev grand candidate) [
      | some dropped ↦ ok dropped
      | none ↦ scheduled_difficulty next_height prev anchor
    ]

unfoldable pub next_difficulty : ℕ → List BlockHeader → Option ℕ → Option BlockHeader → Result ℕ
next_difficulty next_height previous_headers candidate anchor =
    if next_height == 0
    then ok genesis_difficulty_compact
    else if next_height == sandglass_fork_height
    then ok sandglass_anchor_difficulty_compact
    else after_parent next_height candidate anchor (last_two previous_headers)

unfoldable pub block_work : ℕ → ℕ
block_work difficulty_compact =
    let target = compact_to_target difficulty_compact in
    if leb target 0 then 0 else 2 ^ 256 / (target + 1)

-- `ts.sort((a, b) => a - b)`
unfoldable pub insert_sorted : ℕ → List ℕ → List ℕ
insert_sorted t [] = t ∷ []
insert_sorted t (u ∷ us) = if leb t u then t ∷ u ∷ us else u ∷ insert_sorted t us

unfoldable pub sort : List ℕ → List ℕ
sort [] = []
sort (t ∷ ts) = insert_sorted t (sort ts)

abbrev timestamp_of : BlockHeader → ℕ
timestamp_of h = h.timestamp

-- The timestamps from `max(0, endIdx - MTP_WINDOW + 1)` to `endIdx`, for the last index.
unfoldable pub window : List BlockHeader → List ℕ
window headers = map timestamp_of (drop (length headers - mtp_window) headers)

unfoldable pub median_time_past : List BlockHeader → ℕ
median_time_past headers =
    let ts = window headers in elim (get_elem? (sort ts) (length ts / 2)) [ some t ↦ t | none ↦ 0 ]

-- `scriptsActiveForMtp`, at the activation time that is compiled in.
abbrev pub scripts_active_for_mtp : ℕ → Bool
scripts_active_for_mtp block_mtp = leb fork1_activation_time block_mtp
