-- ===== src/Tools/Partition.antt =====
-- tools/pool-partition.ts: the nonces of a worker pool. The number of workers and the bounds are
-- natural numbers, on which `Math.floor` does nothing.
pub mod Tiling
mod Tests
use browser_coin_native_mine.Prelude.{
  ℕ, zero, suc, List, max, [], min, ◌+◌, ◌-◌, ◌*◌, if◌then◌else◌, ◌/◌, ◌==◌, ◌∷◌,
}

abbrev pub nonce_space : ℕ
nonce_space = 0x100000000

pub record NonceRange : Type 0 where
  pub start : ℕ
  pub end : ℕ

-- The loop, `k` rounds from the worker `i` of `n`.
unfoldable pub ranges_from : ℕ → ℕ → ℕ → ℕ → ℕ → ℕ → List NonceRange
ranges_from n lo hi step zero i = []
ranges_from n lo hi step (suc k) i =
    record { start = lo + i * step; end = if i == n - 1 then hi else lo + (i + 1) * step }
    ∷ ranges_from n lo hi step k (i + 1)

unfoldable pub partition_nonce_space : ℕ → ℕ → ℕ → List NonceRange
partition_nonce_space workers space_start space_end =
    let n = max 1 workers in
    let lo = min space_start nonce_space in
    let hi = max lo (min space_end nonce_space) in
    let step = (hi - lo) / n in ranges_from n lo hi step n 0
