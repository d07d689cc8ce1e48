-- ===== src/Chain/Supply.antt =====
-- src/chain/genesis.ts, blockReward: the sum of the rewards up to a height.
use native.Mathlib.Nat.{mod-lt, div-div-eq-div-mul}
use native.Mathlib.Numerals.{unary_clauses}
use browser_coin_native_mine.Prelude.{
  ℕ, ◌≡◌, zero, suc, ◌≤◌, ◌/◌, ◌*◌, ◌-◌, ◌+◌, arith, if◌then◌else◌, ◌%◌, ◌^◌, refl, Bool-cases, leb,
  ◌<◌, ltb, inl, ltb→lt, inr, sym,
}
use browser_coin_native_mine.Chain.Genesis.{block_reward, max_money, initial_reward}

-- The coins that the blocks up to a height have made; the genesis block makes none.
pub supply : ℕ → ℕ
supply zero = 0
supply (suc h) = supply h + block_reward (suc h)

-- The reward in an interval.
rate : ℕ → ℕ
rate k = if leb 64 k then 0 else initial_reward / 2 ^ k

block_reward-rate : (h : ℕ) → block_reward h ≡ rate (h / 210_000)
unfolding block_reward rate
block_reward-rate h = refl

halved : (k : ℕ) → 2 * (initial_reward / 2 ^ suc k) ≤ initial_reward / 2 ^ k
halved k =
    let split = div-div-eq-div-mul initial_reward (2 ^ k) 2 in
    let power : 2 ^ suc k ≡ 2 ^ k * 2 = simp unary_clauses refl in
    rw (power, sym split) (omega arith)

rate-suc : (k : ℕ) → 2 * rate (suc k) ≤ rate k
unfolding rate
rate-suc k = let half = halved k in ground (arith, half)

-- What is still to be made in the interval, and a bound of what the later ones make.
left : ℕ → ℕ
left h = (209_999 - h % 210_000) * rate (h / 210_000) + 210_000 * rate (h / 210_000)

same_interval :
    (h : ℕ)
    → suc (h % 210_000) < 210_000
    → (suc h / 210_000 ≡ h / 210_000) × (suc h % 210_000 ≡ suc (h % 210_000))
same_interval h l = (omega (arith, l), omega (arith, l))

next_interval :
    (h : ℕ) → h % 210_000 ≡ 209_999 → (suc h / 210_000 ≡ suc (h / 210_000)) × (suc h % 210_000 ≡ 0)
next_interval h l = (omega (arith, l), omega (arith, l))

left-suc : (h : ℕ) → block_reward (suc h) + left (suc h) ≤ left h
unfolding left
left-suc h = elim (Bool-cases (ltb (suc (h % 210_000)) 210_000)) [
  | inl inside ↦
      let (q, m) = same_interval h (ltb→lt _ _ inside) in
      let gap : 209_999 - h % 210_000 ≡ suc (209_999 - suc (h % 210_000)) =
        ground (arith, inside) in
      rw (block_reward-rate, q, m, gap) simp unary_clauses (omega arith)
  | inr last ↦
      let at_end : h % 210_000 ≡ 209_999 =
        let b : h % 210_000 < 210_000 = mod-lt h (omega arith) in ground (arith, last, b) in
      let (q, m) = next_interval h at_end in
      let half = rate-suc (h / 210_000) in
      rw (block_reward-rate, q, m, at_end) (omega (arith, half))
]

supply-left : (h : ℕ) → supply h + left h ≤ max_money
unfolding supply left rate
supply-left zero = omega arith
supply-left (suc h) =
    let more = left-suc h in let before = supply-left h in omega (arith, more, before)

pub supply-bound : (h : ℕ) → supply h ≤ max_money
supply-bound h = let all = supply-left h in omega (arith, all)

pub supply-next : (h : ℕ) → supply (h + 1) ≡ supply h + block_reward (h + 1)
unfolding supply
supply-next h = simp unary_clauses refl

pub supply-zero : supply 0 ≡ 0
unfolding supply
supply-zero = refl
