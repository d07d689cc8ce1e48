-- ===== src/Chain/Blockchain/Tip/Kept.antt =====
-- The state of the tip, under pruneStates.
use mathlib.Core.Path.{subst}
use browser_coin_native_mine.Prelude.{
  none, some, ℕ, ◌≡◌, ◌<◌, ◌+◌, List, Option-cases, ◌≤◌, suc, All, inl, ◌∷◌, arith, inr, some-inj,
  zero, sym, refl, bytes_eq, false, ◌∙◌, Bool-cases, ap, bytes_eq_iff, [], ltb, ◌-◌,
}
use browser_coin_native_mine.Chain.Blockchain.{
  prune_rounds, prune_states, prune_height, clear_state, Blockchain, clear_states, ChainBlock,
  at_height,
}
use browser_coin_native_mine.Chain.Blockchain.Tip.{
  IsAt, IsIndex, drop_height-IsIndex, at_height-IsAt, IsIndex-kept, All-kept, Prunes-IsAt,
}
use browser_coin_native_mine.Chain.Blockchain.Tree.{clear_state-Prunes, clear_states-Prunes}
use browser_coin_native_mine.Chain.State.{State}
use browser_coin_native_mine.Prelude.Dict.{Dict, lookup, lookup-insert}
use browser_coin_native_mine.Util.Hex.{Hex}

-- The tip is known at this height, with its state.
abbrev pub HasState : Dict ChainBlock → Hex → ℕ → Type 0
HasState blocks key h =
    (e : ChainBlock) × (s : State) × (lookup key blocks ≡ some e)
    × (e.state ≡ some s)
    × (e.block.header.height ≡ h)

-- Another block's state is cleared.
clear_state-HasState :
    (blocks : Dict ChainBlock) (tip_key k : Hex) (h : ℕ)
    → ¬ (tip_key ≡ k)
    → HasState blocks tip_key h
    → HasState (clear_state k blocks) tip_key h
unfolding clear_state
clear_state-HasState blocks tip_key k h apart (e, s, found, kept, height) =
    elim (Option-cases (lookup k blocks)) [
      | inl absent ↦ rw (absent, clear_state) (e, s, found, kept, height)
      | inr (cb, there) ↦
          let other : bytes_eq tip_key k ≡ false = elim (Bool-cases (bytes_eq tip_key k)) [
            | inl same ↦ absurd (apart ((bytes_eq_iff tip_key k).0 same))
            | inr differ ↦ differ
          ] in
          rw (there, clear_state)
            (
              e,
              s,
              rw (lookup-insert tip_key k (record cb { state = none }) blocks, other) found,
              kept,
              height,
            )
    ]

-- Blocks of a lower height are not the tip.
clear_states-HasState :
    (blocks : Dict ChainBlock) (tip_key : Hex) (h low : ℕ) (keys : List Hex)
    → low < h
    → All (IsAt blocks low) keys
    → HasState blocks tip_key h
    → HasState (clear_states keys blocks) tip_key h
unfolding clear_states
clear_states-HasState blocks tip_key h low [] below all has_state = has_state
clear_states-HasState blocks tip_key h low (k ∷ keys) below all has_state =
    clear_states-HasState (clear_state k blocks) tip_key h low keys below
      (All-kept blocks (clear_state k blocks)
        (Prunes-IsAt blocks (clear_state k blocks) (clear_state-Prunes k blocks)) low keys all.1)
      (clear_state-HasState blocks tip_key k h apart has_state)
  where
    apart : ¬ (tip_key ≡ k)
    apart same =
        let (e, found, low_height) = all.0 in
        let (t, s, t_found, kept, height) = has_state in
        let one : e ≡ t =
          some-inj (sym found ∙ ap (λ (j : Hex). lookup j blocks) (sym same) ∙ t_found) in
        let heights : e.block.header.height ≡ t.block.header.height =
          ap (λ (b : ChainBlock). b.block.header.height) one in
        omega (arith, heights, low_height, height, below)

-- The index is right, and the tip has its state and stands at this height.
pub record IsLive (chain : Blockchain) (h : ℕ) : Type 0 where
  pub indexed : IsIndex chain.blocks chain.by_height
  pub has_state : HasState chain.blocks chain.tip_hash h

prune_height-IsLive :
    (chain : Blockchain) (h : ℕ)
    → chain.prune_floor < h
    → IsLive chain h
    → IsLive (prune_height chain) h
unfolding prune_height
prune_height-IsLive chain h below live =
    elim (Option-cases (at_height chain.prune_floor chain.by_height)) [
      | inl absent ↦
          rw (absent, prune_height) (record { indexed = live.indexed; has_state = live.has_state })
      | inr (keys, found) ↦
          let rest =
            drop_height-IsIndex chain.blocks chain.prune_floor chain.by_height live.indexed in
          let bucket =
            at_height-IsAt chain.blocks chain.prune_floor chain.by_height keys found live.indexed in
          rw (found, prune_height)
            (record {
              indexed =
                  IsIndex-kept chain.blocks (clear_states keys chain.blocks)
                    (Prunes-IsAt chain.blocks (clear_states keys chain.blocks)
                      (clear_states-Prunes keys chain.blocks))
                    _ rest;
              has_state =
                  clear_states-HasState chain.blocks chain.tip_hash h chain.prune_floor keys below
                    bucket live.has_state;
            })
    ]

prune_height-floor : (chain : Blockchain) → (prune_height chain).prune_floor ≡ chain.prune_floor + 1
unfolding prune_height
prune_height-floor chain = elim (Option-cases (at_height chain.prune_floor chain.by_height)) [
  | inl absent ↦ rw (absent, prune_height) refl
  | inr (keys, found) ↦ rw (found, prune_height) refl
]

prune_rounds-IsLive :
    (k : ℕ) (chain : Blockchain) (h : ℕ)
    → chain.prune_floor + k ≤ h
    → IsLive chain h
    → IsLive (prune_rounds k chain) h
unfolding prune_rounds
prune_rounds-IsLive zero chain h below live = live
prune_rounds-IsLive (suc k) chain h below live =
    let floor = prune_height-floor chain in
    prune_rounds-IsLive k (prune_height chain) h (omega (arith, floor, below))
      (prune_height-IsLive chain h (omega (arith, below)) live)

pub prune_states-IsLive :
    (chain : Blockchain) (h : ℕ) → IsLive chain h → IsLive (prune_states h chain) h
unfolding prune_states prune_rounds
prune_states-IsLive chain h live = elim (Bool-cases (ltb h chain.prune_floor)) [
  | inl above ↦
      let none_left : h - chain.state_retention_depth - chain.prune_floor ≡ 0 =
        ground (arith, above) in
      subst (λ (k : ℕ). IsLive (prune_rounds k chain) h) (sym none_left) live
  | inr reached ↦
      prune_rounds-IsLive (h - chain.state_retention_depth - chain.prune_floor) chain h
        (ground (arith, reached)) live
]
