-- ===== src/Chain/Blockchain/Tip/Reach.antt =====
-- The state of the tip, under the operations that add blocks.
use mathlib.Core.Path.{subst}
use browser_coin_native_mine.Prelude.{
  none, some, false, true, ℕ, Bool, ◌≡◌, ok, Option-cases, refl, [], Bool-cases, inr, ltb, inl,
  ok-inj,
}
use browser_coin_native_mine.Chain.Block.{Block, block_hash_hex}
use browser_coin_native_mine.Chain.Blockchain.{
  Blockchain, new_blockchain, tip, ChainBlock, genesis_key, genesis_entry,
}
use browser_coin_native_mine.Chain.Blockchain.Accept.{
  move_tip, store, add_block_with_pow, add_block_internal, AddOptions,
}
use browser_coin_native_mine.Chain.Blockchain.Accepted.{add_to_parent-HasPassed}
use browser_coin_native_mine.Chain.Blockchain.Reach.{
  here, next, adds, resets, adds_validated, adds_with_pow, Step, Reaches,
}
use browser_coin_native_mine.Chain.Blockchain.Tip.{
  tip_state, IsIndex, index_height-IsIndex, IsIndex-kept,
}
use browser_coin_native_mine.Chain.Blockchain.Tip.Kept.{IsLive, prune_states-IsLive}
use browser_coin_native_mine.Chain.Blockchain.Tree.Kept.{lookup-kept}
use browser_coin_native_mine.Chain.Crypto.{Crypto}
use browser_coin_native_mine.Chain.State.{State, empty_state}
use browser_coin_native_mine.Prelude.Dict.{insert, lookup-insert_self, lookup, has}
use browser_coin_native_mine.Util.Hex.{Hex, bytes_to_hex}

-- The tip of some height has its state, and the index is right.
abbrev Lives : Blockchain → Type 0
Lives chain = (h : ℕ) × IsLive chain h

module _ ⦃c : Crypto⦄ where
  store-IsIndex :
      (chain : Blockchain) (key : Hex) (entry : ChainBlock)
      → lookup key chain.blocks ≡ none
      → IsIndex chain.blocks chain.by_height
      → IsIndex (store key entry chain).blocks (store key entry chain).by_height
  unfolding store
  store-IsIndex chain key entry fresh indexed =
      index_height-IsIndex (insert key entry chain.blocks) entry.block.header.height key
        chain.by_height (entry, lookup-insert_self key entry chain.blocks, refl)
        (IsIndex-kept chain.blocks (insert key entry chain.blocks)
          (λ h k at.
            (at.0, lookup-kept (λ n s. Unit) chain.blocks key entry fresh k at.0 at.1, at.2))
          chain.by_height indexed)

  move_tip-Lives :
      (chain chain' : Blockchain) (key : Hex) (entry : ChainBlock) (new_state : State)
      → lookup key chain.blocks ≡ none
      → entry.state ≡ some new_state
      → Lives chain
      → move_tip key entry (store key entry chain) ≡ ok chain'
      → Lives chain'
  unfolding move_tip tip store
  move_tip-Lives chain chain' key entry new_state fresh made (h, live) e =
      let (t, s, found, kept, height) = live.has_state in
      let still = lookup-kept (λ n s. Unit) chain.blocks key entry fresh chain.tip_hash t found in
      let indexed = store-IsIndex chain key entry fresh live.indexed in
      elim (Bool-cases (ltb t.work entry.work)) [
        | inl heavier ↦
            let chain₁ = record (store key entry chain) { tip_hash = key } in
            subst Lives (ok-inj (rw (still, heavier, move_tip) at e)) (
              entry.block.header.height,
              prune_states-IsLive chain₁ entry.block.header.height (record {
                indexed = indexed;
                has_state =
                    (entry, new_state, lookup-insert_self key entry chain.blocks, made, refl);
              }),
            )
        | inr lighter ↦
            subst Lives (ok-inj (rw (still, lighter, move_tip) at e))
              (h, record { indexed = indexed; has_state = (t, s, still, kept, height) })
      ]

  add_block_internal-Lives :
      (chain chain' : Blockchain) (opts : AddOptions) (v : Bool) (now : ℕ) (block : Block)
      → Lives chain
      → add_block_internal chain opts v now block ≡ ok chain'
      → Lives chain'
  unfolding add_block_internal
  add_block_internal-Lives chain chain' opts v now block live e =
      elim (Option-cases (lookup (block_hash_hex block.header) chain.blocks)) [
        | inr (known, found) ↦ subst Lives (ok-inj (rw (found, has, add_block_internal) at e)) live
        | inl fresh ↦
            elim (Option-cases (lookup (bytes_to_hex block.header.prev_hash) chain.blocks)) [
              | inl orphan ↦ absurd (cc (rw (fresh, orphan, has, add_block_internal) at e))
              | inr (parent, found) ↦
                  let (mtp, state, new_state, passed, moved) =
                    add_to_parent-HasPassed chain chain' opts v now block parent found
                      (rw (fresh, found, has, add_block_internal) at e) in
                  move_tip-Lives chain chain' _ _ new_state fresh refl live moved
            ]
      ]

  genesis-Lives : (depth : ℕ) → Lives (new_blockchain depth)
  unfolding new_blockchain insert
  genesis-Lives depth =
      let there = lookup-insert_self genesis_key genesis_entry [] in
      (
        0,
        record {
          indexed = (((genesis_entry, there, refl), tt), tt);
          has_state = (genesis_entry, empty_state, there, refl, refl);
        },
      )

  Step-Lives : {chain chain' : Blockchain} → Step chain chain' → Lives chain → Lives chain'
  unfolding add_block_with_pow
  Step-Lives (adds {chain} {chain'} now block e) live =
      add_block_internal-Lives chain chain' _ _ now block live e
  Step-Lives (adds_validated {chain} {chain'} now block e) live =
      add_block_internal-Lives chain chain' _ false now block live e
  Step-Lives (adds_with_pow {chain} {chain'} true now block e) live =
      add_block_internal-Lives chain chain' _ false now block live e
  Step-Lives (adds_with_pow false now block e) live = absurd (cc)
  Step-Lives (resets {chain}) live = genesis-Lives chain.state_retention_depth

  Reaches-Lives :
      (depth : ℕ) {chain : Blockchain} → Reaches (new_blockchain depth) chain → Lives chain
  Reaches-Lives depth here = genesis-Lives depth
  Reaches-Lives depth (next r s) = Step-Lives s (Reaches-Lives depth r)

  -- However blocks are added to an empty chain, and however few states it retains, `tipState` does not
  -- throw: the state of the tip is never pruned.
  pub Reaches-tip_state :
      (depth : ℕ) {chain : Blockchain}
      → Reaches (new_blockchain depth) chain
      → (s : State) × (tip_state chain ≡ ok s)
  unfolding tip_state tip
  Reaches-tip_state depth {chain} r =
      let (h, live) = Reaches-Lives depth r in
      let (t, s, found, kept, height) = live.has_state in (s, rw (found, kept, tip_state) refl)
