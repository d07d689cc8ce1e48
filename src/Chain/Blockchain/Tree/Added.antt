-- ===== src/Chain/Blockchain/Tree/Added.antt =====
-- The tree of the known blocks, under addBlockInternal.
use mathlib.Core.Path.{subst}
use browser_coin_native_mine.Prelude.{
  ℕ, ◌≡◌, refl, Bool, ◌+◌, ok, >>=-eq-ok, some, fail_if, Option, not, Option-cases, none, ◌==◌,
  ==_iff, inr, ok-inj, not-false, fail_if-false, Bool-cases, inl, ltb, ltb→lt, arith, sym, ◌≤◌, ◌<◌,
}
use browser_coin_native_mine.Chain.Block.{Block, block_hash_hex}
use browser_coin_native_mine.Chain.Blockchain.{Blockchain, ChainBlock, tip, prune_states}
use browser_coin_native_mine.Chain.Blockchain.Accept.{
  check_header, AddOptions, check_state, move_tip, add_block_internal, add_to_parent, store,
  accepted_entry,
}
use browser_coin_native_mine.Chain.Blockchain.Tree.{IsTree, Holds, Hangs, prune_states-Prunes}
use browser_coin_native_mine.Chain.Blockchain.Tree.Kept.{lookup-kept, insert-IsTree, Prunes-IsTree}
use browser_coin_native_mine.Chain.Crypto.{Crypto}
use browser_coin_native_mine.Chain.State.{State}
use browser_coin_native_mine.Prelude.Dict.{lookup, has, lookup-insert_self}
use browser_coin_native_mine.Util.Hex.{Hex, bytes_to_hex}

module _ ⦃c : Crypto⦄ where
  check_header_height :
      (chain : Blockchain) (opts : AddOptions) (v : Bool) (now : ℕ) (block : Block)
      (parent : ChainBlock) {mtp : ℕ}
      → check_header chain opts v now block parent ≡ ok mtp
      → block.header.height ≡ parent.block.header.height + 1
  unfolding check_header
  check_header_height chain opts v now block parent e =
      let (_, follows, _) =
        >>=-eq-ok (fail_if (not (block.header.height == parent.block.header.height + 1)) _) _ e in
      (==_iff _ _).0 (not-false _ (fail_if-false _ _ follows))

module _ ⦃c : Crypto⦄ (P : ℕ → State → Type 0) (root : Hex) (opts : AddOptions)
    (keeps : (h : ℕ) (state new_state : State) (block : Block) (mtp : ℕ)
      → block.header.height ≡ h + 1
      → P h state
      → check_state opts block mtp (some state) ≡ ok new_state
      → P block.header.height new_state) where
  keeps_option :
      (parent : ChainBlock) (new_state : State) (block : Block) (mtp : ℕ) (st : Option State)
      → block.header.height ≡ parent.block.header.height + 1
      → Holds P parent.block.header.height st
      → check_state opts block mtp st ≡ ok new_state
      → P block.header.height new_state
  unfolding check_state
  keeps_option parent new_state block mtp none height holds e = absurd (cc)
  keeps_option parent new_state block mtp (some state) height holds e =
      keeps parent.block.header.height state new_state block mtp height holds e

  move_tip-IsTree :
      (chain chain' : Blockchain) (key : Hex) (entry : ChainBlock)
      → lookup key chain.blocks ≡ none
      → IsTree P root chain.blocks chain.tip_hash
      → 0 < entry.block.header.height
      → Hangs chain.blocks entry
      → Holds P entry.block.header.height entry.state
      → move_tip key entry (store key entry chain) ≡ ok chain'
      → IsTree P root chain'.blocks chain'.tip_hash
  unfolding move_tip tip store
  move_tip-IsTree chain chain' key entry fresh h positive hang holds e =
      let (t, at_tip, most) = h.heaviest in
      let still = lookup-kept P chain.blocks key entry fresh chain.tip_hash t at_tip in
      elim (Bool-cases (ltb t.work entry.work)) [
        | inl heavier ↦
            let more = ltb→lt _ _ heavier in
            let chain₁ = record (store key entry chain) { tip_hash = key } in
            let moved : prune_states entry.block.header.height chain₁ ≡ chain' =
              ok-inj (rw (still, heavier, move_tip) at e) in
            let tree =
              insert-IsTree P chain.blocks key entry fresh root chain.tip_hash key entry h positive
                hang holds (lookup-insert_self key entry chain.blocks) (omega arith)
                (λ j a f. let below = most j a f in omega (arith, below, more)) in
            let (p, kept) = prune_states-Prunes entry.block.header.height chain₁ in
            subst (λ (b : Blockchain). IsTree P root b.blocks b.tip_hash) moved
              (subst (IsTree P root (prune_states entry.block.header.height chain₁).blocks)
                (sym kept) (Prunes-IsTree P root _ _ key p tree))
        | inr lighter ↦
            let stays : store key entry chain ≡ chain' =
              ok-inj (rw (still, lighter, move_tip) at e) in
            let not_more : entry.work ≤ t.work = ground (arith, lighter) in
            subst (λ (b : Blockchain). IsTree P root b.blocks b.tip_hash) stays
              (insert-IsTree P chain.blocks key entry fresh root chain.tip_hash chain.tip_hash t h
                positive hang holds still not_more most)
      ]

  add_to_parent-IsTree :
      (chain chain' : Blockchain) (v : Bool) (now : ℕ) (block : Block) (parent : ChainBlock)
      → lookup (block_hash_hex block.header) chain.blocks ≡ none
      → lookup (bytes_to_hex block.header.prev_hash) chain.blocks ≡ some parent
      → IsTree P root chain.blocks chain.tip_hash
      → add_to_parent chain opts v now block parent ≡ ok chain'
      → IsTree P root chain'.blocks chain'.tip_hash
  unfolding add_to_parent
  add_to_parent-IsTree chain chain' v now block parent fresh found h e =
      let (mtp, header_ok, e₁) = >>=-eq-ok (check_header chain opts v now block parent) _ e in
      let (new_state, state_ok, e₂) = >>=-eq-ok (check_state opts block mtp parent.state) _ e₁ in
      let height = check_header_height chain opts v now block parent header_ok in
      let holds =
        keeps_option parent new_state block mtp parent.state height
          (h.supplied (bytes_to_hex block.header.prev_hash) parent found) state_ok in
      move_tip-IsTree chain chain' (block_hash_hex block.header)
        (accepted_entry block parent new_state) fresh h (omega (arith, height))
        (inr (parent, found, height, refl)) holds e₂

  -- What the insertion of a block keeps, for a predicate that the application of a block keeps.
  pub add_block_internal-IsTree :
      (chain chain' : Blockchain) (v : Bool) (now : ℕ) (block : Block)
      → IsTree P root chain.blocks chain.tip_hash
      → add_block_internal chain opts v now block ≡ ok chain'
      → IsTree P root chain'.blocks chain'.tip_hash
  unfolding add_block_internal
  add_block_internal-IsTree chain chain' v now block h e =
      elim (Option-cases (lookup (block_hash_hex block.header) chain.blocks)) [
        | inr (known, found) ↦
            let same : chain ≡ chain' = ok-inj (rw (found, has, add_block_internal) at e) in
            subst (λ (b : Blockchain). IsTree P root b.blocks b.tip_hash) same h
        | inl fresh ↦
            elim (Option-cases (lookup (bytes_to_hex block.header.prev_hash) chain.blocks)) [
              | inl orphan ↦ absurd (cc (rw (fresh, orphan, has, add_block_internal) at e))
              | inr (parent, found) ↦
                  add_to_parent-IsTree chain chain' v now block parent fresh found h
                    (rw (fresh, found, has, add_block_internal) at e)
            ]
      ]
