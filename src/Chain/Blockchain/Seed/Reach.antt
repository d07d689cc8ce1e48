-- ===== src/Chain/Blockchain/Seed/Reach.antt =====
-- src/chain/blockchain.ts: every operation that changes a chain, in any order.
use mathlib.Core.Path.{subst}
use browser_coin_native_mine.Prelude.{
  ℕ, ◌≡◌, true, Bool, inl, none, Option, ◌⊎◌, inr, ok, Option-cases, some, ok-inj, Bool-cases, ltb,
  refl, >>=-eq-ok, fail_if, not, ◌==◌, ◌+◌, length, ◌<◌, ◌≤◌, arith,
}
use browser_coin_native_mine.Chain.Block.{Block, BlockHeader, block_hash_hex}
use browser_coin_native_mine.Chain.Blockchain.{
  at_height, new_blockchain, Blockchain, tip, ChainBlock, reset,
}
use browser_coin_native_mine.Chain.Blockchain.Accept.{add_block_internal, AddOptions, store}
use browser_coin_native_mine.Chain.Blockchain.Accepted.{add_to_parent-HasPassed}
use browser_coin_native_mine.Chain.Blockchain.Seed.{
  seed_historical_block, lowest_bodyless_height, move_seeded_tip, seed_header, seed_anchor,
  attach_body,
}
use browser_coin_native_mine.Chain.Blockchain.Seed.Lowest.{
  IsScannable, lowest_bodyless_height-IsLowest, at_height-All, All-imp,
}
use browser_coin_native_mine.Chain.Blockchain.Seed.Scannable.{
  SameBodyless, SameBodyless-IsScannable, seed_bodyless-IsScannable, attach_body-IsScannable,
  move_tip-SameBodyless,
}
use browser_coin_native_mine.Chain.Crypto.{Crypto}
use browser_coin_native_mine.Chain.State.{State}
use browser_coin_native_mine.Prelude.Dict.{lookup, has}
use browser_coin_native_mine.Util.Hex.{Hex, bytes_to_hex}

module _ ⦃c : Crypto⦄ where
  -- The header is known, or no body is missing at its height.
  abbrev pub IsInLine : Blockchain → BlockHeader → Type 0
  IsInLine chain header =
      (has (block_hash_hex header) chain.blocks ≡ true)
      ⊎ (at_height header.height chain.bodyless_by_height ≡ none)

  -- A call that changes the chain and did not fail. Headers are seeded along one line, and a body is
  -- attached to the header that it has, as no two headers have one hash.
  pub data SyncStep (chain : Blockchain) : Blockchain → Type 0 where
    adds :
        {chain' : Blockchain} (opts : AddOptions) (pow_valid : Bool) (now : ℕ) (block : Block)
        → add_block_internal chain opts pow_valid now block ≡ ok chain'
        → SyncStep chain chain'
    seeds_block :
        {chain' : Blockchain} (block : Block) (state : Option State)
        → seed_historical_block chain block state ≡ ok chain'
        → SyncStep chain chain'
    seeds_header :
        {chain' : Blockchain} (header : BlockHeader)
        → IsInLine chain header
        → seed_header chain header ≡ ok chain'
        → SyncStep chain chain'
    seeds_anchor :
        {chain' : Blockchain} (header : BlockHeader) (state : State)
        → IsInLine chain header
        → seed_anchor chain header state ≡ ok chain'
        → SyncStep chain chain'
    attaches :
        {chain' : Blockchain} (block : Block) (entry : ChainBlock)
        → lookup (block_hash_hex block.header) chain.blocks ≡ some entry
        → entry.block.header ≡ block.header
        → attach_body chain block ≡ ok chain'
        → SyncStep chain chain'
    scans : SyncStep chain (lowest_bodyless_height chain).1
    starts_again : SyncStep chain (reset chain)

  pub data Syncs (chain : Blockchain) : Blockchain → Type 0 where
    unchanged : Syncs chain chain
    then_step : {mid last : Blockchain} → Syncs chain mid → SyncStep mid last → Syncs chain last

  pub add_block_internal-SameBodyless :
      (chain chain' : Blockchain) (opts : AddOptions) (v : Bool) (now : ℕ) (block : Block)
      → add_block_internal chain opts v now block ≡ ok chain'
      → SameBodyless chain' chain
  unfolding add_block_internal
  add_block_internal-SameBodyless chain chain' opts v now block e =
      elim (Option-cases (lookup (block_hash_hex block.header) chain.blocks)) [
        | inr (known, found) ↦
            subst (λ (b : Blockchain). SameBodyless b chain)
              (ok-inj (rw (found, has, add_block_internal) at e)) (refl, refl)
        | inl fresh ↦
            elim (Option-cases (lookup (bytes_to_hex block.header.prev_hash) chain.blocks)) [
              | inl orphan ↦ absurd (cc (rw (fresh, orphan, has, add_block_internal) at e))
              | inr (parent, found) ↦
                  let (mtp, state, new_state, passed, moved) =
                    add_to_parent-HasPassed chain chain' opts v now block parent found
                      (rw (fresh, found, has, add_block_internal) at e) in
                  move_tip-SameBodyless _ _ chain chain' moved
            ]
      ]

  move_seeded_tip-SameBodyless :
      (key : Hex) (entry : ChainBlock) (chain chain' : Blockchain)
      → move_seeded_tip key entry chain ≡ ok chain'
      → SameBodyless chain' chain
  unfolding move_seeded_tip tip
  move_seeded_tip-SameBodyless key entry chain chain' e = elim (Option-cases entry.state) [
    | inr (state, there) ↦
        subst (λ (b : Blockchain). SameBodyless b chain) (ok-inj (rw (there, move_seeded_tip) at e))
          (refl, refl)
    | inl without ↦ elim (Option-cases (lookup chain.tip_hash chain.blocks)) [
      | inl gone ↦ absurd (cc (rw (without, gone, move_seeded_tip) at e))
      | inr (t, found) ↦ elim (Bool-cases (ltb t.work entry.work)) [
        | inl heavier ↦
            subst (λ (b : Blockchain). SameBodyless b chain)
              (ok-inj (rw (without, found, heavier, move_seeded_tip) at e)) (refl, refl)
        | inr lighter ↦
            subst (λ (b : Blockchain). SameBodyless b chain)
              (ok-inj (rw (without, found, lighter, move_seeded_tip) at e)) (refl, refl)
      ]
    ]
  ]

  pub seed_historical_block-SameBodyless :
      (chain chain' : Blockchain) (block : Block) (state : Option State)
      → seed_historical_block chain block state ≡ ok chain'
      → SameBodyless chain' chain
  unfolding seed_historical_block store
  seed_historical_block-SameBodyless chain chain' block state e =
      elim (Option-cases (lookup (block_hash_hex block.header) chain.blocks)) [
        | inr (known, found) ↦
            subst (λ (b : Blockchain). SameBodyless b chain)
              (ok-inj (rw (found, has, seed_historical_block) at e)) (refl, refl)
        | inl fresh ↦
            elim (Option-cases (lookup (bytes_to_hex block.header.prev_hash) chain.blocks)) [
              | inl orphan ↦ absurd (cc (rw (fresh, orphan, has, seed_historical_block) at e))
              | inr (parent, found) ↦
                  let (_, follows, moved) =
                    >>=-eq-ok
                      (fail_if (not (block.header.height == parent.block.header.height + 1)) _) _
                      (rw (fresh, found, has, seed_historical_block) at e) in
                  move_seeded_tip-SameBodyless _ _ (store _ _ chain) chain' moved
            ]
      ]

  -- The scan leaves the cursor at its result.
  scan_result :
      (chain : Blockchain)
      → ((lowest_bodyless_height chain).1.bodyless_by_height ≡ chain.bodyless_by_height)
        × ((lowest_bodyless_height chain).1.bodyless_low ≡ (lowest_bodyless_height chain).0)
  unfolding lowest_bodyless_height
  scan_result chain = elim (Bool-cases (length chain.bodyless_by_height == 0)) [
    | inl empty ↦ rw (empty, lowest_bodyless_height) (refl, refl)
    | inr some_rows ↦ rw (some_rows, lowest_bodyless_height) (refl, refl)
  ]

  pub lowest-IsScannable :
      (chain : Blockchain) → IsScannable chain → IsScannable (lowest_bodyless_height chain).1
  lowest-IsScannable chain h =
      let (rows, cursor) = scan_result chain in
      elim (lowest_bodyless_height-IsLowest chain h) [
        | inl (empty, zeroed) ↦ rw (rows, empty) tt
        | inr low ↦
            let (positive, above) =
              at_height-All (λ n. (0 < chain.bodyless_low) × (chain.bodyless_low ≤ n)) _ low.key _
                low.found h in
            let above_zero : 0 < (lowest_bodyless_height chain).0 =
              omega (arith, positive, above) in
            rw (rows, cursor)
              (All-imp (λ n. (lowest_bodyless_height chain).0 ≤ n) _
                (λ n least. (above_zero, least)) chain.bodyless_by_height low.least)
      ]

  SyncStep-IsScannable :
      {chain chain' : Blockchain} → SyncStep chain chain' → IsScannable chain → IsScannable chain'
  unfolding new_blockchain
  SyncStep-IsScannable {chain} {chain'} (adds opts v now block e) h =
      SameBodyless-IsScannable chain' chain
        (add_block_internal-SameBodyless chain chain' opts v now block e) h
  SyncStep-IsScannable {chain} {chain'} (seeds_block block state e) h =
      SameBodyless-IsScannable chain' chain
        (seed_historical_block-SameBodyless chain chain' block state e) h
  SyncStep-IsScannable {chain} {chain'} (seeds_header header line e) h =
      seed_bodyless-IsScannable chain chain' header none h e
  SyncStep-IsScannable {chain} {chain'} (seeds_anchor header state line e) h =
      seed_bodyless-IsScannable chain chain' header (some state) h e
  SyncStep-IsScannable {chain} {chain'} (attaches block entry found same e) h =
      attach_body-IsScannable chain chain' block h e
  SyncStep-IsScannable {chain} scans h = lowest-IsScannable chain h
  SyncStep-IsScannable starts_again h = tt

  pub Syncs-IsScannable :
      (depth : ℕ) {chain : Blockchain} → Syncs (new_blockchain depth) chain → IsScannable chain
  unfolding new_blockchain
  Syncs-IsScannable depth unchanged = tt
  Syncs-IsScannable depth (then_step r s) = SyncStep-IsScannable s (Syncs-IsScannable depth r)
