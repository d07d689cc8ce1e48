-- ===== src/Chain/Blockchain/Seed/Missing.antt =====
-- src/chain/blockchain.ts: the entries without a body and their index, under every operation that
-- changes a chain.
use mathlib.Core.Path.{subst}
use browser_coin_native_mine.Prelude.{
  ℕ, ◌≡◌, Bool, inl, [], none, Option, ◌⊎◌, inr, ok, Option-cases, some, ok-inj, Bool-cases, ltb,
  true, false, refl, >>=-eq-ok, fail_if, not, ◌==◌, ◌+◌, length, ◌<◌, ◌≤◌, arith, ap, sym,
}
use browser_coin_native_mine.Chain.Block.{
  Block, BlockHeader, block_hash_hex, block_size, compute_tx_root,
}
use browser_coin_native_mine.Chain.Blockchain.{
  at_height, new_blockchain, Blockchain, tip, ChainBlock, genesis_key, genesis_entry, prune_states,
}
use browser_coin_native_mine.Chain.Blockchain.Accept.{
  add_block_internal, AddOptions, store, move_tip, differs,
}
use browser_coin_native_mine.Chain.Blockchain.Accepted.{add_to_parent-HasPassed}
use browser_coin_native_mine.Chain.Blockchain.Seed.{
  seed_historical_block, lowest_bodyless_height, move_seeded_tip, seed_bodyless, attach_body,
  anchor_tip, seeded_entry, store_bodyless, with_body,
}
use browser_coin_native_mine.Chain.Blockchain.Seed.Indexed.{
  IsMissing, IsIndexed, SameMissing, SameMissing-self, SameMissing-trans, SameMissing-IsIndexed,
  insert-SameMissing,
}
use browser_coin_native_mine.Chain.Blockchain.Seed.Kept.{
  prune_rounds-SameMissing, insert-IsIndexed, with_body-IsIndexed,
}
use browser_coin_native_mine.Chain.Blockchain.Seed.Lowest.{
  lowest_bodyless_height-IsLowest, at_height-All,
}
use browser_coin_native_mine.Chain.Blockchain.Seed.Reach.{
  SyncStep, adds, seeds_block, seeds_header, seeds_anchor, attaches, scans, starts_again, Syncs,
  unchanged, then_step, Syncs-IsScannable, IsInLine, add_block_internal-SameBodyless,
  seed_historical_block-SameBodyless,
}
use browser_coin_native_mine.Chain.Crypto.{Crypto}
use browser_coin_native_mine.Chain.Genesis.{max_block_bytes}
use browser_coin_native_mine.Chain.State.{State}
use browser_coin_native_mine.Prelude.Dict.{lookup, has, insert}
use browser_coin_native_mine.Util.Hex.{Hex, bytes_to_hex}

module _ ⦃c : Crypto⦄ where
  move_tip-SameMissing :
      (key : Hex) (entry : ChainBlock) (chain chain' : Blockchain)
      → lookup key chain.blocks ≡ none
      → entry.has_body ≡ true
      → move_tip key entry (store key entry chain) ≡ ok chain'
      → SameMissing chain'.blocks chain.blocks
  unfolding move_tip tip store prune_states
  move_tip-SameMissing key entry chain chain' fresh full e =
      let stored = insert-SameMissing chain.blocks key entry fresh full in
      elim (Option-cases (lookup chain.tip_hash (insert key entry chain.blocks))) [
        | inl gone ↦ absurd (cc (rw (gone, move_tip) at e))
        | inr (t, found) ↦ elim (Bool-cases (ltb t.work entry.work)) [
          | inl heavier ↦
              subst (λ (b : Blockchain). SameMissing b.blocks chain.blocks)
                (ok-inj (rw (found, heavier, move_tip) at e))
                (SameMissing-trans _ _ _
                  (prune_rounds-SameMissing _ (record (store key entry chain) { tip_hash = key }))
                  stored)
          | inr lighter ↦
              subst (λ (b : Blockchain). SameMissing b.blocks chain.blocks)
                (ok-inj (rw (found, lighter, move_tip) at e)) stored
        ]
      ]

  add_block_internal-SameMissing :
      (chain chain' : Blockchain) (opts : AddOptions) (v : Bool) (now : ℕ) (block : Block)
      → add_block_internal chain opts v now block ≡ ok chain'
      → SameMissing chain'.blocks chain.blocks
  unfolding add_block_internal
  add_block_internal-SameMissing chain chain' opts v now block e =
      elim (Option-cases (lookup (block_hash_hex block.header) chain.blocks)) [
        | inr (known, found) ↦
            subst (λ (b : Blockchain). SameMissing b.blocks chain.blocks)
              (ok-inj (rw (found, has, add_block_internal) at e)) (SameMissing-self chain.blocks)
        | inl fresh ↦
            elim (Option-cases (lookup (bytes_to_hex block.header.prev_hash) chain.blocks)) [
              | inl orphan ↦ absurd (cc (rw (fresh, orphan, has, add_block_internal) at e))
              | inr (parent, found) ↦
                  let (mtp, state, new_state, passed, moved) =
                    add_to_parent-HasPassed chain chain' opts v now block parent found
                      (rw (fresh, found, has, add_block_internal) at e) in
                  move_tip-SameMissing _ _ chain chain' fresh refl moved
            ]
      ]

  move_seeded_tip-blocks :
      (key : Hex) (entry : ChainBlock) (chain chain' : Blockchain)
      → move_seeded_tip key entry chain ≡ ok chain'
      → chain.blocks ≡ chain'.blocks
  unfolding move_seeded_tip tip
  move_seeded_tip-blocks key entry chain chain' e = elim (Option-cases entry.state) [
    | inr (state, there) ↦
        ap (λ (b : Blockchain). b.blocks) (ok-inj (rw (there, move_seeded_tip) at e))
    | inl without ↦ elim (Option-cases (lookup chain.tip_hash chain.blocks)) [
      | inl gone ↦ absurd (cc (rw (without, gone, move_seeded_tip) at e))
      | inr (t, found) ↦ elim (Bool-cases (ltb t.work entry.work)) [
        | inl heavier ↦
            ap (λ (b : Blockchain). b.blocks)
              (ok-inj (rw (without, found, heavier, move_seeded_tip) at e))
        | inr lighter ↦
            ap (λ (b : Blockchain). b.blocks)
              (ok-inj (rw (without, found, lighter, move_seeded_tip) at e))
      ]
    ]
  ]

  seed_historical_block-SameMissing :
      (chain chain' : Blockchain) (block : Block) (state : Option State)
      → seed_historical_block chain block state ≡ ok chain'
      → SameMissing chain'.blocks chain.blocks
  unfolding seed_historical_block store
  seed_historical_block-SameMissing chain chain' block state e =
      elim (Option-cases (lookup (block_hash_hex block.header) chain.blocks)) [
        | inr (known, found) ↦
            subst (λ (b : Blockchain). SameMissing b.blocks chain.blocks)
              (ok-inj (rw (found, has, seed_historical_block) at e)) (SameMissing-self chain.blocks)
        | inl fresh ↦
            elim (Option-cases (lookup (bytes_to_hex block.header.prev_hash) chain.blocks)) [
              | inl orphan ↦ absurd (cc (rw (fresh, orphan, has, seed_historical_block) at e))
              | inr (parent, found) ↦
                  let (_, follows, moved) =
                    >>=-eq-ok
                      (fail_if (not (block.header.height == parent.block.header.height + 1)) _) _
                      (rw (fresh, found, has, seed_historical_block) at e) in
                  subst (λ b. SameMissing b chain.blocks)
                    (move_seeded_tip-blocks _ _ (store _ _ chain) chain' moved)
                    (insert-SameMissing chain.blocks _ (seeded_entry block state true parent) fresh
                      refl)
            ]
      ]

  -- The index is right for this chain.
  abbrev Indexed : Blockchain → Type 0
  Indexed chain = IsIndexed chain.blocks chain.bodyless_by_height

  anchor_tip-Indexed :
      (state : Option State) (key : Hex) (chain : Blockchain)
      → Indexed chain
      → Indexed (anchor_tip state key chain)
  anchor_tip-Indexed none key chain i = i
  anchor_tip-Indexed (some state) key chain i = i

  seed_bodyless-Indexed :
      (chain chain' : Blockchain) (header : BlockHeader) (state : Option State)
      → IsInLine chain header
      → Indexed chain
      → seed_bodyless chain header state ≡ ok chain'
      → Indexed chain'
  unfolding seed_bodyless store_bodyless store
  seed_bodyless-Indexed chain chain' header state line i e =
      elim (Option-cases (lookup (block_hash_hex header) chain.blocks)) [
        | inr (known, found) ↦ subst Indexed (ok-inj (rw (found, has, seed_bodyless) at e)) i
        | inl fresh ↦ elim (Option-cases (lookup (bytes_to_hex header.prev_hash) chain.blocks)) [
          | inl orphan ↦ absurd (cc (rw (fresh, orphan, has, seed_bodyless) at e))
          | inr (parent, found) ↦
              let (_, follows, e₁) =
                >>=-eq-ok (fail_if (not (header.height == parent.block.header.height + 1)) _) _
                  (rw (fresh, found, has, seed_bodyless) at e) in
              let free : at_height header.height chain.bodyless_by_height ≡ none = elim line [
                | inl known ↦ absurd (cc (rw (fresh, has) at known))
                | inr free ↦ free
              ] in
              subst Indexed (ok-inj e₁) (
                anchor_tip-Indexed state _ _ (
                  insert-IsIndexed chain.blocks chain.bodyless_by_height (block_hash_hex header)
                    (seeded_entry (record { header = header; transactions = [] }) state false
                      parent)
                    fresh refl free i))
        ]
      ]

  attach_body-Indexed :
      (chain chain' : Blockchain) (block : Block) (entry : ChainBlock)
      → lookup (block_hash_hex block.header) chain.blocks ≡ some entry
      → entry.block.header ≡ block.header
      → Indexed chain
      → attach_body chain block ≡ ok chain'
      → Indexed chain'
  unfolding attach_body with_body
  attach_body-Indexed chain chain' block entry found same i e = elim (Bool-cases entry.has_body) [
    | inl full ↦ subst Indexed (ok-inj (rw (found, full, attach_body) at e)) i
    | inr empty ↦
        let (_, _, e₁) =
          >>=-eq-ok (fail_if (ltb max_block_bytes (block_size block)) _) _
            (rw (found, empty, attach_body) at e) in
        let (_, _, e₂) =
          >>=-eq-ok (fail_if (differs (compute_tx_root block.transactions) block.header.tx_root) _)
            _ e₁ in
        subst Indexed (ok-inj e₂) (with_body-IsIndexed _ entry block chain found empty same i)
  ]

  -- The entries have the same bodies, and the index is the same.
  same-Indexed :
      (chain chain' : Blockchain)
      → SameMissing chain'.blocks chain.blocks
      → chain'.bodyless_by_height ≡ chain.bodyless_by_height
      → Indexed chain
      → Indexed chain'
  same-Indexed chain chain' same rows i =
      subst (λ r. IsIndexed chain'.blocks r) (sym rows)
        (SameMissing-IsIndexed chain'.blocks chain.blocks chain.bodyless_by_height same i)

  scan-Indexed : (chain : Blockchain) → Indexed chain → Indexed (lowest_bodyless_height chain).1
  unfolding lowest_bodyless_height
  scan-Indexed chain i = elim (Bool-cases (length chain.bodyless_by_height == 0)) [
    | inl empty ↦ rw (empty, lowest_bodyless_height) i
    | inr some_rows ↦ rw (some_rows, lowest_bodyless_height) i
  ]

  empty-IsIndexed : IsIndexed [] []
  unfolding at_height lookup
  empty-IsIndexed = record {
    heights = tt;
    listed = λ key h m. let found = m.found in absurd (cc found);
    real = λ key h e. absurd (cc e);
  }

  new_blockchain-Indexed : (depth : ℕ) → Indexed (new_blockchain depth)
  unfolding new_blockchain insert lookup
  new_blockchain-Indexed depth =
      SameMissing-IsIndexed _ [] [] (insert-SameMissing [] genesis_key genesis_entry refl refl)
        empty-IsIndexed

  SyncStep-Indexed :
      {chain chain' : Blockchain} → SyncStep chain chain' → Indexed chain → Indexed chain'
  SyncStep-Indexed {chain} {chain'} (adds opts v now block e) i =
      same-Indexed chain chain' (add_block_internal-SameMissing chain chain' opts v now block e)
        (add_block_internal-SameBodyless chain chain' opts v now block e).0 i
  SyncStep-Indexed {chain} {chain'} (seeds_block block state e) i =
      same-Indexed chain chain' (seed_historical_block-SameMissing chain chain' block state e)
        (seed_historical_block-SameBodyless chain chain' block state e).0 i
  SyncStep-Indexed {chain} {chain'} (seeds_header header line e) i =
      seed_bodyless-Indexed chain chain' header none line i e
  SyncStep-Indexed {chain} {chain'} (seeds_anchor header state line e) i =
      seed_bodyless-Indexed chain chain' header (some state) line i e
  SyncStep-Indexed {chain} {chain'} (attaches block entry found same e) i =
      attach_body-Indexed chain chain' block entry found same i e
  SyncStep-Indexed {chain} scans i = scan-Indexed chain i
  SyncStep-Indexed {chain} starts_again i = new_blockchain-Indexed chain.state_retention_depth

  Syncs-Indexed :
      (depth : ℕ) {chain : Blockchain} → Syncs (new_blockchain depth) chain → Indexed chain
  Syncs-Indexed depth unchanged = new_blockchain-Indexed depth
  Syncs-Indexed depth (then_step r s) = SyncStep-Indexed s (Syncs-Indexed depth r)

  -- Every known block has its body and the height is 0, or it is the lowest height of a known block
  -- without its body.
  abbrev pub IsLowestMissing : Blockchain → ℕ → Type 0
  IsLowestMissing chain low =
      ((low ≡ 0)
        × ((key : Hex) (entry : ChainBlock)
            → lookup key chain.blocks ≡ some entry
            → entry.has_body ≡ true))
      ⊎ ((0 < low)
          × ((key : Hex) × IsMissing chain.blocks key low)
          × ((key : Hex) (h : ℕ) → IsMissing chain.blocks key h → low ≤ h))

  -- On every chain that was made from an empty one by adding blocks, seeding blocks, headers and an
  -- anchor, attaching bodies, scans and resets, in any order, where headers are seeded along one line and
  -- a body is attached to the header that it has: the scan of `lowestBodylessHeight` ends. It ends at 0
  -- where every known block has its body, and else at the lowest height of a known block without its
  -- body.
  pub Syncs-IsLowestMissing :
      (depth : ℕ) {chain : Blockchain}
      → Syncs (new_blockchain depth) chain
      → IsLowestMissing chain (lowest_bodyless_height chain).0
  unfolding at_height
  Syncs-IsLowestMissing depth {chain} r =
      let i = Syncs-Indexed depth r in
      let scannable = Syncs-IsScannable depth r in
      elim (lowest_bodyless_height-IsLowest chain scannable) [
        | inl (empty, zeroed) ↦ inl (
          zeroed,
          (λ key entry found. elim (Bool-cases entry.has_body) [
            | inl full ↦ full
            | inr lacks ↦
                let listed =
                  i.listed key entry.block.header.height
                    (record { entry = entry; found = found; empty = lacks; level = refl }) in
                absurd (cc (rw empty at listed))
          ]),
        )
        | inr low ↦
            let (positive, above) =
              at_height-All (λ n. (0 < chain.bodyless_low) × (chain.bodyless_low ≤ n)) _ low.key _
                low.found scannable in
            inr (
              omega (arith, positive, above),
              (low.key, i.real low.key _ low.found),
              (λ key h m.
                  at_height-All (λ n. (lowest_bodyless_height chain).0 ≤ n) h key
                    chain.bodyless_by_height (i.listed key h m) low.least),
            )
      ]
