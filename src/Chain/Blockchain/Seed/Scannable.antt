-- ===== src/Chain/Blockchain/Seed/Scannable.antt =====
-- src/chain/blockchain.ts: the cursor of lowestBodylessHeight, under the operations that change it or the
-- heights without a body.
use mathlib.Core.Path.{subst}
use browser_coin_native_mine.Prelude.{
  Option, ◌≡◌, ℕ, ok, Option-cases, suc, some, ◌<◌, none, Bool-cases, inl, inr, ◌∙◌, ◌==◌, zero,
  ◌||◌, ltb, refl, ok-inj, ◌≤◌, >>=-eq-ok, fail_if, arith, not, ◌+◌, ==_iff, not-false,
  fail_if-false, [], false,
}
use browser_coin_native_mine.Chain.Block.{
  BlockHeader, Block, block_hash_hex, block_size, compute_tx_root,
}
use browser_coin_native_mine.Chain.Blockchain.{
  prune_rounds, Blockchain, tip, prune_height, prune_states, ChainBlock, at_height,
}
use browser_coin_native_mine.Chain.Blockchain.Accept.{move_tip, store, differs}
use browser_coin_native_mine.Chain.Blockchain.Seed.{
  attach_body, store_bodyless, seed_bodyless, with_body, anchor_tip, seeded_entry,
}
use browser_coin_native_mine.Chain.Blockchain.Seed.Lowest.{
  IsScannable, set_height-All, All-imp, drop_height-All,
}
use browser_coin_native_mine.Chain.Crypto.{Crypto}
use browser_coin_native_mine.Chain.Genesis.{max_block_bytes}
use browser_coin_native_mine.Chain.State.{State}
use browser_coin_native_mine.Prelude.Dict.{lookup, insert, has}
use browser_coin_native_mine.Util.Hex.{Hex, bytes_to_hex}

module _ ⦃c : Crypto⦄ where
  store_bodyless-IsScannable :
      (key : Hex) (entry : ChainBlock) (chain : Blockchain)
      → 0 < entry.block.header.height
      → IsScannable chain
      → IsScannable (store_bodyless key entry chain)
  unfolding store_bodyless store
  store_bodyless-IsScannable key entry chain positive h =
      elim (Bool-cases
        (chain.bodyless_low == 0 || ltb entry.block.header.height chain.bodyless_low)) [
          | inl lower ↦
              rw (lower, store_bodyless)
                (set_height-All
                  (λ n. (0 < entry.block.header.height) × (entry.block.header.height ≤ n)) _ key
                  chain.bodyless_by_height (positive, omega arith)
                  (All-imp (λ n. (0 < chain.bodyless_low) × (chain.bodyless_low ≤ n)) _
                    (λ n old. (positive, ground (arith, old, lower))) chain.bodyless_by_height h))
          | inr higher ↦
              rw (higher, store_bodyless)
                (set_height-All (λ n. (0 < chain.bodyless_low) × (chain.bodyless_low ≤ n)) _ key
                  chain.bodyless_by_height (ground (arith, higher)) h)
        ]

  anchor_tip-IsScannable :
      (state : Option State) (key : Hex) (chain : Blockchain)
      → IsScannable chain
      → IsScannable (anchor_tip state key chain)
  anchor_tip-IsScannable none key chain h = h
  anchor_tip-IsScannable (some state) key chain h = h

  pub seed_bodyless-IsScannable :
      (chain chain' : Blockchain) (header : BlockHeader) (state : Option State)
      → IsScannable chain
      → seed_bodyless chain header state ≡ ok chain'
      → IsScannable chain'
  unfolding seed_bodyless
  seed_bodyless-IsScannable chain chain' header state h e =
      elim (Option-cases (lookup (block_hash_hex header) chain.blocks)) [
        | inr (known, found) ↦ subst IsScannable (ok-inj (rw (found, has, seed_bodyless) at e)) h
        | inl fresh ↦ elim (Option-cases (lookup (bytes_to_hex header.prev_hash) chain.blocks)) [
          | inl orphan ↦ absurd (cc (rw (fresh, orphan, has, seed_bodyless) at e))
          | inr (parent, found) ↦
              let (_, follows, e₁) =
                >>=-eq-ok (fail_if (not (header.height == parent.block.header.height + 1)) _) _
                  (rw (fresh, found, has, seed_bodyless) at e) in
              let height = (==_iff _ _).0 (not-false _ (fail_if-false _ _ follows)) in
              let stored =
                store_bodyless-IsScannable (block_hash_hex header)
                  (seeded_entry (record { header = header; transactions = [] }) state false parent)
                  chain (omega (arith, height)) h in
              subst IsScannable (ok-inj e₁) (anchor_tip-IsScannable state _ _ stored)
        ]
      ]

  pub attach_body-IsScannable :
      (chain chain' : Blockchain) (block : Block)
      → IsScannable chain
      → attach_body chain block ≡ ok chain'
      → IsScannable chain'
  unfolding attach_body with_body
  attach_body-IsScannable chain chain' block h e =
      elim (Option-cases (lookup (block_hash_hex block.header) chain.blocks)) [
        | inl absent ↦ absurd (cc (rw (absent, attach_body) at e))
        | inr (entry, found) ↦ elim (Bool-cases entry.has_body) [
          | inl full ↦ subst IsScannable (ok-inj (rw (found, full, attach_body) at e)) h
          | inr empty ↦
              let (_, _, e₁) =
                >>=-eq-ok (fail_if (ltb max_block_bytes (block_size block)) _) _
                  (rw (found, empty, attach_body) at e) in
              let (_, _, e₂) =
                >>=-eq-ok
                  (fail_if (differs (compute_tx_root block.transactions) block.header.tx_root) _) _
                  e₁ in
              subst IsScannable (ok-inj e₂) (
                drop_height-All (λ n. (0 < chain.bodyless_low) × (chain.bodyless_low ≤ n)) _
                  chain.bodyless_by_height h)
        ]
      ]

  -- What a block's other bookkeeping leaves as it was.
  abbrev pub SameBodyless : Blockchain → Blockchain → Type 0
  SameBodyless a b =
      (a.bodyless_by_height ≡ b.bodyless_by_height) × (a.bodyless_low ≡ b.bodyless_low)

  pub SameBodyless-IsScannable :
      (a b : Blockchain) → SameBodyless a b → IsScannable b → IsScannable a
  SameBodyless-IsScannable a b (rows, low) h = rw (rows, low) h

  prune_rounds-SameBodyless :
      (k : ℕ) (chain : Blockchain) → SameBodyless (prune_rounds k chain) chain
  unfolding prune_rounds prune_height
  prune_rounds-SameBodyless zero chain = (refl, refl)
  prune_rounds-SameBodyless (suc k) chain =
      let (rows, low) = prune_rounds-SameBodyless k (prune_height chain) in
      elim (Option-cases (at_height chain.prune_floor chain.by_height)) [
        | inl absent ↦ (rows ∙ rw (absent, prune_height) refl, low ∙ rw (absent, prune_height) refl)
        | inr (keys, found) ↦
            (rows ∙ rw (found, prune_height) refl, low ∙ rw (found, prune_height) refl)
      ]

  pub move_tip-SameBodyless :
      (key : Hex) (entry : ChainBlock) (chain chain' : Blockchain)
      → move_tip key entry (store key entry chain) ≡ ok chain'
      → SameBodyless chain' chain
  unfolding move_tip tip store prune_states
  move_tip-SameBodyless key entry chain chain' e =
      elim (Option-cases (lookup chain.tip_hash (insert key entry chain.blocks))) [
        | inl gone ↦ absurd (cc (rw (gone, move_tip) at e))
        | inr (t, found) ↦ elim (Bool-cases (ltb t.work entry.work)) [
          | inl heavier ↦
              subst (λ (b : Blockchain). SameBodyless b chain)
                (ok-inj (rw (found, heavier, move_tip) at e))
                (prune_rounds-SameBodyless _ (record (store key entry chain) { tip_hash = key }))
          | inr lighter ↦
              subst (λ (b : Blockchain). SameBodyless b chain)
                (ok-inj (rw (found, lighter, move_tip) at e)) (refl, refl)
        ]
      ]
