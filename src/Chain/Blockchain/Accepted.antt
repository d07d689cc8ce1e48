-- ===== src/Chain/Blockchain/Accepted.antt =====
-- src/chain/blockchain.ts, addBlockInternal: the checks that a stored block has passed.
use mathlib.Core.Path.{subst}
use browser_coin_native_mine.Prelude.{
  Bool, Bytes, List, not, ◌&&◌, ◌≡◌, ℕ, ok, false, true, All, ◌⊎◌, not-false, ◌∷◌, inl, inr,
  >>=-eq-ok, some, [], refl, ◌+◌, ◌≤◌, ◌<◌, fail_if, Option, if◌then◌else◌, ok-inj, ◌==◌, none, ltb,
  Bool-cases, leb, ◌∙◌, ==_iff, sym, fail_if-false, arith, ap, Option-cases,
}
use browser_coin_native_mine.Chain.Block.{Block, block_size, compute_tx_root, block_hash_hex}
use browser_coin_native_mine.Chain.Blockchain.{
  Blockchain, ChainBlock, get_recent_headers, retarget_lookback, tip,
}
use browser_coin_native_mine.Chain.Blockchain.Accept.{
  add_block_internal, check_structures, differs, AddOptions, add_to_parent, check_header,
  check_state, move_tip, accepted_entry, store, add_block,
}
use browser_coin_native_mine.Chain.Blockchain.Tree.{Cleared, prune_states-Prunes}
use browser_coin_native_mine.Chain.Consensus.{
  next_difficulty, median_time_past, scripts_active_for_mtp,
}
use browser_coin_native_mine.Chain.Crypto.{Crypto}
use browser_coin_native_mine.Chain.Genesis.{max_block_bytes, max_future_time_s, mtp_window}
use browser_coin_native_mine.Chain.Pow.{check_pow}
use browser_coin_native_mine.Chain.State.{State, apply_block_txs}
use browser_coin_native_mine.Chain.State.Root.{state_root}
use browser_coin_native_mine.Chain.Transaction.{Transaction}
use browser_coin_native_mine.Chain.Transaction.Validate.{validate_tx_structure}
use browser_coin_native_mine.Prelude.Dict.{lookup, lookup-insert_self, has, insert}
use browser_coin_native_mine.Util.Compare.{compare_bytes-eq}
use browser_coin_native_mine.Util.Hex.{bytes_to_hex, Hex}

module _ ⦃c : Crypto⦄ where
  -- What was checked of a block against its parent, for the median-time-past and the new state.
  pub record HasPassed (chain : Blockchain) (opts : AddOptions) (pow_valid : Bool) (now : ℕ)
      (block : Block) (parent : ChainBlock) (mtp : ℕ) (state new_state : State) : Type 0 where
    pub parent_found : lookup (bytes_to_hex block.header.prev_hash) chain.blocks ≡ some parent
    pub parent_state : parent.state ≡ some state
    pub height_follows : block.header.height ≡ parent.block.header.height + 1
    pub size_fits : block_size block ≤ max_block_bytes
    pub on_schedule :
        next_difficulty block.header.height
          (get_recent_headers retarget_lookback chain (bytes_to_hex block.header.prev_hash))
          (some block.header.timestamp)
          parent.sandglass2_anchor
        ≡ ok block.header.difficulty
    pub not_future : block.header.timestamp ≤ now + max_future_time_s
    pub mtp_known :
        median_time_past (get_recent_headers mtp_window chain (bytes_to_hex block.header.prev_hash))
        ≡ mtp
    pub after_mtp : (mtp ≡ 0) ⊎ (mtp < block.header.timestamp)
    pub work_done : (opts.skip_pow ≡ true) ⊎ (pow_valid ≡ true)
    pub txs_committed : compute_tx_root block.transactions ≡ block.header.tx_root
    pub structures :
        (opts.skip_tx_sig ≡ true) ⊎ All (λ tx. validate_tx_structure tx ≡ ok tt) block.transactions
    pub applied :
        apply_block_txs state block.header.height block.header.miner block.transactions
          (scripts_active_for_mtp mtp)
          mtp
        ≡ ok new_state
    pub state_committed :
        (opts.skip_state_root ≡ true) ⊎ (state_root new_state ≡ block.header.state_root)

  -- One of two flags that are off together only where a block is refused.
  either : (a b : Bool) → (not a && not b) ≡ false → (a ≡ true) ⊎ (b ≡ true)
  either true b e = inl refl
  either false true e = inr refl
  either false false e = cc

  pub matches : (a b : Bytes) → differs a b ≡ false → a ≡ b
  matches a b e = compare_bytes-eq a b (not-false _ e)

  check_structures-All :
      (txs : List Transaction)
      → check_structures txs ≡ ok tt
      → All (λ tx. validate_tx_structure tx ≡ ok tt) txs
  unfolding check_structures
  check_structures-All [] e = tt
  check_structures-All (tx ∷ txs) e =
      let (u, first, rest) = >>=-eq-ok (validate_tx_structure tx) _ e in
      (first, check_structures-All txs rest)

  -- The header part.
  pub check_header_lem :
      (chain : Blockchain) (opts : AddOptions) (v : Bool) (now : ℕ) (block : Block)
      (parent : ChainBlock) {mtp : ℕ}
      → check_header chain opts v now block parent ≡ ok mtp
      → (block.header.height ≡ parent.block.header.height + 1)
        × (block_size block ≤ max_block_bytes)
        × (next_difficulty block.header.height
              (get_recent_headers retarget_lookback chain (bytes_to_hex block.header.prev_hash))
              (some block.header.timestamp)
              parent.sandglass2_anchor
            ≡ ok block.header.difficulty)
        × (block.header.timestamp ≤ now + max_future_time_s)
        × (median_time_past
              (get_recent_headers mtp_window chain (bytes_to_hex block.header.prev_hash))
            ≡ mtp)
        × ((mtp ≡ 0) ⊎ (mtp < block.header.timestamp))
        × ((opts.skip_pow ≡ true) ⊎ (v ≡ true))
        × (compute_tx_root block.transactions ≡ block.header.tx_root)
  unfolding check_header
  check_header_lem chain opts v now block parent e =
      let header = block.header in
      let key = bytes_to_hex header.prev_hash in
      let median = median_time_past (get_recent_headers mtp_window chain key) in
      let (_, height, e₁) =
        >>=-eq-ok (fail_if (not (header.height == parent.block.header.height + 1)) _) _ e in
      let (_, size, e₂) = >>=-eq-ok (fail_if (ltb max_block_bytes (block_size block)) _) _ e₁ in
      let (expected, schedule, e₃) =
        >>=-eq-ok
          (next_difficulty header.height (get_recent_headers retarget_lookback chain key)
            (some header.timestamp) parent.sandglass2_anchor)
          _ e₂ in
      let (_, difficulty, e₄) = >>=-eq-ok (fail_if (not (header.difficulty == expected)) _) _ e₃ in
      let (_, future, e₅) =
        >>=-eq-ok (fail_if (ltb (now + max_future_time_s) header.timestamp) _) _ e₄ in
      let (_, past, e₆) =
        >>=-eq-ok (fail_if (ltb 0 median && leb header.timestamp median) _) _ e₅ in
      let (_, pow, e₇) = >>=-eq-ok (fail_if (not opts.skip_pow && not v) _) _ e₆ in
      let (_, root, e₈) =
        >>=-eq-ok (fail_if (differs (compute_tx_root block.transactions) header.tx_root) _) _ e₇ in
      let same =
        (==_iff header.difficulty expected).0 (not-false _ (fail_if-false _ _ difficulty)) in
      let no_future = fail_if-false _ _ future in
      let no_past = fail_if-false _ _ past in
      let fits = fail_if-false _ _ size in
      let is_mtp = ok-inj e₈ in
      (
        (==_iff _ _).0 (not-false _ (fail_if-false _ _ height)),
        ground (arith, fits),
        schedule ∙ ap ok (sym same),
        ground (arith, no_future),
        is_mtp,
        rw (sym is_mtp) (ground (arith, no_past)),
        either opts.skip_pow v (fail_if-false _ _ pow),
        matches _ _ (fail_if-false _ _ root),
      )

  -- The state part.
  pub check_state_lem :
      (opts : AddOptions) (block : Block) (mtp : ℕ) (state new_state : State)
      → check_state opts block mtp (some state) ≡ ok new_state
      → ((opts.skip_tx_sig ≡ true)
          ⊎ All (λ tx. validate_tx_structure tx ≡ ok tt) block.transactions)
        × (apply_block_txs state block.header.height block.header.miner block.transactions
              (scripts_active_for_mtp mtp)
              mtp
            ≡ ok new_state)
        × ((opts.skip_state_root ≡ true) ⊎ (state_root new_state ≡ block.header.state_root))
  unfolding check_state
  check_state_lem opts block mtp state new_state e =
      let txs = block.transactions in
      let (_, structures, e₁) =
        >>=-eq-ok (if opts.skip_tx_sig then ok tt else check_structures txs) _ e in
      let (s', applied, e₂) =
        >>=-eq-ok
          (apply_block_txs state block.header.height block.header.miner txs
            (scripts_active_for_mtp mtp) mtp)
          _ e₁ in
      let (_, root, e₃) =
        >>=-eq-ok
          (fail_if (not opts.skip_state_root && differs (state_root s') block.header.state_root) _)
          _ e₂ in
      let same = ok-inj e₃ in
      (
        elim (Bool-cases opts.skip_tx_sig) [
          | inl skipped ↦ inl skipped
          | inr asked ↦ inr (check_structures-All txs (rw asked at structures))
        ],
        applied ∙ e₃,
        rw (sym same) (elim (Bool-cases opts.skip_state_root) [
          | inl skipped ↦ inl skipped
          | inr asked ↦ inr (matches _ _ (rw asked at (fail_if-false _ _ root)))
        ]),
      )

  -- The parent's state is there.
  state_there :
      (opts : AddOptions) (block : Block) (mtp : ℕ) (st : Option State) {new_state : State}
      → check_state opts block mtp st ≡ ok new_state
      → (state : State) × (st ≡ some state)
  unfolding check_state
  state_there opts block mtp none e = absurd (cc)
  state_there opts block mtp (some state) e = (state, refl)

  -- A block that is stored on its parent has passed every check that the options ask for.
  pub add_to_parent-HasPassed :
      (chain chain' : Blockchain) (opts : AddOptions) (v : Bool) (now : ℕ) (block : Block)
      (parent : ChainBlock)
      → lookup (bytes_to_hex block.header.prev_hash) chain.blocks ≡ some parent
      → add_to_parent chain opts v now block parent ≡ ok chain'
      → (mtp : ℕ) × (state : State) × (new_state : State) × HasPassed chain opts v now block parent
          mtp state new_state
        × (move_tip
              (block_hash_hex block.header)
              (accepted_entry block parent new_state)
              (store (block_hash_hex block.header) (accepted_entry block parent new_state) chain)
            ≡ ok chain')
  unfolding add_to_parent
  add_to_parent-HasPassed chain chain' opts v now block parent found e =
      let (mtp, header_ok, e₁) = >>=-eq-ok (check_header chain opts v now block parent) _ e in
      let (new_state, state_ok, e₂) = >>=-eq-ok (check_state opts block mtp parent.state) _ e₁ in
      let (height, size, schedule, future, known, past, pow, root) =
        check_header_lem chain opts v now block parent header_ok in
      let (state, there) = state_there opts block mtp parent.state state_ok in
      let (structures, applied, committed) =
        check_state_lem opts block mtp state new_state (rw there at state_ok) in
      (
        mtp,
        state,
        new_state,
        record {
          parent_found = found;
          parent_state = there;
          height_follows = height;
          size_fits = size;
          on_schedule = schedule;
          not_future = future;
          mtp_known = known;
          after_mtp = past;
          work_done = pow;
          txs_committed = root;
          structures = structures;
          applied = applied;
          state_committed = committed;
        },
        e₂,
      )

  -- The new block is found, with its state or, where that was pruned at once, without.
  pub move_tip-stores :
      (chain chain' : Blockchain) (key : Hex) (entry : ChainBlock)
      → move_tip key entry (store key entry chain) ≡ ok chain'
      → (e : ChainBlock) × (lookup key chain'.blocks ≡ some e) × Cleared entry e
  unfolding move_tip tip store
  move_tip-stores chain chain' key entry e =
      let there = lookup-insert_self key entry chain.blocks in
      elim (Option-cases (lookup chain.tip_hash (insert key entry chain.blocks))) [
        | inl gone ↦ absurd (cc (rw (gone, move_tip) at e))
        | inr (t, found) ↦ elim (Bool-cases (ltb t.work entry.work)) [
          | inl heavier ↦
              let moved = ok-inj (rw (found, heavier, move_tip) at e) in
              let (p, _) =
                prune_states-Prunes entry.block.header.height
                  (record (store key entry chain) { tip_hash = key }) in
              subst
                (λ (b : Blockchain).
                  (e : ChainBlock) × (lookup key b.blocks ≡ some e) × Cleared entry e)
                moved (p.forth key entry there)
          | inr lighter ↦
              subst
                (λ (b : Blockchain).
                  (e : ChainBlock) × (lookup key b.blocks ≡ some e) × Cleared entry e)
                (ok-inj (rw (found, lighter, move_tip) at e)) (entry, there, (refl, refl, inl refl))
        ]
      ]

  -- A block that `addBlock` adds to the chain, where it was not known before, has passed every check:
  -- its parent is known and has a state, the height follows, it fits the size, its difficulty is the
  -- scheduled one, its timestamp is above the median-time-past and not in the future, its hash meets the
  -- target, the roots of its header are those of its transactions and of the state they lead to, and
  -- every transaction is well formed. It is then found in the chain.
  pub add_block_accepts :
      (chain chain' : Blockchain) (now : ℕ) (block : Block)
      → lookup (block_hash_hex block.header) chain.blocks ≡ none
      → add_block chain now block ≡ ok chain'
      → (parent : ChainBlock) × (mtp : ℕ) × (state : State) × (new_state : State) × HasPassed chain
          (record { skip_pow = false; skip_tx_sig = false; skip_state_root = false })
          (check_pow block.header)
          now
          block
          parent
          mtp
          state
          new_state
        × ((e : ChainBlock) × (lookup (block_hash_hex block.header) chain'.blocks ≡ some e)
            × (e.block ≡ block))
  unfolding add_block_internal
  add_block_accepts chain chain' now block fresh e =
      elim (Option-cases (lookup (bytes_to_hex block.header.prev_hash) chain.blocks)) [
        | inl orphan ↦ absurd (cc (rw (fresh, orphan, has, add_block_internal) at e))
        | inr (parent, found) ↦
            let (mtp, state, new_state, passed, moved) =
              add_to_parent-HasPassed chain chain' _ (check_pow block.header) now block parent found
                (rw (fresh, found, has, add_block_internal) at e) in
            let (kept, there, same) = move_tip-stores chain chain' _ _ moved in
            (parent, mtp, state, new_state, passed, (kept, there, same.0))
      ]
