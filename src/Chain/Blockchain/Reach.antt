-- ===== src/Chain/Blockchain/Reach.antt =====
-- The chains that the public operations of src/chain/blockchain.ts reach from an empty one by adding
-- blocks, in any order.
use mathlib.Core.Path.{subst}
use browser_coin_native_mine.Prelude.{
  ℕ, ◌≡◌, some, ◌+◌, ok, Bool, >>=-eq-ok, if◌then◌else◌, fail_if, not, ◌&&◌, ◌∙◌, false, refl,
  arith, true, ◌∷◌, [], Bool-cases, bytes_eq, inl, some-inj, inr, ◌≤◌, bytes_eq_iff,
}
use browser_coin_native_mine.Chain.Block.{Block}
use browser_coin_native_mine.Chain.Blockchain.{
  Blockchain, new_blockchain, reset, ChainBlock, genesis_key, genesis_entry,
}
use browser_coin_native_mine.Chain.Blockchain.Accept.{
  check_state, AddOptions, add_block, add_validated_block, add_block_with_pow, check_structures,
  differs,
}
use browser_coin_native_mine.Chain.Blockchain.Accepted.{check_state_lem}
use browser_coin_native_mine.Chain.Blockchain.Tree.{IsTree, Hangs, Holds}
use browser_coin_native_mine.Chain.Blockchain.Tree.Added.{add_block_internal-IsTree}
use browser_coin_native_mine.Chain.Consensus.{scripts_active_for_mtp}
use browser_coin_native_mine.Chain.Crypto.{Crypto}
use browser_coin_native_mine.Chain.Genesis.{max_money}
use browser_coin_native_mine.Chain.Pow.{check_pow}
use browser_coin_native_mine.Chain.State.{State, empty_state, apply_block_txs}
use browser_coin_native_mine.Chain.State.Blocks.{apply_block_txs-IsValid}
use browser_coin_native_mine.Chain.State.Conserve.{apply_block_txs-total}
use browser_coin_native_mine.Chain.State.Invariant.{IsValid}
use browser_coin_native_mine.Chain.State.Root.{state_root}
use browser_coin_native_mine.Chain.State.Totals.{total, total-empty_state}
use browser_coin_native_mine.Chain.Supply.{supply, supply-next, supply-bound, supply-zero}
use browser_coin_native_mine.Prelude.Dict.{lookup, lookup-insert_self, insert}
use browser_coin_native_mine.Prelude.Int.{pos, int_laws, ◌≤ℤ◌}
use browser_coin_native_mine.Util.Hex.{Hex}

-- The coins of a state are those that the blocks up to its height have made.
abbrev pub Minted : ℕ → State → Type 0
Minted h s = total s ≡ pos (supply h)

module _ ⦃c : Crypto⦄ where
  -- A call that adds a block or starts again, and did not fail.
  pub data Step : Blockchain → Blockchain → Type 0 where
    adds :
        {chain chain' : Blockchain} (now : ℕ) (block : Block)
        → add_block chain now block ≡ ok chain'
        → Step chain chain'
    adds_validated :
        {chain chain' : Blockchain} (now : ℕ) (block : Block)
        → add_validated_block chain now block ≡ ok chain'
        → Step chain chain'
    adds_with_pow :
        {chain chain' : Blockchain} (pow_valid : Bool) (now : ℕ) (block : Block)
        → add_block_with_pow chain pow_valid now block ≡ ok chain'
        → Step chain chain'
    resets : {chain : Blockchain} → Step chain (reset chain)

  pub data Reaches (chain : Blockchain) : Blockchain → Type 0 where
    here : Reaches chain chain
    next : {mid last : Blockchain} → Reaches chain mid → Step mid last → Reaches chain last

  check_state-applied :
      (opts : AddOptions) (state new_state : State) (block : Block) (mtp : ℕ)
      → check_state opts block mtp (some state) ≡ ok new_state
      → apply_block_txs state block.header.height block.header.miner block.transactions
          (scripts_active_for_mtp mtp)
          mtp
        ≡ ok new_state
  unfolding check_state
  check_state-applied opts state new_state block mtp e =
      let (_, _, e₁) =
        >>=-eq-ok (if opts.skip_tx_sig then ok tt else check_structures block.transactions) _ e in
      let (s', applied, e₂) =
        >>=-eq-ok
          (apply_block_txs state block.header.height block.header.miner block.transactions
            (scripts_active_for_mtp mtp) mtp)
          _ e₁ in
      let (_, _, e₃) =
        >>=-eq-ok
          (fail_if (not opts.skip_state_root && differs (state_root s') block.header.state_root) _)
          _ e₂ in
      applied ∙ e₃

  Minted-kept :
      (opts : AddOptions) (h : ℕ) (state new_state : State) (block : Block) (mtp : ℕ)
      → block.header.height ≡ h + 1
      → Minted h state
      → check_state opts block mtp (some state) ≡ ok new_state
      → Minted block.header.height new_state
  Minted-kept opts h state new_state block mtp height minted e =
      let made =
        apply_block_txs-total state block.header.height block.header.miner block.transactions
          (scripts_active_for_mtp mtp) mtp (check_state-applied opts state new_state block mtp e) in
      let next = supply-next h in rw (made, minted, height, next) (omega (arith, int_laws))

  only_one : (key k : Hex) (v e : ChainBlock) → lookup key ((k, v) ∷ []) ≡ some e → v ≡ e
  unfolding lookup
  only_one key k v e found = elim (Bool-cases (bytes_eq key k)) [
    | inl this ↦ some-inj (rw (this, lookup) at found)
    | inr other ↦ absurd (cc (rw (other, lookup) at found))
  ]

  only_key : (key k : Hex) (v e : ChainBlock) → lookup key ((k, v) ∷ []) ≡ some e → key ≡ k
  unfolding lookup
  only_key key k v e found = elim (Bool-cases (bytes_eq key k)) [
    | inl this ↦ (bytes_eq_iff key k).0 this
    | inr other ↦ absurd (cc (rw (other, lookup) at found))
  ]

  Minted-empty_state : Minted 0 empty_state
  Minted-empty_state = rw (supply-zero) total-empty_state

  pub genesis-IsTree :
      (P : ℕ → State → Type 0) (depth : ℕ)
      → P 0 empty_state
      → IsTree P genesis_key (new_blockchain depth).blocks (new_blockchain depth).tip_hash
  unfolding new_blockchain insert
  genesis-IsTree P depth p =
      let same = λ (key : Hex) (e : ChainBlock). only_one key genesis_key genesis_entry e in
      record {
        rooted = λ key e found zeroed. only_key key genesis_key genesis_entry e found;
        hangs = λ key e found.
            subst (Hangs (new_blockchain depth).blocks) (same key e found) (inl (refl, refl));
        supplied = λ key e found.
            subst (λ (a : ChainBlock). Holds P a.block.header.height a.state) (same key e found) p;
        heaviest = (
          genesis_entry,
          lookup-insert_self genesis_key genesis_entry [],
          λ key e found.
              subst (λ (a : ChainBlock). a.work ≤ genesis_entry.work) (same key e found)
                (omega arith),
        );
      }

  Step-IsTree :
      {chain chain' : Blockchain}
      → Step chain chain'
      → IsTree Minted genesis_key chain.blocks chain.tip_hash
      → IsTree Minted genesis_key chain'.blocks chain'.tip_hash
  unfolding add_block_with_pow
  Step-IsTree (adds now block e) h =
      add_block_internal-IsTree Minted genesis_key _ (Minted-kept _) _ _ _ now block h e
  Step-IsTree (adds_validated now block e) h =
      add_block_internal-IsTree Minted genesis_key _ (Minted-kept _) _ _ false now block h e
  Step-IsTree {chain} (adds_with_pow true now block e) h =
      add_block_internal-IsTree Minted genesis_key _ (Minted-kept _) _ _ false now block h e
  Step-IsTree (adds_with_pow false now block e) h = absurd (cc)
  Step-IsTree (resets {chain}) h =
      genesis-IsTree Minted chain.state_retention_depth Minted-empty_state

  -- However blocks are added to an empty chain: one block is at height 0, every other hangs on a known
  -- parent, one below it and with the work summed; no block has more work than the tip, which is known;
  -- and the coins of every state that is kept are those that the blocks up to its height have made.
  pub Reaches-IsTree :
      (depth : ℕ) {chain : Blockchain}
      → Reaches (new_blockchain depth) chain
      → IsTree Minted genesis_key chain.blocks chain.tip_hash
  Reaches-IsTree depth here = genesis-IsTree Minted depth Minted-empty_state
  Reaches-IsTree depth (next r s) = Step-IsTree s (Reaches-IsTree depth r)

  -- However blocks are added to an empty chain, no state that is kept has more coins than MAX_MONEY.
  pub Reaches-max_money :
      (depth : ℕ) {chain : Blockchain} (key : Hex) (entry : ChainBlock) (s : State)
      → Reaches (new_blockchain depth) chain
      → lookup key chain.blocks ≡ some entry
      → entry.state ≡ some s
      → total s ≤ℤ pos max_money
  Reaches-max_money depth {chain} key entry s r found kept =
      let minted : Minted entry.block.header.height s =
        subst (Holds Minted entry.block.header.height) kept
          ((Reaches-IsTree depth r).supplied key entry found) in
      let bound = supply-bound entry.block.header.height in rw minted (omega (arith, int_laws))

  IsValid-kept :
      (opts : AddOptions) (h : ℕ) (state new_state : State) (block : Block) (mtp : ℕ)
      → opts.skip_tx_sig ≡ false
      → IsValid state
      → check_state opts block mtp (some state) ≡ ok new_state
      → IsValid new_state
  IsValid-kept opts h state new_state block mtp asked valid e =
      let (structures, applied, _) = check_state_lem opts block mtp state new_state e in
      elim structures [
        | inl skipped ↦ absurd (cc (asked, skipped))
        | inr checks ↦
            apply_block_txs-IsValid state block.header.height block.header.miner block.transactions
              (scripts_active_for_mtp mtp) mtp checks valid applied
      ]

  -- `addBlock` keeps a chain whose states are all well formed: in the state after the new block, too,
  -- no balance and no lock is negative, and the maps have distinct keys.
  pub add_block-IsValid :
      (chain chain' : Blockchain) (now : ℕ) (block : Block)
      → IsTree (λ h s. IsValid s) genesis_key chain.blocks chain.tip_hash
      → add_block chain now block ≡ ok chain'
      → IsTree (λ h s. IsValid s) genesis_key chain'.blocks chain'.tip_hash
  add_block-IsValid chain chain' now block tree e =
      add_block_internal-IsTree (λ h s. IsValid s) genesis_key _
        (λ h state new_state block mtp follows valid applied.
          IsValid-kept _ h state new_state block mtp refl valid applied)
        chain chain' (check_pow block.header) now block tree e
