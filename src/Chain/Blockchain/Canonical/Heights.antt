-- ===== src/Chain/Blockchain/Canonical/Heights.antt =====
-- The heights of the canonical chain, from the tip downwards.
use browser_coin_native_mine.Prelude.{
  some, ℕ, List, ◌≡◌, suc, ◌+◌, ◌==◌, arith, false, refl, zero, true, ◌∷◌, [], ==_iff,
}
use browser_coin_native_mine.Chain.Blockchain.{
  tip, ChainBlock, Blockchain, new_blockchain, genesis_key, prev_key,
}
use browser_coin_native_mine.Chain.Blockchain.Canonical.{walk_blocks, iterate_canonical}
use browser_coin_native_mine.Chain.Blockchain.Reach.{Reaches, Reaches-IsTree, Minted}
use browser_coin_native_mine.Chain.Blockchain.Reorg.Ancestor.{parent_below}
use browser_coin_native_mine.Chain.Blockchain.Tree.{IsTree}
use browser_coin_native_mine.Chain.Crypto.{Crypto}
use browser_coin_native_mine.Chain.State.{State}
use browser_coin_native_mine.Prelude.Dict.{Dict, lookup}
use browser_coin_native_mine.Util.Hex.{Hex}

-- The blocks have the heights from this one down to 0, each the parent of the one in front of it.
pub data RunsDown (blocks : Dict ChainBlock) : Hex → ℕ → List ChainBlock → Type 0 where
  bottom :
      {key : Hex} {e : ChainBlock}
      → lookup key blocks ≡ some e
      → e.block.header.height ≡ 0
      → RunsDown blocks key 0 (e ∷ [])
  parent_of :
      {key : Hex} {e : ChainBlock} {h : ℕ} {rest : List ChainBlock}
      → lookup key blocks ≡ some e
      → e.block.header.height ≡ suc h
      → RunsDown blocks (prev_key e) h rest
      → RunsDown blocks key (suc h) (e ∷ rest)

walk_blocks-RunsDown :
    (P : ℕ → State → Type 0) (blocks : Dict ChainBlock) (root tip_key key : Hex) (h : ℕ)
    (e : ChainBlock)
    → IsTree P root blocks tip_key
    → lookup key blocks ≡ some e
    → e.block.header.height ≡ h
    → RunsDown blocks key h (walk_blocks (suc h) blocks key)
unfolding walk_blocks
walk_blocks-RunsDown P blocks root tip_key key zero e tree found height =
    let low : (e.block.header.height == 0) ≡ true = (==_iff _ _).1 height in
    rw (found, low, walk_blocks) (bottom found height)
walk_blocks-RunsDown P blocks root tip_key key (suc h) e tree found height =
    let (parent, known, next) = parent_below P blocks tip_key root tree key e h found height in
    let above : (e.block.header.height == 0) ≡ false = ground (arith, height) in
    rw (found, above, walk_blocks)
      (parent_of found height
        (walk_blocks-RunsDown P blocks root tip_key (prev_key e) h parent tree known next))

-- On every chain that blocks were added to, `iterateCanonical` gives the tip, its parent, and so on,
-- one block of every height down to the one block of height 0.
pub iterate_canonical-RunsDown :
    ⦃c : Crypto⦄ (depth : ℕ) (chain : Blockchain)
    → Reaches (new_blockchain depth) chain
    → (t : ChainBlock) × (tip chain ≡ some t)
      × RunsDown chain.blocks chain.tip_hash t.block.header.height (iterate_canonical chain)
unfolding iterate_canonical tip
iterate_canonical-RunsDown depth chain r =
    let tree = Reaches-IsTree depth r in
    let (t, found, most) = tree.heaviest in
    let same : t.block.header.height + 1 ≡ suc t.block.header.height = omega arith in
    (
      t,
      found,
      rw (found, same, iterate_canonical)
          (walk_blocks-RunsDown Minted chain.blocks genesis_key chain.tip_hash chain.tip_hash
            t.block.header.height t tree found refl),
    )
