-- ===== src/Net/FastSync/Run.antt =====
-- src/net/fastSync.ts: the whole loop over the headers beside the seeding of the chain with them.
use mathlib.Core.List.{reverse}
use mathlib.Core.Path.{subst}
use browser_coin_native_mine.Prelude.{
  ℕ, ◌≡◌, Bool, true, false, List, ◌∷◌, [], ok, none, some, All, ◌≤◌, ◌+◌, ap, ◌∙◌, sym, refl,
  bytes_eq, ==_iff, take, ◌==◌, arith, Bytes, >>=-eq-ok,
}
use browser_coin_native_mine.Chain.Block.{
  BlockHeader, Block, block_hash_hex, block_size, compute_tx_root,
}
use browser_coin_native_mine.Chain.Blockchain.{
  Blockchain, ChainBlock, new_blockchain, genesis, genesis_key, get_recent_headers, inherit_anchor,
  genesis_entry,
}
use browser_coin_native_mine.Chain.Blockchain.Accept.{check_header, AddOptions, store}
use browser_coin_native_mine.Chain.Blockchain.Seed.{
  seed_header, seed_bodyless, store_bodyless, seeded_entry,
}
use browser_coin_native_mine.Chain.Crypto.{Crypto}
use browser_coin_native_mine.Chain.Genesis.{max_block_bytes, mtp_window}
use browser_coin_native_mine.Net.FastSync.{
  Rolling, verify_headers, verify_header, start_rolling, roll,
}
use browser_coin_native_mine.Net.FastSync.Checks.{
  Represents, verify_header-check_header, verify_header_lem,
}
use browser_coin_native_mine.Net.FastSync.Window.{
  HeaderPath, walk_headers-HeaderPath, insert-HeaderPath, window-∷, above, bottom,
}
use browser_coin_native_mine.Prelude.Dict.{
  lookup, insert, lookup-insert_self, has, Dict, lookup-insert,
}
use browser_coin_native_mine.Util.Hex.{Hex, bytes_to_hex}

-- No hash is listed twice.
abbrev pub AreDistinct : List Hex → Type 0
AreDistinct [] = Unit
AreDistinct (key ∷ keys) = All (λ k. bytes_eq k key ≡ false) keys × AreDistinct keys

module _ ⦃c : Crypto⦄ where
  abbrev pub keys_of : List Block → List Hex
  keys_of [] = []
  keys_of (block ∷ blocks) = block_hash_hex block.header ∷ keys_of blocks

  abbrev pub headers_of : List Block → List BlockHeader
  headers_of [] = []
  headers_of (block ∷ blocks) = block.header ∷ headers_of blocks

  -- The chain that is seeded with the headers of these blocks in order, where each block, on the chain
  -- seeded so far, has a known parent and passes the checks of the header.
  pub data Passes (opts : AddOptions) (pow_valid : Bool) (now : ℕ)
      : Blockchain → List Block → Blockchain → Type 0 where
    seeded : {chain : Blockchain} → Passes opts pow_valid now chain [] chain
    then_block :
        {chain mid last : Blockchain} {block : Block} {blocks : List Block} (parent : ChainBlock)
        (mtp : ℕ)
        → lookup (bytes_to_hex block.header.prev_hash) chain.blocks ≡ some parent
        → check_header chain opts pow_valid now block parent ≡ ok mtp
        → seed_header chain block.header ≡ ok mid
        → Passes opts pow_valid now mid blocks last
        → Passes opts pow_valid now chain (block ∷ blocks) last

  -- The chain has the headers of the loop below the last one.
  record Tracks (chain : Blockchain) (i : ℕ) (s : Rolling) : Type 0 where
    parent : ChainBlock
    known : lookup (bytes_to_hex s.prev_hash) chain.blocks ≡ some parent
    at_index : parent.block.header.height ≡ i
    same_hash : parent.hash ≡ s.prev_hash
    same_anchor : parent.sandglass2_anchor ≡ s.sandglass2_anchor
    headers : List BlockHeader
    path : HeaderPath chain.blocks (bytes_to_hex s.prev_hash) headers
    newest : s.window ≡ reverse (take mtp_window headers)

  Tracks-Represents :
      (chain : Blockchain) (i : ℕ) (s : Rolling) (t : Tracks chain i s)
      → Represents chain t.parent i s
  unfolding get_recent_headers
  Tracks-Represents chain i s t = record {
    parent_height = t.at_index;
    same_hash = t.same_hash;
    same_anchor = t.same_anchor;
    same_window = ap reverse (walk_headers-HeaderPath mtp_window t.path) ∙ sym t.newest;
  }

  abbrev next_chain : Blockchain → BlockHeader → ChainBlock → Blockchain
  next_chain chain h parent =
      store_bodyless (block_hash_hex h)
        (seeded_entry (record { header = h; transactions = [] }) none false parent) chain

  seed_header-next_chain :
      (chain : Blockchain) (h : BlockHeader) (parent : ChainBlock)
      → lookup (block_hash_hex h) chain.blocks ≡ none
      → lookup (bytes_to_hex h.prev_hash) chain.blocks ≡ some parent
      → h.height ≡ parent.block.header.height + 1
      → seed_header chain h ≡ ok (next_chain chain h parent)
  unfolding seed_bodyless
  seed_header-next_chain chain h parent fresh known next =
      let follows = (==_iff _ _).1 next in rw (fresh, known, has, follows, seed_bodyless) refl

  -- The loop and the chain go on together.
  Tracks-roll :
      (chain : Blockchain) (i : ℕ) (s : Rolling) (h : BlockHeader) (t : Tracks chain i s)
      → lookup (block_hash_hex h) chain.blocks ≡ none
      → h.height ≡ i + 1
      → h.prev_hash ≡ s.prev_hash
      → Tracks (next_chain chain h t.parent) (i + 1) (roll s h)
  unfolding store_bodyless store block_hash_hex inherit_anchor
  Tracks-roll chain i s h t fresh next link =
      let entry = seeded_entry (record { header = h; transactions = [] }) none false t.parent in
      let found : lookup (block_hash_hex h) (insert (block_hash_hex h) entry chain.blocks)
          ≡ some entry =
        lookup-insert_self (block_hash_hex h) entry chain.blocks in
      let not_low : (h.height == 0) ≡ false = ground (arith, next) in
      let below : HeaderPath (insert (block_hash_hex h) entry chain.blocks)
          (bytes_to_hex h.prev_hash) t.headers =
        subst
          (λ (k : Bytes).
            HeaderPath (insert (block_hash_hex h) entry chain.blocks) (bytes_to_hex k) t.headers)
          (sym link) (insert-HeaderPath (block_hash_hex h) entry fresh t.path) in
      record {
        parent = entry;
        known = found;
        at_index = next;
        same_hash = refl;
        same_anchor = rw t.same_anchor refl;
        headers = h ∷ t.headers;
        path = above entry found not_low below;
        newest = rw t.newest (window-∷ 10 h t.headers);
      }

  -- No block that is still to come is known.
  AreNew : Dict ChainBlock → List Hex → Type 0
  AreNew blocks keys = All (λ key. lookup key blocks ≡ none) keys

  AreNew-insert :
      (blocks : Dict ChainBlock) (new : Hex) (e : ChainBlock) (keys : List Hex)
      → All (λ k. bytes_eq k new ≡ false) keys
      → AreNew blocks keys
      → AreNew (insert new e blocks) keys
  unfolding AreNew
  AreNew-insert blocks new e [] other fresh = tt
  AreNew-insert blocks new e (key ∷ keys) other fresh = (
    lookup-insert key new e blocks ∙ rw other.0 fresh.0,
    AreNew-insert blocks new e keys other.1 fresh.1,
  )

  verify_headers-tracked :
      (opts : AddOptions) (pow_valid : Bool) (now i : ℕ) (s s' : Rolling) (chain : Blockchain)
      (blocks : List Block)
      → Tracks chain i s
      → AreNew chain.blocks (keys_of blocks)
      → AreDistinct (keys_of blocks)
      → opts.skip_pow ≡ true
      → All
          (λ (b : Block).
            (block_size b ≤ max_block_bytes) × (compute_tx_root b.transactions ≡ b.header.tx_root))
          blocks
      → verify_headers now i s (headers_of blocks) ≡ ok s'
      → (last : Blockchain) × Passes opts pow_valid now chain blocks last
  unfolding verify_headers AreNew store_bodyless store
  verify_headers-tracked opts v now i s s' chain [] t fresh distinct skip bodies e = (chain, seeded)
  verify_headers-tracked opts v now i s s' chain (b ∷ blocks) t fresh distinct skip bodies e =
      let (next, verified, e₁) = >>=-eq-ok (verify_header now i s b.header) _ e in
      let (height, link, _, _, _, rolled) = verify_header_lem now i s b.header verified in
      let known : lookup (bytes_to_hex b.header.prev_hash) chain.blocks ≡ some t.parent =
        subst (λ (k : Bytes). lookup (bytes_to_hex k) chain.blocks ≡ some t.parent) (sym link)
          t.known in
      let follows : b.header.height ≡ t.parent.block.header.height + 1 =
        height ∙ ap (λ (n : ℕ). n + 1) (sym t.at_index) in
      let checked =
        verify_header-check_header chain opts v now i s next b t.parent
          (Tracks-Represents chain i s t) skip bodies.0.0 bodies.0.1 verified in
      let tracked =
        subst (λ r. Tracks (next_chain chain b.header t.parent) (i + 1) r) rolled
          (Tracks-roll chain i s b.header t fresh.0 height link) in
      let (last, rest) =
        verify_headers-tracked opts v now (i + 1) next s' (next_chain chain b.header t.parent)
          blocks tracked (AreNew-insert chain.blocks _ _ (keys_of blocks) distinct.0 fresh.1)
          distinct.1 skip bodies.1 e₁ in
      (
        last,
        then_block t.parent _ known checked
            (seed_header-next_chain chain b.header t.parent fresh.0 known follows) rest,
      )

  start-Tracks : (depth : ℕ) → Tracks (new_blockchain depth) 0 start_rolling
  unfolding new_blockchain block_hash_hex insert
  start-Tracks depth =
      let found : lookup genesis_key (new_blockchain depth).blocks ≡ some genesis_entry =
        lookup-insert_self genesis_key genesis_entry [] in
      record {
        parent = genesis_entry;
        known = found;
        at_index = refl;
        same_hash = refl;
        same_anchor = refl;
        headers = genesis.header ∷ [];
        path = bottom genesis_entry found refl;
        newest = refl;
      }

  none_known : (keys : List Hex) → AreNew [] keys
  unfolding AreNew lookup
  none_known [] = tt
  none_known (key ∷ keys) = (refl, none_known keys)

  start-AreNew :
      (depth : ℕ) (keys : List Hex)
      → All (λ k. bytes_eq k genesis_key ≡ false) keys
      → AreNew (new_blockchain depth).blocks keys
  unfolding new_blockchain insert
  start-AreNew depth keys other =
      AreNew-insert [] genesis_key genesis_entry keys other (none_known keys)

  -- Where fast sync accepts the headers of some blocks, from the genesis block on: the chain of the
  -- genesis block can be seeded with the headers in their order, and each of the blocks passes the checks
  -- that `addBlockInternal` makes of its header on the chain seeded so far. These are the height, the
  -- scheduled difficulty by the walk of the retarget's lookback, and both limits of the timestamp. The
  -- hashes are to be different from each other and from that of the genesis block, the bodies are to fit
  -- and to match their transaction roots, and the proof of work is skipped.
  pub verify_headers-Passes :
      (depth : ℕ) (opts : AddOptions) (pow_valid : Bool) (now : ℕ) (s' : Rolling)
      (blocks : List Block)
      → AreDistinct (genesis_key ∷ keys_of blocks)
      → opts.skip_pow ≡ true
      → All
          (λ (b : Block).
            (block_size b ≤ max_block_bytes) × (compute_tx_root b.transactions ≡ b.header.tx_root))
          blocks
      → verify_headers now 0 start_rolling (headers_of blocks) ≡ ok s'
      → (last : Blockchain) × Passes opts pow_valid now (new_blockchain depth) blocks last
  verify_headers-Passes depth opts v now s' blocks distinct skip bodies e =
      verify_headers-tracked opts v now 0 start_rolling s' (new_blockchain depth) blocks
        (start-Tracks depth) (start-AreNew depth (keys_of blocks) distinct.0) distinct.1 skip bodies
        e
