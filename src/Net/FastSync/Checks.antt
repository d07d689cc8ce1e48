-- ===== src/Net/FastSync/Checks.antt =====
-- src/net/fastSync.ts: the checks of a header beside those of addBlockInternal.
use mathlib.Core.List.{reverse, reverse_aux-eq}
use browser_coin_native_mine.Prelude.{
  ℕ, ◌≡◌, Option, suc, Option-cases, inl, inr, Bool-cases, ◌==◌, List, refl, ◌∷◌, ok, ◌++◌, ◌+◌, [],
  some, Bool, ltb, true, ◌&&◌, leb, ◌≤◌, false, ==_iff, >>=-eq-ok, ◌∙◌, ap, fail_if, not, sym,
  Bytes, not-false, fail_if-false, ok-inj, ltb-false,
}
use browser_coin_native_mine.Chain.Block.{BlockHeader, Block, block_size, compute_tx_root}
use browser_coin_native_mine.Chain.Blockchain.{
  get_recent_headers, Blockchain, walk_headers, ChainBlock, prev_key, retarget_lookback,
}
use browser_coin_native_mine.Chain.Blockchain.Accept.{check_header, AddOptions, differs}
use browser_coin_native_mine.Chain.Blockchain.Accepted.{matches}
use browser_coin_native_mine.Chain.Consensus.{next_difficulty, median_time_past}
use browser_coin_native_mine.Chain.Consensus.Difficulty.{next_difficulty_window}
use browser_coin_native_mine.Chain.Crypto.{Crypto}
use browser_coin_native_mine.Chain.Genesis.{mtp_window, max_block_bytes, max_future_time_s}
use browser_coin_native_mine.Net.FastSync.{Rolling, verify_header, roll}
use browser_coin_native_mine.Prelude.Dict.{lookup}
use browser_coin_native_mine.Util.Compare.{compare_bytes_self}
use browser_coin_native_mine.Util.Hex.{Hex, bytes_to_hex}

same_end :
    (height : ℕ) (candidate : Option ℕ) (anchor : Option BlockHeader) (prev grand : BlockHeader)
    (r r' : List BlockHeader)
    → next_difficulty height (reverse (prev ∷ grand ∷ r)) candidate anchor
      ≡ next_difficulty height (reverse (prev ∷ grand ∷ r')) candidate anchor
same_end height candidate anchor prev grand r r' =
    let split : (l : List BlockHeader)
        → reverse (prev ∷ grand ∷ l) ≡ reverse l ++ (grand ∷ prev ∷ []) =
      λ l. reverse_aux-eq l (grand ∷ prev ∷ []) in
    rw (split r, split r')
      (next_difficulty_window height (reverse r) (reverse r') grand prev candidate anchor)

-- Two walks of at least two headers differ below the parent's parent only.
next_difficulty-recent :
    (n m : ℕ) (chain : Blockchain) (key : Hex) (height : ℕ) (candidate : Option ℕ)
    (anchor : Option BlockHeader)
    → next_difficulty height (get_recent_headers (suc (suc n)) chain key) candidate anchor
      ≡ next_difficulty height (get_recent_headers (suc (suc m)) chain key) candidate anchor
unfolding get_recent_headers walk_headers
next_difficulty-recent n m chain key height candidate anchor =
    elim (Option-cases (lookup key chain.blocks)) [
      | inl unknown ↦ rw (unknown, get_recent_headers, walk_headers) refl
      | inr (e, found) ↦ elim (Bool-cases (e.block.header.height == 0)) [
        | inl bottom ↦ rw (found, bottom, get_recent_headers, walk_headers) refl
        | inr above ↦ elim (Option-cases (lookup (prev_key e) chain.blocks)) [
          | inl unknown ↦ rw (found, above, unknown, get_recent_headers, walk_headers) refl
          | inr (g, below) ↦
              rw (found, above, below, get_recent_headers, walk_headers)
                (same_end height candidate anchor e.block.header g.block.header
                  (elim (g.block.header.height == 0) [
                    | true ↦ []
                    | false ↦ walk_headers n chain.blocks (prev_key g)
                  ])
                  (elim (g.block.header.height == 0) [
                    | true ↦ []
                    | false ↦ walk_headers m chain.blocks (prev_key g)
                  ]))
        ]
      ]
    ]

-- The window and the anchor of the loop are those of the chain at the parent.
pub record Represents (chain : Blockchain) (parent : ChainBlock) (i : ℕ) (s : Rolling)
    : Type 0 where
  pub parent_height : parent.block.header.height ≡ i
  pub same_hash : parent.hash ≡ s.prev_hash
  pub same_anchor : parent.sandglass2_anchor ≡ s.sandglass2_anchor
  pub same_window : get_recent_headers mtp_window chain (bytes_to_hex s.prev_hash) ≡ s.window

module _ ⦃c : Crypto⦄ where
  -- What a round has checked.
  pub verify_header_lem :
      (now i : ℕ) (s : Rolling) (h : BlockHeader) {s' : Rolling}
      → verify_header now i s h ≡ ok s'
      → (h.height ≡ i + 1)
        × (h.prev_hash ≡ s.prev_hash)
        × (next_difficulty h.height s.window (some h.timestamp) s.sandglass2_anchor
            ≡ ok h.difficulty)
        × ((ltb 0 (median_time_past s.window) && leb h.timestamp (median_time_past s.window))
            ≡ false)
        × (ltb (now + max_future_time_s) h.timestamp ≡ false)
        × (roll s h ≡ s')
  unfolding verify_header
  verify_header_lem now i s h e =
      let median = median_time_past s.window in
      let (_, height, e₁) = >>=-eq-ok (fail_if (not (h.height == i + 1)) _) _ e in
      let (_, link, e₂) = >>=-eq-ok (fail_if (differs h.prev_hash s.prev_hash) _) _ e₁ in
      let (expected, schedule, e₃) =
        >>=-eq-ok (next_difficulty h.height s.window (some h.timestamp) s.sandglass2_anchor) _ e₂ in
      let (_, difficulty, e₄) = >>=-eq-ok (fail_if (not (h.difficulty == expected)) _) _ e₃ in
      let (_, past, e₅) = >>=-eq-ok (fail_if (ltb 0 median && leb h.timestamp median) _) _ e₄ in
      let (_, future, e₆) =
        >>=-eq-ok (fail_if (ltb (now + max_future_time_s) h.timestamp) _) _ e₅ in
      let same = (==_iff h.difficulty expected).0 (not-false _ (fail_if-false _ _ difficulty)) in
      (
        (==_iff _ _).0 (not-false _ (fail_if-false _ _ height)),
        matches _ _ (fail_if-false _ _ link),
        schedule ∙ ap ok (sym same),
        fail_if-false _ _ past,
        fail_if-false _ _ future,
        ok-inj e₆,
      )

  -- Where the height, the hash, the fork's anchor and the window of the loop are those of the chain
  -- at the parent, a header that fast sync accepts passes the checks that `addBlockInternal` makes
  -- of the header of a block: the height, the scheduled difficulty by the walk of the retarget's
  -- lookback, and both limits of the timestamp. The body has to fit and to match the transaction
  -- root, and the proof of work is skipped.
  pub verify_header-check_header :
      (chain : Blockchain) (opts : AddOptions) (v : Bool) (now i : ℕ) (s s' : Rolling)
      (block : Block) (parent : ChainBlock)
      → Represents chain parent i s
      → opts.skip_pow ≡ true
      → block_size block ≤ max_block_bytes
      → compute_tx_root block.transactions ≡ block.header.tx_root
      → verify_header now i s block.header ≡ ok s'
      → check_header chain opts v now block parent ≡ ok (median_time_past s.window)
  unfolding check_header
  verify_header-check_header chain opts v now i s s' block parent rep skip fits root e =
      let header = block.header in
      let (height, link, schedule, past, future, _) = verify_header_lem now i s header e in
      let follows : (header.height == parent.block.header.height + 1) ≡ true =
        (==_iff _ _).1 (height ∙ ap (λ (n : ℕ). n + 1) (sym rep.parent_height)) in
      let small = ltb-false max_block_bytes (block_size block) fits in
      let window : get_recent_headers mtp_window chain (bytes_to_hex header.prev_hash) ≡ s.window =
        ap (λ (b : Bytes). get_recent_headers mtp_window chain (bytes_to_hex b)) link
        ∙ rep.same_window in
      let difficulty : next_difficulty header.height
            (get_recent_headers retarget_lookback chain (bytes_to_hex header.prev_hash))
            (some header.timestamp) parent.sandglass2_anchor
          ≡ ok header.difficulty =
        next_difficulty-recent 58 9 chain (bytes_to_hex header.prev_hash) header.height
          (some header.timestamp) parent.sandglass2_anchor
        ∙ rw (window, rep.same_anchor) schedule in
      let equal = (==_iff header.difficulty header.difficulty).1 refl in
      rw
        (
          follows,
          small,
          difficulty,
          equal,
          future,
          window,
          past,
          skip,
          root,
          compare_bytes_self header.tx_root,
          check_header,
        )
        refl
