-- ===== src/Net/FastSync.antt =====
-- src/net/fastSync.ts: the checks of the headers, the choice of the headers whose proof of work is
-- checked, and the start of a chain from them. The downloads are not modelled: the headers and the
-- snapshot of the state are arguments. A reason that names a height is given without it.
pub mod Checks
pub mod Window
pub mod Run
pub mod Sampling
use browser_coin_native_mine.Prelude.{
  ℕ, Bool, List, ltb, ◌+◌, [], if◌then◌else◌, Bytes, suc, ◌∷◌, zero, ◌++◌, ◌-◌, min, Option, Result,
  ◌>>◌, ok, ◌>>=◌, length, none, fail_if, drop, not, ◌==◌, some, ◌&&◌, leb, false, true, take, ◌||◌,
  get_elem?, bytes_eq,
}
use browser_coin_native_mine.Chain.Block.{BlockHeader, hash_header}
use browser_coin_native_mine.Chain.Blockchain.{Blockchain, genesis}
use browser_coin_native_mine.Chain.Blockchain.Accept.{differs}
use browser_coin_native_mine.Chain.Blockchain.Seed.{seed_header, seed_anchor}
use browser_coin_native_mine.Chain.Consensus.{next_difficulty, median_time_past}
use browser_coin_native_mine.Chain.Crypto.{Crypto}
use browser_coin_native_mine.Chain.Genesis.{mtp_window, sandglass2_anchor_height, max_future_time_s}
use browser_coin_native_mine.Chain.State.{State}
use browser_coin_native_mine.Chain.State.Root.{state_root}
use browser_coin_native_mine.Util.Hex.{Hex, bytes_to_hex}

abbrev pub fast_sync_min_backlog : ℕ
fast_sync_min_backlog = 2000

abbrev pub header_pow_recent : ℕ
header_pow_recent = 160

abbrev pub header_pow_samples : ℕ
header_pow_samples = 64

abbrev pub fast_sync_max_tail : ℕ
fast_sync_max_tail = 1000

-- Natural numbers stop at 0, which is no backlog either.
abbrev pub fast_sync_eligible : ℕ → ℕ → Bool
fast_sync_eligible local_height server_height =
    ltb fast_sync_min_backlog (server_height - local_height)

-- The variables of the loop over the headers.
pub record Rolling : Type 0 where
  pub hashes : List Bytes
  pub prev_hash : Bytes
  pub window : List BlockHeader
  pub sandglass2_anchor : Option BlockHeader

module _ ⦃c : Crypto⦄ where
  abbrev pub start_rolling : Rolling
  start_rolling = record {
    hashes = [];
    prev_hash = hash_header genesis.header;
    window = genesis.header ∷ [];
    sandglass2_anchor = none;
  }

  -- The end of a round: the window keeps the last `MTP_WINDOW` headers.
  abbrev pub roll : Rolling → BlockHeader → Rolling
  roll s h =
      let longer = s.window ++ (h ∷ []) in
      record {
        hashes = s.hashes ++ (hash_header h ∷ []);
        prev_hash = hash_header h;
        window = if ltb mtp_window (length longer) then drop 1 longer else longer;
        sandglass2_anchor =
            if h.height == sandglass2_anchor_height then some h else s.sandglass2_anchor;
      }

  -- One round, for the header at this index.
  unfoldable pub verify_header : ℕ → ℕ → Rolling → BlockHeader → Result Rolling
  verify_header now i s h = do
    fail_if (not (h.height == i + 1)) "height sequence broken"
    fail_if (differs h.prev_hash s.prev_hash) "header linkage broken"
    expected ← (next_difficulty h.height s.window (some h.timestamp) s.sandglass2_anchor)
    fail_if (not (h.difficulty == expected)) "difficulty schedule violated"
    let mtp = median_time_past s.window
    fail_if (ltb 0 mtp && leb h.timestamp mtp) "timestamp below median-time-past"
    fail_if (ltb (now + max_future_time_s) h.timestamp) "timestamp too far in future"
    ok (roll s h)

  unfoldable pub verify_headers : ℕ → ℕ → Rolling → List BlockHeader → Result Rolling
  verify_headers now i s [] = ok s
  verify_headers now i s (h ∷ headers) = do
    s' ← verify_header now i s h
    verify_headers now (i + 1) s' headers
      -- The checks of `fetchSnapshot` on what a server sent: the height, the hash, and the state's root.

  unfoldable pub usable_snapshot : List BlockHeader → List Bytes → ℕ → Hex → State → Bool
  usable_snapshot headers hashes height hash_hex state =
      let top_height = length headers in
      if ltb height 1 || ltb top_height height || ltb fast_sync_max_tail (top_height - height)
      then false
      else elim (get_elem? hashes (height - 1)) [
        | none ↦ false
        | some hash ↦ elim (get_elem? headers (height - 1)) [
          | none ↦ false
          | some header ↦
              bytes_eq hash_hex (bytes_to_hex hash)
              && not (differs (state_root state) header.state_root)
        ]
      ]

  -- `seedHeader` for every header below the anchor, then `seedAnchor`. On an error the caller resets
  -- the chain.
  unfoldable pub seed_headers : Blockchain → List BlockHeader → Result Blockchain
  seed_headers chain [] = ok chain
  seed_headers chain (h ∷ headers) = do chain ← seed_header chain h; seed_headers chain headers

  unfoldable pub seed_chain :
      Blockchain → List BlockHeader → BlockHeader → State → Result Blockchain
  seed_chain chain headers anchor state = do
    chain ← seed_headers chain headers
    seed_anchor chain anchor state

unfoldable pub has_index : ℕ → List ℕ → Bool
has_index i [] = false
has_index i (j ∷ idxs) = if i == j then true else has_index i idxs

-- `set.add(i)`
abbrev pub add_index : ℕ → List ℕ → List ℕ
add_index i idxs = if has_index i idxs then idxs else idxs ++ (i ∷ [])

-- `for (let i = recentStart; i <= anchorIdx; i++) powIdxs.add(i)`, for so many rounds.
unfoldable pub add_recent : ℕ → ℕ → List ℕ → List ℕ
add_recent zero i idxs = idxs
add_recent (suc n) i idxs = add_recent n (i + 1) (add_index i idxs)

-- A sample is cut to the indices before the recent ones.
unfoldable pub add_samples : ℕ → List ℕ → List ℕ → List ℕ
add_samples recent_start [] idxs = idxs
add_samples recent_start (sample ∷ samples) idxs =
    add_samples recent_start samples (add_index (min (recent_start - 1) sample) idxs)

-- The indices of the headers whose proof of work is checked, for the samples that are drawn.
unfoldable pub pow_indices : ℕ → List ℕ → List ℕ
pow_indices anchor_idx samples =
    let recent_start = anchor_idx + 1 - header_pow_recent in
    let recent = add_recent (anchor_idx + 1 - recent_start) recent_start [] in
    if ltb 0 recent_start
    then add_samples recent_start (take header_pow_samples samples) recent
    else recent
