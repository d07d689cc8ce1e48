-- ===== src/Net/Backfill/Fatal.antt =====
-- src/net/backfill.ts: the failures behind a fatal batch.
use mathlib.Core.Path.{subst}
use browser_coin_native_mine.Prelude.{
  List, ℕ, ◌++◌, Bool, ◌≡◌, false, ◌∷◌, ◌≤◌, Bool-cases, arith, if◌then◌else◌, ◌+◌, [], true,
  ==_iff, ◌==◌, ◌⊎◌, inl, not, Option-cases, ◌&&◌, inr, refl, some, Result-cases,
}
use browser_coin_native_mine.Chain.Block.{Block, block_hash_hex}
use browser_coin_native_mine.Chain.Blockchain.{ChainBlock}
use browser_coin_native_mine.Chain.Blockchain.Seed.{attach_body}
use browser_coin_native_mine.Chain.Crypto.{Crypto}
use browser_coin_native_mine.Net.Backfill.{attach_bodies, delete_suspect, Backfill, fatal}
use browser_coin_native_mine.Net.FastSync.{has_index}
use browser_coin_native_mine.Prelude.Dict.{lookup}

-- How many blocks of this height failed the proof of work.
unfoldable pub failing : ℕ → List (Block × Bool) → ℕ
failing h [] = 0
failing h ((block, valid) ∷ items) =
    if not valid && (h == block.header.height) then failing h items + 1 else failing h items

abbrev FailedTwice : List (Block × Bool) → List ℕ → Type 0
FailedTwice items suspects =
    (h : ℕ) × (1 ≤ failing h items) × ((has_index h suspects ≡ true) ⊎ (2 ≤ failing h items))

failing-more :
    (h : ℕ) (block : Block) (valid : Bool) (items : List (Block × Bool))
    → failing h items ≤ failing h ((block, valid) ∷ items)
unfolding failing
failing-more h block valid items = elim (Bool-cases (not valid && (h == block.header.height))) [
  | inl one ↦ rw (one, failing) (omega arith)
  | inr same ↦ rw (same, failing) (omega arith)
]

failing-one :
    (block : Block) (items : List (Block × Bool))
    → failing block.header.height ((block, false) ∷ items) ≡ failing block.header.height items + 1
unfolding failing
failing-one block items =
    let same = (==_iff block.header.height block.header.height).1 refl in rw same refl

widen :
    (block : Block) (valid : Bool) (items : List (Block × Bool)) (suspects : List ℕ)
    → FailedTwice items suspects
    → FailedTwice ((block, valid) ∷ items) suspects
widen block valid items suspects (h, once, twice) =
    let more = failing-more h block valid items in
    (
      h,
      omega (arith, more, once),
      elim twice [ inl suspect ↦ inl suspect | inr again ↦ inr (omega (arith, more, again)) ],
    )

has_index-snoc :
    (i j : ℕ) (xs : List ℕ)
    → has_index i (xs ++ (j ∷ [])) ≡ true
    → (has_index i xs ≡ true) ⊎ (i ≡ j)
unfolding has_index
has_index-snoc i j [] h = elim (Bool-cases (i == j)) [
  | inl same ↦ inr ((==_iff i j).0 same)
  | inr apart ↦ absurd (cc (rw apart at h))
]
has_index-snoc i j (x ∷ xs) h = elim (Bool-cases (i == x)) [
  | inl here ↦ inl (rw here refl)
  | inr apart ↦ rw apart (has_index-snoc i j xs (rw apart at h))
]

has_index-delete :
    (i j : ℕ) (xs : List ℕ) → has_index i (delete_suspect j xs) ≡ true → has_index i xs ≡ true
unfolding has_index delete_suspect
has_index-delete i j [] h = absurd (cc)
has_index-delete i j (x ∷ xs) h = elim (Bool-cases (i == x)) [
  | inl here ↦ rw here refl
  | inr apart ↦ elim (Bool-cases (j == x)) [
    | inl gone ↦ rw apart (rw gone at h)
    | inr kept ↦ rw apart (has_index-delete i j xs (rw (kept, apart) at h))
  ]
]

module _ ⦃c : Crypto⦄ where
  -- The case of a header that misses its body.
  attach_empty-fatal :
      (block : Block) (valid : Bool) (items : List (Block × Bool)) (s : Backfill) (count : ℕ)
      (entry : ChainBlock)
      → lookup (block_hash_hex block.header) s.chain.blocks ≡ some entry
      → entry.has_body ≡ false
      → ((s' : Backfill) (count' : ℕ)
          → (attach_bodies items s' count').1 ≡ fatal
          → FailedTwice items s'.pow_suspects)
      → (attach_bodies ((block, valid) ∷ items) s count).1 ≡ fatal
      → FailedTwice ((block, valid) ∷ items) s.pow_suspects
  unfolding attach_bodies
  attach_empty-fatal block false items s count entry found empty later e =
      let h = block.header.height in
      let counted = failing-one block items in
      elim (Bool-cases (has_index h s.pow_suspects)) [
        | inl suspect ↦ (h, omega (arith, counted), inl suspect)
        | inr new ↦
            let (h', once, twice) =
              later (record s { pow_suspects = s.pow_suspects ++ (h ∷ []) }) count
                (rw (found, empty, new, attach_bodies) at e) in
            let more = failing-more h' block false items in
            elim twice [
              | inr again ↦ (h', omega (arith, more, once), inr (omega (arith, more, again)))
              | inl suspect ↦ elim (has_index-snoc h' h s.pow_suspects suspect) [
                | inl before ↦ (h', omega (arith, more, once), inl before)
                | inr same ↦
                    let one : 1 ≤ failing h items = subst (λ n. 1 ≤ failing n items) same once in
                    (h, omega (arith, counted), inr (omega (arith, counted, one)))
              ]
            ]
      ]
  attach_empty-fatal block true items s count entry found empty later e =
      let h = block.header.height in
      let narrow = λ (t : FailedTwice items (delete_suspect h s.pow_suspects)).
        widen block true items s.pow_suspects (
          t.0,
          t.1,
          elim t.2 [
            | inl suspect ↦ inl (has_index-delete t.0 h s.pow_suspects suspect)
            | inr again ↦ inr again
          ],
        ) in
      elim (Result-cases (attach_body s.chain block)) [
        | inr (chain, done) ↦ narrow (
            later (record s { pow_suspects = delete_suspect h s.pow_suspects; chain = chain })
              (count + 1) (rw (found, empty, done, attach_bodies) at e))
        | inl (text, failed) ↦ narrow (
            later (record s { pow_suspects = delete_suspect h s.pow_suspects }) count
              (rw (found, empty, failed, attach_bodies) at e))
      ]

  -- A batch is fatal only if for some height a block failed the proof of work in it, and either
  -- this height was a suspect before the batch or two blocks of it failed in the batch.
  pub attach_bodies-fatal :
      (items : List (Block × Bool)) (s : Backfill) (count : ℕ)
      → (attach_bodies items s count).1 ≡ fatal
      → FailedTwice items s.pow_suspects
  unfolding attach_bodies
  attach_bodies-fatal [] s count e = absurd (cc)
  attach_bodies-fatal ((block, valid) ∷ items) s count e =
      let h = block.header.height in
      elim (Option-cases (lookup (block_hash_hex block.header) s.chain.blocks)) [
        | inl unknown ↦
            widen block valid items s.pow_suspects
              (attach_bodies-fatal items s count (rw (unknown, attach_bodies) at e))
        | inr (entry, found) ↦ elim (Bool-cases entry.has_body) [
          | inl full ↦
              widen block valid items s.pow_suspects
                (attach_bodies-fatal items s count (rw (found, full, attach_bodies) at e))
          | inr empty ↦
              attach_empty-fatal block valid items s count entry found empty
                (λ s' count' e'. attach_bodies-fatal items s' count' e') e
        ]
      ]
