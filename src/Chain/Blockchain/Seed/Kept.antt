-- ===== src/Chain/Blockchain/Seed/Kept.antt =====
-- src/chain/blockchain.ts: the index of the heights without a body, under the operations that write to
-- it or to the entries.
use browser_coin_native_mine.Prelude.{
  ℕ, suc, zero, ◌≡◌, List, some, none, ◌∷◌, [], true, false, Bool-cases, Option-cases, inl, inr,
  ◌==◌, ==_iff, bytes_eq, bytes_eq_iff, some-inj, sym, refl, arith, ◌∙◌, if◌then◌else◌, ap,
}
use browser_coin_native_mine.Chain.Block.{Block, BlockHeader}
use browser_coin_native_mine.Chain.Blockchain.{
  Blockchain, ChainBlock, at_height, set_height, drop_height, clear_state, clear_states,
  prune_height, prune_rounds,
}
use browser_coin_native_mine.Chain.Blockchain.Seed.{with_body}
use browser_coin_native_mine.Chain.Blockchain.Seed.Indexed.{
  IsMissing, AreHeights, IsIndexed, SameMissing, SameMissing-self, SameMissing-trans,
  insert_ne-IsMissing, lookup-insert_same, clear_state-SameMissing,
}
use browser_coin_native_mine.Chain.Crypto.{Crypto}
use browser_coin_native_mine.Prelude.Dict.{Dict, lookup, insert}
use browser_coin_native_mine.Util.Hex.{Hex}

clear_states-SameMissing :
    (keys : List Hex) (blocks : Dict ChainBlock) → SameMissing (clear_states keys blocks) blocks
unfolding clear_states
clear_states-SameMissing [] blocks = SameMissing-self blocks
clear_states-SameMissing (key ∷ keys) blocks =
    SameMissing-trans _ _ _ (clear_states-SameMissing keys (clear_state key blocks))
      (clear_state-SameMissing key blocks)

prune_height-SameMissing :
    (chain : Blockchain) → SameMissing (prune_height chain).blocks chain.blocks
unfolding prune_height
prune_height-SameMissing chain = elim (Option-cases (at_height chain.prune_floor chain.by_height)) [
  | inl absent ↦ rw (absent, prune_height) (SameMissing-self chain.blocks)
  | inr (keys, found) ↦ rw (found, prune_height) (clear_states-SameMissing keys chain.blocks)
]

pub prune_rounds-SameMissing :
    (k : ℕ) (chain : Blockchain) → SameMissing (prune_rounds k chain).blocks chain.blocks
unfolding prune_rounds
prune_rounds-SameMissing zero chain = SameMissing-self chain.blocks
prune_rounds-SameMissing (suc k) chain =
    SameMissing-trans _ _ _ (prune_rounds-SameMissing k (prune_height chain))
      (prune_height-SameMissing chain)

at_height-set_height :
    (j h : ℕ) (key : Hex) (rows : List (ℕ × Hex))
    → at_height j (set_height h key rows) ≡ (if j == h then some key else at_height j rows)
unfolding at_height set_height
at_height-set_height j h key [] = refl
at_height-set_height j h key (row ∷ rows) =
    ground (arith, at_height-set_height j h key rows, ==_iff j h, ==_iff h row.0, ==_iff j row.0)

set_height-AreHeights :
    (h : ℕ) (key : Hex) (rows : List (ℕ × Hex))
    → AreHeights rows
    → AreHeights (set_height h key rows)
unfolding at_height set_height
set_height-AreHeights h key [] d = (refl, tt)
set_height-AreHeights h key (row ∷ rows) d = ground (
  arith,
  set_height-AreHeights h key rows d.1,
  at_height-set_height row.0 h key rows,
  ==_iff row.0 h,
  ==_iff h row.0,
)

at_height-drop_height_ne :
    (j h : ℕ) (rows : List (ℕ × Hex))
    → (j == h) ≡ false
    → at_height j (drop_height h rows) ≡ at_height j rows
unfolding at_height drop_height
at_height-drop_height_ne j h [] other = refl
at_height-drop_height_ne j h (row ∷ rows) other =
    ground
      (arith, at_height-drop_height_ne j h rows other, ==_iff j h, ==_iff h row.0, ==_iff j row.0)

at_height-drop_height_self :
    (h : ℕ) (rows : List (ℕ × Hex)) → AreHeights rows → at_height h (drop_height h rows) ≡ none
unfolding at_height drop_height
at_height-drop_height_self h [] d = refl
at_height-drop_height_self h (row ∷ rows) d =
    ground (arith, at_height-drop_height_self h rows d.1, ==_iff h row.0)

at_height-drop_height_absent :
    (j h : ℕ) (rows : List (ℕ × Hex))
    → at_height j rows ≡ none
    → at_height j (drop_height h rows) ≡ none
unfolding at_height drop_height
at_height-drop_height_absent j h [] e = refl
at_height-drop_height_absent j h (row ∷ rows) e =
    ground (arith, at_height-drop_height_absent j h rows)

drop_height-AreHeights :
    (h : ℕ) (rows : List (ℕ × Hex)) → AreHeights rows → AreHeights (drop_height h rows)
unfolding drop_height
drop_height-AreHeights h [] d = tt
drop_height-AreHeights h (row ∷ rows) d =
    ground (arith, drop_height-AreHeights h rows d.1, at_height-drop_height_absent row.0 h rows d.0)

-- An entry without its body is stored at a height at which none is missing.
pub insert-IsIndexed :
    (blocks : Dict ChainBlock) (rows : List (ℕ × Hex)) (new : Hex) (e : ChainBlock)
    → lookup new blocks ≡ none
    → e.has_body ≡ false
    → at_height e.block.header.height rows ≡ none
    → IsIndexed blocks rows
    → IsIndexed (insert new e blocks) (set_height e.block.header.height new rows)
insert-IsIndexed blocks rows new e fresh empty free i = record {
  heights = set_height-AreHeights height new rows i.heights;
  listed = listed;
  real = real;
}
  where
    height : ℕ
    height = e.block.header.height

    listed :
        (key : Hex) (h : ℕ)
        → IsMissing (insert new e blocks) key h
        → at_height h (set_height e.block.header.height new rows) ≡ some key
    listed key h m = elim (Bool-cases (bytes_eq key new)) [
      | inl same ↦
          let is_new : m.entry ≡ e =
            some-inj (sym m.found ∙ lookup-insert_same blocks key new e same) in
          let level : h ≡ e.block.header.height =
            sym m.level ∙ ap (λ (k : ChainBlock). k.block.header.height) is_new in
          at_height-set_height h e.block.header.height new rows
          ∙ rw ((==_iff _ _).1 level) (ap some (sym ((bytes_eq_iff key new).0 same)))
      | inr other ↦
          let old = i.listed key h ((insert_ne-IsMissing blocks key new e h other).0 m) in
          at_height-set_height h e.block.header.height new rows
          ∙ (elim (Bool-cases (h == e.block.header.height)) [
            | inl level ↦
                let same = (==_iff h e.block.header.height).0 level in absurd (cc (old, free, same))
            | inr apart ↦ rw apart old
          ])
    ]

    real :
        (key : Hex) (h : ℕ)
        → at_height h (set_height e.block.header.height new rows) ≡ some key
        → IsMissing (insert new e blocks) key h
    real key h found =
        let here = sym (at_height-set_height h e.block.header.height new rows) ∙ found in
        elim (Bool-cases (h == e.block.header.height)) [
          | inl level ↦
              let same : new ≡ key = some-inj (rw level at here) in
              record {
                entry = e;
                found = lookup-insert_same blocks key new e ((bytes_eq_iff key new).1 (sym same));
                empty = empty;
                level = sym ((==_iff _ _).0 level);
              }
          | inr apart ↦
              let m = i.real key h (rw apart at here) in
              elim (Bool-cases (bytes_eq key new)) [
                | inl same ↦
                    let is_new = (bytes_eq_iff key new).0 same in
                    let there = m.found in absurd (cc (is_new, there, fresh))
                | inr other ↦ (insert_ne-IsMissing blocks key new e h other).1 m
              ]
        ]

-- An entry gets its body, and its height is taken out.
pub with_body-IsIndexed :
    ⦃c : Crypto⦄ (key : Hex) (entry : ChainBlock) (block : Block) (chain : Blockchain)
    → lookup key chain.blocks ≡ some entry
    → entry.has_body ≡ false
    → entry.block.header ≡ block.header
    → IsIndexed chain.blocks chain.bodyless_by_height
    → IsIndexed
        (with_body key entry block chain).blocks
        (with_body key entry block chain).bodyless_by_height
unfolding with_body
with_body-IsIndexed key entry block chain found empty same_header i = record {
  heights = drop_height-AreHeights block.header.height chain.bodyless_by_height i.heights;
  listed = listed;
  real = real;
}
  where
    full : ChainBlock
    full = record entry { block = block; has_body = true }

    own : at_height block.header.height chain.bodyless_by_height ≡ some key
    own = i.listed key block.header.height (record {
      entry = entry;
      found = found;
      empty = empty;
      level = ap (λ (k : BlockHeader). k.height) same_header;
    })

    listed :
        (j : Hex) (h : ℕ)
        → IsMissing (insert key (record entry { block = block; has_body = true }) chain.blocks) j h
        → at_height h (drop_height block.header.height chain.bodyless_by_height) ≡ some j
    listed j h m = elim (Bool-cases (bytes_eq j key)) [
      | inl same ↦
          let is_full = some-inj (sym m.found ∙ lookup-insert_same chain.blocks j key _ same) in
          let has = ap (λ (k : ChainBlock). k.has_body) is_full in
          let lacks = m.empty in absurd (cc (has, lacks))
      | inr other ↦
          let old = i.listed j h ((insert_ne-IsMissing chain.blocks j key _ h other).0 m) in
          elim (Bool-cases (h == block.header.height)) [
            | inl level ↦
                let here = (==_iff h block.header.height).0 level in
                let equal : j ≡ key =
                  some-inj (sym old ∙ ap (λ n. at_height n chain.bodyless_by_height) here ∙ own) in
                let yes = (bytes_eq_iff j key).1 equal in absurd (cc (yes, other))
            | inr apart ↦
                at_height-drop_height_ne h block.header.height chain.bodyless_by_height apart ∙ old
          ]
    ]

    real :
        (j : Hex) (h : ℕ)
        → at_height h (drop_height block.header.height chain.bodyless_by_height) ≡ some j
        → IsMissing (insert key (record entry { block = block; has_body = true }) chain.blocks) j h
    real j h there = elim (Bool-cases (h == block.header.height)) [
      | inl level ↦
          let here = (==_iff h block.header.height).0 level in
          let gone =
            ap (λ n. at_height n (drop_height block.header.height chain.bodyless_by_height)) here
            ∙ at_height-drop_height_self block.header.height chain.bodyless_by_height i.heights in
          absurd (cc (gone, there))
      | inr apart ↦
          let m = i.real j h (
            sym (at_height-drop_height_ne h block.header.height chain.bodyless_by_height apart)
            ∙ there) in
          elim (Bool-cases (bytes_eq j key)) [
            | inl same ↦
                let is_entry : m.entry ≡ entry = some-inj (
                  sym m.found
                  ∙ ap (λ k. lookup k chain.blocks) ((bytes_eq_iff j key).0 same)
                  ∙ found) in
                let at_block : h ≡ block.header.height =
                  sym m.level
                  ∙ ap (λ (k : ChainBlock). k.block.header.height) is_entry
                  ∙ ap (λ (k : BlockHeader). k.height) same_header in
                let yes = (==_iff h block.header.height).1 at_block in absurd (cc (yes, apart))
            | inr other ↦ (insert_ne-IsMissing chain.blocks j key _ h other).1 m
          ]
    ]
