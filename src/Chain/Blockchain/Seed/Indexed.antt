-- ===== src/Chain/Blockchain/Seed/Indexed.antt =====
-- src/chain/blockchain.ts, bodylessByHeight: the heights without a body, against `hasBody` of the entries.
use browser_coin_native_mine.Prelude.{
  ℕ, ◌≡◌, List, some, none, ◌∷◌, [], true, false, ◌↔◌, Bool-cases, Option-cases, inl, inr, bytes_eq,
  bytes_eq_iff, some-inj, sym, refl, ◌∙◌, ap,
}
use browser_coin_native_mine.Chain.Blockchain.{ChainBlock, at_height, clear_state}
use browser_coin_native_mine.Prelude.Dict.{Dict, lookup, insert, lookup-insert}
use browser_coin_native_mine.Util.Hex.{Hex}

-- The entry with this hash has no body, and is at this height.
pub record IsMissing (blocks : Dict ChainBlock) (key : Hex) (height : ℕ) : Type 0 where
  pub entry : ChainBlock
  pub found : lookup key blocks ≡ some entry
  pub empty : entry.has_body ≡ false
  pub level : entry.block.header.height ≡ height

-- No height is listed twice.
abbrev pub AreHeights : List (ℕ × Hex) → Type 0
AreHeights [] = Unit
AreHeights (row ∷ rows) = (at_height row.0 rows ≡ none) × AreHeights rows

-- The index has the entries without a body, each under its height, and no others.
pub record IsIndexed (blocks : Dict ChainBlock) (rows : List (ℕ × Hex)) : Type 0 where
  pub heights : AreHeights rows
  pub listed : (key : Hex) (h : ℕ) → IsMissing blocks key h → at_height h rows ≡ some key
  pub real : (key : Hex) (h : ℕ) → at_height h rows ≡ some key → IsMissing blocks key h

-- The same entries have no body.
pub record SameMissing (a b : Dict ChainBlock) : Type 0 where
  pub there : (key : Hex) (h : ℕ) → IsMissing a key h → IsMissing b key h
  pub back : (key : Hex) (h : ℕ) → IsMissing b key h → IsMissing a key h

pub SameMissing-IsIndexed :
    (a b : Dict ChainBlock) (rows : List (ℕ × Hex))
    → SameMissing a b
    → IsIndexed b rows
    → IsIndexed a rows
SameMissing-IsIndexed a b rows same i = record {
  heights = i.heights;
  listed = λ key h m. i.listed key h (same.there key h m);
  real = λ key h e. same.back key h (i.real key h e);
}

pub SameMissing-self : (a : Dict ChainBlock) → SameMissing a a
SameMissing-self a = record { there = λ key h m. m; back = λ key h m. m }

pub SameMissing-trans :
    (a b d : Dict ChainBlock) → SameMissing a b → SameMissing b d → SameMissing a d
SameMissing-trans a b d p q = record {
  there = λ key h m. q.there key h (p.there key h m);
  back = λ key h m. p.back key h (q.back key h m);
}

-- An entry that is not touched.
pub insert_ne-IsMissing :
    (blocks : Dict ChainBlock) (key new : Hex) (e : ChainBlock) (h : ℕ)
    → bytes_eq key new ≡ false
    → IsMissing (insert new e blocks) key h ↔ IsMissing blocks key h
insert_ne-IsMissing blocks key new e h other =
    let same : lookup key (insert new e blocks) ≡ lookup key blocks =
      lookup-insert key new e blocks ∙ rw other refl in
    (
      (λ m. record {
        entry = m.entry;
        found = sym same ∙ m.found;
        empty = m.empty;
        level = m.level;
      }),
      (λ m. record { entry = m.entry; found = same ∙ m.found; empty = m.empty; level = m.level }),
    )

pub lookup-insert_same :
    (blocks : Dict ChainBlock) (key new : Hex) (e : ChainBlock)
    → bytes_eq key new ≡ true
    → lookup key (insert new e blocks) ≡ some e
lookup-insert_same blocks key new e same = lookup-insert key new e blocks ∙ rw same refl

-- A new entry with its body.
pub insert-SameMissing :
    (blocks : Dict ChainBlock) (new : Hex) (e : ChainBlock)
    → lookup new blocks ≡ none
    → e.has_body ≡ true
    → SameMissing (insert new e blocks) blocks
insert-SameMissing blocks new e fresh full = record { there = there; back = back }
  where
    there : (key : Hex) (h : ℕ) → IsMissing (insert new e blocks) key h → IsMissing blocks key h
    there key h m = elim (Bool-cases (bytes_eq key new)) [
      | inl same ↦
          let is_new : m.entry ≡ e =
            some-inj (sym m.found ∙ lookup-insert_same blocks key new e same) in
          let no_body = ap (λ (k : ChainBlock). k.has_body) is_new in
          let empty = m.empty in absurd (cc (no_body, empty, full))
      | inr other ↦ (insert_ne-IsMissing blocks key new e h other).0 m
    ]

    back : (key : Hex) (h : ℕ) → IsMissing blocks key h → IsMissing (insert new e blocks) key h
    back key h m = elim (Bool-cases (bytes_eq key new)) [
      | inl same ↦
          let found = m.found in
          let is_new = (bytes_eq_iff key new).0 same in absurd (cc (fresh, found, is_new))
      | inr other ↦ (insert_ne-IsMissing blocks key new e h other).1 m
    ]

abbrev cleared : ChainBlock → ChainBlock
cleared cb = record cb { state = none }

pub clear_state-SameMissing :
    (new : Hex) (blocks : Dict ChainBlock) → SameMissing (clear_state new blocks) blocks
unfolding clear_state
clear_state-SameMissing new blocks = elim (Option-cases (lookup new blocks)) [
  | inl absent ↦ rw (absent, clear_state) (SameMissing-self blocks)
  | inr (cb, found) ↦
      rw (found, clear_state) (record { there = there cb found; back = back cb found })
]
  where
    there :
        (cb : ChainBlock)
        → lookup new blocks ≡ some cb
        → (key : Hex) (h : ℕ) → IsMissing (insert new (cleared cb) blocks) key h
        → IsMissing blocks key h
    there cb found key h m = elim (Bool-cases (bytes_eq key new)) [
      | inl same ↦
          let is_new : m.entry ≡ cleared cb =
            some-inj (sym m.found ∙ lookup-insert_same blocks key new (cleared cb) same) in
          record {
            entry = cb;
            found = ap (λ k. lookup k blocks) ((bytes_eq_iff key new).0 same) ∙ found;
            empty = sym (ap (λ (k : ChainBlock). k.has_body) is_new) ∙ m.empty;
            level = sym (ap (λ (k : ChainBlock). k.block.header.height) is_new) ∙ m.level;
          }
      | inr other ↦ (insert_ne-IsMissing blocks key new (cleared cb) h other).0 m
    ]

    back :
        (cb : ChainBlock)
        → lookup new blocks ≡ some cb
        → (key : Hex) (h : ℕ) → IsMissing blocks key h
        → IsMissing (insert new (cleared cb) blocks) key h
    back cb found key h m = elim (Bool-cases (bytes_eq key new)) [
      | inl same ↦
          let is_old : cb ≡ m.entry = some-inj (
            sym found
            ∙ sym (ap (λ k. lookup k blocks) ((bytes_eq_iff key new).0 same))
            ∙ m.found) in
          record {
            entry = cleared cb;
            found = lookup-insert_same blocks key new (cleared cb) same;
            empty = ap (λ (k : ChainBlock). k.has_body) is_old ∙ m.empty;
            level = ap (λ (k : ChainBlock). k.block.header.height) is_old ∙ m.level;
          }
      | inr other ↦ (insert_ne-IsMissing blocks key new (cleared cb) h other).1 m
    ]
