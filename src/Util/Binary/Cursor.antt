-- ===== src/Util/Binary/Cursor.antt =====
-- Reads at an offset, in terms of what lies behind it: `drop p b` is the rest of the buffer at the
-- cursor `p`. Each lemma says what is read and what lies behind the bytes that were read.
use browser_coin_native_mine.Prelude.{
  ℕ, zero, suc, ◌+◌, ◌*◌, ◌^◌, ◌<◌, ◌≡◌, refl, ◌∙◌, ap, some, List, [], ◌∷◌, ◌++◌, Bytes, get_elem?,
  drop, length, ok, arith, take-length-append, drop-length-append, sym,
}
use browser_coin_native_mine.Prelude.Int.{ℤ, pos}
use browser_coin_native_mine.Util.Binary.{
  slice, u16be, u32be, u64be, read_u16be, read_u32be, read_u64be, read_u64be_loop, byte_or_zero,
  be_value,
}

module _ {ℓ} {A : Type ℓ} where
  drop-nil : (n : ℕ) → drop {A = A} n [] ≡ []
  drop-nil zero = refl
  drop-nil (suc n) = refl

  pub drop-add : (p n : ℕ) (b : List A) → drop (p + n) b ≡ drop n (drop p b)
  drop-add zero n b = ap (λ k. drop k b) (omega arith)
  drop-add (suc p) n [] = drop-nil (suc p + n) ∙ sym (drop-nil n)
  drop-add (suc p) n (x ∷ b) =
      ap (λ k. drop k (x ∷ b)) {x = suc p + n} {y = suc (p + n)} (omega arith) ∙ drop-add p n b

get_elem?-drop : (b : Bytes) (p i : ℕ) → get_elem? b (p + i) ≡ get_elem? (drop p b) i
get_elem?-drop b zero i = ap (get_elem? b) (omega arith)
get_elem?-drop [] (suc p) i = refl
get_elem?-drop (x ∷ b) (suc p) i =
    ap (get_elem? (x ∷ b)) {x = suc p + i} {y = suc (p + i)} (omega arith) ∙ get_elem?-drop b p i

byte_or_zero-drop : (b : Bytes) (p i : ℕ) → byte_or_zero b (p + i) ≡ byte_or_zero (drop p b) i
byte_or_zero-drop b p i = rw (get_elem?-drop b p i, byte_or_zero)

byte_or_zero-drop_zero : (b : Bytes) (p : ℕ) → byte_or_zero b p ≡ byte_or_zero (drop p b) 0
byte_or_zero-drop_zero b p = ap (byte_or_zero b) {y = p + 0} (omega arith) ∙ byte_or_zero-drop b p 0

-- A field of `n` bytes at the cursor.
pub slice_lem :
    (b : Bytes) (p n : ℕ) (x rest : Bytes)
    → drop p b ≡ x ++ rest
    → length x ≡ n
    → (slice b p n ≡ x) × (drop (p + n) b ≡ rest)
slice_lem b p n x rest e h =
    (rw e (take-length-append n x rest h), drop-add p n b ∙ rw e (drop-length-append n x rest h))

pub read_u32be_lem :
    (b : Bytes) (p n : ℕ) (rest : Bytes)
    → drop p b ≡ u32be n ++ rest
    → n < 2 ^ 32
    → (read_u32be b p ≡ n) × (drop (p + 4) b ≡ rest)
unfolding u32be read_u32be
read_u32be_lem b p n rest e h = (
  rw
      (
        byte_or_zero-drop_zero b p,
        byte_or_zero-drop b p 1,
        byte_or_zero-drop b p 2,
        byte_or_zero-drop b p 3,
        e,
      )
      (omega arith),
  drop-add p 4 b ∙ rw e,
)

pub read_u16be_lem :
    (b : Bytes) (p n : ℕ) (rest : Bytes)
    → drop p b ≡ u16be n ++ rest
    → n < 2 ^ 16
    → (read_u16be b p ≡ n) × (drop (p + 2) b ≡ rest)
unfolding u16be read_u16be
read_u16be_lem b p n rest e h = (
  rw (byte_or_zero-drop_zero b p, byte_or_zero-drop b p 1, e) (omega arith),
  drop-add p 2 b ∙ rw e,
)

-- One round of `readU64be`.
read_round :
    (k : ℕ) (b : Bytes) (p n x : ℕ) (rest : Bytes)
    → drop p b ≡ x ∷ rest
    → read_u64be_loop (suc k) b p n ≡ read_u64be_loop k b (p + 1) (n * 256 + x)
unfolding read_u64be_loop
read_round k b p n x rest e = rw (at_cursor, read_u64be_loop, at_byte)
  where
    at_cursor : get_elem? b p ≡ some x
    at_cursor = ap (get_elem? b) {y = p + 0} (omega arith) ∙ get_elem?-drop b p 0 ∙ rw e

    at_byte : byte_or_zero b p ≡ x
    at_byte = rw (at_cursor, byte_or_zero)

-- Reading the bytes `xs` from the cursor gives their big-endian value.
read_bytes :
    (xs b : Bytes) (p n : ℕ) (rest : Bytes)
    → drop p b ≡ xs ++ rest
    → read_u64be_loop (length xs) b p n ≡ ok (be_value n xs)
unfolding be_value read_u64be_loop
read_bytes [] b p n rest e = refl
read_bytes (x ∷ xs) b p n rest e =
    read_round (length xs) b p n x (xs ++ rest) e
    ∙ read_bytes xs b (p + 1) (n * 256 + x) rest (drop-add p 1 b ∙ rw e)

-- The bytes of `u64be` are those of a number below 2 ^ 64.
be_value-u64be : (n : ℕ) → n < 2 ^ 64 → be_value 0 (u64be (pos n)) ≡ n
unfolding u64be be_value
be_value-u64be n h = omega arith

pub length-u64be : (n : ℤ) → length (u64be n) ≡ 8
unfolding u64be
length-u64be n = refl

pub read_u64be_lem :
    (b : Bytes) (p n : ℕ) (rest : Bytes)
    → drop p b ≡ u64be (pos n) ++ rest
    → n < 2 ^ 64
    → (read_u64be b p ≡ ok n) × (drop (p + 8) b ≡ rest)
unfolding read_u64be u64be
read_u64be_lem b p n rest e h = (
  read_bytes (u64be (pos n)) b p 0 rest e ∙ ap ok (be_value-u64be n h),
  drop-add p 8 b ∙ rw e (drop-length-append 8 (u64be (pos n)) rest (length-u64be (pos n))),
)

pub length-u32be : (n : ℕ) → length (u32be n) ≡ 4
unfolding u32be
length-u32be n = refl

pub length-u16be : (n : ℕ) → length (u16be n) ≡ 2
unfolding u16be
length-u16be n = refl

-- A byte at the cursor.
pub byte_or_zero_lem :
    (b : Bytes) (p x : ℕ) (rest : Bytes)
    → drop p b ≡ x ∷ rest
    → (byte_or_zero b p ≡ x) × (drop (p + 1) b ≡ rest)
byte_or_zero_lem b p x rest e = (byte_or_zero-drop_zero b p ∙ rw e, drop-add p 1 b ∙ rw e)
