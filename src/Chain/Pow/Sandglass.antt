-- ===== src/Chain/Pow/Sandglass.antt =====
-- src/crypto/sandglass.ts: the Sandglass hash. A 32-bit word is a number below 2 ^ 32, `>>>` a
-- division by a power of two, `Math.imul` a product modulo 2 ^ 32, and `& MASK` the remainder by the
-- size of the buffer. The buffer is a list that the fill makes and the walk updates; the walk's four
-- lines for a chain are one function.
pub mod Words
mod Tests
use browser_coin_native_mine.Prelude.{
  ℕ, zero, suc, ◌/◌, bit_xor, List, Bytes, ◌*◌, ◌^◌, ◌+◌, ◌∷◌, [], ◌%◌, ◌++◌,
}
use browser_coin_native_mine.Chain.Crypto.{Crypto, sha256}
use browser_coin_native_mine.Util.Binary.{read_u32be, u32be}

abbrev pub buffer_words : ℕ
buffer_words = 2 ^ 17

abbrev pub walk_steps : ℕ
walk_steps = 2 ^ 21

abbrev pub chains : ℕ
chains = 4

abbrev pub steps_per_chain : ℕ
steps_per_chain = walk_steps / chains

abbrev pub golden : ℕ
golden = 0x9e3779b9

-- `Math.imul` of two words.
abbrev pub imul : ℕ → ℕ → ℕ
imul a b = (a * b) % 2 ^ 32

unfoldable pub mix : ℕ → ℕ
mix x =
    let x = bit_xor x (x / 2 ^ 16) in
    let x = imul x 0x7feb352d in
    let x = bit_xor x (x / 2 ^ 15) in let x = imul x 0x846ca68b in bit_xor x (x / 2 ^ 16) % 2 ^ 32

-- `buf[i]!` of a `Uint32Array`; past the end JavaScript has `undefined`, which `^` takes for 0.
unfoldable pub word_at : List ℕ → ℕ → ℕ
word_at [] i = 0
word_at (w ∷ words) zero = w
word_at (w ∷ words) (suc i) = word_at words i

-- `buf[i] = v`, which does nothing past the end.
unfoldable pub set_word : ℕ → ℕ → List ℕ → List ℕ
set_word i v [] = []
set_word zero v (w ∷ words) = v ∷ words
set_word (suc i) v (w ∷ words) = w ∷ set_word i v words

-- The eight words of the seed, from the word `i` on.
unfoldable pub seed_words : ℕ → Bytes → ℕ → List ℕ
seed_words zero seed_bytes i = []
seed_words (suc k) seed_bytes i = read_u32be seed_bytes (i * 4) ∷ seed_words k seed_bytes (i + 1)

-- The fill, `k` words from the word `i`: the words, and the last of them.
unfoldable pub fill_loop : ℕ → List ℕ → ℕ → ℕ → List ℕ × ℕ
fill_loop zero sw i h = ([], h)
fill_loop (suc k) sw i h =
    let h = mix ((h + golden + word_at sw (i % 8)) % 2 ^ 32) in
    let rest = fill_loop k sw (i + 1) h in (h ∷ rest.0, rest.1)

-- A chain: its accumulator and the address that it reads next.
pub record Walker : Type 0 where
  pub acc : ℕ
  pub address : ℕ

-- The start of the chain `n` from the word `x`, which is mixed on.
abbrev pub next_x : ℕ → ℕ → ℕ
next_x x n = mix (bit_xor x n)

abbrev pub start_walker : ℕ → ℕ → Walker
start_walker size x = record { acc = mix (bit_xor x golden); address = x % size }

-- `a = mix(a ^ buf[i]); buf[i] = a + s; i = a & MASK`
unfoldable pub step_walker : ℕ → ℕ → Walker × List ℕ → Walker × List ℕ
step_walker size s (w, buf) =
    let a = mix (bit_xor w.acc (word_at buf w.address)) in
    (record { acc = a; address = a % size }, set_word w.address ((a + s) % 2 ^ 32) buf)

-- The four chains, one after the other.
unfoldable pub step_walkers : ℕ → ℕ → List Walker → List ℕ → List Walker × List ℕ
step_walkers size s [] buf = ([], buf)
step_walkers size s (w ∷ walkers) buf =
    let (w', buf') = step_walker size s (w, buf) in
    let rest = step_walkers size s walkers buf' in (w' ∷ rest.0, rest.1)

-- The walk, `k` steps from the step `s`.
unfoldable pub walk_loop : ℕ → ℕ → ℕ → List Walker → List ℕ → List Walker × List ℕ
walk_loop zero size s walkers buf = (walkers, buf)
walk_loop (suc k) size s walkers buf =
    let next = step_walkers size s walkers buf in walk_loop k size (s + 1) next.0 next.1

abbrev pub accumulators : List Walker → List ℕ
accumulators [] = []
accumulators (w ∷ walkers) = w.acc ∷ accumulators walkers

-- `fillAndWalk`, for a buffer of `size` words and `k` steps: `h` and the accumulators.
unfoldable pub fill_and_walk : ℕ → ℕ → Bytes → List ℕ
fill_and_walk size k seed_bytes =
    let sw = seed_words 8 seed_bytes 0 in
    let (buf, h) = fill_loop size sw 0 (mix (bit_xor (word_at sw 0) golden)) in
    let x0 = next_x h 1 in
    let x1 = next_x x0 2 in
    let x2 = next_x x1 3 in
    let x3 = next_x x2 4 in
    let walkers =
      start_walker size x0
      ∷ start_walker size x1
      ∷ start_walker size x2
      ∷ start_walker size x3
      ∷ [] in
    h ∷ accumulators (walk_loop k size 0 walkers buf).0

-- `writeU32be` for each word.
unfoldable pub words_be : List ℕ → Bytes
words_be [] = []
words_be (w ∷ words) = u32be w ++ words_be words

module _ ⦃c : Crypto⦄ where
  unfoldable pub sandglass_hash : Bytes → Bytes
  sandglass_hash header_bytes =
      let seed_bytes = sha256 header_bytes in
      sha256 (seed_bytes ++ words_be (fill_and_walk buffer_words steps_per_chain seed_bytes))
