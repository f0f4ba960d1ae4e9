-- ===== src/Bytes.antt =====
-- Buffers of bytes and the little-endian scalars that src/fs.h and src/dir.h lay out in them.
-- A buffer is a function from offset to memory cell, and a `char` holds a cell modulo 256. A block
-- has the 512 cells that `clip` keeps.
pub mod Fields
use native.Mathlib.Nat.{pow-suc}
use filesys.Prelude.{
  ℕ, zero, suc, ◌+◌, ◌*◌, ◌/◌, ◌%◌, ◌^◌, ◌≤◌, ◌<◌, ◌≡◌, ◌≢◌, refl, fun_ext, ◌⊎◌, arith, ltb, ◌==◌,
  if◌then◌else◌, ◌∙◌,
}

abbrev pub Buffer : Type 0
Buffer = ℕ → ℕ

-- `memset(b, 0, BLOCK_SIZE)`
abbrev pub zeros : Buffer
zeros i = 0

-- b[o] = v
unfoldable pub put : Buffer → ℕ → ℕ → Buffer
put b o v i = if i == o then v else b i

-- The scalar of `n` bytes at offset `o`.
unfoldable pub load : ℕ → Buffer → ℕ → ℕ
load zero b o = 0
load (suc n) b o = b o % 256 + 256 * load n b (o + 1)

unfoldable pub store : ℕ → Buffer → ℕ → ℕ → Buffer
store zero b o v = b
store (suc n) b o v = store n (put b o (v % 256)) (o + 1) (v / 256)

-- The bytes of a block proper.
unfoldable pub clip : Buffer → Buffer
clip b i = if ltb i 512 then b i else 0

-- Two scalars that do not overlap.
abbrev pub Apart : ℕ → ℕ → ℕ → ℕ → Type 0
Apart n o m p = (o + n ≤ p) ⊎ (p + m ≤ o)

pub load-ext :
    (n : ℕ) (b c : Buffer) (o : ℕ)
    → ((i : ℕ) → o ≤ i → i < o + n → b i ≡ c i)
    → load n b o ≡ load n c o
unfolding load
load-ext zero b c o h = refl
load-ext (suc n) b c o h = omega (
  arith,
  h o (omega arith) (omega arith),
  load-ext n b c (o + 1) (λ i p q. h i (omega arith) (omega arith)),
)

store-outside : (n : ℕ) (b : Buffer) (o v i : ℕ) → (i < o) ⊎ (o + n ≤ i) → store n b o v i ≡ b i
unfolding store put
store-outside zero b o v i h = refl
store-outside (suc n) b o v i h =
    store-outside n (put b o (v % 256)) (o + 1) (v / 256) i (omega arith) ∙ ground arith

pub load-store-Apart :
    (n : ℕ) (b : Buffer) (o m p v : ℕ) → Apart n o m p → load n (store m b p v) o ≡ load n b o
load-store-Apart n b o m p v h = load-ext n _ _ o λ i l u. store-outside m b p v i (omega arith)

pub load-store : (n : ℕ) (b : Buffer) (o v : ℕ) → v < 256 ^ n → load n (store n b o v) o ≡ v
unfolding load store put
load-store zero b o v h = omega arith
load-store (suc n) b o v h =
    let bound : v < 256 ^ n * 256 = rw (← pow-suc) h in
    let low = store-outside n (put b o (v % 256)) (o + 1) (v / 256) o (omega arith) in
    let first : put b o (v % 256) o ≡ v % 256 = ground arith in
    omega (arith, low, first, load-store n (put b o (v % 256)) (o + 1) (v / 256) (omega arith))

pub load-clip : (n : ℕ) (b : Buffer) (o : ℕ) → o + n ≤ 512 → load n (clip b) o ≡ load n b o
unfolding clip
load-clip n b o h = load-ext n (clip b) b o λ i l u. ground arith

pub clip-clip : (b : Buffer) → clip (clip b) ≡ clip b
unfolding clip
clip-clip b = fun_ext λ i. ground arith

-- A scalar of `n` bytes is below `256 ^ n`.
pub load-lt : (n : ℕ) (b : Buffer) (o : ℕ) → load n b o < 256 ^ n
unfolding load
load-lt zero b o = omega arith
load-lt (suc n) b o = rw pow-suc (omega (arith, load-lt n b (o + 1)))

-- `((uint64_t*)b)[i]`, and an assignment to it.
unfoldable pub word : Buffer → ℕ → ℕ
word b i = load 8 b (8 * i)

unfoldable pub set_word : Buffer → ℕ → ℕ → Buffer
set_word b i v = store 8 b (8 * i) v

pub word-set_word :
    (b : Buffer) (i v j : ℕ)
    → v < 2 ^ 64
    → word (set_word b i v) j ≡ (if i == j then v else word b j)
unfolding word set_word
word-set_word b i v j h =
    ground (arith, load-store 8 b (8 * i) v, load-store-Apart 8 b (8 * j) 8 (8 * i) v, apart i j)
  where
    apart : (i j : ℕ) → i ≢ j → Apart 8 (8 * j) 8 (8 * i)
    apart i j ne = omega arith

pub word-clip : (b : Buffer) (i : ℕ) → i < 64 → word (clip b) i ≡ word b i
unfolding word
word-clip b i h = load-clip 8 b (8 * i) (omega arith)

pub word-lt : (b : Buffer) (i : ℕ) → word b i < 2 ^ 64
unfolding word
word-lt b i = load-lt 8 b (8 * i)

pub word-zeros : (i : ℕ) → word zeros i ≡ 0
unfolding word load
word-zeros i = refl

pub clip-zeros : clip zeros ≡ zeros
unfolding clip
clip-zeros = fun_ext λ i. ground arith
