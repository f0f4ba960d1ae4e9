-- ===== src/Fs/FreeList.antt =====
-- The index list of free blocks as the multiset of the block numbers that it holds.
pub mod Slots
pub mod Nodes
pub mod Allocate
pub mod More
pub mod Walk
pub mod Free
use filesys.Prelude.{
  has, ℕ, zero, suc, ◌+◌, ◌-◌, ◌*◌, ◌^◌, ◌≤◌, ◌<◌, ◌≡◌, ◌≢◌, refl, ap, ◌∙◌, Bool, true, false, ◌||◌,
  List, [], ◌∷◌, ◌++◌, arith, ◌==◌, if◌then◌else◌,
}
use filesys.Bytes.{Buffer, clip, word, set_word, word-clip, word-set_word}
use filesys.Block.{Addressable}
use filesys.Fs.Layout.{Superblock}

abbrev pub Disk : Type 0
Disk = ℕ → Buffer

abbrev pub hit : ℕ → ℕ → ℕ
hit a v = if v == a then 1 else 0

-- How often block `a` stands in `rounds` slots from slot `i` on.
unfoldable pub slots_count : (rounds i : ℕ) → Buffer → ℕ → ℕ
slots_count zero i b a = 0
slots_count (suc rounds) i b a = hit a (word b i) + slots_count rounds (i + 1) b a

-- How often an index node holds block `a`.
unfoldable pub node_count : Buffer → ℕ → ℕ
node_count b a = slots_count 63 1 b a

-- How often block `a` is free: as an entry of a node, or as a node.
unfoldable pub free_count : Disk → List ℕ → ℕ → ℕ
free_count disk [] a = 0
free_count disk (k ∷ ks) a = hit a k + node_count (disk k) a + free_count disk ks a

-- From `head` the first words of distinct blocks lead through `nodes` to 0.
abbrev pub IsChain : Disk → ℕ → List ℕ → Type 0
IsChain disk head [] = head ≡ 0
IsChain disk head (k ∷ ks) =
    (head ≡ k) × (0 < k) × Addressable k × (has k ks ≡ false) × IsChain disk (word (disk k) 0) ks

pub free_count-ext :
    (d e : Disk) (ks : List ℕ) (a : ℕ)
    → ((k : ℕ) → has k ks ≡ true → e k ≡ d k)
    → free_count e ks a ≡ free_count d ks a
unfolding free_count
free_count-ext d e [] a h = refl
free_count-ext d e (k ∷ ks) a h = ground (
  arith,
  h k,
  ap (λ b. node_count b a) (h k (ground arith)),
  free_count-ext d e ks a (λ j m. h j (ground arith)),
)

pub IsChain-ext :
    (d e : Disk) (head : ℕ) (ks : List ℕ)
    → ((k : ℕ) → has k ks ≡ true → e k ≡ d k)
    → IsChain d head ks
    → IsChain e head ks
IsChain-ext d e head [] h c = c
IsChain-ext d e head (k ∷ ks) h (eq, pos, small, out, rest) = (
  eq,
  pos,
  small,
  out,
  rw (h k (ground arith)) (IsChain-ext d e (word (d k) 0) ks (λ j m. h j (ground arith)) rest),
)

-- An assignment to a slot of the first node keeps the chain.
pub IsChain-set :
    (d e : Disk) (head k : ℕ) (ks : List ℕ) (i v : ℕ)
    → v < 2 ^ 64
    → 1 ≤ i
    → e k ≡ clip (set_word (d k) i v)
    → ((j : ℕ) → k ≢ j → e j ≡ d j)
    → IsChain d head (k ∷ ks)
    → IsChain e head (k ∷ ks)
IsChain-set d e head k ks i v small pos self others (eq, p, a, out, rest) =
    let next : word (e k) 0 ≡ word (d k) 0 =
      ap (λ b. word b 0) self
      ∙ word-clip (set_word (d k) i v) 0 (omega arith)
      ∙ word-set_word (d k) i v 0 small
      ∙ ground arith in
    (
      eq,
      p,
      a,
      out,
      rw next (IsChain-ext d e (word (d k) 0) ks (λ j m. others j (ground arith)) rest),
    )

-- The head of a chain that is not empty is a node.
pub has-hit : (k : ℕ) (ks : List ℕ) (d : Disk) → has k ks ≡ true → 0 < free_count d ks k
unfolding free_count
has-hit k [] d h = absurd (ground arith)
has-hit k (n ∷ ns) d h = ground (arith, has-hit k ns d)

pub has-pos :
    (d : Disk) (head : ℕ) (ks : List ℕ) (j : ℕ) → IsChain d head ks → has j ks ≡ true → 0 < j
has-pos d head [] j c m = cc
has-pos d head (k ∷ ks) j (eq, p, a, out, rest) m =
    ground (arith, has-pos d (word (d k) 0) ks j rest)

-- The free list of a superblock through `nodes`: no block is free twice, and every free block is a
-- data block.
pub record IsFreeList (d : Disk) (sb : Superblock) (nodes : List ℕ) : Type 0 where
  pub chain : IsChain d sb.free_blocks_head nodes
  pub once : (a : ℕ) → 0 < a → free_count d nodes a ≤ 1
  pub range :
      (a : ℕ) → 0 < a → 0 < free_count d nodes a → (sb.inode_table_blocks < a) × (a < sb.blocks)
