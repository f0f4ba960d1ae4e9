-- ===== src/Fs/FreeList/Nodes.antt =====
-- The nodes of a free list are distinct blocks below the number of blocks, so the list is no longer
-- than that: a walk over it ends.
use filesys.Prelude.{
  has, ℕ, zero, suc, ◌-◌, ◌<◌, ◌≤◌, ◌≡◌, refl, true, false, List, [], ◌∷◌, arith, ◌==◌,
  if◌then◌else◌, length, Bool-cases, inl, inr,
}
use filesys.Bytes.{word}
use filesys.Fs.Layout.{Superblock}
use filesys.Fs.FreeList.{Disk, IsChain, IsFreeList, has-hit, has-pos}

abbrev IsDistinct : List ℕ → Type 0
IsDistinct [] = Unit
IsDistinct (k ∷ ks) = (has k ks ≡ false) × IsDistinct ks

without : ℕ → List ℕ → List ℕ
without k [] = []
without k (n ∷ ns) = if n == k then ns else n ∷ without k ns

length-without : (k : ℕ) (ks : List ℕ) → has k ks ≡ true → length ks ≡ suc (length (without k ks))
unfolding without
length-without k [] m = cc
length-without k (n ∷ ns) m = ground (arith, length-without k ns)

has-without : (j k : ℕ) (ks : List ℕ) → has j (without k ks) ≡ true → has j ks ≡ true
unfolding without
has-without j k [] m = m
has-without j k (n ∷ ns) m = ground (arith, has-without j k ns)

has-without_self : (k : ℕ) (ks : List ℕ) → IsDistinct ks → has k (without k ks) ≡ false
unfolding without
has-without_self k [] d = refl
has-without_self k (n ∷ ns) d = ground (arith, has-without_self k ns d.1)

without-IsDistinct : (k : ℕ) (ks : List ℕ) → IsDistinct ks → IsDistinct (without k ks)
unfolding without
without-IsDistinct k [] d = tt
without-IsDistinct k (n ∷ ns) d = elim (Bool-cases (n == k)) [
  | inl e ↦ rw e d.1
  | inr ne ↦ rw ne (ground (arith, has-without n k ns, d.0), without-IsDistinct k ns d.1)
]

-- Distinct numbers from 1 to `b` are at most `b`.
pigeonhole :
    (b : ℕ) (ks : List ℕ)
    → IsDistinct ks
    → ((k : ℕ) → has k ks ≡ true → (0 < k) × (k ≤ b))
    → length ks ≤ b
pigeonhole zero [] d h = omega arith
pigeonhole zero (k ∷ ks) d h = absurd (omega (arith, h k (ground arith)))
pigeonhole (suc b) ks d h = elim (Bool-cases (has (suc b) ks)) [
  | inl m ↦ omega (
    arith,
    length-without (suc b) ks m,
    pigeonhole b (without (suc b) ks) (without-IsDistinct (suc b) ks d)
        (λ k i. ground (arith, h k (has-without k (suc b) ks i), has-without_self (suc b) ks d)),
  )
  | inr out ↦ omega (arith, pigeonhole b ks d (λ k i. ground (arith, h k i)))
]

IsChain-IsDistinct : (d : Disk) (head : ℕ) (ks : List ℕ) → IsChain d head ks → IsDistinct ks
IsChain-IsDistinct d head [] c = tt
IsChain-IsDistinct d head (k ∷ ks) c = (c.3, IsChain-IsDistinct d (word (d k) 0) ks c.4)

pub length-nodes :
    (d : Disk) (sb : Superblock) (ks : List ℕ)
    → 0 < sb.blocks
    → IsFreeList d sb ks
    → suc (length ks) ≤ sb.blocks
length-nodes d sb ks p f =
    let top : suc (sb.blocks - 1) ≡ sb.blocks = omega arith in
    omega (
      arith,
      pigeonhole (sb.blocks - 1) ks (IsChain-IsDistinct d sb.free_blocks_head ks f.chain) (λ k m.
          let q = has-pos d sb.free_blocks_head ks k f.chain m in
          (q, omega (arith, f.range k q (has-hit k ks d m)))),
    )
