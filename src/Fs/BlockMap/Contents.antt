-- ===== src/Fs/BlockMap/Contents.antt =====
-- The contents of a file's direct blocks, and what `sfs_fs_inode_block_read` of src/fs.c makes of
-- them.
use filesys.Prelude.{
  ℕ, ◌^◌, ◌<◌, ◌≤◌, ◌≡◌, ◌≢◌, ◌⊎◌, inl, inr, refl, sym, ap, subst, ◌∙◌, false, ◌==◌, arith, lt→ltb,
}
use filesys.Bytes.{Buffer, zeros, clip}
use filesys.Outcome.{Ensures, returns, Ensures-mono, Ensures-bind, Ensures-Succeeds, Succeeds}
use filesys.Os.{Os, IsPosix, IsReliable}
use filesys.Block.{block_at}
use filesys.Fs.Layout.{Superblock, Inode, ndir_blocks}
use filesys.Fs.State.{Filesystem}
use filesys.Fs.Cache.{SameMemory, write_block_lem}
use filesys.Fs.Reliable.{read_block-Succeeds, write_block-Succeeds}
use filesys.Fs.BlockMap.{
  pointer, is_outside, inode_block_read, block_for_read, read_numbered, inode_block_write,
  block_for_write, direct_for_write, write_numbered,
}
use filesys.Fs.BlockMap.ReadBack.{read_numbered-at}

pub table_below : (sb : Superblock) (a : ℕ) → is_outside sb a ≡ false → sb.inode_table_blocks < a
unfolding is_outside
table_below sb a inside = ground arith

pub blocks_above : (sb : Superblock) (a : ℕ) → is_outside sb a ≡ false → a < sb.blocks
unfolding is_outside
blocks_above sb a inside = ground arith

module _ ⦃os : Os⦄ (px : IsPosix os) where
  -- Where block `k` of the file is found: nowhere, or on the disk.
  abbrev pub Place : (content : ℕ → Buffer) → Inode → Filesystem → ℕ → Type 0
  Place content inode fs k =
      (pointer inode k ≡ 0) × (content k ≡ zeros)
      ⊎ (is_outside fs.superblock (pointer inode k) ≡ false)
        × (block_at px fs.os_state (pointer inode k) ≡ content k)

  -- The direct blocks of the file have these contents.
  pub record Holds (content : ℕ → Buffer) (inode : Inode) (fs : Filesystem) : Type 0 where
    pub places : (k : ℕ) → k < ndir_blocks → Place content inode fs k
    pub small : fs.superblock.blocks ≤ 2 ^ 55

  -- Blocks behind the inode table that stay where they are.
  pub Place-stays :
      (content : ℕ → Buffer) (inode : Inode) (k : ℕ) (fs fs' : Filesystem)
      → fs'.superblock ≡ fs.superblock
      → ((j : ℕ)
          → fs.superblock.inode_table_blocks < j
          → block_at px fs'.os_state j ≡ block_at px fs.os_state j)
      → Place content inode fs k
      → Place content inode fs' k
  Place-stays content inode k fs fs' super same (inl h) = inl h
  Place-stays content inode k fs fs' super same (inr (inside, at)) = inr (
    ap (λ (s : Superblock). is_outside s (pointer inode k)) super ∙ inside,
    same (pointer inode k) (table_below fs.superblock (pointer inode k) inside) ∙ at,
  )

  pub Holds-stays :
      (content : ℕ → Buffer) (inode : Inode) (fs fs' : Filesystem)
      → fs'.superblock ≡ fs.superblock
      → ((j : ℕ)
          → fs.superblock.inode_table_blocks < j
          → block_at px fs'.os_state j ≡ block_at px fs.os_state j)
      → Holds content inode fs
      → Holds content inode fs'
  Holds-stays content inode fs fs' super same h = record {
    places = λ k p. Place-stays content inode k fs fs' super same (h.places k p);
    small = subst (λ (s : Superblock). s.blocks ≤ 2 ^ 55) (sym super) h.small;
  }

  -- A read of a direct block brings its contents, and changes nothing that the file system sees.
  pub inode_block_read-content :
      (content : ℕ → Buffer) (inode : Inode) (fs : Filesystem) (k : ℕ)
      → k < ndir_blocks
      → Holds content inode fs
      → Ensures
          (λ b fs'.
            (b ≡ content k)
            × SameMemory px fs fs'
            × ((j : ℕ) → block_at px fs'.os_state j ≡ block_at px fs.os_state j))
          (λ _. Unit {0})
          (inode_block_read inode k fs)
  unfolding inode_block_read block_for_read read_numbered
  inode_block_read-content content inode fs k direct h =
      rw (lt→ltb k ndir_blocks direct) (elim (h.places k direct) [
        | inl (hole, empty) ↦
            subst
              (λ n.
                Ensures
                  (λ b fs'.
                    (b ≡ content k)
                    × SameMemory px fs fs'
                    × ((j : ℕ) → block_at px fs'.os_state j ≡ block_at px fs.os_state j))
                  (λ _. Unit {0}) (read_numbered n fs))
              (sym hole) (returns (sym empty, record { cache = refl; super = refl }, λ j. refl))
        | inr (inside, at) ↦
            Ensures-mono (read_numbered-at px (pointer inode k) fs inside h.small)
              (λ b fs' (e, memory, same). (e ∙ at, memory, same)) λ _ _. tt
      ])

  pub inode_block_read-Holds :
      (content : ℕ → Buffer) (inode : Inode) (fs : Filesystem) (k : ℕ)
      → k < ndir_blocks
      → Holds content inode fs
      → Ensures
          (λ b fs'. (b ≡ content k) × Holds content inode fs')
          (λ _. Unit {0})
          (inode_block_read inode k fs)
  inode_block_read-Holds content inode fs k direct h =
      Ensures-mono (inode_block_read-content content inode fs k direct h)
        (λ b fs' (e, memory, same).
          (e, Holds-stays content inode fs fs' memory.super (λ j _. same j) h))
        λ _ _. tt

  -- The read succeeds if the disk file's transfers are never short.
  pub inode_block_read-Succeeds :
      (size : ℕ) (content : ℕ → Buffer) (inode : Inode) (fs : Filesystem) (k : ℕ)
      → IsReliable os size
      → size ≤ 2 ^ 55
      → fs.superblock.blocks ≤ size
      → k < ndir_blocks
      → Holds content inode fs
      → Succeeds (inode_block_read inode k fs)
  unfolding inode_block_read block_for_read read_numbered
  inode_block_read-Succeeds size content inode fs k reliable small within direct h =
      rw (lt→ltb k ndir_blocks direct) (elim (h.places k direct) [
        | inl (hole, empty) ↦ subst (λ n. Succeeds (read_numbered n fs)) (sym hole) (returns tt)
        | inr (inside, at) ↦
            let n = pointer inode k in
            let behind = table_below fs.superblock n inside in
            let placed : (n == 0) ≡ false = ground (arith, behind) in
            rw placed (
              rw inside (
                read_block-Succeeds size reliable small n fs
                  (omega (arith, blocks_above fs.superblock n inside, within))))
      ])

  -- A block that the inode has is written in place.
  pub inode_block_write-in_place :
      (size : ℕ) (inode : Inode) (fs : Filesystem) (k : ℕ) (block : Buffer)
      → IsReliable os size
      → size ≤ 2 ^ 55
      → fs.superblock.blocks ≤ size
      → k < ndir_blocks
      → is_outside fs.superblock (pointer inode k) ≡ false
      → Ensures
          (λ inode' fs'.
            (inode' ≡ inode)
            × (block_at px fs'.os_state (pointer inode k) ≡ clip block)
            × SameMemory px fs fs'
            × ((j : ℕ)
                → pointer inode k ≢ j
                → block_at px fs'.os_state j ≡ block_at px fs.os_state j))
          (λ _. ⊥)
          (inode_block_write inode k block fs)
  unfolding inode_block_write block_for_write direct_for_write write_numbered
  inode_block_write-in_place size inode fs k block reliable small within direct inside =
      let n = pointer inode k in
      let behind = table_below fs.superblock n inside in
      let below : n < size = omega (arith, blocks_above fs.superblock n inside, within) in
      let placed : (n == 0) ≡ false = ground (arith, behind) in
      rw (lt→ltb k ndir_blocks direct) (
        rw placed (
          rw inside (
            Ensures-bind
              (Ensures-Succeeds (write_block_lem px n block fs (omega (arith, below, small)))
                (write_block-Succeeds size reliable small n block fs below))
              (λ _ fs' (written, memory, others). returns (refl, written, memory, others))
              λ _ impossible. impossible)))
