-- ===== src/Fs/BlockMap/ReadBack.antt =====
-- src/fs.c: a direct block of a file that `sfs_fs_inode_block_write` has written, as
-- `sfs_fs_inode_block_read` reads it.
use filesys.Prelude.{
  ℕ, ◌^◌, ◌<◌, ◌≤◌, ◌≡◌, ◌≢◌, refl, sym, ap, subst, ◌∙◌, true, false, length, get_or, set, List, [],
  ◌∷◌, zero, suc, arith, ◌==◌, lt→ltb,
}
use filesys.Bytes.{Buffer, clip}
use filesys.Outcome.{
  ◌>>=◌, Ensures, returns, fails, Ensures-bind, Ensures-mono, Ensures-if, Ensures-if_run,
}
use filesys.Os.{Os, IsPosix}
use filesys.Block.{Addressable, block_at}
use filesys.Fs.Layout.{Inode, Superblock, ndir_blocks, n_blocks}
use filesys.Fs.State.{Filesystem}
use filesys.Fs.BlockMap.{
  pointer, set_pointer, is_outside, block_for_read, read_numbered, inode_block_read,
  direct_for_write, block_for_write, write_numbered, inode_block_write,
}
use filesys.Fs.Cache.{SameMemory, read_block_lem, write_block_lem}
use filesys.Fs.BlockMap.Sizes.{allocate_block-Sized, write_inode-Sized}

get_or-set :
    {A : Type 0} (xs : List A) (i : ℕ) (v d : A) → i < length xs → get_or (set xs i v) i d ≡ v
get_or-set [] i v d h = absurd (omega (arith, h))
get_or-set (x ∷ xs) zero v d h = refl
get_or-set (x ∷ xs) (suc i) v d h = get_or-set xs i v d (omega (arith, h))

module _ ⦃os : Os⦄ where
  -- A direct block has the number that the inode then points to.
  direct_for_write-pointer :
      (inode : Inode) (iblock : ℕ) (fs : Filesystem)
      → iblock < length inode.block_pointers
      → 0 < inode.inumber
      → Ensures
          (λ (inode', n) fs'.
            (pointer inode' iblock ≡ n) × (fs'.superblock.blocks ≡ fs.superblock.blocks))
          (λ _. Unit {0})
          (direct_for_write inode iblock fs)
  unfolding direct_for_write
  direct_for_write-pointer inode iblock fs h p =
      Ensures-if_run (pointer inode iblock == 0) _ _ fs
        (λ _.
          Ensures-bind (allocate_block-Sized fs)
            (λ n fs' e.
              Ensures-bind (write_inode-Sized (set_pointer inode iblock n) fs' p)
                (λ _ fs'' e'. returns (get_or-set inode.block_pointers iblock n 0 h, e' ∙ e))
                λ _ _. tt)
            λ _ _. tt)
        λ _. returns (refl, refl)

not_hole : (sb : Superblock) (n : ℕ) → is_outside sb n ≡ false → (n == 0) ≡ true → ⊥
unfolding is_outside
not_hole sb n inside z = ground arith

module _ ⦃os : Os⦄ (px : IsPosix os) where
  is_outside-Addressable :
      (fs : Filesystem) (n : ℕ)
      → is_outside fs.superblock n ≡ false
      → fs.superblock.blocks ≤ 2 ^ 55
      → Addressable n
  unfolding is_outside
  is_outside-Addressable fs n inside small = ground (arith, inside)

  -- A block that is written is inside and stands on the disk, and every other block stays.
  pub write_numbered-at :
      (n : ℕ) (block : Buffer) (fs : Filesystem)
      → fs.superblock.blocks ≤ 2 ^ 55
      → Ensures
          (λ _ fs'.
            (block_at px fs'.os_state n ≡ clip block)
            × (is_outside fs.superblock n ≡ false)
            × SameMemory px fs fs'
            × ((j : ℕ) → n ≢ j → block_at px fs'.os_state j ≡ block_at px fs.os_state j))
          (λ _. Unit {0})
          (write_numbered n block fs)
  unfolding write_numbered
  write_numbered-at n block fs small =
      Ensures-if (is_outside fs.superblock n) _ _ (λ _. fails tt)
        λ inside.
          Ensures-mono (write_block_lem px n block fs (is_outside-Addressable fs n inside small))
            (λ _ fs' (at, memory, others). (at, inside, memory, others)) λ _ _. tt

  -- A block inside is read as it stands, and every block stays.
  pub read_numbered-at :
      (n : ℕ) (fs : Filesystem)
      → is_outside fs.superblock n ≡ false
      → fs.superblock.blocks ≤ 2 ^ 55
      → Ensures
          (λ b fs'.
            (b ≡ block_at px fs.os_state n)
            × SameMemory px fs fs'
            × ((j : ℕ) → block_at px fs'.os_state j ≡ block_at px fs.os_state j))
          (λ _. Unit {0})
          (read_numbered n fs)
  unfolding read_numbered
  read_numbered-at n fs inside small =
      Ensures-if (n == 0) _ _ (λ z. absurd (not_hole fs.superblock n inside z))
        λ _.
          Ensures-if (is_outside fs.superblock n) _ _ (λ outside. cc)
            λ _.
              Ensures-mono (read_block_lem px n fs (is_outside-Addressable fs n inside small))
                (λ b fs' h. h) λ _ _. tt

  inode_block_read-at :
      (inode : Inode) (iblock n : ℕ) (fs : Filesystem)
      → pointer inode iblock ≡ n
      → iblock < ndir_blocks
      → is_outside fs.superblock n ≡ false
      → fs.superblock.blocks ≤ 2 ^ 55
      → Ensures
          (λ b _. b ≡ block_at px fs.os_state n)
          (λ _. Unit {0})
          (inode_block_read inode iblock fs)
  unfolding inode_block_read block_for_read
  inode_block_read-at inode iblock n fs at direct inside small =
      rw (lt→ltb iblock ndir_blocks direct) (
        subst
          (λ k. Ensures (λ b _. b ≡ block_at px fs.os_state n) (λ _. Unit {0}) (read_numbered k fs))
          (sym at) (Ensures-mono (read_numbered-at n fs inside small) (λ b fs' h. h.0) λ _ _. tt))

  -- The block stands on the disk where the inode points to.
  record Placed (iblock : ℕ) (block : Buffer) (inode : Inode) (fs : Filesystem) : Type 0 where
    number : ℕ
    at : pointer inode iblock ≡ number
    written : block_at px fs.os_state number ≡ clip block
    inside : is_outside fs.superblock number ≡ false
    small : fs.superblock.blocks ≤ 2 ^ 55

  inode_block_write-Placed :
      (inode : Inode) (iblock : ℕ) (block : Buffer) (fs : Filesystem)
      → 0 < inode.inumber
      → length inode.block_pointers ≡ n_blocks
      → iblock < ndir_blocks
      → fs.superblock.blocks ≤ 2 ^ 55
      → Ensures (Placed iblock block) (λ _. Unit {0}) (inode_block_write inode iblock block fs)
  unfolding inode_block_write block_for_write
  inode_block_write-Placed inode iblock block fs p whole direct small =
      rw (lt→ltb iblock ndir_blocks direct) (
        Ensures-bind (direct_for_write-pointer inode iblock fs (omega (arith, whole, direct)) p)
          (λ (inode', n) fs' (at, size).
            Ensures-bind (write_numbered-at n block fs' (omega (arith, size, small)))
              (λ _ fs'' (written, inside, memory, others). returns (record {
                number = n;
                at = at;
                written = written;
                inside = ap (λ (s : Superblock). is_outside s n) memory.super ∙ inside;
                small =
                    subst (λ (s : Superblock). s.blocks ≤ 2 ^ 55) (sym memory.super)
                      (omega (arith, size, small));
              }))
              λ _ _. tt)
          λ _ _. tt)

  -- `sfs_fs_inode_block_write` of a direct block, existing or new, and then
  -- `sfs_fs_inode_block_read` of it from the inode that the write has updated: neither aborts, and if
  -- both return 0, what is read are the 512 bytes that were written. The inode has a number and its
  -- pointers, and the disk has at most 2^55 blocks; the list of free blocks may be in any state.
  pub inode_block_write-inode_block_read :
      (inode : Inode) (iblock : ℕ) (block : Buffer) (fs : Filesystem)
      → 0 < inode.inumber
      → length inode.block_pointers ≡ n_blocks
      → iblock < ndir_blocks
      → fs.superblock.blocks ≤ 2 ^ 55
      → Ensures
          (λ b _. b ≡ clip block)
          (λ _. Unit {0})
          ((do inode' ← inode_block_write inode iblock block; inode_block_read inode' iblock) fs)
  inode_block_write-inode_block_read inode iblock block fs p whole direct small =
      Ensures-bind (inode_block_write-Placed inode iblock block fs p whole direct small)
        (λ inode' fs' h.
          Ensures-mono (inode_block_read-at inode' iblock h.number fs' h.at direct h.inside h.small)
            (λ b _ e. e ∙ h.written) λ _ _. tt)
        λ _ _. tt
