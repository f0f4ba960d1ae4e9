-- ===== src/Fs/BlockMap/Sizes.antt =====
-- The calls below a block of a file keep the number of blocks of the disk, and do not abort.
use filesys.Prelude.{ℕ, ◌<◌, ◌≡◌, refl, subst, Bool, false, not, Option, none, some, ◌==◌, lt→ltb}
use filesys.Bytes.{Buffer, word}
use filesys.Outcome.{Outcome, Run, and_then, Ensures, returns, fails, Ensures-bind, Ensures-if}
use filesys.Os.{Os}
use filesys.Block.{is_full, block_read, block_write}
use filesys.Fs.Layout.{Inode}
use filesys.Fs.State.{Filesystem, read_block, write_block, write_superblock}
use filesys.Fs.Inode.{
  write_inode, switch_cache, fill_cache, write_back, cache_inode, inode_block, uint64_of,
}
use filesys.Fs.Blocks.{allocate_block, take_slot, first_slot, set_free_blocks_head}

module _ ⦃os : Os⦄ where
  -- The call does not abort and keeps the number of blocks.
  abbrev pub Sized : {A : Type 0} → ℕ → Outcome Filesystem A → Type 0
  Sized size o = Ensures (λ _ fs. fs.superblock.blocks ≡ size) (λ fs. fs.superblock.blocks ≡ size) o

  pub write_block-Sized :
      (k : ℕ) (b : Buffer) (fs : Filesystem) → Sized fs.superblock.blocks (write_block k b fs)
  unfolding write_block
  write_block-Sized k b fs =
      Ensures-if (is_full (block_write k b fs.os_state).0) _ _ (λ _. returns refl) λ _. fails refl

  pub read_block-Sized : (k : ℕ) (fs : Filesystem) → Sized fs.superblock.blocks (read_block k fs)
  unfolding read_block
  read_block-Sized k fs =
      Ensures-if (is_full (block_read k _ fs.os_state).0) _ _ (λ _. returns refl) λ _. fails refl

  -- A call from a state of the same size.
  pub then_Sized :
      {A B : Type 0} {size : ℕ} {o : Outcome Filesystem A} {k : A → Run Filesystem B}
      → Sized size o
      → ((a : A) (fs : Filesystem) → Sized fs.superblock.blocks (k a fs))
      → Sized size (and_then o k)
  then_Sized {k = k} h go =
      Ensures-bind h (λ a fs e. subst (λ n. Sized n (k a fs)) e (go a fs)) λ fs e. e

  pub take_slot-Sized :
      (o : Option ℕ) (node : ℕ) (index : Buffer) (fs : Filesystem)
      → Sized fs.superblock.blocks (take_slot o node index fs)
  unfolding take_slot set_free_blocks_head write_superblock
  take_slot-Sized (some i) node index fs =
      then_Sized (write_block-Sized node _ fs) λ _ fs'. returns refl
  take_slot-Sized none node index fs = then_Sized (write_block-Sized 0 _ _) λ _ fs'. returns refl

  pub allocate_block-Sized : (fs : Filesystem) → Sized fs.superblock.blocks (allocate_block fs)
  unfolding allocate_block
  allocate_block-Sized fs =
      Ensures-if (fs.superblock.free_blocks_head == 0) _ _ (λ _. fails refl)
        λ _.
          then_Sized (read_block-Sized fs.superblock.free_blocks_head fs)
            λ index. take_slot-Sized (first_slot (λ i. not (word index i == 0))) _ index

  pub write_back-Sized : (fs : Filesystem) → Sized fs.superblock.blocks (write_back fs)
  unfolding write_back
  write_back-Sized fs =
      Ensures-if fs.inode_cache.dirty _ _ (λ _. write_block-Sized _ _ fs) λ _. returns refl

  pub fill_cache-Sized :
      (reset : Bool) (k : ℕ) (fs : Filesystem) → Sized fs.superblock.blocks (fill_cache reset k fs)
  unfolding fill_cache
  fill_cache-Sized reset k fs =
      Ensures-if (is_full (block_read k fs.inode_cache.contents fs.os_state).0) _ _
        (λ _. returns refl) λ _. fails refl

  pub write_inode-Sized :
      (inode : Inode) (fs : Filesystem)
      → 0 < inode.inumber
      → Sized fs.superblock.blocks (write_inode inode fs)
  unfolding write_inode switch_cache cache_inode
  write_inode-Sized inode fs h = rw (lt→ltb 0 inode.inumber h) (
      then_Sized
        (Ensures-if (uint64_of fs.inode_cache.block_number == inode_block inode.inumber) _ _
          (λ _. returns refl)
          λ _.
            then_Sized (write_back-Sized fs)
              λ _. fill_cache-Sized false (inode_block inode.inumber))
        λ _ fs'. returns refl)
