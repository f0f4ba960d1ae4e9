-- ===== src/Sfs/Transfer/Overwrite.antt =====
-- src/sfs.c: a file of which a block is overwritten in place.
use filesys.Prelude.{ℕ, ◌^◌, ◌<◌, ◌≤◌, ◌≡◌, ◌≢◌, sym, ap, subst, ◌∙◌, arith}
use filesys.Bytes.{Buffer, clip}
use filesys.Os.{Os, IsPosix}
use filesys.Block.{block_at}
use filesys.Fs.Layout.{Inode, Superblock, load_inode}
use filesys.Fs.State.{Filesystem, InodeCache}
use filesys.Fs.Inode.{inode_block, inode_position}
use filesys.Fs.Cache.{IsCoherent, IsCoherent-carries, block_view, SameMemory}
use filesys.Fs.InodeView.{inode_view}
use filesys.Fs.BlockMap.{pointer}
use filesys.Sfs.Transfer.Files.{IsFile, file_block, file_block-placed, disk_view}

module _ ⦃os : Os⦄ (px : IsPosix os) where
  -- What keeps the pointers of inode `n` and the superblock keeps the file.
  pub IsFile-carries :
      (n : ℕ) (fs fs' : Filesystem)
      → IsFile px n fs
      → IsCoherent px fs'
      → fs'.superblock ≡ fs.superblock
      → (inode_view px fs' n).block_pointers ≡ (inode_view px fs n).block_pointers
      → (inode_view px fs' n).inumber ≡ n
      → IsFile px n fs'
  IsFile-carries n fs fs' f coherent super pointers own = record {
    coherent = coherent;
    number = f.number;
    own = own;
    in_table =
        subst (λ (s : Superblock). inode_block n ≤ s.inode_table_blocks) (sym super) f.in_table;
    small = subst (λ (s : Superblock). s.blocks ≤ 2 ^ 55) (sym super) f.small;
    pointers = λ k p. rw pointers (rw super (f.pointers k p));
  }

  -- The file after block `k` of it has been overwritten.
  pub record Overwritten (n k : ℕ) (block : Buffer) (fs : Filesystem) : Type 0 where
    pub file : IsFile px n fs
    pub at : file_block px fs n k ≡ clip block

  -- A block behind the table is overwritten in a file whose inode is in the cache.
  module _ (n a : ℕ) (fs fs' : Filesystem) (f : IsFile px n fs)
      (cached : fs.inode_cache.block_number ≡ inode_block n)
      (behind : fs.superblock.inode_table_blocks < a) (memory : SameMemory px fs fs')
      (others : (j : ℕ) → a ≢ j → block_at px fs'.os_state j ≡ block_at px fs.os_state j) where
    overwritten_view : (j : ℕ) → a ≢ j → block_view px fs' j ≡ block_view px fs j
    unfolding block_view
    overwritten_view j ne = ground (arith, memory.cache, others j ne)

    overwritten_inode : inode_view px fs' n ≡ inode_view px fs n
    unfolding inode_view
    overwritten_inode =
        ap (λ b. load_inode b (inode_position n))
          (overwritten_view (inode_block n) λ e. omega (arith, e, behind, f.in_table))

    overwritten-IsFile : IsFile px n fs'
    overwritten-IsFile =
        IsFile-carries n fs fs' f
          (IsCoherent-carries px fs fs' f.coherent memory
            (others fs.inode_cache.block_number λ e. omega (arith, e, cached, behind, f.in_table)))
          memory.super (ap (λ (i : Inode). i.block_pointers) overwritten_inode)
          (ap (λ (i : Inode). i.inumber) overwritten_inode ∙ f.own)

    -- The block is what has been written.
    pub block_at-Overwritten :
        (k : ℕ) (block : Buffer)
        → pointer (inode_view px fs n) k ≡ a
        → block_at px fs'.os_state a ≡ clip block
        → Overwritten n k block fs'
    block_at-Overwritten k block there written =
        let here : pointer (inode_view px fs' n) k ≡ a =
          ap (λ i. pointer i k) overwritten_inode ∙ there in
        let number : fs'.inode_cache.block_number ≡ inode_block n =
          ap (λ (c : InodeCache). c.block_number) memory.cache ∙ cached in
        record {
          file = overwritten-IsFile;
          at =
              sym (file_block-placed px n fs' k (omega (arith, here, behind)))
              ∙ (ap (block_view px fs') here
                  ∙ (sym (disk_view px fs' a λ e. omega (arith, e, number, behind, f.in_table))
                      ∙ written));
        }
