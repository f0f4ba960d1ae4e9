-- ===== src/Dir/Replace.antt =====
-- src/dir.c: a directory of which one block is written in place.
use filesys.Prelude.{
  ℕ, ◌^◌, ◌<◌, ◌≤◌, ◌≡◌, ◌≢◌, ◌⊎◌, inl, inr, sym, ap, ◌∙◌, false, ◌==◌, arith, if◌then◌else◌,
}
use filesys.Bytes.{Buffer, clip}
use filesys.Outcome.{Ensures, Ensures-mono}
use filesys.Os.{Os, IsPosix, IsReliable}
use filesys.Block.{block_at}
use filesys.Fs.Layout.{Inode, ndir_blocks}
use filesys.Fs.State.{Filesystem}
use filesys.Fs.Inode.{inode_block}
use filesys.Fs.Cache.{IsCoherent-carries, SameMemory}
use filesys.Fs.InodeView.{inode_view}
use filesys.Fs.BlockMap.{pointer, is_outside, inode_block_write}
use filesys.Fs.BlockMap.Contents.{table_below, Place, inode_block_write-in_place}
use filesys.Dir.Contents.{IsDirectory, inode_view-memory}

-- The contents with another block at `i`.
unfoldable pub replaced : (content : ℕ → Buffer) → ℕ → Buffer → ℕ → Buffer
replaced content i block k = if k == i then clip block else content k

-- No other block of the file is at the place of block `i`.
abbrev IsOwn : Inode → ℕ → Type 0
IsOwn inode i = (k : ℕ) → k < ndir_blocks → k ≢ i → pointer inode i ≢ pointer inode k

module _ ⦃os : Os⦄ (px : IsPosix os) where
  -- The directory with block `i` replaced, and every inode of the table as it was.
  pub record IsReplaced (content : ℕ → Buffer) (inode : Inode) (i : ℕ) (block : Buffer)
      (fs fs' : Filesystem) : Type 0 where
    pub directory : IsDirectory px (replaced content i block) inode fs'
    pub super : fs'.superblock ≡ fs.superblock
    pub inodes :
        (n : ℕ)
        → inode_block n ≤ fs.superblock.inode_table_blocks
        → inode_view px fs' n ≡ inode_view px fs n

  replaced-Place :
      (content : ℕ → Buffer) (inode : Inode) (i : ℕ) (block : Buffer) (fs fs' : Filesystem)
      → is_outside fs.superblock (pointer inode i) ≡ false
      → IsOwn inode i
      → block_at px fs'.os_state (pointer inode i) ≡ clip block
      → SameMemory px fs fs'
      → ((j : ℕ) → pointer inode i ≢ j → block_at px fs'.os_state j ≡ block_at px fs.os_state j)
      → (k : ℕ) → k < ndir_blocks
      → (k ≡ i) ⊎ (k ≢ i)
      → Place px content inode fs k
      → Place px (replaced content i block) inode fs' k
  unfolding replaced
  replaced-Place content inode i block fs fs' inside own written memory others k p (inl e) h = inr (
    rw memory.super (rw e inside),
    ap (λ j. block_at px fs'.os_state (pointer inode j)) e ∙ (written ∙ ground (arith, e)),
  )
  replaced-Place content inode i block fs fs' inside own written memory others k p (inr ne) h =
      let same : (if k == i then clip block else content k) ≡ content k = ground (arith, ne) in
      elim h [
        | inl (hole, empty) ↦ inl (hole, same ∙ empty)
        | inr (placed, at) ↦
            inr (rw memory.super placed, others (pointer inode k) (own k p ne) ∙ (at ∙ sym same))
      ]

  replaced_lem :
      (content : ℕ → Buffer) (inode : Inode) (i : ℕ) (block : Buffer) (fs fs' : Filesystem)
      → IsDirectory px content inode fs
      → i < ndir_blocks
      → is_outside fs.superblock (pointer inode i) ≡ false
      → block_at px fs'.os_state (pointer inode i) ≡ clip block
      → SameMemory px fs fs'
      → ((j : ℕ) → pointer inode i ≢ j → block_at px fs'.os_state j ≡ block_at px fs.os_state j)
      → IsReplaced content inode i block fs fs'
  replaced_lem content inode i block fs fs' d direct inside written memory others =
      let behind = table_below fs.superblock (pointer inode i) inside in
      let own : IsOwn inode i =
        λ k p ne. d.apart i k direct p (λ e. ne (sym e)) (omega (arith, behind)) in
      record {
        directory = record {
          ok = d.ok;
          number = d.number;
          in_table = rw memory.super d.in_table;
          table = rw memory.super d.table;
          coherent =
              IsCoherent-carries px fs fs' d.coherent memory
                (others fs.inode_cache.block_number λ e. omega (arith, e, behind, d.cached));
          cached = rw memory.super (rw memory.cache d.cached);
          apart = d.apart;
          holds = record {
            places = λ k p.
                replaced-Place content inode i block fs fs' inside own written memory others k p
                  (omega arith) (d.holds.places k p);
            small = rw memory.super d.holds.small;
          };
        };
        super = memory.super;
        inodes = λ n h.
            inode_view-memory px fs fs' n memory
              (others (inode_block n) λ e. omega (arith, e, behind, h));
      }

  -- `sfs_fs_inode_block_write` of a block that the directory has.
  pub inode_block_write-IsReplaced :
      (size : ℕ) (content : ℕ → Buffer) (inode : Inode) (i : ℕ) (block : Buffer) (fs : Filesystem)
      → IsReliable os size
      → size ≤ 2 ^ 55
      → fs.superblock.blocks ≤ size
      → i < ndir_blocks
      → IsDirectory px content inode fs
      → is_outside fs.superblock (pointer inode i) ≡ false
      → Ensures
          (λ j fs'. (j ≡ inode) × IsReplaced content inode i block fs fs')
          (λ _. ⊥)
          (inode_block_write inode i block fs)
  inode_block_write-IsReplaced size content inode i block fs reliable small within direct d inside =
      Ensures-mono
        (inode_block_write-in_place px size inode fs i block reliable small within direct inside)
        (λ j fs' (e, written, memory, others).
          (e, replaced_lem content inode i block fs fs' d direct inside written memory others))
        λ _ impossible. impossible
