-- ===== src/Dir/Unlinked.antt =====
-- src/dir.c: `sfs_dir_iter_unlink` of an entry whose inode keeps a link, if the transfers of the disk
-- file are never short.
use filesys.Prelude.{
  ℕ, ◌+◌, ◌-◌, ◌%◌, ◌^◌, ◌<◌, ◌≤◌, ◌≡◌, ◌≢◌, refl, sym, subst, ap, ◌∙◌, false, arith,
}
use filesys.Bytes.{Buffer}
use filesys.Outcome.{pure, Ensures, returns, Ensures-mono, Ensures-bind, ◌>>=◌, ◌>>◌}
use filesys.Os.{Os, IsPosix, IsReliable}
use filesys.Block.Laws.{block_at-time}
use filesys.Fs.Layout.{Inode, ndir_blocks}
use filesys.Fs.State.{Filesystem, time_now}
use filesys.Fs.Inode.{inode_block, write_inode}
use filesys.Fs.Stamps.{modified-IsInode}
use filesys.Fs.InodeView.{IsInumber, inode_view}
use filesys.Fs.BlockMap.{pointer, is_outside, inode_block_write}
use filesys.Dir.Entry.{entry_inumber, set_entry_inumber}
use filesys.Dir.Iterate.{less_links, DirIterator, dir_iter_unlink}
use filesys.Dir.Dropped.{drop_link-IsDropped}
use filesys.Dir.Contents.{
  IsDirectory, IsDirectory-Keeps, Keeps-time, inode_view-memory, write_inode-Keeps,
}
use filesys.Dir.Replace.{replaced, inode_block_write-IsReplaced}

module _ ⦃os : Os⦄ (px : IsPosix os) where
  module _ (size : ℕ) (reliable : IsReliable os size) (small : size ≤ 2 ^ 55) where
    -- The entry is cleared, and the directory's inode written.
    pub clear_entry-IsReplaced :
        (content : ℕ → Buffer) (directory : Inode) (i : ℕ) (block : Buffer) (fs : Filesystem)
        → fs.superblock.blocks ≤ size
        → i < ndir_blocks
        → IsDirectory px content directory fs
        → is_outside fs.superblock (pointer directory i) ≡ false
        → Ensures
            (λ _ fs'.
              IsDirectory px (replaced content i block) (inode_view px fs' directory.inumber) fs'
              × (fs'.superblock ≡ fs.superblock)
              × ((inode_view px fs' directory.inumber).size ≡ directory.size)
              × ((inode_view px fs' directory.inumber).mode ≡ directory.mode)
              × ((inode_view px fs' directory.inumber).inumber ≡ directory.inumber)
              × ((j : ℕ)
                  → 0 < j
                  → j ≢ directory.inumber
                  → inode_block j ≤ fs.superblock.inode_table_blocks
                  → inode_view px fs' j ≡ inode_view px fs j))
            (λ _. ⊥)
            ((do
              later ← time_now
              write_inode (record directory { modified_time = later })
              inode_block_write (record directory { modified_time = later }) i block
              pure tt)
              fs)
    unfolding time_now
    clear_entry-IsReplaced content directory i block fs within direct d inside =
        let now = (os.time fs.os_state).0 in
        let directory' = record directory { modified_time = now % 2 ^ 64 } in
        let directory'-ok = modified-IsInode directory now d.ok in
        let fs₁ : Filesystem = record fs { os_state = (os.time fs.os_state).1 } in
        let k₁ = Keeps-time px fs d.coherent d.cached in
        let d₁ =
          IsDirectory-Keeps px content directory directory' fs fs₁ d directory'-ok refl refl k₁ in
        Ensures-bind
          (write_inode-Keeps px size reliable small directory' fs₁ directory'-ok d₁.number
            d₁.in_table d₁.table within d₁.coherent d₁.cached)
          (λ _ fs₂ (w, k₂).
            let d₂ =
              IsDirectory-Keeps px content directory' directory' fs₁ fs₂ d₁ directory'-ok refl refl
                k₂ in
            let here : inode_view px fs₂ directory.inumber ≡ directory' =
              w.inodes directory.inumber d.number.positive ∙ ground arith in
            Ensures-bind
              (inode_block_write-IsReplaced px size content directory' i block fs₂ reliable small
                (rw k₂.super within) direct d₂ (rw k₂.super inside))
              (λ _ fs₃ (_, r).
                let view = r.inodes directory.inumber (rw k₂.super d.in_table) ∙ here in
                returns (
                  subst (λ j. IsDirectory px (replaced content i block) j fs₃) (sym view)
                      r.directory,
                  r.super ∙ k₂.super,
                  ap (λ (j : Inode). j.size) view,
                  ap (λ (j : Inode). j.mode) view,
                  ap (λ (j : Inode). j.inumber) view,
                  λ j p ne table.
                      r.inodes j (rw k₂.super table)
                      ∙ (w.inodes j p
                          ∙ (ground (arith, ne)
                              ∙ inode_view-memory px fs fs₁ j
                                  (record { cache = refl; super = refl })
                                  (block_at-time px fs.os_state (inode_block j)))),
                ))
              λ _ impossible. impossible)
          λ _ impossible. impossible

  -- The entry of block `i` is cleared, the inode that it named has a link less, and no inode has
  -- changed but that and the directory's.
  pub record IsUnlinked (content : ℕ → Buffer) (directory : Inode) (i n : ℕ) (fs fs' : Filesystem)
      : Type 0 where
    pub contents :
        IsDirectory px
          (replaced content i (set_entry_inumber (content i) 0 0))
          (inode_view px fs' directory.inumber)
          fs'
    pub super : fs'.superblock ≡ fs.superblock
    pub length : (inode_view px fs' directory.inumber).size ≡ directory.size
    pub mode : (inode_view px fs' directory.inumber).mode ≡ directory.mode
    pub own : (inode_view px fs' directory.inumber).inumber ≡ directory.inumber
    pub links : (inode_view px fs' n).links ≡ ((inode_view px fs n).links + (2 ^ 32 - 1)) % 2 ^ 32
    pub left : inode_view px fs' n ≡ record (less_links (inode_view px fs n)) {
      change_time = (inode_view px fs' n).change_time;
    }
    pub others :
        (j : ℕ)
        → 0 < j
        → j ≢ n
        → j ≢ directory.inumber
        → inode_block j ≤ fs.superblock.inode_table_blocks
        → inode_view px fs' j ≡ inode_view px fs j

  module _ (size : ℕ) (reliable : IsReliable os size) (small : size ≤ 2 ^ 55) where
    -- `sfs_dir_iter_unlink` of the entry in the iterator's block, of an inode with more links than
    -- one.
    pub dir_iter_unlink-IsUnlinked :
        (content : ℕ → Buffer) (it : DirIterator) (n : ℕ) (fs : Filesystem)
        → fs.superblock.blocks ≤ size
        → it.iblock < ndir_blocks
        → it.cached_block ≡ content it.iblock
        → entry_inumber (content it.iblock) 0 ≡ n
        → IsDirectory px content it.inode fs
        → is_outside fs.superblock (pointer it.inode it.iblock) ≡ false
        → IsInumber n
        → inode_block n ≤ fs.superblock.inode_table_blocks
        → (inode_view px fs n).inumber ≡ n
        → (inode_view px fs n).links ≢ 1
        → n ≢ it.inode.inumber
        → Ensures
            (λ _ fs'. IsUnlinked content it.inode it.iblock n fs fs')
            (λ _. ⊥)
            (dir_iter_unlink it 0 fs)
    unfolding dir_iter_unlink
    dir_iter_unlink-IsUnlinked content it n fs within direct loaded entry d inside h in_table own
          linked ne =
        rw loaded (
          rw entry (
            drop_link-IsDropped px size reliable small content it.inode n fs _ within d h in_table
              own linked
              λ fs₁ drop.
                let k = drop.keeps in
                let d₁ = IsDirectory-Keeps px content it.inode it.inode fs fs₁ d d.ok refl refl k in
                Ensures-mono
                  (clear_entry-IsReplaced size reliable small content it.inode it.iblock
                    (set_entry_inumber (content it.iblock) 0 0) fs₁ (rw k.super within) direct d₁
                    (rw k.super inside))
                  (λ _ fs₂ (contents, super, length, mode, same, kept). record {
                    contents = contents;
                    super = super ∙ k.super;
                    length = length;
                    mode = mode;
                    own = same;
                    links =
                        ap (λ (j : Inode). j.links) (kept n h.positive ne (rw k.super in_table))
                        ∙ drop.links;
                    left =
                        subst
                          (λ (j : Inode). j ≡ record (less_links (inode_view px fs n)) {
                            change_time = j.change_time;
                          })
                          (sym (kept n h.positive ne (rw k.super in_table))) drop.left;
                    others = λ j p q r table. kept j p r (rw k.super table) ∙ drop.others j p q;
                  })
                  λ _ impossible. impossible))
