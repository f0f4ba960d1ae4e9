-- ===== src/Dir/LastLink.antt =====
-- src/dir.c and src/fs.c: `sfs_dir_iter_unlink` of the last link of an inode without direct blocks, if
-- the transfers of the disk file are never short.
use filesys.Prelude.{
  ℕ, ◌+◌, ◌-◌, ◌%◌, ◌^◌, ◌<◌, ◌≤◌, ◌≡◌, ◌≢◌, refl, sym, subst, ap, ◌∙◌, true, false, ◌==◌, arith,
  take,
}
use filesys.Bytes.{Buffer}
use filesys.Outcome.{
  Run, Ensures, returns, Ensures-mono, Ensures-bind, Ensures-Succeeds, ◌>>=◌, ◌>>◌,
}
use filesys.Os.{Os, IsPosix, IsReliable}
use filesys.Block.Laws.{block_at-time}
use filesys.Fs.Layout.{Inode, IsInode, ndir_blocks, Superblock}
use filesys.Fs.State.{Filesystem, time_now, write_superblock}
use filesys.Fs.Inode.{inode_block, read_inode}
use filesys.Fs.Cache.{write_block_lem}
use filesys.Fs.Reliable.{write_block-Succeeds}
use filesys.Fs.InodeView.{IsInumber, inode_view, inode_view-IsInode}
use filesys.Dir.Iterate.{less_links, drop_link, DirIterator, dir_iter_unlink}
use filesys.Dir.Contents.{
  IsDirectory, IsDirectory-Keeps, Keeps-time, inode_view-memory, write_inode-Keeps,
}
use filesys.Fs.BlockMap.{pointer, is_outside}
use filesys.Dir.Entry.{entry_inumber, set_entry_inumber}
use filesys.Dir.Dropped.{read_inode-Keeps, Keeps-trans}
use filesys.Dir.Replace.{replaced}
use filesys.Fs.InodeAlloc.{inode_deallocate, set_free_inode_head}
use filesys.Fs.FreeInodes.Deallocate.{Holes, free_pointers-Holes}
use filesys.Dir.Taken.{head-IsTaken}
use filesys.Dir.Unlinked.{clear_entry-IsReplaced}

-- The last link is taken.
no_links : (i : Inode) → i.links ≡ 1 → ((i.links + (2 ^ 32 - 1)) % 2 ^ 32 == 0) ≡ true
no_links i one = rw one refl

freed-IsInode :
    (i : Inode) (t head : ℕ)
    → head < 2 ^ 64
    → IsInode i
    → IsInode (record (less_links i) { change_time = t % 2 ^ 64; size = head })
freed-IsInode i t head h (a, (b, (c, (d, (e, (f, (g, (_, (_, rest))))))))) =
    (a, (b, (c, (d, (omega arith, (f, (g, (omega arith, (h, rest)))))))))

module _ ⦃os : Os⦄ (px : IsPosix os) where
  is_outside-super :
      (fs fs' : Filesystem) (n : ℕ)
      → fs'.superblock.inode_table_blocks ≡ fs.superblock.inode_table_blocks
      → fs'.superblock.blocks ≡ fs.superblock.blocks
      → is_outside fs.superblock n ≡ false
      → is_outside fs'.superblock n ≡ false
  unfolding is_outside
  is_outside-super fs fs' n table blocks inside = rw table (rw blocks inside)

  -- Inode `n` is the first free one, and no other inode has changed.
  pub record IsDeallocated (content : ℕ → Buffer) (directory : Inode) (n : ℕ) (fs fs' : Filesystem)
      : Type 0 where
    pub contents : IsDirectory px content directory fs'
    pub table : fs'.superblock.inode_table_blocks ≡ fs.superblock.inode_table_blocks
    pub blocks : fs'.superblock.blocks ≡ fs.superblock.blocks
    pub head : fs'.superblock.free_inode_head ≡ n
    pub others : (j : ℕ) → 0 < j → j ≢ n → inode_view px fs' j ≡ inode_view px fs j

  module _ (size : ℕ) (reliable : IsReliable os size) (small : size ≤ 2 ^ 55) where
    inode_deallocate-IsDeallocated :
        (content : ℕ → Buffer) (directory i : Inode) (fs : Filesystem)
        → fs.superblock.blocks ≤ size
        → IsDirectory px content directory fs
        → IsInode (record i { size = fs.superblock.free_inode_head })
        → IsInumber i.inumber
        → inode_block i.inumber ≤ fs.superblock.inode_table_blocks
        → Holes (take ndir_blocks i.block_pointers)
        → Ensures
            (λ _ fs'. IsDeallocated content directory i.inumber fs fs')
            (λ _. ⊥)
            (inode_deallocate i fs)
    unfolding inode_deallocate set_free_inode_head write_superblock
    inode_deallocate-IsDeallocated content directory i fs within d ok number in_table holes =
        Ensures-bind
          (write_inode-Keeps px size reliable small
            (record i { size = fs.superblock.free_inode_head }) fs ok number in_table d.table within
            d.coherent d.cached)
          (λ _ mid (w, k).
            let d₁ = IsDirectory-Keeps px content directory directory fs mid d d.ok refl refl k in
            let sb = record mid.superblock { free_inode_head = i.inumber } in
            let mid' : Filesystem = record mid { superblock = sb } in
            Ensures-bind
              (Ensures-Succeeds (write_block_lem px 0 _ mid' (omega arith)) (
                write_block-Succeeds size reliable small 0 _ mid' (omega (arith, d.table, within))))
              (λ _ fs' (_, memory, others).
                let t = head-IsTaken px content directory i.inumber mid fs' d₁ memory others in
                rw (free_pointers-Holes (take ndir_blocks i.block_pointers) fs' holes) (
                  returns (record {
                    contents = t.contents;
                    table = t.table ∙ ap (λ (s : Superblock). s.inode_table_blocks) k.super;
                    blocks = t.blocks ∙ ap (λ (s : Superblock). s.blocks) k.super;
                    head = ap (λ (s : Superblock). s.free_inode_head) memory.super;
                    others = λ j p ne. t.views j p ∙ (w.inodes j p ∙ ground (arith, ne));
                  })))
              λ _ impossible. impossible)
          λ _ impossible. impossible

  -- The entry of block `i` is cleared, and no inode has changed but the one that it named and the
  -- directory's.
  pub record IsUnlinkedLast (content : ℕ → Buffer) (directory : Inode) (i n : ℕ)
      (fs fs' : Filesystem) : Type 0 where
    pub contents :
        IsDirectory px
          (replaced content i (set_entry_inumber (content i) 0 0))
          (inode_view px fs' directory.inumber)
          fs'
    pub table : fs'.superblock.inode_table_blocks ≡ fs.superblock.inode_table_blocks
    pub blocks : fs'.superblock.blocks ≡ fs.superblock.blocks
    pub head : fs'.superblock.free_inode_head ≡ n
    pub length : (inode_view px fs' directory.inumber).size ≡ directory.size
    pub mode : (inode_view px fs' directory.inumber).mode ≡ directory.mode
    pub own : (inode_view px fs' directory.inumber).inumber ≡ directory.inumber
    pub others :
        (j : ℕ)
        → 0 < j
        → j ≢ n
        → j ≢ directory.inumber
        → inode_block j ≤ fs.superblock.inode_table_blocks
        → inode_view px fs' j ≡ inode_view px fs j

  -- The inode `n` can be deallocated.
  pub record IsLastLink (n : ℕ) (fs : Filesystem) : Type 0 where
    pub number : IsInumber n
    pub in_table : inode_block n ≤ fs.superblock.inode_table_blocks
    pub own : (inode_view px fs n).inumber ≡ n
    pub links : (inode_view px fs n).links ≡ 1
    pub holes : Holes (take ndir_blocks (inode_view px fs n).block_pointers)
    pub head : fs.superblock.free_inode_head < 2 ^ 64

  module _ (size : ℕ) (reliable : IsReliable os size) (small : size ≤ 2 ^ 55) where
    -- The inode loses its last link.
    drop_link-IsDeallocated :
        {P : Unit {0} → Filesystem → Type 0} (content : ℕ → Buffer) (directory : Inode) (n : ℕ)
        (fs : Filesystem) (next : Run Filesystem (Unit {0}))
        → fs.superblock.blocks ≤ size
        → IsDirectory px content directory fs
        → IsLastLink n fs
        → ((fs' : Filesystem)
            → IsDeallocated content directory n fs fs'
            → Ensures P (λ _. ⊥) (next fs'))
        → Ensures P
            (λ _. ⊥)
            ((do
              inode ← read_inode n
              now ← time_now
              drop_link (record (less_links inode) { change_time = now })
              next)
              fs)
    unfolding drop_link time_now
    drop_link-IsDeallocated {P} content directory n fs next within d last go =
        Ensures-bind
          (read_inode-Keeps px size reliable small content directory n fs within d last.number
            last.in_table)
          (λ i fs₁ (e, k₁, same).
            let v = inode_view px fs n in
            let now = (os.time fs₁.os_state).0 in
            let fs₂ : Filesystem = record fs₁ { os_state = (os.time fs₁.os_state).1 } in
            let k₂ =
              Keeps-trans px fs fs₁ fs₂ k₁
                (Keeps-time px fs₁ k₁.coherent (rw k₁.super k₁.cached)) in
            let d₂ = IsDirectory-Keeps px content directory directory fs fs₂ d d.ok refl refl k₂ in
            let target = record (less_links v) { change_time = now % 2 ^ 64 } in
            let seen : (j : ℕ) → inode_view px fs₂ j ≡ inode_view px fs j = λ j.
              inode_view-memory px fs₁ fs₂ j (record { cache = refl; super = refl })
                (block_at-time px fs₁.os_state (inode_block j))
              ∙ same j in
            let run = λ (j : Inode).
              Ensures P (λ _. ⊥)
                ((do drop_link (record (less_links j) { change_time = now % 2 ^ 64 }); next) fs₂) in
            subst run (sym e) (
              rw (no_links v last.links) (
                Ensures-bind
                  (inode_deallocate-IsDeallocated size reliable small content directory target fs₂
                    (rw k₁.super within) d₂
                    (freed-IsInode v now fs₂.superblock.free_inode_head (rw k₁.super last.head)
                      (inode_view-IsInode px fs n))
                    (subst IsInumber (sym last.own) last.number)
                    (rw last.own (rw k₁.super last.in_table)) last.holes)
                  (λ _ fs₃ x. go fs₃ (record {
                    contents = x.contents;
                    table = x.table ∙ ap (λ (s : Superblock). s.inode_table_blocks) k₁.super;
                    blocks = x.blocks ∙ ap (λ (s : Superblock). s.blocks) k₁.super;
                    head = x.head ∙ last.own;
                    others = λ j p ne. x.others j p (λ h. ne (h ∙ last.own)) ∙ seen j;
                  }))
                  λ _ impossible. impossible)))
          λ _ impossible. impossible

    -- `sfs_dir_iter_unlink` of the entry in the iterator's block, of an inode with one link.
    pub dir_iter_unlink-IsUnlinkedLast :
        (content : ℕ → Buffer) (it : DirIterator) (n : ℕ) (fs : Filesystem)
        → fs.superblock.blocks ≤ size
        → it.iblock < ndir_blocks
        → it.cached_block ≡ content it.iblock
        → entry_inumber (content it.iblock) 0 ≡ n
        → IsDirectory px content it.inode fs
        → is_outside fs.superblock (pointer it.inode it.iblock) ≡ false
        → IsLastLink n fs
        → n ≢ it.inode.inumber
        → Ensures
            (λ _ fs'. IsUnlinkedLast content it.inode it.iblock n fs fs')
            (λ _. ⊥)
            (dir_iter_unlink it 0 fs)
    unfolding dir_iter_unlink
    dir_iter_unlink-IsUnlinkedLast content it n fs within direct loaded entry d inside last ne =
        rw loaded (
          rw entry (
            drop_link-IsDeallocated content it.inode n fs _ within d last λ fs₁ x.
              Ensures-mono
                (clear_entry-IsReplaced px size reliable small content it.inode it.iblock
                  (set_entry_inumber (content it.iblock) 0 0) fs₁ (rw x.blocks within) direct
                  x.contents
                  (is_outside-super fs fs₁ (pointer it.inode it.iblock) x.table x.blocks inside))
                (λ _ fs₂ (contents, super, length, mode, same, kept). record {
                  contents = contents;
                  table = ap (λ (s : Superblock). s.inode_table_blocks) super ∙ x.table;
                  blocks = ap (λ (s : Superblock). s.blocks) super ∙ x.blocks;
                  head = ap (λ (s : Superblock). s.free_inode_head) super ∙ x.head;
                  length = length;
                  mode = mode;
                  own = same;
                  others = λ j p q r table. kept j p r (rw x.table table) ∙ x.others j p q;
                })
                λ _ impossible. impossible))
