-- ===== src/Dir/Linked.antt =====
-- src/dir.c: what `sfs_dir_link` does to a directory and the inode, once it has found a free slot, if
-- the transfers of the disk file are never short.
use filesys.Prelude.{
  ℕ, ◌+◌, ◌%◌, ◌^◌, ◌<◌, ◌≤◌, ◌≡◌, refl, sym, subst, ap, ◌∙◌, false, List, ◌==◌, arith,
  if◌then◌else◌,
}
use filesys.Bytes.{Buffer}
use filesys.Outcome.{Ensures, returns, Ensures-mono, Ensures-bind, pure, ◌>>◌}
use filesys.Os.{Os, IsPosix, IsReliable}
use filesys.Block.Laws.{block_at-time}
use filesys.Fs.Layout.{Inode, IsInode, ndir_blocks}
use filesys.Fs.State.{Filesystem, time_now}
use filesys.Fs.Inode.{inode_block, write_inode}
use filesys.Fs.Stamps.{modified-IsInode, links-IsInode}
use filesys.Fs.InodeView.{IsInumber, inode_view}
use filesys.Fs.BlockMap.{pointer, is_outside}
use filesys.Dir.Entry.{set_entry}
use filesys.Dir.Iterate.{more_links}
use filesys.Dir.Link.{link_slot}
use filesys.Dir.Contents.{
  IsDirectory, IsDirectory-Keeps, Keeps-time, inode_view-memory, write_inode-Keeps,
}
use filesys.Dir.Replace.{replaced, inode_block_write-IsReplaced}

module _ ⦃os : Os⦄ (px : IsPosix os) (inode : Inode) where
  -- The inode to be linked lies in the inode table.
  pub record IsTarget (fs : Filesystem) : Type 0 where
    pub ok : IsInode inode
    pub number : IsInumber inode.inumber
    pub in_table : inode_block inode.inumber ≤ fs.superblock.inode_table_blocks

  -- The directory has these contents, the inode one link more, and both are in the table, in which no
  -- other inode has changed.
  pub record IsLinked (after : ℕ → Buffer) (directory : Inode) (fs : Filesystem)
      (result : Inode × Inode) (fs' : Filesystem) : Type 0 where
    pub contents : IsDirectory px after result.0 fs'
    pub super : fs'.superblock ≡ fs.superblock
    pub own : result.0.inumber ≡ directory.inumber
    pub length : result.0.size ≡ directory.size
    pub mode : result.0.mode ≡ directory.mode
    pub number : result.1.inumber ≡ inode.inumber
    pub links : result.1.links ≡ (inode.links + 1) % 2 ^ 32
    pub changed : result.1 ≡ record (more_links inode) { change_time = result.1.change_time }
    pub inodes :
        (n : ℕ)
        → 0 < n
        → inode_block n ≤ fs.superblock.inode_table_blocks
        → inode_view px fs' n ≡ (
            if n == inode.inumber
            then result.1
            else (if n == directory.inumber then result.0 else inode_view px fs n))

  -- What is done first may not be seen in the table.
  pub IsLinked-from :
      (after : ℕ → Buffer) (directory : Inode) (fs mid : Filesystem) (result : Inode × Inode)
      (fs' : Filesystem)
      → mid.superblock ≡ fs.superblock
      → ((n : ℕ)
          → inode_block n ≤ fs.superblock.inode_table_blocks
          → inode_view px mid n ≡ inode_view px fs n)
      → IsLinked after directory mid result fs'
      → IsLinked after directory fs result fs'
  IsLinked-from after directory fs mid result fs' super same l = record {
    contents = l.contents;
    super = l.super ∙ super;
    own = l.own;
    length = l.length;
    mode = l.mode;
    number = l.number;
    links = l.links;
    changed = l.changed;
    inodes = λ n p h. ground (arith, l.inodes n p (rw super h), same n h);
  }

  pub IsTarget-super :
      (fs fs' : Filesystem) → fs'.superblock ≡ fs.superblock → IsTarget fs → IsTarget fs'
  IsTarget-super fs fs' super t = record {
    ok = t.ok;
    number = t.number;
    in_table = rw super t.in_table;
  }

  module _ (size : ℕ) (reliable : IsReliable os size) (small : size ≤ 2 ^ 55) where
    -- The two inodes are written one after the other.
    write_both-IsLinked :
        (content : ℕ → Buffer) (directory : Inode) (t : ℕ) (fs : Filesystem)
        → fs.superblock.blocks ≤ size
        → IsDirectory px content directory fs
        → IsTarget fs
        → Ensures
            (IsLinked content directory fs)
            (λ _. ⊥)
            ((do
              write_inode (record directory { modified_time = t % 2 ^ 64 })
              write_inode (record (more_links inode) { change_time = t % 2 ^ 64 })
              pure (
                record directory { modified_time = t % 2 ^ 64 },
                record (more_links inode) { change_time = t % 2 ^ 64 },
              ))
              fs)
    write_both-IsLinked content directory t fs within d target =
        let directory' = record directory { modified_time = t % 2 ^ 64 } in
        let inode' = record (more_links inode) { change_time = t % 2 ^ 64 } in
        let directory'-ok = modified-IsInode directory t d.ok in
        Ensures-bind
          (write_inode-Keeps px size reliable small directory' fs directory'-ok d.number d.in_table
            d.table within d.coherent d.cached)
          (λ _ fs₁ (w₁, k₁).
            let d₁ =
              IsDirectory-Keeps px content directory directory' fs fs₁ d directory'-ok refl refl
                k₁ in
            let t₁ = IsTarget-super fs fs₁ k₁.super target in
            Ensures-bind
              (write_inode-Keeps px size reliable small inode' fs₁
                (links-IsInode inode (inode.links + 1) t target.ok) target.number t₁.in_table
                d₁.table (rw k₁.super within) d₁.coherent d₁.cached)
              (λ _ fs₂ (w₂, k₂). returns (record {
                contents =
                    IsDirectory-Keeps px content directory' directory' fs₁ fs₂ d₁ directory'-ok refl
                      refl k₂;
                super = k₂.super ∙ k₁.super;
                own = refl;
                length = refl;
                mode = refl;
                number = refl;
                links = refl;
                changed = refl;
                inodes = λ n p _.
                    w₂.inodes n p
                    ∙ ap (λ (j : Inode). if n == inode.inumber then inode' else j) (w₁.inodes n p);
              }))
              λ _ impossible. impossible)
          λ _ impossible. impossible

    -- The entry is put into its block first.
    pub link_slot-IsLinked :
        (content : ℕ → Buffer) (directory : Inode) (name : List ℕ) (i : ℕ) (b : Buffer)
        (fs : Filesystem)
        → fs.superblock.blocks ≤ size
        → i < ndir_blocks
        → b ≡ content i
        → IsDirectory px content directory fs
        → IsTarget fs
        → is_outside fs.superblock (pointer directory i) ≡ false
        → Ensures
            (IsLinked
              (replaced content i (set_entry (content i) 0 inode.inumber name))
              directory
              fs)
            (λ _. ⊥)
            (link_slot directory name inode i 0 b fs)
    unfolding link_slot time_now
    link_slot-IsLinked content directory name i b fs within direct loaded d target inside =
        let after = replaced content i (set_entry (content i) 0 inode.inumber name) in
        let linked = IsLinked after directory fs in
        subst (λ (x : Buffer). Ensures linked (λ _. ⊥) (link_slot directory name inode i 0 x fs))
          (sym loaded)
          (Ensures-bind
            (inode_block_write-IsReplaced px size content directory i
              (set_entry (content i) 0 inode.inumber name) fs reliable small within direct d inside)
            (λ kept fs₁ (e, r).
              let now = (os.time fs₁.os_state).0 in
              let timed = Keeps-time px fs₁ r.directory.coherent r.directory.cached in
              let fs₂ : Filesystem = record fs₁ { os_state = (os.time fs₁.os_state).1 } in
              let same : (n : ℕ)
                  → inode_block n ≤ fs.superblock.inode_table_blocks
                  → inode_view px fs₂ n ≡ inode_view px fs n =
                λ n h.
                  inode_view-memory px fs₁ fs₂ n (record { cache = refl; super = refl })
                    (block_at-time px fs₁.os_state (inode_block n))
                  ∙ r.inodes n h in
              let d₂ =
                IsDirectory-Keeps px after directory directory fs₁ fs₂ r.directory r.directory.ok
                  refl refl timed in
              let run = λ (j : Inode).
                Ensures linked (λ _. ⊥)
                  ((do
                    write_inode (record j { modified_time = now % 2 ^ 64 })
                    write_inode (record (more_links inode) { change_time = now % 2 ^ 64 })
                    pure (
                      record j { modified_time = now % 2 ^ 64 },
                      record (more_links inode) { change_time = now % 2 ^ 64 },
                    ))
                    fs₂) in
              subst run (sym e) (
                Ensures-mono
                  (write_both-IsLinked after directory now fs₂ (rw r.super within) d₂
                    (IsTarget-super fs fs₂ r.super target))
                  (λ result fs' l. IsLinked-from after directory fs fs₂ result fs' r.super same l)
                  λ _ impossible. impossible))
            λ _ impossible. impossible)
