-- ===== src/Dir/Dropped.antt =====
-- src/dir.c: the link that `sfs_dir_iter_unlink` takes from an inode which has more than one, if the
-- transfers of the disk file are never short.
use filesys.Prelude.{
  ℕ, ◌+◌, ◌-◌, ◌%◌, ◌^◌, ◌<◌, ◌≤◌, ◌≡◌, ◌≢◌, refl, sym, subst, ap, ◌∙◌, true, false, ◌==◌, arith,
  lt→ltb,
}
use filesys.Bytes.{Buffer}
use filesys.Outcome.{
  Run, Ensures, returns, Ensures-mono, Ensures-bind, Ensures-and, Ensures-Succeeds, ◌>>=◌, ◌>>◌,
}
use filesys.Os.{Os, IsPosix, IsReliable}
use filesys.Block.Laws.{block_at-time}
use filesys.Fs.Layout.{Inode, IsInode}
use filesys.Fs.State.{Filesystem, time_now}
use filesys.Fs.Inode.{inode_block, read_inode, cached_inode}
use filesys.Fs.Cache.{IsCoherent, block_view, switch_cache-view, uint64_of_lem}
use filesys.Fs.Stamps.{links-IsInode}
use filesys.Fs.Reliable.{read_inode-Succeeds}
use filesys.Fs.InodeView.{
  IsInumber, inode_block-pos, inode_view, inode_view-IsInode, inode_view-SameView, SameView,
  read_inode-view,
}
use filesys.Dir.Iterate.{less_links, drop_link}
use filesys.Dir.Contents.{
  IsDirectory, IsDirectory-Keeps, Keeps, Keeps-time, inode_view-memory, write_inode-Keeps,
}

more_than_one :
    (i : Inode) → IsInode i → i.links ≢ 1 → ((i.links + (2 ^ 32 - 1)) % 2 ^ 32 == 0) ≡ false
more_than_one i (a, (b, (c, (d, (e, rest))))) ne = ground (arith, e)

module _ ⦃os : Os⦄ (px : IsPosix os) where
  pub Keeps-trans : (fs fs₁ fs₂ : Filesystem) → Keeps px fs fs₁ → Keeps px fs₁ fs₂ → Keeps px fs fs₂
  Keeps-trans fs fs₁ fs₂ k l = record {
    coherent = l.coherent;
    cached = rw (← k.super) l.cached;
    super = l.super ∙ k.super;
    blocks = λ j h. l.blocks j (rw k.super h) ∙ k.blocks j h;
  }

  -- A read of an inode takes its block of the table into the cache.
  read_inode-number :
      (fs : Filesystem) (n : ℕ)
      → IsCoherent px fs
      → IsInumber n
      → Ensures
          (λ _ fs'. fs'.inode_cache.block_number ≡ inode_block n)
          (λ _. Unit {0})
          (read_inode n fs)
  unfolding read_inode cached_inode
  read_inode-number fs n c h = rw (lt→ltb 0 n h.positive) (
      Ensures-bind (switch_cache-view px true (inode_block n) fs c (inode_block-pos n) h.small)
        (λ _ fs' s. returns s.number) λ _ _. tt)

  SameView-Keeps :
      (n : ℕ) (fs fs' : Filesystem)
      → fs.inode_cache.block_number ≤ fs.superblock.inode_table_blocks
      → inode_block n ≤ fs.superblock.inode_table_blocks
      → fs'.inode_cache.block_number ≡ inode_block n
      → SameView px fs fs'
      → Keeps px fs fs'
  unfolding block_view
  SameView-Keeps n fs fs' cached in_table number v = record {
    coherent = v.coherent;
    cached = rw number in_table;
    super = v.super;
    blocks = λ j behind.
        ground (arith, v.views j (omega (arith, behind)), behind, cached, number, in_table);
  }

  -- Inode `n` has a link less, and no other has changed.
  pub record IsDropped (n : ℕ) (fs fs' : Filesystem) : Type 0 where
    pub keeps : Keeps px fs fs'
    pub links : (inode_view px fs' n).links ≡ ((inode_view px fs n).links + (2 ^ 32 - 1)) % 2 ^ 32
    pub left : inode_view px fs' n ≡ record (less_links (inode_view px fs n)) {
      change_time = (inode_view px fs' n).change_time;
    }
    pub others : (j : ℕ) → 0 < j → j ≢ n → inode_view px fs' j ≡ inode_view px fs j

  module _ (size : ℕ) (reliable : IsReliable os size) (small : size ≤ 2 ^ 55) where
    pub read_inode-Keeps :
        (content : ℕ → Buffer) (directory : Inode) (n : ℕ) (fs : Filesystem)
        → fs.superblock.blocks ≤ size
        → IsDirectory px content directory fs
        → IsInumber n
        → inode_block n ≤ fs.superblock.inode_table_blocks
        → Ensures
            (λ i fs'.
              (i ≡ inode_view px fs n)
              × Keeps px fs fs'
              × ((j : ℕ) → inode_view px fs' j ≡ inode_view px fs j))
            (λ _. ⊥)
            (read_inode n fs)
    read_inode-Keeps content directory n fs within d h in_table =
        Ensures-mono
          (Ensures-Succeeds
            (Ensures-and (read_inode-view px fs n d.coherent h)
              (read_inode-number fs n d.coherent h))
            (read_inode-Succeeds size reliable small n fs h.positive
              (rw (uint64_of_lem px fs.inode_cache.block_number d.coherent.number)
                (omega (arith, d.cached, d.table, within)))
              (omega (arith, in_table, d.table, within))))
          (λ i fs' ((e, v), number).
            (e, SameView-Keeps n fs fs' d.cached in_table number v, inode_view-SameView px v))
          λ _ impossible. impossible

    -- The inode loses a link that is not its last.
    pub drop_link-IsDropped :
        {P : Unit {0} → Filesystem → Type 0} (content : ℕ → Buffer) (directory : Inode) (n : ℕ)
        (fs : Filesystem) (next : Run Filesystem (Unit {0}))
        → fs.superblock.blocks ≤ size
        → IsDirectory px content directory fs
        → IsInumber n
        → inode_block n ≤ fs.superblock.inode_table_blocks
        → (inode_view px fs n).inumber ≡ n
        → (inode_view px fs n).links ≢ 1
        → ((fs' : Filesystem) → IsDropped n fs fs' → Ensures P (λ _. ⊥) (next fs'))
        → Ensures P
            (λ _. ⊥)
            ((do
              inode ← read_inode n
              now ← time_now
              drop_link (record (less_links inode) { change_time = now })
              next)
              fs)
    unfolding drop_link time_now
    drop_link-IsDropped {P} content directory n fs next within d h in_table own linked go =
        Ensures-bind (read_inode-Keeps content directory n fs within d h in_table)
          (λ i fs₁ (e, k₁, same).
            let v = inode_view px fs n in
            let now = (os.time fs₁.os_state).0 in
            let fs₂ : Filesystem = record fs₁ { os_state = (os.time fs₁.os_state).1 } in
            let k₂ =
              Keeps-trans fs fs₁ fs₂ k₁ (Keeps-time px fs₁ k₁.coherent (rw k₁.super k₁.cached)) in
            let d₂ = IsDirectory-Keeps px content directory directory fs fs₂ d d.ok refl refl k₂ in
            let target = record (less_links v) { change_time = now % 2 ^ 64 } in
            let kept : (target.links == 0) ≡ false =
              more_than_one v (inode_view-IsInode px fs n) linked in
            let seen : (j : ℕ) → inode_view px fs₂ j ≡ inode_view px fs j = λ j.
              inode_view-memory px fs₁ fs₂ j (record { cache = refl; super = refl })
                (block_at-time px fs₁.os_state (inode_block j))
              ∙ same j in
            let run = λ (j : Inode).
              Ensures P (λ _. ⊥)
                ((do drop_link (record (less_links j) { change_time = now % 2 ^ 64 }); next) fs₂) in
            subst run (sym e) (
              rw kept (
                Ensures-bind
                  (write_inode-Keeps px size reliable small target fs₂
                    (links-IsInode v (v.links + (2 ^ 32 - 1)) now (inode_view-IsInode px fs n))
                    (subst IsInumber (sym own) h) (rw own (rw k₁.super in_table)) d₂.table
                    (rw k₁.super within) d₂.coherent d₂.cached)
                  (λ _ fs₃ (w, k₃).
                    let here : inode_view px fs₃ n ≡ target =
                      w.inodes n h.positive ∙ ground (arith, own) in
                    go fs₃ (record {
                      keeps = Keeps-trans fs fs₂ fs₃ k₂ k₃;
                      links = ap (λ (j : Inode). j.links) here;
                      left =
                          subst
                            (λ (j : Inode).
                              j ≡ record (less_links v) { change_time = j.change_time })
                            (sym here) refl;
                      others = λ j p ne. w.inodes j p ∙ ground (arith, own, ne, seen j);
                    }))
                  λ _ impossible. impossible)))
          λ _ impossible. impossible
