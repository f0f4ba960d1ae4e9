-- ===== src/Sfs/Transfer/Files.antt =====
-- src/sfs.c: `sfs_read` of a file whose blocks are direct.
use filesys.Prelude.{
  ℕ, ◌+◌, ◌*◌, ◌/◌, ◌%◌, ◌^◌, ◌<◌, ◌≤◌, ◌≡◌, ◌≢◌, ◌⊎◌, inl, inr, refl, sym, ap, subst, ◌∙◌, false,
  ◌==◌, arith, if◌then◌else◌,
}
use filesys.Bytes.{Buffer, zeros}
use filesys.Outcome.{Ensures, returns, Ensures-bind}
use filesys.Os.{Os, IsPosix}
use filesys.Block.{block_at}
use filesys.Block.Laws.{block_at-time}
use filesys.Fs.Layout.{Inode, Superblock, IsInode, ndir_blocks}
use filesys.Fs.State.{Filesystem, time_now}
use filesys.Fs.Inode.{inode_block}
use filesys.Fs.Stamps.{accessed-IsInode}
use filesys.Fs.Cache.{IsCoherent, block_view}
use filesys.Fs.InodeView.{
  IsInumber, inode_view, inode_view-IsInode, SameView, Written, read_inode-view, write_inode-view,
}
use filesys.Fs.BlockMap.{pointer, is_outside}
use filesys.Sfs.Transfer.{span, read_data, read_blocks, rounds_of}
use filesys.Sfs.Transfer.Spans.{span-whole, span-within, deliver-within}
use filesys.Fs.BlockMap.Contents.{table_below, Holds, inode_block_read-Holds}
use filesys.Sfs.Transfer.Laws.{delivered, read_blocks-Holds}

module _ ⦃os : Os⦄ (px : IsPosix os) where
  -- Block `k` of the file whose inode is `n`, as the file system sees it: zeros for a hole.
  unfoldable pub file_block : Filesystem → (n k : ℕ) → Buffer
  file_block fs n k =
      if pointer (inode_view px fs n) k == 0
      then zeros
      else block_view px fs (pointer (inode_view px fs n) k)

  -- Inode `n` is a file in the inode table, whose direct blocks are holes or lie behind the table.
  pub record IsFile (n : ℕ) (fs : Filesystem) : Type 0 where
    pub coherent : IsCoherent px fs
    pub number : IsInumber n
    pub own : (inode_view px fs n).inumber ≡ n
    pub in_table : inode_block n ≤ fs.superblock.inode_table_blocks
    pub small : fs.superblock.blocks ≤ 2 ^ 55
    pub pointers :
        (k : ℕ)
        → k < ndir_blocks
        → (pointer (inode_view px fs n) k ≡ 0)
          ⊎ (is_outside fs.superblock (pointer (inode_view px fs n) k) ≡ false)

  -- The clock changes no view.
  pub SameView-time :
      (fs fs' : Filesystem)
      → SameView px fs fs'
      → SameView px fs (record fs' { os_state = (os.time fs'.os_state).1 })
  unfolding block_view
  SameView-time fs fs' v = record {
    coherent = record {
      number = v.coherent.number;
      dirty = v.coherent.dirty;
      clean = λ d p. v.coherent.clean d p ∙ sym (block_at-time px fs'.os_state _);
    };
    super = v.super;
    views = λ k p. ground (arith, v.views k p, block_at-time px fs'.os_state k);
  }

  file_block-hole :
      (n : ℕ) (fs : Filesystem) (k : ℕ)
      → pointer (inode_view px fs n) k ≡ 0
      → file_block fs n k ≡ zeros
  unfolding file_block
  file_block-hole n fs k hole = rw hole refl

  pub file_block-placed :
      (n : ℕ) (fs : Filesystem) (k : ℕ)
      → 0 < pointer (inode_view px fs n) k
      → block_view px fs (pointer (inode_view px fs n) k) ≡ file_block fs n k
  unfolding file_block
  file_block-placed n fs k h = ground arith

  pub disk_view :
      (fs : Filesystem) (a : ℕ)
      → fs.inode_cache.block_number ≢ a
      → block_at px fs.os_state a ≡ block_view px fs a
  unfolding block_view
  disk_view fs a h = ground arith

  -- A block of the file is on the disk what it is to the file system, since the cache holds a block
  -- of the table.
  stored_block :
      (n : ℕ) (i : Inode) (fs fs' fs'' : Filesystem) (k : ℕ)
      → IsFile n fs
      → SameView px fs fs'
      → i.inumber ≡ n
      → is_outside fs.superblock (pointer (inode_view px fs n) k) ≡ false
      → Written px i fs' fs''
      → block_at px fs''.os_state (pointer (inode_view px fs n) k) ≡ file_block fs n k
  stored_block n i fs fs' fs'' k f v own inside w =
      let a = pointer (inode_view px fs n) k in
      let behind : fs.superblock.inode_table_blocks < a = table_below fs.superblock a inside in
      let here : inode_block i.inumber ≡ inode_block n = ap inode_block own in
      disk_view fs'' a (λ e. omega (arith, behind, here, f.in_table, w.number))
      ∙ (w.blocks a (omega (arith, behind)) (λ e. omega (arith, behind, here, f.in_table))
          ∙ (v.views a (omega (arith, behind)) ∙ file_block-placed n fs k (omega (arith, behind))))

  -- The state that the loop of `sfs_read` starts in.
  Written-Holds :
      (n : ℕ) (i : Inode) (fs fs' fs'' : Filesystem)
      → IsFile n fs
      → SameView px fs fs'
      → i.block_pointers ≡ (inode_view px fs n).block_pointers
      → i.inumber ≡ n
      → Written px i fs' fs''
      → Holds px (file_block fs n) i fs''
  Written-Holds n i fs fs' fs'' f v same own w = record {
    places = λ k p. rw same (elim (f.pointers k p) [
      | inl hole ↦ inl (hole, file_block-hole n fs k hole)
      | inr inside ↦
          let super = w.super ∙ v.super in
          let a = pointer (inode_view px fs n) k in
          inr (
            ap (λ (s : Superblock). is_outside s a) super ∙ inside,
            stored_block n i fs fs' fs'' k f v own inside w,
          )
    ]);
    small = subst (λ (s : Superblock). s.blocks ≤ 2 ^ 55) (sym (w.super ∙ v.super)) f.small;
  }

  -- What `sfs_read` brings is what its loop brings, from a state in which the blocks of the file are
  -- on the disk.
  pub read_data-Ensures :
      (n buf size offset first rounds : ℕ) (memory : Buffer) (fs : Filesystem) (P : Buffer → Type 0)
      → IsFile n fs
      → (span size offset).first_block ≡ first
      → rounds_of (span size offset) ≡ rounds
      → ((i : Inode) (fs' : Filesystem)
          → Holds px (file_block fs n) i fs'
          → Ensures
              (λ m _. P m)
              (λ _. Unit {0})
              (read_blocks rounds first (span size offset) buf i memory fs'))
      → Ensures (λ m _. P m) (λ _. Unit {0}) (read_data n buf size offset memory fs)
  unfolding read_data time_now
  read_data-Ensures n buf size offset first rounds memory fs P f from count go =
      Ensures-bind (read_inode-view px fs n f.coherent f.number)
        (λ i fs' (e, v).
          let now = (os.time fs'.os_state).0 in
          let own = ap (λ (j : Inode). j.inumber) e ∙ f.own in
          let accessed = record i { access_time = now % 2 ^ 64 } in
          let v' = SameView-time fs fs' v in
          Ensures-bind
            (write_inode-view px _ accessed v'.coherent
              (accessed-IsInode i now (subst IsInode (sym e) (inode_view-IsInode px fs n)))
              (subst IsInumber (sym own) f.number))
            (λ _ fs'' w.
              let holds =
                Written-Holds n accessed fs _ fs'' f v' (ap (λ (j : Inode). j.block_pointers) e) own
                  w in
              subst
                (λ k.
                  Ensures (λ m _. P m) (λ _. Unit {0})
                    (read_blocks k (span size offset).first_block (span size offset) buf accessed
                      memory fs''))
                (sym count)
                (subst
                  (λ k.
                    Ensures (λ m _. P m) (λ _. Unit {0})
                      (read_blocks rounds k (span size offset) buf accessed memory fs''))
                  (sym from) (go accessed fs'' holds)))
            λ _ _. tt)
        λ _ _. tt

  -- `sfs_read` of whole blocks.
  pub read_data-whole :
      (n first rounds buf : ℕ) (memory : Buffer) (fs : Filesystem)
      → IsFile n fs
      → 0 < rounds
      → first + rounds ≤ ndir_blocks
      → Ensures
          (λ m _. (a : ℕ) → m a ≡ delivered (file_block fs n) buf first (first + rounds) memory a)
          (λ _. Unit {0})
          (read_data n buf (rounds * 512) (first * 512) memory fs)
  read_data-whole n first rounds buf memory fs f some_blocks direct =
      let (from, aligned, whole, count) = span-whole first rounds some_blocks direct in
      read_data-Ensures n buf (rounds * 512) (first * 512) first rounds memory fs
        (λ m. (a : ℕ) → m a ≡ delivered (file_block fs n) buf first (first + rounds) memory a) f
        from count
        (λ i fs' h.
          read_blocks-Holds px (file_block fs n) (span (rounds * 512) (first * 512)) buf rounds
            first i memory fs' aligned whole direct h)

  -- `sfs_read` in the midst of a block: it is read, and left where it is.
  pub read_data-within :
      (n size offset buf : ℕ) (memory : Buffer) (fs : Filesystem)
      → IsFile n fs
      → 0 < size
      → 0 < offset % 512
      → offset % 512 + size ≤ 512
      → offset / 512 < ndir_blocks
      → Ensures
          (λ m _. (a : ℕ) → m a ≡ memory a)
          (λ _. Unit {0})
          (read_data n buf size offset memory fs)
  unfolding read_blocks
  read_data-within n size offset buf memory fs f some_bytes inside one direct =
      let (from, count) = span-within size offset some_bytes inside one direct in
      read_data-Ensures n buf size offset (offset / 512) 1 memory fs (λ m. (a : ℕ) → m a ≡ memory a)
        f from count
        (λ i fs' h.
          Ensures-bind (inode_block_read-Holds px (file_block fs n) i fs' (offset / 512) direct h)
            (λ b fs'' _. returns (λ a. deliver-within size offset buf b memory a inside)) λ _ _. tt)
