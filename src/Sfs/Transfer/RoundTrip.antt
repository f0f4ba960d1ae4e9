-- ===== src/Sfs/Transfer/RoundTrip.antt =====
-- src/sfs.c: `sfs_write` of a whole block of a file, and `sfs_read` of it.
use filesys.Prelude.{
  ℕ, ◌+◌, ◌-◌, ◌*◌, ◌/◌, ◌%◌, ◌^◌, ◌<◌, ◌≡◌, refl, sym, ap, subst, ◌∙◌, false, ltb, ◌==◌, arith,
  lt→ltb, get_or,
}
use filesys.Bytes.{Buffer, clip}
use filesys.Outcome.{Ensures, returns, Ensures-bind, Ensures-mono, Ensures-if_run, pure, ◌>>◌}
use filesys.Os.{Os, IsPosix}
use filesys.Block.{block_at}
use filesys.Fs.Layout.{Inode, IsInode, ndir_blocks}
use filesys.Fs.State.{Filesystem, time_now}
use filesys.Fs.Inode.{inode_block}
use filesys.Fs.Stamps.{accessed-IsInode, sized-IsInode}
use filesys.Fs.InodeView.{
  IsInumber, inode_view, inode_view-IsInode, SameView, Written, read_inode-view, write_inode-view,
}
use filesys.Fs.BlockMap.{pointer, is_outside, inode_block_write, block_for_write, direct_for_write}
use filesys.Fs.BlockMap.ReadBack.{write_numbered-at}
use filesys.Fs.BlockMap.Contents.{table_below}
use filesys.Sfs.Transfer.{
  span, source, extend, read_data, write_data, write_blocks, rounds_of, slice_a, slice_b, is_whole,
  address,
}
use filesys.Sfs.Transfer.Laws.{delivered}
use filesys.Sfs.Transfer.Spans.{span-whole}
use filesys.Sfs.Transfer.Overwrite.{IsFile-carries, Overwritten, block_at-Overwritten}
use filesys.Sfs.Transfer.Files.{read_data-whole, IsFile, file_block, SameView-time}

delivered-block :
    (content : ℕ → Buffer) (k buf : ℕ) (memory : Buffer) (i : ℕ) (block : Buffer)
    → content k ≡ clip block
    → i < 512
    → delivered content buf k (k + 1) memory (buf + k * 512 + i) ≡ block i
unfolding delivered clip
delivered-block content k buf memory i block e h =
    let start : (buf + k * 512 + i - buf) / 512 ≡ k = omega (arith, h) in
    let rest : (buf + k * 512 + i - buf) % 512 ≡ i = omega (arith, h) in
    ground (arith, start, rest, e, ap (λ (b : Buffer). b i) e)

module _ ⦃os : Os⦄ (px : IsPosix os) where
  -- The inode `j` to be written is inode `n` with other times and another size.
  record IsUpdated (n : ℕ) (fs : Filesystem) (j : Inode) (fs' : Filesystem) : Type 0 where
    ok : IsInode j
    own : j.inumber ≡ n
    pointers : j.block_pointers ≡ (inode_view px fs n).block_pointers
    view : SameView px fs fs'

  extend-IsUpdated :
      (n end : ℕ) (j : Inode) (fs fs' : Filesystem)
      → IsUpdated n fs j fs'
      → Ensures (IsUpdated n fs) (λ _. Unit {0}) (extend (end % 2 ^ 64) j fs')
  unfolding extend time_now
  extend-IsUpdated n end j fs fs' u =
      Ensures-if_run (ltb j.size (end % 2 ^ 64)) _ _ fs'
        (λ _. returns (record {
          ok = sized-IsInode j (os.time fs'.os_state).0 end u.ok;
          own = u.own;
          pointers = u.pointers;
          view = SameView-time px fs fs' u.view;
        }))
        λ _. returns u

  slices-whole :
      (k buf : ℕ)
      → k < ndir_blocks
      → (slice_a (span 512 (k * 512)) k ≡ 0)
        × (slice_b (span 512 (k * 512)) k ≡ 512)
        × (address (span 512 (k * 512)) buf (k * 512) ≡ buf + k * 512)
  unfolding slice_a slice_b address
  slices-whole k buf direct =
      let (from, aligned, whole, count) = span-whole k 1 (omega arith) (omega (arith, direct)) in
      (ground (arith, aligned), ground (arith, whole), omega (arith, aligned))

  -- A whole block is written straight from the caller's memory.
  source-whole :
      (k buf : ℕ) (memory tmp : Buffer) (inode : Inode)
      → k < ndir_blocks
      → source (span 512 (k * 512)) buf k memory tmp inode
        ≡ pure (tmp, λ i. memory (buf + k * 512 + i))
  unfolding source is_whole
  source-whole k buf memory tmp inode direct =
      let (a, b, at) = slices-whole k buf direct in rw a (rw b (rw at refl))

  -- A block of the file that exists is overwritten in place.
  write_blocks-Overwritten :
      (n k buf : ℕ) (memory tmp : Buffer) (j : Inode) (fs : Filesystem)
      → IsFile px n fs
      → fs.inode_cache.block_number ≡ inode_block n
      → j.block_pointers ≡ (inode_view px fs n).block_pointers
      → k < ndir_blocks
      → is_outside fs.superblock (pointer (inode_view px fs n) k) ≡ false
      → Ensures
          (λ _ fs'. Overwritten px n k (λ i. memory (buf + k * 512 + i)) fs')
          (λ _. Unit {0})
          (write_blocks 1 k (span 512 (k * 512)) buf memory tmp j fs)
  unfolding write_blocks inode_block_write block_for_write direct_for_write
  write_blocks-Overwritten n k buf memory tmp j fs f cached same direct inside =
      let block : Buffer = λ i. memory (buf + k * 512 + i) in
      let a = pointer (inode_view px fs n) k in
      let behind = table_below fs.superblock a inside in
      let there : pointer j k ≡ a = rw same refl in
      let placed : (pointer j k == 0) ≡ false = ground (arith, there, behind) in
      rw (source-whole k buf memory tmp j direct) (
        rw (lt→ltb k ndir_blocks direct) (
          rw placed (
            Ensures-bind
              (Ensures-bind {P' = λ _ fs'. Overwritten px n k block fs'} {Q' = λ _. Unit {0}}
                (write_numbered-at px (pointer j k) block fs f.small)
                (λ _ fs' (written, _, memory', others). returns (
                  block_at-Overwritten px n a fs fs' f cached behind memory'
                    (λ i ne. others i λ e. ne (sym there ∙ e)) k block refl
                    (ap (block_at px fs'.os_state) (sym there) ∙ written)))
                λ _ _. tt)
              (λ _ _ h. returns h) λ _ _. tt)))

  -- The file after its inode has been written.
  Written-IsFile :
      (n : ℕ) (j : Inode) (fs mid fs' : Filesystem)
      → IsFile px n fs
      → IsUpdated n fs j mid
      → Written px j mid fs'
      → IsFile px n fs' × (inode_view px fs' n ≡ j)
  Written-IsFile n j fs mid fs' f u w =
      let here : inode_view px fs' n ≡ j = ground (arith, w.inodes n f.number.positive, u.own) in
      (
        IsFile-carries px n fs fs' f w.coherent (w.super ∙ u.view.super)
            (ap (λ (i : Inode). i.block_pointers) here ∙ u.pointers)
            (ap (λ (i : Inode). i.inumber) here ∙ u.own),
        here,
      )

  loop-Overwritten :
      (n k buf : ℕ) (memory tmp : Buffer) (j : Inode) (fs mid fs' : Filesystem)
      → IsFile px n fs
      → IsUpdated n fs j mid
      → Written px j mid fs'
      → k < ndir_blocks
      → is_outside fs.superblock (pointer (inode_view px fs n) k) ≡ false
      → Ensures
          (λ _. Overwritten px n k (λ i. memory (buf + k * 512 + i)))
          (λ _. Unit {0})
          (write_blocks
            (rounds_of (span 512 (k * 512)))
            (span 512 (k * 512)).first_block
            (span 512 (k * 512))
            buf
            memory
            tmp
            j
            fs')
  loop-Overwritten n k buf memory tmp j fs mid fs' f u w direct inside =
      let (from, aligned, whole, count) = span-whole k 1 (omega arith) (omega (arith, direct)) in
      let (f', here) = Written-IsFile n j fs mid fs' f u w in
      let same : j.block_pointers ≡ (inode_view px fs' n).block_pointers =
        ap (λ (i : Inode). i.block_pointers) (sym here) in
      let inside' : is_outside fs'.superblock (pointer (inode_view px fs' n) k) ≡ false =
        ap (λ s. is_outside s (pointer (inode_view px fs' n) k)) (w.super ∙ u.view.super)
        ∙ (ap (λ i. is_outside fs.superblock (pointer i k)) here
            ∙ (ap (λ ps. is_outside fs.superblock (get_or ps k 0)) u.pointers ∙ inside)) in
      let run : ℕ → ℕ → Type 0 = λ r b.
        Ensures (λ _. Overwritten px n k (λ i. memory (buf + k * 512 + i))) (λ _. Unit {0})
          (write_blocks r b (span 512 (k * 512)) buf memory tmp j fs') in
      subst (λ r. run r (span 512 (k * 512)).first_block) (sym count)
        (subst (λ b. run 1 b) (sym from)
          (write_blocks-Overwritten n k buf memory tmp j fs' f' (w.number ∙ ap inode_block u.own)
            same direct inside'))

  -- `sfs_write` of a whole block that the file has.
  pub write_data-Overwritten :
      (n k buf : ℕ) (memory tmp : Buffer) (fs : Filesystem)
      → IsFile px n fs
      → k < ndir_blocks
      → is_outside fs.superblock (pointer (inode_view px fs n) k) ≡ false
      → Ensures
          (λ _ fs'. Overwritten px n k (λ i. memory (buf + k * 512 + i)) fs')
          (λ _. Unit {0})
          (write_data n buf 512 (k * 512) memory tmp fs)
  unfolding write_data time_now
  write_data-Overwritten n k buf memory tmp fs f direct inside =
      let (from, aligned, whole, count) = span-whole k 1 (omega arith) (omega (arith, direct)) in
      Ensures-bind (read_inode-view px fs n f.coherent f.number)
        (λ i fs' (e, v).
          let now = (os.time fs'.os_state).0 in
          Ensures-bind
            (extend-IsUpdated n (k * 512 + 512) (record i { access_time = now % 2 ^ 64 }) fs _
              (record {
                ok = accessed-IsInode i now (subst IsInode (sym e) (inode_view-IsInode px fs n));
                own = ap (λ (j : Inode). j.inumber) e ∙ f.own;
                pointers = ap (λ (j : Inode). j.block_pointers) e;
                view = SameView-time px fs fs' v;
              }))
            (λ j mid u.
              Ensures-bind
                (write_inode-view px mid j u.view.coherent u.ok
                  (subst IsInumber (sym u.own) f.number))
                (λ _ fs'' w. loop-Overwritten n k buf memory tmp j fs mid fs'' f u w direct inside)
                λ _ _. tt)
            λ _ _. tt)
        λ _ _. tt

  -- `sfs_write` of the 512 bytes of a whole direct block that the file has, and then `sfs_read` of
  -- them: neither aborts, and if both succeed, then the bytes that are read are those written. The
  -- caller's buffers are taken to begin where the code takes them from, `buf` plus the offset.
  pub write_data-read_data :
      (n k buf buf' : ℕ) (memory memory' tmp : Buffer) (fs : Filesystem)
      → IsFile px n fs
      → k < ndir_blocks
      → is_outside fs.superblock (pointer (inode_view px fs n) k) ≡ false
      → Ensures
          (λ m _. (i : ℕ) → i < 512 → m (buf' + k * 512 + i) ≡ memory (buf + k * 512 + i))
          (λ _. Unit {0})
          ((write_data n buf 512 (k * 512) memory tmp >> read_data n buf' 512 (k * 512) memory') fs)
  write_data-read_data n k buf buf' memory memory' tmp fs f direct inside =
      Ensures-bind (write_data-Overwritten n k buf memory tmp fs f direct inside)
        (λ _ fs' o.
          Ensures-mono
            (read_data-whole px n k 1 buf' memory' fs' o.file (omega arith) (omega (arith, direct)))
            (λ m _ all i h.
              all (buf' + k * 512 + i)
              ∙ delivered-block (file_block px fs' n) k buf' memory' i
                  (λ i. memory (buf + k * 512 + i)) o.at h)
            λ _ _. tt)
        λ _ _. tt
