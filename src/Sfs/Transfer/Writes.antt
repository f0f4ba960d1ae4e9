-- ===== src/Sfs/Transfer/Writes.antt =====
-- src/sfs.c: `sfs_write` in the midst of a block.
use filesys.Prelude.{
  ℕ, ◌+◌, ◌/◌, ◌%◌, ◌^◌, ◌<◌, ◌≤◌, ◌≡◌, refl, ap, sym, subst, fun_ext, true, false, ◌==◌, arith,
  if◌then◌else◌,
}
use filesys.Bytes.{Buffer}
use filesys.Outcome.{◌>>=◌, Run, pure, ◌>>◌}
use filesys.Os.{Os}
use filesys.Fs.Layout.{Inode, ndir_blocks}
use filesys.Fs.State.{Filesystem, time_now}
use filesys.Fs.Inode.{read_inode, write_inode}
use filesys.Sfs.State.{Sfs, lock, leave, value, find_fd}
use filesys.Sfs.Transfer.{
  span, slice_a, slice_b, is_whole, source, write_blocks, rounds_of, write_data, write, extend,
  transfer_fd,
}
use filesys.Sfs.Transfer.Spans.{span-within}

module _ ⦃os : Os⦄ where
  -- What is written is then whatever the block buffer of the handler holds.
  source-within :
      (size offset buf : ℕ) (memory tmp : Buffer) (inode : Inode)
      → 0 < offset % 512
      → source (span size offset) buf (offset / 512) memory tmp inode ≡ pure (tmp, tmp)
  unfolding source is_whole slice_a slice_b span
  source-within size offset buf memory tmp inode inside =
      let first : (offset / 512 == offset / 512) ≡ true = ground arith in
      let away : (offset % 512 == 0) ≡ false = ground arith in rw first (rw away (rw away refl))

  -- The loop writes the same whatever the caller's memory holds.
  block-within :
      (size offset buf : ℕ) (memory memory' tmp : Buffer) (inode : Inode)
      → 0 < offset % 512
      → write_blocks 1 (offset / 512) (span size offset) buf memory tmp inode
        ≡ write_blocks 1 (offset / 512) (span size offset) buf memory' tmp inode
  unfolding write_blocks
  block-within size offset buf memory memory' tmp inode inside =
      rw (source-within size offset buf memory tmp inode inside)
        (rw (source-within size offset buf memory' tmp inode inside) refl)

  write_blocks-within :
      (size offset buf : ℕ) (memory memory' tmp : Buffer) (inode : Inode)
      → 0 < size
      → 0 < offset % 512
      → offset % 512 + size ≤ 512
      → offset / 512 < ndir_blocks
      → write_blocks
          (rounds_of (span size offset))
          (span size offset).first_block
          (span size offset)
          buf
          memory
          tmp
          inode
        ≡ write_blocks
            (rounds_of (span size offset))
            (span size offset).first_block
            (span size offset)
            buf
            memory'
            tmp
            inode
  write_blocks-within size offset buf memory memory' tmp inode some_bytes inside one direct =
      let (from, count) = span-within size offset some_bytes inside one direct in
      let loop : ℕ → ℕ → Buffer → Run Filesystem (Unit {0}) =
        λ r k m. write_blocks r k (span size offset) buf m tmp inode in
      subst
        (λ r.
          loop r (span size offset).first_block memory
          ≡ loop r (span size offset).first_block memory')
        (sym count)
        (subst (λ k. loop 1 k memory ≡ loop 1 k memory') (sym from)
          (block-within size offset buf memory memory' tmp inode inside))

  write_data-within :
      (size offset buf : ℕ) (memory memory' tmp : Buffer)
      → 0 < size
      → 0 < offset % 512
      → offset % 512 + size ≤ 512
      → offset / 512 < ndir_blocks
      → ◌≡◌ {A = ℕ → Run Filesystem (Unit {0})}
          (λ n. write_data n buf size offset memory tmp)
          (λ n. write_data n buf size offset memory' tmp)
  unfolding write_data
  write_data-within size offset buf memory memory' tmp some_bytes inside one direct =
      ap {B = ℕ → Run Filesystem (Unit {0})}
        (λ (loop : Inode → Run Filesystem (Unit {0})) n. do
          inode ← read_inode n
          now ← time_now
          inode' ← extend ((offset + size) % 2 ^ 64) (record inode { access_time = now })
          write_inode inode'
          loop inode')
        (fun_ext λ i.
          write_blocks-within size offset buf memory memory' tmp i some_bytes inside one direct)

  -- A call of `sfs_write` for bytes of one direct block that do not begin at the beginning of the
  -- block does not depend on the caller's memory: what it returns and every later state, the disk
  -- included, are the same for any two buffers.
  pub write-within :
      (fh size offset buf : ℕ) (memory memory' tmp : Buffer) (s : Sfs)
      → 0 < size
      → 0 < offset % 512
      → offset % 512 + size ≤ 512
      → offset / 512 < ndir_blocks
      → write fh buf size offset memory tmp s ≡ write fh buf size offset memory' tmp s
  unfolding write
  write-within fh size offset buf memory memory' tmp s some_bytes inside one direct =
      ap
        (λ (call : ℕ → Run Filesystem (Unit {0})).
          (lock
              >> (if size == 0 then leave (value 0, tt) else λ t.
                  transfer_fd call (λ _. (value size, tt)) tt (find_fd fh t) t))
            s)
        (write_data-within size offset buf memory memory' tmp some_bytes inside one direct)
