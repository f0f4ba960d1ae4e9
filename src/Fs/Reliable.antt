-- ===== src/Fs/Reliable.antt =====
-- src/fs.c on a disk file whose transfers are never short: the calls on blocks and inodes succeed.
use filesys.Prelude.{ℕ, ◌+◌, ◌*◌, ◌^◌, ◌<◌, ◌≤◌, ◌≡◌, refl, Bool, true, false, arith, ◌==◌, lt→ltb}
use filesys.Bytes.{Buffer}
use filesys.Outcome.{Succeeds, returns, Ensures-bind, Ensures-if}
use filesys.Os.{Os, IsReliable}
use filesys.Block.{block_read, block_write, is_full, offset_of}
use filesys.Fs.Layout.{Inode}
use filesys.Fs.State.{Filesystem, read_block, write_block}
use filesys.Fs.Inode.{
  inode_block, uint64_of, write_back, fill_cache, switch_cache, cached_inode, cache_inode,
  read_inode, write_inode,
}

module _ ⦃os : Os⦄ (size : ℕ) (reliable : IsReliable os size) (small : size ≤ 2 ^ 55) where
  offset_of-within : (k : ℕ) → k < size → offset_of k + 512 ≤ size * 512
  unfolding offset_of
  offset_of-within k h = omega (arith, small)

  block_read-is_full :
      (k : ℕ) (b : Buffer) (s : os.State) → k < size → is_full (block_read k b s).0 ≡ true
  unfolding block_read is_full
  block_read-is_full k b s h = rw (reliable.reads 512 (offset_of k) s (offset_of-within k h)) refl

  block_write-is_full :
      (k : ℕ) (b : Buffer) (s : os.State) → k < size → is_full (block_write k b s).0 ≡ true
  unfolding block_write is_full
  block_write-is_full k b s h =
      rw (reliable.writes b 512 (offset_of k) s (offset_of-within k h)) refl

  pub read_block-Succeeds : (k : ℕ) (fs : Filesystem) → k < size → Succeeds (read_block k fs)
  unfolding read_block
  read_block-Succeeds k fs h = rw (block_read-is_full k _ fs.os_state h) (returns tt)

  pub write_block-Succeeds :
      (k : ℕ) (b : Buffer) (fs : Filesystem) → k < size → Succeeds (write_block k b fs)
  unfolding write_block
  write_block-Succeeds k b fs h = rw (block_write-is_full k b fs.os_state h) (returns tt)

  write_back-Succeeds :
      (fs : Filesystem) → uint64_of fs.inode_cache.block_number < size → Succeeds (write_back fs)
  unfolding write_back
  write_back-Succeeds fs h =
      Ensures-if fs.inode_cache.dirty _ _ (λ _. write_block-Succeeds _ _ fs h) λ _. returns tt

  fill_cache-Succeeds :
      (reset : Bool) (k : ℕ) (fs : Filesystem) → k < size → Succeeds (fill_cache reset k fs)
  unfolding fill_cache
  fill_cache-Succeeds reset k fs h = rw (block_read-is_full k _ fs.os_state h) (returns tt)

  switch_cache-Succeeds :
      (reset : Bool) (k : ℕ) (fs : Filesystem)
      → uint64_of fs.inode_cache.block_number < size
      → k < size
      → Succeeds (switch_cache reset k fs)
  unfolding switch_cache
  switch_cache-Succeeds reset k fs cached h =
      Ensures-if (uint64_of fs.inode_cache.block_number == k) _ _ (λ _. returns tt)
        λ _.
          Ensures-bind (write_back-Succeeds fs cached)
            (λ _ fs' _. fill_cache-Succeeds reset k fs' h) λ _ impossible. impossible

  pub read_inode-Succeeds :
      (n : ℕ) (fs : Filesystem)
      → 0 < n
      → uint64_of fs.inode_cache.block_number < size
      → inode_block n < size
      → Succeeds (read_inode n fs)
  unfolding read_inode cached_inode
  read_inode-Succeeds n fs positive cached h = rw (lt→ltb 0 n positive) (
      Ensures-bind (switch_cache-Succeeds true (inode_block n) fs cached h) (λ _ fs' _. returns tt)
        λ _ impossible. impossible)

  pub write_inode-Succeeds :
      (i : Inode) (fs : Filesystem)
      → 0 < i.inumber
      → uint64_of fs.inode_cache.block_number < size
      → inode_block i.inumber < size
      → Succeeds (write_inode i fs)
  unfolding write_inode cache_inode
  write_inode-Succeeds i fs positive cached h = rw (lt→ltb 0 i.inumber positive) (
      Ensures-bind (switch_cache-Succeeds false (inode_block i.inumber) fs cached h)
        (λ _ fs' _. returns tt) λ _ impossible. impossible)
