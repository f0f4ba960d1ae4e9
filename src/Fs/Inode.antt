-- ===== src/Fs/Inode.antt =====
-- src/fs.c: `sfs_fs_read_inode` and `sfs_fs_write_inode` on the cache, and `sfs_fs_close`.
use filesys.Prelude.{ℕ, ◌+◌, ◌-◌, ◌/◌, ◌%◌, ◌^◌, Bool, true, false, ltb, ◌==◌, if◌then◌else◌}
use filesys.Outcome.{Outcome, Run, done, failed, aborted, assert, ◌>>◌}
use filesys.Os.{Os}
use filesys.Block.{block_read, is_full}
use filesys.Fs.Layout.{Inode, inodes_per_block, load_inode, store_inode}
use filesys.Fs.State.{Filesystem, write_block, write_superblock}

-- The cache's `int` block number as it is compared with, and passed as, a `uint64_t`.
unfoldable pub uint64_of : ℕ → ℕ
uint64_of v = if ltb v (2 ^ 31) then v else v + (2 ^ 64 - 2 ^ 32)

-- `block_number` and `position_in_block` of an inode.
unfoldable pub inode_block : ℕ → ℕ
inode_block inumber = (inumber - 1) / inodes_per_block + 1

unfoldable pub inode_position : ℕ → ℕ
inode_position inumber = (inumber - 1) % inodes_per_block

module _ ⦃os : Os⦄ where
  -- Write a dirty cache back to its block.
  unfoldable pub write_back : Run Filesystem (Unit {0})
  unfolding write_block
  write_back fs =
      if fs.inode_cache.dirty
      then write_block (uint64_of fs.inode_cache.block_number) fs.inode_cache.contents fs
      else done tt fs

  -- Take block `k` into the cache, whose number (and, for a read, flag) is set before the read.
  unfoldable pub fill_cache : (reset_dirty : Bool) → ℕ → Run Filesystem (Unit {0})
  fill_cache reset_dirty k fs =
      let (ret, b, s) = block_read k fs.inode_cache.contents fs.os_state in
      let fs' = record fs {
        os_state = s;
        inode_cache = record {
          dirty = if reset_dirty then false else fs.inode_cache.dirty;
          block_number = k % 2 ^ 32;
          contents = b;
        };
      } in
      if is_full ret then done tt fs' else failed fs'

  -- The cache holds block `k`, or is written back and filled with it.
  unfoldable pub switch_cache : (reset_dirty : Bool) → ℕ → Run Filesystem (Unit {0})
  unfolding write_back fill_cache
  switch_cache reset_dirty k fs =
      if uint64_of fs.inode_cache.block_number == k
      then done tt fs
      else (write_back >> fill_cache reset_dirty k) fs

  -- The inode at the position of `inumber` in the cached block.
  unfoldable pub cached_inode : ℕ → Run Filesystem Inode
  cached_inode inumber fs = done (load_inode fs.inode_cache.contents (inode_position inumber)) fs

  -- Put the inode in the cached block, which becomes dirty.
  unfoldable pub cache_inode : Inode → Run Filesystem (Unit {0})
  cache_inode inode fs = done tt (record fs {
    inode_cache = record fs.inode_cache {
      dirty = true;
      contents = store_inode fs.inode_cache.contents (inode_position inode.inumber) inode;
    };
  })

  -- `sfs_fs_read_inode`
  unfoldable pub read_inode : ℕ → Run Filesystem Inode
  unfolding switch_cache cached_inode
  read_inode inumber = do
    assert (ltb 0 inumber)
    switch_cache true (inode_block inumber)
    cached_inode inumber

  -- `sfs_fs_write_inode`
  unfoldable pub write_inode : Inode → Run Filesystem (Unit {0})
  unfolding switch_cache cache_inode
  write_inode inode = do
    assert (ltb 0 inode.inumber)
    switch_cache false (inode_block inode.inumber)
    cache_inode inode

  -- A failure of `write_superblock` is logged and forgotten.
  unfoldable pub ignore_failure : Outcome Filesystem (Unit {0}) → Outcome Filesystem (Unit {0})
  ignore_failure (failed fs) = done tt fs
  ignore_failure (done _ fs) = done tt fs
  ignore_failure aborted = aborted

  -- `sfs_fs_close`
  unfoldable pub close : Run Filesystem (Unit {0})
  unfolding write_back ignore_failure write_superblock
  close = do write_back; λ fs. ignore_failure (write_superblock fs)
