-- ===== src/Dir/Link.antt =====
-- src/dir.c: `sfs_dir_link`.
use filesys.Prelude.{
  ℕ, zero, suc, ◌+◌, ◌/◌, ◌%◌, ◌^◌, Option, none, some, List, length, ltb, ◌==◌, if◌then◌else◌,
}
use filesys.Bytes.{Buffer, zeros}
use filesys.Outcome.{Run, pure, fail, ◌>>=◌, ◌>>◌}
use filesys.Os.{Os}
use filesys.Fs.Layout.{Inode}
use filesys.Fs.State.{Filesystem, time_now}
use filesys.Fs.Inode.{write_inode}
use filesys.Fs.Blocks.{first_from}
use filesys.Fs.BlockMap.{inode_block_read, inode_block_write}
use filesys.Dir.Entry.{entries_per_block, entry_inumber, set_entry}
use filesys.Dir.Iterate.{more_links}

module _ ⦃os : Os⦄ where
  -- A new block at the end of the directory, with the entry in it.
  unfoldable pub link_new_block : Inode → List ℕ → Inode → Run Filesystem (Inode × Inode)
  link_new_block directory name inode = do
    grown ←
        inode_block_write directory (directory.size / 512) (set_entry zeros 0 inode.inumber name)
    now ← time_now
    let directory' = record grown { size = (grown.size + 512) % 2 ^ 64; modified_time = now }
    write_inode directory'
    later ← time_now
    let inode' = record (more_links inode) { change_time = later }
    write_inode inode'
    pure (directory', inode')

  -- The entry in the empty slot `j` of block `i`.
  unfoldable pub link_slot :
      Inode → List ℕ → Inode → (i j : ℕ) → Buffer → Run Filesystem (Inode × Inode)
  link_slot directory name inode i j b = do
    kept ← inode_block_write directory i (set_entry b j inode.inumber name)
    now ← time_now
    let directory' = record kept { modified_time = now }
    let inode' = record (more_links inode) { change_time = now }
    write_inode directory'
    write_inode inode'
    pure (directory', inode')

  unfoldable pub link_in_block :
      Option ℕ
      → Inode
      → List ℕ
      → Inode
      → (i : ℕ) → Buffer
      → Run Filesystem (Inode × Inode)
      → Run Filesystem (Inode × Inode)
  link_in_block (some j) directory name inode i b next = link_slot directory name inode i j b
  link_in_block none directory name inode i b next = next

  -- The loop over the blocks of the directory.
  unfoldable pub link_loop :
      (rounds i : ℕ) → Inode → List ℕ → Inode → Run Filesystem (Inode × Inode)
  link_loop zero i directory name inode fs = link_new_block directory name inode fs
  link_loop (suc rounds) i directory name inode fs =
      (do
        b ← inode_block_read directory i
        link_in_block (first_from entries_per_block 0 (λ j. entry_inumber b j == 0)) directory name
            inode i b (link_loop rounds (i + 1) directory name inode))
        fs

  -- `sfs_dir_link`, which returns the directory and the inode as it leaves them.
  unfoldable pub dir_link : Inode → List ℕ → Inode → Run Filesystem (Inode × Inode)
  dir_link directory name inode =
      if ltb 255 (length name)
      then fail
      else link_loop (directory.size / 512) 0 directory name inode
