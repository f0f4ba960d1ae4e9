-- ===== src/Fs/State.antt =====
-- src/fs.c: `struct filesystem` with its write-back cache of one block of inodes, and the calls of
-- the block layer with their test for a full transfer. `disk` is the one open descriptor of `Os`.
use filesys.Prelude.{ℕ, ◌%◌, ◌^◌, Bool, if◌then◌else◌}
use filesys.Bytes.{Buffer, zeros}
use filesys.Outcome.{Run, done, failed}
use filesys.Os.{Os}
use filesys.Block.{block_read, block_write, is_full}
use filesys.Fs.Layout.{Superblock, store_superblock}

-- `struct inode_cache`; `block_number` is the bit pattern of an `int`, `contents` its `data`.
pub record InodeCache : Type 0 where
  pub dirty : Bool
  pub block_number : ℕ
  pub contents : Buffer

module _ ⦃os : Os⦄ where
  pub record Filesystem : Type 0 where
    pub os_state : os.State
    pub superblock : Superblock
    pub inode_cache : InodeCache

  -- `if (block_read(fs->disk, k, b) != BLOCK_SIZE) return -1;` for a local buffer `b`.
  unfoldable pub read_block : ℕ → Run Filesystem Buffer
  read_block k fs =
      let (ret, b, s) = block_read k zeros fs.os_state in
      let fs' = record fs { os_state = s } in if is_full ret then done b fs' else failed fs'

  -- `if (block_write(fs->disk, k, b) != BLOCK_SIZE) return -1;`
  unfoldable pub write_block : ℕ → Buffer → Run Filesystem (Unit {0})
  write_block k b fs =
      let (ret, s) = block_write k b fs.os_state in
      let fs' = record fs { os_state = s } in if is_full ret then done tt fs' else failed fs'

  -- `time(NULL)`, kept in a 64-bit field.
  unfoldable pub time_now : Run Filesystem ℕ
  time_now fs = let (t, s) = os.time fs.os_state in done (t % 2 ^ 64) (record fs { os_state = s })

  unfoldable pub write_superblock : Run Filesystem (Unit {0})
  unfolding write_block
  write_superblock fs = write_block 0 (store_superblock zeros fs.superblock) fs
