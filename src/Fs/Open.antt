-- ===== src/Fs/Open.antt =====
-- src/fs.c: `sfs_fs_open_disk`.

pub mod NewFilesystem
use filesys.Prelude.{ℕ, Bool, ◌==◌, if◌then◌else◌}
use filesys.Bytes.{Buffer}
use filesys.Outcome.{◌>>=◌, Run, done, failed, pure, ◌>>◌}
use filesys.Os.{Os}
use filesys.Block.{block_read, is_full}
use filesys.Fs.Layout.{Superblock, load_superblock}
use filesys.Fs.State.{InodeCache, Filesystem}
use filesys.Fs.Format.{signature, format_fs}

module _ ⦃os : Os⦄ where
  -- `malloc`, which returns memory or NULL.
  unfoldable pub memory : Run os.State (Unit {0})
  memory s = let (given, s') = os.malloc s in if given then done tt s' else failed s'

  -- `block_read` into a buffer that holds `old`.
  unfoldable pub get_block : ℕ → (old : Buffer) → Run os.State Buffer
  get_block k old s =
      let (ret, b, s') = block_read k old s in if is_full ret then done b s' else failed s'

  -- The superblock of a disk with the signature, or of a new file system.
  unfoldable pub superblock_of_disk : Superblock → Run os.State Superblock
  superblock_of_disk sb = if sb.signature == signature then pure sb else format_fs

  -- `sfs_fs_open_disk`. The inode cache in the memory from `malloc` is `old` but for its block
  -- number, and the buffer on the stack holds `stack`. Without `maybe_format` the source only writes
  -- to the log, and formats all the same.
  unfoldable pub open_disk :
      (maybe_format : Bool) → (old : InodeCache) → (stack : Buffer) → Run os.State Filesystem
  open_disk maybe_format old stack = do
    memory
    b ← get_block 0 stack
    sb ← superblock_of_disk (load_superblock b)
    λ s.
        done
          (record { os_state = s; superblock = sb; inode_cache = record old { block_number = 0 } })
          s
