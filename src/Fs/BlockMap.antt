-- ===== src/Fs/BlockMap.antt =====
-- src/fs.c: the blocks of a file. The first twelve pointers of an inode are direct, the next leads to
-- a block of 64 pointers, and 0 is a hole.
pub mod Sizes
pub mod ReadBack
pub mod Contents
use filesys.Prelude.{
  ℕ, ◌+◌, ◌-◌, Bool, true, false, ◌&&◌, ◌||◌, get_or, set, ltb, leb, ◌==◌, if◌then◌else◌,
}
use filesys.Bytes.{Buffer, zeros, word, set_word}
use filesys.Outcome.{Run, done, failed, pure, fail, ◌>>=◌, ◌>>◌}
use filesys.Os.{Os}
use filesys.Fs.Layout.{Superblock, Inode, ndir_blocks, ind_block, nind_blocks}
use filesys.Fs.State.{Filesystem, read_block, write_block, time_now}
use filesys.Fs.Inode.{write_inode}
use filesys.Fs.Blocks.{allocate_block, free_block}

-- `inode->block_pointers[i]`
abbrev pub pointer : Inode → ℕ → ℕ
pointer inode i = get_or inode.block_pointers i 0

-- `inode->block_pointers[i] = n`
abbrev pub set_pointer : Inode → ℕ → ℕ → Inode
set_pointer inode i n = record inode { block_pointers = set inode.block_pointers i n }

-- `block_number < inode_table_blocks + 1 || block_number >= blocks`
unfoldable pub is_outside : Superblock → ℕ → Bool
is_outside sb n = ltb n (sb.inode_table_blocks + 1) || leb sb.blocks n

-- `sfs_fs_inode_get_block_number`
unfoldable pub get_block_number : Inode → ℕ → ℕ
get_block_number inode iblock = if leb ndir_blocks iblock then 0 else pointer inode iblock

module _ ⦃os : Os⦄ where
  -- A hole of the index block is filled with a new block, if that is asked for.
  unfoldable pub index_entry :
      (indirect_block_number index : ℕ) → (create_if_empty : Bool) → Buffer → Run Filesystem ℕ
  index_entry indirect_block_number index create_if_empty arr =
      if create_if_empty && word arr index == 0
      then (do n ← allocate_block; write_block indirect_block_number (set_word arr index n); pure n)
      else pure (word arr index)

  -- `read_from_indirect`
  unfoldable pub read_from_indirect :
      (indirect_block_number index : ℕ) → (create_if_empty : Bool) → Run Filesystem ℕ
  read_from_indirect indirect_block_number index create_if_empty =
      if indirect_block_number == 0 then pure 0 else (do
        arr ← read_block indirect_block_number
        index_entry indirect_block_number index create_if_empty arr)

  -- The number of block `iblock` of the file, for a read.
  unfoldable pub block_for_read : Inode → ℕ → Run Filesystem ℕ
  block_for_read inode iblock =
      if ltb iblock ndir_blocks
      then pure (pointer inode iblock)
      else (if ltb iblock (ndir_blocks + nind_blocks)
          then read_from_indirect (pointer inode ind_block) (iblock - ndir_blocks) false
          else fail)

  -- The contents of the block with that number: zeros for a hole.
  unfoldable pub read_numbered : ℕ → Run Filesystem Buffer
  read_numbered n fs =
      if n == 0
      then done zeros fs
      else (if is_outside fs.superblock n then failed fs else read_block n fs)

  -- `sfs_fs_inode_block_read`
  unfoldable pub inode_block_read : Inode → ℕ → Run Filesystem Buffer
  inode_block_read inode iblock = do n ← block_for_read inode iblock; read_numbered n

  -- A direct block for a write, with the inode that then has it.
  unfoldable pub direct_for_write : Inode → ℕ → Run Filesystem (Inode × ℕ)
  direct_for_write inode iblock =
      if pointer inode iblock == 0
      then (do
        n ← allocate_block
        let inode' = set_pointer inode iblock n
        write_inode inode'
        pure (inode', n))
      else pure (inode, pointer inode iblock)

  -- The inode with an index block.
  unfoldable pub with_index_block : Inode → Run Filesystem Inode
  with_index_block inode =
      if pointer inode ind_block == 0
      then (do
        n ← allocate_block
        now ← time_now
        let inode' = record (set_pointer inode ind_block n) { change_time = now }
        write_inode inode'
        pure inode')
      else pure inode

  unfoldable pub block_for_write : Inode → ℕ → Run Filesystem (Inode × ℕ)
  block_for_write inode iblock =
      if ltb iblock ndir_blocks
      then direct_for_write inode iblock
      else (if ltb iblock (ndir_blocks + nind_blocks)
          then (do
            inode' ← with_index_block inode
            n ← read_from_indirect (pointer inode' ind_block) (iblock - ndir_blocks) true
            pure (inode', n))
          else fail)

  unfoldable pub write_numbered : ℕ → Buffer → Run Filesystem (Unit {0})
  write_numbered n block fs =
      if is_outside fs.superblock n then failed fs else write_block n block fs

  -- `sfs_fs_inode_block_write`, which returns the inode that it updates.
  unfoldable pub inode_block_write : Inode → ℕ → Buffer → Run Filesystem Inode
  inode_block_write inode iblock block = do
    (inode', n) ← block_for_write inode iblock
    write_numbered n block
    pure inode'

  -- `sfs_fs_inode_block_remove`
  unfoldable pub inode_block_remove : Inode → ℕ → Run Filesystem (Unit {0})
  inode_block_remove inode iblock =
      if leb ndir_blocks iblock
      then fail
      else (if pointer inode iblock == 0 then pure tt else free_block (pointer inode iblock))
