-- ===== src/Fs/Blocks.antt =====
-- src/fs.c: `sfs_fs_allocate_block` and `sfs_fs_free_block` on the index list of free blocks. A node
-- of the list is a block of 64 numbers: the next node, then free blocks, 0 for an empty slot.
use filesys.Prelude.{ℕ, zero, suc, ◌+◌, ◌-◌, Bool, not, Option, none, some, ◌==◌, if◌then◌else◌}
use filesys.Bytes.{Buffer, zeros, word, set_word}
use filesys.Outcome.{Run, done, failed, aborted, pure, ◌>>=◌, ◌>>◌}
use filesys.Os.{Os}
use filesys.Fs.State.{Filesystem, read_block, write_block, write_superblock}

-- `BLOCK_SIZE / sizeof(uint64_t)`
abbrev pub words_per_block : ℕ
words_per_block = 64

-- `for (i = ...; rounds left; ++i) if (test(i)) ...`: the first index that passes.
unfoldable pub first_from : (rounds i : ℕ) → (ℕ → Bool) → Option ℕ
first_from zero i test = none
first_from (suc rounds) i test =
    let rest = first_from rounds (i + 1) test in if test i then some i else rest

-- The first slot of an index node that passes.
unfoldable pub first_slot : (ℕ → Bool) → Option ℕ
first_slot test = first_from (words_per_block - 1) 1 test

module _ ⦃os : Os⦄ where
  unfoldable pub set_free_blocks_head : ℕ → Run Filesystem (Unit {0})
  set_free_blocks_head k fs =
      done tt (record fs { superblock = record fs.superblock { free_blocks_head = k } })

  -- `sfs_fs_allocate_block`, with the node that heads the list and its contents.
  unfoldable pub take_slot : Option ℕ → (node : ℕ) → Buffer → Run Filesystem ℕ
  take_slot (some i) node index = do write_block node (set_word index i 0); pure (word index i)
  take_slot none node index = do set_free_blocks_head (word index 0); write_superblock; pure node

  unfoldable pub allocate_block : Run Filesystem ℕ
  allocate_block fs =
      let node = fs.superblock.free_blocks_head in
      if node == 0
      then failed fs
      else (do
        index ← read_block node
        take_slot (first_slot (λ i. not (word index i == 0))) node index)
          fs

  -- `add |block_number| as a node at the end of the list`
  unfoldable pub append_node : (block_number prev_node : ℕ) → Buffer → Run Filesystem (Unit {0})
  append_node block_number prev_node index = do
    write_block prev_node (set_word index 0 block_number)
    write_block block_number zeros

  -- Put the block in the empty slot of the node, or go on.
  unfoldable pub fill_slot :
      Option ℕ
      → (block_number node : ℕ) → Buffer
      → Run Filesystem (Unit {0})
      → Run Filesystem (Unit {0})
  fill_slot (some i) block_number node index next = write_block node (set_word index i block_number)
  fill_slot none block_number node index next = next

  -- The `while (node != 0)` of `sfs_fs_free_block`, on fuel: `aborted` stands for a loop that does
  -- not end.
  unfoldable pub free_walk :
      (fuel block_number node prev_node : ℕ) → Buffer → Run Filesystem (Unit {0})
  free_walk zero block_number node prev_node index fs = aborted
  free_walk (suc fuel) block_number node prev_node index fs =
      let rest =
        (do
          index' ← read_block node
          fill_slot (first_slot (λ i. word index' i == 0)) block_number node index'
              (free_walk fuel block_number (word index' 0) node index'))
          fs in
      if node == 0 then append_node block_number prev_node index fs else rest

  -- `sfs_fs_free_block`. The walk visits distinct blocks, so it needs no more rounds than there are
  -- blocks, and one to see the end.
  unfoldable pub free_block : ℕ → Run Filesystem (Unit {0})
  free_block block_number fs =
      let node = fs.superblock.free_blocks_head in
      if node == 0
      then (do write_block block_number zeros; set_free_blocks_head block_number; write_superblock)
          fs
      else free_walk (suc fs.superblock.blocks) block_number node 0 zeros fs
