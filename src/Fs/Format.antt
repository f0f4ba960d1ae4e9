-- ===== src/Fs/Format.antt =====
-- src/fs.c: `format_fs`, which lays out an empty file system on the disk file.
pub mod Filling
pub mod Nodes
pub mod IndexList
pub mod FreeBlocks
pub mod TableBlocks
pub mod Table
pub mod NewDisk
use filesys.Prelude.{
  ℕ, zero, suc, ◌+◌, ◌-◌, ◌*◌, ◌/◌, ◌%◌, ◌^◌, Option, none, some, ◌==◌, ◌&&◌, ltb, replicate,
  if◌then◌else◌,
}
use filesys.Bytes.{Buffer, zeros, set_word}
use filesys.Outcome.{◌>>=◌, Run, done, failed, pure, fail, assert, ◌>>◌}
use filesys.Os.{Os}
use filesys.Block.{block_write, is_full}
use filesys.Fs.Layout.{
  Superblock, Inode, n_blocks, inodes_per_block, store_inode, load_inode, store_superblock,
}
use filesys.Fs.Blocks.{words_per_block}

-- SFS_FILE_TYPE_SIGNATURE: the 16 bytes of "SFS_IS_THE_BEST" and its NUL as one number.
abbrev pub signature : ℕ
signature = 437841863398427872285768484654368339

-- (blocks - 1) / 16, and at least 1.
unfoldable pub table_size : (blocks : ℕ) → ℕ
table_size blocks = let n = (blocks - 1) / 16 in if n == 0 then 1 else n

-- The superblock of a disk of that many blocks.
unfoldable pub new_superblock : (blocks now : ℕ) → Superblock
unfolding table_size
new_superblock blocks now = record {
  signature = signature;
  create_time = now;
  block_size = 512;
  inode_table_blocks = table_size blocks;
  inodes = table_size blocks * inodes_per_block;
  blocks = blocks;
  free_blocks_head = 2 + table_size blocks;
  free_inode_head = 2;
}

-- The block behind the nodes of the list of free blocks.
unfoldable pub first_free_block : Superblock → ℕ
first_free_block sb =
    let free_blocks = sb.blocks - sb.free_blocks_head in
    sb.free_blocks_head + free_blocks - free_blocks * 63 / 64

-- `memset(inode_arr + j, 0, ...)` and the number and the next free inode.
abbrev pub free_inode : (next_free : ℕ) → Inode
free_inode next_free = record {
  inumber = next_free - 1;
  mode = 0;
  uid = 0;
  gid = 0;
  links = 0;
  access_time = 0;
  modified_time = 0;
  change_time = 0;
  size = next_free;
  block_pointers = replicate n_blocks 0;
}

-- What the loop over the index carries: the node being filled, its next slot, and its contents.
pub record Index : Type 0 where
  pub node : ℕ
  pub position : ℕ
  pub contents : Buffer

-- `cur_index_block++; cur_index_block_pos = 0;` behind a full node.
unfoldable pub advance : Index → Index
advance x =
    if x.position == words_per_block then record x { node = x.node + 1; position = 0 } else x

-- The first word of a node: the next node, or 0 in the last.
unfoldable pub next_node : (first_free node : ℕ) → ℕ
next_node first_free node = if ltb node (first_free - 1) then node + 1 else 0

-- The pointer to the next node, where the node is new.
unfoldable pub begin_node : (first_free : ℕ) → Index → Index
begin_node first_free x =
    if x.position == 0
    then record x { contents = set_word x.contents 0 (next_node first_free x.node); position = 1 }
    else x

-- `free_index[cur_index_block_pos++] = i`
unfoldable pub add_entry : ℕ → Index → Index
add_entry i x = record x { contents = set_word x.contents x.position i; position = x.position + 1 }

module _ ⦃os : Os⦄ where
  -- `if (block_write(disk, k, b) != BLOCK_SIZE) return -1;`
  unfoldable pub put_block : ℕ → Buffer → Run os.State (Unit {0})
  put_block k b s =
      let (ret, s') = block_write k b s in if is_full ret then done tt s' else failed s'

  unfoldable pub size_or_fail : Option ℕ → Run os.State ℕ
  size_or_fail none s = failed s
  size_or_fail (some n) s = done n s

  -- `fstat`, and `st.st_size`.
  unfoldable pub fstat_size : Run os.State ℕ
  unfolding size_or_fail
  fstat_size s = let (size, s') = os.fstat s in size_or_fail size s'

  unfoldable pub current_time : Run os.State ℕ
  current_time s = let (t, s') = os.time s in done (t % 2 ^ 64) s'

  -- The root directory, in memory that holds `old`.
  abbrev pub root_inode : (time : ℕ) → (old : Inode) → Inode
  root_inode time old = record old {
    inumber = 1;
    mode = 0o40755;
    uid = os.getuid % 2 ^ 32;
    gid = os.getgid % 2 ^ 32;
    links = 1;
    access_time = time;
    modified_time = time;
    change_time = time;
    size = 0;
  }

  -- Slot `j` of block `i` of the table, with the block as it is and the next free inode.
  unfoldable pub table_slot : (i j : ℕ) → Buffer × ℕ → Run os.State (Buffer × ℕ)
  table_slot i j (b, next_free) =
      if i == 1 && j == 0
      then (do t ← current_time; pure (store_inode b 0 (root_inode t (load_inode b 0)), next_free))
      else pure (store_inode b j (free_inode next_free), next_free + 1)

  unfoldable pub table_slots : (rounds i j : ℕ) → Buffer × ℕ → Run os.State (Buffer × ℕ)
  table_slots zero i j x = pure x
  table_slots (suc rounds) i j x = do y ← table_slot i j x; table_slots rounds i (j + 1) y

  -- The blocks of the table from block `i` on.
  unfoldable pub table_blocks : (rounds i : ℕ) → Buffer × ℕ → Run os.State (Buffer × ℕ)
  table_blocks zero i x = pure x
  table_blocks (suc rounds) i x = do
    y ← table_slots inodes_per_block i 0 x
    put_block i y.0
    table_blocks rounds (i + 1) y

  -- A node that is full is written.
  unfoldable pub flush : Index → Run os.State (Unit {0})
  flush x = if x.position == words_per_block then put_block x.node x.contents else pure tt

  -- One round of the loop over the free blocks.
  unfoldable pub index_block : (first_free i : ℕ) → Index → Run os.State Index
  unfolding advance begin_node add_entry
  index_block first_free i x = do
    let x' = advance x
    assert (ltb x'.node first_free)
    let x'' = add_entry i (begin_node first_free x')
    flush x''
    pure x''

  unfoldable pub index_blocks : (rounds first_free i : ℕ) → Index → Run os.State Index
  index_blocks zero first_free i x = pure x
  index_blocks (suc rounds) first_free i x = do
    y ← index_block first_free i x
    index_blocks rounds first_free (i + 1) y

  -- The index of free blocks, over the buffer that the table has left.
  unfoldable pub format_index : Superblock → Buffer → Run os.State (Unit {0})
  format_index sb b = do
    let first_free = first_free_block sb
    x ←
        index_blocks (sb.blocks - first_free) first_free first_free
          (record { node = sb.free_blocks_head; position = 0; contents = b })
    assert (x.node == first_free - 1)

  -- `format_fs` on a disk file of that many blocks.
  unfoldable pub format_blocks : (blocks : ℕ) → Run os.State Superblock
  unfolding new_superblock
  format_blocks blocks = if ltb blocks 3 then fail else (do
    t ← current_time
    let sb = new_superblock blocks t
    (b, next_free) ← table_blocks sb.inode_table_blocks 1 (zeros, 3)
    format_index sb b
    put_block 0 (store_superblock zeros sb)
    pure sb)

  -- `format_fs`, which gives the superblock that it has written.
  unfoldable pub format_fs : Run os.State Superblock
  format_fs = do size ← fstat_size; format_blocks (size / 512)
