-- ===== src/Sfs/Transfer.antt =====
-- src/sfs.c: `sfs_read` and `sfs_write`. The memory of the process is one array of cells, the
-- caller's buffer begins at `buf`, and the block buffer of the handler, `tmp_block`, stands apart with
-- whatever the stack held. An address is a number, and a buffer does not begin below address 512. A
-- size is less than 2^31, so that it is itself as an `int`. What a read that fails has written is not
-- modelled.
pub mod Spans
pub mod Laws
pub mod Files
pub mod Handler
pub mod Writes
pub mod Overwrite
pub mod RoundTrip
use filesys.Prelude.{
  ℕ, zero, suc, ◌+◌, ◌-◌, ◌*◌, ◌/◌, ◌%◌, ◌^◌, Bool, Option, none, some, not, ltb, leb, ◌==◌, ◌&&◌,
  if◌then◌else◌,
}
use filesys.Bytes.{Buffer}
use filesys.Outcome.{◌>>=◌, Run, aborted, pure, attempt, ◌>>◌}
use filesys.Os.{Os}
use filesys.Fs.Layout.{Inode}
use filesys.Fs.State.{Filesystem, time_now}
use filesys.Fs.Inode.{read_inode, write_inode}
use filesys.Fs.BlockMap.{inode_block_read, inode_block_write}
use filesys.Sfs.State.{Code, value, minus_one, Sfs, lock, leave, lift, find_fd, slot_inumber}

-- `memcpy(memory + to, from, n)`
unfoldable pub copy : (memory : Buffer) → (to n : ℕ) → (from : Buffer) → Buffer
copy memory to n from a = if leb to a && ltb a (to + n) then from (a - to) else memory a

-- The blocks that a transfer touches.
pub record Span : Type 0 where
  pub first_block : ℕ
  pub first_block_offset : ℕ
  pub last_block : ℕ
  pub last_block_len : ℕ

-- `offset + size` is an unsigned sum of 64 bits.
unfoldable pub span : (size offset : ℕ) → Span
span size offset =
    let end = (offset + size) % 2 ^ 64 in
    let len = if end % 512 == 0 then 512 else end % 512 in
    record {
      first_block = offset / 512;
      first_block_offset = offset % 512;
      last_block = if len == 512 then (end / 512 + (2 ^ 64 - 1)) % 2 ^ 64 else end / 512;
      last_block_len = len;
    }

-- The number of rounds of `for (iblock = first_block; iblock <= last_block; ++iblock)`.
abbrev pub rounds_of : Span → ℕ
rounds_of p = p.last_block + 1 - p.first_block

unfoldable pub slice_a : Span → (iblock : ℕ) → ℕ
slice_a p iblock =
    if iblock == p.first_block && not (p.first_block_offset == 0) then p.first_block_offset else 0

unfoldable pub slice_b : Span → (iblock : ℕ) → ℕ
slice_b p iblock =
    if iblock == p.last_block && not (p.last_block_len == 512) then p.last_block_len else 512

-- `buf + n`, where `first_block_offset` has been taken from `buf`.
unfoldable pub address : Span → (buf n : ℕ) → ℕ
address p buf n = buf + n - p.first_block_offset

-- Whether block `iblock` is transferred whole, straight from or to the caller's memory.
unfoldable pub is_whole : Span → (iblock : ℕ) → Bool
unfolding slice_a slice_b
is_whole p iblock = slice_a p iblock == 0 && slice_b p iblock == 512

-- The memory after block `iblock` of the file, `b`, has been read.
unfoldable pub deliver : Span → (buf iblock : ℕ) → Buffer → (memory : Buffer) → Buffer
unfolding slice_a slice_b address is_whole
deliver p buf iblock b memory =
    if is_whole p iblock
    then copy memory (address p buf (iblock * 512)) 512 b
    else (if slice_a p iblock == 0 && not (slice_b p iblock == 512)
        then copy memory (address p buf (slice_a p iblock)) (slice_b p iblock - slice_a p iblock) b
        else memory)

module _ ⦃os : Os⦄ where
  -- The loop of `sfs_read` from block `iblock` on: the memory after it.
  unfoldable pub read_blocks :
      (rounds iblock : ℕ) → Span → (buf : ℕ) → Inode → (memory : Buffer) → Run Filesystem Buffer
  read_blocks zero iblock p buf inode memory = pure memory
  read_blocks (suc rounds) iblock p buf inode memory = do
    b ← inode_block_read inode iblock
    read_blocks rounds (iblock + 1) p buf inode (deliver p buf iblock b memory)

  -- `tmp_block` and what is written to the file as block `iblock`: the caller's memory, or
  -- `tmp_block`, into which the block is first read and then overwritten if the write ends in it.
  unfoldable pub source :
      Span → (buf iblock : ℕ) → (memory tmp : Buffer) → Inode → Run Filesystem (Buffer × Buffer)
  source p buf iblock memory tmp inode =
      if slice_a p iblock == 0 && not (slice_b p iblock == 512)
      then (do
        b ← inode_block_read inode iblock
        let tmp' =
            copy b (slice_a p iblock) (slice_b p iblock - slice_a p iblock)
              (λ i. memory (address p buf (slice_a p iblock) + i))
        pure (tmp', tmp'))
      else (if is_whole p iblock
          then pure (tmp, λ i. memory (address p buf (iblock * 512) + i))
          else pure (tmp, tmp))

  -- The loop of `sfs_write` from block `iblock` on.
  unfoldable pub write_blocks :
      (rounds iblock : ℕ)
      → Span
      → (buf : ℕ) → (memory tmp : Buffer) → Inode
      → Run Filesystem (Unit {0})
  write_blocks zero iblock p buf memory tmp inode = pure tt
  write_blocks (suc rounds) iblock p buf memory tmp inode = do
    (tmp', block) ← source p buf iblock memory tmp inode
    inode' ← inode_block_write inode iblock block
    write_blocks rounds (iblock + 1) p buf memory tmp' inode'

  -- `sfs_read` of the inode of an open file.
  unfoldable pub read_data :
      (inumber buf size offset : ℕ) → (memory : Buffer) → Run Filesystem Buffer
  read_data inumber buf size offset memory = do
    inode ← read_inode inumber
    now ← time_now
    let inode' = record inode { access_time = now }
    write_inode inode'
    let p = span size offset
    read_blocks (rounds_of p) p.first_block p buf inode' memory

  -- The inode of a file that is written: its access time, and its size if the write ends behind it.
  unfoldable pub extend : (end : ℕ) → Inode → Run Filesystem Inode
  extend end inode =
      if ltb inode.size end
      then (do now ← time_now; pure (record inode { change_time = now; size = end }))
      else pure inode

  -- `sfs_write` of the inode of an open file.
  unfoldable pub write_data :
      (inumber buf size offset : ℕ) → (memory tmp : Buffer) → Run Filesystem (Unit {0})
  write_data inumber buf size offset memory tmp = do
    inode ← read_inode inumber
    now ← time_now
    inode' ← extend ((offset + size) % 2 ^ 64) (record inode { access_time = now })
    write_inode inode'
    let p = span size offset
    write_blocks (rounds_of p) p.first_block p buf memory tmp inode'

  -- What a transfer does with the inumber of a descriptor; that of a slot which is not in use is not
  -- defined, and stands as `aborted`.
  unfoldable pub transfer_at :
      {A B : Type 0} → (ℕ → Run Filesystem A) → (A → Code × B) → B → Option ℕ → Run Sfs (Code × B)
  transfer_at m result unset none s = aborted
  transfer_at m result unset (some inumber) s =
      attempt (lift (m inumber)) (λ a. leave (result a)) (leave (minus_one, unset)) s

  unfoldable pub transfer_fd :
      {A B : Type 0} → (ℕ → Run Filesystem A) → (A → Code × B) → B → Option ℕ → Run Sfs (Code × B)
  transfer_fd m result unset none s = leave (minus_one, unset) s
  transfer_fd m result unset (some a) s =
      transfer_at m result unset (slot_inumber (s.pool.slot a)) s

  -- `sfs_read`, with the memory after a call that has read something.
  unfoldable pub read :
      (fh buf size offset : ℕ) → (memory : Buffer) → Run Sfs (Code × Option Buffer)
  read fh buf size offset memory = do
    lock
    (if size == 0 then leave (value 0, none) else λ s.
        transfer_fd (λ inumber. read_data inumber buf size offset memory)
          (λ m. (value size, some m)) none (find_fd fh s) s)

  -- `sfs_write`
  unfoldable pub write :
      (fh buf size offset : ℕ) → (memory tmp : Buffer) → Run Sfs (Code × Unit {0})
  write fh buf size offset memory tmp = do
    lock
    (if size == 0 then leave (value 0, tt) else λ s.
        transfer_fd (λ inumber. write_data inumber buf size offset memory tmp)
          (λ _. (value size, tt)) tt (find_fd fh s) s)
