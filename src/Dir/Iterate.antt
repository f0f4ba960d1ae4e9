-- ===== src/Dir/Iterate.antt =====
-- src/dir.c: `sfs_dir_root`, the iterator over the entries of a directory, and
-- `sfs_dir_iter_unlink`. The iterator points to the caller's inode, so it comes back with it.
use filesys.Prelude.{
  ℕ, zero, suc, ◌+◌, ◌-◌, ◌*◌, ◌/◌, ◌%◌, ◌^◌, Bool, true, false, not, Option, none, some, leb, ◌==◌,
  if◌then◌else◌,
}
use filesys.Bytes.{Buffer, zeros}
use filesys.Outcome.{Run, done, failed, aborted, pure, assert, attempt, ◌>>=◌, ◌>>◌}
use filesys.Os.{Os}
use filesys.Fs.Layout.{Inode}
use filesys.Fs.State.{Filesystem, time_now}
use filesys.Fs.Inode.{read_inode, write_inode}
use filesys.Fs.InodeAlloc.{inode_deallocate}
use filesys.Fs.Blocks.{first_from}
use filesys.Fs.BlockMap.{inode_block_read, inode_block_write}
use filesys.Dir.Entry.{entries_per_block, entry_inumber, set_entry_inumber}

-- `struct dir_iterator`
pub record DirIterator : Type 0 where
  pub inode : Inode
  pub iblock : ℕ
  pub entry : ℕ
  pub cached_block : Buffer

-- What `sfs_dir_iternext` returns: the iterator with the position of the entry in its block and the
-- entry's inode, if that was asked for; or NULL, with the iterator as it was freed.
pub data Next : Type 0 where
  found : (position : ℕ) → (entry_inode : Option Inode) → DirIterator → Next
  null : DirIterator → Next

-- `++inode.links` and `--inode.links` on a `uint32_t`.
abbrev pub more_links : Inode → Inode
more_links inode = record inode { links = (inode.links + 1) % 2 ^ 32 }

abbrev pub less_links : Inode → Inode
less_links inode = record inode { links = (inode.links + (2 ^ 32 - 1)) % 2 ^ 32 }

-- `(mode & S_IFDIR) != 0`
unfoldable pub is_dir_mode : ℕ → Bool
is_dir_mode mode = not (mode / 2 ^ 14 % 2 == 0)

module _ ⦃os : Os⦄ where
  -- `sfs_dir_root`
  unfoldable pub dir_root : Run Filesystem Inode
  dir_root = read_inode 1

  unfoldable pub malloc : Run Filesystem (Unit {0})
  malloc fs =
      let (given, s) = os.malloc fs.os_state in
      let fs' = record fs { os_state = s } in if given then done tt fs' else failed fs'

  -- `sfs_dir_iterate`
  unfoldable pub dir_iterate : Inode → Run Filesystem DirIterator
  dir_iterate inode = do
    assert (is_dir_mode inode.mode)
    malloc
    pure (record { inode = inode; iblock = 0; entry = 0; cached_block = zeros })

  -- Read the iterator's block and touch the directory's access time.
  unfoldable pub load_block :
      DirIterator → (DirIterator → Run Filesystem Next) → Run Filesystem Next
  load_block it next =
      attempt (inode_block_read it.inode it.iblock)
        (λ b. do
          now ← time_now
          let it' = record it { cached_block = b; inode = record it.inode { access_time = now } }
          attempt (write_inode it'.inode) (λ _. next it') (pure (null it')))
        (pure (null it))

  -- Return the entry at `position`, with its inode read if that was asked for.
  unfoldable pub give_entry : (want_inode : Bool) → ℕ → DirIterator → Run Filesystem Next
  give_entry false position it = pure (found position none (record it { entry = position + 1 }))
  give_entry true position it =
      attempt (read_inode (entry_inumber it.cached_block position))
        (λ inode. pure (found position (some inode) (record it { entry = position + 1 })))
        (pure (null it))

  -- The next used entry of the cached block, or the blocks behind it.
  unfoldable pub scan_block :
      (want_inode : Bool)
      → Option ℕ
      → DirIterator
      → (DirIterator → Run Filesystem Next)
      → Run Filesystem Next
  scan_block want_inode (some position) it next = give_entry want_inode position it
  scan_block want_inode none it next = next (record it { iblock = it.iblock + 1; entry = 0 })

  -- The first used entry from `it.entry` on.
  unfoldable pub used_entry : DirIterator → Option ℕ
  used_entry it =
      first_from (entries_per_block - it.entry) it.entry
        (λ e. not (entry_inumber it.cached_block e == 0))

  -- The `while (true)` of `sfs_dir_iternext`, on fuel.
  unfoldable pub iter_loop : (fuel : ℕ) → (want_inode : Bool) → DirIterator → Run Filesystem Next
  iter_loop zero want_inode it fs = aborted
  iter_loop (suc fuel) want_inode it fs =
      let scan = λ (it' : DirIterator).
        scan_block want_inode (used_entry it') it' (iter_loop fuel want_inode) in
      if leb it.inode.size (it.iblock * 512 % 2 ^ 64)
      then done (null it) fs
      else (if it.entry == 0 then load_block it scan fs else scan it fs)

  -- `sfs_dir_iternext`. No file has a block 76, so a walk ends within 78 rounds.
  unfoldable pub dir_iternext : (want_inode : Bool) → DirIterator → Run Filesystem Next
  dir_iternext want_inode it = iter_loop 78 want_inode it

  -- The inode loses a link, and is deallocated with its last.
  unfoldable pub drop_link : Inode → Run Filesystem (Unit {0})
  drop_link inode = if inode.links == 0 then inode_deallocate inode else write_inode inode

  -- `sfs_dir_iter_unlink` of the entry at `position`.
  unfoldable pub dir_iter_unlink : DirIterator → ℕ → Run Filesystem (Unit {0})
  dir_iter_unlink it position = do
    inode ← read_inode (entry_inumber it.cached_block position)
    now ← time_now
    drop_link (record (less_links inode) { change_time = now })
    later ← time_now
    let directory = record it.inode { modified_time = later }
    write_inode directory
    inode_block_write directory it.iblock (set_entry_inumber it.cached_block position 0)
    pure tt
