-- ===== src/Sfs/Files.antt =====
-- src/sfs.c: `sfs_create`, `sfs_unlink`, `sfs_open` and `sfs_release`. Where the source goes on after
-- a search that came to nothing, `position` is `none`: the entries that an iterator gives have an
-- inumber other than 0.
use filesys.Prelude.{
  ℕ, zero, suc, ◌+◌, ◌*◌, ◌/◌, ◌%◌, ◌^◌, Option, none, some, List, ltb, ◌==◌, ◌&&◌, replicate,
  if◌then◌else◌,
}
use filesys.Outcome.{Run, aborted, pure, assert, attempt, ◌>>=◌, ◌>>◌}
use filesys.Os.{Os}
use filesys.Fs.Layout.{Inode, n_blocks}
use filesys.Fs.State.{time_now}
use filesys.Fs.Inode.{read_inode, write_inode}
use filesys.Fs.InodeAlloc.{inode_allocate, inode_deallocate}
use filesys.Filedescriptor.{free_fd}
use filesys.Dir.Entry.{entry_inumber}
use filesys.Dir.Iterate.{DirIterator, more_links, less_links, dir_iter_unlink}
use filesys.Dir.Link.{dir_link}
use filesys.Sfs.State.{
  Code, value, minus_one, minus, enoent, eexist, edquot, enomem, eacces, Libgen, str_eq, root_path,
  slot_inumber, Sfs, lock, leave, lift, open_fd, find_fd,
}
use filesys.Sfs.Lookup.{with_root, search_root}

-- `fuse_get_context()`: the caller's ids and file mode mask.
pub record Caller : Type 0 where
  pub uid : ℕ
  pub gid : ℕ
  pub umask : ℕ

-- The lowest `w` bits of `n & ~mask`.
unfoldable pub and_not : (w n mask : ℕ) → ℕ
and_not zero n mask = 0
and_not (suc w) n mask =
    let rest = and_not w (n / 2) (mask / 2) in
    if n % 2 == 1 && mask % 2 == 0 then 1 + 2 * rest else 2 * rest

-- `(((1 << 12) - 1) & mode & ~umask) | S_IFREG`
abbrev pub regular_mode : (mode umask : ℕ) → ℕ
regular_mode mode umask = 2 ^ 15 + and_not 12 mode umask

module _ ⦃os : Os⦄ where
  -- `++file.links` and the new `change_time`, in the table: the file's inode.
  unfoldable pub count_open : ℕ → Run Sfs Inode
  count_open inumber = do
    file ← lift (read_inode inumber)
    now ← lift time_now
    let file' = record (more_links file) { change_time = now }
    lift (write_inode file')
    pure file'

  -- A descriptor for the inode as the handler's result.
  unfoldable pub leave_open : (inumber flags : ℕ) → Run Sfs (Code × Option ℕ)
  leave_open inumber flags =
      attempt (open_fd inumber flags) (λ fh. leave (value 0, some fh)) (leave (minus enomem, none))

  -- What `sfs_create` writes to the inode it has allocated.
  abbrev pub new_inode : Caller → (mode now₁ now₂ now₃ : ℕ) → (directory file : Inode) → Inode
  new_inode caller mode now₁ now₂ now₃ directory file = record file {
    mode = regular_mode mode caller.umask;
    uid = caller.uid;
    gid = if directory.mode / 2 ^ 10 % 2 == 1 then file.gid else caller.gid;
    links = 1;
    access_time = now₁;
    modified_time = now₂;
    change_time = now₃;
    size = 0;
    block_pointers = replicate n_blocks 0;
  }

  unfoldable pub new_file : Caller → (mode : ℕ) → Inode → List ℕ → Inode → Run Sfs (Unit {0})
  new_file caller mode directory name file = do
    now₁ ← lift time_now
    now₂ ← lift time_now
    now₃ ← lift time_now
    let file' = new_inode caller mode now₁ now₂ now₃ directory file
    lift (write_inode file')
    linked ← lift (dir_link directory name file')
    pure tt

  -- The end of `sfs_create`, behind its search: the iterator points to the handler's copy of
  -- the directory, whose access time it has set.
  unfoldable pub create_at :
      Caller → (mode flags : ℕ) → List ℕ → DirIterator → Option ℕ → Run Sfs (Code × Option ℕ)
  create_at caller mode flags name it (some position) =
      if flags / 2 ^ 7 % 2 == 1
      then leave (minus eexist, none)
      else (let inumber = entry_inumber it.cached_block position in
          attempt (count_open inumber) (λ file. leave_open inumber flags) (leave (minus_one, none)))
  create_at caller mode flags name it none =
      attempt (lift inode_allocate)
        (λ file.
          attempt (new_file caller mode it.inode name file) (λ _. leave_open file.inumber flags)
            (leave (minus_one, none)))
        (leave (minus edquot, none))

  -- The end of `sfs_open`.
  unfoldable pub open_at : (flags : ℕ) → DirIterator → Option ℕ → Run Sfs (Code × Option ℕ)
  open_at flags it none = leave (minus enoent, none)
  open_at flags it (some position) =
      attempt (count_open (entry_inumber it.cached_block position))
        (λ file. leave_open file.inumber flags) (leave (minus_one, none))

  -- The end of `sfs_unlink`.
  unfoldable pub unlink_at : DirIterator → Option ℕ → Run Sfs (Code × Unit {0})
  unlink_at it none = leave (minus enoent, tt)
  unlink_at it (some position) =
      attempt (lift (dir_iter_unlink it position)) (λ _. leave (value 0, tt))
        (leave (minus_one, tt))

  module _ (libgen : Libgen) where
    -- `sfs_create`, with what it writes to `fi->fh`.
    unfoldable pub create : Caller → List ℕ → (mode flags : ℕ) → Run Sfs (Code × Option ℕ)
    create caller path mode flags = do
      lock
      with_root libgen path none
          λ directory name. search_root none directory name (create_at caller mode flags name)

    -- `sfs_open`
    unfoldable pub open_file : List ℕ → (flags : ℕ) → Run Sfs (Code × Option ℕ)
    open_file path flags = do
      lock
      with_root libgen path none λ directory name. search_root none directory name (open_at flags)

    -- `sfs_unlink`
    unfoldable pub unlink : List ℕ → Run Sfs (Code × Unit {0})
    unlink path = do
      lock
      with_root libgen path tt λ directory name.
          if str_eq path root_path
          then leave (minus eacces, tt)
          else search_root tt directory name unlink_at

  -- `--inode.links` and the new `change_time`; without links the inode is given back.
  unfoldable pub close_inode : ℕ → Run Sfs (Unit {0})
  close_inode inumber = do
    inode ← lift (read_inode inumber)
    assert (ltb 0 inode.links)
    now ← lift time_now
    let inode' = record (less_links inode) { change_time = now }
    if inode'.links == 0 then lift (inode_deallocate inode') else lift (write_inode inode')

  -- `sfs_filedescriptor_free(sfs_data->fd_pool, fd)`
  unfoldable pub give_back_fd : ℕ → Run Sfs Code
  give_back_fd a s = leave (value 0) (record s { pool = free_fd a s.pool })

  -- The end of a release: `close` on the inode of the descriptor at `a`. What the source does on the
  -- inumber of a slot that is not in use is not defined, and stands as `aborted`.
  unfoldable pub release_at : (close : ℕ → Run Sfs (Unit {0})) → ℕ → Option ℕ → Run Sfs Code
  release_at close a none s = aborted
  release_at close a (some inumber) s =
      attempt (close inumber) (λ _. give_back_fd a) (leave minus_one) s

  unfoldable pub release_fd : (close : ℕ → Run Sfs (Unit {0})) → Option ℕ → Run Sfs Code
  release_fd close none s = leave minus_one s
  release_fd close (some a) s = release_at close a (slot_inumber (s.pool.slot a)) s

  -- `sfs_release`
  unfoldable pub release : (fh : ℕ) → Run Sfs Code
  release fh = do lock; λ s. release_fd close_inode (find_fd fh s) s
