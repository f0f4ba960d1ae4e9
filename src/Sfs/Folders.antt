-- ===== src/Sfs/Folders.antt =====
-- src/sfs.c: `sfs_mkdir`, `sfs_rmdir`, `sfs_opendir`, `sfs_readdir` and `sfs_releasedir`.
use filesys.Prelude.{
  ℕ, ◌/◌, ◌%◌, ◌^◌, zero, suc, Bool, true, not, Option, none, some, List, [], ◌∷◌, ◌==◌,
  if◌then◌else◌,
}
use filesys.Outcome.{Run, done, aborted, pure, attempt, ◌>>=◌, ◌>>◌}
use filesys.Os.{Os}
use filesys.Fs.Layout.{Inode}
use filesys.Fs.State.{time_now}
use filesys.Fs.Inode.{read_inode, write_inode}
use filesys.Fs.InodeAlloc.{Stat, inode_to_stat}
use filesys.Dir.Entry.{entry_inumber, entry_name, same_name}
use filesys.Dir.Iterate.{
  DirIterator, Next, found, null, less_links, dir_root, dir_iterate, dir_iternext,
}
use filesys.Sfs.State.{
  Code, value, minus_one, minus, enoent, enotdir, str_eq, root_path, Sfs, lock, leave, lift,
  find_fd,
}
use filesys.Sfs.Files.{count_open, leave_open, release_fd}

-- `sfs_mkdir`
unfoldable pub mkdir : List ℕ → (mode : ℕ) → Code
mkdir path mode = value 0

-- `sfs_rmdir`
unfoldable pub rmdir : List ℕ → Code
rmdir path = if str_eq path root_path then minus_one else value 0

-- `S_ISDIR(mode)`: the file type is that of a directory.
unfoldable pub is_folder_mode : ℕ → Bool
is_folder_mode mode = mode / 2 ^ 12 % 16 == 4

-- `strsep(&s, "/")`: the token, and what is left if a delimiter ended it.
unfoldable pub strsep : List ℕ → List ℕ × Option (List ℕ)
strsep [] = ([], none)
strsep (c ∷ s) =
    let (token, rest) = strsep s in if c == b'/' then ([], some s) else (c ∷ token, rest)

-- What the calls of the filler have put in the buffer of `sfs_readdir`, the last one first.
abbrev pub Filled : Type 0
Filled = List (List ℕ × Option Stat)

abbrev pub stat_of : Option Inode → Option Stat
stat_of none = none
stat_of (some inode) = some (inode_to_stat inode)

module _ ⦃os : Os⦄ where
  -- A return without SFS_UNLOCK_OR_FAIL.
  unfoldable pub leave_locked : {A : Type 0} → A → Run Sfs A
  leave_locked r s = done r s

  -- `sfs_dir_iterate`, whose NULL the handler passes on to `sfs_dir_iternext`, which then reads
  -- through it.
  unfoldable pub iterate_or_crash : Inode → Run Sfs DirIterator
  iterate_or_crash directory = attempt (lift (dir_iterate directory)) (λ it. pure it) (λ s. aborted)

  -- The directory is found: one link more, and a descriptor for it.
  unfoldable pub open_folder : (flags inumber : ℕ) → Inode → Run Sfs (Code × Option ℕ)
  open_folder flags inumber entry =
      if not (is_folder_mode entry.mode)
      then leave_locked (minus enotdir, none)
      else attempt (count_open inumber) (λ directory. leave_open directory.inumber flags)
          (leave (minus_one, none))

  -- An entry of the name looked for: the directory is found when the path ends, and is searched for
  -- the path's next name otherwise.
  unfoldable pub descend :
      (flags inumber : ℕ)
      → Inode
      → Option (List ℕ)
      → (Inode → List ℕ → Option (List ℕ) → DirIterator → Run Sfs (Code × Option ℕ))
      → Run Sfs (Code × Option ℕ)
  descend flags inumber entry none next = open_folder flags inumber entry
  descend flags inumber entry (some path) next = do
    it ← iterate_or_crash entry
    next entry (strsep path).0 (strsep path).1 it

  -- One round of the loop of `sfs_opendir`, which asks for the inode of each entry.
  unfoldable pub opendir_round :
      (flags : ℕ)
      → Inode
      → List ℕ
      → Option (List ℕ)
      → Next
      → (Inode → List ℕ → Option (List ℕ) → DirIterator → Run Sfs (Code × Option ℕ))
      → Run Sfs (Code × Option ℕ)
  opendir_round flags directory token path (null it) next = leave_open directory.inumber flags
  opendir_round flags directory token path (found position none it) next = λ s. aborted
  opendir_round flags directory token path (found position (some entry) it) next =
      if same_name 256 (entry_name it.cached_block position) token
      then descend flags (entry_inumber it.cached_block position) entry path next
      else next directory token path it

  -- A directory has at most 76 blocks of one entry each, and each name of a path takes one of its
  -- characters.
  unfoldable pub opendir_loop :
      (fuel flags : ℕ) → Inode → List ℕ → Option (List ℕ) → DirIterator → Run Sfs (Code × Option ℕ)
  opendir_loop zero flags directory token path it s = aborted
  opendir_loop (suc fuel) flags directory token path it s =
      (do
        n ← lift (dir_iternext true it)
        opendir_round flags directory token path n (opendir_loop fuel flags))
        s

  -- The path's first name is the empty one before its "/".
  unfoldable pub opendir_from :
      (flags : ℕ) → Inode → List ℕ × Option (List ℕ) → Run Sfs (Code × Option ℕ)
  opendir_from flags directory (c ∷ token, path) = leave_locked (minus_one, none)
  opendir_from flags directory ([], path) = do
    it ← iterate_or_crash directory
    opendir_loop 240 flags directory [] path it

  -- `sfs_opendir`
  unfoldable pub opendir : List ℕ → (flags : ℕ) → Run Sfs (Code × Option ℕ)
  opendir path flags = do
    lock
    (if not (str_eq path root_path)
        then leave_locked (minus enoent, none)
        else attempt (lift dir_root) (λ directory. opendir_from flags directory (strsep path))
            (leave (minus enoent, none)))

  -- The filler function: whether the buffer is full, from what it holds and what is to be put in.
  module _ (is_filled : Filled → List ℕ → Option Stat → Bool) where
    -- One call of the filler: `next` goes on with the buffer if there was room.
    unfoldable pub fill :
        Filled → List ℕ → Option Stat → (Filled → Run Sfs (Code × Filled)) → Run Sfs (Code × Filled)
    fill buf name stat next =
        if is_filled buf name stat then leave (value 0, buf) else next ((name, stat) ∷ buf)

    unfoldable pub readdir_round :
        Filled → Next → (Filled → DirIterator → Run Sfs (Code × Filled)) → Run Sfs (Code × Filled)
    readdir_round buf (null it) next = leave (value 0, buf)
    readdir_round buf (found position entry it) next =
        fill buf (entry_name it.cached_block position) (stat_of entry) λ buf'. next buf' it

    unfoldable pub readdir_loop : (fuel : ℕ) → Filled → DirIterator → Run Sfs (Code × Filled)
    readdir_loop zero buf it s = aborted
    readdir_loop (suc fuel) buf it s =
        (do n ← lift (dir_iternext true it); readdir_round buf n (readdir_loop fuel)) s

    -- `sfs_readdir`, with what the buffer then holds.
    unfoldable pub readdir : List ℕ → Run Sfs (Code × Filled)
    readdir path = do
      lock
      (if not (str_eq path root_path)
          then leave (minus_one, [])
          else attempt (lift dir_root)
              (λ directory. fill [] (b'.' ∷ []) none λ buf.
                fill buf (b'.' ∷ b'.' ∷ []) none
                  λ buf'. do it ← iterate_or_crash directory; readdir_loop 80 buf' it)
              (leave (minus_one, [])))

  -- `--inode.links` and the new `change_time`, without a check of the count.
  unfoldable pub close_folder : ℕ → Run Sfs (Unit {0})
  close_folder inumber = do
    inode ← lift (read_inode inumber)
    now ← lift time_now
    lift (write_inode (record (less_links inode) { change_time = now }))

  -- `sfs_releasedir`
  unfoldable pub releasedir : (fh : ℕ) → Run Sfs Code
  releasedir fh = do lock; λ s. release_fd close_folder (find_fd fh s) s
