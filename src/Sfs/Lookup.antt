-- ===== src/Sfs/Lookup.antt =====
-- src/sfs.c: what `sfs_getattr`, `sfs_create`, `sfs_unlink` and `sfs_open` begin with: the checks of
-- the path, the root directory, and the search for a name in it. And `sfs_getattr`.
use filesys.Prelude.{ℕ, zero, suc, false, not, Option, none, some, List, length, ltb, if◌then◌else◌}
use filesys.Outcome.{Run, aborted, pure, attempt, ◌>>=◌, ◌>>◌}
use filesys.Os.{Os}
use filesys.Fs.Layout.{Inode}
use filesys.Fs.State.{Filesystem}
use filesys.Fs.Inode.{read_inode}
use filesys.Fs.InodeAlloc.{Stat, inode_to_stat}
use filesys.Dir.Entry.{entry_inumber, entry_name, same_name}
use filesys.Dir.Iterate.{DirIterator, Next, found, null, dir_root, dir_iterate, dir_iternext}
use filesys.Sfs.State.{
  Code, value, minus_one, minus, enoent, enametoolong, Libgen, str_eq, root_path, Sfs, lock, leave,
  lift,
}

module _ ⦃os : Os⦄ where
  -- One round of the search: the iterator with the position of the entry of that name, or with
  -- `none` at the end of the directory.
  unfoldable pub match_entry :
      List ℕ
      → Next
      → (DirIterator → Run Filesystem (DirIterator × Option ℕ))
      → Run Filesystem (DirIterator × Option ℕ)
  match_entry name (null it) next = pure (it, none)
  match_entry name (found position _ it) next =
      if same_name 256 (entry_name it.cached_block position) name
      then pure (it, some position)
      else next it

  -- `while ((iter = sfs_dir_iternext(iter, &direntry, NULL)) != NULL)` up to the name, on fuel.
  unfoldable pub find_loop :
      (fuel : ℕ) → List ℕ → DirIterator → Run Filesystem (DirIterator × Option ℕ)
  find_loop zero name it fs = aborted
  find_loop (suc fuel) name it fs =
      (do n ← dir_iternext false it; match_entry name n (find_loop fuel name)) fs

  -- A directory has at most 76 blocks of one entry each.
  unfoldable pub find_entry : List ℕ → DirIterator → Run Filesystem (DirIterator × Option ℕ)
  find_entry name it = find_loop 80 name it

  -- The search for the name in the directory; a failure of `malloc` gives -1.
  unfoldable pub search_root :
      {A : Type 0}
      → A
      → Inode
      → List ℕ
      → (DirIterator → Option ℕ → Run Sfs (Code × A))
      → Run Sfs (Code × A)
  search_root unset directory name next =
      attempt (lift (dir_iterate directory))
        (λ it. do (it', position) ← lift (find_entry name it); next it' position)
        (leave (minus_one, unset))

  -- The attributes of the entry that the search has found.
  unfoldable pub stat_entry : DirIterator → Option ℕ → Run Sfs (Code × Option Stat)
  stat_entry it none = leave (minus enoent, none)
  stat_entry it (some position) =
      attempt (lift (read_inode (entry_inumber it.cached_block position)))
        (λ file. leave (value 0, some (inode_to_stat file))) (leave (minus_one, none))

  module _ (libgen : Libgen) where
    -- The checks of the path, and the root directory with the name to look for in it. A handler
    -- returns a code, and what it writes through its pointers.
    unfoldable pub with_root :
        {A : Type 0} → List ℕ → A → (Inode → List ℕ → Run Sfs (Code × A)) → Run Sfs (Code × A)
    with_root path unset next =
        if not (str_eq (libgen.dirname path) root_path)
        then leave (minus enoent, unset)
        else (if ltb 255 (length (libgen.basename path))
            then leave (minus enametoolong, unset)
            else attempt (lift dir_root) (λ directory. next directory (libgen.basename path))
                (leave (minus enoent, unset)))

    -- `sfs_getattr`, which also gives what it writes to `statbuf`.
    unfoldable pub getattr : List ℕ → Run Sfs (Code × Option Stat)
    getattr path = do
      lock
      with_root path none λ directory name.
          if str_eq path root_path
          then leave (value 0, some (inode_to_stat directory))
          else search_root none directory name stat_entry
