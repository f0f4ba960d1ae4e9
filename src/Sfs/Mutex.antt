-- ===== src/Sfs/Mutex.antt =====
-- The mutex of `struct sfs_state`: which handlers give it back.
use filesys.Prelude.{
  ℕ, zero, suc, ◌%◌, ◌^◌, ◌≡◌, refl, Bool, true, false, not, Option, none, some, List, ◌==◌, ◌/◌,
}
use filesys.Outcome.{Run, done, aborted, ◌>>◌}
use filesys.Os.{Os}
use filesys.Fs.Layout.{Inode}
use filesys.Dir.Entry.{entry_inumber}
use filesys.Dir.Iterate.{DirIterator, Next, found, null, dir_iternext, dir_root}
use filesys.Fs.InodeAlloc.{Stat}
use filesys.Sfs.State.{
  Code, minus, enoent, Libgen, Sfs, lock, lift, str_eq, root_path, find_fd, slot_inumber,
}
use filesys.Sfs.Lookup.{stat_entry, getattr}
use filesys.Sfs.Files.{
  Caller, create, create_at, open_at, open_file, unlink_at, unlink, release, release_fd, release_at,
  give_back_fd, close_inode, leave_open,
}
use filesys.Sfs.Folders.{
  releasedir, close_folder, Filled, fill, readdir_round, readdir_loop, readdir, iterate_or_crash,
  opendir, leave_locked,
}
use filesys.Outcome.Exits.{Exits, exits, stops, Exits-attempt, Exits-bind, Exits-if_run}
use filesys.Dir.NeverFails.{dir_iternext-NeverFails}
use filesys.Sfs.Mutex.Steps.{
  Released, Releases, leave-Releases, Exits-lift, lock-Releases, with_root-Releases,
  search_root-Releases,
}
pub mod Steps

module _ ⦃os : Os⦄ where
  stat_entry-Releases : (it : DirIterator) (o : Option ℕ) → Releases (stat_entry it o)
  unfolding stat_entry
  stat_entry-Releases it none = leave-Releases _
  stat_entry-Releases it (some position) =
      Exits-attempt _ (λ file. leave-Releases _) (leave-Releases _)

  leave_open-Releases : (inumber flags : ℕ) → Releases (leave_open inumber flags)
  unfolding leave_open
  leave_open-Releases inumber flags = Exits-attempt _ (λ fh. leave-Releases _) (leave-Releases _)

  create_at-Releases :
      (caller : Caller) (mode flags : ℕ) (name : List ℕ) (it : DirIterator) (o : Option ℕ)
      → Releases (create_at caller mode flags name it o)
  unfolding create_at
  create_at-Releases caller mode flags name it none =
      Exits-attempt _
        (λ file. Exits-attempt _ (λ _. leave_open-Releases file.inumber flags) (leave-Releases _))
        (leave-Releases _)
  create_at-Releases caller mode flags name it (some position) =
      Exits-if_run (flags / 2 ^ 7 % 2 == 1) (leave-Releases _) (
        Exits-attempt _ (λ file. leave_open-Releases (entry_inumber it.cached_block position) flags)
          (leave-Releases _))

  open_at-Releases : (flags : ℕ) (it : DirIterator) (o : Option ℕ) → Releases (open_at flags it o)
  unfolding open_at
  open_at-Releases flags it none = leave-Releases _
  open_at-Releases flags it (some position) =
      Exits-attempt _ (λ file. leave_open-Releases file.inumber flags) (leave-Releases _)

  unlink_at-Releases : (it : DirIterator) (o : Option ℕ) → Releases (unlink_at it o)
  unfolding unlink_at
  unlink_at-Releases it none = leave-Releases _
  unlink_at-Releases it (some position) = Exits-attempt _ (λ _. leave-Releases _) (leave-Releases _)

  release_at-Releases :
      (close : ℕ → Run Sfs (Unit {0})) (a : ℕ) (o : Option ℕ) → Releases (release_at close a o)
  unfolding release_at give_back_fd
  release_at-Releases close a none s = stops
  release_at-Releases close a (some inumber) s =
      Exits-attempt (close inumber) (λ _ s'. leave-Releases _ _) (leave-Releases _) s

  release_fd-Releases :
      (close : ℕ → Run Sfs (Unit {0})) (o : Option ℕ) → Releases (release_fd close o)
  unfolding release_fd
  release_fd-Releases close none s = leave-Releases _ s
  release_fd-Releases close (some a) s =
      release_at-Releases close a (slot_inumber (s.pool.slot a)) s

  iterate_or_crash-NeverFails :
      (directory : Inode) (s : Sfs) → Exits (λ _. Unit {0}) (iterate_or_crash directory s)
  unfolding iterate_or_crash
  iterate_or_crash-NeverFails directory = Exits-attempt _ (λ it s. exits tt) λ s. stops

  fill-Releases :
      (is_filled : Filled → List ℕ → Option Stat → Bool) (buf : Filled) (name : List ℕ)
      (stat : Option Stat) {next : Filled → Run Sfs (Code × Filled)}
      → ((buf' : Filled) → Releases (next buf'))
      → Releases (fill is_filled buf name stat next)
  unfolding fill
  fill-Releases is_filled buf name stat h =
      Exits-if_run (is_filled buf name stat) (leave-Releases _) (h _)

  module _ (is_filled : Filled → List ℕ → Option Stat → Bool) where
    readdir_round-Releases :
        (buf : Filled) (n : Next) {next : Filled → DirIterator → Run Sfs (Code × Filled)}
        → ((buf' : Filled) (it : DirIterator) → Releases (next buf' it))
        → Releases (readdir_round is_filled buf n next)
    unfolding readdir_round
    readdir_round-Releases buf (null it) h = leave-Releases _
    readdir_round-Releases buf (found position entry it) h =
        fill-Releases is_filled buf _ _ λ buf'. h buf' it

    readdir_loop-Releases :
        (fuel : ℕ) (buf : Filled) (it : DirIterator) → Releases (readdir_loop is_filled fuel buf it)
    unfolding readdir_loop
    readdir_loop-Releases zero buf it s = stops
    readdir_loop-Releases (suc fuel) buf it s =
        Exits-bind (Exits-lift (dir_iternext true it) s (dir_iternext-NeverFails true it s.fs))
          λ n s'. readdir_round-Releases buf n (readdir_loop-Releases fuel) s'

    -- Whatever the state, the path and the filler, `sfs_readdir` stops the process or returns with
    -- the mutex not held.
    pub readdir-Released : (path : List ℕ) (s : Sfs) → Released (readdir is_filled path s)
    unfolding readdir
    readdir-Released path = lock-Releases (
        Exits-if_run (not (str_eq path root_path)) (leave-Releases _) (
          Exits-attempt (lift dir_root)
            (λ directory. fill-Releases is_filled _ _ _ λ buf.
              fill-Releases is_filled _ _ _ λ buf' s.
                Exits-bind (iterate_or_crash-NeverFails directory s)
                  λ it s'. readdir_loop-Releases 80 buf' it s')
            (leave-Releases _)))

  -- Whatever the state and the descriptor, `sfs_release` and `sfs_releasedir` stop the process or
  -- return with the mutex not held.
  pub release-Released : (fh : ℕ) (s : Sfs) → Released (release fh s) × Released (releasedir fh s)
  unfolding release releasedir
  release-Released fh s = (
    lock-Releases (λ s'. release_fd-Releases close_inode (find_fd fh s') s') s,
    lock-Releases (λ s'. release_fd-Releases close_folder (find_fd fh s') s') s,
  )

  -- Whatever the state, the path and the other arguments, `sfs_getattr`, `sfs_create`, `sfs_open` and
  -- `sfs_unlink` stop the process or return with the mutex not held, on every path out of them.
  pub path_handlers-Released :
      (libgen : Libgen) (caller : Caller) (path : List ℕ) (mode flags : ℕ) (s : Sfs)
      → Released (getattr libgen path s)
        × Released (create libgen caller path mode flags s)
        × Released (open_file libgen path flags s)
        × Released (unlink libgen path s)
  unfolding getattr create open_file unlink
  path_handlers-Released libgen caller path mode flags s = (
    lock-Releases
        (with_root-Releases libgen path none λ directory name.
          Exits-if_run (str_eq path root_path) (leave-Releases _)
            (search_root-Releases none directory name stat_entry-Releases))
        s,
    lock-Releases
        (with_root-Releases libgen path none λ directory name.
          search_root-Releases none directory name (create_at-Releases caller mode flags name))
        s,
    lock-Releases
        (with_root-Releases libgen path none
          λ directory name. search_root-Releases none directory name (open_at-Releases flags))
        s,
    lock-Releases
        (with_root-Releases libgen path tt λ directory name.
          Exits-if_run (str_eq path root_path) (leave-Releases _)
            (search_root-Releases tt directory name unlink_at-Releases))
        s,
  )

  -- What holds the mutex never gets it again: a handler that begins with it does not return.
  lock-aborted : (s : Sfs) → s.locked ≡ true → lock s ≡ aborted
  unfolding lock
  lock-aborted s h = rw h refl

  opendir_lem :
      (path : List ℕ) (flags : ℕ) (s : Sfs)
      → str_eq path root_path ≡ false
      → s.locked ≡ false
      → opendir path flags s ≡ done (minus enoent, none) (record s { locked = true })
  unfolding opendir lock leave_locked
  opendir_lem path flags s other idle = rw idle (rw other refl)

  opendir-aborted :
      (path : List ℕ) (flags : ℕ) (s : Sfs) → s.locked ≡ true → opendir path flags s ≡ aborted
  unfolding opendir
  opendir-aborted path flags s held = rw (lock-aborted s held) refl

  -- `sfs_opendir` of any path but "/" returns -ENOENT with the mutex held, where it was free before;
  -- a second call of it, of any path, then never returns.
  pub opendir-locked :
      (path path' : List ℕ) (flags flags' : ℕ) (s : Sfs)
      → str_eq path root_path ≡ false
      → s.locked ≡ false
      → (opendir path flags s ≡ done (minus enoent, none) (record s { locked = true }))
        × ((opendir path flags >> opendir path' flags') s ≡ aborted)
  opendir-locked path path' flags flags' s other idle =
      let first = opendir_lem path flags s other idle in
      (first, rw first (opendir-aborted path' flags' (record s { locked = true }) refl))
