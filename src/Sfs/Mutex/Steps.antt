-- ===== src/Sfs/Mutex/Steps.antt =====
-- The common beginning of the handlers of src/sfs.c, and the mutex.
use filesys.Prelude.{
  ℕ, zero, suc, ◌≡◌, refl, Bool, true, false, not, Option, List, ltb, length, if◌then◌else◌,
}
use filesys.Outcome.{Outcome, Run, done, failed, aborted, and_then, ◌>>◌}
use filesys.Os.{Os}
use filesys.Fs.Layout.{Inode}
use filesys.Fs.State.{Filesystem}
use filesys.Dir.Entry.{entry_name, same_name}
use filesys.Dir.Iterate.{DirIterator, Next, found, null, dir_root, dir_iterate}
use filesys.Sfs.State.{Code, Libgen, Sfs, lock, leave, lift, with_fs, str_eq, root_path}
use filesys.Sfs.Lookup.{match_entry, find_loop, find_entry, with_root, search_root}
use filesys.Outcome.Exits.{
  Exits, exits, stops, failed-Exits, Exits-attempt, Exits-bind, Exits-if_run,
}
use filesys.Dir.NeverFails.{NeverFails, dir_iternext-NeverFails}

module _ ⦃os : Os⦄ where
  pub match_entry-NeverFails :
      (name : List ℕ) (n : Next) (next : DirIterator → Run Filesystem (DirIterator × Option ℕ))
      → ((it : DirIterator) (fs : Filesystem) → NeverFails (next it fs))
      → (fs : Filesystem) → NeverFails (match_entry name n next fs)
  unfolding match_entry
  match_entry-NeverFails name (null it) next h fs = exits tt
  match_entry-NeverFails name (found position entry it) next h fs =
      Exits-if_run (same_name 256 (entry_name it.cached_block position) name) (λ _. exits tt) (h it)
        fs

  pub find_loop-NeverFails :
      (fuel : ℕ) (name : List ℕ) (it : DirIterator) (fs : Filesystem)
      → NeverFails (find_loop fuel name it fs)
  unfolding find_loop
  find_loop-NeverFails zero name it fs = stops
  find_loop-NeverFails (suc fuel) name it fs =
      Exits-bind (dir_iternext-NeverFails false it fs) λ n fs'.
        match_entry-NeverFails name n (find_loop fuel name) (find_loop-NeverFails fuel name) fs'

  pub Exits-with_fs :
      {A : Type 0} (s : Sfs) (o : Outcome Filesystem A)
      → NeverFails o
      → Exits (λ _. Unit {0}) (with_fs s o)
  unfolding with_fs
  Exits-with_fs s (done a fs) h = exits tt
  Exits-with_fs s (failed fs) h = absurd (failed-Exits h)
  Exits-with_fs s aborted h = stops

  -- A run on the file system that does not fail, as a part of a handler.
  pub Exits-lift :
      {A : Type 0} (m : Run Filesystem A) (s : Sfs)
      → NeverFails (m s.fs)
      → Exits (λ _. Unit {0}) (lift m s)
  unfolding lift
  Exits-lift m s h = Exits-with_fs s (m s.fs) h

  -- The call returns with the mutex given back, or stops.
  abbrev pub Released : {A : Type 0} → Outcome Sfs A → Type 0
  Released o = Exits (λ s. s.locked ≡ false) o

  abbrev pub Releases : {A : Type 0} → Run Sfs A → Type 0
  Releases m = (s : Sfs) → Released (m s)

  pub leave-Releases : {A : Type 0} (r : A) → Releases (leave r)
  unfolding leave
  leave-Releases r s = exits refl

  pub lock_then-Releases :
      {A : Type 0} {k : Run Sfs A} (held : Bool) (s : Sfs)
      → Releases k
      → Exits
          (λ s'. s'.locked ≡ false)
          (and_then (if held then aborted else done tt (record s { locked = true })) (λ _. k))
  lock_then-Releases true s h = stops
  lock_then-Releases false s h = h _

  -- The handlers begin with the mutex.
  pub lock-Releases : {A : Type 0} {k : Run Sfs A} → Releases k → Releases (lock >> k)
  unfolding lock
  lock-Releases {k = k} h s = lock_then-Releases s.locked s h

  module _ (libgen : Libgen) where
    pub with_root-Releases :
        {A : Type 0} (path : List ℕ) (unset : A) {next : Inode → List ℕ → Run Sfs (Code × A)}
        → ((directory : Inode) (name : List ℕ) → Releases (next directory name))
        → Releases (with_root libgen path unset next)
    unfolding with_root
    with_root-Releases path unset h =
        Exits-if_run (not (str_eq (libgen.dirname path) root_path)) (leave-Releases _) (
          Exits-if_run (ltb 255 (length (libgen.basename path))) (leave-Releases _) (
            Exits-attempt (lift dir_root) (λ directory. h directory (libgen.basename path))
              (leave-Releases _)))

  pub search_root-Releases :
      {A : Type 0} (unset : A) (directory : Inode) (name : List ℕ)
      {next : DirIterator → Option ℕ → Run Sfs (Code × A)}
      → ((it : DirIterator) (o : Option ℕ) → Releases (next it o))
      → Releases (search_root unset directory name next)
  unfolding search_root find_entry
  search_root-Releases unset directory name h =
      Exits-attempt (lift (dir_iterate directory))
        (λ it s.
          Exits-bind (Exits-lift (find_entry name it) s (find_loop-NeverFails 80 name it s.fs))
            λ (it', o). h it' o)
        (leave-Releases _)
