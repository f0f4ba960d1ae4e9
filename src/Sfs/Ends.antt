-- ===== src/Sfs/Ends.antt =====
-- src/sfs.c: the search of the root directory comes to an end, and `sfs_getattr` returns.
use filesys.Prelude.{
  ℕ, zero, suc, ◌+◌, ◌<◌, ◌≤◌, ◌≡◌, refl, sym, subst, true, false, not, Option, none, some, List,
  ltb, length, arith,
}
use filesys.Outcome.{
  Outcome, Run, Ensures, returns, fails, Ensures-bind, Ensures-mono, Ensures-if, Ensures-if_run,
  attempt,
}
use filesys.Os.{Os, IsPosix}
use filesys.Fs.Layout.{Inode}
use filesys.Fs.State.{Filesystem}
use filesys.Fs.Inode.{inode_block}
use filesys.Fs.Cache.{IsCoherent}
use filesys.Fs.InodeView.{inode_view, read_inode-view}
use filesys.Dir.Entry.{entry_inumber, entry_name, same_name}
use filesys.Dir.Iterate.{DirIterator, Next, found, null, is_dir_mode, dir_root, dir_iterate, malloc}
use filesys.Dir.Ends.{Ends, IsIterator, IsNext, rank, read_inode-Ends, dir_iternext-Ends}
use filesys.Sfs.State.{Libgen, Sfs, lock, leave, lift, with_fs, str_eq, root_path}
use filesys.Sfs.Lookup.{
  match_entry, find_loop, find_entry, search_root, stat_entry, with_root, getattr,
}
use filesys.Outcome.Exits.{failed-Exits}
use filesys.Dir.NeverFails.{NeverFails}
use filesys.Sfs.Mutex.Steps.{find_loop-NeverFails}
use filesys.Sfs.Calls.{attempt_lift-Ensures}

module _ ⦃os : Os⦄ where
  -- What the search for `name` gives: the position of a used entry of that name in the cached block,
  -- or none.
  abbrev pub IsFound : (name : List ℕ) → DirIterator × Option ℕ → Type 0
  IsFound name (it, none) = Unit
  IsFound name (it, some position) =
      (0 < entry_inumber it.cached_block position)
      × (same_name 256 (entry_name it.cached_block position) name ≡ true)

  match_entry-Ends :
      (r : ℕ) (name : List ℕ) (n : Next)
      (next : DirIterator → Run Filesystem (DirIterator × Option ℕ)) (fs : Filesystem)
      → IsNext r n
      → ((it : DirIterator) → IsIterator it → r < rank it → Ends (IsFound name) (next it fs))
      → Ends (IsFound name) (match_entry name n next fs)
  unfolding match_entry
  match_entry-Ends r name (null it) next fs h go = returns tt
  match_entry-Ends r name (found position inode it) next fs (used, i, more) go =
      Ensures-if_run (same_name 256 (entry_name it.cached_block position) name) _ _ fs
        (λ same. returns (used, same)) λ _. go it i more

  find_loop-Ends :
      (fuel : ℕ) (name : List ℕ) (it : DirIterator) (fs : Filesystem)
      → IsIterator it
      → 77 ≤ fuel + rank it
      → Ends (IsFound name) (find_loop fuel name it fs)
  unfolding find_loop
  find_loop-Ends zero name it fs i enough = absurd (omega (arith, i.bounded, enough))
  find_loop-Ends (suc fuel) name it fs i enough =
      Ensures-bind (dir_iternext-Ends false it fs i)
        (λ n fs' h.
          match_entry-Ends (rank it) name n (find_loop fuel name) fs' h
            λ it' i' more. find_loop-Ends fuel name it' fs' i' (omega (arith, more, enough)))
        λ _ _. tt

  -- The search of a directory for a name ends: each round of its loop comes further on, and there are
  -- at most 77. It finds the position of a used entry that has the name, or none.
  pub find_entry-Ends :
      (name : List ℕ) (it : DirIterator) (fs : Filesystem)
      → IsIterator it
      → Ends (IsFound name) (find_entry name it fs)
  unfolding find_entry
  find_entry-Ends name it fs i = find_loop-Ends 80 name it fs i (omega arith)

  dir_iterate-IsIterator :
      (inode : Inode) (fs : Filesystem)
      → 0 < inode.inumber
      → is_dir_mode inode.mode ≡ true
      → Ends IsIterator (dir_iterate inode fs)
  unfolding dir_iterate malloc
  dir_iterate-IsIterator inode fs numbered directory = rw directory (
      Ensures-bind {P = λ _ _. Unit {0}} {Q = λ _. Unit {0}}
        (Ensures-if (os.malloc fs.os_state).0 _ _ (λ _. returns tt) λ _. fails tt)
        (λ _ _ _. returns (record { numbered = numbered; bounded = omega arith })) λ _ _. tt)

  -- A search neither fails nor aborts.
  search-Ends :
      {A : Type 0} {P : A → Type 0} (s : Sfs) {o : Outcome Filesystem A}
      → NeverFails o
      → Ends P o
      → Ensures (λ a _. P a) (λ _. ⊥) (with_fs s o)
  unfolding with_fs
  search-Ends s h (returns p) = returns p
  search-Ends s h (fails q) = absurd (failed-Exits h)

  -- The handler returns with the mutex given back.
  abbrev pub Replies : {A : Type 0} → Outcome Sfs A → Type 0
  Replies o = Ensures (λ _ s. s.locked ≡ false) (λ _. ⊥) o

  leave-Replies : {A : Type 0} (r : A) (s : Sfs) → Replies (leave r s)
  unfolding leave
  leave-Replies r s = returns refl

  stat_entry-Replies :
      (name : List ℕ) (it : DirIterator) (o : Option ℕ) (s : Sfs)
      → IsFound name (it, o)
      → Replies (stat_entry it o s)
  unfolding stat_entry attempt lift
  stat_entry-Replies name it none s h = leave-Replies _ s
  stat_entry-Replies name it (some position) s h =
      attempt_lift-Ensures s _ _ (read_inode-Ends (entry_inumber it.cached_block position) s.fs h.0)
        (λ file fs _. leave-Replies _ _) λ fs. leave-Replies _ _

  search_root-Replies :
      (directory : Inode) (name : List ℕ) (s : Sfs)
      → 0 < directory.inumber
      → is_dir_mode directory.mode ≡ true
      → Replies (search_root none directory name stat_entry s)
  unfolding search_root attempt lift find_entry
  search_root-Replies directory name s numbered is_dir =
      attempt_lift-Ensures s _ _ (dir_iterate-IsIterator directory s.fs numbered is_dir)
        (λ it fs i.
          Ensures-bind
            (search-Ends (record s { fs = fs }) (find_loop-NeverFails 80 name it fs)
              (find_entry-Ends name it fs i))
            (λ (it', o) s' h. stat_entry-Replies name it' o s' h) λ _ h. h)
        λ fs. leave-Replies _ _

module _ ⦃os : Os⦄ (px : IsPosix os) where
  dir_root-Ensures :
      (fs : Filesystem)
      → IsCoherent px fs
      → Ensures (λ i _. i ≡ inode_view px fs 1) (λ _. Unit {0}) (dir_root fs)
  unfolding dir_root inode_block
  dir_root-Ensures fs c =
      Ensures-mono
        (read_inode-view px fs 1 c (record { positive = omega arith; small = omega arith }))
        (λ i _ h. h.0) λ _ _. tt

  -- `sfs_getattr` returns, with the mutex given back, on every path and every state of the disk in
  -- which inode 1 is a directory and has a number, if nothing holds the mutex and the cache is
  -- coherent: no assertion fails, and the search of the directory ends.
  pub getattr-Replies :
      (libgen : Libgen) (path : List ℕ) (s : Sfs)
      → s.locked ≡ false
      → IsCoherent px s.fs
      → 0 < (inode_view px s.fs 1).inumber
      → is_dir_mode (inode_view px s.fs 1).mode ≡ true
      → Replies (getattr libgen path s)
  unfolding getattr lock with_root attempt lift
  getattr-Replies libgen path s idle c numbered is_dir = rw idle (
      let s' = record s { locked = true } in
      Ensures-if_run (not (str_eq (libgen.dirname path) root_path)) _ _ s' (λ _. leave-Replies _ s')
        λ _.
          Ensures-if_run (ltb 255 (length (libgen.basename path))) _ _ s' (λ _. leave-Replies _ s')
            λ _.
              attempt_lift-Ensures s' _ _ (dir_root-Ensures s.fs c)
                (λ i fs e.
                  Ensures-if_run (str_eq path root_path) _ _ _ (λ _. leave-Replies _ _)
                    λ _.
                      search_root-Replies i (libgen.basename path) (record s' { fs = fs })
                        (subst (λ (j : Inode). 0 < j.inumber) (sym e) numbered)
                        (subst (λ (j : Inode). is_dir_mode j.mode ≡ true) (sym e) is_dir))
                λ fs. leave-Replies _ _)
