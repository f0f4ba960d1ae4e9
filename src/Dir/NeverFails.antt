-- ===== src/Dir/NeverFails.antt =====
-- `sfs_dir_iternext` never fails: it returns an entry or NULL.
use filesys.Prelude.{ℕ, zero, suc, ◌*◌, ◌%◌, ◌^◌, Bool, true, false, Option, none, some, leb, ◌==◌}
use filesys.Outcome.{Outcome, Run}
use filesys.Os.{Os}
use filesys.Fs.State.{Filesystem, time_now}
use filesys.Dir.Iterate.{
  DirIterator, Next, load_block, give_entry, scan_block, used_entry, iter_loop, dir_iternext,
}
use filesys.Outcome.Exits.{Exits, exits, stops, Exits-attempt, Exits-bind, Exits-if}

module _ ⦃os : Os⦄ where
  -- A run of the file system that does not fail.
  abbrev pub NeverFails : {A : Type 0} → Outcome Filesystem A → Type 0
  NeverFails o = Exits (λ _. Unit {0}) o

  pub time_now-NeverFails : (fs : Filesystem) → NeverFails (time_now fs)
  unfolding time_now
  time_now-NeverFails fs = exits tt

  pub load_block-NeverFails :
      (it : DirIterator) (next : DirIterator → Run Filesystem Next)
      → ((it' : DirIterator) (fs : Filesystem) → NeverFails (next it' fs))
      → (fs : Filesystem) → NeverFails (load_block it next fs)
  unfolding load_block
  load_block-NeverFails it next h fs =
      Exits-attempt _
        (λ b fs'.
          Exits-bind (time_now-NeverFails fs')
            λ now fs''. Exits-attempt _ (λ _. h _) (λ _. exits tt) fs'')
        (λ _. exits tt) fs

  pub scan_block-NeverFails :
      (want : Bool) (o : Option ℕ) (it : DirIterator) (next : DirIterator → Run Filesystem Next)
      → ((it' : DirIterator) (fs : Filesystem) → NeverFails (next it' fs))
      → (fs : Filesystem) → NeverFails (scan_block want o it next fs)
  unfolding scan_block give_entry
  scan_block-NeverFails want none it next h fs = h _ fs
  scan_block-NeverFails false (some position) it next h fs = exits tt
  scan_block-NeverFails true (some position) it next h fs =
      Exits-attempt _ (λ _ _. exits tt) (λ _. exits tt) fs

  pub iter_loop-NeverFails :
      (fuel : ℕ) (want : Bool) (it : DirIterator) (fs : Filesystem)
      → NeverFails (iter_loop fuel want it fs)
  unfolding iter_loop
  iter_loop-NeverFails zero want it fs = stops
  iter_loop-NeverFails (suc fuel) want it fs =
      let scan = λ (it' : DirIterator).
        scan_block-NeverFails want (used_entry it') it' (iter_loop fuel want)
          (iter_loop-NeverFails fuel want) in
      Exits-if (leb it.inode.size (it.iblock * 512 % 2 ^ 64)) (exits tt)
        (Exits-if (it.entry == 0) (load_block-NeverFails it _ scan fs) (scan it fs))

  pub dir_iternext-NeverFails :
      (want : Bool) (it : DirIterator) (fs : Filesystem) → NeverFails (dir_iternext want it fs)
  unfolding dir_iternext
  dir_iternext-NeverFails want it fs = iter_loop-NeverFails 78 want it fs
