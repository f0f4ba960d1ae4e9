-- ===== src/Dir/Ends.antt =====
-- src/dir.c: the walk of `sfs_dir_iternext` over the blocks of a directory comes to an end.
use filesys.Prelude.{
  ℕ, zero, suc, ◌+◌, ◌-◌, ◌*◌, ◌%◌, ◌^◌, ◌<◌, ◌≤◌, ◌≡◌, inl, inr, refl, subst, Bool, true, false,
  not, Option, none, some, ltb, leb, ◌==◌, arith, if◌then◌else◌, lt→ltb, Option-cases,
}
use filesys.Outcome.{
  Outcome, Run, Ensures, returns, fails, Ensures-bind, Ensures-mono, Ensures-if, Ensures-if_run,
  Ensures-attempt,
}
use filesys.Os.{Os}
use filesys.Fs.Layout.{Inode, ndir_blocks, nind_blocks}
use filesys.Fs.State.{Filesystem, time_now}
use filesys.Fs.Inode.{read_inode, write_inode, switch_cache, cached_inode, uint64_of, inode_block}
use filesys.Fs.BlockMap.{
  inode_block_read, block_for_read, read_numbered, read_from_indirect, index_entry, is_outside,
}
use filesys.Fs.BlockMap.Sizes.{
  read_block-Sized, write_inode-Sized, write_back-Sized, fill_cache-Sized,
}
use filesys.Fs.Blocks.{first_from}
use filesys.Dir.Entry.{entries_per_block, entry_inumber}
use filesys.Dir.Iterate.{
  DirIterator, Next, found, null, load_block, give_entry, scan_block, used_entry, iter_loop,
  dir_iternext,
}

module _ ⦃os : Os⦄ where
  -- The call does not abort.
  abbrev pub Ends : {A : Type 0} → (A → Type 0) → Outcome Filesystem A → Type 0
  Ends P o = Ensures (λ a _. P a) (λ _. Unit {0}) o

  Ends-of :
      {A : Type 0} {P : A → Filesystem → Type 0} {Q : Filesystem → Type 0}
      {o : Outcome Filesystem A}
      → Ensures P Q o
      → Ends (λ _. Unit {0}) o
  Ends-of h = Ensures-mono h (λ _ _ _. tt) λ _ _. tt

  read_from_indirect-Ends :
      (n i : ℕ) (fs : Filesystem) → Ends (λ _. Unit {0}) (read_from_indirect n i false fs)
  unfolding read_from_indirect index_entry
  read_from_indirect-Ends n i fs =
      Ensures-if_run (n == 0) _ _ fs (λ _. returns tt)
        λ _. Ensures-bind (read_block-Sized n fs) (λ _ _ _. returns tt) λ _ _. tt

  -- A block of a file is one of its first 76.
  inode_block_read-Ends :
      (inode : Inode) (iblock : ℕ) (fs : Filesystem)
      → Ends (λ _. iblock < 76) (inode_block_read inode iblock fs)
  unfolding inode_block_read block_for_read read_numbered
  inode_block_read-Ends inode iblock fs =
      Ensures-bind {P = λ _ _. iblock < 76} {Q = λ _. Unit {0}}
        (Ensures-if_run (ltb iblock ndir_blocks) _ _ fs (λ d. returns (ground (arith, d)))
          λ _.
            Ensures-if_run (ltb iblock (ndir_blocks + nind_blocks)) _ _ fs
              (λ d.
                Ensures-mono (read_from_indirect-Ends _ _ fs) (λ _ _ _. ground (arith, d))
                  λ _ _. tt)
              λ _. fails tt)
        (λ n fs' small.
          Ensures-if (n == 0) _ _ (λ _. returns small)
            λ _.
              Ensures-if (is_outside fs'.superblock n) _ _ (λ _. fails tt)
                λ _. Ensures-mono (read_block-Sized n fs') (λ _ _ _. small) λ _ _. tt)
        λ _ _. tt

  pub read_inode-Ends : (n : ℕ) (fs : Filesystem) → 0 < n → Ends (λ _. Unit {0}) (read_inode n fs)
  unfolding read_inode switch_cache cached_inode
  read_inode-Ends n fs h = rw (lt→ltb 0 n h) (
      Ensures-bind {P = λ _ _. Unit {0}} {Q = λ _. Unit {0}}
        (Ensures-if (uint64_of fs.inode_cache.block_number == inode_block n) _ _ (λ _. returns tt)
          λ _.
            Ensures-bind (write_back-Sized fs)
              (λ _ fs' _. Ends-of (fill_cache-Sized true (inode_block n) fs')) λ _ _. tt)
        (λ _ _ _. returns tt) λ _ _. tt)

  -- How far the walk has come: a block whose entry has been returned is behind it.
  abbrev pub rank : DirIterator → ℕ
  rank it = if it.entry == 0 then it.iblock else it.iblock + 1

  -- The directory has an inode number, and the walk is not beyond the last block of a file.
  pub record IsIterator (it : DirIterator) : Type 0 where
    pub numbered : 0 < it.inode.inumber
    pub bounded : rank it ≤ 76

  -- What the walk gives from rank `r` on: a used entry further on, or NULL.
  abbrev pub IsNext : ℕ → Next → Type 0
  IsNext r (null it) = Unit
  IsNext r (found position inode it) =
      (0 < entry_inumber it.cached_block position) × IsIterator it × (r < rank it)

  -- The entry that is found is used, and the first of its block.
  first_from-used :
      (e : ℕ) (test : ℕ → Bool) (p : ℕ)
      → first_from (entries_per_block - e) e test ≡ some p
      → (e ≡ 0) × (test p ≡ true)
  unfolding first_from
  first_from-used zero test p h = ground (arith, h)
  first_from-used (suc e) test p h =
      let full : entries_per_block - suc e ≡ 0 = omega arith in
      let h' : first_from 0 (suc e) test ≡ some p =
        subst (λ n. first_from n (suc e) test ≡ some p) full h in
      cc

  used_entry-used :
      (it : DirIterator) (p : ℕ)
      → used_entry it ≡ some p
      → (it.entry ≡ 0) × (0 < entry_inumber it.cached_block p)
  unfolding used_entry
  used_entry-used it p h =
      let (start, used) =
        first_from-used it.entry (λ e. not (entry_inumber it.cached_block e == 0)) p h in
      (start, ground (arith, used))

  given-IsNext :
      (r position : ℕ) (inode : Option Inode) (it : DirIterator)
      → IsIterator it
      → 0 < entry_inumber it.cached_block position
      → it.iblock < 76
      → r ≤ it.iblock
      → IsNext r (found position inode (record it { entry = position + 1 }))
  given-IsNext r position inode it i used small from = (
    used,
    record { numbered = i.numbered; bounded = ground (arith, small) },
    ground (arith, from),
  )

  IsNext-mono : (r r' : ℕ) (n : Next) → r ≤ r' → IsNext r' n → IsNext r n
  IsNext-mono r r' (null it) le h = tt
  IsNext-mono r r' (found position inode it) le (used, i, more) = (used, i, omega (arith, le, more))

  -- An entry of the block that the walk is in, at which it was not yet.
  give_entry-Ends :
      (want : Bool) (r position : ℕ) (it : DirIterator) (fs : Filesystem)
      → IsIterator it
      → 0 < entry_inumber it.cached_block position
      → it.iblock < 76
      → r ≤ it.iblock
      → Ends (IsNext r) (give_entry want position it fs)
  unfolding give_entry
  give_entry-Ends false r position it fs i used small from =
      returns (given-IsNext r position none it i used small from)
  give_entry-Ends true r position it fs i used small from =
      Ensures-attempt (read_inode (entry_inumber it.cached_block position)) _ _ fs
        (read_inode-Ends (entry_inumber it.cached_block position) fs used)
        (λ inode _ _. returns (given-IsNext r position (some inode) it i used small from))
        λ _ _. returns tt

  -- The rest of a block, and the blocks behind it.
  scan_block-Ends :
      (want : Bool) (next : DirIterator → Run Filesystem Next) (r : ℕ) (it : DirIterator)
      (fs : Filesystem)
      → IsIterator it
      → it.iblock < 76
      → r ≤ rank it
      → ((it' : DirIterator) (fs' : Filesystem)
          → IsIterator it'
          → it'.iblock ≡ it.iblock + 1
          → Ends (IsNext (rank it')) (next it' fs'))
      → Ends (IsNext r) (scan_block want (used_entry it) it next fs)
  unfolding scan_block
  scan_block-Ends want next r it fs i small from go = elim (Option-cases (used_entry it)) [
    | inl e ↦ rw e (
        Ensures-mono
          (go (record it { iblock = it.iblock + 1; entry = 0 }) fs
            (record { numbered = i.numbered; bounded = omega (arith, small) }) refl)
          (λ n _ h. IsNext-mono r (it.iblock + 1) n (ground (arith, from)) h) λ _ _. tt)
    | inr (p, e) ↦
        let (start, used) = used_entry-used it p e in
        rw e (give_entry-Ends want r p it fs i used small (ground (arith, start, from)))
  ]

  -- The block of the walk is read, and there is one.
  load_block-Ends :
      (r : ℕ) (it : DirIterator) (next : DirIterator → Run Filesystem Next) (fs : Filesystem)
      → IsIterator it
      → it.entry ≡ 0
      → ((it' : DirIterator) (fs' : Filesystem)
          → IsIterator it'
          → it'.iblock ≡ it.iblock
          → it'.entry ≡ 0
          → it'.iblock < 76
          → Ends (IsNext r) (next it' fs'))
      → Ends (IsNext r) (load_block it next fs)
  unfolding load_block time_now
  load_block-Ends r it next fs i start go =
      Ensures-attempt (inode_block_read it.inode it.iblock) _ _ fs
        (inode_block_read-Ends it.inode it.iblock fs)
        (λ b fs' small.
          Ensures-attempt (write_inode _) _ _ _ (write_inode-Sized _ _ i.numbered)
            (λ _ fs'' _.
              go _ fs'' (record { numbered = i.numbered; bounded = i.bounded }) refl start small)
            λ _ _. returns tt)
        λ _ _. returns tt

  iter_loop-Ends :
      (fuel : ℕ) (want : Bool) (it : DirIterator) (fs : Filesystem)
      → IsIterator it
      → 77 ≤ fuel + it.iblock
      → Ends (IsNext (rank it)) (iter_loop fuel want it fs)
  unfolding iter_loop
  iter_loop-Ends zero want it fs i enough = absurd (ground (arith, i.bounded, enough))
  iter_loop-Ends (suc fuel) want it fs i enough =
      let scan : (it' : DirIterator) (fs' : Filesystem)
          → IsIterator it'
          → it'.iblock ≡ it.iblock
          → it'.iblock < 76
          → rank it ≤ rank it'
          → Ends (IsNext (rank it))
              (scan_block want (used_entry it') it' (iter_loop fuel want) fs') =
        λ it' fs' i' same small from.
          scan_block-Ends want (iter_loop fuel want) (rank it) it' fs' i' small from
            λ it'' fs'' i'' next.
              iter_loop-Ends fuel want it'' fs'' i'' (omega (arith, enough, same, next)) in
      Ensures-if (leb it.inode.size (it.iblock * 512 % 2 ^ 64)) _ _ (λ _. returns tt)
        λ _.
          Ensures-if (it.entry == 0) _ _
            (λ start.
              load_block-Ends (rank it) it _ fs i (ground (arith, start))
                λ it' fs' i' same start' small.
                  scan it' fs' i' same small (ground (arith, start, start', same)))
            λ more. scan it fs i refl (ground (arith, more, i.bounded)) (omega arith)

  -- From an iterator of a directory with an inode number, `sfs_dir_iternext` ends: its loop takes at
  -- most 77 rounds, and it returns NULL, or a used entry which is further on in the directory.
  pub dir_iternext-Ends :
      (want : Bool) (it : DirIterator) (fs : Filesystem)
      → IsIterator it
      → Ends (IsNext (rank it)) (dir_iternext want it fs)
  unfolding dir_iternext
  dir_iternext-Ends want it fs i = iter_loop-Ends 78 want it fs i (omega arith)
