-- ===== src/Dir/Walk.antt =====
-- src/dir.c: `sfs_dir_iternext` goes to the first used entry from where it is, if the transfers of the
-- disk file are never short.
use filesys.Prelude.{
  ℕ, zero, suc, ◌+◌, ◌-◌, ◌*◌, ◌%◌, ◌^◌, ◌<◌, ◌≤◌, ◌≡◌, ◌≢◌, refl, sym, subst, ap, ◌∙◌, Bool, true,
  false, not, none, some, leb, ◌==◌, arith, Bool-cases, inl, inr,
}
use filesys.Bytes.{Buffer}
use filesys.Outcome.{Run, Ensures, returns, Ensures-mono, Ensures-if, Ensures-attempt, Outcome}
use filesys.Os.{Os, IsPosix, IsReliable}
use filesys.Fs.Layout.{ndir_blocks}
use filesys.Fs.State.{Filesystem, time_now}
use filesys.Fs.Inode.{inode_block, write_inode}
use filesys.Fs.InodeView.{inode_view}
use filesys.Block.Laws.{block_at-time}
use filesys.Fs.Stamps.{accessed-IsInode}
use filesys.Fs.BlockMap.{inode_block_read}
use filesys.Fs.Blocks.{first_from}
use filesys.Dir.Entry.{entry_inumber}
use filesys.Dir.Iterate.{
  DirIterator, is_dir_mode, Next, found, null, load_block, give_entry, scan_block, used_entry,
  iter_loop, dir_iternext,
}
use filesys.Dir.Ends.{rank}
use filesys.Dir.FirstFrom.{first_from-step}
use filesys.Dir.Contents.{
  is_used, IsDirectory, IsDirectory-Keeps, Keeps, Keeps-time, inode_view-memory,
  inode_block_read-Keeps, write_inode-Keeps,
}

module _ ⦃os : Os⦄ (px : IsPosix os) (size : ℕ) (content : ℕ → Buffer) (m : ℕ) (number : ℕ)
    (base : Filesystem) where
  -- An iterator over a directory of `m` direct blocks with these contents, in a state in
  -- which the directory has this number, and the superblock and the other inodes are as in `base`.
  pub record IsWalk (it : DirIterator) (fs : Filesystem) : Type 0 where
    pub directory : IsDirectory px content it.inode fs
    pub within : fs.superblock.blocks ≤ size
    pub length : it.inode.size ≡ m * 512
    pub bounded : m ≤ ndir_blocks
    pub entry : it.entry ≤ 1
    pub iblock : it.iblock ≤ m
    pub is_dir : is_dir_mode it.inode.mode ≡ true
    pub own : it.inode.inumber ≡ number
    pub super : fs.superblock ≡ base.superblock
    pub others : (j : ℕ) → 0 < j → j ≢ number → inode_view px fs j ≡ inode_view px base j

  -- What the walk comes to from block `r` on: the first used entry, with its block in the iterator.
  abbrev pub IsNextUsed : ℕ → Next → Filesystem → Type 0
  IsNextUsed r (null it) fs = (first_from (m - r) r (is_used content) ≡ none) × IsWalk it fs
  IsNextUsed r (found position inode it) fs =
      (position ≡ 0)
      × (it.entry ≡ 1)
      × (it.cached_block ≡ content it.iblock)
      × (first_from (m - r) r (is_used content) ≡ some it.iblock)
      × IsWalk it fs

  abbrev FindsNext : ℕ → Outcome Filesystem Next → Type 0
  FindsNext r o = Ensures (IsNextUsed r) (λ _. ⊥) o

  -- The walk with the directory's access time set.
  IsWalk-accessed :
      (it : DirIterator) (fs fs' : Filesystem) (t : ℕ) (b : Buffer)
      → IsWalk it fs
      → Keeps px fs fs'
      → ((j : ℕ) → inode_view px fs' j ≡ inode_view px fs j)
      → IsWalk
          (record it { cached_block = b; inode = record it.inode { access_time = t % 2 ^ 64 } })
          fs'
  IsWalk-accessed it fs fs' t b w k same = record {
    directory =
        IsDirectory-Keeps px content it.inode _ fs fs' w.directory
          (accessed-IsInode it.inode t w.directory.ok) refl refl k;
    within = rw k.super w.within;
    length = w.length;
    bounded = w.bounded;
    entry = w.entry;
    iblock = w.iblock;
    is_dir = w.is_dir;
    own = w.own;
    super = k.super ∙ w.super;
    others = λ j p ne. same j ∙ w.others j p ne;
  }

  pub IsWalk-Keeps :
      (it : DirIterator) (fs fs' : Filesystem)
      → IsWalk it fs
      → Keeps px fs fs'
      → ((j : ℕ) → 0 < j → j ≢ number → inode_view px fs' j ≡ inode_view px fs j)
      → IsWalk it fs'
  IsWalk-Keeps it fs fs' w k same = record {
    directory =
        IsDirectory-Keeps px content it.inode _ fs fs' w.directory w.directory.ok refl refl k;
    within = rw k.super w.within;
    length = w.length;
    bounded = w.bounded;
    entry = w.entry;
    iblock = w.iblock;
    is_dir = w.is_dir;
    own = w.own;
    super = k.super ∙ w.super;
    others = λ j p ne. same j p ne ∙ w.others j p ne;
  }

  -- The walk at another position.
  IsWalk-moved :
      (it : DirIterator) (fs : Filesystem) (i e : ℕ)
      → IsWalk it fs
      → i ≤ m
      → e ≤ 1
      → IsWalk (record it { iblock = i; entry = e }) fs
  IsWalk-moved it fs i e w below first = record {
    directory = w.directory;
    within = w.within;
    length = w.length;
    bounded = w.bounded;
    entry = first;
    iblock = below;
    is_dir = w.is_dir;
    own = w.own;
    super = w.super;
    others = w.others;
  }

  IsNextUsed-skip :
      (r r' : ℕ) (n : Next) (fs : Filesystem)
      → first_from (m - r) r (is_used content) ≡ first_from (m - r') r' (is_used content)
      → IsNextUsed r' n fs
      → IsNextUsed r n fs
  IsNextUsed-skip r r' (null it) fs same (e, w) = (same ∙ e, w)
  IsNextUsed-skip r r' (found position inode it) fs same (p, q, c, e, w) = (p, q, c, same ∙ e, w)

  -- The block that has been loaded has its entry, or the walk goes on behind it.
  scan_block-first :
      (next : DirIterator → Run Filesystem Next) (it : DirIterator) (fs : Filesystem)
      → it.entry ≡ 0
      → it.iblock < m
      → it.cached_block ≡ content it.iblock
      → IsWalk it fs
      → ((it' : DirIterator)
          → it'.entry ≡ 0
          → it'.iblock ≡ it.iblock + 1
          → IsWalk it' fs
          → FindsNext (it.iblock + 1) (next it' fs))
      → FindsNext it.iblock (scan_block false (used_entry it) it next fs)
  unfolding scan_block used_entry first_from is_used give_entry
  scan_block-first next it fs start more loaded w go =
      rw start (elim (Bool-cases (not (entry_inumber it.cached_block 0 == 0))) [
        | inl used ↦
            let here : is_used content it.iblock ≡ true =
              subst (λ b. not (entry_inumber b 0 == 0) ≡ true) loaded used in
            rw used (
              returns (
                refl,
                refl,
                loaded,
                first_from-step m it.iblock (is_used content) more ∙ rw here refl,
                IsWalk-moved it fs it.iblock 1 w w.iblock (omega arith),
              ))
        | inr empty ↦
            let here : is_used content it.iblock ≡ false =
              subst (λ b. not (entry_inumber b 0 == 0) ≡ false) loaded empty in
            let skip : first_from (m - it.iblock) it.iblock (is_used content)
                ≡ first_from (m - (it.iblock + 1)) (it.iblock + 1) (is_used content) =
              first_from-step m it.iblock (is_used content) more ∙ rw here refl in
            rw empty (
              Ensures-mono
                (go (record it { iblock = it.iblock + 1; entry = 0 }) refl refl
                  (IsWalk-moved it fs (it.iblock + 1) 0 w (omega (arith, more)) (omega arith)))
                (λ n fs' h. IsNextUsed-skip it.iblock (it.iblock + 1) n fs' skip h)
                λ _ impossible. impossible)
      ])

  first_from-over : (r : ℕ) (test : ℕ → Bool) → m ≤ r → first_from (m - r) r test ≡ none
  unfolding first_from
  first_from-over r test over =
      let empty : m - r ≡ 0 = omega (arith, over) in
      subst (λ n. first_from n r test ≡ none) (sym empty) refl

  -- The test for the end of the directory.
  over_size :
      (it : DirIterator) (fs : Filesystem)
      → IsWalk it fs
      → leb it.inode.size (it.iblock * 512 % 2 ^ 64) ≡ leb m it.iblock
  over_size it fs w = ground (arith, w.length, w.bounded, w.iblock)

  -- An entry that has been returned is the last of its block.
  scan_block-next :
      (next : DirIterator → Run Filesystem Next) (it : DirIterator) (fs : Filesystem)
      → it.entry ≡ 1
      → scan_block false (used_entry it) it next fs
        ≡ next (record it { iblock = it.iblock + 1; entry = 0 }) fs
  unfolding scan_block used_entry first_from
  scan_block-next next it fs last = rw last refl

  module _ (reliable : IsReliable os size) (small : size ≤ 2 ^ 55) where
    -- The block is read, and the access time of the directory written.
    load_block-content :
        (it : DirIterator) (next : DirIterator → Run Filesystem Next) (fs : Filesystem) (r : ℕ)
        → it.iblock < m
        → IsWalk it fs
        → ((it' : DirIterator) (fs' : Filesystem)
            → it'.entry ≡ it.entry
            → it'.iblock ≡ it.iblock
            → it'.cached_block ≡ content it.iblock
            → IsWalk it' fs'
            → FindsNext r (next it' fs'))
        → FindsNext r (load_block it next fs)
    unfolding load_block time_now
    load_block-content it next fs r more w go =
        Ensures-attempt (inode_block_read it.inode it.iblock) _ _ fs
          (inode_block_read-Keeps px size reliable small content it.inode fs it.iblock w.within
            (omega (arith, more, w.bounded)) w.directory)
          (λ b fs' (e, k, same).
            let w' = IsWalk-Keeps it fs fs' w k (λ j _ _. same j) in
            let d = w'.directory in
            let now = (os.time fs'.os_state).0 in
            let timed = Keeps-time px fs' d.coherent d.cached in
            let it' = record it {
              cached_block = b;
              inode = record it.inode { access_time = now % 2 ^ 64 };
            } in
            let w'' = IsWalk-accessed it fs' _ now b w' timed λ j.
              inode_view-memory px fs' _ j (record { cache = refl; super = refl })
                (block_at-time px fs'.os_state (inode_block j)) in
            let d' = w''.directory in
            Ensures-attempt (write_inode it'.inode) _ _ _
              (write_inode-Keeps px size reliable small it'.inode _ d'.ok d'.number d'.in_table
                d'.table w''.within d'.coherent d'.cached)
              (λ _ fs'' (written, k'). go it' fs'' refl refl e (
                IsWalk-Keeps it' _ fs'' w'' k'
                  λ j p ne. written.inodes j p ∙ ground (arith, ne, w.own)))
              λ _ impossible. absurd impossible)
          λ _ impossible. absurd impossible

    iter_loop-first :
        (fuel : ℕ) (it : DirIterator) (fs : Filesystem)
        → IsWalk it fs
        → m < fuel + it.iblock
        → FindsNext (rank it) (iter_loop fuel false it fs)
    unfolding iter_loop
    iter_loop-first zero it fs w enough = absurd (omega (arith, w.iblock, enough))
    iter_loop-first (suc fuel) it fs w enough =
        let next : (r : ℕ) (it' : DirIterator) (fs' : Filesystem)
            → it'.entry ≡ 0
            → it'.iblock ≡ it.iblock + 1
            → r ≡ it.iblock + 1
            → IsWalk it' fs'
            → FindsNext r (iter_loop fuel false it' fs') =
          λ r it' fs' start at from w'.
            subst (λ k. FindsNext k (iter_loop fuel false it' fs'))
              (ground (arith, start, at, from))
              (iter_loop-first fuel it' fs' w' (omega (arith, enough, at))) in
        let scan =
          λ (it' : DirIterator). scan_block false (used_entry it') it' (iter_loop fuel false) in
        Ensures-if (leb it.inode.size (it.iblock * 512 % 2 ^ 64)) _ _
          (λ over. returns (
            first_from-over (rank it) (is_used content) (ground (arith, over, over_size it fs w)),
            w,
          ))
          λ more.
            let below : it.iblock < m = ground (arith, more, over_size it fs w) in
            Ensures-if (it.entry == 0) _ _
              (λ start.
                let here : rank it ≡ it.iblock = ground (arith, start) in
                subst (λ r. FindsNext r (load_block it scan fs)) (sym here)
                  (load_block-content it scan fs it.iblock below w λ it' fs' same at loaded w'.
                    subst
                      (λ r.
                        FindsNext r
                          (scan_block false (used_entry it') it' (iter_loop fuel false) fs'))
                      at
                      (scan_block-first (iter_loop fuel false) it' fs' (ground (arith, start, same))
                        (omega (arith, at, below)) (loaded ∙ ap content (sym at)) w'
                        λ it'' start'' at'' w''.
                          next (it'.iblock + 1) it'' fs' start'' (omega (arith, at, at''))
                            (omega (arith, at)) w'')))
              λ later.
                let last : it.entry ≡ 1 = ground (arith, later, w.entry) in
                subst (FindsNext (rank it))
                  (sym (scan_block-next (iter_loop fuel false) it fs last))
                  (next (rank it) _ fs refl refl (ground (arith, later))
                    (IsWalk-moved it fs (it.iblock + 1) 0 w (omega (arith, below)) (omega arith)))

    -- `sfs_dir_iternext`
    pub dir_iternext-first :
        (it : DirIterator) (fs : Filesystem)
        → IsWalk it fs
        → FindsNext (rank it) (dir_iternext false it fs)
    unfolding dir_iternext
    dir_iternext-first it fs w = iter_loop-first 78 it fs w (omega (arith, w.bounded))
