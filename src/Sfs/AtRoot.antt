-- ===== src/Sfs/AtRoot.antt =====
-- src/sfs.c: what the handlers of a path begin with, on a root directory with known contents.
use filesys.Prelude.{
  ℕ, ◌^◌, ◌≤◌, ◌≡◌, refl, sym, subst, true, false, Option, List, length, ltb, arith,
}
use filesys.Bytes.{Buffer}
use filesys.Outcome.{Run, Ensures, returns, attempt, ◌>>=◌, ◌>>◌}
use filesys.Os.{Os, IsPosix, IsReliable}
use filesys.Block.Laws.{block_at-malloc}
use filesys.Fs.Layout.{Inode}
use filesys.Fs.State.{Filesystem}
use filesys.Fs.Inode.{inode_block}
use filesys.Fs.InodeView.{IsInumber, inode_view}
use filesys.Dir.Iterate.{DirIterator, dir_root, dir_iterate, malloc}
use filesys.Dir.Contents.{Keeps-memory, inode_view-memory}
use filesys.Dir.Dropped.{read_inode-Keeps}
use filesys.Dir.Walk.{IsWalk, IsWalk-Keeps}
use filesys.Sfs.State.{Code, Libgen, Sfs, lock, lift, str_eq, root_path}
use filesys.Sfs.Lookup.{find_entry, search_root, with_root}
use filesys.Sfs.Calls.{attempt_lift-returns, lift-returns}
use filesys.Sfs.Search.{IsFirstNamed, find_entry_lem}
use filesys.Sfs.Links.{start}

-- The path is in /, and its last component fits an entry.
pub record IsPlain (libgen : Libgen) (path : List ℕ) : Type 0 where
  pub within : str_eq (libgen.dirname path) root_path ≡ true
  pub deep : str_eq path root_path ≡ false
  pub short : length (libgen.basename path) ≤ 255

module _ ⦃os : Os⦄ (px : IsPosix os) (size : ℕ) (content : ℕ → Buffer) (m : ℕ) where
  -- Inode 1 is a directory of `m` direct blocks with these contents.
  abbrev pub IsRoot : Filesystem → Type 0
  IsRoot fs = IsWalk px size content m 1 fs (start (inode_view px fs 1)) fs

  module _ (reliable : IsReliable os size) (small : size ≤ 2 ^ 55)
      (memory : (s : os.State) → (os.malloc s).0 ≡ true) where
    -- The iterator begins before the first block.
    dir_iterate-IsWalk :
        (number : ℕ) (base : Filesystem) (i : Inode) (fs : Filesystem)
        → IsWalk px size content m number base (start i) fs
        → Ensures
            (λ it fs'. (it ≡ start i) × IsWalk px size content m number base (start i) fs')
            (λ _. ⊥)
            (dir_iterate i fs)
    unfolding dir_iterate malloc
    dir_iterate-IsWalk number base i fs w =
        let fs' : Filesystem = record fs { os_state = (os.malloc fs.os_state).1 } in
        let d = w.directory in
        rw w.is_dir (
          rw (memory fs.os_state) (
            returns (
              refl,
              IsWalk-Keeps px size content m number base (start i) fs fs' w
                  (Keeps-memory px fs fs' d.coherent d.cached
                    (record { cache = refl; super = refl }) (block_at-malloc px fs.os_state))
                  (λ j _ _.
                    inode_view-memory px fs fs' j (record { cache = refl; super = refl })
                      (block_at-malloc px fs.os_state (inode_block j))),
            )))

    -- What a handler does behind its search begins where the name was found first.
    pub search_root-first :
        {A : Type 0} {R : Code × A → Sfs → Type 0} (unset : A) (number : ℕ) (base : Filesystem)
        (i : Inode) (name : List ℕ) (next : DirIterator → Option ℕ → Run Sfs (Code × A)) (s : Sfs)
        → IsWalk px size content m number base (start i) s.fs
        → ((it : DirIterator) (o : Option ℕ) (fs : Filesystem)
            → IsFirstNamed px size content m number base name 0 (it, o) fs
            → Ensures R (λ _. ⊥) (next it o (record s { fs = fs })))
        → Ensures R (λ _. ⊥) (search_root unset i name next s)
    unfolding search_root attempt lift
    search_root-first {R = R} unset number base i name next s w go =
        attempt_lift-returns s _ _ (dir_iterate-IsWalk number base i s.fs w) λ it fs (e, w').
          let go_on : (j : DirIterator)
              → j ≡ start i
              → Ensures R (λ _. ⊥)
                  ((do (it', position) ← lift (find_entry name j); next it' position)
                    (record s { fs = fs })) =
            λ j e'.
              lift-returns (record s { fs = fs }) _
                (subst
                  (λ k.
                    Ensures (IsFirstNamed px size content m number base name 0) (λ _. ⊥)
                      (find_entry name k fs))
                  (sym e')
                  (find_entry_lem px size content m number base name reliable small (start i) fs
                    w'))
                λ (it', o) fs' first. go it' o fs' first in
          go_on it e

    -- What a handler of a path in / does behind its checks, with the root directory.
    pub with_root-first :
        {A : Type 0} {R : Code × A → Sfs → Type 0} (libgen : Libgen) (path : List ℕ) (unset : A)
        (next : Inode → List ℕ → Run Sfs (Code × A)) (s : Sfs)
        → s.locked ≡ false
        → IsRoot s.fs
        → IsPlain libgen path
        → ((fs : Filesystem)
            → IsWalk px size content m 1 s.fs (start (inode_view px s.fs 1)) fs
            → Ensures R
                (λ _. ⊥)
                (next
                  (inode_view px s.fs 1)
                  (libgen.basename path)
                  (record s { fs = fs; locked = true })))
        → Ensures R (λ _. ⊥) ((lock >> with_root libgen path unset next) s)
    unfolding lock with_root attempt lift dir_root
    with_root-first {R = R} libgen path unset next s idle w plain go =
        let s' = record s { locked = true } in
        let v = inode_view px s.fs 1 in
        let fits : ltb 255 (length (libgen.basename path)) ≡ false = ground (arith, plain.short) in
        rw idle (
          rw plain.within (
            rw fits (
              attempt_lift-returns s' _ _
                (read_inode-Keeps px size reliable small content v 1 s.fs w.within w.directory
                  (subst IsInumber w.own w.directory.number)
                  (subst (λ n. inode_block n ≤ s.fs.superblock.inode_table_blocks) w.own
                    w.directory.in_table))
                λ i fs (e, keeps, same).
                  subst
                    (λ j.
                      Ensures R (λ _. ⊥) (next j (libgen.basename path) (record s' { fs = fs })))
                    (sym e)
                    (go fs (
                      IsWalk-Keeps px size content m 1 s.fs (start v) s.fs fs w keeps
                        λ j _ _. same j)))))
