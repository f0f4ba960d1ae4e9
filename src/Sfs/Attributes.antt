-- ===== src/Sfs/Attributes.antt =====
-- src/sfs.c: what `sfs_getattr` answers is the inode that the root directory, as a map, has for the
-- name.
use filesys.Prelude.{
  ℕ, ◌^◌, ◌≤◌, ◌≡◌, ◌≢◌, refl, sym, ap, ◌∙◌, true, false, Option, none, some, List,
}
use filesys.Bytes.{Buffer}
use filesys.Outcome.{Ensures, returns, attempt}
use filesys.Os.{Os, IsPosix, IsReliable}
use filesys.Fs.Layout.{Inode}
use filesys.Fs.State.{Filesystem}
use filesys.Fs.Inode.{inode_block}
use filesys.Fs.InodeAlloc.{Stat, inode_to_stat}
use filesys.Fs.InodeView.{IsInumber, inode_view}
use filesys.Dir.Entry.{entry_inumber}
use filesys.Dir.Iterate.{DirIterator}
use filesys.Dir.Dropped.{read_inode-Keeps}
use filesys.Dir.Walk.{IsWalk}
use filesys.Sfs.State.{Code, value, minus, enoent, Libgen, Sfs, leave, lift}
use filesys.Sfs.Lookup.{stat_entry, getattr}
use filesys.Sfs.Calls.{attempt_lift-returns}
use filesys.Sfs.Names.{lookup}
use filesys.Sfs.Links.{inumber_of, IsFirstNamed-lookup, IsFirstNamed-IsWalk}
use filesys.Sfs.AtRoot.{IsRoot, IsPlain, search_root-first, with_root-first}

-- The inode number, the mode, the number of links and the size.
abbrev pub outline : Stat → ℕ × ℕ × ℕ × ℕ
outline s = (s.ino, s.mode, s.nlink, s.size)

-- What `sfs_getattr` answers, without the ids and the times.
abbrev pub outlined : Code × Option Stat → Code × Option (ℕ × ℕ × ℕ × ℕ)
outlined (c, none) = (c, none)
outlined (c, some s) = (c, some (outline s))

module _ ⦃os : Os⦄ (px : IsPosix os) (size : ℕ) (content : ℕ → Buffer) (m : ℕ) where
  -- The inode numbers of the directory's entries lie in the inode table behind the root's.
  abbrev pub IsEntry : Filesystem → ℕ → Type 0
  IsEntry fs n = IsInumber n × (inode_block n ≤ fs.superblock.inode_table_blocks) × (n ≢ 1)

  -- What `sfs_getattr` returns and writes, by the map's answer.
  abbrev pub answer : Filesystem → Option ℕ → Code × Option Stat
  answer fs none = (minus enoent, none)
  answer fs (some n) = (value 0, some (inode_to_stat (inode_view px fs n)))

  module _ (reliable : IsReliable os size) (small : size ≤ 2 ^ 55)
      (memory : (s : os.State) → (os.malloc s).0 ≡ true) where
    stat_entry-lookup :
        (fs₀ : Filesystem) (name : List ℕ) (it : DirIterator) (o : Option ℕ) (s : Sfs)
        → inumber_of (it, o) ≡ lookup m content name
        → IsWalk px size content m 1 fs₀ it s.fs
        → ((n : ℕ) → lookup m content name ≡ some n → IsEntry fs₀ n)
        → Ensures
            (λ r s'. (r ≡ answer fs₀ (lookup m content name)) × (s'.locked ≡ false))
            (λ _. ⊥)
            (stat_entry it o s)
    unfolding stat_entry attempt lift leave
    stat_entry-lookup fs₀ name it none s e w entry = returns (ap (answer fs₀) e, refl)
    stat_entry-lookup fs₀ name it (some p) s e w entry =
        let n = entry_inumber it.cached_block p in
        let (number, table, ne) = entry n (sym e) in
        attempt_lift-returns s _ _
          (read_inode-Keeps px size reliable small content it.inode n s.fs w.within w.directory
            number (rw w.super table))
          λ file fs (same, _, _).
            let seen : file ≡ inode_view px fs₀ n = same ∙ w.others n number.positive ne in
            returns
              (ap (λ (j : Inode). (value 0, some (inode_to_stat j))) seen ∙ ap (answer fs₀) e, refl)

    -- `sfs_getattr` of a path whose directory is / and whose last component has at most 255 characters:
    -- the call returns with the mutex free if it was. Its result is 0 with the attributes of the inode that the
    -- directory has for that name, or -ENOENT if it has none. Inode 1 is a directory of direct blocks
    -- with any contents, the inode that the name leads to lies in the inode table and is not inode 1,
    -- `malloc` has memory, and the disk file's transfers are never short.
    pub getattr_lem :
        (libgen : Libgen) (path : List ℕ) (s : Sfs)
        → s.locked ≡ false
        → IsRoot px size content m s.fs
        → IsPlain libgen path
        → ((n : ℕ) → lookup m content (libgen.basename path) ≡ some n → IsEntry s.fs n)
        → Ensures
            (λ r s'.
              (r ≡ answer s.fs (lookup m content (libgen.basename path))) × (s'.locked ≡ false))
            (λ _. ⊥)
            (getattr libgen path s)
    unfolding getattr
    getattr_lem libgen path s idle root plain entry =
        let name = libgen.basename path in
        with_root-first px size content m reliable small memory libgen path none _ s idle root plain
          λ fs w. rw plain.deep (
            search_root-first px size content m reliable small memory none 1 s.fs
              (inode_view px s.fs 1) name stat_entry (record s { fs = fs; locked = true }) w
              λ it o fs' first.
                stat_entry-lookup s.fs name it o (record s { fs = fs'; locked = true })
                  (IsFirstNamed-lookup px size reliable small content m 1 s.fs name (it, o) fs'
                    first)
                  (IsFirstNamed-IsWalk px size reliable small content m 1 s.fs name (it, o) fs'
                    first)
                  entry)
