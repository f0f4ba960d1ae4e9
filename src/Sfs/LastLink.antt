-- ===== src/Sfs/LastLink.antt =====
-- src/sfs.c: `sfs_unlink` of the last link of an inode without direct blocks, and then `sfs_getattr`.
use filesys.Prelude.{
  take, ℕ, ◌+◌, ◌-◌, ◌^◌, ◌<◌, ◌≤◌, ◌≡◌, ◌≢◌, refl, sym, subst, ap, ◌∙◌, Bool, true, false, Option,
  none, some, List, arith, if◌then◌else◌,
}
use filesys.Bytes.{Buffer}
use filesys.Fs.FreeInodes.Deallocate.{Holes}
use filesys.Outcome.{Ensures-mono, Ensures, returns, attempt}
use filesys.Os.{Os, IsPosix, IsReliable}
use filesys.Fs.Layout.{Superblock, Inode, ndir_blocks}
use filesys.Fs.State.{Filesystem}
use filesys.Fs.InodeAlloc.{inode_to_stat}
use filesys.Fs.Inode.{inode_block}
use filesys.Fs.InodeView.{inode_view}
use filesys.Fs.Blocks.{first_from}
use filesys.Dir.Entry.{entry_inumber}
use filesys.Dir.Iterate.{DirIterator}
use filesys.Dir.Names.{IsString}
use filesys.Dir.Walk.{IsWalk}
use filesys.Sfs.State.{value, Libgen, Sfs, leave, lift, str_eq}
use filesys.Sfs.Lookup.{getattr}
use filesys.Sfs.Files.{unlink, unlink_at}
use filesys.Sfs.Calls.{attempt_lift-returns}
use filesys.Sfs.Search.{is_named, IsFirstNamed}
use filesys.Sfs.Names.{lookup, lookup-unlinked}
use filesys.Sfs.AtRoot.{IsRoot, IsPlain, search_root-first, with_root-first}
use filesys.Sfs.Attributes.{IsEntry, answer, getattr_lem}
use filesys.Dir.LastLink.{IsLastLink, dir_iter_unlink-IsUnlinkedLast}
use filesys.Sfs.Removes.{cleared, cleared-IsRoot, unlink_at-first, unless_none}

unless_same : (b : Bool) (o : Option ℕ) (k : ℕ) → (if b then none else o) ≡ some k → b ≡ false
unless_same b o k h = ground (arith, h)

module _ ⦃os : Os⦄ (px : IsPosix os) (size : ℕ) (content : ℕ → Buffer) (m i n : ℕ) where
  -- The entry of block `i` is the only one of the name, and the only link of inode `n`.
  pub record IsOnlyLinkOf (name : List ℕ) (fs : Filesystem) : Type 0 where
    pub first : first_from m 0 (is_named name content) ≡ some i
    pub only : first_from (m - (i + 1)) (i + 1) (is_named name content) ≡ none
    pub number : entry_inumber (content i) 0 ≡ n
    pub apart : n ≢ 1
    pub last : IsLastLink px n fs

  -- What `sfs_unlink` leaves: inode `n` is the first free one, and the inodes but it and the root's are
  -- as they were.
  pub record IsFreed (s s' : Sfs) : Type 0 where
    pub idle : s'.locked ≡ false
    pub root : IsRoot px size (cleared px size content m i n) m s'.fs
    pub table : s'.fs.superblock.inode_table_blocks ≡ s.fs.superblock.inode_table_blocks
    pub head : s'.fs.superblock.free_inode_head ≡ n
    pub others :
        (j : ℕ)
        → 0 < j
        → inode_block j ≤ s.fs.superblock.inode_table_blocks
        → j ≢ n
        → j ≢ 1
        → inode_view px s'.fs j ≡ inode_view px s.fs j

  IsLastLink-IsWalk :
      (it : DirIterator) (fs₀ fs : Filesystem)
      → n ≢ 1
      → IsWalk px size content m 1 fs₀ it fs
      → IsLastLink px n fs₀
      → IsLastLink px n fs
  IsLastLink-IsWalk it fs₀ fs ne w last =
      let seen = w.others n last.number.positive ne in
      record {
        number = last.number;
        in_table = rw w.super last.in_table;
        own = ap (λ (j : Inode). j.inumber) seen ∙ last.own;
        links = ap (λ (j : Inode). j.links) seen ∙ last.links;
        holes =
            subst (λ (j : Inode). Holes (take ndir_blocks j.block_pointers)) (sym seen) last.holes;
        head = rw w.super last.head;
      }

  freed-answer :
      (s s' : Sfs) (o : Option ℕ)
      → ((k : ℕ) → o ≡ some k → IsEntry px size content m s.fs k × (k ≢ n))
      → IsFreed s s'
      → answer px size (cleared px size content m i n) m s'.fs o ≡ answer px size content m s.fs o
  freed-answer s s' none entry r = refl
  freed-answer s s' (some k) entry r =
      let ((number, table, ne), apart) = entry k refl in
      ap (λ (j : Inode). (value 0, some (inode_to_stat j)))
        (r.others k number.positive table apart ne)

  module _ (reliable : IsReliable os size) (small : size ≤ 2 ^ 55)
      (memory : (s : os.State) → (os.malloc s).0 ≡ true) where
    unlink_at-IsFreed :
        (name : List ℕ) (it : DirIterator) (o : Option ℕ) (s : Sfs) (fs : Filesystem)
        → IsOnlyLinkOf name s.fs
        → IsFirstNamed px size content m 1 s.fs name 0 (it, o) fs
        → Ensures
            (λ r s'. (r ≡ (value 0, tt)) × IsFreed s s')
            (λ _. ⊥)
            (unlink_at it o (record s { fs = fs; locked = true }))
    unfolding unlink_at attempt lift leave
    unlink_at-IsFreed name it o s fs link found =
        unlink_at-first px size content m i n name it o s fs link.first link.number
          link.last.number.positive found
          λ at direct loaded entry inside w.
            attempt_lift-returns (record s { fs = fs; locked = true }) _ _
              (dir_iter_unlink-IsUnlinkedLast px size reliable small content it n fs w.within direct
                loaded entry w.directory inside
                (IsLastLink-IsWalk it s.fs fs link.apart w link.last)
                (λ same. link.apart (same ∙ w.own)))
              λ _ fs' u. returns (
                refl,
                record {
                  idle = refl;
                  root =
                      cleared-IsRoot px size content m i n it s.fs fs fs' at w u.blocks u.contents
                        u.length u.mode u.own;
                  table = u.table ∙ ap (λ (b : Superblock). b.inode_table_blocks) w.super;
                  head = u.head;
                  others = λ j p in_table apart other.
                      u.others j p apart (λ h. other (h ∙ w.own)) (rw w.super in_table)
                      ∙ w.others j p other;
                },
              )

    unlink-IsFreed :
        (libgen : Libgen) (path : List ℕ) (s : Sfs)
        → s.locked ≡ false
        → IsRoot px size content m s.fs
        → IsPlain libgen path
        → IsOnlyLinkOf (libgen.basename path) s.fs
        → Ensures (λ r s'. (r ≡ (value 0, tt)) × IsFreed s s') (λ _. ⊥) (unlink libgen path s)
    unfolding unlink
    unlink-IsFreed libgen path s idle root plain link =
        let name = libgen.basename path in
        with_root-first px size content m reliable small memory libgen path tt _ s idle root plain
          λ fs w. rw plain.deep (
            search_root-first px size content m reliable small memory tt 1 s.fs
              (inode_view px s.fs 1) name unlink_at (record s { fs = fs; locked = true }) w
              λ it o fs' first. unlink_at-IsFreed name it o s fs' link first)

    -- `sfs_unlink` of a path in / that is the last link of an inode without direct blocks, and then
    -- `sfs_getattr` of the same or another path in /: both return, with the mutex free if it was. The
    -- first returns 0 and leaves the inode as the first free one. The second returns -ENOENT for the
    -- name that was removed; for any other name it answers as before, with all the attributes that
    -- the inode had, or with -ENOENT. The root is a directory of direct blocks, which has the first
    -- name once; the other name does not lead to the same inode; both inodes lie in the inode table
    -- and are not inode 1; the head of the list of free inodes has 64 bits; the names are C strings
    -- that fit an entry, `malloc` has memory, and the disk file's transfers are never short.
    pub unlink_last-getattr :
        (libgen : Libgen) (path path' : List ℕ) (s : Sfs)
        → s.locked ≡ false
        → IsRoot px size content m s.fs
        → IsPlain libgen path
        → IsPlain libgen path'
        → IsString (libgen.basename path)
        → IsString (libgen.basename path')
        → IsOnlyLinkOf (libgen.basename path) s.fs
        → ((k : ℕ)
            → lookup m content (libgen.basename path') ≡ some k
            → (str_eq (libgen.basename path') (libgen.basename path) ≡ false)
            → IsEntry px size content m s.fs k × (k ≢ n))
        → Ensures
            (λ r s'.
              (r ≡ (value 0, tt))
              × (s'.fs.superblock.free_inode_head ≡ n)
              × Ensures
                  (λ d s''.
                    (d
                      ≡ answer px size content m s.fs (
                          if str_eq (libgen.basename path') (libgen.basename path)
                          then none
                          else lookup m content (libgen.basename path')))
                    × (s''.locked ≡ false))
                  (λ _. ⊥)
                  (getattr libgen path' s'))
            (λ _. ⊥)
            (unlink libgen path s)
    unlink_last-getattr libgen path path' s idle root plain plain' string string' link entry =
        let same = str_eq (libgen.basename path') (libgen.basename path) in
        let o = lookup m content (libgen.basename path') in
        let map =
          lookup-unlinked m i content (libgen.basename path) (libgen.basename path') string
            plain.short string' link.first link.only in
        let seen : (k : ℕ)
            → (if same then none else o) ≡ some k
            → IsEntry px size content m s.fs k × (k ≢ n) =
          λ k h. entry k (unless_none same o k h) (unless_same same o k h) in
        Ensures-mono (unlink-IsFreed libgen path s idle root plain link)
          (λ r s₁ (e, freed). (
            e,
            freed.head,
            Ensures-mono
                (getattr_lem px size (cleared px size content m i n) m reliable small memory libgen
                  path' s₁ freed.idle freed.root plain'
                  λ k h.
                    let ((number, table, ne), _) = seen k (sym map ∙ h) in
                    (number, rw freed.table table, ne))
                (λ d s₂ (e', idle'). (
                  e'
                      ∙ (ap (answer px size (cleared px size content m i n) m s₁.fs) map
                          ∙ freed-answer s s₁ (if same then none else o) seen freed),
                  idle',
                ))
                λ _ impossible. impossible,
          ))
          λ _ impossible. impossible
