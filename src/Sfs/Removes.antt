-- ===== src/Sfs/Removes.antt =====
-- src/sfs.c: `sfs_unlink` of a path, and then `sfs_getattr` of any path.
use filesys.Prelude.{
  ℕ, ◌+◌, ◌-◌, ◌^◌, ◌<◌, ◌≤◌, ◌≡◌, ◌≢◌, refl, sym, subst, ap, ◌∙◌, Bool, true, false, Option, none,
  some, List, arith, inl, inr, Bool-cases, ◌==◌, if◌then◌else◌,
}
use filesys.Bytes.{Buffer}
use filesys.Outcome.{Ensures, returns, Ensures-bind, attempt, pure, ◌>>=◌}
use filesys.Os.{Os, IsPosix, IsReliable}
use filesys.Fs.Layout.{Superblock, Inode, ndir_blocks}
use filesys.Fs.State.{Filesystem}
use filesys.Fs.InodeAlloc.{inode_to_stat}
use filesys.Fs.Inode.{inode_block}
use filesys.Fs.InodeView.{inode_view}
use filesys.Fs.BlockMap.{pointer, is_outside}
use filesys.Fs.Blocks.{first_from}
use filesys.Dir.Entry.{entry_inumber, set_entry_inumber}
use filesys.Dir.Iterate.{less_links, is_dir_mode, DirIterator}
use filesys.Dir.FirstFrom.{first_from-some}
use filesys.Dir.Contents.{IsDirectory, used-is_outside}
use filesys.Dir.Names.{IsString}
use filesys.Dir.Replace.{replaced}
use filesys.Dir.Unlinked.{dir_iter_unlink-IsUnlinked}
use filesys.Dir.Walk.{IsWalk}
use filesys.Sfs.State.{Code, value, minus, enoent, Libgen, Sfs, leave, lift, str_eq}
use filesys.Sfs.Lookup.{getattr}
use filesys.Sfs.Files.{unlink, unlink_at}
use filesys.Sfs.Calls.{attempt_lift-returns}
use filesys.Sfs.Search.{is_named, IsFirstNamed}
use filesys.Sfs.Names.{lookup, lookup-unlinked}
use filesys.Sfs.AtRoot.{IsRoot, IsPlain, search_root-first, with_root-first}
use filesys.Sfs.Attributes.{outline, outlined, IsEntry, answer, getattr_lem}

pub unless_none : (b : Bool) (o : Option ℕ) (k : ℕ) → (if b then none else o) ≡ some k → o ≡ some k
unless_none b o k h = ground (arith, h)

module _ ⦃os : Os⦄ (px : IsPosix os) (size : ℕ) (content : ℕ → Buffer) (m i n : ℕ) where
  -- The contents without the entry of block `i`.
  abbrev pub cleared : ℕ → Buffer
  cleared = replaced content i (set_entry_inumber (content i) 0 0)

  -- The entry of block `i` is the only one of the name, and names inode `n`, which has more links.
  pub record IsLinkOf (name : List ℕ) (fs : Filesystem) : Type 0 where
    pub first : first_from m 0 (is_named name content) ≡ some i
    pub only : first_from (m - (i + 1)) (i + 1) (is_named name content) ≡ none
    pub number : entry_inumber (content i) 0 ≡ n
    pub entry : IsEntry px size content m fs n
    pub own : (inode_view px fs n).inumber ≡ n
    pub links : (inode_view px fs n).links ≢ 1

  -- What `sfs_unlink` leaves.
  pub record IsRemoved (s s' : Sfs) : Type 0 where
    pub idle : s'.locked ≡ false
    pub root : IsRoot px size cleared m s'.fs
    pub super : s'.fs.superblock ≡ s.fs.superblock
    pub left : inode_view px s'.fs n ≡ record (less_links (inode_view px s.fs n)) {
      change_time = (inode_view px s'.fs n).change_time;
    }
    pub others :
        (j : ℕ)
        → 0 < j
        → inode_block j ≤ s.fs.superblock.inode_table_blocks
        → j ≢ n
        → j ≢ 1
        → inode_view px s'.fs j ≡ inode_view px s.fs j

  -- What `sfs_getattr` is to answer: inode `n` has a link less.
  abbrev pub remaining : Filesystem → Option ℕ → Code × Option (ℕ × ℕ × ℕ × ℕ)
  remaining fs none = (minus enoent, none)
  remaining fs (some k) = (
    value 0,
    some (
        outline
          (inode_to_stat (if k == n then less_links (inode_view px fs k) else inode_view px fs k))),
  )

  removed-answer :
      (s s' : Sfs) (o : Option ℕ)
      → ((k : ℕ) → o ≡ some k → IsEntry px size content m s.fs k)
      → IsRemoved s s'
      → outlined (answer px size cleared m s'.fs o) ≡ remaining s.fs o
  unfolding inode_to_stat
  removed-answer s s' none entry r = refl
  removed-answer s s' (some k) entry r =
      let (number, table, ne) = entry k refl in
      elim (Bool-cases (k == n)) [
        | inl e ↦
            let same : n ≡ k = ground (arith, e) in
            rw e (
              subst
                (λ j.
                  outlined (answer px size cleared m s'.fs (some j))
                  ≡ (value 0, some (outline (inode_to_stat (less_links (inode_view px s.fs j))))))
                same (ap (λ (j : Inode). (value 0, some (outline (inode_to_stat j)))) r.left))
        | inr e ↦
            let apart : k ≢ n = λ h. ground (arith, h, e) in
            rw e (
              ap (λ (j : Inode). (value 0, some (outline (inode_to_stat j))))
                (r.others k number.positive table apart ne))
      ]

  -- The root directory without the entry.
  pub cleared-IsRoot :
      (it : DirIterator) (fs₀ fs fs' : Filesystem)
      → it.iblock ≡ i
      → IsWalk px size content m 1 fs₀ it fs
      → fs'.superblock.blocks ≡ fs.superblock.blocks
      → IsDirectory px
          (replaced content it.iblock (set_entry_inumber (content it.iblock) 0 0))
          (inode_view px fs' it.inode.inumber)
          fs'
      → (inode_view px fs' it.inode.inumber).size ≡ it.inode.size
      → (inode_view px fs' it.inode.inumber).mode ≡ it.inode.mode
      → (inode_view px fs' it.inode.inumber).inumber ≡ it.inode.inumber
      → IsRoot px size cleared m fs'
  cleared-IsRoot it fs₀ fs fs' at w blocks contents length mode own =
      let view : inode_view px fs' it.inode.inumber ≡ inode_view px fs' 1 =
        ap (inode_view px fs') w.own in
      record {
        directory =
            subst (λ (j : Inode). IsDirectory px cleared j fs') view
              (subst
                (λ k.
                  IsDirectory px (replaced content k (set_entry_inumber (content k) 0 0))
                    (inode_view px fs' it.inode.inumber) fs')
                at contents);
        within = rw blocks w.within;
        length = ap (λ (j : Inode). j.size) (sym view) ∙ (length ∙ w.length);
        bounded = w.bounded;
        entry = omega arith;
        iblock = omega arith;
        is_dir = subst (λ (j : Inode). is_dir_mode j.mode ≡ true) view (rw mode w.is_dir);
        own = ap (λ (j : Inode). j.inumber) (sym view) ∙ (own ∙ w.own);
        super = refl;
        others = λ j p ne. refl;
      }

  -- The search has stopped at the entry, which is in the iterator's block.
  pub unlink_at-first :
      {R : Code × Unit {0} → Sfs → Type 0} (name : List ℕ) (it : DirIterator) (o : Option ℕ)
      (s : Sfs) (fs : Filesystem)
      → first_from m 0 (is_named name content) ≡ some i
      → entry_inumber (content i) 0 ≡ n
      → 0 < n
      → IsFirstNamed px size content m 1 s.fs name 0 (it, o) fs
      → (it.iblock ≡ i
          → it.iblock < ndir_blocks
          → it.cached_block ≡ content it.iblock
          → entry_inumber (content it.iblock) 0 ≡ n
          → is_outside fs.superblock (pointer it.inode it.iblock) ≡ false
          → IsWalk px size content m 1 s.fs it fs
          → Ensures R (λ _. ⊥) (unlink_at it (some 0) (record s { fs = fs; locked = true })))
      → Ensures R (λ _. ⊥) (unlink_at it o (record s { fs = fs; locked = true }))
  unlink_at-first name it none s fs first number positive (e, w) go =
      let all : m - 0 ≡ m = omega arith in
      let none_named = subst (λ c. first_from c 0 (is_named name content) ≡ none) all e in
      ground (arith, none_named, first)
  unlink_at-first name it (some p) s fs first number positive (start_at, loaded, e, w) go =
      let all : m - 0 ≡ m = omega arith in
      let named = subst (λ c. first_from c 0 (is_named name content) ≡ some it.iblock) all e in
      let at : it.iblock ≡ i = ground (arith, named, first) in
      let (_, below, _, _) =
        first_from-some m 0 it.iblock (is_named name content) (λ _. true) named in
      let direct : it.iblock < ndir_blocks = omega (arith, below, w.bounded) in
      let entry : entry_inumber (content it.iblock) 0 ≡ n =
        ap (λ k. entry_inumber (content k) 0) at ∙ number in
      let inside =
        used-is_outside px content it.inode fs it.iblock w.directory direct
          (omega (arith, entry, positive)) in
      rw start_at (go at direct loaded entry inside w)

  module _ (reliable : IsReliable os size) (small : size ≤ 2 ^ 55)
      (memory : (s : os.State) → (os.malloc s).0 ≡ true) where
    unlink_at-IsRemoved :
        (name : List ℕ) (it : DirIterator) (o : Option ℕ) (s : Sfs) (fs : Filesystem)
        → IsLinkOf name s.fs
        → IsFirstNamed px size content m 1 s.fs name 0 (it, o) fs
        → Ensures
            (λ r s'. (r ≡ (value 0, tt)) × IsRemoved s s')
            (λ _. ⊥)
            (unlink_at it o (record s { fs = fs; locked = true }))
    unfolding unlink_at attempt lift leave
    unlink_at-IsRemoved name it o s fs link found =
        let (number, table, ne) = link.entry in
        unlink_at-first name it o s fs link.first link.number number.positive found
          λ at direct loaded entry inside w.
            let seen = w.others n number.positive ne in
            attempt_lift-returns (record s { fs = fs; locked = true }) _ _
              (dir_iter_unlink-IsUnlinked px size reliable small content it n fs w.within direct
                loaded entry w.directory inside number (rw w.super table)
                (ap (λ (j : Inode). j.inumber) seen ∙ link.own)
                (λ one. link.links (ap (λ (j : Inode). j.links) (sym seen) ∙ one))
                (λ same. ne (same ∙ w.own)))
              λ _ fs' u. returns (
                refl,
                record {
                  idle = refl;
                  root =
                      cleared-IsRoot it s.fs fs fs' at w (ap (λ (b : Superblock). b.blocks) u.super)
                        u.contents u.length u.mode u.own;
                  super = u.super ∙ w.super;
                  left =
                      subst
                        (λ (v : Inode). inode_view px fs' n ≡ record (less_links v) {
                          change_time = (inode_view px fs' n).change_time;
                        })
                        seen u.left;
                  others = λ j p in_table apart other.
                      u.others j p apart (λ h. other (h ∙ w.own)) (rw w.super in_table)
                      ∙ w.others j p other;
                },
              )

    unlink-IsRemoved :
        (libgen : Libgen) (path : List ℕ) (s : Sfs)
        → s.locked ≡ false
        → IsRoot px size content m s.fs
        → IsPlain libgen path
        → IsLinkOf (libgen.basename path) s.fs
        → Ensures (λ r s'. (r ≡ (value 0, tt)) × IsRemoved s s') (λ _. ⊥) (unlink libgen path s)
    unfolding unlink
    unlink-IsRemoved libgen path s idle root plain link =
        let name = libgen.basename path in
        with_root-first px size content m reliable small memory libgen path tt _ s idle root plain
          λ fs w. rw plain.deep (
            search_root-first px size content m reliable small memory tt 1 s.fs
              (inode_view px s.fs 1) name unlink_at (record s { fs = fs; locked = true }) w
              λ it o fs' first. unlink_at-IsRemoved name it o s fs' link first)

    -- `sfs_unlink` of a path in /, and then `sfs_getattr` of the same or another path in /: both return,
    -- with the mutex free if it was. The first returns 0. The second returns -ENOENT for the name that was
    -- removed; for any other name it answers with the inode number, mode, links and size that it had,
    -- with a link less if it names the same inode, or with -ENOENT, as before. The root is a directory
    -- of direct blocks, which has the first name once; the inode has other than one link, so that it
    -- is not deallocated;
    -- both inodes lie in the inode table and are not inode 1; the names are C strings that fit an
    -- entry, `malloc` has memory, and the disk file's transfers are never short.
    pub unlink-getattr :
        (libgen : Libgen) (path path' : List ℕ) (s : Sfs)
        → s.locked ≡ false
        → IsRoot px size content m s.fs
        → IsPlain libgen path
        → IsPlain libgen path'
        → IsString (libgen.basename path)
        → IsString (libgen.basename path')
        → IsLinkOf (libgen.basename path) s.fs
        → ((k : ℕ)
            → lookup m content (libgen.basename path') ≡ some k
            → IsEntry px size content m s.fs k)
        → Ensures
            (λ (c, d) s'.
              (c ≡ value 0)
              × (outlined d
                  ≡ remaining s.fs (
                      if str_eq (libgen.basename path') (libgen.basename path)
                      then none
                      else lookup m content (libgen.basename path')))
              × (s'.locked ≡ false))
            (λ _. ⊥)
            ((do (c, _) ← unlink libgen path; d ← getattr libgen path'; pure (c, d)) s)
    unlink-getattr libgen path path' s idle root plain plain' string string' link entry =
        let map =
          lookup-unlinked m i content (libgen.basename path) (libgen.basename path') string
            plain.short string' link.first link.only in
        Ensures-bind (unlink-IsRemoved libgen path s idle root plain link)
          (λ r s₁ (e, removed).
            Ensures-bind
              (getattr_lem px size cleared m reliable small memory libgen path' s₁ removed.idle
                removed.root plain'
                λ k h.
                  let (number, table, ne) = entry k (
                    unless_none (str_eq (libgen.basename path') (libgen.basename path))
                      (lookup m content (libgen.basename path')) k (sym map ∙ h)) in
                  (number, rw removed.super table, ne))
              (λ r' s₂ (e', idle'). returns (
                ap (λ (x : Code × Unit {0}). x.0) e,
                ap outlined e'
                    ∙ (removed-answer s s₁ (lookup m cleared (libgen.basename path'))
                          (λ k h. entry k (
                            unless_none (str_eq (libgen.basename path') (libgen.basename path))
                              (lookup m content (libgen.basename path')) k (sym map ∙ h)))
                          removed
                        ∙ ap (remaining s.fs) map),
                idle',
              ))
              λ _ impossible. impossible)
          λ _ impossible. impossible
