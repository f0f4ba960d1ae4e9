-- ===== src/Sfs/Links.antt =====
-- src/sfs.c and src/dir.c: what the search of a directory finds after `sfs_dir_link` and after
-- `sfs_dir_iter_unlink`.
use filesys.Prelude.{
  ℕ, ◌+◌, ◌-◌, ◌^◌, ◌<◌, ◌≤◌, ◌≡◌, ◌≢◌, refl, sym, subst, ap, ◌∙◌, true, false, Option, none, some,
  List, length, arith, if◌then◌else◌,
}
use filesys.Bytes.{Buffer, zeros}
use filesys.Outcome.{Ensures, Ensures-mono, Ensures-bind, ◌>>=◌, ◌>>◌}
use filesys.Os.{Os, IsPosix, IsReliable}
use filesys.Fs.Layout.{Inode, IsInode, ndir_blocks}
use filesys.Fs.State.{Filesystem}
use filesys.Fs.Inode.{inode_block, read_inode}
use filesys.Fs.InodeView.{IsInumber, inode_view}
use filesys.Fs.BlockMap.{pointer, is_outside}
use filesys.Fs.Blocks.{first_from}
use filesys.Dir.Entry.{entry_inumber, set_entry, set_entry_inumber}
use filesys.Dir.Iterate.{DirIterator, dir_iter_unlink}
use filesys.Dir.Link.{dir_link}
use filesys.Dir.FirstFrom.{first_from-some}
use filesys.Dir.Contents.{used-is_outside, IsDirectory-Keeps}
use filesys.Dir.Names.{IsString}
use filesys.Dir.Replace.{replaced}
use filesys.Dir.Linked.{IsTarget}
use filesys.Dir.LinkSlot.{is_free, dir_link-IsLinked}
use filesys.Dir.Dropped.{read_inode-Keeps}
use filesys.Dir.Unlinked.{dir_iter_unlink-IsUnlinked}
use filesys.Dir.Walk.{IsWalk}
use filesys.Sfs.State.{str_eq}
use filesys.Sfs.Lookup.{find_entry}
use filesys.Sfs.Search.{is_named, IsFirstNamed, find_entry_lem}
use filesys.Sfs.Names.{number_at, lookup, lookup-linked, lookup-unlinked}

-- The iterator as `sfs_dir_iterate` makes it.
abbrev pub start : Inode → DirIterator
start directory = record { inode = directory; iblock = 0; entry = 0; cached_block = zeros }

-- The inode number in the entry that a search gives.
abbrev pub inumber_of : DirIterator × Option ℕ → Option ℕ
inumber_of (it, none) = none
inumber_of (it, some position) = some (entry_inumber it.cached_block position)

pub inumber-lt : (i : Inode) → IsInode i → i.inumber < 2 ^ 64
inumber-lt i (a, rest) = omega (arith, a)

module _ ⦃os : Os⦄ (px : IsPosix os) where
  module _ (size : ℕ) (reliable : IsReliable os size) (small : size ≤ 2 ^ 55) where
    -- The search is the lookup in the map.
    pub IsFirstNamed-lookup :
        (content : ℕ → Buffer) (m own : ℕ) (base : Filesystem) (name : List ℕ)
        (a : DirIterator × Option ℕ) (fs : Filesystem)
        → IsFirstNamed px size content m own base name 0 a fs
        → inumber_of a ≡ lookup m content name
    unfolding lookup
    IsFirstNamed-lookup content m own base name (it, none) fs (e, w) = ground (arith, e)
    IsFirstNamed-lookup content m own base name (it, some position) fs (p, loaded, e, w) =
        let all : m - 0 ≡ m = omega arith in
        let first = subst (λ c. first_from c 0 (is_named name content) ≡ some it.iblock) all e in
        ap (λ k. some (entry_inumber it.cached_block k)) p
        ∙ (ap (λ b. some (entry_inumber b 0)) loaded ∙ ap (number_at content) (sym first))

    pub IsFirstNamed-IsWalk :
        (content : ℕ → Buffer) (m own : ℕ) (base : Filesystem) (name : List ℕ)
        (a : DirIterator × Option ℕ) (fs : Filesystem)
        → IsFirstNamed px size content m own base name 0 a fs
        → IsWalk px size content m own base a.0 fs
    IsFirstNamed-IsWalk content m own base name (it, none) fs (e, w) = w
    IsFirstNamed-IsWalk content m own base name (it, some position) fs (p, loaded, e, w) = w

    pub find_entry-lookup :
        (content : ℕ → Buffer) (m own : ℕ) (base : Filesystem) (name : List ℕ) (directory : Inode)
        (fs : Filesystem)
        → IsWalk px size content m own base (start directory) fs
        → Ensures
            (λ a fs'.
              (inumber_of a ≡ lookup m content name) × IsWalk px size content m own base a.0 fs')
            (λ _. ⊥)
            (find_entry name (start directory) fs)
    find_entry-lookup content m own base name directory fs w =
        Ensures-mono
          (find_entry_lem px size content m own base name reliable small (start directory) fs w)
          (λ a fs' h. (
            IsFirstNamed-lookup content m own base name a fs' h,
            IsFirstNamed-IsWalk content m own base name a fs' h,
          ))
          λ _ impossible. impossible

    -- `sfs_dir_link` of a new name into a directory with a free slot, and then the search for a name:
    -- both return, the search for the new name finds the inode, and the search for any other name
    -- finds what it found before. The directory has direct blocks only, the slot's block is on the
    -- disk and no other block of the directory, the inode lies in the inode table, the names are C
    -- strings, the new one of at most 255 characters, and the disk file's transfers are never short.
    pub dir_link-find_entry :
        (content : ℕ → Buffer) (m i : ℕ) (directory inode : Inode) (name other : List ℕ)
        (fs : Filesystem)
        → IsWalk px size content m directory.inumber fs (start directory) fs
        → first_from m 0 (is_free content) ≡ some i
        → is_outside fs.superblock (pointer directory i) ≡ false
        → IsTarget px inode fs
        → IsString name
        → length name ≤ 255
        → IsString other
        → lookup m content name ≡ none
        → Ensures
            (λ a _.
              inumber_of a
              ≡ (if str_eq other name then some inode.inumber else lookup m content other))
            (λ _. ⊥)
            ((do
              (directory', inode') ← dir_link directory name inode
              find_entry other (start directory'))
              fs)
    dir_link-find_entry content m i directory inode name other fs w first inside target s short t
          fresh =
        let (_, below, free, _) = first_from-some m 0 i (is_free content) (λ _. true) first in
        let map =
          lookup-linked m i inode.inumber content name other (omega (arith, below))
            target.number.positive (inumber-lt inode target.ok) s short t free fresh in
        Ensures-bind
          (dir_link-IsLinked px inode size reliable small content directory name m i fs w.within
            w.length w.bounded short first w.directory target inside)
          (λ (directory', inode') fs' l.
            Ensures-mono
              (find_entry-lookup (replaced content i (set_entry (content i) 0 inode.inumber name)) m
                directory'.inumber fs' other directory' fs'
                (record {
                  directory = l.contents;
                  within = rw l.super w.within;
                  length = l.length ∙ w.length;
                  is_dir = rw l.mode w.is_dir;
                  bounded = w.bounded;
                  entry = omega arith;
                  iblock = omega arith;
                  own = refl;
                  super = refl;
                  others = λ j p ne. refl;
                }))
              (λ a _ (e, _). e ∙ map) λ _ impossible. impossible)
          λ _ impossible. impossible

    -- `sfs_dir_iter_unlink` of the entry at which the search for a name has stopped, and then the
    -- search for a name in the directory as it is in the inode table: both return, the search for the
    -- name finds none, and the search for any other name finds what it found before. The name is in
    -- the directory once, its inode lies in the inode table, is not the directory and has other than
    -- one link, so that it is not deallocated; for the rest as for `sfs_dir_link`.
    pub dir_iter_unlink-find_entry :
        (content : ℕ → Buffer) (m n : ℕ) (it : DirIterator) (name other : List ℕ) (fs : Filesystem)
        → IsWalk px size content m it.inode.inumber fs it fs
        → it.cached_block ≡ content it.iblock
        → first_from m 0 (is_named name content) ≡ some it.iblock
        → first_from (m - (it.iblock + 1)) (it.iblock + 1) (is_named name content) ≡ none
        → entry_inumber (content it.iblock) 0 ≡ n
        → IsInumber n
        → inode_block n ≤ fs.superblock.inode_table_blocks
        → (inode_view px fs n).inumber ≡ n
        → (inode_view px fs n).links ≢ 1
        → n ≢ it.inode.inumber
        → IsString name
        → length name ≤ 255
        → IsString other
        → Ensures
            (λ a _. inumber_of a ≡ (if str_eq other name then none else lookup m content other))
            (λ _. ⊥)
            ((do
              dir_iter_unlink it 0
              directory' ← read_inode it.inode.inumber
              find_entry other (start directory'))
              fs)
    dir_iter_unlink-find_entry content m n it name other fs w loaded first only entry number
          in_table own linked ne s short t =
        let n' = it.inode.inumber in
        let after = replaced content it.iblock (set_entry_inumber (content it.iblock) 0 0) in
        let map = lookup-unlinked m it.iblock content name other s short t first only in
        let d = w.directory in
        let (_, below, _, _) =
          first_from-some m 0 it.iblock (is_named name content) (λ _. true) first in
        let direct : it.iblock < ndir_blocks = omega (arith, below, w.bounded) in
        let inside =
          used-is_outside px content it.inode fs it.iblock d direct
            (omega (arith, entry, number.positive)) in
        Ensures-bind
          (dir_iter_unlink-IsUnlinked px size reliable small content it n fs w.within direct loaded
            entry d inside number in_table own linked ne)
          (λ _ fs₁ u.
            let view = inode_view px fs₁ n' in
            Ensures-bind
              (read_inode-Keeps px size reliable small after view n' fs₁ (rw u.super w.within)
                u.contents d.number (rw u.super d.in_table))
              (λ directory' fs₂ (e, k, _).
                let found_in = λ (j : Inode).
                  Ensures
                    (λ a _.
                      inumber_of a ≡ (if str_eq other name then none else lookup m content other))
                    (λ _. ⊥) (find_entry other (start j) fs₂) in
                subst found_in (sym e) (
                  Ensures-mono
                    (find_entry-lookup after m view.inumber fs₂ other view fs₂ (record {
                      directory =
                          IsDirectory-Keeps px after view view fs₁ fs₂ u.contents u.contents.ok refl
                            refl k;
                      within = rw k.super (rw u.super w.within);
                      length = u.length ∙ w.length;
                      is_dir = rw u.mode w.is_dir;
                      bounded = w.bounded;
                      entry = omega arith;
                      iblock = omega arith;
                      own = refl;
                      super = refl;
                      others = λ j p ne. refl;
                    }))
                    (λ a _ (e, _). e ∙ map) λ _ impossible. impossible))
              λ _ impossible. impossible)
          λ _ impossible. impossible
