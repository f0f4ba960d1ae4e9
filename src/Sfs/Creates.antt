-- ===== src/Sfs/Creates.antt =====
-- src/sfs.c: `sfs_create` of a path, and then `sfs_getattr` of any path.
use filesys.Prelude.{
  ℕ, Bool, ◌^◌, ◌<◌, ◌≤◌, ◌≡◌, ◌≢◌, refl, sym, subst, ap, ◌∙◌, true, false, Option, none, some,
  List, length, arith, if◌then◌else◌,
}
use filesys.Bytes.{Buffer}
use filesys.Outcome.{Ensures, returns, Ensures-bind, pure, ◌>>=◌}
use filesys.Os.{Os, IsPosix, IsReliable}
use filesys.Fs.Layout.{Inode}
use filesys.Fs.State.{Filesystem}
use filesys.Fs.InodeAlloc.{inode_to_stat}
use filesys.Fs.InodeView.{inode_view, inode_view-IsInode}
use filesys.Filedescriptor.Chain.{IsPool}
use filesys.Dir.FirstFrom.{first_from-some}
use filesys.Dir.LinkSlot.{is_free}
use filesys.Dir.Names.{IsString}
use filesys.Sfs.State.{value, Libgen, Sfs, str_eq}
use filesys.Sfs.Lookup.{getattr}
use filesys.Sfs.Files.{Caller, regular_mode, create}
use filesys.Sfs.Names.{lookup, lookup-linked}
use filesys.Sfs.Links.{inumber-lt}
use filesys.Sfs.AtRoot.{IsRoot, IsPlain}
use filesys.Sfs.Attributes.{outline, outlined, IsEntry, answer, getattr_lem}
use filesys.Sfs.NewFile.{IsCaller}
use filesys.Sfs.Made.{linked, IsCreated, IsNext, IsVacant, create-IsCreated}

module _ ⦃os : Os⦄ (px : IsPosix os) (size : ℕ) (content : ℕ → Buffer) (m i : ℕ) (name : List ℕ)
    (caller : Caller) (mode : ℕ) where
  module _ (reliable : IsReliable os size) (small : size ≤ 2 ^ 55)
      (memory : (s : os.State) → (os.malloc s).0 ≡ true) where
    created-lookup :
        (n : ℕ) (fs fs' : Filesystem) (b : Bool) (o : Option ℕ)
        → IsEntry px size content m fs n
        → ((k : ℕ) → o ≡ some k → IsEntry px size content m fs k × (k ≢ n))
        → IsCreated px size content m i name caller mode n fs fs'
        → (k : ℕ) → (if b then some n else o) ≡ some k
        → IsEntry px size content m fs' k
    created-lookup n fs fs' true o (number, table, ne) entry made k h =
        let same : n ≡ k = ground (arith, h) in
        subst (IsEntry px size content m fs') same (number, rw made.table table, ne)
    created-lookup n fs fs' false o new entry made k h =
        let ((number, table, ne), apart) = entry k h in (number, rw made.table table, ne)

    created-answer :
        (n : ℕ) (fs fs' : Filesystem) (b : Bool) (o : Option ℕ)
        → ((k : ℕ) → o ≡ some k → IsEntry px size content m fs k × (k ≢ n))
        → IsCreated px size content m i name caller mode n fs fs'
        → outlined (answer px size content m fs' (if b then some n else o)) ≡ (
            if b
            then (value 0, some (n, regular_mode mode caller.umask, 2, 0))
            else outlined (answer px size content m fs o))
    unfolding inode_to_stat
    created-answer n fs fs' true o entry made =
        rw made.number (rw made.kind (rw made.links (rw made.empty refl)))
    created-answer n fs fs' false none entry made = refl
    created-answer n fs fs' false (some k) entry made =
        let ((number, table, ne), apart) = entry k refl in
        ap (λ (j : Inode). (value 0, some (outline (inode_to_stat j))))
          (made.others k number.positive table apart ne)

    -- `sfs_create` of a path in / which the directory does not have, and then `sfs_getattr` of the same
    -- or another path in /: both return, with the mutex free if it was. The first returns 0. The second answers
    -- for the new name with the first free inode, which is an empty regular file with two links; for
    -- any other name it answers with the inode number, mode, links and size that it had, or with
    -- -ENOENT, as before. The root is a directory of direct blocks, whose first free slot lies in a
    -- block that is written already, with a byte that is not 0, so that it does not grow; the inodes lie in the inode table and are not inode 1, and the
    -- free one is not the other name's; the names are C strings that fit an entry, the pool is
    -- well formed, the ids have 32 bits, `malloc` has memory, and the disk file's transfers are never
    -- short.
    pub create-getattr :
        (libgen : Libgen) (path path' : List ℕ) (flags j : ℕ) (ks : List ℕ) (s : Sfs)
        → libgen.basename path ≡ name
        → s.locked ≡ false
        → IsRoot px size content m s.fs
        → IsPlain libgen path
        → IsPlain libgen path'
        → IsString name
        → IsString (libgen.basename path')
        → IsPool s.pool ks
        → IsCaller caller
        → IsVacant content m i j
        → IsNext px size content m s.fs
        → lookup m content name ≡ none
        → ((k : ℕ)
            → lookup m content (libgen.basename path') ≡ some k
            → IsEntry px size content m s.fs k × (k ≢ s.fs.superblock.free_inode_head))
        → Ensures
            (λ (c, d) s'.
              (c ≡ value 0)
              × (outlined d ≡ (
                  if str_eq (libgen.basename path') name
                  then (
                    value 0,
                    some (s.fs.superblock.free_inode_head, regular_mode mode caller.umask, 2, 0),
                  )
                  else outlined
                      (answer px size content m s.fs (lookup m content (libgen.basename path')))))
              × (s'.locked ≡ false))
            (λ _. ⊥)
            ((do
              (c, _) ← create libgen caller path mode flags
              d ← getattr libgen path'
              pure (c, d))
              s)
    create-getattr libgen path path' flags j ks s is_name idle root plain plain' string string' pool
          ids vacant next fresh entry =
        let head = s.fs.superblock.free_inode_head in
        let name' = libgen.basename path' in
        let o = lookup m content name' in
        let same = str_eq name' name in
        let (_, below, free, _) =
          first_from-some m 0 i (is_free content) (λ _. true) vacant.first in
        let map =
          lookup-linked m i head content name name' (omega (arith, below)) next.entry.0.positive
            (subst (λ n. n < 2 ^ 64) next.own
              (inumber-lt (inode_view px s.fs head) (inode_view-IsInode px s.fs head)))
            string (subst (λ n. length n ≤ 255) is_name plain.short) string' free fresh in
        Ensures-bind
          (create-IsCreated px size content m i name caller mode reliable small memory libgen path
            flags j ks s is_name idle root plain pool ids vacant next fresh)
          (λ r s₁ (code, idle', made).
            Ensures-bind
              (getattr_lem px size (linked px size content m i name caller mode head) m reliable
                small memory libgen path' s₁ idle' made.root plain'
                λ k h. created-lookup head s.fs s₁.fs same o next.entry entry made k (sym map ∙ h))
              (λ d s₂ (e, free'). returns (
                code,
                ap outlined (
                      e
                      ∙ ap
                          (answer px size (linked px size content m i name caller mode head) m
                            s₁.fs)
                          map)
                    ∙ created-answer head s.fs s₁.fs same o entry made,
                free',
              ))
              λ _ impossible. impossible)
          λ _ impossible. impossible
