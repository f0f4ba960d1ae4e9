-- ===== src/Sfs/Made.antt =====
-- src/sfs.c: what `sfs_create` of a path makes.
use filesys.Prelude.{
  ℕ, ◌^◌, ◌<◌, ◌≤◌, ◌≡◌, ◌≢◌, refl, sym, subst, ap, ◌∙◌, true, false, Option, none, some, List,
  length, arith,
}
use filesys.Bytes.{Buffer}
use filesys.Outcome.{Ensures, Ensures-attempt, Ensures-mono, attempt}
use filesys.Os.{Os, IsPosix, IsReliable}
use filesys.Fs.Layout.{Inode, IsInode, Superblock}
use filesys.Fs.State.{Filesystem}
use filesys.Fs.Inode.{inode_block}
use filesys.Fs.InodeView.{IsInumber, inode_view, inode_view-IsInode}
use filesys.Fs.Blocks.{first_from}
use filesys.Filedescriptor.Chain.{IsPool}
use filesys.Dir.Entry.{set_entry}
use filesys.Dir.Iterate.{DirIterator, is_dir_mode}
use filesys.Dir.FirstFrom.{first_from-some}
use filesys.Dir.Contents.{
  IsDirectory, IsDirectory-Keeps, Keeps-memory, inode_view-memory, written-is_outside,
}
use filesys.Dir.LinkSlot.{is_free}
use filesys.Dir.Replace.{replaced}
use filesys.Dir.Taken.{IsTaken, inode_allocate-IsTaken}
use filesys.Dir.Walk.{IsWalk}
use filesys.Sfs.State.{value, Libgen, Sfs, lift}
use filesys.Sfs.Files.{Caller, regular_mode, create, create_at, new_file}
use filesys.Sfs.Calls.{attempt_lift-returns}
use filesys.Sfs.Search.{IsFirstNamed}
use filesys.Sfs.Names.{lookup}
use filesys.Sfs.Links.{IsFirstNamed-lookup}
use filesys.Sfs.AtRoot.{IsRoot, IsPlain, search_root-first, with_root-first}
use filesys.Sfs.Attributes.{IsEntry}
use filesys.Sfs.NewFile.{IsCaller, IsMade, new_file-IsMade}
use filesys.Sfs.Opens.{IsCalm, leave_open-IsCalm}

some_ne : {n : ℕ} {o : Option ℕ} → o ≡ some n → o ≡ none → ⊥
some_ne h e = ground (arith, h, e)

-- The first free slot of the directory is in block `i`, which has a byte that is not 0 at `j`.
pub record IsVacant (content : ℕ → Buffer) (m i j : ℕ) : Type 0 where
  pub first : first_from m 0 (is_free content) ≡ some i
  pub written : content i j ≢ 0

module _ ⦃os : Os⦄ (px : IsPosix os) (size : ℕ) (content : ℕ → Buffer) (m : ℕ) where
  -- The first free inode is one of the table's, and not the root.
  pub record IsNext (fs : Filesystem) : Type 0 where
    pub entry : IsEntry px size content m fs fs.superblock.free_inode_head
    pub own :
        (inode_view px fs fs.superblock.free_inode_head).inumber ≡ fs.superblock.free_inode_head

module _ ⦃os : Os⦄ (px : IsPosix os) (size : ℕ) (content : ℕ → Buffer) (m i : ℕ) (name : List ℕ)
    (caller : Caller) (mode : ℕ) where
  -- The contents with the entry of inode `n`.
  abbrev pub linked : ℕ → ℕ → Buffer
  linked n = replaced content i (set_entry (content i) 0 n name)

  -- Inode 1 is the root directory with the entry of inode `n`, an empty regular file with two links.
  pub record IsCreated (n : ℕ) (fs fs' : Filesystem) : Type 0 where
    pub root : IsRoot px size (linked n) m fs'
    pub table : fs'.superblock.inode_table_blocks ≡ fs.superblock.inode_table_blocks
    pub number : (inode_view px fs' n).inumber ≡ n
    pub kind : (inode_view px fs' n).mode ≡ regular_mode mode caller.umask
    pub links : (inode_view px fs' n).links ≡ 2
    pub empty : (inode_view px fs' n).size ≡ 0
    pub others :
        (k : ℕ)
        → 0 < k
        → inode_block k ≤ fs.superblock.inode_table_blocks
        → k ≢ n
        → k ≢ 1
        → inode_view px fs' k ≡ inode_view px fs k

  IsMade-IsCreated :
      (it : DirIterator) (file : Inode) (n : ℕ) (base fs fs₁ fs₂ fs₃ : Filesystem)
      → IsWalk px size content m 1 base it fs
      → file.inumber ≡ n
      → IsTaken px content it.inode fs fs₁
      → IsMade px size content m i name caller mode it.inode file fs₁ fs₂
      → IsCalm px fs₂ fs₃
      → IsCreated n base fs₃
  IsMade-IsCreated it file n base fs fs₁ fs₂ fs₃ w e taken made calm =
      let d = made.contents in
      let keeps = Keeps-memory px fs₂ fs₃ d.coherent d.cached calm.memory calm.blocks in
      let v = inode_view px fs₂ it.inode.inumber in
      let same : (j : ℕ) → inode_view px fs₃ j ≡ inode_view px fs₂ j =
        λ j. inode_view-memory px fs₂ fs₃ j calm.memory (calm.blocks (inode_block j)) in
      let view : v ≡ inode_view px fs₃ 1 =
        sym (same it.inode.inumber) ∙ ap (inode_view px fs₃) w.own in
      let new : inode_view px fs₃ n ≡ inode_view px fs₂ file.inumber =
        ap (inode_view px fs₃) (sym e) ∙ same file.inumber in
      record {
        root = record {
          directory =
              subst (λ k. IsDirectory px (linked k) (inode_view px fs₃ 1) fs₃) e
                (subst (λ (j : Inode). IsDirectory px (linked file.inumber) j fs₃) view
                  (IsDirectory-Keeps px (linked file.inumber) v v fs₂ fs₃ d d.ok refl refl keeps));
          within = rw keeps.super (rw made.super (rw taken.blocks w.within));
          length = ap (λ (j : Inode). j.size) (sym view) ∙ (made.length ∙ w.length);
          bounded = w.bounded;
          entry = omega arith;
          iblock = omega arith;
          is_dir = subst (λ (j : Inode). is_dir_mode j.mode ≡ true) view (rw made.folder w.is_dir);
          own = ap (λ (j : Inode). j.inumber) (sym view) ∙ (made.own ∙ w.own);
          super = refl;
          others = λ j p ne. refl;
        };
        table =
            ap (λ (s : Superblock). s.inode_table_blocks) (keeps.super ∙ made.super)
            ∙ (taken.table ∙ ap (λ (s : Superblock). s.inode_table_blocks) w.super);
        number = ap (λ (j : Inode). j.inumber) new ∙ (made.number ∙ e);
        kind = ap (λ (j : Inode). j.mode) new ∙ made.kind;
        links = ap (λ (j : Inode). j.links) new ∙ made.links;
        empty = ap (λ (j : Inode). j.size) new ∙ made.empty;
        others = λ k p in_table other apart.
            same k
            ∙ (made.others k p (rw taken.table (rw w.super in_table)) (λ h. other (h ∙ e))
                  (λ h. apart (h ∙ w.own))
                ∙ (taken.views k p ∙ w.others k p apart));
      }

  module _ (reliable : IsReliable os size) (small : size ≤ 2 ^ 55)
      (memory : (s : os.State) → (os.malloc s).0 ≡ true) where
    -- The inode is allocated, linked and opened.
    create_at-IsCreated :
        (flags j : ℕ) (ks : List ℕ) (it : DirIterator) (o : Option ℕ) (s : Sfs) (fs : Filesystem)
        → IsPool s.pool ks
        → IsCaller caller
        → length name ≤ 255
        → IsVacant content m i j
        → IsNext px size content m s.fs
        → lookup m content name ≡ none
        → IsFirstNamed px size content m 1 s.fs name 0 (it, o) fs
        → Ensures
            (λ r s'.
              (r.0 ≡ value 0)
              × (s'.locked ≡ false)
              × IsCreated s.fs.superblock.free_inode_head s.fs s'.fs)
            (λ _. ⊥)
            (create_at caller mode flags name it o (record s { fs = fs; locked = true }))
    unfolding create_at attempt lift
    create_at-IsCreated flags j ks it (some p) s fs pool ids short vacant next fresh first =
        absurd (
          some_ne
            (sym (
              IsFirstNamed-lookup px size reliable small content m 1 s.fs name (it, some p) fs
                first))
            fresh)
    create_at-IsCreated flags j ks it none s fs pool ids short vacant next fresh (e, w) =
        let head = s.fs.superblock.free_inode_head in
        let (number, table, ne) = next.entry in
        let same : fs.superblock.free_inode_head ≡ head =
          ap (λ (b : Superblock). b.free_inode_head) w.super in
        let s₁ = record s { fs = fs; locked = true } in
        let (_, below, _, _) = first_from-some m 0 i (is_free content) (λ _. true) vacant.first in
        attempt_lift-returns s₁ _ _
          (inode_allocate-IsTaken px size reliable small content it.inode fs w.within w.directory
            (subst IsInumber (sym same) number)
            (subst (λ n. inode_block n ≤ fs.superblock.inode_table_blocks) (sym same)
              (rw w.super table)))
          λ file fs₁ (is_head, taken).
            let seen : file ≡ inode_view px s.fs head =
              is_head ∙ (ap (inode_view px fs) same ∙ w.others head number.positive ne) in
            let named : file.inumber ≡ head = ap (λ (k : Inode). k.inumber) seen ∙ next.own in
            let s₂ = record s₁ { fs = fs₁ } in
            Ensures-attempt (new_file caller mode it.inode name file) _ _ s₂
              (new_file-IsMade px size content m i name caller mode it.inode file reliable small s₂
                ids (rw taken.blocks w.within) taken.contents w.length w.bounded short vacant.first
                (written-is_outside px content it.inode fs₁ i j taken.contents
                  (omega (arith, below, w.bounded)) vacant.written)
                (record {
                  ok = subst IsInode (sym seen) (inode_view-IsInode px s.fs head);
                  number = subst IsInumber (sym named) number;
                  in_table = rw named (rw taken.table (rw w.super table));
                  apart = λ h. ne (sym named ∙ (h ∙ w.own));
                }))
              (λ _ s₃ (same_pool, made).
                Ensures-mono
                  (leave_open-IsCalm px memory file.inumber flags s₃ ks
                    (subst (λ p. IsPool p ks) (sym same_pool) pool))
                  (λ r s₄ (code, idle, calm). (
                    code,
                    idle,
                    IsMade-IsCreated it file head s.fs fs fs₁ s₃.fs s₄.fs w named taken made calm,
                  ))
                  λ _ impossible. impossible)
              λ _ impossible. absurd impossible

    pub create-IsCreated :
        (libgen : Libgen) (path : List ℕ) (flags j : ℕ) (ks : List ℕ) (s : Sfs)
        → libgen.basename path ≡ name
        → s.locked ≡ false
        → IsRoot px size content m s.fs
        → IsPlain libgen path
        → IsPool s.pool ks
        → IsCaller caller
        → IsVacant content m i j
        → IsNext px size content m s.fs
        → lookup m content name ≡ none
        → Ensures
            (λ r s'.
              (r.0 ≡ value 0)
              × (s'.locked ≡ false)
              × IsCreated s.fs.superblock.free_inode_head s.fs s'.fs)
            (λ _. ⊥)
            (create libgen caller path mode flags s)
    unfolding create
    create-IsCreated libgen path flags j ks s is_name idle root plain pool ids vacant next fresh =
        with_root-first px size content m reliable small memory libgen path none _ s idle root plain
          λ fs w. rw is_name (
            search_root-first px size content m reliable small memory none 1 s.fs
              (inode_view px s.fs 1) name (create_at caller mode flags name)
              (record s { fs = fs; locked = true }) w
              λ it o fs' first.
                create_at-IsCreated flags j ks it o s fs' pool ids
                  (subst (λ n. length n ≤ 255) is_name plain.short) vacant next fresh first)
