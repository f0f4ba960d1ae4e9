-- ===== src/Sfs/NewFile.antt =====
-- src/sfs.c: the inode and the entry that `sfs_create` makes.
use native.Mathlib.Nat.{pow-suc}
use filesys.Prelude.{
  ℕ, zero, suc, ◌*◌, ◌/◌, ◌%◌, ◌^◌, ◌<◌, ◌≤◌, ◌≡◌, ◌≢◌, refl, sym, subst, ap, ◌∙◌, false, List,
  length, some, arith,
}
use filesys.Bytes.{Buffer}
use filesys.Outcome.{Ensures, returns}
use filesys.Os.{Os, IsPosix, IsReliable}
use filesys.Block.Laws.{block_at-time}
use filesys.Fs.Layout.{Inode, IsInode, ndir_blocks}
use filesys.Fs.State.{Filesystem, time_now}
use filesys.Fs.Inode.{inode_block}
use filesys.Fs.InodeView.{IsInumber, inode_view}
use filesys.Fs.Blocks.{first_from}
use filesys.Fs.BlockMap.{pointer, is_outside}
use filesys.Dir.Entry.{set_entry}
use filesys.Dir.Contents.{
  IsDirectory, IsDirectory-Keeps, Keeps-time, inode_view-memory, write_inode-Keeps,
}
use filesys.Dir.Replace.{replaced}
use filesys.Dir.Linked.{IsLinked}
use filesys.Dir.LinkSlot.{is_free, dir_link-IsLinked}
use filesys.Dir.Dropped.{Keeps-trans}
use filesys.Sfs.State.{Sfs, lift, with_fs}
use filesys.Sfs.Files.{Caller, and_not, regular_mode, new_inode, new_file}
use filesys.Sfs.Calls.{lift-returns}

and_not-lt : (w n mask : ℕ) → and_not w n mask < 2 ^ w
unfolding and_not
and_not-lt zero n mask = omega arith
and_not-lt (suc w) n mask =
    let rest = and_not-lt w (n / 2) (mask / 2) in rw pow-suc (ground (arith, rest))

-- The ids of the caller fit their fields.
pub record IsCaller (caller : Caller) : Type 0 where
  pub uid : caller.uid < 2 ^ 32
  pub gid : caller.gid < 2 ^ 32

module _ ⦃os : Os⦄ where
  new_inode-IsInode :
      (caller : Caller) (mode t₁ t₂ t₃ : ℕ) (directory file : Inode)
      → IsCaller caller
      → IsInode file
      → IsInode (new_inode caller mode (t₁ % 2 ^ 64) (t₂ % 2 ^ 64) (t₃ % 2 ^ 64) directory file)
  new_inode-IsInode caller mode t₁ t₂ t₃ directory file c (a, (b, (u, (g, rest)))) =
      let bits = and_not-lt 12 mode caller.umask in
      (a, (omega (arith, bits), (omega (arith, c.uid), (ground (arith, c.gid, g), omega arith))))

module _ ⦃os : Os⦄ (px : IsPosix os) (size : ℕ) (content : ℕ → Buffer) (m i : ℕ) (name : List ℕ)
    (caller : Caller) (mode : ℕ) (directory file : Inode) where
  -- The contents with the entry of the new file.
  abbrev pub added : ℕ → Buffer
  added = replaced content i (set_entry (content i) 0 file.inumber name)

  -- What `sfs_create` has made: a regular file with two links, which has the entry.
  pub record IsMade (fs fs' : Filesystem) : Type 0 where
    pub contents : IsDirectory px added (inode_view px fs' directory.inumber) fs'
    pub super : fs'.superblock ≡ fs.superblock
    pub own : (inode_view px fs' directory.inumber).inumber ≡ directory.inumber
    pub length : (inode_view px fs' directory.inumber).size ≡ directory.size
    pub folder : (inode_view px fs' directory.inumber).mode ≡ directory.mode
    pub number : (inode_view px fs' file.inumber).inumber ≡ file.inumber
    pub kind : (inode_view px fs' file.inumber).mode ≡ regular_mode mode caller.umask
    pub links : (inode_view px fs' file.inumber).links ≡ 2
    pub empty : (inode_view px fs' file.inumber).size ≡ 0
    pub others :
        (n : ℕ)
        → 0 < n
        → inode_block n ≤ fs.superblock.inode_table_blocks
        → n ≢ file.inumber
        → n ≢ directory.inumber
        → inode_view px fs' n ≡ inode_view px fs n

  IsLinked-IsMade :
      (now₁ now₂ now₃ : ℕ) (fs fs₁ fs' : Filesystem) (result : Inode × Inode)
      → 0 < directory.inumber
      → 0 < file.inumber
      → inode_block directory.inumber ≤ fs₁.superblock.inode_table_blocks
      → inode_block file.inumber ≤ fs₁.superblock.inode_table_blocks
      → file.inumber ≢ directory.inumber
      → fs₁.superblock ≡ fs.superblock
      → ((n : ℕ) → 0 < n → n ≢ file.inumber → inode_view px fs₁ n ≡ inode_view px fs n)
      → IsLinked px
          (new_inode caller mode now₁ now₂ now₃ directory file)
          added
          directory
          fs₁
          result
          fs'
      → IsMade fs fs'
  IsLinked-IsMade now₁ now₂ now₃ fs fs₁ fs' result positive positive' table table' ne super before
        l =
      let view : inode_view px fs' directory.inumber ≡ result.0 =
        l.inodes directory.inumber positive table ∙ ground (arith, ne) in
      let view' : inode_view px fs' file.inumber ≡ result.1 =
        l.inodes file.inumber positive' table' ∙ ground arith in
      let changed = view' ∙ l.changed in
      record {
        contents = subst (λ (j : Inode). IsDirectory px added j fs') (sym view) l.contents;
        super = l.super ∙ super;
        own = ap (λ (j : Inode). j.inumber) view ∙ l.own;
        length = ap (λ (j : Inode). j.size) view ∙ l.length;
        folder = ap (λ (j : Inode). j.mode) view ∙ l.mode;
        number = ap (λ (j : Inode). j.inumber) changed;
        kind = ap (λ (j : Inode). j.mode) changed;
        links = ap (λ (j : Inode). j.links) changed;
        empty = ap (λ (j : Inode). j.size) changed;
        others = λ n p in_table other apart.
            l.inodes n p (rw super in_table) ∙ ground (arith, other, apart, before n p other);
      }

  -- What the new inode is to the state.
  pub record IsFresh (fs : Filesystem) : Type 0 where
    pub ok : IsInode file
    pub number : IsInumber file.inumber
    pub in_table : inode_block file.inumber ≤ fs.superblock.inode_table_blocks
    pub apart : file.inumber ≢ directory.inumber

  module _ (reliable : IsReliable os size) (small : size ≤ 2 ^ 55) where
    pub new_file-IsMade :
        (s : Sfs)
        → IsCaller caller
        → s.fs.superblock.blocks ≤ size
        → IsDirectory px content directory s.fs
        → directory.size ≡ m * 512
        → m ≤ ndir_blocks
        → length name ≤ 255
        → first_from m 0 (is_free content) ≡ some i
        → is_outside s.fs.superblock (pointer directory i) ≡ false
        → IsFresh s.fs
        → Ensures
            (λ _ s'. (s'.pool ≡ s.pool) × IsMade s.fs s'.fs)
            (λ _. ⊥)
            (new_file caller mode directory name file s)
    unfolding new_file lift with_fs time_now
    new_file-IsMade s ids within d whole direct short first inside fresh =
        let st = s.fs.os_state in
        let st₁ = (os.time st).1 in
        let st₂ = (os.time st₁).1 in
        let t₁ = (os.time st).0 in
        let t₂ = (os.time st₁).0 in
        let t₃ = (os.time st₂).0 in
        let fs₁ : Filesystem = record s.fs { os_state = st₁ } in
        let fs₂ : Filesystem = record s.fs { os_state = st₂ } in
        let fs₃ : Filesystem = record s.fs { os_state = (os.time st₂).1 } in
        let k₁ = Keeps-time px s.fs d.coherent d.cached in
        let k₂ = Keeps-trans px s.fs fs₁ fs₂ k₁ (Keeps-time px fs₁ k₁.coherent k₁.cached) in
        let k₃ = Keeps-trans px s.fs fs₂ fs₃ k₂ (Keeps-time px fs₂ k₂.coherent k₂.cached) in
        let d₃ = IsDirectory-Keeps px content directory directory s.fs fs₃ d d.ok refl refl k₃ in
        let times : (n : ℕ) → inode_view px fs₃ n ≡ inode_view px s.fs n = λ n.
          inode_view-memory px s.fs fs₃ n (record { cache = refl; super = refl })
            (block_at-time px st₂ (inode_block n)
              ∙ (block_at-time px st₁ (inode_block n) ∙ block_at-time px st (inode_block n))) in
        let file' =
          new_inode caller mode (t₁ % 2 ^ 64) (t₂ % 2 ^ 64) (t₃ % 2 ^ 64) directory file in
        let ok = new_inode-IsInode caller mode t₁ t₂ t₃ directory file ids fresh.ok in
        lift-returns (record s { fs = fs₃ }) _
          (write_inode-Keeps px size reliable small file' fs₃ ok fresh.number fresh.in_table
            d₃.table within d₃.coherent d₃.cached)
          λ _ fs₄ (wr, k₄).
            let d₄ =
              IsDirectory-Keeps px content directory directory fs₃ fs₄ d₃ d.ok refl refl k₄ in
            lift-returns (record s { fs = fs₄ }) _
              (dir_link-IsLinked px file' size reliable small content directory name m i fs₄
                (rw k₄.super within) whole direct short first d₄
                (record { ok = ok; number = fresh.number; in_table = rw k₄.super fresh.in_table })
                (rw k₄.super inside))
              λ result fs₅ l. returns (
                refl,
                IsLinked-IsMade (t₁ % 2 ^ 64) (t₂ % 2 ^ 64) (t₃ % 2 ^ 64) s.fs fs₄ fs₅ result
                    d.number.positive fresh.number.positive d₄.in_table (rw k₄.super fresh.in_table)
                    fresh.apart k₄.super
                    (λ n p other. wr.inodes n p ∙ ground (arith, other, times n)) l,
              )
