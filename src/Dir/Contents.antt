-- ===== src/Dir/Contents.antt =====
-- src/dir.c: a directory as the contents of its blocks, each of which has room for one entry.
use filesys.Prelude.{
  false, ℕ, ◌^◌, ◌<◌, ◌≤◌, ◌≡◌, ◌≢◌, inl, inr, refl, sym, subst, ap, Bool, not, ◌==◌, arith, List,
}
use filesys.Bytes.{Buffer, load, zeros}
use filesys.Outcome.{Ensures, Ensures-mono, Ensures-Succeeds}
use filesys.Os.{Os, IsPosix, IsReliable}
use filesys.Block.{block_at}
use filesys.Block.Laws.{block_at-time}
use filesys.Fs.Layout.{Inode, IsInode, load_inode, ndir_blocks}
use filesys.Fs.State.{Filesystem}
use filesys.Fs.Inode.{inode_block, inode_position, write_inode}
use filesys.Fs.Cache.{IsCoherent, IsCoherent-carries, SameMemory, block_view, uint64_of_lem}
use filesys.Fs.InodeView.{IsInumber, inode_view, Written, write_inode-view}
use filesys.Fs.Reliable.{write_inode-Succeeds}
use filesys.Fs.BlockMap.{pointer, is_outside, inode_block_read}
use filesys.Fs.BlockMap.Contents.{
  Holds, Holds-stays, Place, inode_block_read-content, inode_block_read-Succeeds,
}
use filesys.Dir.Entry.{entry_inumber, entry_name, same_name}

-- The entry of block `k` is in use.
unfoldable pub is_used : (content : ℕ → Buffer) → ℕ → Bool
is_used content k = not (entry_inumber (content k) 0 == 0)

-- The entry of block `k` has the name.
unfoldable pub has_name : List ℕ → (content : ℕ → Buffer) → ℕ → Bool
has_name name content k = same_name 256 (entry_name (content k) 0) name

zero_scalar : load 8 zeros 0 ≡ 0
unfolding load
zero_scalar = refl

-- No two blocks of the file are at one place.
abbrev pub IsApart : Inode → Type 0
IsApart inode =
    (i k : ℕ)
    → i < ndir_blocks
    → k < ndir_blocks
    → i ≢ k
    → 0 < pointer inode i
    → pointer inode i ≢ pointer inode k

IsApart-inode : (i j : Inode) → j.block_pointers ≡ i.block_pointers → IsApart i → IsApart j
IsApart-inode i j same h = λ a b p q ne. rw same (h a b p q ne)

module _ ⦃os : Os⦄ (px : IsPosix os) where
  -- The direct blocks of the inode have these contents, in a state whose cache holds a block of the
  -- inode table.
  pub record IsDirectory (content : ℕ → Buffer) (inode : Inode) (fs : Filesystem) : Type 0 where
    pub ok : IsInode inode
    pub number : IsInumber inode.inumber
    pub in_table : inode_block inode.inumber ≤ fs.superblock.inode_table_blocks
    pub table : fs.superblock.inode_table_blocks < fs.superblock.blocks
    pub coherent : IsCoherent px fs
    pub cached : fs.inode_cache.block_number ≤ fs.superblock.inode_table_blocks
    pub apart : IsApart inode
    pub holds : Holds px content inode fs

  -- The block of an entry that is in use is no hole.
  pub used-is_outside :
      (content : ℕ → Buffer) (inode : Inode) (fs : Filesystem) (k : ℕ)
      → IsDirectory content inode fs
      → k < ndir_blocks
      → 0 < entry_inumber (content k) 0
      → is_outside fs.superblock (pointer inode k) ≡ false
  unfolding entry_inumber load
  used-is_outside content inode fs k d direct used = elim (d.holds.places k direct) [
    | inl (hole, empty) ↦ absurd (omega (arith, used, ap (λ b. load 8 b 0) empty, zero_scalar))
    | inr (inside, at) ↦ inside
  ]

  -- A block with a byte that is not 0 is not a hole.
  pub written-is_outside :
      (content : ℕ → Buffer) (inode : Inode) (fs : Filesystem) (k j : ℕ)
      → IsDirectory content inode fs
      → k < ndir_blocks
      → content k j ≢ 0
      → is_outside fs.superblock (pointer inode k) ≡ false
  written-is_outside content inode fs k j d direct written = elim (d.holds.places k direct) [
    | inl (hole, empty) ↦ absurd (written (ap (λ b. b j) empty))
    | inr (inside, at) ↦ inside
  ]

  -- Calls that keep the blocks behind the table, and the superblock.
  pub record Keeps (fs fs' : Filesystem) : Type 0 where
    pub coherent : IsCoherent px fs'
    pub cached : fs'.inode_cache.block_number ≤ fs.superblock.inode_table_blocks
    pub super : fs'.superblock ≡ fs.superblock
    pub blocks :
        (j : ℕ)
        → fs.superblock.inode_table_blocks < j
        → block_at px fs'.os_state j ≡ block_at px fs.os_state j

  Place-inode :
      (content : ℕ → Buffer) (i j : Inode) (fs : Filesystem) (k : ℕ)
      → j.block_pointers ≡ i.block_pointers
      → Place px content i fs k
      → Place px content j fs k
  Place-inode content i j fs k same h = rw same h

  Place-Keeps :
      (content : ℕ → Buffer) (i : Inode) (fs fs' : Filesystem)
      → Keeps fs fs'
      → Holds px content i fs
      → Holds px content i fs'
  Place-Keeps content i fs fs' k h = Holds-stays px content i fs fs' k.super k.blocks h

  pub IsDirectory-Keeps :
      (content : ℕ → Buffer) (i j : Inode) (fs fs' : Filesystem)
      → IsDirectory content i fs
      → IsInode j
      → j.inumber ≡ i.inumber
      → j.block_pointers ≡ i.block_pointers
      → Keeps fs fs'
      → IsDirectory content j fs'
  IsDirectory-Keeps content i j fs fs' d ok own same k =
      let holds = Place-Keeps content i fs fs' k d.holds in
      record {
        ok = ok;
        number = subst IsInumber (sym own) d.number;
        in_table = rw k.super (rw own d.in_table);
        table = rw k.super d.table;
        coherent = k.coherent;
        cached = rw k.super k.cached;
        apart = IsApart-inode i j same d.apart;
        holds = record {
          places = λ b p. Place-inode content i j fs' b same (holds.places b p);
          small = holds.small;
        };
      }

  pub Keeps-memory :
      (fs fs' : Filesystem)
      → IsCoherent px fs
      → fs.inode_cache.block_number ≤ fs.superblock.inode_table_blocks
      → SameMemory px fs fs'
      → ((j : ℕ) → block_at px fs'.os_state j ≡ block_at px fs.os_state j)
      → Keeps fs fs'
  Keeps-memory fs fs' c cached memory same = record {
    coherent = IsCoherent-carries px fs fs' c memory (same fs.inode_cache.block_number);
    cached = rw memory.cache cached;
    super = memory.super;
    blocks = λ j _. same j;
  }

  -- Every block is seen as before.
  block_view-memory :
      (fs fs' : Filesystem) (k : ℕ)
      → SameMemory px fs fs'
      → block_at px fs'.os_state k ≡ block_at px fs.os_state k
      → block_view px fs' k ≡ block_view px fs k
  unfolding block_view
  block_view-memory fs fs' k memory same = ground (arith, memory.cache, same)

  -- An inode of the table is seen as before if the table stays.
  pub inode_view-memory :
      (fs fs' : Filesystem) (n : ℕ)
      → SameMemory px fs fs'
      → block_at px fs'.os_state (inode_block n) ≡ block_at px fs.os_state (inode_block n)
      → inode_view px fs' n ≡ inode_view px fs n
  unfolding inode_view
  inode_view-memory fs fs' n memory same =
      ap (λ b. load_inode b (inode_position n))
        (block_view-memory fs fs' (inode_block n) memory same)

  pub Keeps-time :
      (fs : Filesystem)
      → IsCoherent px fs
      → fs.inode_cache.block_number ≤ fs.superblock.inode_table_blocks
      → Keeps fs (record fs { os_state = (os.time fs.os_state).1 })
  Keeps-time fs c cached =
      Keeps-memory fs _ c cached (record { cache = refl; super = refl })
        (block_at-time px fs.os_state)

  -- A write of an inode in the table.
  pub Written-Keeps :
      (i : Inode) (fs fs' : Filesystem)
      → fs.inode_cache.block_number ≤ fs.superblock.inode_table_blocks
      → inode_block i.inumber ≤ fs.superblock.inode_table_blocks
      → Written px i fs fs'
      → Keeps fs fs'
  unfolding block_view
  Written-Keeps i fs fs' cached in_table w = record {
    coherent = w.coherent;
    cached = rw w.number in_table;
    super = w.super;
    blocks = λ j behind.
        let view = w.blocks j (omega (arith, behind)) (λ e. omega (arith, e, behind, in_table)) in
        ground (arith, view, behind, cached, w.number, in_table);
  }

  module _ (size : ℕ) (reliable : IsReliable os size) (small : size ≤ 2 ^ 55) where
    -- `sfs_fs_write_inode` of an inode in the table.
    pub write_inode-Keeps :
        (i : Inode) (fs : Filesystem)
        → IsInode i
        → IsInumber i.inumber
        → inode_block i.inumber ≤ fs.superblock.inode_table_blocks
        → fs.superblock.inode_table_blocks < fs.superblock.blocks
        → fs.superblock.blocks ≤ size
        → IsCoherent px fs
        → fs.inode_cache.block_number ≤ fs.superblock.inode_table_blocks
        → Ensures (λ _ fs'. Written px i fs fs' × Keeps fs fs') (λ _. ⊥) (write_inode i fs)
    write_inode-Keeps i fs ok number in_table table within c cached =
        Ensures-mono
          (Ensures-Succeeds (write_inode-view px fs i c ok number) (
            write_inode-Succeeds size reliable small i fs number.positive
              (rw (uint64_of_lem px fs.inode_cache.block_number c.number)
                (omega (arith, cached, table, within)))
              (omega (arith, in_table, table, within))))
          (λ _ fs' w. (w, Written-Keeps i fs fs' cached in_table w)) λ _ impossible. impossible

    -- `sfs_fs_inode_block_read` of a block of the directory.
    pub inode_block_read-Keeps :
        (content : ℕ → Buffer) (i : Inode) (fs : Filesystem) (k : ℕ)
        → fs.superblock.blocks ≤ size
        → k < ndir_blocks
        → IsDirectory content i fs
        → Ensures
            (λ b fs'.
              (b ≡ content k) × Keeps fs fs' × ((n : ℕ) → inode_view px fs' n ≡ inode_view px fs n))
            (λ _. ⊥)
            (inode_block_read i k fs)
    inode_block_read-Keeps content i fs k within direct d =
        Ensures-mono
          (Ensures-Succeeds (inode_block_read-content px content i fs k direct d.holds)
            (inode_block_read-Succeeds px size content i fs k reliable small within direct d.holds))
          (λ b fs' (e, memory, same). (
            e,
            Keeps-memory fs fs' d.coherent d.cached memory same,
            λ n. inode_view-memory fs fs' n memory (same (inode_block n)),
          ))
          λ _ impossible. impossible
