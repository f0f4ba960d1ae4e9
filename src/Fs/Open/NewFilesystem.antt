-- ===== src/Fs/Open/NewFilesystem.antt =====
-- `sfs_fs_open_disk` of a disk file without a file system.
use filesys.Prelude.{
  range, ℕ, zero, suc, ◌+◌, ◌-◌, ◌*◌, ◌/◌, ◌^◌, ◌≤◌, ◌<◌, ◌≡◌, ◌≢◌, refl, sym, ap, subst, ◌∙◌, Bool,
  false, some, arith, ◌==◌,
}
use filesys.Bytes.{Buffer, zeros, clip}
use filesys.Outcome.{Ensures, returns, fails, Ensures-bind, Ensures-if, Ensures-if_run}
use filesys.Os.{Os, IsPosix}
use filesys.Block.{block_at, block_read, is_full}
use filesys.Block.Laws.{block_read-full, block_at-block_read, block_at-malloc, block_at-fstat}
use filesys.Fs.Layout.{Superblock, Inode, load_superblock, load_inode}
use filesys.Fs.State.{InodeCache, Filesystem}
use filesys.Fs.Inode.{inode_block, inode_position}
use filesys.Fs.Cache.{IsCoherent, block_view}
use filesys.Fs.InodeView.{inode_view, inode_block-pos}
use filesys.Fs.FreeInodes.{Leads}
use filesys.Fs.FreeList.{free_count, IsFreeList}
use filesys.Fs.Format.{signature, new_superblock, table_size, free_inode, fstat_size, format_fs}
use filesys.Fs.Format.IndexList.{within}
use filesys.Fs.Format.FreeBlocks.{new_nodes, free_end}
use filesys.Fs.Format.TableBlocks.{new_root}
use filesys.Fs.Format.NewDisk.{IsSize, last_node, IsNewDisk, format_blocks-IsNewDisk}
use filesys.Fs.Open.{memory, get_block, superblock_of_disk, open_disk}

module _ ⦃os : Os⦄ (px : IsPosix os) where
  -- An empty file system in memory: coherent, with the superblock that is on the disk, the root
  -- directory as inode 1, all other inodes on the list of free inodes, and a well-formed list of free
  -- blocks that holds exactly the blocks from its head up to `free_end`.
  pub record IsNewFilesystem (blocks : ℕ) (fs : Filesystem) : Type 0 where
    pub coherent : IsCoherent px fs
    pub super : (t : ℕ) × (fs.superblock ≡ new_superblock blocks t)
    pub stored : load_superblock (block_at px fs.os_state 0) ≡ fs.superblock
    pub root : (t : ℕ) × (inode_view px fs 1 ≡ new_root t)
    pub inodes :
        Leads
          (inode_view px fs)
          fs.superblock.free_inode_head
          (range (3 * table_size blocks - 1) 2)
          (3 * table_size blocks + 1)
    pub list : IsFreeList (block_at px fs.os_state) fs.superblock (new_nodes fs.superblock)
    pub freed :
        (a : ℕ)
        → 0 < a
        → free_count (block_at px fs.os_state) (new_nodes fs.superblock) a
          ≡ within fs.superblock.free_blocks_head (free_end fs.superblock) a

  -- With nothing cached, the table on the disk is what the file system shows.
  cold_view :
      (fs : Filesystem) (n : ℕ)
      → fs.inode_cache.block_number ≡ 0
      → inode_view px fs n ≡ load_inode (block_at px fs.os_state (inode_block n)) (inode_position n)
  unfolding inode_view block_view
  cold_view fs n e = ground (arith, e, inode_block-pos n)

  inode_block-small : (n size : ℕ) → n ≤ 3 * size → size < 2 ^ 31 → inode_block n < 2 ^ 31
  unfolding inode_block
  inode_block-small n size h p = omega (arith, h)

  -- Each free inode of a new table leads to the next.
  new-Leads :
      (t : ℕ → Inode) (size k n tail : ℕ)
      → size < 2 ^ 31
      → 2 ≤ n
      → n + k ≡ tail
      → tail ≡ 3 * size + 1
      → ((m : ℕ) → 2 ≤ m → m ≤ 3 * size → t m ≡ free_inode (m + 1))
      → Leads t n (range k n) tail
  unfolding range
  new-Leads t size zero n tail small p e end h = omega (arith, e)
  new-Leads t size (suc k) n tail small p e end h = (
    refl,
    record {
      positive = omega (arith, p);
      small = inode_block-small n size (omega (arith, e, end)) small;
    },
    subst (λ (i : Inode). Leads t i.size (range k (n + 1)) tail)
        (sym (h n p (omega (arith, e, end))))
        (new-Leads t size k (n + 1) tail small (omega (arith, p)) (omega (arith, e)) end h),
  )

  first_inode :
      (s : os.State)
      → load_inode (block_at px s (inode_block 1)) (inode_position 1)
        ≡ load_inode (block_at px s 1) 0
  unfolding inode_block inode_position
  first_inode s = refl

  table_size-small : (blocks : ℕ) → blocks < 2 ^ 31 → table_size blocks < 2 ^ 31
  unfolding table_size
  table_size-small blocks h = ground (arith, h)

  table_size-pos : (blocks : ℕ) → 0 < table_size blocks
  unfolding table_size
  table_size-pos blocks = ground arith

  new-inodes :
      (table : ℕ → Inode) (blocks : ℕ) (sb : Superblock) (t : ℕ)
      → sb ≡ new_superblock blocks t
      → ((n : ℕ) → 2 ≤ n → n ≤ 3 * sb.inode_table_blocks → table n ≡ free_inode (n + 1))
      → blocks < 2 ^ 31
      → Leads table sb.free_inode_head
          (range (3 * table_size blocks - 1) 2)
          (3 * table_size blocks + 1)
  unfolding new_superblock
  new-inodes table blocks sb t e free small =
      let head : 2 ≡ sb.free_inode_head = ap (λ (x : Superblock). x.free_inode_head) (sym e) in
      let size : sb.inode_table_blocks ≡ table_size blocks =
        ap (λ (x : Superblock). x.inode_table_blocks) e in
      subst (λ n. Leads table n (range (3 * table_size blocks - 1) 2) (3 * table_size blocks + 1))
        head
        (new-Leads table (table_size blocks) (3 * table_size blocks - 1) 2
          (3 * table_size blocks + 1) (table_size-small blocks small) (omega arith)
          (omega (arith, table_size-pos blocks)) refl (λ m p q. free m p (omega (arith, size, q))))

  new-IsNewFilesystem :
      (blocks : ℕ) (sb : Superblock) (old : InodeCache) (s : os.State)
      → blocks < 2 ^ 31
      → old.dirty ≡ false
      → IsNewDisk px blocks sb s
      → IsNewFilesystem blocks
          (record { os_state = s; superblock = sb; inode_cache = record old { block_number = 0 } })
  new-IsNewFilesystem blocks sb old s small clean d =
      let fs : Filesystem = record {
        os_state = s;
        superblock = sb;
        inode_cache = record old { block_number = 0 };
      } in
      let (t, e) = d.super in
      let (t', root) = d.table.root in
      record {
        coherent = record {
          number = omega arith;
          dirty = λ h. cc;
          clean = λ h p. absurd (omega (arith, p));
        };
        super = d.super;
        stored = d.stored;
        root = (t', cold_view fs 1 refl ∙ first_inode s ∙ root);
        inodes =
            new-inodes (inode_view px fs) blocks sb t e
              (λ n p q. cold_view fs n refl ∙ d.table.free n p q) small;
        list = d.list;
        freed = d.freed;
      }

  -- The disk file has one size, whatever is done to it.
  abbrev pub HasSize : ℕ → Type 0
  HasSize size = (s : os.State) → (os.fstat s).0 ≡ some size

  format_fs-IsNewDisk :
      (size : ℕ) (s : os.State)
      → HasSize size
      → IsSize (size / 512)
      → block_at px s (last_node (size / 512)) ≡ clip zeros
      → Ensures (IsNewDisk px (size / 512)) (λ _. Unit {0}) (format_fs s)
  unfolding format_fs fstat_size
  format_fs-IsNewDisk size s sized h blank = rw (sized s) (
      format_blocks-IsNewDisk px (size / 512) (os.fstat s).1 h
        (block_at-fstat px s (last_node (size / 512)) ∙ blank))

  abbrev SameBlocks : (s s' : os.State) → Type 0
  SameBlocks s s' = (k : ℕ) → block_at px s' k ≡ block_at px s k

  get_block-at :
      (stack : Buffer) (s : os.State)
      → Ensures
          (λ b s'. (b ≡ block_at px s 0) × ((k : ℕ) → block_at px s' k ≡ block_at px s k))
          (λ _. Unit {0})
          (get_block 0 stack s)
  unfolding get_block
  get_block-at stack s =
      Ensures-if (is_full (block_read 0 stack s).0) _ _
        (λ full.
          returns
            (block_read-full px 0 stack s (omega arith) full, block_at-block_read px 0 stack s))
        λ _. fails tt

  -- `sfs_fs_open_disk` of a disk file without the signature, with at least two blocks and not one
  -- more than a multiple of 64 behind the head of the list of free blocks, fewer than 2^31 blocks, and
  -- zeros where the last node of that list comes to lie, where the memory for the cache happens not
  -- to be marked dirty: it does not abort, and if it does not return NULL, the result is
  -- an empty file system.
  pub open_disk-IsNewFilesystem :
      (maybe_format : Bool) (old : InodeCache) (stack : Buffer) (size : ℕ) (s : os.State)
      → HasSize size
      → IsSize (size / 512)
      → size / 512 < 2 ^ 31
      → old.dirty ≡ false
      → (load_superblock (block_at px s 0)).signature ≢ signature
      → block_at px s (last_node (size / 512)) ≡ clip zeros
      → Ensures
          (λ fs _. IsNewFilesystem (size / 512) fs)
          (λ _. Unit {0})
          (open_disk maybe_format old stack s)
  unfolding open_disk memory get_block superblock_of_disk
  open_disk-IsNewFilesystem maybe_format old stack size s sized h small clean unsigned blank =
      Ensures-bind
        (Ensures-if {P = λ _ s1. SameBlocks s s1} {Q = λ _. Unit {0}} (os.malloc s).0 _ _
          (λ _. returns (block_at-malloc px s)) λ _. fails tt)
        (λ _ s1 same.
          Ensures-bind (get_block-at stack s1)
            (λ b s2 (is, same').
              let blocks = λ (k : ℕ). same' k ∙ same k in
              Ensures-bind
                (Ensures-if_run ((load_superblock b).signature == signature) _ _ s2
                  (λ signed. absurd (
                    unsigned (
                      ap (λ c. (load_superblock c).signature) (sym (is ∙ same 0))
                      ∙ ground (arith, signed))))
                  λ _.
                    format_fs-IsNewDisk size s2 sized h (blocks (last_node (size / 512)) ∙ blank))
                (λ sb s3 d. returns (new-IsNewFilesystem (size / 512) sb old s3 small clean d))
                λ _ q. q)
            λ _ q. q)
        λ _ q. q
