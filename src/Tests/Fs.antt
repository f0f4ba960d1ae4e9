-- ===== src/Tests/Fs.antt =====
-- The file system on a small disk: ten blocks, of which block 1 is the inode table.
use filesys.Prelude.{
  ℕ, ◌<◌, ◌≡◌, refl, sym, ap, ◌∙◌, ◌⊎◌, false, [], ◌∷◌, arith, replicate, ◌==◌, if◌then◌else◌,
}
use filesys.Bytes.{Buffer, zeros, clip, clip-zeros, word, word-zeros}
use filesys.Outcome.{◌>>=◌, Ensures}
use filesys.Block.{block_at}
use filesys.Fs.Layout.{Superblock, Inode, IsInode}
use filesys.Fs.State.{Filesystem}
use filesys.Fs.Inode.{inode_block, read_inode, write_inode, close}
use filesys.Fs.Cache.{IsCoherent}
use filesys.Fs.InodeView.{
  IsInumber, inode_view, SameView, Written, FlushedView, read_inode-view, write_inode-view,
  close-FlushedView,
}
use filesys.Fs.Blocks.{allocate_block, free_block}
use filesys.Fs.FreeList.{IsFreeList, node_count, free_count}
use filesys.Fs.FreeList.Slots.{node_count-zeros}
use filesys.Fs.FreeList.Allocate.{Allocated, allocate_block_lem}
use filesys.Fs.FreeList.Free.{Freed, free_block_lem}
use filesys.Fs.InodeAlloc.{inode_allocate, inode_deallocate}
use filesys.Fs.FreeInodes.Deallocate.{DeallocatedInode, inode_deallocate_lem}
use filesys.Fs.FreeInodes.{AllocatedInode, inode_allocate_lem}
use filesys.Fs.BlockMap.{inode_block_write, inode_block_read}
use filesys.Fs.BlockMap.ReadBack.{inode_block_write-inode_block_read}
use filesys.Tests.Ram.{ram, ram-IsPosix}

abbrev pub super : Superblock
super = record {
  signature = 0;
  create_time = 0;
  block_size = 512;
  inode_table_blocks = 1;
  inodes = 3;
  blocks = 10;
  free_blocks_head = 5;
  free_inode_head = 2;
}

-- A zeroed disk file, as it is before any inode is cached.
abbrev pub cold : Filesystem
cold = record {
  os_state = zeros;
  superblock = super;
  inode_cache = record { dirty = false; block_number = 0; contents = zeros };
}

cold-IsCoherent : IsCoherent ram-IsPosix cold
cold-IsCoherent = record {
  number = omega arith;
  dirty = λ d. cc;
  clean = λ d p. absurd (omega arith);
}

abbrev pub file : Inode
file = record {
  inumber = 2;
  mode = 0o100644;
  uid = 1000;
  gid = 100;
  links = 1;
  access_time = 7;
  modified_time = 8;
  change_time = 9;
  size = 512;
  block_pointers = 6 ∷ replicate 13 0;
}

pub file-IsInode : IsInode file
file-IsInode = omega arith

pub two-IsInumber : IsInumber 2
unfolding inode_block
two-IsInumber = omega arith

read_inode-view_example :
    Ensures
      (λ i fs'. (i ≡ inode_view ram-IsPosix cold 2) × SameView ram-IsPosix cold fs')
      (λ fs'. fs'.superblock ≡ super)
      (read_inode 2 cold)
read_inode-view_example = read_inode-view ram-IsPosix cold 2 cold-IsCoherent two-IsInumber

write_inode-view_example :
    Ensures
      (λ _. Written ram-IsPosix file cold)
      (λ fs'. fs'.superblock ≡ super)
      (write_inode file cold)
write_inode-view_example =
    write_inode-view ram-IsPosix cold file cold-IsCoherent file-IsInode two-IsInumber

close-FlushedView_example : Ensures (λ _. FlushedView ram-IsPosix cold) (λ _. Unit) (close cold)
close-FlushedView_example = close-FlushedView ram-IsPosix cold cold-IsCoherent

-- Every block of the zeroed disk file is zeros.
pub zero_block : (k : ℕ) → block_at ram-IsPosix zeros k ≡ zeros
unfolding block_at clip ram-IsPosix
zero_block k = clip-zeros

one_node :
    (a : ℕ) → 0 < a → free_count (block_at ram-IsPosix zeros) (5 ∷ []) a ≡ (if 5 == a then 1 else 0)
unfolding free_count
one_node a p =
    omega (arith, ap (λ b. node_count b a) (zero_block 5 ∙ sym clip-zeros), node_count-zeros a p)

cold-IsFreeList : IsFreeList (block_at ram-IsPosix zeros) super (5 ∷ [])
cold-IsFreeList = record {
  chain = (refl, omega arith, omega arith, refl, ap (λ b. word b 0) (zero_block 5) ∙ word-zeros 0);
  once = λ a p. ground (arith, one_node a p);
  range = λ a p q. ground (arith, one_node a p);
}

allocate_block_lem_example :
    Ensures
      (Allocated ram-IsPosix (block_at ram-IsPosix zeros) super cold.inode_cache (5 ∷ []))
      (λ fs'. fs'.inode_cache ≡ cold.inode_cache)
      (allocate_block cold)
allocate_block_lem_example = allocate_block_lem ram-IsPosix cold (5 ∷ []) cold-IsFreeList

free_block_lem_example :
    Ensures
      (λ _. Freed ram-IsPosix cold (5 ∷ []) 6)
      (λ fs'. fs'.inode_cache ≡ cold.inode_cache)
      (free_block 6 cold)
free_block_lem_example =
    free_block_lem ram-IsPosix cold (5 ∷ []) 6 cold-IsFreeList (omega arith) (omega arith)
      (omega arith) (one_node 6 (omega arith))

inode_allocate_lem_example :
    Ensures
      (AllocatedInode ram-IsPosix cold 2 [] (inode_view ram-IsPosix cold 2).size)
      (λ fs'.
        (fs'.superblock ≡ super)
        ⊎ (fs'.superblock
            ≡ record super { free_inode_head = (inode_view ram-IsPosix cold 2).size }))
      (inode_allocate cold)
inode_allocate_lem_example =
    inode_allocate_lem ram-IsPosix cold 2 [] (inode_view ram-IsPosix cold 2).size cold-IsCoherent
      (refl, two-IsInumber, refl)

abbrev pub ones : Buffer
ones i = 1

-- Block 3 of the file is a hole, which the write fills.
inode_block_write-inode_block_read_example :
    Ensures
      (λ b _. b ≡ clip ones)
      (λ _. Unit {0})
      ((do inode' ← inode_block_write file 3 ones; inode_block_read inode' 3) cold)
inode_block_write-inode_block_read_example =
    inode_block_write-inode_block_read ram-IsPosix file 3 ones cold (omega arith) refl (omega arith)
      (omega arith)

-- A file without blocks, which is not in the list of free inodes.
abbrev empty_file : Inode
empty_file = record file { inumber = 3; size = 0; block_pointers = replicate 14 0 }

empty_file-IsInode : IsInode (record empty_file { size = 2 })
empty_file-IsInode = omega arith

three-IsInumber : IsInumber 3
unfolding inode_block
three-IsInumber = omega arith

inode_deallocate_lem_example :
    Ensures
      (λ _. DeallocatedInode ram-IsPosix cold 3 (2 ∷ []) (inode_view ram-IsPosix cold 2).size)
      (λ _. Unit {0})
      (inode_deallocate empty_file cold)
inode_deallocate_lem_example =
    inode_deallocate_lem ram-IsPosix cold empty_file (2 ∷ []) (inode_view ram-IsPosix cold 2).size
      cold-IsCoherent empty_file-IsInode three-IsInumber (omega arith) (refl, two-IsInumber, refl)
      refl
