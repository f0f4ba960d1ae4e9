-- ===== src/Tests/Transfer.antt =====
-- Reads and writes of a file on the small disk: inode 2, whose first block is block 6, with the block
-- of inodes in the cache and not yet on the disk.
use filesys.Prelude.{
  ℕ, zero, suc, ◌+◌, ◌*◌, ◌<◌, ◌≡◌, ◌⊎◌, inl, inr, refl, ap, ◌∙◌, true, false, some, replicate,
  get_or, arith, ltb, leb, ◌&&◌,
}
use filesys.Bytes.{zeros}
use filesys.Outcome.{Ensures, ◌>>◌}
use filesys.Filedescriptor.{reaches_slab, slots_per_slab, get_from_fd}
use filesys.Fs.Layout.{
  Inode, IsInode, store_inode, load_inode-clip, load_inode-store_inode_self,
  load_inode-store_inode_ne,
}
use filesys.Fs.State.{Filesystem}
use filesys.Fs.Inode.{inode_block, inode_position}
use filesys.Fs.Cache.{IsCoherent, block_view}
use filesys.Fs.InodeView.{inode_view}
use filesys.Fs.BlockMap.{pointer, is_outside}
use filesys.Sfs.State.{Sfs, find_fd, slot_inumber}
use filesys.Sfs.Transfer.{span, read, write, read_data, write_data}
use filesys.Sfs.Transfer.Spans.{is_covered, span-is_covered}
use filesys.Sfs.Transfer.Laws.{delivered}
use filesys.Sfs.Transfer.Files.{IsFile, file_block}
use filesys.Sfs.Transfer.Handler.{Answers, transfers-Released, read-delivered, read-within}
use filesys.Sfs.Transfer.Writes.{write-within}
use filesys.Sfs.Transfer.RoundTrip.{write_data-read_data}
use filesys.Sfs.Mutex.Steps.{Released}
use filesys.Tests.Ram.{ram, ram-IsPosix}
use filesys.Tests.Fs.{cold, file, file-IsInode, two-IsInumber, ones}
use filesys.Tests.Pool.{full}

abbrev root : Inode
root = record {
  inumber = 1;
  mode = 0o040755;
  uid = 0;
  gid = 0;
  links = 2;
  access_time = 0;
  modified_time = 0;
  change_time = 0;
  size = 0;
  block_pointers = replicate 14 0;
}

root-IsInode : IsInode root
root-IsInode = omega arith

abbrev pub warm : Filesystem
warm = record cold {
  inode_cache = record {
    dirty = true;
    block_number = 1;
    contents = store_inode (store_inode zeros 1 file) 0 root;
  };
}

pub warm-IsCoherent : IsCoherent ram-IsPosix warm
warm-IsCoherent = record {
  number = omega arith;
  dirty = λ d. omega arith;
  clean = λ d p. absurd (cc);
}

pub warm-root : inode_view ram-IsPosix warm 1 ≡ root
unfolding inode_view block_view inode_block inode_position
warm-root =
    load_inode-clip (store_inode (store_inode zeros 1 file) 0 root) 0 (omega arith)
    ∙ load_inode-store_inode_self (store_inode zeros 1 file) 0 root root-IsInode

warm-file : inode_view ram-IsPosix warm 2 ≡ file
unfolding inode_view block_view inode_block inode_position
warm-file =
    load_inode-clip (store_inode (store_inode zeros 1 file) 0 root) 1 (omega arith)
    ∙ (load_inode-store_inode_ne (store_inode zeros 1 file) 0 1 root (λ e. omega (arith, e))
        ∙ load_inode-store_inode_self zeros 1 file file-IsInode)

get_or-zeros : (n k : ℕ) → get_or {A = ℕ} (replicate n 0) k 0 ≡ 0
get_or-zeros zero k = refl
get_or-zeros (suc n) zero = refl
get_or-zeros (suc n) (suc k) = get_or-zeros n k

file-pointers :
    (k : ℕ) → (pointer file k ≡ 0) ⊎ (is_outside cold.superblock (pointer file k) ≡ false)
unfolding is_outside
file-pointers zero = inr refl
file-pointers (suc k) = inl (get_or-zeros 13 k)

warm-IsFile : IsFile ram-IsPosix 2 warm
unfolding inode_block
warm-IsFile = record {
  coherent = warm-IsCoherent;
  number = two-IsInumber;
  own = ap (λ (i : Inode). i.inumber) warm-file;
  in_table = omega arith;
  small = omega arith;
  pointers = λ k p. rw warm-file (file-pointers k);
}

inside : is_outside cold.superblock (pointer (inode_view ram-IsPosix warm 2) 0) ≡ false
unfolding is_outside
inside = rw warm-file refl

abbrev pub running : Sfs
running = record { fs = warm; pool = full; locked = false }

open_three : find_fd 3 running ≡ some 3
unfolding find_fd get_from_fd reaches_slab slots_per_slab
open_three = refl

used_three : slot_inumber (running.pool.slot 3) ≡ some 2
unfolding slot_inumber
used_three = refl

span-is_covered_example :
    is_covered (span 600 1000) 2 5 ≡ leb 1000 (2 * 512 + 5) && ltb (2 * 512 + 5) (1000 + 600)
span-is_covered_example = span-is_covered 600 1000 2 5 (omega arith) (omega arith) (omega arith)

write_data-read_data_example :
    Ensures
      (λ m _. (i : ℕ) → i < 512 → m (9000 + 0 * 512 + i) ≡ ones (4000 + 0 * 512 + i))
      (λ _. Unit {0})
      ((write_data 2 4000 512 (0 * 512) ones zeros >> read_data 2 9000 512 (0 * 512) zeros) warm)
write_data-read_data_example =
    write_data-read_data ram-IsPosix 2 0 4000 9000 ones zeros zeros warm warm-IsFile (omega arith)
      inside

transfers-Released_example :
    Released (read 3 4000 512 0 zeros running) × Released (write 3 4000 512 0 zeros zeros running)
transfers-Released_example = transfers-Released 3 4000 512 0 zeros zeros running

-- Two blocks from the second on.
read-delivered_example :
    Answers
      (λ m. (a : ℕ) → m a ≡ delivered (file_block ram-IsPosix warm 2) 4000 1 (1 + 2) zeros a)
      (2 * 512)
      (read 3 4000 (2 * 512) (1 * 512) zeros running)
read-delivered_example =
    read-delivered ram-IsPosix 3 3 2 1 2 4000 zeros running refl open_three used_three warm-IsFile
      (omega arith) (omega arith)

read-within_example : Answers (λ m. (a : ℕ) → m a ≡ ones a) 100 (read 3 4000 100 7 ones running)
read-within_example =
    read-within ram-IsPosix 3 3 2 100 7 4000 ones running refl open_three used_three warm-IsFile
      (omega arith) (omega arith) (omega arith) (omega arith)

write-within_example :
    write 3 4000 100 7 ones zeros running ≡ write 3 4000 100 7 zeros zeros running
write-within_example =
    write-within 3 100 7 4000 ones zeros zeros running (omega arith) (omega arith) (omega arith)
      (omega arith)
