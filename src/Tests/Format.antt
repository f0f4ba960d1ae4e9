-- ===== src/Tests/Format.antt =====
-- A new file system on the small disk.
use filesys.Prelude.{◌+◌, ◌-◌, ◌%◌, ◌≤◌, ◌≡◌, ◌≢◌, refl, sym, subst, ◌∙◌, false, true, arith}
use filesys.Bytes.{zeros, clip-zeros, load}
use filesys.Bytes.Fields.{load_fields}
use filesys.Outcome.{Ensures, Stops}
use filesys.Block.{block_at}
use filesys.Fs.Layout.{load_superblock}
use filesys.Fs.State.{InodeCache}
use filesys.Fs.Format.{signature, table_size, format_blocks}
use filesys.Fs.Format.NewDisk.{
  IsSize, IsNewDisk, last_node, format_blocks-IsNewDisk, format_blocks-Stops,
}
use filesys.Fs.Open.{open_disk}
use filesys.Fs.Open.NewFilesystem.{IsNewFilesystem, open_disk-IsNewFilesystem}
use filesys.Tests.Ram.{ram, ram-IsPosix}
use filesys.Tests.Fs.{zero_block}

pub ten-IsSize : IsSize 10
unfolding table_size
ten-IsSize = record { two = omega arith; remainder = omega arith; small = omega arith }

format_blocks-IsNewDisk_example :
    Ensures (IsNewDisk ram-IsPosix 10) (λ _. Unit {0}) (format_blocks 10 zeros)
format_blocks-IsNewDisk_example =
    format_blocks-IsNewDisk ram-IsPosix 10 zeros ten-IsSize
      (zero_block (last_node 10) ∙ sym clip-zeros)

large : table_size 71 + 67 ≤ 71
unfolding table_size
large = omega arith

one_more : (71 - (2 + table_size 71)) % 64 ≡ 1
unfolding table_size
one_more = refl

-- The list of free blocks of a disk of 71 blocks begins at block 6.
format_blocks-Stops_example : Stops (format_blocks 71 zeros)
format_blocks-Stops_example = format_blocks-Stops ram-IsPosix 71 zeros large one_more (omega arith)

abbrev pub blank : InodeCache
blank = record { dirty = false; block_number = 3; contents = zeros }

pub unsigned : (load_superblock (block_at ram-IsPosix zeros 0)).signature ≢ signature
unfolding load_superblock load_fields load
unsigned =
    subst (λ b. (load_superblock b).signature ≢ signature) (sym (zero_block 0))
      (λ e. omega (arith, e))

open_disk-IsNewFilesystem_example :
    Ensures
      (λ fs _. IsNewFilesystem ram-IsPosix 10 fs)
      (λ _. Unit {0})
      (open_disk true blank zeros zeros)
open_disk-IsNewFilesystem_example =
    open_disk-IsNewFilesystem ram-IsPosix true blank zeros 5120 zeros (λ s. refl) ten-IsSize
      (omega arith) refl unsigned (zero_block (last_node 10) ∙ sym clip-zeros)
