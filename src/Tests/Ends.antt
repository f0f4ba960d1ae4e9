-- ===== src/Tests/Ends.antt =====
-- The walk over the root directory of the small disk.
use filesys.Prelude.{◌<◌, ◌≡◌, refl, [], ◌∷◌, true, arith}
use filesys.Bytes.{zeros}
use filesys.Fs.InodeView.{inode_view}
use filesys.Dir.Iterate.{DirIterator, is_dir_mode, dir_iternext}
use filesys.Dir.Ends.{Ends, IsIterator, IsNext, rank, dir_iternext-Ends}
use filesys.Sfs.State.{Libgen, root_path}
use filesys.Sfs.Lookup.{find_entry, getattr}
use filesys.Sfs.Ends.{IsFound, Replies, find_entry-Ends, getattr-Replies}
use filesys.Tests.Ram.{ram, ram-IsPosix}
use filesys.Tests.Fs.{file}
use filesys.Tests.Transfer.{warm, warm-IsCoherent, warm-root, running}

-- A walk that has come to the second block of a directory.
abbrev walk : DirIterator
walk = record { inode = file; iblock = 1; entry = 0; cached_block = zeros }

walk-IsIterator : IsIterator walk
walk-IsIterator = record { numbered = omega arith; bounded = omega arith }

dir_iternext-Ends_example : Ends (IsNext (rank walk)) (dir_iternext true walk warm)
dir_iternext-Ends_example = dir_iternext-Ends true walk warm walk-IsIterator

find_entry-Ends_example : Ends (IsFound (b'a' ∷ [])) (find_entry (b'a' ∷ []) walk warm)
find_entry-Ends_example = find_entry-Ends (b'a' ∷ []) walk warm walk-IsIterator

abbrev names : Libgen
names = record { dirname = λ p. root_path; basename = λ p. p }

root_numbered : 0 < (inode_view ram-IsPosix warm 1).inumber
root_numbered = rw warm-root (omega arith)

root_is_dir : is_dir_mode (inode_view ram-IsPosix warm 1).mode ≡ true
unfolding is_dir_mode
root_is_dir = rw warm-root refl

getattr-Replies_example : Replies (getattr names (b'a' ∷ []) running)
getattr-Replies_example =
    getattr-Replies ram-IsPosix names (b'a' ∷ []) running refl warm-IsCoherent root_numbered
      root_is_dir
