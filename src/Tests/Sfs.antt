-- ===== src/Tests/Sfs.antt =====
-- The handlers on the small disk, with one slab of descriptors.
use filesys.Prelude.{ℕ, ◌≡◌, refl, Bool, true, false, none, List, [], ◌∷◌, Option}
use filesys.Outcome.{done, aborted, ◌>>◌}
use filesys.Fs.InodeAlloc.{Stat}
use filesys.Sfs.State.{minus, enoent, Libgen, str_eq, root_path, Sfs}
use filesys.Sfs.Lookup.{getattr}
use filesys.Sfs.Files.{Caller, create, open_file, unlink, release}
use filesys.Sfs.Folders.{Filled, opendir, readdir, releasedir}
use filesys.Sfs.Mutex.{readdir-Released, release-Released, path_handlers-Released, opendir-locked}
use filesys.Sfs.Mutex.Steps.{Released}
use filesys.Tests.Ram.{ram}
use filesys.Tests.Fs.{cold}
use filesys.Tests.Pool.{full}

abbrev idle : Sfs
idle = record { fs = cold; pool = full; locked = false }

abbrev caller : Caller
caller = record { uid = 1000; gid = 100; umask = 0o022 }

-- The functions of the C library on paths of one name.
abbrev one_name : Libgen
one_name = record { dirname = λ p. root_path; basename = λ p. p }

-- The functions of the C library on the path "a/b".
abbrev two_names : Libgen
two_names = record { dirname = λ p. b'a' ∷ []; basename = λ p. b'b' ∷ [] }

abbrev nested : List ℕ
nested = b'a' ∷ b'/' ∷ b'b' ∷ []

abbrev small_buffer : Filled → List ℕ → Option Stat → Bool
small_buffer [] name stat = false
small_buffer (a ∷ b) name stat = true

readdir-Released_example : Released (readdir small_buffer root_path idle)
readdir-Released_example = readdir-Released small_buffer root_path idle

release-Released_example : Released (release 3 idle) × Released (releasedir 3 idle)
release-Released_example = release-Released 3 idle

path_handlers-Released_example :
    Released (getattr one_name nested idle)
    × Released (create one_name caller nested 0o644 2 idle)
    × Released (open_file one_name nested 2 idle)
    × Released (unlink one_name nested idle)
path_handlers-Released_example = path_handlers-Released one_name caller nested 0o644 2 idle

nested-not_root : str_eq nested root_path ≡ false
unfolding str_eq
nested-not_root = refl

opendir-locked_example :
    (opendir nested 0 idle ≡ done (minus enoent, none) (record idle { locked = true }))
    × ((opendir nested 0 >> opendir root_path 0) idle ≡ aborted)
opendir-locked_example = opendir-locked nested root_path 0 0 idle nested-not_root refl
