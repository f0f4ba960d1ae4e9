-- ===== src/Tests/Main.antt =====
-- The command line `sfs -d disk mnt`.
use filesys.Prelude.{ℕ, ◌+◌, length, true, false, some, List, [], ◌∷◌}
use filesys.Sfs.Main.{Host}

-- Every call succeeds; the state counts them, and FUSE returns the number of its arguments.
abbrev willing : Host
willing = record {
  State = ℕ;
  malloc = λ s. (true, s + 1);
  fopen = λ s. (true, s + 1);
  mutex_init = λ s. (true, s + 1);
  open_path = λ path s. (some 3, s + 1);
  has_context = λ s. false;
  fuse_main = λ args mounted s. (length args, s + 1);
}

abbrev sfs : List ℕ
sfs = b's' ∷ b'f' ∷ b's' ∷ []

abbrev debug : List ℕ
debug = b'-' ∷ b'd' ∷ []

abbrev disk : List ℕ
disk = b'd' ∷ b'i' ∷ b's' ∷ b'k' ∷ []

abbrev mnt : List ℕ
mnt = b'm' ∷ b'n' ∷ b't' ∷ []
