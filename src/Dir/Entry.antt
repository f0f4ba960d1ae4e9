-- ===== src/Dir/Entry.antt =====
-- src/dir.h: `struct sfs_dir_entry`, and the C strings in it. A name outside an entry is the list of
-- its characters, with no NUL in it.
use filesys.Prelude.{
  ℕ, zero, suc, ◌+◌, ◌*◌, ◌/◌, Bool, true, false, List, [], ◌∷◌, ◌++◌, take, replicate, ◌==◌,
  if◌then◌else◌,
}
use filesys.Bytes.{Buffer, load, store}
use filesys.Bytes.Fields.{load_fields, store_fields}

-- `sizeof(struct sfs_dir_entry)`
abbrev pub sizeof_entry : ℕ
sizeof_entry = 264

-- `BLOCK_SIZE / sizeof(struct sfs_dir_entry)`: one entry to a block.
abbrev pub entries_per_block : ℕ
entries_per_block = 512 / sizeof_entry

abbrev pub name_size : ℕ
name_size = 256

-- `arr[j].inumber`
unfoldable pub entry_inumber : Buffer → ℕ → ℕ
entry_inumber b j = load 8 b (j * sizeof_entry)

-- `arr[j].name`
unfoldable pub entry_name : Buffer → ℕ → List ℕ
entry_name b j = load_fields (replicate name_size 1) b (j * sizeof_entry + 8)

-- `arr[j].inumber = n`
unfoldable pub set_entry_inumber : Buffer → ℕ → ℕ → Buffer
set_entry_inumber b j n = store 8 b (j * sizeof_entry) n

-- `strncpy(arr[j].name, name, 256)`, which pads with NULs.
unfoldable pub set_entry_name : Buffer → ℕ → List ℕ → Buffer
set_entry_name b j name =
    store_fields (replicate name_size 1) b (j * sizeof_entry + 8)
      (take name_size (name ++ replicate name_size 0))

abbrev pub set_entry : Buffer → ℕ → ℕ → List ℕ → Buffer
set_entry b j n name = set_entry_name (set_entry_inumber b j n) j name

-- The first character of a string, its NUL at the end of the list, and the string behind it.
abbrev pub first_char : List ℕ → ℕ
first_char [] = 0
first_char (c ∷ s) = c

abbrev pub rest_chars : List ℕ → List ℕ
rest_chars [] = []
rest_chars (c ∷ s) = s

-- `strncmp(a, b, n) == 0`
unfoldable pub same_name : ℕ → List ℕ → List ℕ → Bool
same_name zero a b = true
same_name (suc n) a b =
    let rest = same_name n (rest_chars a) (rest_chars b) in
    if first_char a == first_char b then (if first_char a == 0 then true else rest) else false
