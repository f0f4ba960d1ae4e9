-- ===== src/Tests/Folder.antt =====
-- A root directory of two blocks on the small disk: the entry `a` of inode 2 in block 6, and a free slot
-- in block 7. The block of inodes is in the cache.
use filesys.Prelude.{
  ℕ, zero, suc, ◌+◌, ◌*◌, ◌≤◌, ◌≡◌, ◌↔◌, inl, inr, refl, ap, ◌∙◌, true, false, none, some, List, [],
  ◌∷◌, replicate, arith, ltb, leb, ◌&&◌, if◌then◌else◌, fun_ext, get_or, ◌-◌, Bool-cases,
}
use filesys.Bytes.{Buffer, zeros, clip, load}
use filesys.Outcome.{Ensures, ◌>>=◌, ◌>>◌}
use filesys.Os.{IsReliable}
use filesys.Block.{block_at}
use filesys.Fs.Layout.{
  Inode, IsInode, store_inode, load_inode-clip, load_inode-store_inode_self,
  load_inode-store_inode_ne,
}
use filesys.Fs.State.{Filesystem}
use filesys.Fs.Inode.{inode_block, inode_position, read_inode}
use filesys.Fs.Cache.{IsCoherent, block_view}
use filesys.Fs.InodeView.{inode_view}
use filesys.Fs.BlockMap.{pointer, is_outside}
use filesys.Fs.BlockMap.Contents.{Holds, Place}
use filesys.Fs.Blocks.{first_from}
use filesys.Dir.Entry.{first_char, entry_inumber, entry_name, set_entry, same_name}
use filesys.Dir.Iterate.{DirIterator, is_dir_mode, dir_iter_unlink}
use filesys.Dir.Link.{dir_link}
use filesys.Dir.Contents.{IsApart, IsDirectory, is_used, has_name}
use filesys.Dir.Names.{IsString, entry-set_entry}
use filesys.Dir.Ends.{rank}
use filesys.Dir.Linked.{IsTarget}
use filesys.Dir.LinkSlot.{is_free}
use filesys.Dir.Walk.{IsWalk}
use filesys.Sfs.State.{str_eq}
use filesys.Sfs.Lookup.{find_entry}
use filesys.Sfs.Search.{is_named, IsFirstNamed, find_entry_lem}
use filesys.Sfs.Names.{lookup}
use filesys.Sfs.Links.{start, inumber_of, dir_link-find_entry, dir_iter_unlink-find_entry}
use filesys.Tests.Ram.{ram, ram-IsPosix}
use filesys.Tests.Fs.{cold, file, two-IsInumber}

abbrev pub a_name : List ℕ
a_name = b'a' ∷ []

abbrev pub b_name : List ℕ
b_name = b'b' ∷ []

abbrev entry_a : Buffer
entry_a = set_entry zeros 0 2 a_name

-- The bytes of the disk file: block 6 has the entry.
abbrev disk : Buffer
disk a = if leb 3072 a && ltb a 3584 then entry_a (a - 3072) else 0

abbrev pub folder : Inode
folder = record {
  inumber = 1;
  mode = 0o040755;
  uid = 0;
  gid = 0;
  links = 2;
  access_time = 0;
  modified_time = 0;
  change_time = 0;
  size = 1024;
  block_pointers = 6 ∷ 7 ∷ replicate 12 0;
}

pub folder-IsInode : IsInode folder
folder-IsInode = omega arith

-- Inode 2 is open as well as linked.
abbrev pub open_file : Inode
open_file = record file { links = 2 }

open_file-IsInode : IsInode open_file
open_file-IsInode = omega arith

abbrev pub inodes : Buffer
inodes = store_inode (store_inode zeros 1 open_file) 0 folder

abbrev pub state : Filesystem
state = record cold {
  os_state = disk;
  inode_cache = record { dirty = true; block_number = 1; contents = inodes };
}

state-IsCoherent : IsCoherent ram-IsPosix state
state-IsCoherent = record {
  number = omega arith;
  dirty = λ d. omega arith;
  clean = λ d p. absurd (cc);
}

pub state-file : inode_view ram-IsPosix state 2 ≡ open_file
unfolding inode_view block_view inode_block inode_position
state-file =
    load_inode-clip inodes 1 (omega arith)
    ∙ (load_inode-store_inode_ne (store_inode zeros 1 open_file) 0 1 folder (λ e. omega (arith, e))
        ∙ load_inode-store_inode_self zeros 1 open_file open_file-IsInode)

-- What the blocks of the directory hold.
abbrev pub content : ℕ → Buffer
content zero = clip entry_a
content (suc k) = zeros

pub ram-IsReliable : IsReliable ram 10
ram-IsReliable = record { reads = λ n o s h. refl; writes = λ b n o s h. refl }

block_six : block_at ram-IsPosix disk 6 ≡ content 0
unfolding block_at clip ram-IsPosix
block_six = fun_ext λ i. elim (Bool-cases (ltb i 512)) [
  | inl e ↦
      let back : 6 * 512 + i - 3072 ≡ i = omega arith in rw e (ground (arith, e, ap entry_a back))
  | inr e ↦ rw e refl
]

block_seven : block_at ram-IsPosix disk 7 ≡ zeros
unfolding block_at clip ram-IsPosix
block_seven = fun_ext λ i. ground arith

pub get_or-zeros : (n k : ℕ) → get_or {A = ℕ} (replicate n 0) k 0 ≡ 0
get_or-zeros zero k = refl
get_or-zeros (suc n) zero = refl
get_or-zeros (suc n) (suc k) = get_or-zeros n k

folder-Holds : Holds ram-IsPosix content folder state
unfolding is_outside
folder-Holds = record { places = λ k h. place k; small = omega arith }
  where
    place : (k : ℕ) → Place ram-IsPosix content folder state k
    place zero = inr (refl, block_six)
    place (suc zero) = inr (refl, block_seven)
    place (suc (suc k)) = inl (get_or-zeros 12 k, refl)

pointer_rest : (k : ℕ) → pointer folder (suc (suc k)) ≡ 0
pointer_rest k = get_or-zeros 12 k

folder-IsApart : IsApart folder
folder-IsApart zero zero p q ne used e = ne refl
folder-IsApart zero (suc zero) p q ne used e = omega (arith, e)
folder-IsApart zero (suc (suc k)) p q ne used e = omega (arith, e, pointer_rest k)
folder-IsApart (suc zero) zero p q ne used e = omega (arith, e)
folder-IsApart (suc zero) (suc zero) p q ne used e = ne refl
folder-IsApart (suc zero) (suc (suc k)) p q ne used e = omega (arith, e, pointer_rest k)
folder-IsApart (suc (suc i)) k p q ne used e = omega (arith, used, pointer_rest i)

pub folder-IsDirectory : IsDirectory ram-IsPosix content folder state
unfolding inode_block
folder-IsDirectory = record {
  ok = folder-IsInode;
  number = record { positive = omega arith; small = omega arith };
  in_table = omega arith;
  table = omega arith;
  coherent = state-IsCoherent;
  cached = omega arith;
  apart = folder-IsApart;
  holds = folder-Holds;
}

abbrev stopped : DirIterator
stopped = record { inode = folder; iblock = 0; entry = 1; cached_block = content 0 }

pub start-IsWalk : IsWalk ram-IsPosix 10 content 2 1 state (start folder) state
unfolding is_dir_mode
start-IsWalk = record {
  directory = folder-IsDirectory;
  within = omega arith;
  length = refl;
  bounded = omega arith;
  entry = omega arith;
  iblock = omega arith;
  is_dir = refl;
  own = refl;
  super = refl;
  others = λ j p ne. refl;
}

stopped-IsWalk : IsWalk ram-IsPosix 10 content 2 1 state stopped state
unfolding is_dir_mode
stopped-IsWalk = record {
  directory = folder-IsDirectory;
  within = omega arith;
  length = refl;
  bounded = omega arith;
  entry = omega arith;
  iblock = omega arith;
  is_dir = refl;
  own = refl;
  super = refl;
  others = λ j p ne. refl;
}

entry_zero : entry_inumber zeros 0 ≡ 0
unfolding entry_inumber load
entry_zero = refl

-- The entry has inode number 2, and the name `a` only.
pub entry_number : entry_inumber (content 0) 0 ≡ 2
entry_number =
    (entry-set_entry zeros 0 2 a_name a_name (omega arith) (omega arith) (omega arith) (omega arith)
      (omega arith)).0

entry_same :
    (other : List ℕ)
    → IsString other
    → (same_name 256 (entry_name (content 0) 0) other ≡ true) ↔ (a_name ≡ other)
entry_same other s =
    (entry-set_entry zeros 0 2 a_name other (omega arith) (omega arith) (omega arith) (omega arith)
      s).1

named_a : is_named a_name content 0 ≡ true
unfolding is_used has_name
named_a = ground (arith, entry_number, (entry_same a_name (omega arith)).1 refl)

free_one : is_free content 1 ≡ true
unfolding is_free
free_one = ground (arith, entry_zero)

full_zero : is_free content 0 ≡ false
unfolding is_free
full_zero = ground (arith, entry_number)

unnamed_one : (name : List ℕ) → is_named name content 1 ≡ false
unfolding is_used
unnamed_one name = ground (arith, entry_zero)

first_free : first_from 2 0 (is_free content) ≡ some 1
unfolding first_from
first_free = rw full_zero (rw free_one refl)

pub first_a : first_from 2 0 (is_named a_name content) ≡ some 0
unfolding first_from
first_a = rw named_a refl

pub only_a : first_from (2 - (0 + 1)) (0 + 1) (is_named a_name content) ≡ none
unfolding first_from
only_a = rw (unnamed_one a_name) refl

b_differs : a_name ≡ b_name → ⊥
b_differs e = let head : b'a' ≡ b'b' = ap first_char e in omega (arith, head)

no_b : lookup 2 content b_name ≡ none
unfolding lookup first_from is_used has_name
no_b =
    let equal = entry_same b_name (omega arith) in
    let differ : same_name 256 (entry_name (content 0) 0) b_name ≡ false =
      elim (Bool-cases (same_name 256 (entry_name (content 0) 0) b_name)) [
        | inl e ↦ absurd (b_differs (equal.0 e))
        | inr e ↦ e
      ] in
    ground (arith, differ, entry_zero)

entry-set_entry_example :
    (entry_inumber (clip (set_entry zeros 0 2 a_name)) 0 ≡ 2)
    × ((same_name 256 (entry_name (clip (set_entry zeros 0 2 a_name)) 0) b_name ≡ true)
        ↔ (a_name ≡ b_name))
entry-set_entry_example =
    entry-set_entry zeros 0 2 a_name b_name (omega arith) (omega arith) (omega arith) (omega arith)
      (omega arith)

find_entry_lem_example :
    Ensures
      (IsFirstNamed ram-IsPosix 10 content 2 1 state a_name (rank stopped))
      (λ _. ⊥)
      (find_entry a_name stopped state)
find_entry_lem_example =
    find_entry_lem ram-IsPosix 10 content 2 1 state a_name ram-IsReliable (omega arith) stopped
      state stopped-IsWalk

slot_inside : is_outside cold.superblock 7 ≡ false
unfolding is_outside
slot_inside = refl

abbrev new_file : Inode
new_file = record file { inumber = 3 }

new_file-IsTarget : IsTarget ram-IsPosix new_file state
unfolding inode_block
new_file-IsTarget = record {
  ok = omega arith;
  number = record { positive = omega arith; small = omega arith };
  in_table = omega arith;
}

pub two_in_table : inode_block 2 ≤ 1
unfolding inode_block
two_in_table = omega arith

-- The name `b` for inode 3, and then a search for it.
dir_link-find_entry_example :
    Ensures
      (λ a _. inumber_of a ≡ (if str_eq b_name b_name then some 3 else lookup 2 content b_name))
      (λ _. ⊥)
      ((do
        (directory', inode') ← dir_link folder b_name new_file
        find_entry b_name (start directory'))
        state)
dir_link-find_entry_example =
    dir_link-find_entry ram-IsPosix 10 ram-IsReliable (omega arith) content 2 1 folder new_file
      b_name b_name state start-IsWalk first_free slot_inside new_file-IsTarget (omega arith)
      (omega arith) (omega arith) no_b

dir_iter_unlink-find_entry_example :
    Ensures
      (λ a _. inumber_of a ≡ (if str_eq a_name a_name then none else lookup 2 content a_name))
      (λ _. ⊥)
      ((do
        dir_iter_unlink stopped 0
        directory' ← read_inode 1
        find_entry a_name (start directory'))
        state)
dir_iter_unlink-find_entry_example =
    dir_iter_unlink-find_entry ram-IsPosix 10 ram-IsReliable (omega arith) content 2 2 stopped
      a_name a_name state stopped-IsWalk refl first_a only_a entry_number two-IsInumber two_in_table
      (ap (λ (i : Inode). i.inumber) state-file)
      (λ e. omega (arith, e, ap (λ (i : Inode). i.links) state-file)) (λ e. omega (arith, e))
      (omega arith) (omega arith) (omega arith)
