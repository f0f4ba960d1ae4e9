-- ===== src/Tests/Created.antt =====
-- A root directory of one block on the small disk, without an entry: the slot has a byte of the
-- name of an entry that was removed. Inode 2 is free. The block of inodes is in the cache.
use filesys.Prelude.{
  ℕ, zero, suc, ◌≡◌, ◌≢◌, inl, inr, refl, sym, ap, subst, ◌∙◌, true, false, none, some, [], ◌∷◌,
  replicate, arith, ◌==◌, if◌then◌else◌, fun_ext,
}
use filesys.Bytes.{Buffer, zeros, clip, load}
use filesys.Outcome.{Ensures, pure, ◌>>=◌}
use filesys.Block.{block_at}
use filesys.Fs.Layout.{
  Inode, IsInode, store_inode, load_inode-clip, load_inode-store_inode_self,
  load_inode-store_inode_ne,
}
use filesys.Fs.State.{Filesystem}
use filesys.Fs.Inode.{inode_block, inode_position}
use filesys.Fs.Cache.{IsCoherent, block_view}
use filesys.Fs.InodeView.{inode_view}
use filesys.Fs.Blocks.{first_from}
use filesys.Fs.BlockMap.{pointer, is_outside}
use filesys.Fs.BlockMap.Contents.{Holds, Place}
use filesys.Dir.Entry.{entry_inumber}
use filesys.Dir.Iterate.{is_dir_mode}
use filesys.Dir.Contents.{IsApart, is_used}
use filesys.Dir.LinkSlot.{is_free}
use filesys.Dir.Walk.{IsWalk}
use filesys.Sfs.State.{value, str_eq}
use filesys.Sfs.Lookup.{getattr}
use filesys.Sfs.Files.{Caller, regular_mode, create}
use filesys.Sfs.Names.{lookup}
use filesys.Sfs.Links.{start}
use filesys.Sfs.AtRoot.{IsRoot, IsPlain}
use filesys.Sfs.Attributes.{outlined, IsEntry, answer}
use filesys.Sfs.Made.{IsNext, IsVacant}
use filesys.Sfs.Creates.{create-getattr}
use filesys.Tests.Ram.{ram, ram-IsPosix}
use filesys.Tests.Pool.{full, full-IsPool}
use filesys.Tests.Fs.{cold, file, file-IsInode, two-IsInumber}
use filesys.Tests.Folder.{b_name, ram-IsReliable, two_in_table, get_or-zeros}
use filesys.Tests.Handlers.{names}

-- What is left of an entry.
abbrev left : Buffer
left i = if i == 8 then b'a' else 0

abbrev disk : Buffer
disk a = if a == 3080 then b'a' else 0

abbrev folder : Inode
folder = record file {
  inumber = 1;
  mode = 0o040755;
  links = 2;
  size = 512;
  block_pointers = 6 ∷ replicate 13 0;
}

folder-IsInode : IsInode folder
folder-IsInode = omega arith

abbrev inodes : Buffer
inodes = store_inode (store_inode zeros 1 file) 0 folder

abbrev state : Filesystem
state = record cold {
  os_state = disk;
  inode_cache = record { dirty = true; block_number = 1; contents = inodes };
}

state-IsCoherent : IsCoherent ram-IsPosix state
state-IsCoherent = record {
  number = omega arith;
  dirty = λ d. omega arith;
  clean = λ d p. absurd (cc);
}

state-file : inode_view ram-IsPosix state 2 ≡ file
unfolding inode_view block_view inode_block inode_position
state-file =
    load_inode-clip inodes 1 (omega arith)
    ∙ (load_inode-store_inode_ne (store_inode zeros 1 file) 0 1 folder (λ e. omega (arith, e))
        ∙ load_inode-store_inode_self zeros 1 file file-IsInode)

state-root : inode_view ram-IsPosix state 1 ≡ folder
unfolding inode_view block_view inode_block inode_position
state-root =
    load_inode-clip inodes 0 (omega arith)
    ∙ load_inode-store_inode_self (store_inode zeros 1 file) 0 folder folder-IsInode

abbrev content : ℕ → Buffer
content zero = left
content (suc k) = zeros

block_six : block_at ram-IsPosix disk 6 ≡ left
unfolding block_at clip ram-IsPosix
block_six = fun_ext λ i. ground arith

pointer_rest : (k : ℕ) → pointer folder (suc k) ≡ 0
pointer_rest k = get_or-zeros 13 k

folder-Holds : Holds ram-IsPosix content folder state
unfolding is_outside
folder-Holds = record { places = λ k h. place k; small = omega arith }
  where
    place : (k : ℕ) → Place ram-IsPosix content folder state k
    place zero = inr (refl, block_six)
    place (suc k) = inl (get_or-zeros 13 k, refl)

folder-IsApart : IsApart folder
folder-IsApart zero zero p q ne used e = ne refl
folder-IsApart zero (suc k) p q ne used e = omega (arith, e, pointer_rest k)
folder-IsApart (suc i) k p q ne used e = omega (arith, used, pointer_rest i)

start-IsWalk : IsWalk ram-IsPosix 10 content 1 1 state (start folder) state
unfolding is_dir_mode inode_block
start-IsWalk = record {
  directory = record {
    ok = folder-IsInode;
    number = record { positive = omega arith; small = omega arith };
    in_table = omega arith;
    table = omega arith;
    coherent = state-IsCoherent;
    cached = omega arith;
    apart = folder-IsApart;
    holds = folder-Holds;
  };
  within = omega arith;
  length = refl;
  bounded = omega arith;
  entry = omega arith;
  iblock = omega arith;
  is_dir = refl;
  own = refl;
  super = refl;
  others = λ j p ne. refl;
}

state-IsRoot : IsRoot ram-IsPosix 10 content 1 state
state-IsRoot =
    subst (λ i. IsWalk ram-IsPosix 10 content 1 1 state (start i) state) (sym state-root)
      start-IsWalk

left-unused : entry_inumber left 0 ≡ 0
unfolding entry_inumber load
left-unused = refl

state-IsVacant : IsVacant content 1 0 8
unfolding first_from is_free
state-IsVacant = record { first = rw left-unused refl; written = λ e. omega (arith, e) }

state-IsNext : IsNext ram-IsPosix 10 content 1 state
state-IsNext = record {
  entry = (two-IsInumber, two_in_table, λ e. omega (arith, e));
  own = ap (λ (i : Inode). i.inumber) state-file;
}

no_b : lookup 1 content b_name ≡ none
unfolding lookup first_from is_used
no_b = rw left-unused refl

abbrev caller : Caller
caller = record { uid = 1000; gid = 100; umask = 0o022 }

b_name-IsPlain : IsPlain names b_name
unfolding str_eq
b_name-IsPlain = record { within = refl; deep = refl; short = omega arith }

b_name-IsEntry :
    (k : ℕ) → lookup 1 content b_name ≡ some k → IsEntry ram-IsPosix 10 content 1 state k × (k ≢ 2)
b_name-IsEntry k h = absurd (ground (arith, no_b, h))

create-getattr_example :
    Ensures
      (λ (c, d) s'.
        (c ≡ value 0)
        × (outlined d ≡ (
            if str_eq b_name b_name
            then (value 0, some (2, regular_mode 0o644 0o022, 2, 0))
            else outlined (answer ram-IsPosix 10 content 1 state (lookup 1 content b_name))))
        × (s'.locked ≡ false))
      (λ _. ⊥)
      ((do (c, _) ← create names caller b_name 0o644 2; d ← getattr names b_name; pure (c, d))
        (record { fs = state; pool = full; locked = false }))
create-getattr_example =
    create-getattr ram-IsPosix 10 content 1 0 b_name caller 0o644 ram-IsReliable (omega arith)
      (λ s. refl) names b_name b_name 2 8 [] (record { fs = state; pool = full; locked = false })
      refl refl state-IsRoot b_name-IsPlain b_name-IsPlain (omega arith) (omega arith) full-IsPool
      (record { uid = omega arith; gid = omega arith }) state-IsVacant state-IsNext no_b
      b_name-IsEntry
