-- ===== src/Tests/LastLink.antt =====
-- The directory of Tests.Folder, whose entry `a` is the only link of inode 2, an empty file.
use filesys.Prelude.{
  ℕ, zero, suc, ◌≡◌, refl, sym, ap, subst, ◌∙◌, true, false, none, replicate, arith, if◌then◌else◌,
  take,
}
use filesys.Bytes.{zeros}
use filesys.Outcome.{Ensures}
use filesys.Fs.Layout.{
  Inode, IsInode, ndir_blocks, store_inode, load_inode-clip, load_inode-store_inode_self,
  load_inode-store_inode_ne,
}
use filesys.Fs.State.{Filesystem}
use filesys.Fs.Inode.{inode_block, inode_position}
use filesys.Fs.Cache.{IsCoherent, block_view}
use filesys.Fs.InodeView.{inode_view}
use filesys.Fs.FreeInodes.Deallocate.{Holes}
use filesys.Dir.Iterate.{is_dir_mode}
use filesys.Dir.LastLink.{IsLastLink}
use filesys.Dir.Walk.{IsWalk}
use filesys.Sfs.State.{Sfs, value, str_eq}
use filesys.Sfs.Lookup.{getattr}
use filesys.Sfs.Files.{unlink}
use filesys.Sfs.Names.{lookup}
use filesys.Sfs.Links.{start}
use filesys.Sfs.AtRoot.{IsRoot}
use filesys.Sfs.Attributes.{answer}
use filesys.Sfs.LastLink.{IsOnlyLinkOf, unlink_last-getattr}
use filesys.Tests.Ram.{ram, ram-IsPosix}
use filesys.Tests.Pool.{full}
use filesys.Tests.Fs.{file, two-IsInumber}
use filesys.Tests.Folder.{
  a_name, folder, folder-IsInode, folder-IsDirectory, state, content, ram-IsReliable, entry_number,
  first_a, only_a, two_in_table,
}
use filesys.Tests.Handlers.{names, a_name-IsPlain}

replicate-Holes : (k : ℕ) → Holes (replicate k 0)
replicate-Holes zero = tt
replicate-Holes (suc k) = (refl, replicate-Holes k)

abbrev empty_file : Inode
empty_file = record file { size = 0; block_pointers = replicate 14 0 }

empty_file-IsInode : IsInode empty_file
empty_file-IsInode = omega arith

abbrev closed : Filesystem
closed = record state {
  inode_cache = record {
    dirty = true;
    block_number = 1;
    contents = store_inode (store_inode zeros 1 empty_file) 0 folder;
  };
}

closed-IsCoherent : IsCoherent ram-IsPosix closed
closed-IsCoherent = record {
  number = omega arith;
  dirty = λ d. omega arith;
  clean = λ d p. absurd (cc);
}

closed-file : inode_view ram-IsPosix closed 2 ≡ empty_file
unfolding inode_view block_view inode_block inode_position
closed-file =
    load_inode-clip (store_inode (store_inode zeros 1 empty_file) 0 folder) 1 (omega arith)
    ∙ (load_inode-store_inode_ne (store_inode zeros 1 empty_file) 0 1 folder (λ e. omega (arith, e))
        ∙ load_inode-store_inode_self zeros 1 empty_file empty_file-IsInode)

closed-root : inode_view ram-IsPosix closed 1 ≡ folder
unfolding inode_view block_view inode_block inode_position
closed-root =
    load_inode-clip (store_inode (store_inode zeros 1 empty_file) 0 folder) 0 (omega arith)
    ∙ load_inode-store_inode_self (store_inode zeros 1 empty_file) 0 folder folder-IsInode

start-IsWalk : IsWalk ram-IsPosix 10 content 2 1 closed (start folder) closed
unfolding is_dir_mode
start-IsWalk = record {
  directory = record {
    ok = folder-IsInode;
    number = folder-IsDirectory.number;
    in_table = folder-IsDirectory.in_table;
    table = omega arith;
    coherent = closed-IsCoherent;
    cached = omega arith;
    apart = folder-IsDirectory.apart;
    holds = record {
      places = folder-IsDirectory.holds.places;
      small = folder-IsDirectory.holds.small;
    };
  };
  within = omega arith;
  length = refl;
  bounded = omega arith;
  entry = omega arith;
  iblock = omega arith;
  is_dir = refl;
  own = refl;
  super = refl;
  others = λ j p ne. refl;
}

closed-IsRoot : IsRoot ram-IsPosix 10 content 2 closed
closed-IsRoot =
    subst (λ i. IsWalk ram-IsPosix 10 content 2 1 closed (start i) closed) (sym closed-root)
      start-IsWalk

closed-IsLastLink : IsLastLink ram-IsPosix 2 closed
closed-IsLastLink = record {
  number = two-IsInumber;
  in_table = two_in_table;
  own = ap (λ (i : Inode). i.inumber) closed-file;
  links = ap (λ (i : Inode). i.links) closed-file;
  holes =
      subst (λ (i : Inode). Holes (take ndir_blocks i.block_pointers)) (sym closed-file)
        (replicate-Holes 12);
  head = omega arith;
}

a_name-IsOnlyLinkOf : IsOnlyLinkOf ram-IsPosix 10 content 2 0 2 a_name closed
a_name-IsOnlyLinkOf = record {
  first = first_a;
  only = only_a;
  number = entry_number;
  apart = λ e. omega (arith, e);
  last = closed-IsLastLink;
}

a_name-same : str_eq a_name a_name ≡ true
unfolding str_eq
a_name-same = refl

abbrev mounted : Sfs
mounted = record { fs = closed; pool = full; locked = false }

unlink_last-getattr_example :
    Ensures
      (λ r s'.
        (r ≡ (value 0, tt))
        × (s'.fs.superblock.free_inode_head ≡ 2)
        × Ensures
            (λ d s''.
              (d
                ≡ answer ram-IsPosix 10 content 2 closed
                    (if str_eq a_name a_name then none else lookup 2 content a_name))
              × (s''.locked ≡ false))
            (λ _. ⊥)
            (getattr names a_name s'))
      (λ _. ⊥)
      (unlink names a_name mounted)
unlink_last-getattr_example =
    unlink_last-getattr ram-IsPosix 10 content 2 0 2 ram-IsReliable (omega arith) (λ s. refl) names
      a_name a_name mounted refl closed-IsRoot a_name-IsPlain a_name-IsPlain (omega arith)
      (omega arith) a_name-IsOnlyLinkOf (λ k h differ. absurd (ground (arith, differ, a_name-same)))
