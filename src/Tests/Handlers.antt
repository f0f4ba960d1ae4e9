-- ===== src/Tests/Handlers.antt =====
-- The handlers of a path in the directory of Tests.Folder.
use filesys.Prelude.{ℕ, ◌≡◌, refl, sym, ap, subst, ◌∙◌, false, none, some, arith, if◌then◌else◌}
use filesys.Bytes.{zeros}
use filesys.Outcome.{Ensures, pure, ◌>>=◌}
use filesys.Fs.Layout.{Inode, store_inode, load_inode-clip, load_inode-store_inode_self}
use filesys.Fs.Inode.{inode_block, inode_position}
use filesys.Fs.Cache.{block_view}
use filesys.Fs.InodeView.{inode_view}
use filesys.Dir.Walk.{IsWalk}
use filesys.Sfs.State.{Sfs, value, Libgen, str_eq, root_path}
use filesys.Sfs.Lookup.{getattr}
use filesys.Sfs.AtRoot.{IsRoot, IsPlain}
use filesys.Sfs.Attributes.{outlined, IsEntry, answer, getattr_lem}
use filesys.Sfs.Files.{unlink}
use filesys.Sfs.Removes.{IsLinkOf, remaining, unlink-getattr}
use filesys.Sfs.Names.{number_at, lookup}
use filesys.Sfs.Links.{start}
use filesys.Tests.Ram.{ram, ram-IsPosix}
use filesys.Tests.Pool.{full}
use filesys.Tests.Fs.{two-IsInumber}
use filesys.Tests.Folder.{
  a_name, folder, folder-IsInode, open_file, inodes, state, state-file, content, ram-IsReliable,
  start-IsWalk, entry_number, first_a, only_a, two_in_table,
}

abbrev pub names : Libgen
names = record { dirname = λ p. root_path; basename = λ p. p }

abbrev mounted : Sfs
mounted = record { fs = state; pool = full; locked = false }

state-root : inode_view ram-IsPosix state 1 ≡ folder
unfolding inode_view block_view inode_block inode_position
state-root =
    load_inode-clip inodes 0 (omega arith)
    ∙ load_inode-store_inode_self (store_inode zeros 1 open_file) 0 folder folder-IsInode

state-IsRoot : IsRoot ram-IsPosix 10 content 2 state
state-IsRoot =
    subst (λ i. IsWalk ram-IsPosix 10 content 2 1 state (start i) state) (sym state-root)
      start-IsWalk

-- The name `a` leads to inode 2.
a_name-IsEntry :
    (n : ℕ) → lookup 2 content a_name ≡ some n → IsEntry ram-IsPosix 10 content 2 state n
unfolding lookup
a_name-IsEntry n h =
    let two : 2 ≡ n = ground (arith, h, ap (number_at content) first_a, entry_number) in
    subst (IsEntry ram-IsPosix 10 content 2 state) two
      (two-IsInumber, two_in_table, λ e. omega (arith, e))

pub a_name-IsPlain : IsPlain names a_name
unfolding str_eq
a_name-IsPlain = record { within = refl; deep = refl; short = omega arith }

getattr_lem_example :
    Ensures
      (λ r s'.
        (r ≡ answer ram-IsPosix 10 content 2 state (lookup 2 content a_name)) × (s'.locked ≡ false))
      (λ _. ⊥)
      (getattr names a_name mounted)
unfolding str_eq
getattr_lem_example =
    getattr_lem ram-IsPosix 10 content 2 ram-IsReliable (omega arith) (λ s. refl) names a_name
      mounted refl state-IsRoot a_name-IsPlain a_name-IsEntry

a_name-IsLinkOf : IsLinkOf ram-IsPosix 10 content 2 0 2 a_name state
a_name-IsLinkOf = record {
  first = first_a;
  only = only_a;
  number = entry_number;
  entry = (two-IsInumber, two_in_table, λ e. omega (arith, e));
  own = ap (λ (i : Inode). i.inumber) state-file;
  links = λ e. omega (arith, e, ap (λ (i : Inode). i.links) state-file);
}

unlink-getattr_example :
    Ensures
      (λ (c, d) s'.
        (c ≡ value 0)
        × (outlined d
            ≡ remaining ram-IsPosix 10 content 2 0 2 state
                (if str_eq a_name a_name then none else lookup 2 content a_name))
        × (s'.locked ≡ false))
      (λ _. ⊥)
      ((do (c, _) ← unlink names a_name; d ← getattr names a_name; pure (c, d)) mounted)
unlink-getattr_example =
    unlink-getattr ram-IsPosix 10 content 2 0 2 ram-IsReliable (omega arith) (λ s. refl) names
      a_name a_name mounted refl state-IsRoot a_name-IsPlain a_name-IsPlain (omega arith)
      (omega arith) a_name-IsLinkOf a_name-IsEntry
