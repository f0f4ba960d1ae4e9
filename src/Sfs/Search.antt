-- ===== src/Sfs/Search.antt =====
-- src/sfs.c: the search of a directory for a name gives the first used entry that has it, if the
-- transfers of the disk file are never short.
use filesys.Prelude.{
  ℕ, zero, suc, ◌+◌, ◌-◌, ◌^◌, ◌<◌, ◌≤◌, ◌≡◌, refl, sym, ap, ◌∙◌, Bool, ◌&&◌, Option, none, some,
  List, arith, if◌then◌else◌,
}
use filesys.Bytes.{Buffer}
use filesys.Outcome.{Run, Ensures, returns, Ensures-bind, Ensures-mono, Ensures-if_run}
use filesys.Os.{Os, IsPosix, IsReliable}
use filesys.Fs.State.{Filesystem}
use filesys.Fs.Blocks.{first_from}
use filesys.Dir.Entry.{entry_name, same_name}
use filesys.Dir.Iterate.{DirIterator, Next, found, null}
use filesys.Dir.Ends.{rank}
use filesys.Dir.FirstFrom.{first_from-step, first_from-none, first_from-some}
use filesys.Dir.Contents.{is_used, has_name}
use filesys.Dir.Walk.{IsWalk, IsNextUsed, dir_iternext-first}
use filesys.Sfs.Lookup.{match_entry, find_loop, find_entry}

-- The entry of block `k` is in use and has the name.
abbrev pub is_named : List ℕ → (content : ℕ → Buffer) → ℕ → Bool
is_named name content k = is_used content k && has_name name content k

module _ ⦃os : Os⦄ (px : IsPosix os) (size : ℕ) (content : ℕ → Buffer) (m : ℕ) (number : ℕ)
    (base : Filesystem) (name : List ℕ) where
  -- The first used entry of that name from block `r` on, with its block in the iterator.
  abbrev pub IsFirstNamed : ℕ → DirIterator × Option ℕ → Filesystem → Type 0
  IsFirstNamed r (it, none) fs =
      (first_from (m - r) r (is_named name content) ≡ none)
      × IsWalk px size content m number base it fs
  IsFirstNamed r (it, some position) fs =
      (position ≡ 0)
      × (it.cached_block ≡ content it.iblock)
      × (first_from (m - r) r (is_named name content) ≡ some it.iblock)
      × IsWalk px size content m number base it fs

  IsFirstNamed-skip :
      (r r' : ℕ) (a : DirIterator × Option ℕ) (fs : Filesystem)
      → first_from (m - r) r (is_named name content)
        ≡ first_from (m - r') r' (is_named name content)
      → IsFirstNamed r' a fs
      → IsFirstNamed r a fs
  IsFirstNamed-skip r r' (it, none) fs same (e, w) = (same ∙ e, w)
  IsFirstNamed-skip r r' (it, some position) fs same (p, c, e, w) = (p, c, same ∙ e, w)

  -- The search for the name goes on at the next used entry.
  named-step :
      (r k : ℕ)
      → first_from (m - r) r (is_used content) ≡ some k
      → (r ≤ k)
        × (k < m)
        × (first_from (m - r) r (is_named name content) ≡ (
            if has_name name content k
            then some k
            else first_from (m - (k + 1)) (k + 1) (is_named name content)))
  named-step r k h =
      let (from, below, used, same) =
        first_from-some (m - r) r k (is_used content) (has_name name content) h in
      let count : r + (m - r) - k ≡ m - k = omega (arith, from, below) in
      let inside : k < m = omega (arith, from, below) in
      let step = first_from-step m k (is_named name content) inside in
      (from, inside, ground (arith, same, count, step, used))

  match_entry-first :
      (r : ℕ) (n : Next) (next : DirIterator → Run Filesystem (DirIterator × Option ℕ))
      (fs : Filesystem)
      → IsNextUsed px size content m number base r n fs
      → ((it : DirIterator)
          → IsWalk px size content m number base it fs
          → r < rank it
          → Ensures (IsFirstNamed (rank it)) (λ _. ⊥) (next it fs))
      → Ensures (IsFirstNamed r) (λ _. ⊥) (match_entry name n next fs)
  unfolding match_entry has_name
  match_entry-first r (null it) next fs (e, w) go =
      returns (first_from-none (m - r) r (is_used content) (has_name name content) e, w)
  match_entry-first r (found position inode it) next fs (p, last, loaded, e, w) go =
      let (from, inside, named) = named-step r it.iblock e in
      let here : same_name 256 (entry_name it.cached_block position) name
          ≡ has_name name content it.iblock =
        rw p (ap (λ b. same_name 256 (entry_name b 0) name) loaded) in
      let behind : rank it ≡ it.iblock + 1 = ground (arith, last) in
      Ensures-if_run (same_name 256 (entry_name it.cached_block position) name) _ _ fs
        (λ yes. returns (p, loaded, named ∙ rw (sym here ∙ yes) refl, w))
        λ no.
          let skip : first_from (m - r) r (is_named name content)
              ≡ first_from (m - rank it) (rank it) (is_named name content) =
            named ∙ rw (sym here ∙ no) (rw behind refl) in
          Ensures-mono (go it w (omega (arith, behind, from)))
            (λ a fs' h. IsFirstNamed-skip r (rank it) a fs' skip h) λ _ impossible. impossible

  module _ (reliable : IsReliable os size) (small : size ≤ 2 ^ 55) where
    find_loop-first :
        (fuel : ℕ) (it : DirIterator) (fs : Filesystem)
        → IsWalk px size content m number base it fs
        → m + 1 < fuel + rank it
        → rank it ≤ m + 1
        → Ensures (IsFirstNamed (rank it)) (λ _. ⊥) (find_loop fuel name it fs)
    unfolding find_loop
    find_loop-first zero it fs w enough bounded = absurd (omega (arith, enough, bounded))
    find_loop-first (suc fuel) it fs w enough bounded =
        Ensures-bind (dir_iternext-first px size content m number base reliable small it fs w)
          (λ n fs' h. match_entry-first (rank it) n (find_loop fuel name) fs' h λ it' w' more.
            find_loop-first fuel it' fs' w' (omega (arith, enough, more))
              (ground (arith, w'.iblock)))
          λ _ impossible. impossible

    -- The search of a directory of `m` direct blocks for a name, from any position of the iterator on,
    -- returns: the first used entry behind that position which has the name, with its block in the
    -- iterator, and none if there is no such entry. The contents of the directory, its number of blocks,
    -- the superblock and the inodes other than the directory's stay. The transfers of the disk file are never short.
    pub find_entry_lem :
        (it : DirIterator) (fs : Filesystem)
        → IsWalk px size content m number base it fs
        → Ensures (IsFirstNamed (rank it)) (λ _. ⊥) (find_entry name it fs)
    unfolding find_entry
    find_entry_lem it fs w =
        find_loop-first 80 it fs w (omega (arith, w.bounded)) (ground (arith, w.iblock))
