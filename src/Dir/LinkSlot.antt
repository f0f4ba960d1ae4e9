-- ===== src/Dir/LinkSlot.antt =====
-- src/dir.c: `sfs_dir_link` puts an entry into the first slot that is free, if the transfers of the
-- disk file are never short.
use filesys.Prelude.{
  ℕ, zero, suc, ◌+◌, ◌*◌, ◌/◌, ◌^◌, ◌≤◌, ◌≡◌, inl, inr, refl, sym, subst, ap, ◌∙◌, Bool, true,
  false, some, List, length, ltb, ◌==◌, arith, Bool-cases,
}
use filesys.Bytes.{Buffer}
use filesys.Outcome.{Ensures, Ensures-mono, Ensures-bind}
use filesys.Os.{Os, IsPosix, IsReliable}
use filesys.Fs.Layout.{Inode, ndir_blocks}
use filesys.Fs.State.{Filesystem}
use filesys.Fs.BlockMap.{pointer, is_outside}
use filesys.Fs.Blocks.{first_from}
use filesys.Dir.Entry.{entry_inumber, set_entry}
use filesys.Dir.Link.{link_slot, link_loop, link_in_block, dir_link}
use filesys.Dir.Contents.{IsDirectory, IsDirectory-Keeps, inode_block_read-Keeps}
use filesys.Dir.Linked.{IsTarget, IsLinked, IsLinked-from, IsTarget-super, link_slot-IsLinked}
use filesys.Dir.Replace.{replaced}

-- The slot of block `k` is free.
unfoldable pub is_free : (content : ℕ → Buffer) → ℕ → Bool
is_free content k = entry_inumber (content k) 0 == 0

module _ ⦃os : Os⦄ (px : IsPosix os) (inode : Inode) (size : ℕ) (reliable : IsReliable os size)
    (small : size ≤ 2 ^ 55) where
  -- The loop up to the first free slot.
  link_loop-IsLinked :
      (content : ℕ → Buffer) (directory : Inode) (name : List ℕ) (i rounds k : ℕ) (fs : Filesystem)
      → fs.superblock.blocks ≤ size
      → k + rounds ≤ ndir_blocks
      → first_from rounds k (is_free content) ≡ some i
      → IsDirectory px content directory fs
      → IsTarget px inode fs
      → is_outside fs.superblock (pointer directory i) ≡ false
      → Ensures
          (IsLinked px inode
            (replaced content i (set_entry (content i) 0 inode.inumber name))
            directory
            fs)
          (λ _. ⊥)
          (link_loop rounds k directory name inode fs)
  unfolding link_loop link_in_block first_from is_free
  link_loop-IsLinked content directory name i zero k fs within direct first d target inside =
      ground (arith, first)
  link_loop-IsLinked content directory name i (suc rounds) k fs within direct first d target
        inside =
      let linked =
        IsLinked px inode (replaced content i (set_entry (content i) 0 inode.inumber name))
          directory in
      Ensures-bind
        (inode_block_read-Keeps px size reliable small content directory fs k within
          (omega (arith, direct)) d)
        (λ b fs₁ (loaded, keeps, same).
          let d₁ = IsDirectory-Keeps px content directory directory fs fs₁ d d.ok refl refl keeps in
          let t₁ = IsTarget-super px inode fs fs₁ keeps.super target in
          let inside₁ : is_outside fs₁.superblock (pointer directory i) ≡ false =
            rw keeps.super inside in
          let back : (result : Inode × Inode) (fs' : Filesystem)
              → linked fs₁ result fs'
              → linked fs result fs' =
            λ result fs' l.
              IsLinked-from px inode _ directory fs fs₁ result fs' keeps.super (λ n _. same n) l in
          elim (Bool-cases (entry_inumber (content k) 0 == 0)) [
            | inl free ↦
                let here : k ≡ i = ground (arith, first, free) in
                let slot : (entry_inumber b 0 == 0) ≡ true = rw loaded free in
                rw slot (
                  subst
                    (λ j. Ensures (linked fs) (λ _. ⊥) (link_slot directory name inode j 0 b fs₁))
                    (sym here)
                    (Ensures-mono
                      (link_slot-IsLinked px inode size reliable small content directory name i b
                        fs₁ (rw keeps.super within) (omega (arith, direct, here))
                        (loaded ∙ ap content here) d₁ t₁ inside₁)
                      back λ _ impossible. impossible))
            | inr full ↦
                let slot : (entry_inumber b 0 == 0) ≡ false = rw loaded full in
                rw slot (
                  Ensures-mono
                    (link_loop-IsLinked content directory name i rounds (k + 1) fs₁
                      (rw keeps.super within) (omega (arith, direct)) (ground (arith, first, full))
                      d₁ t₁ inside₁)
                    back λ _ impossible. impossible)
          ])
        λ _ impossible. impossible

  -- `sfs_dir_link` of a name of at most 255 characters into a directory of `m` direct blocks with a
  -- free slot.
  pub dir_link-IsLinked :
      (content : ℕ → Buffer) (directory : Inode) (name : List ℕ) (m i : ℕ) (fs : Filesystem)
      → fs.superblock.blocks ≤ size
      → directory.size ≡ m * 512
      → m ≤ ndir_blocks
      → length name ≤ 255
      → first_from m 0 (is_free content) ≡ some i
      → IsDirectory px content directory fs
      → IsTarget px inode fs
      → is_outside fs.superblock (pointer directory i) ≡ false
      → Ensures
          (IsLinked px inode
            (replaced content i (set_entry (content i) 0 inode.inumber name))
            directory
            fs)
          (λ _. ⊥)
          (dir_link directory name inode fs)
  unfolding dir_link
  dir_link-IsLinked content directory name m i fs within whole direct short first d target inside =
      let fits : ltb 255 (length name) ≡ false = ground (arith, short) in
      let count : directory.size / 512 ≡ m = omega (arith, whole) in
      rw fits (
        rw count (
          link_loop-IsLinked content directory name i m 0 fs within (omega (arith, direct)) first d
            target inside))
