-- ===== src/Fs/FreeInodes/Deallocate.antt =====
-- `sfs_fs_inode_deallocate` on the list of free inodes, for an inode without direct blocks.
use filesys.Prelude.{
  ℕ, ◌<◌, ◌≡◌, ◌≢◌, refl, sym, ap, subst, ◌∙◌, Bool, true, false, List, [], ◌∷◌, take, has, arith,
  ◌==◌, if◌then◌else◌,
}
use filesys.Outcome.{done, Ensures, returns, Ensures-bind}
use filesys.Os.{Os, IsPosix}
use filesys.Block.{block_at}
use filesys.Fs.Layout.{Inode, Superblock, IsInode, ndir_blocks, load_inode}
use filesys.Fs.State.{Filesystem, write_superblock}
use filesys.Fs.Inode.{inode_position, inode_block}
use filesys.Fs.InodeAlloc.{inode_deallocate, set_free_inode_head, free_pointers}
use filesys.Fs.Cache.{IsCoherent, write_block_lem}
use filesys.Fs.InodeView.{IsInumber, inode_view, inode_block-pos, Written, write_inode-view}
use filesys.Fs.FreeInodes.{Leads, cached, IsCoherent-others}

-- The pointers are all holes.
abbrev pub Holes : List ℕ → Type 0
Holes [] = Unit
Holes (n ∷ ns) = (n ≡ 0) × Holes ns

-- A list of free inodes without `n` does not depend on inode `n`.
Leads-write :
    (t u : ℕ → Inode) (head n : ℕ) (i : Inode) (ns : List ℕ) (tail : ℕ)
    → ((m : ℕ) → 0 < m → u m ≡ (if m == n then i else t m))
    → has n ns ≡ false
    → Leads t head ns tail
    → Leads u head ns tail
Leads-write t u head n i [] tail h out l = l
Leads-write t u head n i (k ∷ ns) tail h out (e, ok, l) =
    let ne : (k == n) ≡ false = ground (arith, out) in
    let rest : has n ns ≡ false = ground (arith, out) in
    let same : u k ≡ t k = h k ok.positive ∙ ap (λ (b : Bool). if b then i else t k) ne in
    (
      e,
      ok,
      subst (λ (j : Inode). Leads u j.size ns tail) (sym same)
          (Leads-write t u (t k).size n i ns tail h rest l),
    )

module _ ⦃os : Os⦄ where
  pub free_pointers-Holes :
      (ns : List ℕ) (fs : Filesystem) → Holes ns → free_pointers ns fs ≡ done tt fs
  unfolding free_pointers
  free_pointers-Holes [] fs h = refl
  free_pointers-Holes (n ∷ ns) fs (e, h) =
      let hole : (n == 0) ≡ true = ground (arith, e) in rw hole (free_pointers-Holes ns fs h)

module _ ⦃os : Os⦄ (px : IsPosix os) where
  -- Inode `n` is at the front of the list of free inodes, and no other inode has changed.
  pub record DeallocatedInode (fs : Filesystem) (n : ℕ) (ns : List ℕ) (tail : ℕ) (fs' : Filesystem)
      : Type 0 where
    pub free : Leads (inode_view px fs') fs'.superblock.free_inode_head (n ∷ ns) tail
    pub super : fs'.superblock ≡ record fs.superblock { free_inode_head = n }
    pub coherent : IsCoherent px fs'
    pub others : (m : ℕ) → 0 < m → m ≢ n → inode_view px fs' m ≡ inode_view px fs m

  deallocated :
      (fs mid fs' : Filesystem) (i : Inode) (n : ℕ) (ns : List ℕ) (tail : ℕ)
      → IsInumber n
      → i.inumber ≡ n
      → i.size ≡ fs.superblock.free_inode_head
      → Written px i fs mid
      → Leads (inode_view px fs) fs.superblock.free_inode_head ns tail
      → has n ns ≡ false
      → fs'.inode_cache ≡ mid.inode_cache
      → fs'.superblock ≡ record mid.superblock { free_inode_head = n }
      → ((k : ℕ) → 0 ≢ k → block_at px fs'.os_state k ≡ block_at px mid.os_state k)
      → DeallocatedInode fs n ns tail fs'
  unfolding inode_view
  deallocated fs mid fs' i n ns tail ok own next w l out cache super kept =
      let views = λ (m : ℕ) (p : 0 < m).
        ap (λ b. load_inode b (inode_position m))
          (cached px mid fs' (inode_block m) cache
            (kept (inode_block m) (λ e. omega (arith, e, inode_block-pos m))))
        ∙ (w.inodes m p ∙ ap (λ (k : ℕ). if m == k then i else inode_view px fs m) own) in
      let itself : (n == n) ≡ true = ground arith in
      let at : inode_view px fs' n ≡ i =
        views n ok.positive ∙ ap (λ (b : Bool). if b then i else inode_view px fs n) itself in
      record {
        free =
            subst (λ (h : ℕ). Leads (inode_view px fs') h (n ∷ ns) tail)
              (sym (ap (λ (s : Superblock). s.free_inode_head) super))
              (
                refl,
                ok,
                subst (λ (h : ℕ). Leads (inode_view px fs') h ns tail)
                    (sym (ap (λ (j : Inode). j.size) at ∙ next))
                    (Leads-write (inode_view px fs) (inode_view px fs') _ n i ns tail views out l),
              );
        super = super ∙ ap (λ (s : Superblock). record s { free_inode_head = n }) w.super;
        coherent = IsCoherent-others px mid fs' w.coherent cache kept;
        others = λ m p ne.
            let another : (m == n) ≡ false = ground (arith, ne) in
            views m p ∙ ap (λ (b : Bool). if b then i else inode_view px fs m) another;
      }

  -- `sfs_fs_inode_deallocate` of an inode without direct blocks, whose fields fit and whose number is
  -- not in the list of free inodes: it does not abort, and if it returns 0, then the inode is at the
  -- front of the list, so that it is the next to be allocated, and no other inode has changed.
  pub inode_deallocate_lem :
      (fs : Filesystem) (i : Inode) (ns : List ℕ) (tail : ℕ)
      → IsCoherent px fs
      → IsInode (record i { size = fs.superblock.free_inode_head })
      → IsInumber i.inumber
      → Holes (take ndir_blocks i.block_pointers)
      → Leads (inode_view px fs) fs.superblock.free_inode_head ns tail
      → has i.inumber ns ≡ false
      → Ensures (λ _. DeallocatedInode fs i.inumber ns tail) (λ _. Unit {0}) (inode_deallocate i fs)
  unfolding inode_deallocate set_free_inode_head write_superblock
  inode_deallocate_lem fs i ns tail c fits ok holes l out =
      Ensures-bind (write_inode-view px fs _ c fits ok)
        (λ _ mid w.
          Ensures-bind (write_block_lem px 0 _ _ (omega arith))
            (λ _ fs' (_, memory, kept).
              rw (free_pointers-Holes (take ndir_blocks i.block_pointers) fs' holes) (
                returns (
                  deallocated fs mid fs' _ i.inumber ns tail ok refl refl w l out memory.cache
                    memory.super kept)))
            λ _ _. tt)
        λ _ _. tt
