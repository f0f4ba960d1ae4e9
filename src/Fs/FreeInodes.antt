-- ===== src/Fs/FreeInodes.antt =====
-- src/fs.c: the list of free inodes, each with the number of the next in its size, and
-- `sfs_fs_inode_allocate` on it. The list that formatting builds ends in a number behind the table,
-- so a list here ends in any number.
pub mod Deallocate
use filesys.Prelude.{
  ℕ, ◌<◌, ◌≡◌, ◌≢◌, ◌⊎◌, inl, inr, sym, ap, subst, ◌∙◌, true, false, ◌^◌, List, [], ◌∷◌, arith,
  ◌==◌, if◌then◌else◌,
}
use filesys.Bytes.{clip}
use filesys.Outcome.{Ensures, returns, Ensures-bind, Ensures-if}
use filesys.Os.{Os, IsPosix}
use filesys.Block.{block_at}
use filesys.Fs.Layout.{Inode, load_inode, Superblock}
use filesys.Fs.State.{Filesystem, write_superblock}
use filesys.Fs.Inode.{inode_block, inode_position}
use filesys.Fs.InodeAlloc.{set_free_inode_head, inode_allocate}
use filesys.Fs.Cache.{IsCoherent, block_view, write_block_lem}
use filesys.Fs.InodeView.{
  IsInumber, inode_block-pos, inode_view-SameView, inode_view, SameView, read_inode-view,
}

-- From `head` the sizes lead through the inodes `ns` to `tail`.
abbrev pub Leads : (ℕ → Inode) → (head : ℕ) → List ℕ → (tail : ℕ) → Type 0
Leads table head [] tail = head ≡ tail
Leads table head (n ∷ ns) tail = (head ≡ n) × IsInumber n × Leads table ((table n).size) ns tail

-- The list does not depend on what else the table holds.
Leads-ext :
    (t u : ℕ → Inode) (head : ℕ) (ns : List ℕ) (tail : ℕ)
    → ((m : ℕ) → 0 < m → u m ≡ t m)
    → Leads t head ns tail
    → Leads u head ns tail
Leads-ext t u head [] tail h l = l
Leads-ext t u head (n ∷ ns) tail h (e, ok, l) = (
  e,
  ok,
  subst (λ (i : Inode). Leads u i.size ns tail) (sym (h n ok.positive))
      (Leads-ext t u (t n).size ns tail h l),
)

module _ ⦃os : Os⦄ (px : IsPosix os) where
  cached :
      (fs fs' : Filesystem) (k : ℕ)
      → fs'.inode_cache ≡ fs.inode_cache
      → block_at px fs'.os_state k ≡ block_at px fs.os_state k
      → block_view px fs' k ≡ block_view px fs k
  unfolding block_view
  cached fs fs' k c e =
      ap (λ x. if x.block_number == k then clip x.contents else block_at px fs'.os_state k) c
      ∙ ap (λ b. if fs.inode_cache.block_number == k then clip fs.inode_cache.contents else b) e

  IsCoherent-others :
      (fs fs' : Filesystem)
      → IsCoherent px fs
      → fs'.inode_cache ≡ fs.inode_cache
      → ((k : ℕ) → 0 ≢ k → block_at px fs'.os_state k ≡ block_at px fs.os_state k)
      → IsCoherent px fs'
  IsCoherent-others fs fs' c e others = record {
    number = subst (λ x. x.block_number < 2 ^ 31) (sym e) c.number;
    dirty = subst (λ x. x.dirty ≡ true → 0 < x.block_number) (sym e) c.dirty;
    clean =
        subst
          (λ x.
            x.dirty ≡ false
            → 0 < x.block_number
            → x.contents ≡ block_at px fs'.os_state x.block_number)
          (sym e)
          (λ d p. c.clean d p ∙ sym (others fs.inode_cache.block_number (omega (arith, p))));
  }

  -- What the allocation of the free inode `n` does, with `ns` free behind it.
  pub record AllocatedInode (fs : Filesystem) (n : ℕ) (ns : List ℕ) (tail : ℕ) (i : Inode)
      (fs' : Filesystem) : Type 0 where
    pub inode : i ≡ inode_view px fs n
    pub rest : Leads (inode_view px fs') fs'.superblock.free_inode_head ns tail
    pub super : fs'.superblock ≡ record fs.superblock { free_inode_head = i.size }
    pub coherent : IsCoherent px fs'
    pub views : (m : ℕ) → 0 < m → inode_view px fs' m ≡ inode_view px fs m

  allocated :
      (fs mid fs' : Filesystem) (n : ℕ) (ns : List ℕ) (tail : ℕ) (i : Inode)
      → i ≡ inode_view px fs n
      → Leads (inode_view px fs) (inode_view px fs n).size ns tail
      → SameView px fs mid
      → fs'.inode_cache ≡ mid.inode_cache
      → fs'.superblock ≡ record mid.superblock { free_inode_head = i.size }
      → ((k : ℕ) → 0 ≢ k → block_at px fs'.os_state k ≡ block_at px mid.os_state k)
      → AllocatedInode fs n ns tail i fs'
  unfolding inode_view
  allocated fs mid fs' n ns tail i is l same cache super others =
      let views = λ (m : ℕ) (p : 0 < m).
        ap (λ b. load_inode b (inode_position m))
          (cached mid fs' (inode_block m) cache
            (others (inode_block m) (λ e. omega (arith, e, inode_block-pos m))))
        ∙ inode_view-SameView px same m in
      record {
        inode = is;
        rest =
            subst (λ h. Leads (inode_view px fs') h ns tail)
              (sym
                (ap (λ (s : Superblock). s.free_inode_head) super ∙ ap (λ (j : Inode). j.size) is))
              (Leads-ext (inode_view px fs) (inode_view px fs') _ ns tail views l);
        super = super ∙ ap (λ (s : Superblock). record s { free_inode_head = i.size }) same.super;
        coherent = IsCoherent-others mid fs' same.coherent cache others;
        views = views;
      }

  -- `sfs_fs_inode_allocate` of a coherent file system whose list of free inodes leads through `n` and
  -- `ns`: if it returns 0, the inode is the one that the table shows at `n`, the list leads through
  -- `ns`, and every inode of the table is as it was. If it fails, the superblock in memory is as it
  -- was, or already without `n`.
  pub inode_allocate_lem :
      (fs : Filesystem) (n : ℕ) (ns : List ℕ) (tail : ℕ)
      → IsCoherent px fs
      → Leads (inode_view px fs) fs.superblock.free_inode_head (n ∷ ns) tail
      → Ensures
          (AllocatedInode fs n ns tail)
          (λ fs'.
            (fs'.superblock ≡ fs.superblock)
            ⊎ (fs'.superblock
                ≡ record fs.superblock { free_inode_head = (inode_view px fs n).size }))
          (inode_allocate fs)
  unfolding inode_allocate set_free_inode_head write_superblock
  inode_allocate_lem fs n ns tail c (e, ok, l) =
      let head = fs.superblock.free_inode_head in
      let ok' = subst IsInumber (sym e) ok in
      Ensures-if (head == 0) _ _ (λ z. absurd (ground (arith, ok'.positive)))
        λ _.
          Ensures-bind (read_inode-view px fs head c ok')
            (λ i mid (is, same).
              let at = is ∙ ap (inode_view px fs) e in
              let super =
                ap (λ (s : Superblock). record s { free_inode_head = i.size }) same.super in
              Ensures-bind (write_block_lem px 0 _ _ (omega arith))
                (λ _ fs' (_, memory, others).
                  returns
                    (allocated fs mid fs' n ns tail i at l same memory.cache memory.super others))
                λ fs' (memory, _). inr (
                  memory.super
                  ∙ super
                  ∙ ap (λ (j : Inode). record fs.superblock { free_inode_head = j.size }) at))
            λ fs' same. inl same
