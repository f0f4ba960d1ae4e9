-- ===== src/Fs/InodeView.antt =====
-- `sfs_fs_read_inode`, `sfs_fs_write_inode` and `sfs_fs_close` as operations on a table of inodes:
-- the cache cannot be seen.
use filesys.Prelude.{
  ℕ, ◌^◌, ◌<◌, ◌≡◌, ◌≢◌, ap, ◌∙◌, true, false, arith, ◌==◌, if◌then◌else◌, lt→ltb,
}
use filesys.Bytes.{zeros}
use filesys.Outcome.{Outcome, Ensures, returns, fails, Ensures-mono, Ensures-bind}
use filesys.Os.{Os, IsPosix}
use filesys.Block.{block_at}
use filesys.Fs.Layout.{
  Inode, IsInode, load_inode, store_superblock, store_inode, load_inode-clip,
  load_inode-store_inode_self, load_inode-store_inode_ne, load_inode-IsInode,
}
use filesys.Fs.State.{Filesystem, write_superblock}
use filesys.Fs.Inode.{inode_block, inode_position, read_inode, write_inode, ignore_failure, close}
use filesys.Fs.Cache.{
  IsCoherent, block_view, Switched, switch_cache-view, write_back-view, write_block_lem,
}

-- An inode number whose block number fits the cache's `int`.
pub record IsInumber (n : ℕ) : Type 0 where
  pub positive : 0 < n
  pub small : inode_block n < 2 ^ 31

inode_position-lt : (n : ℕ) → inode_position n < 3
unfolding inode_position
inode_position-lt n = omega arith

pub inode_block-pos : (n : ℕ) → 0 < inode_block n
unfolding inode_block
inode_block-pos n = omega arith

-- An inode number is determined by its block and its position.
inumber_eq :
    (n m : ℕ)
    → 0 < n
    → 0 < m
    → inode_block n ≡ inode_block m
    → inode_position n ≡ inode_position m
    → n ≡ m
unfolding inode_block inode_position
inumber_eq n m p q b o = omega arith

module _ ⦃os : Os⦄ (px : IsPosix os) where
  -- Inode `n` as the file system sees it.
  unfoldable pub inode_view : Filesystem → ℕ → Inode
  inode_view fs n = load_inode (block_view px fs (inode_block n)) (inode_position n)

  -- The state is coherent, and shows the same superblock and the same blocks.
  pub record SameView (fs fs' : Filesystem) : Type 0 where
    pub coherent : IsCoherent px fs'
    pub super : fs'.superblock ≡ fs.superblock
    pub views : (k : ℕ) → 0 < k → block_view px fs' k ≡ block_view px fs k

  pub inode_view-SameView :
      {fs fs' : Filesystem} → SameView fs fs' → (n : ℕ) → inode_view fs' n ≡ inode_view fs n
  unfolding inode_view
  inode_view-SameView v n =
      ap (λ b. load_inode b (inode_position n)) (v.views (inode_block n) (inode_block-pos n))

  pub inode_view-IsInode : (fs : Filesystem) (n : ℕ) → IsInode (inode_view fs n)
  unfolding inode_view
  inode_view-IsInode fs n = load_inode-IsInode (block_view px fs (inode_block n)) (inode_position n)

  -- What the cache holds after a switch to the block of `n`.
  cached_view :
      (fs : Filesystem) (n : ℕ)
      → fs.inode_cache.block_number ≡ inode_block n
      → load_inode fs.inode_cache.contents (inode_position n) ≡ inode_view fs n
  unfolding inode_view block_view
  cached_view fs n e =
      ground
        (arith, load_inode-clip fs.inode_cache.contents (inode_position n) (inode_position-lt n))

  inode_view-Switched :
      {k : ℕ} {fs fs' : Filesystem}
      → Switched px k fs fs'
      → (n : ℕ) → inode_view fs' n ≡ inode_view fs n
  unfolding inode_view
  inode_view-Switched s n =
      ap (λ b. load_inode b (inode_position n)) (s.views (inode_block n) (inode_block-pos n))

  -- The state after the inode is put into the cached block.
  stored : Inode → Filesystem → Filesystem
  stored i fs = record fs {
    inode_cache = record fs.inode_cache {
      dirty = true;
      contents = store_inode fs.inode_cache.contents (inode_position i.inumber) i;
    };
  }

  -- `sfs_fs_read_inode` reads inode `n` as the file system sees it and changes no view.
  pub read_inode-view :
      (fs : Filesystem) (n : ℕ)
      → IsCoherent px fs
      → IsInumber n
      → Ensures
          (λ i fs'. (i ≡ inode_view fs n) × SameView fs fs')
          (λ fs'. fs'.superblock ≡ fs.superblock)
          (read_inode n fs)
  unfolding read_inode
  read_inode-view fs n c h = rw (lt→ltb 0 n h.positive) (
      Ensures-bind (switch_cache-view px true (inode_block n) fs c (inode_block-pos n) h.small)
        (λ _ fs' s. returns (
          cached_view fs' n s.number ∙ inode_view-Switched s n,
          record { coherent = s.coherent; super = s.super; views = s.views },
        ))
        λ fs' e. e)

  -- The state with the inode stored in the cached block, seen at any inode.
  write_view :
      (fs : Filesystem) (i : Inode) (m : ℕ)
      → IsInode i
      → 0 < i.inumber
      → 0 < m
      → fs.inode_cache.block_number ≡ inode_block i.inumber
      → inode_view (stored i fs) m ≡ (if m == i.inumber then i else inode_view fs m)
  unfolding inode_view block_view stored
  write_view fs i m ok p q e =
      let b = fs.inode_cache.contents in
      let at = inode_position i.inumber in
      ground (
        arith,
        load_inode-clip (store_inode b at i) (inode_position m) (inode_position-lt m),
        load_inode-clip b (inode_position m) (inode_position-lt m),
        load_inode-store_inode_self b at i ok,
        load_inode-store_inode_ne b at (inode_position m) i,
        inumber_eq m i.inumber q p,
      )

  -- What `sfs_fs_write_inode` does to the views.
  pub record Written (i : Inode) (fs fs' : Filesystem) : Type 0 where
    pub coherent : IsCoherent px fs'
    pub number : fs'.inode_cache.block_number ≡ inode_block i.inumber
    pub super : fs'.superblock ≡ fs.superblock
    pub inodes :
        (m : ℕ) → 0 < m → inode_view fs' m ≡ (if m == i.inumber then i else inode_view fs m)
    pub blocks :
        (k : ℕ) → 0 < k → k ≢ inode_block i.inumber → block_view px fs' k ≡ block_view px fs k

  Switched-Written :
      (fs mid : Filesystem) (i : Inode)
      → IsInode i
      → 0 < i.inumber
      → Switched px (inode_block i.inumber) fs mid
      → Written i fs (stored i mid)
  unfolding stored block_view
  Switched-Written fs mid i ok p s = record {
    coherent = record {
      number = s.coherent.number;
      dirty = λ _. omega (arith, s.number, inode_block-pos i.inumber);
      clean = λ d _. cc;
    };
    number = s.number;
    super = s.super;
    inodes = λ m q.
        write_view mid i m ok p q s.number
        ∙ ap (λ (j : Inode). if m == i.inumber then i else j) (inode_view-Switched s m);
    blocks = λ k q ne. ground (arith, s.views k q, s.number);
  }

  -- `sfs_fs_write_inode` makes its argument the inode of its number, as the file system sees it, and
  -- changes no other inode and no block outside the inode's own.
  pub write_inode-view :
      (fs : Filesystem) (i : Inode)
      → IsCoherent px fs
      → IsInode i
      → IsInumber i.inumber
      → Ensures (λ _. Written i fs) (λ fs'. fs'.superblock ≡ fs.superblock) (write_inode i fs)
  unfolding write_inode stored
  write_inode-view fs i c ok h = rw (lt→ltb 0 i.inumber h.positive) (
      Ensures-bind
        (switch_cache-view px false (inode_block i.inumber) fs c (inode_block-pos i.inumber)
          h.small)
        (λ _ mid s. returns (Switched-Written fs mid i ok h.positive s)) λ fs' e. e)

  ignore_failure-Ensures :
      {P : Unit {0} → Filesystem → Type 0} {Q R : Filesystem → Type 0}
      {o : Outcome Filesystem (Unit {0})}
      → Ensures P Q o
      → ((u : Unit {0}) (s : Filesystem) → P u s → R s)
      → ((s : Filesystem) → Q s → R s)
      → Ensures (λ _ s. R s) Q (ignore_failure o)
  unfolding ignore_failure
  ignore_failure-Ensures (returns h) p q = returns (p _ _ h)
  ignore_failure-Ensures (fails h) p q = returns (q _ h)

  -- The state is written back: every block of the disk file is the one that the file system saw.
  abbrev pub FlushedView : Filesystem → Filesystem → Type 0
  FlushedView fs fs' =
      (n : ℕ)
      → 0 < n
      → load_inode (block_at px fs'.os_state (inode_block n)) (inode_position n) ≡ inode_view fs n

  -- `sfs_fs_close` of a coherent state does not abort, and if it returns 0, then every inode lies in
  -- the inode table of the disk file as the file system saw it, even where the superblock could not
  -- be written.
  pub close-FlushedView :
      (fs : Filesystem) → IsCoherent px fs → Ensures (λ _. FlushedView fs) (λ _. Unit) (close fs)
  unfolding close write_superblock inode_view
  close-FlushedView fs c =
      Ensures-bind (write_back-view px fs c)
        (λ _ mid (same, flushed).
          Ensures-mono
            (ignore_failure-Ensures
              {R = λ fs'. (k : ℕ) → 0 < k → block_at px fs'.os_state k ≡ block_view px fs k}
              (write_block_lem px 0 (store_superblock zeros mid.superblock) mid (omega arith))
              (λ _ fs' (_, _, others) k p. others k (omega (arith, p)) ∙ flushed k p)
              λ fs' (_, others) k p. others k (omega (arith, p)) ∙ flushed k p)
            (λ _ fs' views n p.
              ap (λ b. load_inode b (inode_position n)) (views (inode_block n) (inode_block-pos n)))
            λ fs' _. tt)
        λ fs' _. tt
