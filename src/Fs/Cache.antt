-- ===== src/Fs/Cache.antt =====
-- The write-back cache of `struct filesystem`: what a read of a block of the inode table should see.
use filesys.Prelude.{
  ℕ, ◌^◌, ◌<◌, ◌≡◌, ◌≢◌, refl, sym, ap, ◌∙◌, Bool, true, false, arith, ◌==◌, if◌then◌else◌,
}
use filesys.Bytes.{Buffer, zeros, clip}
use filesys.Outcome.{Ensures, returns, fails, Ensures-mono, Ensures-bind, Ensures-if}
use filesys.Os.{Os, IsPosix}
use filesys.Block.{block_read, block_write, is_full, Addressable, block_at}
use filesys.Block.Laws.{
  block_read-full, block_at-block_read, block_at-block_write_self, block_at-block_write_ne,
  clip-block_at,
}
use filesys.Fs.State.{Filesystem, read_block, write_block}
use filesys.Fs.Inode.{uint64_of, write_back, fill_cache, switch_cache}

module _ ⦃os : Os⦄ (px : IsPosix os) where
  -- The cache has a block of the inode table if it is dirty, and the disk's version if it is clean.
  -- Block 0 is the superblock: it marks a cache that was never filled.
  pub record IsCoherent (fs : Filesystem) : Type 0 where
    pub number : fs.inode_cache.block_number < 2 ^ 31
    pub dirty : fs.inode_cache.dirty ≡ true → 0 < fs.inode_cache.block_number
    pub clean :
        fs.inode_cache.dirty ≡ false
        → 0 < fs.inode_cache.block_number
        → fs.inode_cache.contents ≡ block_at px fs.os_state fs.inode_cache.block_number

  -- The contents of block `k` as the file system sees it: the cached version if there is one.
  unfoldable pub block_view : Filesystem → ℕ → Buffer
  block_view fs k =
      if fs.inode_cache.block_number == k
      then clip fs.inode_cache.contents
      else block_at px fs.os_state k

  -- What a call that only moves blocks leaves alone.
  pub record SameMemory (fs fs' : Filesystem) : Type 0 where
    pub cache : fs'.inode_cache ≡ fs.inode_cache
    pub super : fs'.superblock ≡ fs.superblock

  -- A state with the same cache whose cached block is the same on the disk.
  pub IsCoherent-carries :
      (fs fs' : Filesystem)
      → IsCoherent fs
      → SameMemory fs fs'
      → block_at px fs'.os_state fs.inode_cache.block_number
        ≡ block_at px fs.os_state fs.inode_cache.block_number
      → IsCoherent fs'
  IsCoherent-carries fs fs' c memory same = record {
    number = rw memory.cache c.number;
    dirty = rw memory.cache c.dirty;
    clean = rw memory.cache (λ d p. c.clean d p ∙ sym same);
  }

  pub read_block_lem :
      (k : ℕ) (fs : Filesystem)
      → Addressable k
      → Ensures
          (λ b fs'.
            (b ≡ block_at px fs.os_state k)
            × SameMemory fs fs'
            × ((j : ℕ) → block_at px fs'.os_state j ≡ block_at px fs.os_state j))
          (λ fs'.
            SameMemory fs fs' × ((j : ℕ) → block_at px fs'.os_state j ≡ block_at px fs.os_state j))
          (read_block k fs)
  unfolding read_block
  read_block_lem k fs a =
      let same = block_at-block_read px k zeros fs.os_state in
      Ensures-if (is_full (block_read k zeros fs.os_state).0) _ _
        (λ full. returns (
          block_read-full px k zeros fs.os_state a full,
          record { cache = refl; super = refl },
          same,
        ))
        λ short. fails (record { cache = refl; super = refl }, same)

  pub write_block_lem :
      (k : ℕ) (b : Buffer) (fs : Filesystem)
      → Addressable k
      → Ensures
          (λ _ fs'.
            (block_at px fs'.os_state k ≡ clip b)
            × SameMemory fs fs'
            × ((j : ℕ) → k ≢ j → block_at px fs'.os_state j ≡ block_at px fs.os_state j))
          (λ fs'.
            SameMemory fs fs'
            × ((j : ℕ) → k ≢ j → block_at px fs'.os_state j ≡ block_at px fs.os_state j))
          (write_block k b fs)
  unfolding write_block
  write_block_lem k b fs a =
      let others = λ (j : ℕ) (ne : k ≢ j). block_at-block_write_ne px k b fs.os_state j a ne in
      Ensures-if (is_full (block_write k b fs.os_state).0) _ _
        (λ full. returns (
          block_at-block_write_self px k b fs.os_state a full,
          record { cache = refl; super = refl },
          others,
        ))
        λ short. fails (record { cache = refl; super = refl }, others)

  pub uint64_of_lem : (n : ℕ) → n < 2 ^ 31 → uint64_of n ≡ n
  unfolding uint64_of
  uint64_of_lem n h = ground arith

  -- Writing a dirty cache back changes no view, and leaves the disk's version of every block equal
  -- to its view.
  pub write_back-view :
      (fs : Filesystem)
      → IsCoherent fs
      → Ensures
          (λ _ fs'.
            SameMemory fs fs' × ((k : ℕ) → 0 < k → block_at px fs'.os_state k ≡ block_view fs k))
          (λ fs'. SameMemory fs fs' × ((k : ℕ) → 0 < k → block_view fs' k ≡ block_view fs k))
          (write_back fs)
  unfolding write_back block_view
  write_back-view fs c =
      let n = fs.inode_cache.block_number in
      Ensures-if fs.inode_cache.dirty _ _
        (λ dirty. rw (uint64_of_lem n c.number) (
          Ensures-mono (write_block_lem n fs.inode_cache.contents fs (omega (arith, c.number)))
            (λ _ fs' (self, same, others). (same, λ k h. ground (arith, self, others k)))
            λ fs' (same, others). (same, λ k h. ground (arith, same.cache, others k))))
        λ tidy. returns (
          record { cache = refl; super = refl },
          λ k h. ground (arith, c.clean tidy, clip-block_at px fs.os_state k),
        )

  -- A cache filled with block `k` from the disk.
  record Filled (reset : Bool) (k : ℕ) (fs fs' : Filesystem) : Type 0 where
    number : fs'.inode_cache.block_number ≡ k
    contents : fs'.inode_cache.contents ≡ block_at px fs.os_state k
    dirty : fs'.inode_cache.dirty ≡ (if reset then false else fs.inode_cache.dirty)
    super : fs'.superblock ≡ fs.superblock
    blocks : (j : ℕ) → block_at px fs'.os_state j ≡ block_at px fs.os_state j

  fill_cache_lem :
      (reset : Bool) (k : ℕ) (fs : Filesystem)
      → k < 2 ^ 31
      → Ensures
          (λ _. Filled reset k fs)
          (λ fs'. fs'.superblock ≡ fs.superblock)
          (fill_cache reset k fs)
  unfolding fill_cache
  fill_cache_lem reset k fs h =
      let old = fs.inode_cache.contents in
      Ensures-if (is_full (block_read k old fs.os_state).0) _ _
        (λ full. returns (record {
          number = omega arith;
          contents = block_read-full px k old fs.os_state (omega arith) full;
          dirty = refl;
          super = refl;
          blocks = block_at-block_read px k old fs.os_state;
        }))
        λ short. fails refl

  -- The cache holds block `k`, and every block of the table looks as before.
  pub record Switched (k : ℕ) (fs fs' : Filesystem) : Type 0 where
    pub coherent : IsCoherent fs'
    pub number : fs'.inode_cache.block_number ≡ k
    pub super : fs'.superblock ≡ fs.superblock
    pub views : (j : ℕ) → 0 < j → block_view fs' j ≡ block_view fs j

  Filled-Switched :
      (reset : Bool) (k : ℕ) (fs mid fs' : Filesystem)
      → k < 2 ^ 31
      → 0 < k
      → mid.superblock ≡ fs.superblock
      → ((j : ℕ) → 0 < j → block_at px mid.os_state j ≡ block_view fs j)
      → Filled reset k mid fs'
      → Switched k fs fs'
  unfolding block_view
  Filled-Switched reset k fs mid fs' small pos same flushed f = record {
    coherent = record {
      number = omega (arith, f.number);
      dirty = λ d. omega (arith, f.number);
      clean = λ d p. f.contents ∙ sym (f.blocks k) ∙ ap (block_at px fs'.os_state) (sym f.number);
    };
    number = f.number;
    super = f.super ∙ same;
    views = λ j p. ground (
      arith,
      f.contents,
      f.number,
      f.blocks j,
      flushed j p,
      flushed k pos,
      clip-block_at px mid.os_state k,
    );
  }

  pub switch_cache-view :
      (reset : Bool) (k : ℕ) (fs : Filesystem)
      → IsCoherent fs
      → 0 < k
      → k < 2 ^ 31
      → Ensures
          (λ _. Switched k fs)
          (λ fs'. fs'.superblock ≡ fs.superblock)
          (switch_cache reset k fs)
  unfolding switch_cache
  switch_cache-view reset k fs c pos small =
      Ensures-if (uint64_of fs.inode_cache.block_number == k) _ _
        (λ hit. returns (record {
          coherent = c;
          number = ground (arith, uint64_of_lem fs.inode_cache.block_number c.number);
          super = refl;
          views = λ j p. refl;
        }))
        λ miss.
          Ensures-bind (write_back-view fs c)
            (λ _ mid (same, flushed).
              Ensures-mono (fill_cache_lem reset k mid small)
                (λ _ fs' f. Filled-Switched reset k fs mid fs' small pos same.super flushed f)
                λ fs' e. e ∙ same.super)
            λ mid (same, views). same.super
