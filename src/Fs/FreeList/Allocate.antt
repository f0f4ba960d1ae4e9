-- ===== src/Fs/FreeList/Allocate.antt =====
-- `sfs_fs_allocate_block` takes exactly one block out of the multiset of free blocks.
use filesys.Prelude.{
  has, ℕ, ◌+◌, ◌≤◌, ◌<◌, ◌≡◌, ◌≢◌, refl, sym, ap, subst, fun_ext, ◌∙◌, true, false, not, Option,
  none, some, List, [], ◌∷◌, arith, ◌==◌,
}
use filesys.Bytes.{clip, zeros, word, set_word}
use filesys.Outcome.{Ensures, returns, fails, Ensures-mono, Ensures-bind, Ensures-if}
use filesys.Os.{Os, IsPosix}
use filesys.Block.{block_at}
use filesys.Fs.Layout.{Superblock, store_superblock}
use filesys.Fs.State.{Filesystem, InodeCache, write_superblock}
use filesys.Fs.Cache.{read_block_lem, write_block_lem}
use filesys.Fs.Blocks.{first_slot, take_slot, allocate_block, set_free_blocks_head}
use filesys.Fs.FreeList.{
  Disk, hit, node_count, free_count, IsChain, free_count-ext, IsChain-ext, has-pos, IsChain-set,
  IsFreeList,
}
use filesys.Fs.FreeList.Slots.{first_slot-some, node_count-none, node_count-set}

-- The list through `ns` in `e` is the one through `ks` in `d` less block `n`.
pub record Less (d e : Disk) (ks ns : List ℕ) (n : ℕ) : Type 0 where
  pub taken : (a : ℕ) → 0 < a → free_count e ns a + hit a n ≡ free_count d ks a

-- Emptying slot `i` of the first node.
Less-slot :
    (d e : Disk) (k : ℕ) (ks : List ℕ) (i : ℕ)
    → has k ks ≡ false
    → 1 ≤ i
    → i < 64
    → e k ≡ clip (set_word (d k) i 0)
    → ((j : ℕ) → k ≢ j → e j ≡ d j)
    → Less d e (k ∷ ks) (k ∷ ks) (word (d k) i)
unfolding free_count
Less-slot d e k ks i out l u self others = record {
  taken = λ a p. ground (
    arith,
    ap (λ b. node_count b a) self,
    node_count-set (d k) i 0 a (omega arith) l u,
    free_count-ext d e ks a (λ j m. others j (ground arith)),
  );
}

-- Taking the first node itself, whose slots are all empty.
Less-node :
    (d e : Disk) (k : ℕ) (ks : List ℕ)
    → first_slot (λ j. not (word (d k) j == 0)) ≡ none
    → ((j : ℕ) → has j ks ≡ true → e j ≡ d j)
    → Less d e (k ∷ ks) ks k
unfolding free_count
Less-node d e k ks empty others = record {
  taken = λ a p. ground (arith, node_count-none (d k) a empty p, free_count-ext d e ks a others);
}

-- Less of a free list is a free list.
Less-IsFreeList :
    {d : Disk} {sb : Superblock} {ks : List ℕ} (e : Disk) (sb' : Superblock) (ns : List ℕ) (n : ℕ)
    → IsFreeList d sb ks
    → Less d e ks ns n
    → sb' ≡ record sb { free_blocks_head = sb'.free_blocks_head }
    → IsChain e sb'.free_blocks_head ns
    → IsFreeList e sb' ns
Less-IsFreeList e sb' ns n f less same chain = record {
  chain = chain;
  once = λ a p. omega (arith, less.taken a p, f.once a p);
  range = λ a p q.
      let old = f.range a p (omega (arith, less.taken a p)) in
      omega (
        arith,
        ap (λ (b : Superblock). b.inode_table_blocks) same,
        ap (λ (b : Superblock). b.blocks) same,
        old,
      );
}

module _ ⦃os : Os⦄ (px : IsPosix os) where
  -- What a successful allocation of block `n` does to a state with the disk `d`, the superblock `sb`,
  -- the inode cache `cache` and a free list through `ks`.
  pub record Allocated (d : Disk) (sb : Superblock) (cache : InodeCache) (ks : List ℕ) (n : ℕ)
      (fs' : Filesystem) : Type 0 where
    pub nodes : List ℕ
    pub list : IsFreeList (block_at px fs'.os_state) fs'.superblock nodes
    pub less : Less d (block_at px fs'.os_state) ks nodes n
    pub positive : 0 < n
    pub super : fs'.superblock ≡ record sb { free_blocks_head = fs'.superblock.free_blocks_head }
    pub cached : fs'.inode_cache ≡ cache
    -- Every block but the superblock and the nodes keeps its contents.
    pub others : (j : ℕ) → 0 < j → has j ks ≡ false → block_at px fs'.os_state j ≡ d j

  take_slot_lem :
      (k : ℕ) (ks : List ℕ) (fs : Filesystem) (o : Option ℕ)
      → first_slot (λ i. not (word (block_at px fs.os_state k) i == 0)) ≡ o
      → IsFreeList (block_at px fs.os_state) fs.superblock (k ∷ ks)
      → Ensures
          (Allocated (block_at px fs.os_state) fs.superblock fs.inode_cache (k ∷ ks))
          (λ fs'. fs'.inode_cache ≡ fs.inode_cache)
          (take_slot o k (block_at px fs.os_state k) fs)
  unfolding take_slot write_superblock set_free_blocks_head
  take_slot_lem k ks fs (some i) found f =
      let d = block_at px fs.os_state in
      let slot = first_slot-some _ i found in
      Ensures-bind (write_block_lem px k (set_word (d k) i 0) fs f.chain.2)
        (λ _ fs' (self, same, others).
          let e = block_at px fs'.os_state in
          let less = Less-slot d e k ks i f.chain.3 slot.0 slot.1 self others in
          let chain =
            IsChain-set d e fs.superblock.free_blocks_head k ks i 0 (omega arith) slot.0 self others
              f.chain in
          returns (record {
            nodes = k ∷ ks;
            list =
                Less-IsFreeList e fs'.superblock (k ∷ ks) (word (d k) i) f less (cc (same.super))
                  (rw same.super chain);
            less = less;
            positive = ground (arith, slot.2);
            super = cc (same.super);
            cached = same.cache;
            others = λ j p out. others j (ground arith);
          }))
        λ fs' (same, _). same.cache
  take_slot_lem k ks fs none found f =
      let d = block_at px fs.os_state in
      let fs1 = record fs {
        superblock = record fs.superblock { free_blocks_head = word (d k) 0 };
      } in
      Ensures-bind (write_block_lem px 0 (store_superblock zeros fs1.superblock) fs1 (omega arith))
        (λ _ fs' (self, same, others).
          let e = block_at px fs'.os_state in
          let keep = λ (j : ℕ) (m : has j ks ≡ true).
            others j (ground (arith, has-pos d (word (d k) 0) ks j f.chain.4 m)) in
          let less = Less-node d e k ks found keep in
          returns (record {
            nodes = ks;
            list =
                Less-IsFreeList e fs'.superblock ks k f less (cc (same.super))
                  (rw same.super (IsChain-ext d e (word (d k) 0) ks keep f.chain.4));
            less = less;
            positive = f.chain.1;
            super = cc (same.super);
            cached = same.cache;
            others = λ j p out. others j (omega (arith, p));
          }))
        λ fs' (same, _). same.cache

  moved_on :
      (k : ℕ) (ks : List ℕ) {n : ℕ} {d e : Disk} {sb sc : Superblock} {c c' : InodeCache}
      {fs' : Filesystem}
      → d ≡ e
      → sb ≡ sc
      → c ≡ c'
      → Allocated d sb c (k ∷ ks) n fs'
      → Allocated e sc c' (k ∷ ks) n fs'
  moved_on k ks {n} {d} {e} {sb} {sc} {c} {c'} {fs'} p q r a =
      subst (λ x. Allocated e sc x (k ∷ ks) n fs') r
        (subst (λ x. Allocated e x c (k ∷ ks) n fs') q
          (subst (λ x. Allocated x sb c (k ∷ ks) n fs') p a))

  -- `sfs_fs_allocate_block` on a free list: a block that it returns was free once and is free no
  -- more, every other block is as free as before, the inode cache and the contents of all blocks but
  -- the superblock and the list's nodes are kept. On an empty list it fails.
  pub allocate_block_lem :
      (fs : Filesystem) (ks : List ℕ)
      → IsFreeList (block_at px fs.os_state) fs.superblock ks
      → Ensures
          (Allocated (block_at px fs.os_state) fs.superblock fs.inode_cache ks)
          (λ fs'. fs'.inode_cache ≡ fs.inode_cache)
          (allocate_block fs)
  unfolding allocate_block
  allocate_block_lem fs [] f = rw f.chain (fails refl)
  allocate_block_lem fs (k ∷ ks) f =
      let head = fs.superblock.free_blocks_head in
      let f' =
        subst (λ x. IsFreeList (block_at px fs.os_state) fs.superblock (x ∷ ks)) (sym f.chain.0)
          f in
      subst
        (λ x.
          Ensures (Allocated (block_at px fs.os_state) fs.superblock fs.inode_cache (x ∷ ks))
            (λ fs'. fs'.inode_cache ≡ fs.inode_cache) (allocate_block fs))
        f.chain.0
        (Ensures-if (head == 0) _ _ (λ empty. fails refl)
          λ more.
            Ensures-bind (read_block_lem px head fs f'.chain.2)
              (λ index mid (got, same, blocks). rw (got ∙ sym (blocks head)) (
                Ensures-mono
                  (take_slot_lem head ks mid
                    (first_slot (λ i. not (word (block_at px mid.os_state head) i == 0))) refl
                    (rw (fun_ext blocks, same.super) f'))
                  (λ n fs' r. moved_on head ks (fun_ext blocks) same.super same.cache r)
                  λ fs' e. e ∙ same.cache))
              λ mid (same, _). same.cache)
