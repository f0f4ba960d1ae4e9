-- ===== src/Fs/FreeList/Free.antt =====
-- `sfs_fs_free_block` puts exactly one block back into the multiset of free blocks.
use filesys.Prelude.{
  has, ℕ, suc, ◌^◌, ◌≤◌, ◌<◌, ◌≡◌, ◌≢◌, refl, sym, ap, subst, ◌∙◌, false, List, [], ◌∷◌, arith,
  ◌==◌,
}
use filesys.Bytes.{clip, zeros, word, word-zeros, clip-zeros}
use filesys.Outcome.{Ensures, Ensures-mono, Ensures-bind, Ensures-if}
use filesys.Os.{Os, IsPosix}
use filesys.Block.{Addressable, block_at}
use filesys.Fs.Layout.{Superblock, store_superblock}
use filesys.Fs.State.{Filesystem, write_superblock}
use filesys.Fs.Cache.{SameMemory, write_block_lem}
use filesys.Fs.Blocks.{free_walk, free_block, set_free_blocks_head}
use filesys.Fs.FreeList.{node_count, free_count, has-hit, IsFreeList}
use filesys.Fs.FreeList.Nodes.{length-nodes}
use filesys.Fs.FreeList.Slots.{node_count-zeros}
use filesys.Fs.FreeList.More.{More, More-IsFreeList}
use filesys.Fs.FreeList.Walk.{Extended, free_walk-Extended}

module _ ⦃os : Os⦄ (px : IsPosix os) where
  -- What a successful `sfs_fs_free_block` of block `n` does.
  pub record Freed (fs : Filesystem) (ks : List ℕ) (n : ℕ) (fs' : Filesystem) : Type 0 where
    pub nodes : List ℕ
    pub list : IsFreeList (block_at px fs'.os_state) fs'.superblock nodes
    pub more : More (block_at px fs.os_state) (block_at px fs'.os_state) ks nodes n
    pub super :
        fs'.superblock ≡ record fs.superblock { free_blocks_head = fs'.superblock.free_blocks_head }
    pub cached : fs'.inode_cache ≡ fs.inode_cache
    -- Every block but the superblock, the nodes and the block itself keeps its contents.
    pub others :
        (j : ℕ)
        → 0 < j
        → j ≢ n
        → has j ks ≡ false
        → block_at px fs'.os_state j ≡ block_at px fs.os_state j

  Extended-Freed :
      {fs fs' : Filesystem} {k n : ℕ} {ks : List ℕ}
      → IsFreeList (block_at px fs.os_state) fs.superblock ks
      → free_count (block_at px fs.os_state) ks n ≡ 0
      → fs.superblock.inode_table_blocks < n
      → n < fs.superblock.blocks
      → fs.superblock.free_blocks_head ≡ k
      → Extended px (block_at px fs.os_state) fs k ks n fs'
      → Freed fs ks n fs'
  Extended-Freed {fs} {fs'} {k} {n} {ks} f new low high head x =
      let super : fs'.superblock
          ≡ record fs.superblock { free_blocks_head = fs'.superblock.free_blocks_head } =
        cc (x.memory.super) in
      record {
        nodes = x.nodes;
        list =
            More-IsFreeList (block_at px fs'.os_state) fs'.superblock x.nodes n f x.more new low
              high super
              (rw (ap (λ (b : Superblock). b.free_blocks_head) x.memory.super ∙ head) x.chain);
        more = x.more;
        super = super;
        cached = x.memory.cache;
        others = λ j p ne out. x.others j out ne;
      }

  -- The block becomes the only node of an empty list.
  first_node-Freed :
      (fs mid fs' : Filesystem) (n : ℕ)
      → IsFreeList (block_at px fs.os_state) fs.superblock []
      → 0 < n
      → Addressable n
      → fs.superblock.inode_table_blocks < n
      → n < fs.superblock.blocks
      → block_at px mid.os_state n ≡ clip zeros
      → SameMemory px fs mid
      → ((j : ℕ) → n ≢ j → block_at px mid.os_state j ≡ block_at px fs.os_state j)
      → SameMemory px
          (record mid { superblock = record mid.superblock { free_blocks_head = n } })
          fs'
      → ((j : ℕ) → 0 ≢ j → block_at px fs'.os_state j ≡ block_at px mid.os_state j)
      → Freed fs [] n fs'
  unfolding free_count
  first_node-Freed fs mid fs' n f pos small low high new kept others kept' others' =
      let d = block_at px fs.os_state in
      let e = block_at px fs'.os_state in
      let at_n : e n ≡ clip zeros = others' n (omega (arith, pos)) ∙ new in
      let end : word (e n) 0 ≡ 0 = ap (λ b. word b 0) (at_n ∙ clip-zeros) ∙ word-zeros 0 in
      let super : fs'.superblock
          ≡ record fs.superblock { free_blocks_head = fs'.superblock.free_blocks_head } =
        cc (kept.super, kept'.super) in
      let head : fs'.superblock.free_blocks_head ≡ n =
        ap (λ (b : Superblock). b.free_blocks_head) kept'.super in
      let more : More d e [] (n ∷ []) n = record {
        added = λ a p. omega (arith, ap (λ b. node_count b a) at_n, node_count-zeros a p);
      } in
      record {
        nodes = n ∷ [];
        list =
            More-IsFreeList e fs'.superblock (n ∷ []) n f more refl low high super
              (head, pos, small, refl, end);
        more = more;
        super = super;
        cached = kept'.cache ∙ kept.cache;
        others = λ j p ne out. others' j (omega (arith, p)) ∙ others j (λ eq. ne (sym eq));
      }

  walk-Freed :
      (fs : Filesystem) (ks : List ℕ) (n : ℕ)
      → IsFreeList (block_at px fs.os_state) fs.superblock (fs.superblock.free_blocks_head ∷ ks)
      → fs.superblock.blocks ≤ 2 ^ 55
      → fs.superblock.inode_table_blocks < n
      → n < fs.superblock.blocks
      → free_count (block_at px fs.os_state) (fs.superblock.free_blocks_head ∷ ks) n ≡ 0
      → Ensures
          (λ _. Freed fs (fs.superblock.free_blocks_head ∷ ks) n)
          (λ fs'. fs'.inode_cache ≡ fs.inode_cache)
          (free_walk (suc fs.superblock.blocks) n fs.superblock.free_blocks_head 0 zeros fs)
  walk-Freed fs ks n f small low high new =
      let head = fs.superblock.free_blocks_head in
      let d = block_at px fs.os_state in
      let short = length-nodes d fs.superblock (head ∷ ks) (omega (arith, high)) f in
      let out : has n (head ∷ ks) ≡ false = ground (arith, has-hit n (head ∷ ks) d, new) in
      Ensures-mono
        (free_walk-Extended px (suc fs.superblock.blocks) n 0 zeros d head ks fs refl f.chain
          (omega (arith, short)) (omega (arith, small, high)) (omega (arith, low)) out)
        (λ _ fs' x. Extended-Freed f new low high refl x) λ fs' kept. kept.cache

  -- `sfs_fs_free_block` on a free list, for a data block that is not free: its walk ends within the
  -- fuel; if it returns 0, the block is free once, every other block is as free as before, and the
  -- inode cache and the contents of all blocks but the superblock, the list's nodes and the block
  -- itself are kept. If a transfer fails, the inode cache is kept.
  pub free_block_lem :
      (fs : Filesystem) (ks : List ℕ) (n : ℕ)
      → IsFreeList (block_at px fs.os_state) fs.superblock ks
      → fs.superblock.blocks ≤ 2 ^ 55
      → fs.superblock.inode_table_blocks < n
      → n < fs.superblock.blocks
      → free_count (block_at px fs.os_state) ks n ≡ 0
      → Ensures (λ _. Freed fs ks n) (λ fs'. fs'.inode_cache ≡ fs.inode_cache) (free_block n fs)
  unfolding free_block set_free_blocks_head write_superblock
  free_block_lem fs [] n f small low high new =
      Ensures-if (fs.superblock.free_blocks_head == 0) _ _
        (λ _.
          Ensures-bind (write_block_lem px n zeros fs (omega (arith, small, high)))
            (λ _ mid (zeroed, kept, others).
              let super = record mid.superblock { free_blocks_head = n } in
              Ensures-mono
                (write_block_lem px 0 (store_superblock zeros super)
                  (record mid { superblock = super }) (omega arith))
                (λ _ fs' (_, kept', others').
                  first_node-Freed fs mid fs' n f (omega (arith, low)) (omega (arith, small, high))
                    low high zeroed kept others kept' others')
                λ fs' (kept', others'). kept'.cache ∙ kept.cache)
            λ mid (kept, others). kept.cache)
        λ e. absurd (ground (arith, f.chain))
  free_block_lem fs (k ∷ ks) n f small low high new =
      let d = block_at px fs.os_state in
      let head = fs.superblock.free_blocks_head in
      let moved = sym f.chain.0 in
      Ensures-if (head == 0) _ _ (λ e. absurd (ground (arith, f.chain.0, f.chain.1)))
        λ _.
          Ensures-mono
            (walk-Freed fs ks n (subst (λ x. IsFreeList d fs.superblock (x ∷ ks)) moved f) small low
              high (subst (λ x. free_count d (x ∷ ks) n ≡ 0) moved new))
            (λ _ fs' x. subst (λ y. Freed fs (y ∷ ks) n fs') f.chain.0 x) λ fs' same. same
