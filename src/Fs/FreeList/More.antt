-- ===== src/Fs/FreeList/More.antt =====
-- The index list of free blocks with a block added, in a slot or as a new node.
use filesys.Prelude.{has, ℕ, ◌+◌, ◌^◌, ◌≤◌, ◌<◌, ◌≡◌, ◌≢◌, ap, ◌∙◌, false, List, [], ◌∷◌, arith}
use filesys.Bytes.{Buffer, clip, zeros, word, set_word, word-set_word, word-clip}
use filesys.Fs.Layout.{Superblock}
use filesys.Fs.FreeList.{Disk, hit, node_count, free_count, IsChain, free_count-ext, IsFreeList}
use filesys.Fs.FreeList.Slots.{node_count-set, node_count-set_next, node_count-zeros}

-- The list through `ns` in `e` is the one through `ks` in `d` with block `n` added.
pub record More (d e : Disk) (ks ns : List ℕ) (n : ℕ) : Type 0 where
  pub added : (a : ℕ) → 0 < a → free_count e ns a ≡ free_count d ks a + hit a n

pub More-slot :
    (d e : Disk) (k : ℕ) (ks : List ℕ) (i n : ℕ)
    → has k ks ≡ false
    → n < 2 ^ 64
    → 1 ≤ i
    → i < 64
    → word (d k) i ≡ 0
    → e k ≡ clip (set_word (d k) i n)
    → ((j : ℕ) → k ≢ j → e j ≡ d j)
    → More d e (k ∷ ks) (k ∷ ks) n
unfolding free_count
More-slot d e k ks i n out small l u empty self others = record {
  added = λ a p. ground (
    arith,
    ap (λ b. node_count b a) self,
    node_count-set (d k) i n a small l u,
    free_count-ext d e ks a (λ j m. others j (ground arith)),
  );
}

pub next-set : (b : Buffer) (v : ℕ) → v < 2 ^ 64 → word (clip (set_word b 0 v)) 0 ≡ v
next-set b v small =
    word-clip (set_word b 0 v) 0 (omega arith) ∙ word-set_word b 0 v 0 small ∙ ground arith

pub More-node :
    (d e : Disk) (k n : ℕ)
    → n < 2 ^ 64
    → e k ≡ clip (set_word (d k) 0 n)
    → e n ≡ clip zeros
    → More d e (k ∷ []) (k ∷ n ∷ []) n
unfolding free_count
More-node d e k n small self new = record {
  added = λ a p. ground (
    arith,
    ap (λ b. node_count b a) self,
    ap (λ b. node_count b a) new,
    node_count-set_next (d k) n a small,
    node_count-zeros a p,
  );
}

pub More-cons :
    (d e : Disk) (k : ℕ) (ks ns : List ℕ) (n : ℕ)
    → e k ≡ d k
    → More d e ks ns n
    → More d e (k ∷ ks) (k ∷ ns) n
unfolding free_count
More-cons d e k ks ns n same more = record {
  added = λ a p. ground (arith, more.added a p, ap (λ b. node_count b a) same);
}

-- More of a free list is a free list, if the new block was not free and is a data block.
pub More-IsFreeList :
    {d : Disk} {sb : Superblock} {ks : List ℕ} (e : Disk) (sb' : Superblock) (ns : List ℕ) (n : ℕ)
    → IsFreeList d sb ks
    → More d e ks ns n
    → free_count d ks n ≡ 0
    → sb.inode_table_blocks < n
    → n < sb.blocks
    → sb' ≡ record sb { free_blocks_head = sb'.free_blocks_head }
    → IsChain e sb'.free_blocks_head ns
    → IsFreeList e sb' ns
More-IsFreeList {ks} e sb' ns n f more new low high same chain = record {
  chain = chain;
  once = λ a p. ground (arith, more.added a p, f.once a p);
  range = λ a p q. ground (
    arith,
    f.range a p,
    more.added a p,
    ap (λ (b : Superblock). b.inode_table_blocks) same,
    ap (λ (b : Superblock). b.blocks) same,
  );
}
