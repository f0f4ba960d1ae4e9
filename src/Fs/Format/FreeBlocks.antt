-- ===== src/Fs/Format/FreeBlocks.antt =====
-- The list of free blocks that `format_fs` writes.
use filesys.Prelude.{
  range, ℕ, ◌+◌, ◌-◌, ◌*◌, ◌/◌, ◌%◌, ◌^◌, ◌≤◌, ◌<◌, ◌≡◌, ◌≢◌, ◌⊎◌, inr, ap, subst, ◌∙◌, true, false,
  arith, ◌==◌, if◌then◌else◌, List,
}
use filesys.Bytes.{Buffer, zeros, clip}
use filesys.Outcome.{Ensures, returns, Ensures-bind, Stops, aborts, Stops-bind}
use filesys.Os.{Os, IsPosix}
use filesys.Block.{block_at}
use filesys.Fs.Layout.{Superblock}
use filesys.Fs.FreeList.{free_count, IsChain, IsFreeList}
use filesys.Fs.Format.{Index, format_index, first_free_block}
use filesys.Fs.Format.Filling.{Filling, written}
use filesys.Fs.Format.Nodes.{HasRoom, index_blocks-AreWritten}
use filesys.Fs.Format.IndexList.{IsIndex, index-IsChain, index-free_count, within}

-- The size of the disk allows an index: behind the head lie two blocks at least, and not one more
-- than a multiple of 64.
pub record IsFormattable (sb : Superblock) : Type 0 where
  pub low : 0 < sb.free_blocks_head
  pub table : sb.inode_table_blocks < sb.free_blocks_head
  pub two : sb.free_blocks_head + 2 ≤ sb.blocks
  pub remainder : (sb.blocks - sb.free_blocks_head) % 64 ≢ 1
  pub small : sb.blocks ≤ 2 ^ 55

-- The end of the blocks that are free after formatting: the entries of a last node that is not full
-- are lost.
unfoldable pub free_end : Superblock → ℕ
free_end sb =
    let n = sb.blocks - sb.free_blocks_head in
    if n % 64 == 0 then sb.blocks else first_free_block sb + n / 64 * 63

module _ (sb : Superblock) (h : IsFormattable sb) where
  formattable-HasRoom :
      HasRoom sb.free_blocks_head (first_free_block sb) sb.blocks
      × (first_free_block sb < sb.blocks)
  unfolding first_free_block
  formattable-HasRoom = (
    record {
      low = omega arith;
      high = omega (arith, h.two);
      room = omega (arith, h.two);
      small = h.small;
    },
    omega (arith, h.two),
  )

  -- Where the loop over the index ends.
  module _ (y : Index) (f : Filling sb.free_blocks_head (first_free_block sb) sb.blocks y)
      (two : 2 ≤ y.position) where
    last_node : y.node + 1 ≡ first_free_block sb
    unfolding first_free_block
    last_node = omega (arith, f.here, f.low, f.bound, two, h.two, h.remainder)

    full-end : first_free_block sb + 63 * (written y - sb.free_blocks_head) ≡ free_end sb
    unfolding free_end first_free_block
    full-end = ground (arith, f.here, f.low, f.bound, two, h.two, h.remainder, last_node)

  more_nodes : 0 < first_free_block sb - sb.free_blocks_head
  unfolding first_free_block
  more_nodes = omega (arith, h.two)

  free_end-le : free_end sb ≤ sb.blocks
  unfolding free_end first_free_block
  free_end-le = ground (arith, h.two)

  count-within :
      (full : ℕ)
      → sb.free_blocks_head ≤ full
      → full ≤ first_free_block sb
      → first_free_block sb + 63 * (full - sb.free_blocks_head) ≡ free_end sb
      → (a c : ℕ)
      → c
        ≡ within sb.free_blocks_head
            (sb.free_blocks_head + (first_free_block sb - sb.free_blocks_head))
            a
          + within
              (first_free_block sb + 63 * (sb.free_blocks_head - sb.free_blocks_head))
              (first_free_block sb + 63 * (full - sb.free_blocks_head))
              a
      → c ≡ within sb.free_blocks_head (free_end sb) a
  count-within full low bound e a c h' = ground (arith, more_nodes)

-- The nodes of the list that formatting writes.
abbrev pub new_nodes : Superblock → List ℕ
new_nodes sb = range (first_free_block sb - sb.free_blocks_head) sb.free_blocks_head

odd-HasRoom :
    (sb : Superblock)
    → sb.free_blocks_head + 65 ≤ sb.blocks
    → sb.blocks ≤ 2 ^ 55
    → HasRoom sb.free_blocks_head (first_free_block sb) sb.blocks
unfolding first_free_block
odd-HasRoom sb many small = record {
  low = omega arith;
  high = omega (arith, many);
  room = omega (arith, many);
  small = small;
}

odd-first_free :
    (sb : Superblock) → sb.free_blocks_head + 65 ≤ sb.blocks → first_free_block sb < sb.blocks
unfolding first_free_block
odd-first_free sb many = omega (arith, many)

odd-node :
    (sb : Superblock)
    → sb.free_blocks_head + 65 ≤ sb.blocks
    → (sb.blocks - sb.free_blocks_head) % 64 ≡ 1
    → (y : Index) → Filling sb.free_blocks_head (first_free_block sb) sb.blocks y
    → 2 ≤ y.position
    → y.node + 2 ≡ first_free_block sb
unfolding first_free_block
odd-node sb many one y f two = omega (arith, f.here, f.low, f.bound, two, many, one)

module _ ⦃os : Os⦄ (px : IsPosix os) where
  -- The list on the disk is well formed, and exactly the blocks from its head up to `free_end` are
  -- free. Every block outside the nodes is as it was.
  pub record NewFreeList (sb : Superblock) (before s : os.State) : Type 0 where
    pub list : IsFreeList (block_at px s) sb (new_nodes sb)
    pub freed :
        (a : ℕ)
        → 0 < a
        → free_count (block_at px s) (new_nodes sb) a ≡ within sb.free_blocks_head (free_end sb) a
    pub others :
        (k : ℕ)
        → (k < sb.free_blocks_head) ⊎ (first_free_block sb ≤ k)
        → block_at px s k ≡ block_at px before k

  module _ (sb : Superblock) (h : IsFormattable sb) where
    index-NewFreeList :
        (before s : os.State) (full : ℕ)
        → IsIndex sb.free_blocks_head (first_free_block sb) full (block_at px s)
        → sb.free_blocks_head ≤ full
        → first_free_block sb + 63 * (full - sb.free_blocks_head) ≡ free_end sb
        → ((k : ℕ)
            → (k < sb.free_blocks_head) ⊎ (first_free_block sb ≤ k)
            → block_at px s k ≡ block_at px before k)
        → NewFreeList sb before s
    index-NewFreeList before s full x low e others =
        let head = sb.free_blocks_head in
        let first_free = first_free_block sb in
        let n = first_free - head in
        let (room, more) = formattable-HasRoom sb h in
        let freed = λ (a : ℕ) (p : 0 < a). count-within sb h full low x.bound e a _ (
          index-free_count head first_free full (block_at px s) x n head a p (omega arith)
            (omega (arith, room.low))) in
        record {
          list = record {
            chain =
                subst (λ k. IsChain (block_at px s) k (range n head))
                  (ground (arith, more_nodes sb h))
                  (index-IsChain head first_free full (block_at px s) x n head h.low (omega arith)
                    (omega (arith, room.low)) (omega (arith, room.high, h.small)));
            once = λ a p. ground (arith, freed a p);
            range = λ a p q. ground (arith, freed a p, h.table, free_end-le sb h);
          };
          freed = freed;
          others = others;
        }

    -- Over a last node of zeros, the list is written, or a transfer fails.
    pub format_index-NewFreeList :
        (b : Buffer) (s : os.State)
        → block_at px s (first_free_block sb - 1) ≡ clip zeros
        → Ensures (λ _ s'. NewFreeList sb s s') (λ _. Unit {0}) (format_index sb b s)
    unfolding format_index
    format_index-NewFreeList b s blank =
        let (room, more) = formattable-HasRoom sb h in
        Ensures-bind
          (index_blocks-AreWritten px sb.free_blocks_head (first_free_block sb) sb.blocks b s room
            more)
          (λ y s' (f, two, w).
            let last = last_node sb h y f two in
            let ends : (y.node == first_free_block sb - 1) ≡ true = ground (arith, last) in
            rw ends (
              returns (
                index-NewFreeList s s' (written y)
                  (record {
                    bound = ground (arith, last, f.bound);
                    nodes = w.nodes;
                    last = λ k p q. (
                      w.others k (inr p)
                          ∙ ap (block_at px s) (ground (arith, last, f.bound))
                          ∙ blank,
                      ground (arith, last, f.bound),
                    );
                  })
                  (ground (arith, f.low)) (full-end sb h y f two)
                  (λ k out. w.others k (ground (arith, last, f.bound))))))
          λ _ q. q

  -- With one block more than a multiple of 64 behind the head, the last `assert` fails.
  pub format_index-Stops :
      (sb : Superblock) (b : Buffer) (s : os.State)
      → sb.free_blocks_head + 65 ≤ sb.blocks
      → (sb.blocks - sb.free_blocks_head) % 64 ≡ 1
      → sb.blocks ≤ 2 ^ 55
      → Stops (format_index sb b s)
  unfolding format_index
  format_index-Stops sb b s many one small =
      Stops-bind
        (index_blocks-AreWritten px sb.free_blocks_head (first_free_block sb) sb.blocks b s
          (odd-HasRoom sb many small) (odd-first_free sb many))
        λ y s' (f, two, w).
          let wrong : (y.node == first_free_block sb - 1) ≡ false =
            ground (arith, odd-node sb many one y f two) in
          rw wrong aborts
