-- ===== src/Fs/Format/NewDisk.antt =====
-- The disk file as `format_fs` leaves it.
use filesys.Prelude.{
  has, has-range, ℕ, ◌+◌, ◌-◌, ◌%◌, ◌^◌, ◌≤◌, ◌<◌, ◌≡◌, ◌≢◌, inl, inr, refl, ap, ◌∙◌, true, false,
  arith, ltb,
}
use filesys.Bytes.{zeros, clip}
use filesys.Outcome.{
  Ensures, returns, Ensures-bind, Ensures-if_run, Stops, Stops-bind, Stops-and_then,
}
use filesys.Os.{Os, IsPosix}
use filesys.Block.{block_at}
use filesys.Block.Laws.{block_at-time}
use filesys.Fs.Layout.{
  Superblock, IsSuperblock, load_superblock, store_superblock, load_superblock-store_superblock,
  load_superblock-clip,
}
use filesys.Fs.FreeList.{free_count, free_count-ext, IsChain-ext, IsFreeList}
use filesys.Fs.Format.{table_size, new_superblock, first_free_block, current_time, format_blocks}
use filesys.Fs.Format.Nodes.{put_block-at}
use filesys.Fs.Format.IndexList.{within}
use filesys.Fs.Format.FreeBlocks.{
  IsFormattable, new_nodes, free_end, NewFreeList, format_index-NewFreeList, format_index-Stops,
}
use filesys.Fs.Format.Table.{IsNewTable, IsNewTable-ext, table_blocks-NewTable}

new_superblock-IsSuperblock :
    (blocks t : ℕ) → blocks ≤ 2 ^ 55 → IsSuperblock (new_superblock blocks (t % 2 ^ 64))
unfolding new_superblock table_size
new_superblock-IsSuperblock blocks t small = ground arith

-- The sizes that `format_fs` can format: behind the head of the list of free blocks lie two blocks at
-- least, and not one more than a multiple of 64.
pub record IsSize (blocks : ℕ) : Type 0 where
  pub two : table_size blocks + 4 ≤ blocks
  pub remainder : (blocks - (2 + table_size blocks)) % 64 ≢ 1
  pub small : blocks ≤ 2 ^ 55

IsSize-IsFormattable : (blocks t : ℕ) → IsSize blocks → IsFormattable (new_superblock blocks t)
unfolding new_superblock
IsSize-IsFormattable blocks t h = record {
  low = omega arith;
  table = omega arith;
  two = omega (arith, h.two);
  remainder = h.remainder;
  small = h.small;
}

-- The last node of the list of free blocks.
unfoldable pub last_node : (blocks : ℕ) → ℕ
last_node blocks = first_free_block (new_superblock blocks 0) - 1

last_node-new : (blocks t : ℕ) → first_free_block (new_superblock blocks t) - 1 ≡ last_node blocks
unfolding last_node first_free_block new_superblock
last_node-new blocks t = refl

last_node-behind : (blocks : ℕ) → IsSize blocks → table_size blocks < last_node blocks
unfolding last_node first_free_block new_superblock
last_node-behind blocks h = omega (arith, h.two)

table_size-pos : (blocks : ℕ) → 0 < table_size blocks
unfolding table_size
table_size-pos blocks = ground arith

module _ ⦃os : Os⦄ (px : IsPosix os) where
  -- An empty file system: its superblock, its table of inodes and its list of free blocks.
  pub record IsNewDisk (blocks : ℕ) (sb : Superblock) (s : os.State) : Type 0 where
    pub super : (t : ℕ) × (sb ≡ new_superblock blocks t)
    pub stored : load_superblock (block_at px s 0) ≡ sb
    pub table : IsNewTable px sb.inode_table_blocks s
    pub list : IsFreeList (block_at px s) sb (new_nodes sb)
    pub freed :
        (a : ℕ)
        → 0 < a
        → free_count (block_at px s) (new_nodes sb) a ≡ within sb.free_blocks_head (free_end sb) a

  -- From the list of free blocks to the end of `format_fs`.
  with_list :
      (blocks t : ℕ) (before s : os.State)
      → IsSize blocks
      → IsNewTable px (table_size blocks) before
      → NewFreeList px (new_superblock blocks (t % 2 ^ 64)) before s
      → (s' : os.State)
      → block_at px s' 0 ≡ clip (store_superblock zeros (new_superblock blocks (t % 2 ^ 64)))
      → ((k : ℕ) → 0 ≢ k → block_at px s' k ≡ block_at px s k)
      → IsNewDisk blocks (new_superblock blocks (t % 2 ^ 64)) s'
  unfolding new_superblock
  with_list blocks t before s h table list s' self kept =
      let sb = new_superblock blocks (t % 2 ^ 64) in
      let nodes = new_nodes sb in
      let same = λ (k : ℕ) (m : has k nodes ≡ true). kept k (
        ground
          (arith, has-range (first_free_block sb - sb.free_blocks_head) sb.free_blocks_head k)) in
      let counts = λ (a : ℕ). free_count-ext (block_at px s) (block_at px s') nodes a same in
      record {
        super = (t % 2 ^ 64, refl);
        stored =
            ap load_superblock self
            ∙ load_superblock-clip _
            ∙ load_superblock-store_superblock zeros sb
                (new_superblock-IsSuperblock blocks t h.small);
        table =
            IsNewTable-ext px (table_size blocks) before s' (table_size-pos blocks)
              (λ k p q. kept k (omega (arith, p)) ∙ list.others k (inl (omega (arith, q)))) table;
        list = record {
          chain =
              IsChain-ext (block_at px s) (block_at px s') sb.free_blocks_head nodes same
                list.list.chain;
          once = λ a p. omega (arith, counts a, list.list.once a p);
          range = λ a p q. list.list.range a p (omega (arith, counts a, q));
        };
        freed = λ a p. counts a ∙ list.freed a p;
      }

  -- `format_fs` on a disk file with at least two blocks and not one more than a multiple of 64 behind
  -- the head of the list of free blocks, and with zeros where the last node of that list comes to
  -- lie: it does not abort, and if it returns 0, the disk is an empty file system.
  pub format_blocks-IsNewDisk :
      (blocks : ℕ) (s : os.State)
      → IsSize blocks
      → block_at px s (last_node blocks) ≡ clip zeros
      → Ensures (IsNewDisk blocks) (λ _. Unit {0}) (format_blocks blocks s)
  unfolding format_blocks current_time new_superblock
  format_blocks-IsNewDisk blocks s h blank =
      let t = (os.time s).0 in
      let sb = new_superblock blocks (t % 2 ^ 64) in
      Ensures-if_run (ltb blocks 3) _ _ s (λ tiny. absurd (ground (arith, tiny, h.two)))
        λ _.
          Ensures-bind
            (table_blocks-NewTable px (table_size blocks) (os.time s).1 (table_size-pos blocks)
              (omega (arith, h.two, h.small)))
            (λ (b, n) s1 table.
              Ensures-bind
                (format_index-NewFreeList px sb (IsSize-IsFormattable blocks (t % 2 ^ 64) h) b s1 (
                  ap (block_at px s1) (last_node-new blocks (t % 2 ^ 64))
                  ∙ table.others (last_node blocks) (inr (last_node-behind blocks h))
                  ∙ block_at-time px s (last_node blocks)
                  ∙ blank))
                (λ _ s2 list.
                  Ensures-bind (put_block-at px 0 (store_superblock zeros sb) s2 (omega arith))
                    (λ _ s3 (self, kept).
                      returns (with_list blocks t s1 s2 h table.inodes list s3 self kept))
                    λ _ q. q)
                λ _ q. q)
            λ _ q. q

  -- `format_fs` on a disk file with one block more than a multiple of 64, and more than 64, behind the
  -- head of the list of free blocks never returns 0: a transfer fails, or the last `assert` does.
  pub format_blocks-Stops :
      (blocks : ℕ) (s : os.State)
      → table_size blocks + 67 ≤ blocks
      → (blocks - (2 + table_size blocks)) % 64 ≡ 1
      → blocks ≤ 2 ^ 55
      → Stops (format_blocks blocks s)
  unfolding format_blocks current_time new_superblock
  format_blocks-Stops blocks s many one small =
      let t = (os.time s).0 in
      let sb = new_superblock blocks (t % 2 ^ 64) in
      let big : ltb blocks 3 ≡ false = ground (arith, many) in
      rw big (
        Stops-bind
          (table_blocks-NewTable px (table_size blocks) (os.time s).1 (table_size-pos blocks)
            (omega (arith, many, small)))
          λ (b, n) s1 table.
            Stops-and_then _ (format_index-Stops px sb b s1 (omega (arith, many)) one small))
