-- ===== src/Dir/Taken.antt =====
-- src/fs.c: `sfs_fs_inode_allocate` beside a directory, if the transfers of the disk file are never
-- short.
use filesys.Prelude.{ℕ, ◌^◌, ◌<◌, ◌≤◌, ◌≡◌, ◌≢◌, inl, inr, refl, sym, ap, ◌∙◌, ◌==◌, arith}
use filesys.Bytes.{Buffer}
use filesys.Outcome.{Ensures, returns, Ensures-bind, Ensures-if, Ensures-Succeeds}
use filesys.Os.{Os, IsPosix, IsReliable}
use filesys.Block.{block_at}
use filesys.Fs.Layout.{Inode, Superblock}
use filesys.Fs.State.{Filesystem, write_superblock}
use filesys.Fs.Inode.{inode_block}
use filesys.Fs.Cache.{SameMemory, IsCoherent, block_view, write_block_lem}
use filesys.Fs.InodeView.{IsInumber, inode_block-pos, inode_view}
use filesys.Fs.InodeAlloc.{inode_allocate, set_free_inode_head}
use filesys.Fs.Reliable.{write_block-Succeeds}
use filesys.Fs.BlockMap.{pointer, is_outside}
use filesys.Fs.BlockMap.Contents.{Place, table_below}
use filesys.Dir.Contents.{IsDirectory, IsDirectory-Keeps, inode_view-memory}
use filesys.Dir.Dropped.{read_inode-Keeps}

module _ ⦃os : Os⦄ (px : IsPosix os) where
  -- Only the head of the list of free inodes has changed.
  pub record IsTaken (content : ℕ → Buffer) (directory : Inode) (fs fs' : Filesystem) : Type 0 where
    pub contents : IsDirectory px content directory fs'
    pub table : fs'.superblock.inode_table_blocks ≡ fs.superblock.inode_table_blocks
    pub blocks : fs'.superblock.blocks ≡ fs.superblock.blocks
    pub views : (n : ℕ) → 0 < n → inode_view px fs' n ≡ inode_view px fs n

  -- A new head of the list of free inodes, and its write to block 0.
  head-Place :
      (content : ℕ → Buffer) (i : Inode) (k head : ℕ) (fs fs' : Filesystem)
      → fs'.superblock ≡ record fs.superblock { free_inode_head = head }
      → ((j : ℕ) → 0 ≢ j → block_at px fs'.os_state j ≡ block_at px fs.os_state j)
      → Place px content i fs k
      → Place px content i fs' k
  unfolding is_outside
  head-Place content i k head fs fs' super others (inl h) = inl h
  head-Place content i k head fs fs' super others (inr (inside, at)) =
      let behind = table_below fs.superblock (pointer i k) inside in
      inr (rw super inside, others (pointer i k) (λ e. omega (arith, e, behind)) ∙ at)

  head-IsDirectory :
      (content : ℕ → Buffer) (i : Inode) (head : ℕ) (fs fs' : Filesystem)
      → IsDirectory px content i fs
      → fs'.superblock ≡ record fs.superblock { free_inode_head = head }
      → fs'.inode_cache ≡ fs.inode_cache
      → IsCoherent px fs'
      → ((j : ℕ) → 0 ≢ j → block_at px fs'.os_state j ≡ block_at px fs.os_state j)
      → IsDirectory px content i fs'
  head-IsDirectory content i head fs fs' d super cache coherent others = record {
    ok = d.ok;
    number = d.number;
    in_table = rw super d.in_table;
    table = rw super d.table;
    coherent = coherent;
    cached = rw super (rw cache d.cached);
    apart = d.apart;
    holds = record {
      places = λ k p. head-Place content i k head fs fs' super others (d.holds.places k p);
      small = rw super d.holds.small;
    };
  }

  head-IsCoherent :
      (fs fs' : Filesystem)
      → IsCoherent px fs
      → fs'.inode_cache ≡ fs.inode_cache
      → ((j : ℕ) → 0 ≢ j → block_at px fs'.os_state j ≡ block_at px fs.os_state j)
      → IsCoherent px fs'
  head-IsCoherent fs fs' c cache others = record {
    number = rw cache c.number;
    dirty = rw cache c.dirty;
    clean = rw cache (λ d p. c.clean d p ∙ sym (others _ λ e. omega (arith, e, p)));
  }

  -- The superblock is not a part of the view.
  inode_view-super :
      (fs : Filesystem) (sb : Superblock) (n : ℕ)
      → inode_view px (record fs { superblock = sb }) n ≡ inode_view px fs n
  unfolding inode_view block_view
  inode_view-super fs sb n = refl

  pub head-IsTaken :
      (content : ℕ → Buffer) (i : Inode) (head : ℕ) (fs fs' : Filesystem)
      → IsDirectory px content i fs
      → SameMemory px
          (record fs { superblock = record fs.superblock { free_inode_head = head } })
          fs'
      → ((j : ℕ) → 0 ≢ j → block_at px fs'.os_state j ≡ block_at px fs.os_state j)
      → IsTaken content i fs fs'
  head-IsTaken content i head fs fs' d memory others =
      let sb = record fs.superblock { free_inode_head = head } in
      record {
        contents =
            head-IsDirectory content i head fs fs' d memory.super memory.cache
              (head-IsCoherent fs fs' d.coherent memory.cache others) others;
        table = ap (λ (s : Superblock). s.inode_table_blocks) memory.super;
        blocks = ap (λ (s : Superblock). s.blocks) memory.super;
        views = λ n p.
            inode_view-memory px (record fs { superblock = sb }) fs' n memory
              (others (inode_block n) λ e. omega (arith, e, inode_block-pos n))
            ∙ inode_view-super fs sb n;
      }

  module _ (size : ℕ) (reliable : IsReliable os size) (small : size ≤ 2 ^ 55) where
    pub inode_allocate-IsTaken :
        (content : ℕ → Buffer) (i : Inode) (fs : Filesystem)
        → fs.superblock.blocks ≤ size
        → IsDirectory px content i fs
        → IsInumber fs.superblock.free_inode_head
        → inode_block fs.superblock.free_inode_head ≤ fs.superblock.inode_table_blocks
        → Ensures
            (λ j fs'.
              (j ≡ inode_view px fs fs.superblock.free_inode_head) × IsTaken content i fs fs')
            (λ _. ⊥)
            (inode_allocate fs)
    unfolding inode_allocate set_free_inode_head write_superblock
    inode_allocate-IsTaken content i fs within d number in_table =
        let head = fs.superblock.free_inode_head in
        Ensures-if (head == 0) _ _ (λ z. absurd (ground (arith, z, number.positive)))
          λ _.
            Ensures-bind
              (read_inode-Keeps px size reliable small content i head fs within d number in_table)
              (λ j mid (e, k, same).
                let d₁ = IsDirectory-Keeps px content i i fs mid d d.ok refl refl k in
                let sb = record mid.superblock { free_inode_head = j.size } in
                let mid' : Filesystem = record mid { superblock = sb } in
                let super : mid.superblock ≡ fs.superblock = k.super in
                Ensures-bind
                  (Ensures-Succeeds (write_block_lem px 0 _ mid' (omega arith)) (
                    write_block-Succeeds size reliable small 0 _ mid'
                      (omega (arith, d.table, within))))
                  (λ _ fs' (_, memory, others).
                    let t = head-IsTaken content i j.size mid fs' d₁ memory others in
                    returns (
                      e,
                      record {
                        contents = t.contents;
                        table = t.table ∙ ap (λ (s : Superblock). s.inode_table_blocks) super;
                        blocks = t.blocks ∙ ap (λ (s : Superblock). s.blocks) super;
                        views = λ n p. t.views n p ∙ same n;
                      },
                    ))
                  λ _ impossible. impossible)
              λ _ impossible. impossible
