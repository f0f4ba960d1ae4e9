-- ===== src/Fs/Format/Table.antt =====
-- The inode table that `format_fs` writes: the root directory, and a list of all other inodes.
use filesys.Prelude.{
  ℕ, zero, suc, ◌+◌, ◌-◌, ◌*◌, ◌%◌, ◌^◌, ◌≤◌, ◌<◌, ◌≡◌, ◌≢◌, ◌⊎◌, inl, inr, refl, ap, ◌∙◌, arith,
  ◌==◌, Bool-cases,
}
use filesys.Bytes.{Buffer, zeros, clip}
use filesys.Outcome.{done, Ensures, Ensures-bind, Ensures-mono}
use filesys.Os.{Os, IsPosix}
use filesys.Block.{block_at}
use filesys.Block.Laws.{block_at-time}
use filesys.Fs.Layout.{load_inode}
use filesys.Fs.Inode.{inode_block, inode_position}
use filesys.Fs.Format.{free_inode, current_time, table_slot, table_slots, table_blocks}
use filesys.Fs.Format.Nodes.{put_block-at}
use filesys.Fs.Format.TableBlocks.{
  AreFree, load_inode-three, new_root, new_root-IsInode, table_blocks-AreFree, three,
}

module _ ⦃os : Os⦄ (px : IsPosix os) where
  -- The table holds the root directory, and each other inode has its number and the next in it.
  pub record IsNewTable (size : ℕ) (s : os.State) : Type 0 where
    pub root : (t : ℕ) × (load_inode (block_at px s 1) 0 ≡ new_root t)
    pub free :
        (n : ℕ)
        → 2 ≤ n
        → n ≤ 3 * size
        → load_inode (block_at px s (inode_block n)) (inode_position n) ≡ free_inode (n + 1)

  -- No block outside the table is written.
  pub record NewTable (size : ℕ) (before s : os.State) : Type 0 where
    pub inodes : IsNewTable size s
    pub others : (k : ℕ) → (k ≡ 0) ⊎ (size < k) → block_at px s k ≡ block_at px before k

  first_slots_lem :
      (s : os.State)
      → table_slots 3 1 0 (zeros, 3) s
        ≡ done
            (three zeros (new_root ((os.time s).0 % 2 ^ 64)) (free_inode 3) (free_inode 4), 5)
            (os.time s).1
  unfolding table_slots table_slot current_time
  first_slots_lem s = refl

  slot_of : (n i : ℕ) → inode_block n ≡ i → 0 < n → 3 * (i - 1) + inode_position n + 2 ≡ n + 1
  unfolding inode_block inode_position
  slot_of n i e p = omega (arith, e)

  inode_position-lt : (n : ℕ) → inode_position n < 3
  unfolding inode_position
  inode_position-lt n = omega arith

  pub inode_block-le :
      (n size : ℕ) → 0 < n → n ≤ 3 * size → (0 < inode_block n) × (inode_block n ≤ size)
  unfolding inode_block
  inode_block-le n size p h = omega (arith, h)

  first_slot_of :
      (n : ℕ)
      → 2 ≤ n
      → inode_block n ≡ 1
      → ((inode_position n ≡ 1) × (n ≡ 2)) ⊎ ((inode_position n ≡ 2) × (n ≡ 3))
  unfolding inode_block inode_position
  first_slot_of n p e = omega arith

  first_free :
      (b : Buffer) (n : ℕ)
      → 2 ≤ n
      → inode_block n ≡ 1
      → load_inode b 1 ≡ free_inode 3
      → load_inode b 2 ≡ free_inode 4
      → load_inode b (inode_position n) ≡ free_inode (n + 1)
  first_free b n p e one two = elim (first_slot_of n p e) [
    | inl (at, is) ↦ ap (load_inode b) at ∙ one ∙ ap free_inode (omega arith)
    | inr (at, is) ↦ ap (load_inode b) at ∙ two ∙ ap free_inode (omega arith)
  ]

  -- The first block and the others behind it.
  first-NewTable :
      (t rounds : ℕ) (before mid s : os.State)
      → block_at px mid 1 ≡ clip (three zeros (new_root (t % 2 ^ 64)) (free_inode 3) (free_inode 4))
      → ((k : ℕ) → 1 ≢ k → block_at px mid k ≡ block_at px before k)
      → AreFree px mid s 2 rounds
      → NewTable (suc rounds) before s
  first-NewTable t rounds before mid s self kept w =
      let block : block_at px s 1
          ≡ clip (three zeros (new_root (t % 2 ^ 64)) (free_inode 3) (free_inode 4)) =
        w.others 1 (inl (omega arith)) ∙ self in
      let (r0, r1, r2) =
        load_inode-three zeros (new_root (t % 2 ^ 64)) (free_inode 3) (free_inode 4)
          (new_root-IsInode t) (omega arith) (omega arith) in
      record {
        inodes = record {
          root = (t % 2 ^ 64, ap (λ b. load_inode b 0) block ∙ r0);
          free = λ n p q. elim (Bool-cases (inode_block n == 1)) [
            | inl e ↦
                let e' : inode_block n ≡ 1 = ground (arith, e) in
                ap (λ k. load_inode (block_at px s k) (inode_position n)) e'
                ∙ first_free (block_at px s 1) n p e' (ap (λ b. load_inode b 1) block ∙ r1)
                    (ap (λ b. load_inode b 2) block ∙ r2)
            | inr ne ↦
                let (low, high) = inode_block-le n (suc rounds) (omega arith) q in
                w.inodes (inode_block n) (inode_position n) (ground (arith, ne)) (omega arith)
                  (inode_position-lt n)
                ∙ ap free_inode (slot_of n (inode_block n) refl (omega arith))
          ];
        };
        others = λ k out. w.others k (omega arith) ∙ kept k (omega arith);
      }

  pub table_blocks-NewTable :
      (size : ℕ) (s : os.State)
      → 0 < size
      → size < 2 ^ 55
      → Ensures (λ _ s'. NewTable size s s') (λ _. Unit {0}) (table_blocks size 1 (zeros, 3) s)
  unfolding table_blocks
  table_blocks-NewTable zero s p small = absurd (omega arith)
  table_blocks-NewTable (suc rounds) s p small =
      let t = (os.time s).0 in
      let b = three zeros (new_root (t % 2 ^ 64)) (free_inode 3) (free_inode 4) in
      rw (first_slots_lem s) (
        Ensures-bind (put_block-at px 1 b (os.time s).1 (omega arith))
          (λ _ mid (self, kept).
            Ensures-mono
              (table_blocks-AreFree px rounds 2 5 b mid (omega arith) (omega arith) (omega arith))
              (λ _ s' w.
                first-NewTable t rounds s mid s' self (λ k ne. kept k ne ∙ block_at-time px s k) w)
              λ _ q. q)
          λ _ q. q)

  pub IsNewTable-ext :
      (size : ℕ) (s s' : os.State)
      → 0 < size
      → ((k : ℕ) → 0 < k → k ≤ size → block_at px s' k ≡ block_at px s k)
      → IsNewTable size s
      → IsNewTable size s'
  IsNewTable-ext size s s' pos same v = record {
    root =
        let (t, e) = v.root in
        (t, ap (λ b. load_inode b 0) (same 1 (omega arith) (omega arith)) ∙ e);
    free = λ n p q.
        let (low, high) = inode_block-le n size (omega arith) q in
        ap (λ b. load_inode b (inode_position n)) (same (inode_block n) low high) ∙ v.free n p q;
  }
