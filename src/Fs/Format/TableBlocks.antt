-- ===== src/Fs/Format/TableBlocks.antt =====
-- src/fs.c: the blocks of the table of inodes behind the first, as `format_fs` writes them.
use filesys.Prelude.{
  ℕ, zero, suc, ◌+◌, ◌-◌, ◌*◌, ◌%◌, ◌^◌, ◌≤◌, ◌<◌, ◌≡◌, ◌⊎◌, inl, inr, refl, sym, ap, subst, ◌∙◌,
  false, arith, ◌==◌, Bool-cases,
}
use filesys.Bytes.{Buffer, zeros, clip}
use filesys.Bytes.Fields.{load_fields}
use filesys.Outcome.{done, Ensures, returns, Ensures-bind, Ensures-mono}
use filesys.Os.{Os, IsPosix}
use filesys.Block.{block_at}
use filesys.Fs.Layout.{
  Inode, IsInode, load_inode, store_inode, load_inode-clip, load_inode-IsInode,
  load_inode-store_inode_self, load_inode-store_inode_ne,
}
use filesys.Fs.Format.{free_inode, root_inode, table_slot, table_slots, table_blocks}
use filesys.Fs.Format.Nodes.{put_block-at}

free_inode-IsInode : (n : ℕ) → n < 2 ^ 64 → IsInode (free_inode n)
free_inode-IsInode n h = omega arith

-- Three slots hold three inodes.
abbrev pub three : Buffer → Inode → Inode → Inode → Buffer
three b x y z = store_inode (store_inode (store_inode b 0 x) 1 y) 2 z

pub load_inode-three :
    (b : Buffer) (x y z : Inode)
    → IsInode x
    → IsInode y
    → IsInode z
    → (load_inode (clip (three b x y z)) 0 ≡ x)
      × (load_inode (clip (three b x y z)) 1 ≡ y)
      × (load_inode (clip (three b x y z)) 2 ≡ z)
load_inode-three b x y z p q r = (
  load_inode-clip (three b x y z) 0 (omega arith)
      ∙ load_inode-store_inode_ne _ 2 0 z (omega arith)
      ∙ load_inode-store_inode_ne _ 1 0 y (omega arith)
      ∙ load_inode-store_inode_self b 0 x p,
  load_inode-clip (three b x y z) 1 (omega arith)
      ∙ load_inode-store_inode_ne _ 2 1 z (omega arith)
      ∙ load_inode-store_inode_self _ 1 y q,
  load_inode-clip (three b x y z) 2 (omega arith) ∙ load_inode-store_inode_self _ 2 z r,
)

module _ ⦃os : Os⦄ where
  abbrev pub new_root : ℕ → Inode
  new_root t = root_inode t (load_inode zeros 0)

  -- A block behind the first.
  table_slots_lem :
      (i n : ℕ) (b : Buffer) (s : os.State)
      → 2 ≤ i
      → table_slots 3 i 0 (b, n) s
        ≡ done
            (three b (free_inode n) (free_inode (n + 1)) (free_inode (n + 1 + 1)), n + 1 + 1 + 1)
            s
  unfolding table_slots table_slot
  table_slots_lem i n b s h = let e : (i == 1) ≡ false = ground arith in rw e refl

  pub new_root-IsInode : (t : ℕ) → IsInode (new_root (t % 2 ^ 64))
  unfolding load_inode load_fields
  new_root-IsInode t = omega (arith, load_inode-IsInode zeros 0)

module _ ⦃os : Os⦄ (px : IsPosix os) where
  -- Blocks `i` to `i + rounds - 1` of the table hold free inodes, each with the number of the next.
  pub record AreFree (before s : os.State) (i rounds : ℕ) : Type 0 where
    pub inodes :
        (k j : ℕ)
        → i ≤ k
        → k < i + rounds
        → j < 3
        → load_inode (block_at px s k) j ≡ free_inode (3 * (k - 1) + j + 2)
    pub others : (k : ℕ) → (k < i) ⊎ (i + rounds ≤ k) → block_at px s k ≡ block_at px before k

  block_inodes :
      (b : Buffer) (x y z : Inode) (f : ℕ → Inode) (j : ℕ)
      → (load_inode b 0 ≡ x) × (load_inode b 1 ≡ y) × (load_inode b 2 ≡ z)
      → f 0 ≡ x
      → f 1 ≡ y
      → f 2 ≡ z
      → j < 3
      → load_inode b j ≡ f j
  block_inodes b x y z f zero (p, q, r) e0 e1 e2 h = p ∙ sym e0
  block_inodes b x y z f (suc zero) (p, q, r) e0 e1 e2 h = q ∙ sym e1
  block_inodes b x y z f (suc (suc zero)) (p, q, r) e0 e1 e2 h = r ∙ sym e2
  block_inodes b x y z f (suc (suc (suc j))) v e0 e1 e2 h = absurd (omega arith)

  pub table_blocks-AreFree :
      (rounds i n : ℕ) (b : Buffer) (s : os.State)
      → 2 ≤ i
      → n ≡ 3 * (i - 1) + 2
      → i + rounds ≤ 2 ^ 55
      → Ensures (λ _ s'. AreFree s s' i rounds) (λ _. Unit {0}) (table_blocks rounds i (b, n) s)
  unfolding table_blocks
  table_blocks-AreFree zero i n b s two e small =
      returns (record { inodes = λ k j p q l. absurd (omega arith); others = λ k out. refl })
  table_blocks-AreFree (suc rounds) i n b s two e small =
      let b' = three b (free_inode n) (free_inode (n + 1)) (free_inode (n + 1 + 1)) in
      let stored =
        load_inode-three b (free_inode n) (free_inode (n + 1)) (free_inode (n + 1 + 1))
          (free_inode-IsInode n (omega (arith, e, small)))
          (free_inode-IsInode (n + 1) (omega (arith, e, small)))
          (free_inode-IsInode (n + 1 + 1) (omega (arith, e, small))) in
      rw (table_slots_lem i n b s two) (
        Ensures-bind (put_block-at px i b' s (omega (arith, small)))
          (λ _ mid (self, kept).
            Ensures-mono
              (table_blocks-AreFree rounds (i + 1) (n + 1 + 1 + 1) b' mid (omega arith)
                (omega (arith, e)) (omega (arith, small)))
              (λ _ s' w. record {
                inodes = λ k j p q l. elim (Bool-cases (k == i)) [
                  | inl same ↦
                      let k_is : k ≡ i = ground (arith, same) in
                      subst
                        (λ m. load_inode (block_at px s' m) j ≡ free_inode (3 * (m - 1) + j + 2))
                        (sym k_is)
                        (ap (λ c. load_inode c j) (w.others i (inl (omega arith)) ∙ self)
                          ∙ block_inodes (clip b') _ _ _ (λ l. free_inode (3 * (i - 1) + l + 2)) j
                              stored (ap free_inode (omega (arith, e)))
                              (ap free_inode (omega (arith, e))) (ap free_inode (omega (arith, e)))
                              l)
                  | inr ne ↦ w.inodes k j (ground (arith, ne)) (omega (arith, q)) l
                ];
                others = λ k out. w.others k (ground arith) ∙ kept k (ground arith);
              })
              λ _ q. q)
          λ _ q. q)
