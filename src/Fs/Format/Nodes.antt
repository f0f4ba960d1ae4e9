-- ===== src/Fs/Format/Nodes.antt =====
-- The nodes of the list of free blocks, as `format_fs` fills and writes them: the entries of the node
-- after `n` others are the 63 numbers from `first_free + 63 * n` on.
use filesys.Prelude.{
  ℕ, zero, suc, ◌+◌, ◌-◌, ◌*◌, ◌^◌, ◌≤◌, ◌<◌, ◌≡◌, ◌≢◌, ◌⊎◌, inl, inr, refl, sym, subst, ◌∙◌, true,
  arith, ltb, ◌==◌, Bool-cases,
}
use filesys.Bytes.{Buffer, clip}
use filesys.Outcome.{
  Ensures, returns, fails, Ensures-bind, Ensures-mono, Ensures-if, Ensures-if_run,
}
use filesys.Os.{Os, IsPosix}
use filesys.Block.{Addressable, block_at, block_write, is_full}
use filesys.Block.Laws.{block_at-block_write_self, block_at-block_write_ne}
use filesys.Fs.Format.{
  Index, advance, begin_node, add_entry, put_block, flush, index_block, index_blocks,
}
use filesys.Fs.Format.Filling.{
  Filling, Filling-IsNode, Filling-opened, IsNode, Ready, add_entry-Filling, opened, opened-fresh,
  written,
}

-- The sizes: there is an entry for every block behind the nodes.
pub record HasRoom (head first_free blocks : ℕ) : Type 0 where
  pub low : head ≤ first_free
  pub high : first_free ≤ blocks
  pub room : blocks ≤ first_free + 63 * (first_free - head)
  pub small : blocks ≤ 2 ^ 55

module _ ⦃os : Os⦄ (px : IsPosix os) where
  pub put_block-at :
      (k : ℕ) (b : Buffer) (s : os.State)
      → Addressable k
      → Ensures
          (λ _ s'.
            (block_at px s' k ≡ clip b) × ((j : ℕ) → k ≢ j → block_at px s' j ≡ block_at px s j))
          (λ _. Unit {0})
          (put_block k b s)
  unfolding put_block
  put_block-at k b s small =
      Ensures-if (is_full (block_write k b s).0) _ _
        (λ full. returns (
          block_at-block_write_self px k b s small full,
          λ j ne. block_at-block_write_ne px k b s j small ne,
        ))
        λ _. fails tt

module _ ⦃os : Os⦄ (px : IsPosix os) (head first_free : ℕ) where
  -- From `before` to `s`, exactly the nodes before `n` have been written.
  pub record AreWritten (before s : os.State) (n : ℕ) : Type 0 where
    pub nodes : (k : ℕ) → head ≤ k → k < n → IsNode head first_free k (block_at px s k)
    pub others : (k : ℕ) → (k < head) ⊎ (n ≤ k) → block_at px s k ≡ block_at px before k

  AreWritten-suc :
      (before s s' : os.State) (n : ℕ) (b : Buffer)
      → head ≤ n
      → AreWritten before s n
      → IsNode head first_free n b
      → block_at px s' n ≡ b
      → ((j : ℕ) → n ≢ j → block_at px s' j ≡ block_at px s j)
      → AreWritten before s' (n + 1)
  AreWritten-suc before s s' n b low w node self others = record {
    nodes = λ k p q. elim (Bool-cases (k == n)) [
      | inl e ↦
          subst (λ m. IsNode head first_free m (block_at px s' m)) (ground (arith, e))
            (subst (IsNode head first_free n) (sym self) node)
      | inr ne ↦
          subst (IsNode head first_free k) (sym (others k (ground (arith, ne))))
            (w.nodes k p (ground (arith, ne)))
    ];
    others = λ k out. others k (ground arith) ∙ w.others k (ground arith);
  }

  flush-AreWritten :
      (i : ℕ) (x : Index) (before s : os.State)
      → Addressable x.node
      → Filling head first_free i x
      → AreWritten before s x.node
      → Ensures (λ _ s'. AreWritten before s' (written x)) (λ _. Unit {0}) (flush x s)
  unfolding flush
  flush-AreWritten i x before s small f w =
      Ensures-if_run (x.position == 64) _ _ s
        (λ full.
          let e : x.node + 1 ≡ written x = ground (arith, full) in
          Ensures-mono (put_block-at px x.node x.contents s small)
            (λ _ s' (self, others). subst (AreWritten before s') e (
              AreWritten-suc before s s' x.node (clip x.contents) f.low w
                (Filling-IsNode head first_free i x f (ground (arith, full))) self others))
            λ _ h. h)
        λ part.
          let e : x.node ≡ written x = ground (arith, part) in
          returns (subst (AreWritten before s) e w)

  begin_node-node : (x : Index) → (opened first_free x).node ≡ (advance x).node
  unfolding begin_node
  begin_node-node x = ground arith

  index_block-Filling :
      (blocks i : ℕ) (x : Index) (before s : os.State)
      → HasRoom head first_free blocks
      → i < blocks
      → Ready head first_free i (opened first_free x)
      → AreWritten before s (opened first_free x).node
      → Ensures
          (λ y s'.
            Filling head first_free (i + 1) y × (2 ≤ y.position) × AreWritten before s' (written y))
          (λ _. Unit {0})
          (index_block first_free i x s)
  unfolding index_block
  index_block-Filling blocks i x before s h inside r w =
      let y = opened first_free x in
      let f = r.filling in
      let node : y.node < first_free = omega (arith, h.room, h.low, f.here, f.low, f.started) in
      let checked : ltb (advance x).node first_free ≡ true =
        ground (arith, node, begin_node-node x) in
      let z = add_entry i y in
      let f' = add_entry-Filling head first_free i y (omega (arith, h.small)) f r.short in
      rw checked (
        Ensures-bind
          (flush-AreWritten (i + 1) z before s (omega (arith, node, h.high, h.small)) f' w)
          (λ _ s' w'. returns (f', omega (arith, f.started), w')) λ _ e. e)

  index_blocks-Filling :
      (rounds blocks i : ℕ) (x : Index) (before s : os.State)
      → HasRoom head first_free blocks
      → i + rounds ≡ blocks
      → Filling head first_free i x
      → 2 ≤ x.position
      → AreWritten before s (written x)
      → Ensures
          (λ y s'.
            Filling head first_free blocks y × (2 ≤ y.position) × AreWritten before s' (written y))
          (λ _. Unit {0})
          (index_blocks rounds first_free i x s)
  unfolding index_blocks
  index_blocks-Filling zero blocks i x before s h e f two w =
      let e' : i ≡ blocks = omega arith in
      returns (subst (λ j. Filling head first_free j x) e' f, two, w)
  index_blocks-Filling (suc n) blocks i x before s h e f two w =
      let (r, same) = Filling-opened head first_free i x (omega (arith, h.high, h.small)) f in
      Ensures-bind
        (index_block-Filling blocks i x before s h (omega arith) r
          (subst (AreWritten before s) (sym same) w))
        (λ y s' (f', two', w').
          index_blocks-Filling n blocks (i + 1) y before s' h (omega arith) f' two' w')
        λ _ q. q

  -- The whole loop, from the first node on.
  pub index_blocks-AreWritten :
      (blocks : ℕ) (b : Buffer) (s : os.State)
      → HasRoom head first_free blocks
      → first_free < blocks
      → Ensures
          (λ y s'.
            Filling head first_free blocks y × (2 ≤ y.position) × AreWritten s s' (written y))
          (λ _. Unit {0})
          (index_blocks
            (blocks - first_free)
            first_free
            first_free
            (record { node = head; position = 0; contents = b })
            s)
  unfolding index_blocks begin_node advance
  index_blocks-AreWritten blocks b s h some_entry =
      let e : blocks - first_free ≡ suc (blocks - first_free - 1) = omega (arith, some_entry) in
      rw e (
        Ensures-bind
          (index_block-Filling blocks first_free _ s s h some_entry
            (opened-fresh head first_free b (omega (arith, h.high, h.small)))
            (record { nodes = λ k p q. absurd (omega arith); others = λ k out. refl }))
          (λ y s' (f, two, w).
            index_blocks-Filling (blocks - first_free - 1) blocks (first_free + 1) y s s' h
              (omega (arith, some_entry)) f two w)
          λ _ q. q)
