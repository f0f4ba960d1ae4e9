-- ===== src/Fs/FreeList/Walk.antt =====
-- The walk of `sfs_fs_free_block` over the index list.
use filesys.Prelude.{
  has, ℕ, zero, suc, ◌<◌, ◌≡◌, ◌≢◌, ◌⊎◌, refl, sym, ap, fun_ext, ◌∙◌, true, false, Option, none,
  some, List, [], ◌∷◌, arith, ◌==◌, inl, length,
}
use filesys.Bytes.{Buffer, clip, zeros, word, set_word, word-zeros, clip-zeros}
use filesys.Outcome.{Run, Ensures, Ensures-mono, Ensures-bind, Ensures-if}
use filesys.Os.{Os, IsPosix}
use filesys.Block.{Addressable, block_at}
use filesys.Fs.State.{Filesystem}
use filesys.Fs.Cache.{SameMemory, read_block_lem, write_block_lem}
use filesys.Fs.Blocks.{first_slot, fill_slot, append_node, free_walk}
use filesys.Fs.FreeList.{Disk, IsChain, IsChain-set}
use filesys.Fs.FreeList.Slots.{first_slot-some}
use filesys.Fs.FreeList.More.{next-set, More, More-slot, More-node, More-cons}

module _ ⦃os : Os⦄ (px : IsPosix os) where
  pub SameMemory-trans :
      {a b c : Filesystem} → SameMemory px a b → SameMemory px b c → SameMemory px a c
  SameMemory-trans p q = record { cache = q.cache ∙ p.cache; super = q.super ∙ p.super }

  -- A walk from the first of `ks` on has added block `n` to the list from there on.
  pub record Extended (d : Disk) (fs : Filesystem) (k : ℕ) (ks : List ℕ) (n : ℕ) (fs' : Filesystem)
      : Type 0 where
    pub nodes : List ℕ
    pub chain : IsChain (block_at px fs'.os_state) k nodes
    pub more : More d (block_at px fs'.os_state) ks nodes n
    pub inside : (j : ℕ) → has j nodes ≡ true → (has j ks ≡ true) ⊎ (j ≡ n)
    pub others : (j : ℕ) → has j ks ≡ false → j ≢ n → block_at px fs'.os_state j ≡ d j
    pub memory : SameMemory px fs fs'

  pub append_node-Extended :
      (n k : ℕ) (d : Disk) (fs : Filesystem)
      → block_at px fs.os_state ≡ d
      → IsChain d k (k ∷ [])
      → Addressable n
      → 0 < n
      → k ≢ n
      → Ensures
          (λ _. Extended d fs k (k ∷ []) n)
          (λ fs'. SameMemory px fs fs')
          (append_node n k (d k) fs)
  unfolding append_node
  append_node-Extended n k d fs same c small pos ne =
      Ensures-bind (write_block_lem px k (set_word (d k) 0 n) fs c.2)
        (λ _ mid (self, kept, others).
          Ensures-mono (write_block_lem px n zeros mid small)
            (λ _ fs' (new, kept', others').
              let e = block_at px fs'.os_state in
              let at_k : e k ≡ clip (set_word (d k) 0 n) = others' k (ground arith) ∙ self in
              let next : word (e k) 0 ≡ n =
                ap (λ b. word b 0) at_k ∙ next-set (d k) n (omega arith) in
              let end : word (e n) 0 ≡ 0 = ap (λ b. word b 0) (new ∙ clip-zeros) ∙ word-zeros 0 in
              record {
                nodes = k ∷ n ∷ [];
                chain = (refl, c.1, c.2, ground arith, (next, pos, small, refl, end));
                more = More-node d e k n (omega arith) at_k new;
                inside = λ j m. ground arith;
                others = λ j out diff.
                    others' j (λ eq. diff (sym eq))
                    ∙ others j (ground arith)
                    ∙ ap (λ (x : Disk). x j) same;
                memory = SameMemory-trans kept kept';
              })
            λ fs' (kept', others'). SameMemory-trans kept kept')
        λ mid (kept, others). kept

  -- A node whose slots are full, in front of a list that a walk has extended.
  pub Extended-cons :
      (n k j : ℕ) (ks : List ℕ) (d : Disk) (fs fs' : Filesystem)
      → IsChain d k (k ∷ ks)
      → word (d k) 0 ≡ j
      → k ≢ n
      → Extended d fs j ks n fs'
      → Extended d fs k (k ∷ ks) n fs'
  Extended-cons n k j ks d fs fs' c link ne x =
      let at_k = x.others k c.3 ne in
      record {
        nodes = k ∷ x.nodes;
        chain = (refl, c.1, c.2, ground (arith, x.inside k, c.3), rw (at_k, link) x.chain);
        more = More-cons d (block_at px fs'.os_state) k ks x.nodes n at_k x.more;
        inside = λ i m. ground (arith, x.inside i);
        others = λ i out diff. x.others i (ground arith) diff;
        memory = x.memory;
      }

  -- One node of the walk: its first empty slot is filled, or the rest of the walk extends the list.
  pub fill_slot-Extended :
      (o : Option ℕ) (n k : ℕ) (ks : List ℕ) (d : Disk) (fs : Filesystem)
      (next : Run Filesystem (Unit {0}))
      → first_slot (λ i. word (d k) i == 0) ≡ o
      → block_at px fs.os_state ≡ d
      → IsChain d k (k ∷ ks)
      → Addressable n
      → Ensures (λ _. Extended d fs k (k ∷ ks) n) (λ fs'. SameMemory px fs fs') (next fs)
      → Ensures
          (λ _. Extended d fs k (k ∷ ks) n)
          (λ fs'. SameMemory px fs fs')
          (fill_slot o n k (d k) next fs)
  unfolding fill_slot
  fill_slot-Extended (some i) n k ks d fs next found same c small walk =
      let slot = first_slot-some _ i found in
      Ensures-mono (write_block_lem px k (set_word (d k) i n) fs c.2)
        (λ _ fs' (self, kept, others).
          let e = block_at px fs'.os_state in
          let others' = λ (j : ℕ) (ne : k ≢ j). others j ne ∙ ap (λ (x : Disk). x j) same in
          record {
            nodes = k ∷ ks;
            chain = IsChain-set d e k k ks i n (omega arith) slot.0 self others' c;
            more =
                More-slot d e k ks i n c.3 (omega arith) slot.0 slot.1 (ground (arith, slot.2)) self
                  others';
            inside = λ j m. inl m;
            others = λ j out ne. others' j (ground arith);
            memory = kept;
          })
        λ fs' (kept, others). kept
  fill_slot-Extended none n k ks d fs next found same c small walk = walk

  pub Extended-moved :
      {d : Disk} {k n : ℕ} {ks : List ℕ} {fs mid fs' : Filesystem}
      → SameMemory px fs mid
      → Extended d mid k ks n fs'
      → Extended d fs k ks n fs'
  Extended-moved kept x = record {
    nodes = x.nodes;
    chain = x.chain;
    more = x.more;
    inside = x.inside;
    others = x.others;
    memory = SameMemory-trans kept x.memory;
  }

  -- The rest of the walk behind node `k`: the end of the list, or the next node.
  walk_rest :
      (fuel n k : ℕ) (ks : List ℕ) (d : Disk) (fs : Filesystem)
      → block_at px fs.os_state ≡ d
      → IsChain d k (k ∷ ks)
      → suc (length ks) < suc (suc fuel)
      → Addressable n
      → 0 < n
      → has n (k ∷ ks) ≡ false
      → ((j : ℕ) (js : List ℕ)
          → IsChain d j (j ∷ js)
          → suc (length js) < suc fuel
          → has n (j ∷ js) ≡ false
          → Ensures
              (λ _. Extended d fs j (j ∷ js) n)
              (λ fs'. SameMemory px fs fs')
              (free_walk (suc fuel) n j k (d k) fs))
      → Ensures
          (λ _. Extended d fs k (k ∷ ks) n)
          (λ fs'. SameMemory px fs fs')
          (free_walk (suc fuel) n (word (d k) 0) k (d k) fs)
  unfolding free_walk
  walk_rest fuel n k [] d fs same c enough small pos out ih =
      rw c.4
        (append_node-Extended n k d fs same (refl, c.1, c.2, c.3, c.4) small pos (ground arith))
  walk_rest fuel n k (j ∷ js) d fs same c enough small pos out ih =
      let link = c.4.0 in
      rw link (
        Ensures-mono (ih j js (refl, c.4.1, c.4.2, c.4.3, c.4.4) (omega arith) (ground arith))
          (λ _ fs' x. Extended-cons n k j (j ∷ js) d fs fs' c link (ground arith) x) λ fs' x. x)

  -- The walk from node `k` on extends the list from there by block `n`, and ends within its fuel.
  pub free_walk-Extended :
      (fuel n prev : ℕ) (index : Buffer) (d : Disk) (k : ℕ) (ks : List ℕ) (fs : Filesystem)
      → block_at px fs.os_state ≡ d
      → IsChain d k (k ∷ ks)
      → suc (length ks) < fuel
      → Addressable n
      → 0 < n
      → has n (k ∷ ks) ≡ false
      → Ensures
          (λ _. Extended d fs k (k ∷ ks) n)
          (λ fs'. SameMemory px fs fs')
          (free_walk fuel n k prev index fs)
  unfolding free_walk
  free_walk-Extended zero n prev index d k ks fs same c enough small pos out = absurd (omega arith)
  free_walk-Extended (suc zero) n prev index d k ks fs same c enough small pos out =
      absurd (omega arith)
  free_walk-Extended (suc (suc fuel)) n prev index d k ks fs same c enough small pos out =
      Ensures-if (k == 0) _ _ (λ e. absurd (ground (arith, c.1)))
        λ _.
          Ensures-bind (read_block_lem px k fs c.2)
            (λ got mid (content, kept, blocks).
              let same' : block_at px mid.os_state ≡ d = fun_ext blocks ∙ same in
              rw (content ∙ ap (λ (x : Disk). x k) same) (
                Ensures-mono
                  (fill_slot-Extended (first_slot (λ i. word (d k) i == 0)) n k ks d mid _ refl
                    same' c small
                    (walk_rest fuel n k ks d mid same' c enough small pos out λ j js c' less out'.
                      free_walk-Extended (suc fuel) n k (d k) d j js mid same' c' less small pos
                        out'))
                  (λ _ fs' x. Extended-moved kept x) λ fs' x. SameMemory-trans kept x))
            λ mid (kept, blocks). kept
