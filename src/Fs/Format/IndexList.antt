-- ===== src/Fs/Format/IndexList.antt =====
-- src/fs.c: the nodes that `format_fs` writes form the list of free blocks.
use filesys.Prelude.{
  range, has-range, ℕ, zero, suc, ◌+◌, ◌-◌, ◌*◌, ◌^◌, ◌≤◌, ◌<◌, ◌≡◌, inl, inr, refl, sym, ap, subst,
  ◌∙◌, ◌&&◌, arith, ltb, leb, ◌==◌, if◌then◌else◌, Bool-cases,
}
use filesys.Bytes.{Buffer, zeros, clip, word, word-zeros, clip-zeros}
use filesys.Fs.FreeList.{Disk, slots_count, node_count, free_count, IsChain}
use filesys.Fs.FreeList.Slots.{node_count-zeros}
use filesys.Fs.Format.{next_node}
use filesys.Fs.Format.Filling.{IsNode}

-- Whether `low ≤ a < high`, as a number.
abbrev pub within : (low high a : ℕ) → ℕ
within low high a = if leb low a && ltb a high then 1 else 0

-- A run of slots with consecutive numbers holds each number of the run once.
slots_count-run :
    (rounds i c : ℕ) (b : Buffer) (a : ℕ)
    → ((j : ℕ) → i ≤ j → j < i + rounds → word b j + 1 ≡ c + j)
    → slots_count rounds i b a ≡ within (c + i) (c + i + rounds) (a + 1)
unfolding slots_count
slots_count-run zero i c b a h = ground arith
slots_count-run (suc n) i c b a h = ground (
  arith,
  h i (omega arith) (omega arith),
  slots_count-run n (i + 1) c b a (λ j p q. h j (omega arith) (omega arith)),
)

IsNode-count :
    (head first_free k : ℕ) (b : Buffer) (a : ℕ)
    → IsNode head first_free k b
    → node_count b a ≡ within (first_free + 63 * (k - head)) (first_free + 63 * (k - head) + 63) a
unfolding node_count
IsNode-count head first_free k b a n =
    ground (arith, slots_count-run 63 1 (first_free + 63 * (k - head)) b a n.entries)

next_node-eq :
    (first_free n start : ℕ)
    → start + suc n ≡ first_free
    → next_node first_free start ≡ (if n == 0 then 0 else start + 1)
unfolding next_node
next_node-eq first_free n start e = ground arith

-- The nodes before `full` are full, and those behind have no entry.
pub record IsIndex (head first_free full : ℕ) (d : Disk) : Type 0 where
  pub bound : full ≤ first_free
  pub nodes : (k : ℕ) → head ≤ k → k < full → IsNode head first_free k (d k)
  pub last : (k : ℕ) → full ≤ k → k < first_free → (d k ≡ clip zeros) × (k + 1 ≡ first_free)

module _ (head first_free full : ℕ) (d : Disk) (x : IsIndex head first_free full d) where
  next_word : (k : ℕ) → head ≤ k → k < first_free → word (d k) 0 ≡ next_node first_free k
  unfolding next_node
  next_word k p q = elim (Bool-cases (ltb k full)) [
    | inl l ↦ (x.nodes k p (ground (arith, l))).next
    | inr g ↦
        let (e, end) = x.last k (ground (arith, g)) q in
        ap (λ b. word b 0) (e ∙ clip-zeros) ∙ word-zeros 0 ∙ ground (arith, end)
  ]

  -- The nodes from `start` on are a chain.
  pub index-IsChain :
      (n start : ℕ)
      → 0 < start
      → head ≤ start
      → start + n ≡ first_free
      → first_free ≤ 2 ^ 55
      → IsChain d (if n == 0 then 0 else start) (range n start)
  unfolding range
  index-IsChain zero start p l e small = refl
  index-IsChain (suc n) start p l e small = (
    ground arith,
    p,
    omega arith,
    ground (arith, has-range n (start + 1) start),
    subst (λ k. IsChain d k (range n (start + 1)))
        (sym (next_word start l (omega arith) ∙ next_node-eq first_free n start e))
        (index-IsChain n (start + 1) (omega arith) (omega arith) (omega arith) small),
  )

  pub index-free_count :
      (n start a : ℕ)
      → 0 < a
      → head ≤ start
      → start + n ≡ first_free
      → free_count d (range n start) a
        ≡ within start (start + n) a
          + within (first_free + 63 * (start - head)) (first_free + 63 * (full - head)) a
  unfolding range free_count
  index-free_count zero start a pos l e = ground (arith, x.bound)
  index-free_count (suc n) start a pos l e = elim (Bool-cases (ltb start full)) [
    | inl in_full ↦ ground (
      arith,
      IsNode-count head first_free start (d start) a (x.nodes start l (ground (arith, in_full))),
      index-free_count n (start + 1) a pos (omega arith) (omega arith),
    )
    | inr behind ↦
        let (e', end) = x.last start (ground (arith, behind)) (omega arith) in
        ground (
          arith,
          ap (λ b. node_count b a) e' ∙ node_count-zeros a pos,
          index-free_count n (start + 1) a pos (omega arith) (omega arith),
        )
  ]
