-- ===== src/Fs/Format/Filling.antt =====
-- src/fs.c: a node of the list of free blocks, as the loop of `format_fs` fills it: the entries of
-- the node after `n` others are the 63 numbers from `first_free + 63 * n` on.
use filesys.Prelude.{
  ℕ, ◌+◌, ◌-◌, ◌*◌, ◌^◌, ◌≤◌, ◌<◌, ◌≡◌, inl, inr, sym, subst, ◌∙◌, arith, ◌==◌, if◌then◌else◌,
  Bool-cases,
}
use filesys.Bytes.{Buffer, clip, word, set_word, word-set_word, word-clip}
use filesys.Fs.Format.{Index, advance, begin_node, add_entry, next_node}

-- The node as it is when it is full.
pub record IsNode (head first_free node : ℕ) (b : Buffer) : Type 0 where
  pub next : word b 0 ≡ next_node first_free node
  pub entries : (j : ℕ) → 1 ≤ j → j < 64 → word b j + 1 ≡ first_free + 63 * (node - head) + j

-- The node as it is before block `i` is put in.
pub record Filling (head first_free i : ℕ) (x : Index) : Type 0 where
  pub low : head ≤ x.node
  pub started : 1 ≤ x.position
  pub bound : x.position ≤ 64
  pub here : i + 1 ≡ first_free + 63 * (x.node - head) + x.position
  pub next : word x.contents 0 ≡ next_node first_free x.node
  pub entries :
      (j : ℕ)
      → 1 ≤ j
      → j < x.position
      → word x.contents j + 1 ≡ first_free + 63 * (x.node - head) + j

abbrev pub opened : ℕ → Index → Index
opened first_free x = begin_node first_free (advance x)

-- The node behind those that are written.
abbrev pub written : Index → ℕ
written x = if x.position == 64 then x.node + 1 else x.node

module _ (head first_free : ℕ) where
  next_node-lt : (k : ℕ) → first_free ≤ 2 ^ 55 → next_node first_free k < 2 ^ 64
  unfolding next_node
  next_node-lt k h = ground arith

  begun-Filling :
      (node : ℕ) (b : Buffer) (i : ℕ)
      → first_free ≤ 2 ^ 55
      → head ≤ node
      → i ≡ first_free + 63 * (node - head)
      → Filling head first_free i (record {
        node = node;
        position = 1;
        contents = set_word b 0 (next_node first_free node);
      })
  begun-Filling node b i small low e = record {
    low = low;
    started = omega arith;
    bound = omega arith;
    here = omega arith;
    next = word-set_word b 0 _ 0 (next_node-lt node small) ∙ ground arith;
    entries = λ j p q. absurd (omega arith);
  }

  opened-full :
      (x : Index)
      → x.position ≡ 64
      → opened first_free x ≡ record {
        node = x.node + 1;
        position = 1;
        contents = set_word x.contents 0 (next_node first_free (x.node + 1));
      }
  unfolding begin_node advance
  opened-full x full = ground (arith, full)

  opened-short : (x : Index) → 1 ≤ x.position → x.position < 64 → opened first_free x ≡ x
  unfolding begin_node advance
  opened-short x p q = ground arith

  -- A node in which there is room for block `i`.
  pub record Ready (i : ℕ) (y : Index) : Type 0 where
    pub filling : Filling head first_free i y
    pub short : y.position < 64

  pub Filling-opened :
      (i : ℕ) (x : Index)
      → first_free ≤ 2 ^ 55
      → Filling head first_free i x
      → Ready i (opened first_free x) × ((opened first_free x).node ≡ written x)
  Filling-opened i x small f = elim (Bool-cases (x.position == 64)) [
    | inl full ↦
        subst (λ (y : Index). Ready i y × (y.node ≡ written x))
          (sym (opened-full x (ground (arith, full))))
          (
            record {
              filling =
                  begun-Filling (x.node + 1) x.contents i small (omega (arith, f.low))
                    (ground (arith, full, f.here, f.low));
              short = omega arith;
            },
            ground (arith, full),
          )
    | inr part ↦
        subst (λ (y : Index). Ready i y × (y.node ≡ written x))
          (sym (opened-short x f.started (ground (arith, part, f.bound))))
          (record { filling = f; short = ground (arith, part, f.bound) }, ground (arith, part))
  ]

  pub opened-fresh :
      (b : Buffer)
      → first_free ≤ 2 ^ 55
      → Ready first_free (opened first_free (record { node = head; position = 0; contents = b }))
  unfolding begin_node advance
  opened-fresh b small = record {
    filling = begun-Filling head b first_free small (omega arith) (omega arith);
    short = omega arith;
  }

  pub add_entry-Filling :
      (i : ℕ) (x : Index)
      → i < 2 ^ 64
      → Filling head first_free i x
      → x.position < 64
      → Filling head first_free (i + 1) (add_entry i x)
  unfolding add_entry
  add_entry-Filling i x small f short = record {
    low = f.low;
    started = omega arith;
    bound = omega arith;
    here = omega (arith, f.here);
    next = word-set_word x.contents x.position i 0 small ∙ ground (arith, f.started, f.next);
    entries = λ j p q.
        ground (arith, word-set_word x.contents x.position i j small, f.entries j p, f.here);
  }

  pub Filling-IsNode :
      (i : ℕ) (x : Index)
      → Filling head first_free i x
      → x.position ≡ 64
      → IsNode head first_free x.node (clip x.contents)
  Filling-IsNode i x f full = record {
    next = word-clip x.contents 0 (omega arith) ∙ f.next;
    entries = λ j p q. omega (arith, word-clip x.contents j q, f.entries j p (omega (arith, full)));
  }
