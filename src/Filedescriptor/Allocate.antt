-- ===== src/Filedescriptor/Allocate.antt =====
-- `sfs_filedescriptor_allocate` on the set of live descriptors.
use filesys.Prelude.{
  has, range, has-range, ℕ, zero, suc, ◌+◌, ◌-◌, ◌*◌, ◌<◌, ◌≡◌, ◌≢◌, ◌⊎◌, refl, sym, ap, subst, ◌∙◌,
  Bool, true, false, ◌||◌, Option, none, some, List, [], ◌∷◌, arith, ◌==◌, inl, inr, Bool-cases,
  lt→ltb,
}
use filesys.Outcome.{failed, Ensures, Ensures-mono, returns}
use filesys.Filedescriptor.{
  free, used, Pool, slots_per_slab, total, init_slab, set_slot, take_node, count_fds, grow,
  allocate_free, allocate_from, allocate,
}
use filesys.Filedescriptor.Chain.{IsFreelist, IsUsedAs, IsPool, IsFreelist-ext, new_slab-IsFreelist}
use filesys.Filedescriptor.Live.{is_used, live, slots_per_slab-pos}

-- What handing out descriptor `a` does.
pub record Allocated (p : Pool) (ks : List ℕ) (a : ℕ) (p' : Pool) : Type 0 where
  pub pool : IsPool p' ks
  pub fresh : live p a ≡ false
  pub lives : (j : ℕ) → live p' j ≡ (j == a) || live p j
  pub own : p'.slot a ≡ used (record { fd = a; inumber = none; flags = none })
  pub kept : (j : ℕ) → live p j ≡ true → p'.slot j ≡ p.slot j

module _ (p : Pool) (a : ℕ) (ks : List ℕ) (v : IsPool p (a ∷ ks)) where
  taken : Option ℕ → Pool
  taken next = record p {
    slot = set_slot a (used (record { fd = a; inumber = none; flags = none })) p.slot;
    freelist = next;
  }

  taken-Allocated :
      (next : Option ℕ)
      → p.slot a ≡ free a next
      → IsFreelist p.slot next ks
      → Allocated p ks a (taken next)
  unfolding taken live set_slot is_used
  taken-Allocated next at rest = record {
    pool = record {
      slabs = v.slabs;
      list = IsFreelist-ext p.slot (taken next).slot next ks (λ k m. ground (arith, v.list.1)) rest;
      inside = λ k m. v.inside k (ground arith);
      rest = λ k l out. elim (Bool-cases (k == a)) [
        | inl e ↦ (record { fd = a; inumber = none; flags = none }, rw e, ground arith)
        | inr ne ↦ rw ne (v.rest k l (ground arith))
      ];
    };
    fresh = ground (arith, at);
    lives = λ j. ground (arith, v.inside a (ground arith));
    own = ground arith;
    kept = λ j l. ground (arith, at);
  }

  take_node-Allocated : Ensures (Allocated p ks) (λ _. ⊥) (take_node a (p.slot a) p)
  unfolding take_node taken
  take_node-Allocated =
      let (next, at, rest) = v.list.2 in
      subst (λ s. Ensures (Allocated p ks) (λ _. ⊥) (take_node a s p)) (sym at)
        (returns (taken-Allocated next at rest))

-- With a free slot, allocation takes the first.
allocate_free-Allocated :
    (p : Pool) (ks : List ℕ)
    → IsPool p ks
    → ks ≢ []
    → Ensures (λ a p'. (ns : List ℕ) × Allocated p ns a p') (λ _. ⊥) (allocate_free p.freelist p)
unfolding allocate_free
allocate_free-Allocated p [] v ne = absurd (ne refl)
allocate_free-Allocated p (k ∷ ks) v ne =
    subst (λ o. Ensures (λ a p'. (ns : List ℕ) × Allocated p ns a p') (λ _. ⊥) (allocate_free o p))
      (sym v.list.0) (Ensures-mono (take_node-Allocated p k ks v) (λ a p' x. (ks, x)) λ _ h. h)

count_fds_lem : (n already : ℕ) → count_fds n already ≡ already + n * slots_per_slab
unfolding count_fds
count_fds_lem zero already = omega arith
count_fds_lem (suc n) already = omega (arith, count_fds_lem n (already + slots_per_slab))

module _ (p : Pool) (v : IsPool p []) where
  already-total : count_fds (p.slabs - 1) slots_per_slab ≡ total p
  already-total =
      let e : p.slabs ≡ suc (p.slabs - 1) = omega (arith, v.slabs) in
      omega (arith, count_fds_lem (p.slabs - 1) slots_per_slab, ap (λ n. n * slots_per_slab) e)

  old_slot : (k : ℕ) → k < total p → IsUsedAs k (init_slab (total p) slots_per_slab p.slot k)
  unfolding init_slab
  old_slot k h = rw (lt→ltb k (total p) h) (v.rest k h refl)

  -- A pool with no free slot, grown by a slab.
  grow-IsPool : IsPool (grow p) (range slots_per_slab (total p))
  unfolding grow
  grow-IsPool = rw already-total (record {
    slabs = omega arith;
    list = new_slab-IsFreelist (total p) slots_per_slab p.slot slots_per_slab-pos;
    inside = λ k m. ground (arith, has-range slots_per_slab (total p) k);
    rest = λ k l out. old_slot k (ground (arith, has-range slots_per_slab (total p) k));
  })

  live-grow : (j : ℕ) → live (grow p) j ≡ live p j
  unfolding grow live init_slab is_used
  live-grow j = ground (arith, already-total)

  kept-grow : (j : ℕ) → live p j ≡ true → (grow p).slot j ≡ p.slot j
  unfolding grow live init_slab
  kept-grow j h = ground (arith, already-total)

  grown-Allocated :
      (a : ℕ) (ns : List ℕ) (p' : Pool) → Allocated (grow p) ns a p' → Allocated p ns a p'
  grown-Allocated a ns p' x = record {
    pool = x.pool;
    fresh = sym (live-grow a) ∙ x.fresh;
    lives = λ j. x.lives j ∙ ap (λ b. (j == a) || b) (live-grow j);
    own = x.own;
    kept = λ j h. x.kept j (live-grow j ∙ h) ∙ kept-grow j h;
  }

new_slab-nonempty : (start : ℕ) → range slots_per_slab start ≢ []
new_slab-nonempty start e =
    ground (arith, has-range slots_per_slab start start, ap (has start) e, slots_per_slab-pos)

-- What is needed to hand out a descriptor: a free slot, or memory for a slab.
abbrev pub HasRoom : Bool → List ℕ → Type 0
HasRoom slab_memory ks = (slab_memory ≡ true) ⊎ (ks ≢ [])

allocate_from-free :
    (m : Bool) (o : Option ℕ) (p : Pool) {k : ℕ}
    → o ≡ some k
    → Ensures (λ a p'. (ns : List ℕ) × Allocated p ns a p') (λ _. ⊥) (allocate_free o p)
    → Ensures (λ a p'. (ns : List ℕ) × Allocated p ns a p') (λ _. ⊥) (allocate_from m o p)
unfolding allocate_from
allocate_from-free m none p e h = cc
allocate_from-free m (some a) p e h = h

-- With a free slot, or with memory for another slab, `sfs_filedescriptor_allocate` returns a
-- descriptor that is not live and has its slot's number. It makes exactly that one live, keeps what
-- every live descriptor holds, and keeps the invariant.
pub allocate_lem :
    (slab_memory : Bool) (p : Pool) (ks : List ℕ)
    → IsPool p ks
    → HasRoom slab_memory ks
    → Ensures (λ a p'. (ns : List ℕ) × Allocated p ns a p') (λ _. ⊥) (allocate slab_memory p)
unfolding allocate
allocate_lem m p (k ∷ ks) v room =
    allocate_from-free m p.freelist p v.list.0 (allocate_free-Allocated p (k ∷ ks) v (λ e. cc))
allocate_lem false p [] v room = elim room [ inl e ↦ cc | inr ne ↦ absurd (ne refl) ]
allocate_lem true p [] v room =
    subst
      (λ o. Ensures (λ a p'. (ns : List ℕ) × Allocated p ns a p') (λ _. ⊥) (allocate_from true o p))
      (sym v.list)
      (Ensures-mono
        (allocate_free-Allocated (grow p) (range slots_per_slab (total p)) (grow-IsPool p v)
          (λ e. new_slab-nonempty (total p) e))
        (λ a p' (ns, x). (ns, grown-Allocated p v a ns p' x)) λ _ h. h)

-- Without a free slot and without memory it returns NULL and changes nothing.
allocate-failed : (p : Pool) → IsPool p [] → allocate false p ≡ failed p
unfolding allocate
allocate-failed p v = ap (λ o. allocate_from false o p) v.list
