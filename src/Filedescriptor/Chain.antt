-- ===== src/Filedescriptor/Chain.antt =====
-- The free list of descriptors, and the pool's invariant.
use filesys.Prelude.{
  has, range, has-range, ℕ, zero, suc, ◌+◌, ◌<◌, ◌≤◌, ◌≡◌, refl, subst, ◌∙◌, true, false, Option,
  none, some, List, [], ◌∷◌, arith, ltb, if◌then◌else◌,
}
use filesys.Filedescriptor.{SfsFd, Slot, free, used, Pool, total, init_slab}

-- From `head` the nodes lead through the distinct slots `ks` to NULL, each with its own number.
abbrev pub IsFreelist : (ℕ → Slot) → Option ℕ → List ℕ → Type 0
IsFreelist slot head [] = head ≡ none
IsFreelist slot head (k ∷ ks) =
    (head ≡ some k)
    × (has k ks ≡ false)
    × ((next : Option ℕ) × (slot k ≡ free k next) × IsFreelist slot next ks)

abbrev pub IsUsedAs : ℕ → Slot → Type 0
IsUsedAs k s = (r : SfsFd) × (s ≡ used r) × (r.fd ≡ k)

-- The pool with the free slots `ks`: every other slot is a descriptor with its own number.
pub record IsPool (p : Pool) (ks : List ℕ) : Type 0 where
  pub slabs : 0 < p.slabs
  pub list : IsFreelist p.slot p.freelist ks
  pub inside : (k : ℕ) → has k ks ≡ true → k < total p
  pub rest : (k : ℕ) → k < total p → has k ks ≡ false → IsUsedAs k (p.slot k)

pub IsFreelist-ext :
    (m n : ℕ → Slot) (head : Option ℕ) (ks : List ℕ)
    → ((k : ℕ) → has k ks ≡ true → n k ≡ m k)
    → IsFreelist m head ks
    → IsFreelist n head ks
IsFreelist-ext m n head [] h c = c
IsFreelist-ext m n head (k ∷ ks) h (e, out, (next, at, rest)) = (
  e,
  out,
  (next, h k (ground arith) ∙ at, IsFreelist-ext m n next ks (λ j i. h j (ground arith)) rest),
)

-- A new slab is a free list of its slots.
init_slab-IsFreelist :
    (n start base size : ℕ) (m : ℕ → Slot)
    → base ≤ start
    → start + n ≡ base + size
    → IsFreelist
        (init_slab base size m)
        (if ltb start (base + size) then some start else none)
        (range n start)
unfolding range init_slab
init_slab-IsFreelist zero start base size m h e = ground arith
init_slab-IsFreelist (suc n) start base size m h e = (
  ground arith,
  ground (arith, has-range n (start + 1) start),
  (
    if ltb (start + 1) (base + size) then some (start + 1) else none,
    ground arith,
    init_slab-IsFreelist n (start + 1) base size m (omega arith) (omega arith),
  ),
)

pub new_slab-IsFreelist :
    (base size : ℕ) (m : ℕ → Slot)
    → 0 < size
    → IsFreelist (init_slab base size m) (some base) (range size base)
new_slab-IsFreelist base size m h =
    let e : (if ltb base (base + size) then some base else none) ≡ some base = ground arith in
    subst (λ o. IsFreelist (init_slab base size m) o (range size base)) e
      (init_slab-IsFreelist size base base size m (omega arith) refl)
