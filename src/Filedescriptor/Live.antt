-- ===== src/Filedescriptor/Live.antt =====
-- The live descriptors of a pool, and a new pool, which has none.
use filesys.Prelude.{range, has-range, ℕ, ◌<◌, ◌≡◌, refl, Bool, true, false, ◌&&◌, some, arith, ltb}
use filesys.Filedescriptor.{Slot, free, used, Pool, slots_per_slab, total, init_slab, pool_init}
use filesys.Filedescriptor.Chain.{IsPool, new_slab-IsFreelist}

unfoldable pub is_used : Slot → Bool
is_used (free fd next) = false
is_used (used s) = true

-- Descriptor `k` is handed out.
unfoldable pub live : Pool → ℕ → Bool
live p k = ltb k (total p) && is_used (p.slot k)

pub slots_per_slab-pos : 0 < slots_per_slab
unfolding slots_per_slab
slots_per_slab-pos = omega arith

-- With memory for both, `sfs_filedescriptor_pool_init` returns a pool with no live descriptor, whose
-- free list is its whole slab in order, whatever the memory held.
pub pool_init_lem :
    (m : ℕ → Slot)
    → (p : Pool) × (pool_init true true m ≡ some p)
      × IsPool p (range slots_per_slab 0)
      × ((j : ℕ) → live p j ≡ false)
unfolding pool_init live init_slab is_used
pool_init_lem m = (
  record { slabs = 1; slot = init_slab 0 slots_per_slab m; freelist = some 0 },
  refl,
  record {
    slabs = omega arith;
    list = new_slab-IsFreelist 0 slots_per_slab m slots_per_slab-pos;
    inside = λ k h. ground (arith, has-range slots_per_slab 0 k);
    rest = λ k l out. absurd (ground (arith, has-range slots_per_slab 0 k));
  },
  λ j. ground arith,
)
