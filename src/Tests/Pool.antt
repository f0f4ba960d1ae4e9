-- ===== src/Tests/Pool.antt =====
-- A pool of one slab whose descriptors are all handed out.
use filesys.Prelude.{
  range, ℕ, ◌-◌, ◌≡◌, refl, true, false, inl, none, some, [], List, arith, ltb, if◌then◌else◌, ℕ,
}
use filesys.Outcome.{Ensures, done}
use filesys.Filedescriptor.Deinit.{deinit, deinit_lem}
use filesys.Filedescriptor.{
  Slot, free, used, Pool, pool_init, total, slots_per_slab, allocate, get_from_fd,
}
use filesys.Filedescriptor.Chain.{IsPool}
use filesys.Filedescriptor.Live.{live, is_used, pool_init_lem}
use filesys.Filedescriptor.Allocate.{Allocated, allocate_lem}
use filesys.Filedescriptor.Free.{Freed, free_fd_lem, get_from_fd_lem}

abbrev pub full : Pool
full = record {
  slabs = 1;
  slot = λ k. used (record { fd = k; inumber = some 2; flags = some 0 });
  freelist = none;
}

pub full-IsPool : IsPool full []
full-IsPool = record {
  slabs = omega arith;
  list = refl;
  inside = λ k h. cc;
  rest = λ k l out. (record { fd = k; inumber = some 2; flags = some 0 }, refl, refl);
}

allocate_lem_example :
    Ensures (λ a p'. (ns : List ℕ) × Allocated full ns a p') (λ _. ⊥) (allocate true full)
allocate_lem_example = allocate_lem true full [] full-IsPool (inl refl)

three-live : live full 3 ≡ true
unfolding live is_used slots_per_slab
three-live = refl

free_fd_lem_example : Freed full [] 3
free_fd_lem_example = free_fd_lem full [] 3 full-IsPool three-live

get_from_fd_lem_example :
    get_from_fd 5000 full ≡ (if ltb 5000 (total full) then some 5000 else none)
get_from_fd_lem_example = get_from_fd_lem 5000 full

abbrev garbage : ℕ → Slot
garbage k = free 7 none

pool_init_lem_example :
    (p : Pool) × (pool_init true true garbage ≡ some p)
    × IsPool p (range slots_per_slab 0)
    × ((j : ℕ) → live p j ≡ false)
pool_init_lem_example = pool_init_lem garbage

abbrev three_slabs : Pool
three_slabs = record { slabs = 3; slot = garbage; freelist = none }

deinit_lem_example : deinit three_slabs ≡ done (range (3 - 1) 0) (3 - 1)
deinit_lem_example = deinit_lem three_slabs (omega arith)
