-- ===== src/Filedescriptor/Deinit.antt =====
-- src/filedescriptor.c: `sfs_filedescriptor_pool_deinit`. Slabs are linked in the order of their
-- numbers, and what `free` does to memory is the list of slabs that it is called on.
use filesys.Prelude.{
  ℕ, zero, suc, ◌+◌, ◌-◌, ◌<◌, ◌≡◌, ap, List, [], ◌∷◌, range, arith, false, leb, if◌then◌else◌,
}
use filesys.Outcome.{Outcome, done, aborted}
use filesys.Filedescriptor.{Pool}

-- The loop with `left` slabs behind the head: the slabs that it frees, and the head that it leaves.
unfoldable pub free_slabs : (left head : ℕ) → List ℕ × ℕ
free_slabs zero head = ([], head)
free_slabs (suc left) head = let (freed, last) = free_slabs left (head + 1) in (head ∷ freed, last)

-- `sfs_filedescriptor_pool_deinit`: the slabs that are freed, and the slab that the pool then begins
-- with. A pool without a slab fails the assertion.
unfoldable pub deinit : Pool → Outcome ℕ (List ℕ)
unfolding free_slabs
deinit p =
    if leb p.slabs 0
    then aborted
    else (let (freed, last) = free_slabs (p.slabs - 1) 0 in done freed last)

free_slabs_lem : (left head : ℕ) → free_slabs left head ≡ (range left head, head + left)
unfolding free_slabs range
free_slabs_lem zero head = let e : head ≡ head + 0 = omega arith in ap (λ (n : ℕ). ([], n)) e
free_slabs_lem (suc left) head =
    let e : head + 1 + left ≡ head + suc left = omega arith in
    rw (free_slabs_lem left (head + 1)) (ap (λ n. (head ∷ range left (head + 1), n)) e)

-- `sfs_filedescriptor_pool_deinit` of a pool with `n + 1` slabs frees the first `n` in order, each once, and
-- leaves the last.
pub deinit_lem : (p : Pool) → 0 < p.slabs → deinit p ≡ done (range (p.slabs - 1) 0) (p.slabs - 1)
unfolding deinit
deinit_lem p h =
    let some_slab : leb p.slabs 0 ≡ false = ground (arith, h) in
    let e : 0 + (p.slabs - 1) ≡ p.slabs - 1 = omega arith in
    rw some_slab (rw (free_slabs_lem (p.slabs - 1) 0) (ap (λ n. done (range (p.slabs - 1) 0) n) e))
