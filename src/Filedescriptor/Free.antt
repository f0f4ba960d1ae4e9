-- ===== src/Filedescriptor/Free.antt =====
-- `sfs_filedescriptor_free` and `sfs_filedescriptor_get_from_fd` on the set of live descriptors.
use filesys.Prelude.{
  has, ℕ, zero, suc, ◌/◌, ◌≡◌, ◌≢◌, refl, true, false, not, ◌&&◌, Option, none, some, List, [], ◌∷◌,
  arith, ltb, ◌==◌, if◌then◌else◌,
}
use filesys.Filedescriptor.{
  Slot, Pool, slots_per_slab, total, set_slot, reaches_slab, get_from_fd, fd_of, free_fd,
}
use filesys.Filedescriptor.Chain.{IsFreelist, IsPool, IsFreelist-ext}
use filesys.Filedescriptor.Live.{is_used, live}

-- What giving back descriptor `a` does.
pub record Freed (p : Pool) (ks : List ℕ) (a : ℕ) : Type 0 where
  pub pool : IsPool (free_fd a p) (a ∷ ks)
  pub lives : (j : ℕ) → live (free_fd a p) j ≡ live p j && not (j == a)
  pub kept : (j : ℕ) → j ≢ a → (free_fd a p).slot j ≡ p.slot j
  pub next : (free_fd a p).freelist ≡ some a

free-not_used :
    (m : ℕ → Slot) (head : Option ℕ) (ks : List ℕ) (k : ℕ)
    → IsFreelist m head ks
    → has k ks ≡ true
    → is_used (m k) ≡ false
unfolding is_used
free-not_used m head [] k c h = cc
free-not_used m head (n ∷ ns) k (e, out, (next, at, rest)) h =
    ground (arith, at, free-not_used m next ns k rest)

live-not_free : (p : Pool) (ks : List ℕ) (a : ℕ) → IsPool p ks → live p a ≡ true → has a ks ≡ false
unfolding live
live-not_free p ks a v h = ground (arith, free-not_used p.slot p.freelist ks a v.list)

-- `sfs_filedescriptor_free` of a live descriptor makes exactly that one not live, keeps every other
-- slot and the invariant, and the descriptor is the next that is handed out.
pub free_fd_lem : (p : Pool) (ks : List ℕ) (a : ℕ) → IsPool p ks → live p a ≡ true → Freed p ks a
unfolding free_fd live set_slot is_used fd_of
free_fd_lem p ks a v h =
    let out = live-not_free p ks a v h in
    let (r, at, number) = v.rest a (ground arith) out in
    record {
      pool = record {
        slabs = v.slabs;
        list = (
          refl,
          out,
          (
            p.freelist,
            ground (arith, at, number),
            IsFreelist-ext p.slot (free_fd a p).slot p.freelist ks (λ k m. ground arith) v.list,
          ),
        );
        inside = λ k m. ground (arith, v.inside k);
        rest = λ k l out'.
            let ne : (k == a) ≡ false = ground arith in rw ne (v.rest k l (ground arith));
      };
      lives = λ j. ground arith;
      kept = λ j ne. ground arith;
      next = refl;
    }

reaches_slab_lem : (i n : ℕ) → reaches_slab i n ≡ ltb i n
unfolding reaches_slab
reaches_slab_lem zero zero = refl
reaches_slab_lem zero (suc n) = ground arith
reaches_slab_lem (suc i) zero = ground arith
reaches_slab_lem (suc i) (suc n) = ground (arith, reaches_slab_lem i n)

-- `sfs_filedescriptor_get_from_fd` returns the slot of a number below the number of slots, live or
-- not, and NULL for every other.
pub get_from_fd_lem :
    (fd : ℕ) (p : Pool) → get_from_fd fd p ≡ (if ltb fd (total p) then some fd else none)
unfolding get_from_fd slots_per_slab
get_from_fd_lem fd p = ground (arith, reaches_slab_lem (fd / 4088) p.slabs)
