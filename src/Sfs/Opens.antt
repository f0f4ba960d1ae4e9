-- ===== src/Sfs/Opens.antt =====
-- src/sfs.c: the descriptor that `sfs_create` and `sfs_open` end with.
use filesys.Prelude.{ℕ, ◌≡◌, refl, sym, subst, true, false, Option, none, some, List, inl}
use filesys.Outcome.{Outcome, Ensures, returns, Ensures-bind, Ensures-attempt, fails}
use filesys.Os.{Os, IsPosix}
use filesys.Block.{block_at}
use filesys.Block.Laws.{block_at-malloc}
use filesys.Fs.State.{Filesystem}
use filesys.Fs.Cache.{SameMemory}
use filesys.Filedescriptor.{Pool, Slot, used, allocate}
use filesys.Filedescriptor.Chain.{IsPool}
use filesys.Filedescriptor.Allocate.{Allocated, allocate_lem}
use filesys.Sfs.State.{
  value, Sfs, leave, lift, with_pool, slab_memory, allocate_fd, fill_fd, open_fd,
}
use filesys.Sfs.Files.{leave_open}
use filesys.Sfs.Calls.{lift-returns}

module _ ⦃os : Os⦄ (px : IsPosix os) where
  -- The file system has only called `malloc`.
  pub record IsCalm (fs fs' : Filesystem) : Type 0 where
    pub memory : SameMemory px fs fs'
    pub blocks : (j : ℕ) → block_at px fs'.os_state j ≡ block_at px fs.os_state j

  module _ (memory : (s : os.State) → (os.malloc s).0 ≡ true) where
    slab_memory-IsCalm :
        (o : Option ℕ) (fs : Filesystem)
        → Ensures (λ given fs'. (given ≡ true) × IsCalm fs fs') (λ _. ⊥) (slab_memory o fs)
    unfolding slab_memory
    slab_memory-IsCalm (some a) fs =
        returns
          (refl, record { memory = record { cache = refl; super = refl }; blocks = λ j. refl })
    slab_memory-IsCalm none fs = returns (
      memory fs.os_state,
      record {
        memory = record { cache = refl; super = refl };
        blocks = block_at-malloc px fs.os_state;
      },
    )

    with_pool-returns :
        {P : ℕ → Pool → Type 0} {R : ℕ → Sfs → Type 0} (s : Sfs) {o : Outcome Pool ℕ}
        → Ensures P (λ _. ⊥) o
        → ((a : ℕ) (p : Pool) → P a p → R a (record s { pool = p }))
        → Ensures R (λ _. ⊥) (with_pool s o)
    unfolding with_pool
    with_pool-returns s (returns h) go = returns (go _ _ h)
    with_pool-returns s (fails impossible) go = absurd impossible

    allocate_fd-IsCalm :
        (s : Sfs) (ks : List ℕ)
        → IsPool s.pool ks
        → Ensures
            (λ a s'.
              IsCalm s.fs s'.fs
              × (s'.pool.slot a ≡ used (record { fd = a; inumber = none; flags = none })))
            (λ _. ⊥)
            (allocate_fd s)
    unfolding allocate_fd lift
    allocate_fd-IsCalm s ks pool =
        lift-returns s _ (slab_memory-IsCalm s.pool.freelist s.fs) λ given fs (e, calm).
          with_pool-returns (record s { fs = fs })
            (subst
              (λ g.
                Ensures (λ a p'. (ns : List ℕ) × Allocated s.pool ns a p') (λ _. ⊥)
                  (allocate g s.pool))
              (sym e) (allocate_lem true s.pool ks pool (inl refl)))
            λ a p (ns, allocated). (calm, allocated.own)

    open_fd-IsCalm :
        (inumber flags : ℕ) (s : Sfs) (ks : List ℕ)
        → IsPool s.pool ks
        → Ensures (λ fh s'. IsCalm s.fs s'.fs) (λ _. ⊥) (open_fd inumber flags s)
    unfolding open_fd fill_fd
    open_fd-IsCalm inumber flags s ks pool =
        Ensures-bind (allocate_fd-IsCalm s ks pool)
          (λ a s' (calm, own).
            subst
              (λ (x : Slot).
                Ensures (λ fh s''. IsCalm s.fs s''.fs) (λ _. ⊥) (fill_fd a inumber flags x s'))
              (sym own) (returns calm))
          λ _ impossible. impossible

    -- With memory, a well-formed pool always has a descriptor.
    pub leave_open-IsCalm :
        (inumber flags : ℕ) (s : Sfs) (ks : List ℕ)
        → IsPool s.pool ks
        → Ensures
            (λ r s'. (r.0 ≡ value 0) × (s'.locked ≡ false) × IsCalm s.fs s'.fs)
            (λ _. ⊥)
            (leave_open inumber flags s)
    unfolding leave_open leave
    leave_open-IsCalm inumber flags s ks pool =
        Ensures-attempt (open_fd inumber flags) _ _ s (open_fd-IsCalm inumber flags s ks pool)
          (λ fh s' calm. returns (refl, refl, calm)) λ _ impossible. absurd impossible
