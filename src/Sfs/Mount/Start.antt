-- ===== src/Sfs/Mount/Start.antt =====
-- src/sfs.c: `sfs_init` on a disk file without a file system.
use filesys.Prelude.{
  ℕ, ◌/◌, ◌^◌, ◌<◌, ◌≡◌, ◌≢◌, refl, sym, subst, ◌∙◌, true, false, Option, none, some, List, range,
  arith,
}
use filesys.Bytes.{Buffer, zeros, clip}
use filesys.Outcome.{returns, fails, Ensures, Ensures-bind, Ensures-attempt, Ensures-if}
use filesys.Os.{Os, IsPosix}
use filesys.Block.{block_at}
use filesys.Block.Laws.{block_at-malloc}
use filesys.Filedescriptor.{Slot, Pool, pool_init, slots_per_slab}
use filesys.Filedescriptor.Chain.{IsPool}
use filesys.Filedescriptor.Live.{pool_init_lem}
use filesys.Fs.Layout.{Inode, load_superblock}
use filesys.Fs.State.{InodeCache}
use filesys.Fs.Format.{signature}
use filesys.Fs.Format.NewDisk.{IsSize, last_node}
use filesys.Fs.Open.{memory, open_disk}
use filesys.Fs.Open.NewFilesystem.{HasSize, IsNewFilesystem, open_disk-IsNewFilesystem}
use filesys.Dir.Iterate.{is_dir_mode}
use filesys.Sfs.State.{Libgen, Sfs}
use filesys.Sfs.Lookup.{getattr}
use filesys.Sfs.Ends.{Replies, getattr-Replies}
use filesys.Sfs.Mount.{Mounted, ready, without_pool, without_fs, new_pool, start, init}

module _ ⦃os : Os⦄ (px : IsPosix os) where
  abbrev SameBlocks : (s s' : os.State) → Type 0
  SameBlocks s s' = (k : ℕ) → block_at px s' k ≡ block_at px s k

  -- A pool with no descriptor handed out, or none.
  abbrev IsNewPool : Option Pool → Type 0
  IsNewPool none = Unit
  IsNewPool (some p) = IsPool p (range slots_per_slab 0)

  memory-SameBlocks : (s : os.State) → Ensures (λ _. SameBlocks s) (SameBlocks s) (memory s)
  unfolding memory
  memory-SameBlocks s =
      Ensures-if (os.malloc s).0 _ _ (λ _. returns (block_at-malloc px s))
        λ _. fails (block_at-malloc px s)

  pool_init-IsNewPool : (slot : ℕ → Slot) → IsNewPool (pool_init true true slot)
  pool_init-IsNewPool slot = let (p, e, new, _) = pool_init_lem slot in subst IsNewPool (sym e) new

  new_pool-IsNewPool :
      (slot : ℕ → Slot) (s : os.State)
      → Ensures (λ o s'. IsNewPool o × SameBlocks s s') (λ _. ⊥) (new_pool slot s)
  unfolding new_pool pool_init
  new_pool-IsNewPool slot s =
      Ensures-attempt memory _ _ s (memory-SameBlocks s)
        (λ _ s1 same.
          Ensures-attempt memory _ _ s1 (memory-SameBlocks s1)
            (λ _ s2 same'. returns (pool_init-IsNewPool slot, λ k. same' k ∙ same k))
            λ s2 same'. returns (tt, λ k. same' k ∙ same k))
        λ s1 same. returns (tt, same)

  -- A new file system with a new pool and the mutex free, or the process has been sent a signal.
  abbrev pub IsStarted : (blocks : ℕ) → Mounted → Type 0
  IsStarted blocks (ready s) =
      IsNewFilesystem px blocks s.fs × IsPool s.pool (range slots_per_slab 0) × (s.locked ≡ false)
  IsStarted blocks (without_pool s) = Unit
  IsStarted blocks (without_fs p s) = Unit

  -- A call of `sfs_getattr` after a successful `sfs_init`.
  abbrev pub Answered : Libgen → List ℕ → Mounted → Type 0
  Answered libgen path (ready s) = Replies (getattr libgen path s)
  Answered libgen path (without_pool s) = Unit
  Answered libgen path (without_fs p s) = Unit

  new-Answered :
      (libgen : Libgen) (path : List ℕ) (blocks : ℕ) (s : Sfs)
      → IsNewFilesystem px blocks s.fs
      → s.locked ≡ false
      → Replies (getattr libgen path s)
  unfolding is_dir_mode
  new-Answered libgen path blocks s new idle =
      let (t, root) = new.root in
      getattr-Replies px libgen path s idle new.coherent
        (subst (λ (i : Inode). 0 < i.inumber) (sym root) (omega arith))
        (subst (λ (i : Inode). is_dir_mode i.mode ≡ true) (sym root) refl)

  start-IsStarted :
      (old : InodeCache) (stack : Buffer) (size : ℕ) (libgen : Libgen) (path : List ℕ)
      (o : Option Pool) (s : os.State)
      → IsNewPool o
      → Ensures
          (λ fs _. IsNewFilesystem px (size / 512) fs)
          (λ _. Unit {0})
          (open_disk true old stack s)
      → Ensures
          (λ m _. IsStarted (size / 512) m × Answered libgen path m)
          (λ _. ⊥)
          (start old stack o s)
  unfolding start
  start-IsStarted old stack size libgen path none s new opened = returns (tt, tt)
  start-IsStarted old stack size libgen path (some p) s new opened =
      Ensures-attempt (open_disk true old stack) _ _ s opened
        (λ fs s' new_fs. returns (
          (new_fs, new, refl),
          new-Answered libgen path (size / 512) (record { fs = fs; pool = p; locked = false })
              new_fs refl,
        ))
        λ s' _. returns (tt, tt)

  -- `sfs_init` on a disk file without the signature, with at least two blocks and not one more than a
  -- multiple of 64 behind the head of the list of free blocks, fewer than 2^31 blocks, and zeros where
  -- the last node of that list comes to lie, where the memory for the cache happens not to be
  -- marked dirty: it returns. If the process is not sent a signal, then there are
  -- an empty file system, a pool with no descriptor handed out, and a free mutex; and a call of
  -- `sfs_getattr` returns, whatever its path.
  pub init-IsStarted :
      (slot : ℕ → Slot) (old : InodeCache) (stack : Buffer) (size : ℕ) (s : os.State)
      (libgen : Libgen) (path : List ℕ)
      → HasSize px size
      → IsSize (size / 512)
      → size / 512 < 2 ^ 31
      → old.dirty ≡ false
      → (load_superblock (block_at px s 0)).signature ≢ signature
      → block_at px s (last_node (size / 512)) ≡ clip zeros
      → Ensures
          (λ m _. IsStarted (size / 512) m × Answered libgen path m)
          (λ _. ⊥)
          (init slot old stack s)
  unfolding init
  init-IsStarted slot old stack size s libgen path sized h small clean unsigned blank =
      Ensures-bind (new_pool-IsNewPool slot s)
        (λ o s1 (new, same). start-IsStarted old stack size libgen path o s1 new (
          open_disk-IsNewFilesystem px true old stack size s1 sized h small clean
            (subst (λ b. (load_superblock b).signature ≢ signature) (sym (same 0)) unsigned)
            (same (last_node (size / 512)) ∙ blank)))
        λ _ q. q
