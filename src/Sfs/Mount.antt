-- ===== src/Sfs/Mount.antt =====
-- src/sfs.c: `sfs_init` and `sfs_destroy`, and what `main` has left of `struct sfs_state` before them:
-- memory from `malloc`, in which `fd_pool` and `fs` are indeterminate until they are set.
pub mod Start
use filesys.Prelude.{ℕ, Bool, true, false, Option, none, some, List, if◌then◌else◌}
use filesys.Bytes.{Buffer}
use filesys.Outcome.{Outcome, Run, done, failed, aborted, pure, attempt, and_then, ◌>>=◌}
use filesys.Os.{Os}
use filesys.Filedescriptor.{Slot, Pool, pool_init}
use filesys.Filedescriptor.Deinit.{deinit}
use filesys.Fs.State.{InodeCache, Filesystem}
use filesys.Fs.Inode.{close}
use filesys.Fs.Open.{memory, open_disk}
use filesys.Sfs.State.{Sfs}

module _ ⦃os : Os⦄ where
  -- `struct sfs_state` behind `sfs_init`: ready, or with a signal sent to the process, without a pool
  -- and with an indeterminate `fs`, or without a file system.
  pub data Mounted : Type 0 where
    ready : Sfs → Mounted
    without_pool : os.State → Mounted
    without_fs : Pool → os.State → Mounted

  -- `sfs_filedescriptor_pool_init` with its calls of `malloc`.
  unfoldable pub new_pool : (slot : ℕ → Slot) → Run os.State (Option Pool)
  new_pool slot =
      attempt memory
        (λ _.
          attempt memory (λ _. pure (pool_init true true slot)) (pure (pool_init true false slot)))
        (pure (pool_init false false slot))

  unfoldable pub start : (old : InodeCache) → (stack : Buffer) → Option Pool → Run os.State Mounted
  start old stack none s = done (without_pool s) s
  start old stack (some p) s =
      attempt (open_disk true old stack)
        (λ fs. pure (ready (record { fs = fs; pool = p; locked = false })))
        (λ s'. done (without_fs p s') s') s

  -- `sfs_init`, with what the memory from `malloc` and the stack hold.
  unfoldable pub init :
      (slot : ℕ → Slot) → (old : InodeCache) → (stack : Buffer) → Run os.State Mounted
  init slot old stack = do p ← new_pool slot; start old stack p

  unfoldable pub state_of : Outcome Filesystem (Unit {0}) → Outcome os.State (Unit {0})
  state_of (done _ fs) = done tt fs.os_state
  state_of (failed fs) = done tt fs.os_state
  state_of aborted = aborted

  unfoldable pub freed_pool : os.State → Outcome ℕ (List ℕ) → Outcome os.State (Unit {0})
  freed_pool s (done freed last) = done tt s
  freed_pool s (failed last) = done tt s
  freed_pool s aborted = aborted

  -- `sfs_destroy`: the result of `sfs_fs_close` is not looked at. `null` is whether the memory from
  -- `malloc` happens to hold NULL where `fs` lies; `aborted` stands for the use of another indeterminate
  -- pointer, and for a mutex that is held.
  unfoldable pub destroy : (null : Bool) → Mounted → Outcome os.State (Unit {0})
  unfolding state_of freed_pool
  destroy null (ready s) =
      if s.locked
      then aborted
      else and_then (state_of (close s.fs)) (λ _ s'. freed_pool s' (deinit s.pool))
  destroy null (without_pool s) = if null then done tt s else aborted
  destroy null (without_fs p s) = freed_pool s (deinit p)
