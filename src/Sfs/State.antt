-- ===== src/Sfs/State.antt =====
-- src/params.h and src/sfs.c: `struct sfs_state`, its mutex, the return codes and the descriptor of
-- an opened file.
use filesys.Prelude.{
  ℕ, Bool, true, false, Option, none, some, List, [], ◌∷◌, ◌==◌, ◌&&◌, if◌then◌else◌,
}
use filesys.Outcome.{Outcome, Run, done, failed, aborted, ◌>>=◌}
use filesys.Os.{Os}
use filesys.Fs.State.{Filesystem}
use filesys.Filedescriptor
use filesys.Filedescriptor.{SfsFd, Slot, free, used, Pool, set_slot, get_from_fd}

pub data Errno : Type 0 where
  enoent enametoolong eexist edquot enomem eacces enotdir : Errno

-- What a handler returns: a number from 0 on, -1, or a negative `errno`.
pub data Code : Type 0 where
  value : ℕ → Code
  minus_one : Code
  minus : Errno → Code

-- `dirname` and `basename` of the C library, on paths as lists of characters.
pub record Libgen : Type 0 where
  pub dirname : List ℕ → List ℕ
  pub basename : List ℕ → List ℕ

-- `strcmp(a, b) == 0`
unfoldable pub str_eq : List ℕ → List ℕ → Bool
str_eq [] [] = true
str_eq [] (d ∷ b) = false
str_eq (c ∷ a) [] = false
str_eq (c ∷ a) (d ∷ b) = c == d && str_eq a b

-- "/"
abbrev pub root_path : List ℕ
root_path = b'/' ∷ []

-- `sd->inumber` of a slot: a slot of the free list holds a pointer there.
unfoldable pub slot_inumber : Slot → Option ℕ
slot_inumber (free fd next) = none
slot_inumber (used s) = s.inumber

module _ ⦃os : Os⦄ where
  -- `struct sfs_state`, with whether its mutex is held.
  pub record Sfs : Type 0 where
    pub fs : Filesystem
    pub pool : Pool
    pub locked : Bool

  -- SFS_LOCK_OR_FAIL. A mutex that is held is never given up by the one thread that waits for it:
  -- `aborted` stands for a call that does not return.
  unfoldable pub lock : Run Sfs (Unit {0})
  lock s = if s.locked then aborted else done tt (record s { locked = true })

  -- SFS_UNLOCK_OR_FAIL, and the return of `r`.
  unfoldable pub leave : {A : Type 0} → A → Run Sfs A
  leave r s = done r (record s { locked = false })

  unfoldable pub with_fs : {A : Type 0} → Sfs → Outcome Filesystem A → Outcome Sfs A
  with_fs s (done a fs) = done a (record s { fs = fs })
  with_fs s (failed fs) = failed (record s { fs = fs })
  with_fs s aborted = aborted

  -- A call of the file system below.
  unfoldable pub lift : {A : Type 0} → Run Filesystem A → Run Sfs A
  lift m s = with_fs s (m s.fs)

  unfoldable pub with_pool : {A : Type 0} → Sfs → Outcome Pool A → Outcome Sfs A
  with_pool s (done a p) = done a (record s { pool = p })
  with_pool s (failed p) = failed (record s { pool = p })
  with_pool s aborted = aborted

  -- Whether `malloc` gives a slab, where a free list asks for one.
  unfoldable pub slab_memory : Option ℕ → Run Filesystem Bool
  slab_memory (some a) fs = done true fs
  slab_memory none fs =
      let (given, s) = os.malloc fs.os_state in done given (record fs { os_state = s })

  unfoldable pub allocate_fd : Run Sfs ℕ
  allocate_fd = do
    given ← (λ s. lift (slab_memory s.pool.freelist) s)
    λ s. with_pool s (Filedescriptor.allocate given s.pool)

  -- `fd->inumber = inumber; fd->flags = flags; fi->fh = fd->fd;` in the slot at `a`.
  unfoldable pub fill_fd : (a inumber flags : ℕ) → Slot → Run Sfs ℕ
  fill_fd a inumber flags (used r) s = done r.fd (record s {
    pool = record s.pool {
      slot =
          set_slot a (used (record r { inumber = some inumber; flags = some flags })) s.pool.slot;
    };
  })
  fill_fd a inumber flags (free fd next) s = aborted

  -- A new descriptor for the inode; NULL is a failure.
  unfoldable pub open_fd : (inumber flags : ℕ) → Run Sfs ℕ
  open_fd inumber flags = do a ← allocate_fd; λ s. fill_fd a inumber flags (s.pool.slot a) s

  -- The pointer to the descriptor's slot, or NULL. The handle is one below 2^31: the source converts it
  -- to `int` and asserts that it is not negative.
  unfoldable pub find_fd : ℕ → Sfs → Option ℕ
  find_fd fh s = get_from_fd fh s.pool
