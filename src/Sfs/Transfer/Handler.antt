-- ===== src/Sfs/Transfer/Handler.antt =====
-- src/sfs.c: the handlers `sfs_read` and `sfs_write` themselves: the mutex, the code they return, and
-- the memory after them.
use filesys.Prelude.{
  ℕ, ◌+◌, ◌*◌, ◌/◌, ◌%◌, ◌<◌, ◌≤◌, ◌≡◌, ◌⊎◌, inl, inr, refl, true, false, ◌==◌, Option, some, none,
  arith,
}
use filesys.Bytes.{Buffer}
use filesys.Outcome.{Outcome, Run, Ensures, returns, attempt}
use filesys.Outcome.Exits.{stops, Exits-attempt, Exits-if_run}
use filesys.Os.{Os, IsPosix}
use filesys.Fs.Layout.{ndir_blocks}
use filesys.Fs.State.{Filesystem}
use filesys.Sfs.State.{Code, value, minus_one, Sfs, lock, leave, lift, find_fd, slot_inumber}
use filesys.Sfs.Mutex.Steps.{Released, Releases, leave-Releases, lock-Releases}
use filesys.Sfs.Calls.{attempt_lift-Ensures}
use filesys.Sfs.Transfer.{transfer_at, transfer_fd, read, write, read_data}
use filesys.Sfs.Transfer.Laws.{delivered}
use filesys.Sfs.Transfer.Files.{IsFile, file_block, read_data-whole, read_data-within}

module _ ⦃os : Os⦄ where
  transfer_at-Releases :
      {A B : Type 0} (m : ℕ → Run Filesystem A) (result : A → Code × B) (unset : B) (o : Option ℕ)
      → Releases (transfer_at m result unset o)
  unfolding transfer_at
  transfer_at-Releases m result unset none s = stops
  transfer_at-Releases m result unset (some n) s =
      Exits-attempt (lift (m n)) (λ a. leave-Releases _) (leave-Releases _) s

  transfer_fd-Releases :
      {A B : Type 0} (m : ℕ → Run Filesystem A) (result : A → Code × B) (unset : B) (o : Option ℕ)
      → Releases (transfer_fd m result unset o)
  unfolding transfer_fd
  transfer_fd-Releases m result unset none s = leave-Releases _ s
  transfer_fd-Releases m result unset (some a) s =
      transfer_at-Releases m result unset (slot_inumber (s.pool.slot a)) s

  -- Whatever the state and the arguments, `sfs_read` and `sfs_write` stop the process or return with
  -- the mutex not held.
  pub transfers-Released :
      (fh buf size offset : ℕ) (memory tmp : Buffer) (s : Sfs)
      → Released (read fh buf size offset memory s)
        × Released (write fh buf size offset memory tmp s)
  unfolding read write
  transfers-Released fh buf size offset memory tmp s = (
    lock-Releases
        (Exits-if_run (size == 0) (leave-Releases _)
          λ s'. transfer_fd-Releases _ _ none (find_fd fh s') s')
        s,
    lock-Releases
        (Exits-if_run (size == 0) (leave-Releases _)
          λ s'. transfer_fd-Releases _ _ tt (find_fd fh s') s')
        s,
  )

  -- The call returns with the mutex given back: -1, or `size` and memory of which `P` holds.
  abbrev pub Answers : (Buffer → Type 0) → (size : ℕ) → Outcome Sfs (Code × Option Buffer) → Type 0
  Answers P size =
      Ensures
        (λ (code, o) s.
          (s.locked ≡ false)
          × ((code ≡ minus_one) × (o ≡ none)
              ⊎ (code ≡ value size) × ((m : Buffer) × (o ≡ some m) × P m)))
        (λ _. ⊥)

  -- `sfs_read` of an open descriptor is a read of its inode.
  read-Answers :
      (fh at n size buf offset : ℕ) (memory : Buffer) (s : Sfs) {P : Buffer → Type 0}
      → s.locked ≡ false
      → find_fd fh s ≡ some at
      → slot_inumber (s.pool.slot at) ≡ some n
      → 0 < size
      → Ensures (λ m _. P m) (λ _. Unit {0}) (read_data n buf size offset memory s.fs)
      → Answers P size (read fh buf size offset memory s)
  unfolding read lock leave find_fd transfer_fd transfer_at attempt lift
  read-Answers fh at n size buf offset memory s idle found used some_bytes h =
      let full : (size == 0) ≡ false = ground arith in
      rw idle (
        rw full (
          rw found (
            rw used (
              attempt_lift-Ensures (record s { locked = true }) _ _ h
                (λ m fs p. returns (refl, inr (refl, (m, refl, p))))
                λ fs. returns (refl, inl (refl, refl))))))

module _ ⦃os : Os⦄ (px : IsPosix os) where
  -- `sfs_read` of `rounds` whole blocks of an open file from block `first` on returns, with the mutex
  -- given back: -1, or the size with the blocks in memory and all other memory as it was. Block `k`
  -- of the file then stands at `buf + 512 * k`, which is in the caller's buffer if `first` is 0.
  pub read-delivered :
      (fh at n first rounds buf : ℕ) (memory : Buffer) (s : Sfs)
      → s.locked ≡ false
      → find_fd fh s ≡ some at
      → slot_inumber (s.pool.slot at) ≡ some n
      → IsFile px n s.fs
      → 0 < rounds
      → first + rounds ≤ ndir_blocks
      → Answers
          (λ m.
            (a : ℕ) → m a ≡ delivered (file_block px s.fs n) buf first (first + rounds) memory a)
          (rounds * 512)
          (read fh buf (rounds * 512) (first * 512) memory s)
  read-delivered fh at n first rounds buf memory s idle found used f some_blocks direct =
      read-Answers fh at n (rounds * 512) buf (first * 512) memory s idle found used
        (omega (arith, some_blocks))
        (read_data-whole px n first rounds buf memory s.fs f some_blocks direct)

  -- `sfs_read` of bytes of one direct block of an open file that does not begin at the beginning of
  -- the block returns, with the mutex given back: -1, or the size, with all memory as it was.
  pub read-within :
      (fh at n size offset buf : ℕ) (memory : Buffer) (s : Sfs)
      → s.locked ≡ false
      → find_fd fh s ≡ some at
      → slot_inumber (s.pool.slot at) ≡ some n
      → IsFile px n s.fs
      → 0 < size
      → 0 < offset % 512
      → offset % 512 + size ≤ 512
      → offset / 512 < ndir_blocks
      → Answers (λ m. (a : ℕ) → m a ≡ memory a) size (read fh buf size offset memory s)
  read-within fh at n size offset buf memory s idle found used f some_bytes inside one direct =
      read-Answers fh at n size buf offset memory s idle found used some_bytes
        (read_data-within px n size offset buf memory s.fs f some_bytes inside one direct)
