-- ===== src/Os.antt =====
-- The operating system that the program calls: `pread` and `pwrite` on the open disk file, `fstat`,
-- `time`, `malloc`, `getuid` and `getgid`. None of it is the program's own, so it is a parameter
-- `Os`; `IsPosix` is what the manual pages promise and the theorems rely on.
use filesys.Prelude.{ℕ, ◌+◌, ◌*◌, ◌≤◌, ◌<◌, ◌≡◌, ◌⊎◌, Bool, Option}
use filesys.Bytes.{Buffer}

-- What `pread` and `pwrite` return: -1, or the number of bytes moved.
pub data Ret : Type 0 where
  error : Ret
  count : ℕ → Ret

pub record Os : Type 1 where
  pub State : Type 0
  -- `pread(fd, buf, n, offset)`: what it returns, the bytes moved, and the state after it.
  pub pread : ℕ → ℕ → State → Ret × Buffer × State
  -- `pwrite(fd, buf, n, offset)`
  pub pwrite : Buffer → ℕ → ℕ → State → Ret × State
  -- `fstat(fd, &st)`: `st_size`, or a failure.
  pub fstat : State → Option ℕ × State
  pub time : State → ℕ × State
  -- Whether `malloc` returns memory.
  pub malloc : State → Bool × State
  pub getuid : ℕ
  pub getgid : ℕ

-- The file's bytes, and what the calls do to them.
pub record IsPosix (os : Os) : Type 0 where
  pub byte : os.State → ℕ → ℕ
  -- A full read delivers the file's bytes.
  pub pread_full :
      (n o : ℕ) (s : os.State) (i : ℕ)
      → (os.pread n o s).0 ≡ count n
      → i < n
      → (os.pread n o s).1 i ≡ byte s (o + i)
  pub pread_keeps : (n o : ℕ) (s : os.State) (a : ℕ) → byte (os.pread n o s).2 a ≡ byte s a
  -- A full write replaces the bytes of its range, and no write touches another byte.
  pub pwrite_full :
      (b : Buffer) (n o : ℕ) (s : os.State) (i : ℕ)
      → (os.pwrite b n o s).0 ≡ count n
      → i < n
      → byte (os.pwrite b n o s).1 (o + i) ≡ b i
  pub pwrite_outside :
      (b : Buffer) (n o : ℕ) (s : os.State) (a : ℕ)
      → (a < o) ⊎ (o + n ≤ a)
      → byte (os.pwrite b n o s).1 a ≡ byte s a
  pub time_keeps : (s : os.State) (a : ℕ) → byte (os.time s).1 a ≡ byte s a
  pub malloc_keeps : (s : os.State) (a : ℕ) → byte (os.malloc s).1 a ≡ byte s a
  pub fstat_keeps : (s : os.State) (a : ℕ) → byte (os.fstat s).1 a ≡ byte s a

-- Transfers within the first `size` blocks of the file move all of their bytes.
pub record IsReliable (os : Os) (size : ℕ) : Type 0 where
  pub reads : (n o : ℕ) (s : os.State) → o + n ≤ size * 512 → (os.pread n o s).0 ≡ count n
  pub writes :
      (b : Buffer) (n o : ℕ) (s : os.State) → o + n ≤ size * 512 → (os.pwrite b n o s).0 ≡ count n
