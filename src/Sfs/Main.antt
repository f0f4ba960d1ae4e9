-- ===== src/Sfs/Main.antt =====
-- src/sfs.c: `main` and `sfs_usage`, with `log_open` of src/log.c. What they call of the C library and
-- of FUSE is a `Host`.
use filesys.Prelude.{
  ℕ, ◌-◌, ◌≡◌, Bool, true, ◌||◌, Option, none, some, List, [], length, get_or, set, take, ltb, ◌==◌,
  if◌then◌else◌,
}
use filesys.Dir.Entry.{first_char}

-- `struct sfs_state` as `main` hands it to FUSE: the disk file and its descriptor.
pub record Mounted : Type 0 where
  pub diskfile : List ℕ
  pub disk : ℕ

pub record Host : Type 1 where
  pub State : Type 0
  -- Whether `malloc` returns memory.
  pub malloc : State → Bool × State
  -- Whether `fopen("sfs.log", "w")` returns a stream.
  pub fopen : State → Bool × State
  -- Whether `pthread_mutex_init` returns 0.
  pub mutex_init : State → Bool × State
  -- `open(path, O_RDWR, ...)`
  pub open_path : List ℕ → State → Option ℕ × State
  -- Whether `fuse_get_context()->private_data` is this program's before `fuse_main` is called.
  pub has_context : State → Bool
  -- `fuse_main(argc, argv, &sfs_oper, sfs_data)`
  pub fuse_main : List (List ℕ) → Mounted → State → ℕ × State

-- How the process ends: `exit(EXIT_SUCCESS)`, `exit(EXIT_FAILURE)`, with what `fuse_main` returned, or
-- with a use of a pointer that is not this program's.
pub data Exit : Type 0 where
  success : Exit
  failure : Exit
  returned : ℕ → Exit
  undefined : Exit

-- `arg[0] == '-'`
unfoldable pub is_option : List ℕ → Bool
is_option arg = first_char arg == b'-'

-- The words that are left for FUSE: the mount point takes the place of the disk file.
unfoldable pub fuse_args : List (List ℕ) → List (List ℕ)
fuse_args argv =
    take (length argv - 1) (set argv (length argv - 2) (get_or argv (length argv - 1) []))

module _ (host : Host) where
  -- `fuse_main`, or the log and the end if the disk file did not open.
  unfoldable pub mount : List ℕ → List (List ℕ) → Option ℕ → host.State → Exit × host.State
  mount diskfile args none s = if host.has_context s then (failure, s) else (undefined, s)
  mount diskfile args (some disk) s =
      let (stat, s') = host.fuse_main args (record { diskfile = diskfile; disk = disk }) s in
      (returned stat, s')

  unfoldable pub open_diskfile : List ℕ → List (List ℕ) → host.State → Exit × host.State
  open_diskfile diskfile args s =
      let (disk, s') = host.open_path diskfile s in mount diskfile args disk s'

  unfoldable pub make_mutex : List ℕ → List (List ℕ) → host.State → Exit × host.State
  make_mutex diskfile args s =
      let (made, s') = host.mutex_init s in
      if made then open_diskfile diskfile args s' else (failure, s')

  -- `log_open`, which ends the process itself.
  unfoldable pub log_open : List ℕ → List (List ℕ) → host.State → Exit × host.State
  log_open diskfile args s =
      let (given, s') = host.fopen s in if given then make_mutex diskfile args s' else (failure, s')

  -- `main` behind the check of the command line.
  unfoldable pub startup : List ℕ → List (List ℕ) → host.State → Exit × host.State
  startup diskfile args s =
      let (given, s') = host.malloc s in if given then log_open diskfile args s' else (failure, s')

  -- `main`
  unfoldable pub main : (argv : List (List ℕ)) → host.State → Exit × host.State
  main argv s =
      if ltb (length argv) 3
        || is_option (get_or argv (length argv - 2) [])
        || is_option (get_or argv (length argv - 1) [])
      then (success, s)
      else startup (get_or argv (length argv - 2) []) (fuse_args argv) s

-- The calls before FUSE, in their order: memory, the log, the mutex and the disk file, which all
-- succeed.
pub record IsReady (host : Host) (disk : List ℕ) (s : host.State) (fd : ℕ) (s' : host.State)
    : Type 0 where
  pub memory : (host.malloc s).0 ≡ true
  pub log : (host.fopen (host.malloc s).1).0 ≡ true
  pub mutex : (host.mutex_init (host.fopen (host.malloc s).1).1).0 ≡ true
  pub opened :
      host.open_path disk (host.mutex_init (host.fopen (host.malloc s).1).1).1 ≡ (some fd, s')
