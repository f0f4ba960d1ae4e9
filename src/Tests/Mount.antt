-- ===== src/Tests/Mount.antt =====
-- `sfs_init` on the small disk.
use filesys.Prelude.{ℕ, refl, sym, ◌∙◌, none, [], ◌∷◌, arith}
use filesys.Bytes.{zeros, clip-zeros}
use filesys.Outcome.{Ensures}
use filesys.Filedescriptor.{Slot, free}
use filesys.Fs.Format.NewDisk.{last_node}
use filesys.Sfs.State.{Libgen, root_path}
use filesys.Sfs.Mount.{init}
use filesys.Sfs.Mount.Start.{IsStarted, Answered, init-IsStarted}
use filesys.Tests.Ram.{ram, ram-IsPosix}
use filesys.Tests.Fs.{zero_block}
use filesys.Tests.Format.{ten-IsSize, blank, unsigned}

abbrev names : Libgen
names = record { dirname = λ p. root_path; basename = λ p. p }

abbrev garbage : ℕ → Slot
garbage k = free k none

init-IsStarted_example :
    Ensures
      (λ m _. IsStarted ram-IsPosix 10 m × Answered ram-IsPosix names (b'a' ∷ []) m)
      (λ _. ⊥)
      (init garbage blank zeros zeros)
init-IsStarted_example =
    init-IsStarted ram-IsPosix garbage blank zeros 5120 zeros names (b'a' ∷ []) (λ s. refl)
      ten-IsSize (omega arith) refl unsigned (zero_block (last_node 10) ∙ sym clip-zeros)
