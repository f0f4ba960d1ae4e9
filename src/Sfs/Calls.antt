-- ===== src/Sfs/Calls.antt =====
-- src/sfs.c: the calls of the file system in a handler, which then goes on or returns a code.
use filesys.Outcome.{Outcome, Run, Ensures, returns, fails, or_else, and_then}
use filesys.Os.{Os}
use filesys.Fs.State.{Filesystem}
use filesys.Sfs.State.{Sfs, with_fs}

module _ ⦃os : Os⦄ where
  -- A call of the file system below that does not abort, in a handler.
  pub attempt_lift-Ensures :
      {A B : Type 0} {P : A → Filesystem → Type 0} {Q : Filesystem → Type 0} {R : B → Sfs → Type 0}
      {o : Outcome Filesystem A} (s : Sfs) (k : A → Run Sfs B) (h : Run Sfs B)
      → Ensures P Q o
      → ((a : A) (fs : Filesystem) → P a fs → Ensures R (λ _. ⊥) (k a (record s { fs = fs })))
      → ((fs : Filesystem) → Ensures R (λ _. ⊥) (h (record s { fs = fs })))
      → Ensures R (λ _. ⊥) (or_else (with_fs s o) k h)
  unfolding or_else with_fs
  attempt_lift-Ensures s k h (returns p) go back = go _ _ p
  attempt_lift-Ensures s k h (fails q) go back = back _

  module _ {A B : Type 0} {P : A → Filesystem → Type 0} {R : B → Sfs → Type 0} (s : Sfs)
      (k : A → Run Sfs B) where
    -- A call that succeeds.
    pub attempt_lift-returns :
        {o : Outcome Filesystem A} (h : Run Sfs B)
        → Ensures P (λ _. ⊥) o
        → ((a : A) (fs : Filesystem) → P a fs → Ensures R (λ _. ⊥) (k a (record s { fs = fs })))
        → Ensures R (λ _. ⊥) (or_else (with_fs s o) k h)
    unfolding or_else with_fs
    attempt_lift-returns h (returns p) go = go _ _ p
    attempt_lift-returns h (fails impossible) go = absurd impossible

    pub lift-returns :
        {o : Outcome Filesystem A}
        → Ensures P (λ _. ⊥) o
        → ((a : A) (fs : Filesystem) → P a fs → Ensures R (λ _. ⊥) (k a (record s { fs = fs })))
        → Ensures R (λ _. ⊥) (and_then (with_fs s o) k)
    unfolding with_fs
    lift-returns (returns p) go = go _ _ p
    lift-returns (fails impossible) go = absurd impossible
