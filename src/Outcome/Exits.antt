-- ===== src/Outcome/Exits.antt =====
-- Calls that do not fail: they return, or they stop at an `assert`.
use filesys.Prelude.{Bool, true, false, if◌then◌else◌}
use filesys.Outcome.{Outcome, Run, done, failed, aborted, and_then, or_else, attempt}

-- The call does not fail: it returns with a state that meets `P`, or it stops at an `assert`.
pub data Exits {S A : Type 0} (P : S → Type 0) : Outcome S A → Type 0 where
  exits : {a : A} {s : S} → P s → Exits P (done a s)
  stops : Exits P aborted

pub failed-Exits : {S A : Type 0} {P : S → Type 0} {s : S} → Exits {A = A} P (failed s) → ⊥
failed-Exits h = elim h [ ]

module _ {S A B : Type 0} {P : S → Type 0} where
  pub Exits-or_else :
      (o : Outcome S A) {k : A → Run S B} {h : Run S B}
      → ((a : A) (s : S) → Exits P (k a s))
      → ((s : S) → Exits P (h s))
      → Exits P (or_else o k h)
  unfolding or_else
  Exits-or_else (done a s) go back = go a s
  Exits-or_else (failed s) go back = back s
  Exits-or_else aborted go back = stops

  pub Exits-attempt :
      (m : Run S A) {k : A → Run S B} {h : Run S B}
      → ((a : A) (s : S) → Exits P (k a s))
      → ((s : S) → Exits P (h s))
      → (s : S) → Exits P (attempt m k h s)
  unfolding attempt
  Exits-attempt m go back s = Exits-or_else (m s) go back

  pub Exits-bind :
      {Q : S → Type 0} {o : Outcome S A} {k : A → Run S B}
      → Exits Q o
      → ((a : A) (s : S) → Exits P (k a s))
      → Exits P (and_then o k)
  Exits-bind (exits q) go = go _ _
  Exits-bind stops go = stops

pub Exits-if :
    {S A : Type 0} {P : S → Type 0} (b : Bool) {x y : Outcome S A}
    → Exits P x
    → Exits P y
    → Exits P (if b then x else y)
Exits-if true x y = x
Exits-if false x y = y

pub Exits-if_run :
    {S A : Type 0} {P : S → Type 0} (b : Bool) {m n : Run S A}
    → ((s : S) → Exits P (m s))
    → ((s : S) → Exits P (n s))
    → (s : S) → Exits P ((if b then m else n) s)
Exits-if_run true m n = m
Exits-if_run false m n = n
