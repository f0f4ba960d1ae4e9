-- ===== src/Outcome.antt =====
-- What a C function of this program does to its state: it returns a value, it returns -1 (or NULL)
-- after it may have changed the state, or it aborts the process at a failed `assert`.
use filesys.Prelude.{Bool, true, false, ◌≡◌, refl, if◌then◌else◌}
pub mod Exits

pub data Outcome {ℓ} (S A : Type ℓ) : Type ℓ where
  done : A → S → Outcome S A
  failed : S → Outcome S A
  aborted : Outcome S A

abbrev pub Run {ℓ} : Type ℓ → Type ℓ → Type ℓ
Run S A = S → Outcome S A

module _ {ℓ} {S A : Type ℓ} where
  abbrev pub pure : A → Run S A
  pure a s = done a s

  -- `return -1`
  abbrev pub fail : Run S A
  fail s = failed s

module _ {ℓ} {S A B : Type ℓ} where
  -- `if (m(...)) return -1;` and go on with the result.
  abbrev pub and_then : Outcome S A → (A → Run S B) → Outcome S B
  and_then (done a s) k = k a s
  and_then (failed s) k = failed s
  and_then aborted k = aborted

  infixl 5 ◌>>=◌ ◌>>◌
  abbrev pub ◌>>=◌ : Run S A → (A → Run S B) → Run S B
  m >>= k = λ s. and_then (m s) k

  abbrev pub ◌>>◌ : Run S A → Run S B → Run S B
  m >> n = m >>= λ _. n

-- `assert(b)`
abbrev pub assert : {S : Type 0} → Bool → Run S (Unit {0})
assert true s = done tt s
assert false s = aborted

-- The call returns, with a result and a state that meet `P`.
abbrev pub Returns : {S A : Type 0} → (A → S → Type 0) → Outcome S A → Type 0
Returns P (done a s) = P a s
Returns P (failed s) = ⊥
Returns P aborted = ⊥

-- The call does not abort: what it returns meets `P`, and the state that a failure leaves meets `Q`.
pub data Ensures {S A : Type 0} (P : A → S → Type 0) (Q : S → Type 0) : Outcome S A → Type 0 where
  returns : {a : A} {s : S} → P a s → Ensures P Q (done a s)
  fails : {s : S} → Q s → Ensures P Q (failed s)

module _ {S A : Type 0} {P : A → S → Type 0} {Q : S → Type 0} where
  pub Ensures-done : {a : A} {s : S} → Ensures P Q (done a s) → P a s
  Ensures-done (returns p) = p

  pub Ensures-mono :
      {P' : A → S → Type 0} {Q' : S → Type 0} {o : Outcome S A}
      → Ensures P Q o
      → ((a : A) (s : S) → P a s → P' a s)
      → ((s : S) → Q s → Q' s)
      → Ensures P' Q' o
  Ensures-mono (returns h) p q = returns (p _ _ h)
  Ensures-mono (fails h) p q = fails (q _ h)

  pub Ensures-bind :
      {B : Type 0} {P' : B → S → Type 0} {Q' : S → Type 0} {o : Outcome S A} {k : A → Run S B}
      → Ensures P Q o
      → ((a : A) (s : S) → P a s → Ensures P' Q' (k a s))
      → ((s : S) → Q s → Q' s)
      → Ensures P' Q' (and_then o k)
  Ensures-bind (returns h) p q = p _ _ h
  Ensures-bind (fails h) p q = fails (q _ h)

  pub Ensures-if :
      (b : Bool) (x y : Outcome S A)
      → (b ≡ true → Ensures P Q x)
      → (b ≡ false → Ensures P Q y)
      → Ensures P Q (if b then x else y)
  Ensures-if true x y yea nay = yea refl
  Ensures-if false x y yea nay = nay refl

  -- The same for a test between two commands.
  pub Ensures-if_run :
      (b : Bool) (m n : Run S A) (s : S)
      → (b ≡ true → Ensures P Q (m s))
      → (b ≡ false → Ensures P Q (n s))
      → Ensures P Q ((if b then m else n) s)
  Ensures-if_run true m n s yea nay = yea refl
  Ensures-if_run false m n s yea nay = nay refl

module _ {S A B : Type 0} where
  -- Go on with `k` where the call returned, and with `h` where it returned -1.
  unfoldable pub or_else : Outcome S A → (A → Run S B) → Run S B → Outcome S B
  or_else (done a s) k h = k a s
  or_else (failed s) k h = h s
  or_else aborted k h = aborted

  unfoldable pub attempt : Run S A → (A → Run S B) → Run S B → Run S B
  unfolding or_else
  attempt m k h s = or_else (m s) k h

Ensures-or_else :
    {S A B : Type 0} {P : A → S → Type 0} {Q : S → Type 0} {P' : B → S → Type 0} {Q' : S → Type 0}
    {o : Outcome S A} (k : A → Run S B) (h : Run S B)
    → Ensures P Q o
    → ((a : A) (s' : S) → P a s' → Ensures P' Q' (k a s'))
    → ((s' : S) → Q s' → Ensures P' Q' (h s'))
    → Ensures P' Q' (or_else o k h)
unfolding or_else
Ensures-or_else k h (returns p) go back = go _ _ p
Ensures-or_else k h (fails q) go back = back _ q

pub Ensures-attempt :
    {S A B : Type 0} {P : A → S → Type 0} {Q : S → Type 0} {P' : B → S → Type 0} {Q' : S → Type 0}
    (m : Run S A) (k : A → Run S B) (h : Run S B) (s : S)
    → Ensures P Q (m s)
    → ((a : A) (s' : S) → P a s' → Ensures P' Q' (k a s'))
    → ((s' : S) → Q s' → Ensures P' Q' (h s'))
    → Ensures P' Q' (attempt m k h s)
unfolding attempt
Ensures-attempt m k h s e go back = Ensures-or_else k h e go back

-- The call returns a result.
abbrev pub Succeeds : {S A : Type 0} → Outcome S A → Type 0
Succeeds o = Ensures (λ _ _. Unit {0}) (λ _. ⊥) o

-- What holds of each result of a call that returns one.
pub Ensures-Succeeds :
    {S A : Type 0} {P : A → S → Type 0} {Q : S → Type 0} {o : Outcome S A}
    → Ensures P Q o
    → Succeeds o
    → Ensures P (λ _. ⊥) o
Ensures-Succeeds (returns p) h = returns p
Ensures-Succeeds (fails q) (fails impossible) = absurd impossible

-- Two facts about the same call.
pub Ensures-and :
    {S A : Type 0} {P P' : A → S → Type 0} {Q Q' : S → Type 0} {o : Outcome S A}
    → Ensures P Q o
    → Ensures P' Q' o
    → Ensures (λ a s. P a s × P' a s) Q o
Ensures-and (returns p) (returns q) = returns (p, q)
Ensures-and (fails p) (fails q) = fails p

-- The call never returns a result.
pub data Stops {S A : Type 0} : Outcome S A → Type 0 where
  fails : {s : S} → Stops (failed s)
  aborts : Stops aborted

module _ {S A B : Type 0} {P : A → S → Type 0} {Q : S → Type 0} where
  pub Stops-bind :
      {o : Outcome S A} {k : A → Run S B}
      → Ensures P Q o
      → ((a : A) (s : S) → P a s → Stops (k a s))
      → Stops (and_then o k)
  Stops-bind (returns p) go = go _ _ p
  Stops-bind (fails q) go = fails

pub Stops-and_then :
    {S A B : Type 0} {o : Outcome S A} (k : A → Run S B) → Stops o → Stops (and_then o k)
Stops-and_then k fails = fails
Stops-and_then k aborts = aborts
