-- ===== src/Dir/FirstFrom.antt =====
-- The first number of a range that passes a test.
use filesys.Prelude.{
  ℕ, zero, suc, ◌+◌, ◌-◌, ◌<◌, ◌≤◌, ◌≡◌, ◌≢◌, ◌⊎◌, ap, refl, sym, subst, ◌∙◌, Bool, true, false,
  ◌&&◌, none, some, arith, Bool-cases, inl, inr, if◌then◌else◌,
}
use filesys.Fs.Blocks.{first_from}

==-cases : (r i : ℕ) → (r ≡ i) ⊎ (r ≢ i)
==-cases r i = omega arith

pub first_from-step :
    (m r : ℕ) (test : ℕ → Bool)
    → r < m
    → first_from (m - r) r test ≡ (if test r then some r else first_from (m - (r + 1)) (r + 1) test)
unfolding first_from
first_from-step m r test h =
    let more : m - r ≡ suc (m - (r + 1)) = omega (arith, h) in
    subst
      (λ n.
        first_from n r test ≡ (if test r then some r else first_from (m - (r + 1)) (r + 1) test))
      (sym more) refl

pub first_from-none :
    (n r : ℕ) (test more : ℕ → Bool)
    → first_from n r test ≡ none
    → first_from n r (λ k. test k && more k) ≡ none
unfolding first_from
first_from-none zero r test more h = refl
first_from-none (suc n) r test more h = elim (Bool-cases (test r)) [
  | inl e ↦ ground (arith, h, e)
  | inr e ↦
      let rest : first_from n (r + 1) test ≡ none = ground (arith, h, e) in
      rw e (first_from-none n (r + 1) test more rest)
]

-- Where the first is, and that a narrower test may begin there.
pub first_from-some :
    (n r k : ℕ) (test more : ℕ → Bool)
    → first_from n r test ≡ some k
    → (r ≤ k)
      × (k < r + n)
      × (test k ≡ true)
      × (first_from n r (λ j. test j && more j) ≡ first_from (r + n - k) k (λ j. test j && more j))
unfolding first_from
first_from-some zero r k test more h = ground (arith, h)
first_from-some (suc n) r k test more h = elim (Bool-cases (test r)) [
  | inl e ↦
      let at : r ≡ k = ground (arith, h, e) in
      let all : r + suc n - k ≡ suc n = omega (arith, at) in
      (
        omega (arith, at),
        omega (arith, at),
        subst (λ j. test j ≡ true) at e,
        rw all (
            subst
              (λ j.
                first_from (suc n) r (λ j. test j && more j)
                ≡ first_from (suc n) j (λ j. test j && more j))
              at refl),
      )
  | inr e ↦
      let rest : first_from n (r + 1) test ≡ some k = ground (arith, h, e) in
      let (from, below, used, same) = first_from-some n (r + 1) k test more rest in
      let count : r + suc n - k ≡ r + 1 + n - k = omega arith in
      (omega (arith, from), omega (arith, below), used, rw count (rw e same))
]

-- Tests that agree give the same number.
pub first_from-ext :
    (n r : ℕ) (test test' : ℕ → Bool)
    → ((k : ℕ) → r ≤ k → test' k ≡ test k)
    → first_from n r test' ≡ first_from n r test
unfolding first_from
first_from-ext zero r test test' same = refl
first_from-ext (suc n) r test test' same =
    rw (same r (omega arith))
      (rw (first_from-ext n (r + 1) test test' λ k h. same k (omega (arith, h))) refl)

-- The only number that passes.
pub first_from-only :
    (n r i : ℕ) (test test' : ℕ → Bool)
    → first_from n r test ≡ none
    → ((k : ℕ) → k ≢ i → test' k ≡ test k)
    → test' i ≡ true
    → r ≤ i
    → i < r + n
    → first_from n r test' ≡ some i
unfolding first_from
first_from-only zero r i test test' h same here from below = absurd (omega (arith, from, below))
first_from-only (suc n) r i test test' h same here from below = elim (==-cases r i) [
  | inl e ↦ ground (arith, ap test' e, here, e)
  | inr ne ↦
      let rest =
        first_from-only n (r + 1) i test test' (ground (arith, h)) same here
          (omega (arith, from, ne)) (omega (arith, below)) in
      ground (arith, h, same r ne, rest)
]

-- No other number passes than the first.
pub first_from-removed :
    (n r i : ℕ) (test test' : ℕ → Bool)
    → first_from n r test ≡ some i
    → first_from (r + n - (i + 1)) (i + 1) test ≡ none
    → ((k : ℕ) → k ≢ i → test' k ≡ test k)
    → test' i ≡ false
    → first_from n r test' ≡ none
unfolding first_from
first_from-removed zero r i test test' h only same gone = ground (arith, h)
first_from-removed (suc n) r i test test' h only same gone = elim (==-cases r i) [
  | inl e ↦
      let count : r + suc n - (i + 1) ≡ n = omega (arith, e) in
      let rest : first_from n (r + 1) test' ≡ none =
        first_from-ext n (r + 1) test test' (λ k p. same k λ q. omega (arith, p, q, e))
        ∙ (ap (λ j. first_from n (j + 1) test) e
            ∙ subst (λ c. first_from c (i + 1) test ≡ none) count only) in
      ground (arith, ap test' e, gone, rest)
  | inr ne ↦
      let count : r + suc n - (i + 1) ≡ r + 1 + n - (i + 1) = omega arith in
      let rest =
        first_from-removed n (r + 1) i test test' (ground (arith, h, ne))
          (subst (λ c. first_from c (i + 1) test ≡ none) count only) same gone in
      ground (arith, h, ne, same r ne, rest)
]
