-- ===== src/Prelude/Ranges.antt =====
-- Lists of consecutive numbers, and membership as a test.
use Prim.Native.Nat.{ℕ, zero, suc, ◌+◌}
use mathlib.Core.Path.{◌≡◌}
use mathlib.Core.Bool.{Bool, false, ◌||◌}
use mathlib.Core.List.{List, [], ◌∷◌}
use native.Mathlib.Omega.{arith}
use filesys.Prelude.Tests.{◌==◌, ltb, if◌then◌else◌}

abbrev pub has : ℕ → List ℕ → Bool
has k [] = false
has k (n ∷ ns) = n == k || has k ns

-- The `n` numbers from `start` on.
unfoldable pub range : (n start : ℕ) → List ℕ
range zero start = []
range (suc n) start = start ∷ range n (start + 1)

pub has-range :
    (n start k : ℕ) → has k (range n start) ≡ (if ltb k start then false else ltb k (start + n))
unfolding range
has-range zero start k = ground arith
has-range (suc n) start k = ground (arith, has-range n (start + 1) k)
