-- ===== src/Prelude/Counts.antt =====
-- How often a number is in a list.
use Prim.Native.Nat.{ℕ, ◌+◌}
use mathlib.Core.Path.{◌≡◌}
use mathlib.Core.List.{List, [], ◌∷◌, ◌++◌}
use native.Mathlib.Omega.{arith}
use ryan_network_library.Prelude.Tests.{◌==◌, if◌then◌else◌}

abbrev pub times : ℕ → List ℕ → ℕ
times n [] = 0
times n (x ∷ xs) = (if x == n then 1 else 0) + times n xs

pub times-append : (n : ℕ) (xs ys : List ℕ) → times n (xs ++ ys) ≡ times n xs + times n ys
times-append n [] ys = omega arith
times-append n (x ∷ xs) ys = omega (arith, times-append n xs ys)
