-- ===== src/Common/Count.antt =====
-- How often a number stands in a list, and the removal of one occurrence.
use Prim.Native.Nat.{ℕ, suc, ◌-◌}
use mathlib.Core.Path.{◌≡◌}
use mathlib.Core.List.{List, [], ◌∷◌}
use native.Mathlib.Omega.{arith}
use dios.Common.Tests.{◌==◌, if◌then◌else◌}

abbrev pub count : ℕ → List ℕ → ℕ
count x [] = 0
count x (y ∷ ys) = if x == y then suc (count x ys) else count x ys

abbrev pub erase : ℕ → List ℕ → List ℕ
erase x [] = []
erase x (y ∷ ys) = if x == y then ys else y ∷ erase x ys

pub count-erase :
    (x y : ℕ) (ys : List ℕ) → count x (erase y ys) ≡ (if x == y then count x ys - 1 else count x ys)
count-erase x y [] = ground arith
count-erase x y (z ∷ zs) = ground (arith, count-erase x y zs)
