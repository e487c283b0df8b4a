-- ===== src/Common/Cyclic.antt =====
-- Positions on a ring of `c` slots.
use Prim.Native.Nat.{ℕ, suc, ◌+◌, ◌-◌, ◌%◌, ◌≤◌, ◌<◌}
use mathlib.Core.Path.{◌≡◌, ap}
use mathlib.Core.Logic.{◌≢◌, ◌⊎◌, inl, inr}
use native.Mathlib.Omega.{arith}
use native.Mathlib.Nat.{mod-eq_of_lt, mod-eq-sub-mod, mod-add-mod}
use native.Mathlib.Decide.{dec_lt}

-- A sum of two positions goes round at most once.
pub add-mod_cases :
    (h a c : ℕ)
    → h < c
    → a < c
    → (((h + a) % c ≡ h + a) × (h + a < c)) ⊎ (((h + a) % c + c ≡ h + a) × (c ≤ h + a))
add-mod_cases h a c p q = elim (dec_lt (h + a) c) [
  | yes lt ↦ inl (mod-eq_of_lt lt, lt)
  | no ge ↦ inr (
    omega (
      arith,
      mod-eq-sub-mod {n = h + a} {m = c} (omega arith),
      mod-eq_of_lt {n = h + a - c} {m = c} (omega arith),
    ),
    omega arith,
  )
]

-- Different offsets below `c` are different positions.
pub add-mod_ne : (h a b c : ℕ) → h < c → a < c → b < c → a ≢ b → (h + a) % c ≢ (h + b) % c
add-mod_ne h a b c p q r ne = omega (arith, add-mod_cases h a c p q, add-mod_cases h b c p r)

pub add-mod_lt : (h a c : ℕ) → h < c → a < c → (h + a) % c < c
add-mod_lt h a c p q = omega (arith, add-mod_cases h a c p q)

-- The step after offset `a`.
pub add-mod_suc : (h a c : ℕ) → ((h + a) % c + 1) % c ≡ (h + suc a) % c
add-mod_suc h a c = rw mod-add-mod (ap (λ k. k % c) (omega arith))
