-- ===== src/Table/Ring.antt =====
-- src/pool/table.rs: slots on the ring, by their distance from a probe's home.
use dios.Common.{
  ℕ, ◌+◌, ◌-◌, ◌%◌, ◌≡◌, ◌≢◌, ◌≤◌, ◌<◌, ◌⊎◌, inl, inr, if◌then◌else◌, leb, ltb, arith, ok, dec_lt,
}
use dios.Common.Cyclic.{add-mod_cases}
use native.Mathlib.Nat.{mod-eq_of_lt, mod-eq-sub-mod}
use dios.Table.{next_slot, cyclic_distance, fills_gap}

-- A remainder of a number below twice the modulus.
mod_once : (x c : ℕ) → x < c + c → ((x < c) × (x % c ≡ x)) ⊎ ((c ≤ x) × (x % c ≡ x - c))
mod_once x c p = elim (dec_lt x c) [
  | yes lt ↦ inl (lt, mod-eq_of_lt lt)
  | no ge ↦ inr (
    omega arith,
    omega (
      arith,
      mod-eq-sub-mod {n = x} {m = c} (omega arith),
      mod-eq_of_lt {n = x - c} {m = c} (omega arith),
    ),
  )
]

-- How far `b` lies after `a` on a ring of `c` slots.
abbrev pub dist : ℕ → ℕ → ℕ → ℕ
dist c a b = if leb a b then b - a else b + c - a

pub dist-add_mod : (c h k : ℕ) → h < c → k < c → dist c h ((h + k) % c) ≡ k
dist-add_mod c h k p q = ground (arith, add-mod_cases h k c p q)

pub add_mod-dist : (c h i : ℕ) → h < c → i < c → (h + dist c h i) % c ≡ i
add_mod-dist c h i p q = ground (arith, mod_once (h + dist c h i) c (ground arith))

-- A whole turn comes back.
pub add_mod_turn : (c h : ℕ) → h < c → (h + c) % c ≡ h
add_mod_turn c h p = ground (arith, mod_once (h + c) c (omega arith))

pub dist-lt : (c h i : ℕ) → h < c → i < c → dist c h i < c
dist-lt c h i p q = ground arith

pub next_slot_cases :
    (c s : ℕ)
    → s < c
    → ((s + 1 ≡ c) × (next_slot c s ≡ 0)) ⊎ ((s + 1 < c) × (next_slot c s ≡ s + 1))
next_slot_cases c s p = ground (arith, mod_once (s + 1) c (omega arith))

pub cyclic_distance-dist : (c a b : ℕ) → a < c → b < c → cyclic_distance c a b ≡ dist c b a
cyclic_distance-dist c a b p q = ground (arith, mod_once (a + c - b) c (omega arith))

-- The test of `fills_gap`: the gap lies on the way from the entry's home to where it is.
pub fills_gap-dist :
    (c h g s : ℕ)
    → h < c
    → g < c
    → s < c
    → s ≢ g
    → fills_gap h g s c ≡ ok (ltb (dist c h g) (dist c h s))
unfolding fills_gap
fills_gap-dist c h g s p q r ne =
    ground (arith, cyclic_distance-dist c s g r q, cyclic_distance-dist c h g p q)
