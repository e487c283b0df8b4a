-- ===== src/Common/Panics.antt =====
-- The result of code that may panic: an `assert!`, an `expect`, an index out of range, an
-- arithmetic overflow in a checked build. A panic carries nothing on.
use Prim.Native.Nat.{ℕ, ◌+◌, ◌-◌}
use mathlib.Core.Path.{◌≡◌, refl}
use mathlib.Core.Logic.{◌⊎◌, inl, inr}
use mathlib.Core.Bool.{Bool, true, false}
use mathlib.Core.Option.{Option, none, some}
use dios.Common.Tests.{ltb, leb, if◌then◌else◌}

pub data Checked {ℓ} (A : Type ℓ) : Type ℓ where
  ok : A → Checked A
  panic : Checked A

infixl 5 ◌>>=◌ ◌>>◌
abbrev pub ◌>>=◌ {ℓ κ} : {A : Type ℓ} {B : Type κ} → Checked A → (A → Checked B) → Checked B
panic >>= next = panic
ok value >>= next = next value

abbrev pub ◌>>◌ {κ} : {B : Type κ} → Checked (Unit {0}) → Checked B → Checked B
check >> rest = check >>= λ done. rest

-- `assert!(b)`
abbrev pub assert : Bool → Checked (Unit {0})
assert false = panic
assert true = ok tt

-- `o.expect(..)`
abbrev pub expect {ℓ} : {A : Type ℓ} → Option A → Checked A
expect (some value) = ok value
expect none = panic

abbrev pub u32_max : ℕ
u32_max = 4294967295

abbrev pub u64_max : ℕ
u64_max = 18446744073709551615

-- `checked_add` on a word whose largest value is `top`, and `checked_sub`.
abbrev pub checked_add : ℕ → ℕ → ℕ → Option ℕ
checked_add top a b = if leb (a + b) top then some (a + b) else none

abbrev pub checked_sub : ℕ → ℕ → Option ℕ
checked_sub a b = if ltb a b then none else some (a - b)

pub Checked-cases {ℓ} : {A : Type ℓ} (c : Checked A) → ((a : A) × (c ≡ ok a)) ⊎ (c ≡ panic)
Checked-cases (ok a) = inl (a, refl)
Checked-cases panic = inr refl
