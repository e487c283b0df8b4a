-- ===== src/Epoch/Slots.antt =====
-- src/pool/epoch.rs, `ReaderSlot` and `advance_epoch`: a pin's life, and when the epoch moves.
use dios.Common.{
  ℕ, ◌+◌, ◌≡◌, ◌≢◌, ◌≤◌, ◌<◌, ◌⊎◌, inl, inr, true, false, ◌==◌, List, [], ◌∷◌, refl, arith, u64_max,
  Bool, Bool-cases, if◌then◌else◌, ok, ◌>>=◌, ◌||◌,
}
use dios.Epoch.{
  ReaderSlot, quiescent, begin_pin, commit_pin, abort_pin, release_guard, all_permit, advance_epoch,
}

-- A slot between pins: quiescent exactly when it counts no guard, within its declared peak.
pub record IsSettled (s : ReaderSlot) : Type 0 where
  pub bounded : s.guard_count ≤ s.peak_guards_per_reader
  pub peak : s.peak_guards_per_reader < u64_max
  pub idle : s.guard_count ≡ 0 → s.local_epoch ≡ quiescent
  pub busy : 0 < s.guard_count → s.local_epoch ≢ quiescent

-- A pin from a settled slot below its peak, at an epoch that is not the sentinel. It begins without a
-- panic, and publishes the epoch if it is the first and leaves the published one otherwise; it commits
-- without a panic, counts one guard more and leaves the published epoch; and releasing that guard
-- gives back the slot as it was.
pub release_guard-commit_pin :
    (s : ReaderSlot) (epoch : ℕ)
    → IsSettled s
    → epoch ≢ quiescent
    → s.guard_count < s.peak_guards_per_reader
    → (first : Bool) × (begun committed : ReaderSlot) × (begin_pin s epoch ≡ ok (first, begun))
      × (begun.local_epoch ≡ (if s.guard_count == 0 then epoch else s.local_epoch))
      × (begun.guard_count ≡ s.guard_count)
      × (commit_pin begun first ≡ ok committed)
      × (committed.guard_count ≡ s.guard_count + 1)
      × (committed.local_epoch ≡ begun.local_epoch)
      × (release_guard committed ≡ ok s)
unfolding begin_pin commit_pin release_guard
release_guard-commit_pin s epoch v real room = elim (Bool-cases (s.guard_count == 0)) [
  | inl idle ↦ (
    true,
    record s { local_epoch = epoch },
    record s { local_epoch = epoch; guard_count = s.guard_count + 1 },
    ground (arith, idle),
    ground (arith, idle),
    refl,
    ground (arith, idle, v.peak),
    refl,
    refl,
    ground (arith, idle, v.idle),
  )
  | inr busy ↦ (
    false,
    s,
    record s { guard_count = s.guard_count + 1 },
    ground (arith, busy),
    ground (arith, busy),
    refl,
    ground (arith, busy, v.peak),
    refl,
    refl,
    ground (arith, busy),
  )
]

-- Giving up a pin that has begun at a real epoch gives back the slot as it was before.
pub abort_pin-begin_pin :
    (s : ReaderSlot) (epoch : ℕ)
    → IsSettled s
    → epoch ≢ quiescent
    → (begin_pin s epoch >>= λ b. abort_pin b.1 b.0) ≡ ok s
unfolding begin_pin abort_pin
abort_pin-begin_pin s epoch v real = ground arith

-- No reader constrains the epoch: each is quiescent or at it.
abbrev pub NoneBehind : ℕ → List ReaderSlot → Type 0
NoneBehind epoch [] = Unit
NoneBehind epoch (s ∷ slots) =
    ((s.local_epoch ≡ quiescent) ⊎ (s.local_epoch ≡ epoch)) × NoneBehind epoch slots

-- No reader has published an epoch past the one in force.
abbrev pub NoneAhead : ℕ → List ReaderSlot → Type 0
NoneAhead epoch [] = Unit
NoneAhead epoch (s ∷ slots) =
    ((s.local_epoch ≡ quiescent) ⊎ (s.local_epoch ≤ epoch)) × NoneAhead epoch slots

all_permit_iff :
    (epoch : ℕ) (slots : List ReaderSlot)
    → epoch < quiescent
    → NoneAhead epoch slots
    → ((all_permit slots epoch ≡ ok true) × NoneBehind epoch slots)
      ⊎ ((all_permit slots epoch ≡ ok false) × ¬ NoneBehind epoch slots)
unfolding all_permit
all_permit_iff epoch [] h a = inl (refl, tt)
all_permit_iff epoch (s ∷ slots) h a = elim (all_permit_iff epoch slots h a.1) [
  | inl (e, n) ↦ elim (Bool-cases (s.local_epoch == quiescent || s.local_epoch == epoch)) [
    | inl p ↦ inl (ground (arith, a.0), (ground arith, n))
    | inr p ↦ inr (ground (arith, a.0), λ b. ground (arith, b.0))
  ]
  | inr (e, n) ↦ elim (Bool-cases (s.local_epoch == quiescent || s.local_epoch == epoch)) [
    | inl p ↦ inr (ground (arith, a.0), λ b. n b.1)
    | inr p ↦ inr (ground (arith, a.0), λ b. ground (arith, b.0))
  ]
]

-- One pass moves the epoch by exactly one when every reader is quiescent or at the epoch in force,
-- and leaves it otherwise. It never panics while the epoch is below the sentinel and no reader is
-- ahead of it.
pub advance_epoch_lem :
    (epoch : ℕ) (slots : List ReaderSlot)
    → epoch < quiescent
    → NoneAhead epoch slots
    → ((advance_epoch epoch slots ≡ ok (epoch + 1)) × NoneBehind epoch slots)
      ⊎ ((advance_epoch epoch slots ≡ ok epoch) × ¬ NoneBehind epoch slots)
unfolding advance_epoch
advance_epoch_lem epoch slots h a = elim (all_permit_iff epoch slots h a) [
  | inl (e, n) ↦ inl (ground (arith, e), n)
  | inr (e, n) ↦ inr (ground (arith, e), n)
]
