-- ===== src/Clock/Victim.antt =====
-- src/pool/clock.rs, `Clock::evict_victim_shared`: which frame an eviction takes.
use dios.Common.{suc, ◌+◌, ◌%◌, ◌≡◌, ◌<◌, length, ok, arith, refl, sym, ap, ◌∙◌}
use native.Mathlib.Nat.{mod-eq_of_lt}
use dios.Clock.{Clock, sweep, evict_victim_shared}
use dios.Clock.Sweep.{clear_run, Stop, victim_at, sweeps}

-- A clock with a bit for each frame and the hand at one of them.
pub record IsValid {D : Type 0} (c : Clock D) : Type 0 where
  pub bits : length c.reference_bits ≡ c.count
  pub inside : c.hand < c.count

-- The sweep from the clock's hand, with the rounds that an eviction gives it.
evict_sweep :
    {D : Type 0} (c : Clock D)
    → IsValid c
    → (s : Stop c.reference_bits c.hand) × (sweep (suc c.count) c.reference_bits c.hand c.count
        ≡ ok (
          clear_run c.reference_bits c.hand s.d,
          victim_at c.reference_bits c.hand s.d,
          (victim_at c.reference_bits c.hand s.d + 1) % length c.reference_bits,
        ))
evict_sweep c v =
    let bits = c.reference_bits in
    let inside : c.hand < length bits = omega (arith, v.bits, v.inside) in
    let home : victim_at bits c.hand 0 ≡ c.hand =
      ap (λ k. k % length bits) (omega arith) ∙ mod-eq_of_lt inside in
    let (s, r) =
      sweeps bits c.hand inside (suc (length bits)) 0 (omega arith) (omega arith)
        (λ j p. absurd (omega arith)) in
    (
      s,
      ap (λ n. sweep (suc n) bits c.hand n) (sym v.bits)
          ∙ ap (λ at. sweep (suc (length bits)) bits at (length bits)) (sym home)
          ∙ r,
    )

-- On a valid clock an eviction always names a victim, within the rounds that the code allows. It
-- passed the frames from the hand up to the victim, all referenced, and cleared exactly their
-- bits; the victim is the first clear frame from the hand, or the frame at the hand itself where
-- every frame was referenced. The hand moves to the frame after the victim, and no other part of
-- the clock changes.
pub evict_victim_shared_lem :
    {D : Type 0} (c : Clock D)
    → IsValid c
    → (s : Stop c.reference_bits c.hand) × (evict_victim_shared c
        ≡ ok (
          victim_at c.reference_bits c.hand s.d,
          record c {
            reference_bits = clear_run c.reference_bits c.hand s.d;
            hand = (victim_at c.reference_bits c.hand s.d + 1) % length c.reference_bits;
          },
        ))
unfolding evict_victim_shared
evict_victim_shared_lem c v = let (s, r) = evict_sweep c v in (s, rw r refl)
