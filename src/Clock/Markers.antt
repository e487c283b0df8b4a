-- ===== src/Clock/Markers.antt =====
-- src/pool/clock.rs: the life of a speculation marker, from its start to the outcome taken.
use dios.Common.{
  ℕ, ◌≡◌, ◌≤◌, ◌<◌, false, Option, none, some, length, get_elem?, set, ok, arith, refl, inl, inr,
  u32_max, Option-cases, lt_of_get_elem?,
}
use dios.Clock.{
  Clock, SpeculationOutcome, consumed_by, outcome_of, begin_speculation, take_speculation,
  consumer_marker,
}

-- A reader's index is a `u32`.
abbrev pub InU32 : Option ℕ → Type 0
InU32 none = Unit
InU32 (some reader) = reader ≤ u32_max

-- The marker that any consumer leaves is read back as that consumer.
pub outcome_of-consumer_marker :
    (reader : Option ℕ)
    → InU32 reader
    → outcome_of (consumer_marker reader) ≡ ok (consumed_by reader)
unfolding outcome_of
outcome_of-consumer_marker none p = refl
outcome_of-consumer_marker (some reader) p = ground arith

module _ {D : Type 0} where
  -- The clock once speculation has begun on a frame.
  abbrev pub started : Clock D → ℕ → Clock D
  started c frame = record c {
    reference_bits = set c.reference_bits frame false;
    speculation = set c.speculation frame 1;
  }

  -- What a successful start found and wrote.
  pub begin_speculation-eq-ok :
      (c : Clock D) (frame : ℕ) {begun : Clock D}
      → begin_speculation c frame ≡ ok begun
      → (frame < length c.reference_bits)
        × (frame < length c.speculation)
        × (begun ≡ started c frame)
  unfolding begin_speculation
  begin_speculation-eq-ok c frame e = elim (Option-cases (get_elem? c.speculation frame)) [
    | inl outside ↦ absurd (ground (arith, outside, e))
    | inr (m, at) ↦
        (ground (arith, at, e), lt_of_get_elem? c.speculation frame at, ground (arith, at, e))
  ]

  -- Taking a marker reads it and clears it.
  pub take_speculation-at :
      (c : Clock D) (frame marker : ℕ) (outcome : SpeculationOutcome)
      → frame < length c.reference_bits
      → get_elem? c.speculation frame ≡ some marker
      → outcome_of marker ≡ ok outcome
      → take_speculation c frame
        ≡ ok (outcome, record c { speculation = set c.speculation frame 0 })
  unfolding take_speculation
  take_speculation-at c frame marker outcome p at e = ground (arith, at, e)
