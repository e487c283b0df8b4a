-- ===== src/Clock/Race/Credit.antt =====
-- src/pool/clock.rs: among readers that race for a frame's marker, one is credited.
use dios.Common.{
  ℕ, ◌≡◌, ◌≢◌, ◌<◌, ◌⊎◌, inl, inr, true, false, if◌then◌else◌, Option, none, some, List, length,
  get_elem?, set, ok, arith, refl, sym, subst, ap, ◌∙◌, ℕ_discrete, Option-cases, lt_of_get_elem?,
  get_elem?-set_self, get_elem?-set_ne, length-set,
}
use dios.Clock.{
  Clock, ReferencePhase, bit_load, bit_store, count_store, consuming, returned, marker_load,
  marker_exchange, consumed_notify, reference_step, consume_step, consumer_marker,
}
use dios.Clock.Markers.{InU32}
use dios.Clock.Race.{Reader, is_early, is_notifying, is_past, Racing}

module _ {D : Type 0} (notify : D → ℕ → D) (frame : ℕ) where
  -- While the marker waits: an access of an early reader changes nothing, or takes the marker.
  step_early :
      (c : Clock D) (index : Option ℕ) (phase : ReferencePhase) {phase' : ReferencePhase}
      {after : Clock D}
      → get_elem? c.reference_bits frame ≡ some false
      → get_elem? c.speculation frame ≡ some 1
      → is_early phase ≡ true
      → reference_step notify c frame index phase ≡ ok (phase', after)
      → ((after ≡ c) × (is_early phase' ≡ true))
        ⊎ ((after ≡ record c { speculation = set c.speculation frame (consumer_marker index) })
            × (phase' ≡ consuming consumed_notify))
  unfolding reference_step consume_step
  step_early c index bit_load bit marker early e =
      inl (ground (arith, bit, e), ground (arith, bit, e))
  step_early c index (consuming marker_load) bit marker early e =
      inl (ground (arith, marker, e), ground (arith, marker, e))
  step_early c index (consuming marker_exchange) bit marker early e =
      inr (ground (arith, marker, e), ground (arith, marker, e))
  step_early c index (consuming consumed_notify) bit marker early e = absurd (ground (arith, early))
  step_early c index bit_store bit marker early e = absurd (ground (arith, early))
  step_early c index count_store bit marker early e = absurd (ground (arith, early))
  step_early c index (returned stored) bit marker early e = absurd (ground (arith, early))

  -- An access that leaves markers and notifications alone, and lets no reader notify.
  pub record IsQuiet (c after : Clock D) (phase phase' : ReferencePhase) : Type 0 where
    pub markers : after.speculation ≡ c.speculation
    pub notified : after.consumed ≡ c.consumed
    pub size : length after.reference_bits ≡ length c.reference_bits
    pub calm : is_notifying phase' ≡ false
    pub keeps_past : is_past phase ≡ true → is_past phase' ≡ true

  -- Once the marker is taken, any access but the notification is such a one.
  pub step-IsQuiet :
      (c : Clock D) (index : Option ℕ) (phase : ReferencePhase) {phase' : ReferencePhase}
      {after : Clock D} (marker : ℕ)
      → get_elem? c.speculation frame ≡ some marker
      → marker ≢ 1
      → is_notifying phase ≡ false
      → reference_step notify c frame index phase ≡ ok (phase', after)
      → IsQuiet c after phase phase'
  unfolding reference_step consume_step
  step-IsQuiet c index bit_load marker at taken calm e =
      elim (Option-cases (get_elem? c.reference_bits frame)) [
        | inl outside ↦ absurd (ground (arith, outside, e))
        | inr (bit, here_bit) ↦ record {
          markers = ground (arith, here_bit, e);
          notified = ground (arith, here_bit, e);
          size = ground (arith, here_bit, e);
          calm = ground (arith, here_bit, e);
          keeps_past = λ p. absurd (ground (arith, p));
        }
      ]
  step-IsQuiet c index (consuming marker_load) marker at taken calm e = record {
    markers = ground (arith, at, taken, e);
    notified = ground (arith, at, taken, e);
    size = ground (arith, at, taken, e);
    calm = ground (arith, at, taken, e);
    keeps_past = λ p. absurd (ground (arith, p));
  }
  step-IsQuiet c index (consuming marker_exchange) marker at taken calm e = record {
    markers = ground (arith, at, taken, e);
    notified = ground (arith, at, taken, e);
    size = ground (arith, at, taken, e);
    calm = ground (arith, at, taken, e);
    keeps_past = λ p. absurd (ground (arith, p));
  }
  step-IsQuiet c index (consuming consumed_notify) marker at taken calm e =
      absurd (ground (arith, calm))
  step-IsQuiet c index bit_store marker at taken calm e = record {
    markers = ground (arith, e);
    notified = ground (arith, e);
    size = ground (arith, e, length-set c.reference_bits frame true);
    calm = ground (arith, e);
    keeps_past = λ p. ground (arith, e);
  }
  step-IsQuiet c index count_store marker at taken calm e = record {
    markers = ground (arith, e);
    notified = ground (arith, e);
    size = ground (arith, e);
    calm = ground (arith, e);
    keeps_past = λ p. ground (arith, e);
  }
  step-IsQuiet c index (returned stored) marker at taken calm e = record {
    markers = ground (arith, e);
    notified = ground (arith, e);
    size = ground (arith, e);
    calm = ground (arith, e);
    keeps_past = λ p. ground (arith, e, p);
  }

  -- The race before the exchange that takes the marker.
  pub record IsOpen (d0 : D) (s : Racing D) : Type 0 where
    pub bit : get_elem? s.clock.reference_bits frame ≡ some false
    pub marker : get_elem? s.clock.speculation frame ≡ some 1
    pub consumed : s.clock.consumed ≡ d0
    pub early : (k : ℕ) (r : Reader) → get_elem? s.readers k ≡ some r → is_early r.phase ≡ true

  -- The race after it, which reader `k` has won.
  pub record IsWon (d0 : D) (s : Racing D) (k : ℕ) (w : Reader) : Type 0 where
    pub at : get_elem? s.readers k ≡ some w
    pub past : is_past w.phase ≡ true
    pub marker : get_elem? s.clock.speculation frame ≡ some (consumer_marker w.index)
    pub consumed : s.clock.consumed ≡ (if is_notifying w.phase then d0 else notify d0 frame)
    pub others :
        (j : ℕ) (r : Reader) → j ≢ k → get_elem? s.readers j ≡ some r → is_notifying r.phase ≡ false

  pub record IsRace (d0 : D) (s : Racing D) : Type 0 where
    pub inside : frame < length s.clock.reference_bits
    pub small : (k : ℕ) (r : Reader) → get_elem? s.readers k ≡ some r → InU32 r.index
    pub credit : IsOpen d0 s ⊎ ((k : ℕ) × (w : Reader) × IsWon d0 s k w)

  -- What holds of the readers before a reader is written holds after, if it holds of that reader.
  pub readers_set :
      (P : ℕ → Reader → Type 0) (readers : List Reader) (k : ℕ) (r r' : Reader)
      → get_elem? readers k ≡ some r
      → ((j : ℕ) (x : Reader) → j ≢ k → get_elem? readers j ≡ some x → P j x)
      → P k r'
      → (j : ℕ) (x : Reader) → get_elem? (set readers k r') j ≡ some x
      → P j x
  readers_set P readers k r r' at old mine j x here_j = elim (ℕ_discrete k j) [
    | yes same ↦
        let is : some r' ≡ some x =
          sym (get_elem?-set_self readers k r' (lt_of_get_elem? readers k at))
          ∙ subst (λ i. get_elem? (set readers k r') i ≡ some x) (sym same) here_j in
        subst (λ i. P i x) same (subst (λ y. P k y) (ground (arith, is)) mine)
    | no ne ↦ old j x (λ e. ne (sym e)) (sym (get_elem?-set_ne readers k j r' ne) ∙ here_j)
  ]

  pub consumer_marker-ne_one : (index : Option ℕ) → consumer_marker index ≢ 1
  consumer_marker-ne_one none = λ e. absurd (omega (arith, e))
  consumer_marker-ne_one (some reader) = λ e. absurd (omega (arith, e))

  early_calm : (phase : ReferencePhase) → is_early phase ≡ true → is_notifying phase ≡ false
  early_calm bit_load e = refl
  early_calm bit_store e = refl
  early_calm count_store e = refl
  early_calm (returned stored) e = refl
  early_calm (consuming marker_load) e = refl
  early_calm (consuming marker_exchange) e = refl
  early_calm (consuming consumed_notify) e = absurd (ground (arith, e))

  -- An access while the race is open.
  pub moves-IsOpen :
      (d0 : D) (s : Racing D) (k : ℕ) (r : Reader) (phase : ReferencePhase) (after : Clock D)
      → frame < length s.clock.reference_bits
      → IsOpen d0 s
      → get_elem? s.readers k ≡ some r
      → reference_step notify s.clock frame r.index r.phase ≡ ok (phase, after)
      → let w : Reader = record { index = r.index; phase = phase } in
        let s' : Racing D = record { clock = after; readers = set s.readers k w } in
        (after.reference_bits ≡ s.clock.reference_bits) × (IsOpen d0 s' ⊎ IsWon d0 s' k w)
  moves-IsOpen d0 s k r phase after inside v at e =
      elim (step_early s.clock r.index r.phase v.bit v.marker (v.early k r at) e) [
        | inl (same, early) ↦ (
          ap (λ c. c.reference_bits) same,
          inl (record {
            bit = subst (λ c. get_elem? c.reference_bits frame ≡ some false) (sym same) v.bit;
            marker = subst (λ c. get_elem? c.speculation frame ≡ some 1) (sym same) v.marker;
            consumed = ap (λ c. c.consumed) same ∙ v.consumed;
            early =
                readers_set (λ j x. is_early x.phase ≡ true) s.readers k r
                  (record { index = r.index; phase = phase }) at (λ j x ne. v.early j x) early;
          }),
        )
        | inr (taken, notifying) ↦ (
          ap (λ c. c.reference_bits) taken,
          inr (record {
            at =
                get_elem?-set_self s.readers k (record { index = r.index; phase = phase })
                  (lt_of_get_elem? s.readers k at);
            past = ap is_past notifying;
            marker =
                subst (λ c. get_elem? c.speculation frame ≡ some (consumer_marker r.index))
                  (sym taken)
                  (get_elem?-set_self s.clock.speculation frame (consumer_marker r.index)
                    (lt_of_get_elem? s.clock.speculation frame v.marker));
            consumed =
                ap (λ c. c.consumed) taken
                ∙ v.consumed
                ∙ ap (λ p. if is_notifying p then d0 else notify d0 frame) (sym notifying);
            others = λ j x ne here_j. early_calm x.phase (
                v.early j x (
                  sym (
                    get_elem?-set_ne s.readers k j (record { index = r.index; phase = phase })
                      (λ same. ne (sym same)))
                  ∙ here_j));
          }),
        )
      ]
