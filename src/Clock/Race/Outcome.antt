-- ===== src/Clock/Race/Outcome.antt =====
-- src/pool/clock.rs: what taking a frame's marker gives, whatever readers raced for it.
use dios.Common.{
  ℕ, ◌≡◌, ◌<◌, ◌⊎◌, inl, inr, Bool, true, false, if◌then◌else◌, Option, some, List, [], ◌∷◌, length,
  ◌==◌, ◌+◌, ◌%◌, ◌^◌, get_elem?, set, ok, arith, refl, sym, subst, ap, ◌∙◌, zero, suc, ℕ_discrete,
  get_elem?_lt, lt_of_get_elem?, get_elem?-set_self, get_elem?-set_ne, length-set,
}
use dios.Clock.{
  Clock, ReferencePhase, bit_load, bit_store, consuming, marker_load, marker_exchange,
  consumed_notify, count_store, returned, reference_step, consume_step, unconsumed, consumed_by,
  outcome_of, begin_speculation, take_speculation, consumer_marker,
}
use dios.Clock.Markers.{
  InU32, outcome_of-consumer_marker, begin_speculation-eq-ok, take_speculation-at,
}
use dios.Clock.Race.{
  Reader, AllReaders, IsFresh, is_early, is_notifying, is_past, Racing, Step, moves, clears, Steps,
  here, next,
}
use dios.Clock.Race.Credit.{IsRace, readers_set, moves-IsOpen}
use dios.Clock.Race.Winner.{moves-IsWon}

AllReaders-lookup :
    (P : Reader → Type 0) (readers : List Reader) (k : ℕ) (r : Reader)
    → AllReaders P readers
    → get_elem? readers k ≡ some r
    → P r
AllReaders-lookup P [] k r all at = absurd (ground (arith, at))
AllReaders-lookup P (x ∷ readers) zero r (mine, all) at = subst P (ground (arith, at)) mine
AllReaders-lookup P (x ∷ readers) (suc k) r (mine, all) at = AllReaders-lookup P readers k r all at

AllReaders-build :
    (P : Reader → Type 0) (readers : List Reader)
    → ((k : ℕ) (r : Reader) → get_elem? readers k ≡ some r → P r)
    → AllReaders P readers
AllReaders-build P [] each = tt
AllReaders-build P (x ∷ readers) each =
    (each 0 x refl, AllReaders-build P readers (λ k. each (suc k)))

module _ {D : Type 0} (notify : D → ℕ → D) (frame : ℕ) where
  -- The sweep's stores leave a clear bit clear.
  clears_bit :
      (bits : List Bool) (at : ℕ)
      → get_elem? bits frame ≡ some false
      → get_elem? (set bits at false) frame ≡ some false
  clears_bit bits at e = elim (ℕ_discrete at frame) [
    | yes same ↦
        subst (λ i. get_elem? (set bits at false) i ≡ some false) same
          (get_elem?-set_self bits at false
            (subst (λ i. i < length bits) (sym same) (lt_of_get_elem? bits frame e)))
    | no ne ↦ get_elem?-set_ne bits at frame false ne ∙ e
  ]

  Step-IsRace :
      (d0 : D) {s s' : Racing D}
      → IsRace notify frame d0 s
      → Step notify frame s s'
      → IsRace notify frame d0 s'
  Step-IsRace d0 v (moves {s} {after} k r phase at e) =
      let r' : Reader = record { index = r.index; phase = phase } in
      let small =
        readers_set notify frame (λ j x. InU32 x.index) s.readers k r r' at (λ j x ne. v.small j x)
          (v.small k r at) in
      elim v.credit [
        | inl early ↦
            let (bits, credit) =
              moves-IsOpen notify frame d0 s k r phase after v.inside early at e in
            record {
              inside = subst (λ b. frame < length b) (sym bits) v.inside;
              small = small;
              credit = elim credit [ inl still ↦ inl still | inr won ↦ inr (k, r', won) ];
            }
        | inr (i, w, won) ↦
            let (size, credit) = moves-IsWon notify frame d0 s i k w r phase after won at e in
            record {
              inside = subst (λ n. frame < n) (sym size) v.inside;
              small = small;
              credit = inr credit;
            }
      ]
  Step-IsRace d0 v (clears {s} at) = record {
    inside = subst (λ n. frame < n) (sym (length-set s.clock.reference_bits at false)) v.inside;
    small = v.small;
    credit = elim v.credit [
      | inl o ↦ inl (record {
        bit = clears_bit s.clock.reference_bits at o.bit;
        marker = o.marker;
        consumed = o.consumed;
        early = o.early;
      })
      | inr (k, w, won) ↦ inr (
        k,
        w,
        record {
          at = won.at;
          past = won.past;
          marker = won.marker;
          consumed = won.consumed;
          others = won.others;
        },
      )
    ];
  }

  Steps-IsRace :
      (d0 : D) {s s' : Racing D}
      → IsRace notify frame d0 s
      → Steps notify frame s s'
      → IsRace notify frame d0 s'
  Steps-IsRace d0 v here = v
  Steps-IsRace d0 v (next a l) = Steps-IsRace d0 (Step-IsRace d0 v a) l

  started-IsRace :
      (c begun : Clock D) (readers : List Reader)
      → begin_speculation c frame ≡ ok begun
      → AllReaders IsFresh readers
      → IsRace notify frame c.consumed (record { clock = begun; readers = readers })
  started-IsRace c begun readers e all =
      let (inside, marked, is) = begin_speculation-eq-ok c frame e in
      subst (λ b. IsRace notify frame c.consumed (record { clock = b; readers = readers })) (sym is)
        (record {
          inside = subst (λ n. frame < n) (sym (length-set c.reference_bits frame false)) inside;
          small = λ k r at. (AllReaders-lookup IsFresh readers k r all at).1;
          credit = inl (record {
            bit = get_elem?-set_self c.reference_bits frame false inside;
            marker = get_elem?-set_self c.speculation frame 1 marked;
            consumed = refl;
            early = λ k r at. ap is_early (AllReaders-lookup IsFresh readers k r all at).0;
          });
        })

  -- An access does not panic.
  reference_step-ok :
      (c : Clock D) (index : Option ℕ) (phase : ReferencePhase) (marker : ℕ)
      → frame < length c.reference_bits
      → get_elem? c.speculation frame ≡ some marker
      → (phase' : ReferencePhase) × (after : Clock D) × (reference_step notify c frame index phase
          ≡ ok (phase', after))
  unfolding reference_step consume_step
  reference_step-ok c index bit_load marker p at =
      let (bit, loaded) = get_elem?_lt c.reference_bits frame p in
      (if bit then returned false else consuming marker_load, c, ground (arith, loaded))
  reference_step-ok c index (consuming marker_load) marker p at =
      (if marker == 1 then consuming marker_exchange else bit_store, c, ground (arith, at))
  reference_step-ok c index (consuming marker_exchange) marker p at = (
    if marker == 1 then consuming consumed_notify else bit_store,
    if marker == 1
        then record c { speculation = set c.speculation frame (consumer_marker index) }
        else c,
    ground (arith, at),
  )
  reference_step-ok c index (consuming consumed_notify) marker p at =
      (bit_store, record c { consumed = notify c.consumed frame }, refl)
  reference_step-ok c index bit_store marker p at =
      (count_store, record c { reference_bits = set c.reference_bits frame true }, ground arith)
  reference_step-ok c index count_store marker p at =
      (returned true, record c { reference_stores = (c.reference_stores + 1) % 2 ^ 64 }, refl)
  reference_step-ok c index (returned stored) marker p at = (returned stored, c, refl)

  -- The next access of a reader succeeds.
  abbrev pub Succeeds : Clock D → Reader → Type 0
  Succeeds c r =
      (phase : ReferencePhase) × (after : Clock D) × (reference_step notify c frame r.index r.phase
        ≡ ok (phase, after))

  abbrev pub unmarked : Clock D → Clock D
  unmarked c = record c { speculation = set c.speculation frame 0 }

  -- A frame that is read ahead is credited once, to the one reader that took its marker. Speculation
  -- begins on a frame, and from then on any number of readers with `u32` indices observe it at once:
  -- their atomic accesses follow one another in any order, with stores of the sweep that clear bits in
  -- between. Then the next access of every reader succeeds, and taking the marker clears it and tells
  -- what happened. Either it gives no consumer: no reader has come past its exchange of the marker or
  -- returned, and no notification was sent. Or it gives one of the readers, which has come past
  -- its exchange: before that reader's own notification none was sent, and after it exactly one.
  pub take_speculation-Steps :
      (c begun : Clock D) (readers : List Reader) (s : Racing D)
      → begin_speculation c frame ≡ ok begun
      → AllReaders IsFresh readers
      → Steps notify frame (record { clock = begun; readers = readers }) s
      → AllReaders (Succeeds s.clock) s.readers
        × (((take_speculation s.clock frame ≡ ok (unconsumed, unmarked s.clock))
              × (s.clock.consumed ≡ c.consumed)
              × AllReaders (λ r. is_early r.phase ≡ true) s.readers)
            ⊎ ((k : ℕ) × (w : Reader) × (get_elem? s.readers k ≡ some w)
                × (take_speculation s.clock frame ≡ ok (consumed_by w.index, unmarked s.clock))
                × (is_past w.phase ≡ true)
                × (s.clock.consumed
                    ≡ (if is_notifying w.phase then c.consumed else notify c.consumed frame))))
  unfolding outcome_of
  take_speculation-Steps c begun readers s e all steps =
      let v = Steps-IsRace c.consumed (started-IsRace c begun readers e all) steps in
      elim v.credit [
        | inl o ↦ (
          AllReaders-build (Succeeds s.clock) s.readers
              (λ k r at. reference_step-ok s.clock r.index r.phase 1 v.inside o.marker),
          inl (
            take_speculation-at s.clock frame 1 unconsumed v.inside o.marker refl,
            o.consumed,
            AllReaders-build (λ r. is_early r.phase ≡ true) s.readers o.early,
          ),
        )
        | inr (k, w, won) ↦ (
          AllReaders-build (Succeeds s.clock) s.readers (λ j r at.
              reference_step-ok s.clock r.index r.phase (consumer_marker w.index) v.inside
                won.marker),
          inr (
            k,
            w,
            won.at,
            take_speculation-at s.clock frame (consumer_marker w.index) (consumed_by w.index)
                v.inside won.marker (outcome_of-consumer_marker w.index (v.small k w won.at)),
            won.past,
            won.consumed,
          ),
        )
      ]
