-- ===== src/Clock/Tests.antt =====
-- src/pool/clock.rs, at a clock of three frames.
use dios.Common.{
  ℕ, ◌≡◌, ◌+◌, ◌%◌, true, false, some, none, List, [], ◌∷◌, length, ok, arith, refl, get_elem?,
  if◌then◌else◌, ◌⊎◌,
}
use dios.Clock.{
  Clock, unconsumed, consumed_by, begin_speculation, take_speculation, evict_victim_shared,
  bit_load, bit_store, consuming, marker_load, marker_exchange, consumed_notify, reference_step,
  consume_step,
}
use dios.Clock.Sweep.{Stop, clear_run, victim_at}
use dios.Clock.Victim.{evict_victim_shared_lem}
use dios.Clock.Race.{
  Reader, AllReaders, is_early, is_notifying, is_past, Racing, moves, Steps, here, next,
}
use dios.Clock.Race.Outcome.{Succeeds, unmarked, take_speculation-Steps}

-- The log of the frames notified stands for `DirtyFrames`.
abbrev three : Clock (List ℕ)
three = record {
  reference_bits = true ∷ true ∷ false ∷ [];
  count = 3;
  hand = 1;
  reference_stores = 0;
  speculation = 0 ∷ 0 ∷ 0 ∷ [];
  consumed = [];
  completed = [];
}

abbrev log_frame : List ℕ → ℕ → List ℕ
log_frame log frame = frame ∷ log

evict_victim_shared_example :
    (s : Stop three.reference_bits three.hand) × (evict_victim_shared three
      ≡ ok (
        victim_at three.reference_bits three.hand s.d,
        record three {
          reference_bits = clear_run three.reference_bits three.hand s.d;
          hand = (victim_at three.reference_bits three.hand s.d + 1) % length three.reference_bits;
        },
      ))
evict_victim_shared_example =
    evict_victim_shared_lem three (record { bits = refl; inside = omega arith })

-- Two readers race for frame 1: both find the marker, and the second one's exchange comes first.
abbrev begun : Clock (List ℕ)
begun = record three { reference_bits = true ∷ false ∷ false ∷ []; speculation = 0 ∷ 1 ∷ 0 ∷ [] }

begins : begin_speculation three 1 ≡ ok begun
unfolding begin_speculation
begins = refl

abbrev rivals : List Reader
rivals =
    record { index = none; phase = bit_load } ∷ record { index = some 4; phase = bit_load } ∷ []

abbrev decided : Racing (List ℕ)
decided = record {
  clock = record begun { speculation = 0 ∷ 6 ∷ 0 ∷ []; consumed = 1 ∷ [] };
  readers =
      record { index = none; phase = bit_store }
      ∷ record { index = some 4; phase = bit_store }
      ∷ [];
}

race : Steps log_frame 1 (record { clock = begun; readers = rivals }) decided
unfolding reference_step consume_step
race =
    next (moves 0 (record { index = none; phase = bit_load }) (consuming marker_load) refl refl) (
      next (moves 1 (record { index = some 4; phase = bit_load }) (consuming marker_load) refl refl)
        (next
          (moves 0 (record { index = none; phase = consuming marker_load })
            (consuming marker_exchange) refl refl)
          (next
            (moves 1 (record { index = some 4; phase = consuming marker_load })
              (consuming marker_exchange) refl refl)
            (next
              (moves 1 (record { index = some 4; phase = consuming marker_exchange })
                (consuming consumed_notify) refl refl)
              (next
                (moves 0 (record { index = none; phase = consuming marker_exchange }) bit_store refl
                  refl)
                (next
                  (moves 1 (record { index = some 4; phase = consuming consumed_notify }) bit_store
                    refl refl)
                  here))))))

take_speculation-Steps_example :
    AllReaders (Succeeds log_frame 1 decided.clock) decided.readers
    × (((take_speculation decided.clock 1 ≡ ok (unconsumed, unmarked log_frame 1 decided.clock))
          × (decided.clock.consumed ≡ [])
          × AllReaders (λ r. is_early r.phase ≡ true) decided.readers)
        ⊎ ((k : ℕ) × (w : Reader) × (get_elem? decided.readers k ≡ some w)
            × (take_speculation decided.clock 1
                ≡ ok (consumed_by w.index, unmarked log_frame 1 decided.clock))
            × (is_past w.phase ≡ true)
            × (decided.clock.consumed ≡ (if is_notifying w.phase then [] else 1 ∷ []))))
take_speculation-Steps_example =
    take_speculation-Steps log_frame 1 three begun rivals decided begins
      ((refl, tt), ((refl, omega arith), tt)) race
