-- ===== src/Clock/Race.antt =====
-- src/pool/clock.rs: readers that observe one frame at once, an atomic access at a time, and the
-- sweep's stores among them. A frame's speculation begins before readers can reach the frame, so
-- `begin_speculation` is one step, as is the one swap of `take_speculation`.
use dios.Common.{ℕ, ◌≡◌, Bool, true, false, Option, some, List, [], ◌∷◌, get_elem?, set, ok}
use dios.Clock.{
  Clock, ReferencePhase, bit_load, bit_store, count_store, consuming, returned, marker_load,
  marker_exchange, consumed_notify, reference_step,
}
pub mod Credit
pub mod Winner
pub mod Outcome
use dios.Clock.Markers.{InU32}

pub record Reader : Type 0 where
  pub index : Option ℕ
  pub phase : ReferencePhase

abbrev pub AllReaders : (Reader → Type 0) → List Reader → Type 0
AllReaders P [] = Unit
AllReaders P (r ∷ readers) = P r × AllReaders P readers

-- A reader that is about to observe the frame.
abbrev pub IsFresh : Reader → Type 0
IsFresh r = (r.phase ≡ bit_load) × InU32 r.index

-- A reader that has not come to the marker's exchange, or that is at it.
abbrev pub is_early : ReferencePhase → Bool
is_early bit_load = true
is_early (consuming marker_load) = true
is_early (consuming marker_exchange) = true
is_early (consuming consumed_notify) = false
is_early bit_store = false
is_early count_store = false
is_early (returned stored) = false

-- A reader whose exchange took the marker, and that is about to notify.
abbrev pub is_notifying : ReferencePhase → Bool
is_notifying (consuming consumed_notify) = true
is_notifying (consuming marker_load) = false
is_notifying (consuming marker_exchange) = false
is_notifying bit_load = false
is_notifying bit_store = false
is_notifying count_store = false
is_notifying (returned stored) = false

-- A reader that may have taken the marker.
abbrev pub is_past : ReferencePhase → Bool
is_past (consuming consumed_notify) = true
is_past bit_store = true
is_past count_store = true
is_past (returned stored) = stored
is_past bit_load = false
is_past (consuming marker_load) = false
is_past (consuming marker_exchange) = false

pub record Racing (D : Type 0) : Type 0 where
  pub clock : Clock D
  pub readers : List Reader

module _ {D : Type 0} (notify : D → ℕ → D) (frame : ℕ) where
  pub data Step : Racing D → Racing D → Type 0 where
    moves :
        {s : Racing D} {after : Clock D} (k : ℕ) (r : Reader) (phase : ReferencePhase)
        → get_elem? s.readers k ≡ some r
        → reference_step notify s.clock frame r.index r.phase ≡ ok (phase, after)
        → Step s (record {
          clock = after;
          readers = set s.readers k (record { index = r.index; phase = phase });
        })
    clears :
        {s : Racing D} (at : ℕ)
        → Step s (record {
          clock = record s.clock { reference_bits = set s.clock.reference_bits at false };
          readers = s.readers;
        })

  pub data Steps : Racing D → Racing D → Type 0 where
    here : {s : Racing D} → Steps s s
    next : {s s' s'' : Racing D} → Step s s' → Steps s' s'' → Steps s s''
