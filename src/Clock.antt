-- ===== src/Clock.antt =====
-- src/pool/clock.rs: the reference bits, the hand, and the speculation markers. The notification of
-- consumed frames is that of `DirtyFrames`, an argument here.
pub mod Sweep
pub mod Victim
pub mod Markers
pub mod Race
mod Tests
use dios.Common.{
  ℕ, zero, suc, ◌+◌, ◌-◌, ◌%◌, ◌^◌, Bool, true, false, not, if◌then◌else◌, ◌==◌, ltb, leb, Option,
  none, some, List, length, get_elem?, set, replicate, Checked, ok, panic, assert, expect, u32_max,
  u64_max, ◌>>=◌, ◌>>◌,
}

pub record Clock (D : Type 0) : Type 0 where
  pub reference_bits : List Bool
  pub count : ℕ
  pub hand : ℕ
  pub reference_stores : ℕ
  pub speculation : List ℕ
  pub consumed : D
  pub completed : D

pub data SpeculationOutcome : Type 0 where
  absent unconsumed : SpeculationOutcome
  consumed_by : Option ℕ → SpeculationOutcome

-- The sweep's loop, `fuel` rounds of which are left: the bits, the victim, and the new hand.
unfoldable pub sweep : ℕ → List Bool → ℕ → ℕ → Checked (List Bool × ℕ × ℕ)
sweep zero bits hand count = ok (bits, hand, hand)
sweep (suc fuel) bits hand count =
    let onward = sweep fuel (set bits hand false) ((hand + 1) % count) count in
    expect (get_elem? bits hand) >>= λ bit.
    if bit then onward else ok (bits, hand, (hand + 1) % count)

-- What a marker says; `u32::try_from(marker - 2)` panics outside a `u32`.
unfoldable pub outcome_of : ℕ → Checked SpeculationOutcome
outcome_of marker =
    if marker == 0
    then ok absent
    else if marker == 1
    then ok unconsumed
    else if marker == u64_max
    then ok (consumed_by none)
    else if leb (marker - 2) u32_max
    then ok (consumed_by (some (marker - 2)))
    else panic

module _ {D : Type 0} where
  unfoldable pub with_frame_count : D → ℕ → Checked (Clock D)
  with_frame_count fresh frame_count = do
    assert (ltb 0 frame_count)
    ok (record {
      reference_bits = replicate frame_count false;
      count = frame_count;
      hand = 0;
      reference_stores = 0;
      speculation = replicate frame_count 0;
      consumed = fresh;
      completed = fresh;
    })

  abbrev pub checked_index : Clock D → ℕ → Checked ℕ
  checked_index c frame = assert (ltb frame (length c.reference_bits)) >> ok frame

  unfoldable pub is_referenced : Clock D → ℕ → Checked Bool
  is_referenced c frame = do
    index ← checked_index c frame
    expect (get_elem? c.reference_bits index)

  unfoldable pub begin_speculation : Clock D → ℕ → Checked (Clock D)
  begin_speculation c frame = do
    index ← checked_index c frame
    marker ← expect (get_elem? c.speculation index)
    assert (marker == 0)
    ok (record c {
      reference_bits = set c.reference_bits index false;
      speculation = set c.speculation index 1;
    })

  unfoldable pub speculation_consumed : Clock D → ℕ → Checked Bool
  speculation_consumed c frame = do
    index ← checked_index c frame
    marker ← expect (get_elem? c.speculation index)
    ok (leb 2 marker)

  unfoldable pub is_speculative : Clock D → ℕ → Checked Bool
  is_speculative c frame = do
    index ← checked_index c frame
    marker ← expect (get_elem? c.speculation index)
    ok (not (marker == 0))

  unfoldable pub take_speculation : Clock D → ℕ → Checked (SpeculationOutcome × Clock D)
  unfolding outcome_of
  take_speculation c frame = do
    index ← checked_index c frame
    marker ← expect (get_elem? c.speculation index)
    outcome ← outcome_of marker
    ok (outcome, record c { speculation = set c.speculation index 0 })

  -- The hand advances under the control lock; a victim always has a clear bit or was passed over.
  unfoldable pub evict_victim_shared : Clock D → Checked (ℕ × Clock D)
  evict_victim_shared c = do
    (bits, victim, hand) ← sweep (suc c.count) c.reference_bits c.hand c.count
    ok (victim, record c { reference_bits = bits; hand = hand })

-- The marker that a consumer leaves: its index plus two, or the largest word for no reader.
abbrev pub consumer_marker : Option ℕ → ℕ
consumer_marker none = u64_max
consumer_marker (some reader) = reader + 2

-- Where a reader stands in `consume_speculation`, by the access that comes next.
pub data ConsumePhase : Type 0 where
  marker_load marker_exchange consumed_notify : ConsumePhase

-- Where a reader stands in `reference_observed`, and what it returned.
pub data ReferencePhase : Type 0 where
  bit_load bit_store count_store : ReferencePhase
  consuming : ConsumePhase → ReferencePhase
  returned : Bool → ReferencePhase

-- The caller goes on with the store of the bit when `consume_speculation` has returned.
abbrev pub resume : Option ConsumePhase → ReferencePhase
resume none = bit_store
resume (some phase) = consuming phase

module _ {D : Type 0} (notify : D → ℕ → D) where
  -- One access of `consume_speculation`, and the next one unless it returns.
  unfoldable pub consume_step :
      Clock D → ℕ → Option ℕ → ConsumePhase → Checked (Option ConsumePhase × Clock D)
  consume_step c frame reader marker_load = do
    index ← checked_index c frame
    marker ← expect (get_elem? c.speculation index)
    ok (if marker == 1 then some marker_exchange else none, c)
  consume_step c frame reader marker_exchange = do
    index ← checked_index c frame
    marker ← expect (get_elem? c.speculation index)
    ok (
        if marker == 1
        then (
          some consumed_notify,
          record c { speculation = set c.speculation index (consumer_marker reader) },
        )
        else (none, c))
  consume_step c frame reader consumed_notify =
      ok (none, record c { consumed = notify c.consumed frame })

  -- One access of `reference_observed`; a reader that has returned has none left.
  unfoldable pub reference_step :
      Clock D → ℕ → Option ℕ → ReferencePhase → Checked (ReferencePhase × Clock D)
  unfolding consume_step
  reference_step c frame reader bit_load = do
    index ← checked_index c frame
    bit ← expect (get_elem? c.reference_bits index)
    ok (if bit then returned false else consuming marker_load, c)
  reference_step c frame reader (consuming phase) = do
    (onward, after) ← consume_step c frame reader phase
    ok (resume onward, after)
  reference_step c frame reader bit_store = do
    index ← checked_index c frame
    ok (count_store, record c { reference_bits = set c.reference_bits index true })
  reference_step c frame reader count_store =
      ok (returned true, record c { reference_stores = (c.reference_stores + 1) % 2 ^ 64 })
  reference_step c frame reader (returned stored) = ok (returned stored, c)
