-- ===== src/Epoch.antt =====
-- src/pool/epoch.rs: the epoch slot of a reader, the poll caller's epoch advance, and the queue of
-- frames that await reclamation. A method on `&self` that stores returns the new slot.
pub mod Slots
pub mod Queue
pub mod World
pub mod Invariant
mod Accesses
mod Reclaim
mod Scan
pub mod Grace
mod Tests
use dios.Common.{
  ℕ, zero, suc, ◌+◌, ◌-◌, Bool, true, false, not, ◌&&◌, ◌||◌, if◌then◌else◌, ◌==◌, ltb, leb, Option,
  none, some, List, [], ◌∷◌, ◌++◌, length, Checked, ok, panic, assert, expect, checked_add, u32_max,
  u64_max, ◌>>=◌, ◌>>◌,
}

abbrev pub quiescent : ℕ
quiescent = u64_max

pub record ReaderSlot : Type 0 where
  pub occupied : Bool
  pub local_epoch : ℕ
  pub guard_count : ℕ
  pub peak_guards_per_reader : ℕ
  pub index : ℕ

unfoldable pub vacant : ℕ → ReaderSlot
vacant peak = record {
  occupied = false;
  local_epoch = quiescent;
  guard_count = 0;
  peak_guards_per_reader = peak;
  index = u32_max;
}

-- `ReaderSlot::index`
unfoldable pub slot_index : ReaderSlot → Option ℕ
slot_index s = if not (s.index == u32_max) then some s.index else none

-- The exchange of a vacant flag; the result says whether this caller won.
unfoldable pub try_occupy : ReaderSlot → Bool × ReaderSlot
try_occupy s = if s.occupied then (false, s) else (true, record s { occupied = true })

unfoldable pub vacate : ReaderSlot → Checked ReaderSlot
vacate s = do
  assert s.occupied
  assert (s.guard_count == 0)
  ok (record s { local_epoch = quiescent; guard_count = 0; occupied = false })

-- The result is the field `first` of the `PinBegun` that it mints.
unfoldable pub begin_pin : ReaderSlot → ℕ → Checked (Bool × ReaderSlot)
begin_pin s global_epoch = do
  assert (not (global_epoch == quiescent))
  if s.guard_count == 0 then ok (true, record s { local_epoch = global_epoch }) else ok (false, s)

abbrev pub bool_eq : Bool → Bool → Bool
bool_eq true b = b
bool_eq false b = not b

unfoldable pub commit_pin : ReaderSlot → Bool → Checked ReaderSlot
commit_pin s first = do
  taken ← expect (checked_add u64_max s.guard_count 1)
  assert (leb taken s.peak_guards_per_reader)
  assert (bool_eq first (taken == 1))
  ok (record s { guard_count = taken })

unfoldable pub abort_pin : ReaderSlot → Bool → Checked ReaderSlot
abort_pin s first =
    if first
    then (do assert (s.guard_count == 0); ok (record s { local_epoch = quiescent }))
    else ok s

unfoldable pub release_guard : ReaderSlot → Checked ReaderSlot
release_guard s = do
  assert (ltb 0 s.guard_count)
  let remaining = s.guard_count - 1
  let counted : ReaderSlot = record s { guard_count = remaining }
  ok (if remaining == 0 then record counted { local_epoch = quiescent } else counted)

unfoldable pub permits_advance : ReaderSlot → ℕ → Checked Bool
permits_advance s global_epoch = do
  assert (not (global_epoch == quiescent))
  assert (s.local_epoch == quiescent || leb s.local_epoch global_epoch)
  ok (s.local_epoch == quiescent || s.local_epoch == global_epoch)

-- `slots.iter().all(..)` asks no slot after the first that does not permit.
unfoldable pub all_permit : List ReaderSlot → ℕ → Checked Bool
unfolding permits_advance
all_permit [] epoch = ok true
all_permit (s ∷ slots) epoch =
    let rest = all_permit slots epoch in
    permits_advance s epoch >>= λ permitted. if permitted then rest else ok false

-- `epoch + 1` panics where it overflows; the result is the epoch in force afterwards.
unfoldable pub advance_epoch : ℕ → List ReaderSlot → Checked ℕ
unfolding all_permit
advance_epoch epoch slots = do
  permitted ← all_permit slots epoch
  if permitted then expect (checked_add u64_max epoch 1) else ok epoch

pub record EvictQueue : Type 0 where
  pub entries : List (ℕ × ℕ)
  pub capacity : ℕ

-- The tag of the newest entry, `back()`.
back_tag : ℕ → List (ℕ × ℕ) → ℕ
back_tag last [] = last
back_tag last ((_, tag) ∷ rest) = back_tag tag rest

unfoldable pub push : EvictQueue → ℕ → ℕ → Checked EvictQueue
unfolding back_tag
push q frame tagged_epoch = do
  assert (ltb (length q.entries) q.capacity)
  assert (leb (back_tag 0 q.entries) tagged_epoch)
  ok (record q { entries = q.entries ++ ((frame, tagged_epoch) ∷ []) })

-- The tag of the entry at the front.
unfoldable pub oldest_tagged_epoch : EvictQueue → Option ℕ
oldest_tagged_epoch q = elim q.entries [ [] ↦ none | entry ∷ rest ↦ some entry.1 ]

abbrev pub saturating_add : ℕ → ℕ → ℕ → ℕ
saturating_add top a b = if leb (a + b) top then a + b else top

pub data FrameOutcome : Type 0 where
  freed held : FrameOutcome

abbrev pub freed_count : FrameOutcome → ℕ
freed_count freed = 1
freed_count held = 0

abbrev pub tally {ℓ} : {S : Type ℓ} → FrameOutcome → List (ℕ × ℕ) × S × ℕ → List (ℕ × ℕ) × S × ℕ
tally outcome (left, s, reclaimed) = (left, s, freed_count outcome + reclaimed)

-- `process` is the caller's closure over its state `S`. The result is what is left of the queue, the
-- state, and the number freed.
module _ {ℓ} {S : Type ℓ} (process : ℕ → ℕ → S → FrameOutcome × S) where
  unfoldable pub drain_matured : ℕ → List (ℕ × ℕ) → S → List (ℕ × ℕ) × S × ℕ
  drain_matured global_epoch [] s = ([], s, 0)
  drain_matured global_epoch ((frame, tagged_epoch) ∷ rest) s =
      let done = process frame tagged_epoch s in
      let drained = tally done.0 (drain_matured global_epoch rest done.1) in
      if ltb global_epoch (saturating_add u64_max tagged_epoch 2)
      then ((frame, tagged_epoch) ∷ rest, s, 0)
      else drained
