-- ===== src/Driver/Files.antt =====
-- src/driver.rs: the table of a driver's files, with the generation, the state and the operations in
-- flight of each slot. A debug assertion is an assertion here.
pub mod Effects
pub mod Closed
pub mod Retire
use dios.Common.{
  ℕ, zero, suc, ◌+◌, ◌-◌, Bool, true, false, not, ◌&&◌, ◌||◌, if◌then◌else◌, ◌==◌, ltb, leb, Option,
  none, some, List, [], ◌∷◌, ◌++◌, length, get_elem?, set, replicate, take, drop, min, Checked, ok,
  panic, assert, expect, checked_add, u32_max, ◌>>=◌, ◌>>◌,
}
use dios.Ids.{FileId}

pub data FileState : Type 0 where
  free opened closing closed : FileState

abbrev pub is_free : FileState → Bool
is_free free = true
is_free _ = false

abbrev pub is_opened : FileState → Bool
is_opened opened = true
is_opened _ = false

abbrev pub is_closing : FileState → Bool
is_closing closing = true
is_closing _ = false

abbrev pub is_closed_state : FileState → Bool
is_closed_state closed = true
is_closed_state _ = false

pub record FileSlot : Type 0 where
  pub generation : ℕ
  pub state : FileState
  pub inflight : ℕ

pub record FileTable : Type 0 where
  pub slots : List FileSlot

abbrev pub vacant_slot : FileSlot
vacant_slot = record { generation = 0; state = free; inflight = 0 }

unfoldable pub with_capacity : ℕ → FileTable
with_capacity capacity = record { slots = replicate capacity vacant_slot }

-- `.any(|slot| slot.generation != 0 || slot.state != FileState::Free)`
abbrev pub any_used : List FileSlot → Bool
any_used [] = false
any_used (s ∷ slots) = (not (s.generation == 0) || not (is_free s.state)) || any_used slots

unfoldable pub resized : FileTable → ℕ → Option FileTable
resized t capacity =
    let copied = min capacity (length t.slots) in
    if any_used (drop copied t.slots)
    then none
    else some (record { slots = take copied t.slots ++ replicate (capacity - copied) vacant_slot })

-- The loop of `FileTable::open` from `index` on; `u32::try_from(index).ok()?` comes after the writes.
unfoldable pub open_from : ℕ → ℕ → List FileSlot → Checked (Option FileId × List FileSlot)
open_from driver index [] = ok (none, [])
open_from driver index (s ∷ slots) =
    let next = open_from driver (suc index) slots in
    if is_free s.state || is_closed_state s.state
    then (do
      assert (ltb s.generation u32_max)
      let id : FileId = record { driver = driver; slot = index; generation = s.generation + 1 }
      ok (
        if leb index u32_max then some id else none,
        record { generation = s.generation + 1; state = opened; inflight = 0 } ∷ slots,
      ))
    else (next >>= λ r. ok (r.0, s ∷ r.1))

-- `FileTable::open`
unfoldable pub open_file : FileTable → ℕ → Checked (Option FileId × FileTable)
unfolding open_from
open_file t driver = open_from driver 0 t.slots >>= λ r. ok (r.0, record { slots = r.1 })

unfoldable pub is_live : FileTable → FileId → Checked Bool
is_live t id = do
  slot ← expect (get_elem? t.slots id.slot)
  ok (slot.generation == id.generation && is_opened slot.state)

-- The sum of `u32` counts, which panics where it overflows.
unfoldable pub total_inflight : List FileSlot → Checked ℕ
total_inflight [] = ok 0
total_inflight (s ∷ slots) =
    total_inflight slots >>= λ rest. expect (checked_add u32_max s.inflight rest)

unfoldable pub is_closed : FileTable → FileId → Checked Bool
is_closed t id = do
  slot ← expect (get_elem? t.slots id.slot)
  ok (
      ltb id.generation slot.generation
      || (slot.generation == id.generation && is_closed_state slot.state))

unfoldable pub on_submit : FileTable → FileId → Checked FileTable
on_submit t id = do
  slot ← expect (get_elem? t.slots id.slot)
  assert (slot.generation == id.generation)
  assert (ltb slot.inflight u32_max)
  ok (record { slots = set t.slots id.slot (record slot { inflight = slot.inflight + 1 }) })

-- The result says that the completion ends a deferred close.
unfoldable pub on_complete : FileTable → FileId → Checked (Bool × FileTable)
on_complete t id = do
  slot ← expect (get_elem? t.slots id.slot)
  assert (slot.generation == id.generation)
  assert (ltb 0 slot.inflight)
  ok (
    slot.inflight - 1 == 0 && is_closing slot.state,
    record { slots = set t.slots id.slot (record slot { inflight = slot.inflight - 1 }) },
  )

unfoldable pub finish_retire : FileTable → FileId → Checked FileTable
finish_retire t id = do
  slot ← expect (get_elem? t.slots id.slot)
  assert (slot.generation == id.generation)
  assert (is_closing slot.state)
  assert (slot.inflight == 0)
  ok (record { slots = set t.slots id.slot (record slot { state = closed }) })

-- The result says that the file may be retired at once.
unfoldable pub close : FileTable → FileId → Checked (Bool × FileTable)
close t id = do
  slot ← expect (get_elem? t.slots id.slot)
  assert (slot.generation == id.generation)
  assert (is_opened slot.state)
  ok (slot.inflight == 0, record { slots = set t.slots id.slot (record slot { state = closing }) })

unfoldable pub abort_open : FileTable → FileId → Checked FileTable
abort_open t id = do
  slot ← expect (get_elem? t.slots id.slot)
  assert (slot.generation == id.generation)
  assert (is_opened slot.state)
  assert (slot.inflight == 0)
  ok (record { slots = set t.slots id.slot (record slot { state = free }) })
