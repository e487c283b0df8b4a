-- ===== src/FileSlots.antt =====
-- src/pool/file_slots.rs: fixed slots, each in the intrusive list of the file that owns its value. A
-- link is an index plus one, and zero is none; the links of an end of a list name the slot itself.
pub mod Links
mod Tests
use dios.Common.{
  ℕ, zero, suc, ◌+◌, ◌-◌, Bool, true, false, if◌then◌else◌, ◌==◌, ltb, Option, none, some, List, [],
  ◌∷◌, length, get_elem?, set, replicate, Checked, ok, panic, assert, expect, checked_add,
  checked_sub, u32_max, ◌>>=◌, ◌>>◌,
}

-- `SlotLink::from_index` and `SlotLink::index`
abbrev pub link_of : ℕ → Checked ℕ
link_of index = expect (checked_add u32_max index 1)

abbrev pub link_index : ℕ → Option ℕ
link_index link = checked_sub link 1

pub record MemberSlot (T : Type 0) : Type 0 where
  pub previous : ℕ
  pub next : ℕ
  pub value : Option T

pub record FileSlots (T : Type 0) : Type 0 where
  pub slots : List (MemberSlot T)
  pub heads : List ℕ

module _ {T : Type 0} where
  unfoldable pub get_value : MemberSlot T → Option T
  get_value slot = elim (link_index slot.next) [ none ↦ none | some _ ↦ slot.value ]

  unfoldable pub vacant_slots : ℕ → ℕ → Checked (FileSlots T)
  vacant_slots capacity file_capacity = do
    assert (ltb 0 capacity)
    ok (record {
      slots = replicate capacity (record { previous = 0; next = 0; value = none });
      heads = replicate file_capacity 0;
    })

  -- The old head's new predecessor.
  abbrev pub link_head : List (MemberSlot T) → ℕ → ℕ → Checked (List (MemberSlot T))
  link_head slots old_head link = elim (link_index old_head) [
    | none ↦ ok slots
    | some head ↦ (do
      h ← expect (get_elem? slots head)
      assert (h.previous == old_head)
      ok (set slots head (record h { previous = link })))
  ]

  -- What takes the removed slot's place before it and after it.
  abbrev pub unlink_before : FileSlots T → ℕ → ℕ → ℕ → ℕ → Checked (FileSlots T)
  unlink_before s owner link previous next =
      if previous == link
      then (do
        head ← expect (get_elem? s.heads owner)
        assert (head == link)
        ok (record s { heads = set s.heads owner (if next == link then 0 else next) }))
      else (do
        before ← expect (link_index previous)
        b ← expect (get_elem? s.slots before)
        assert (b.next == link)
        ok (record s {
          slots = set s.slots before (record b { next = if next == link then previous else next });
        }))

  abbrev pub unlink_after : FileSlots T → ℕ → ℕ → ℕ → Checked (FileSlots T)
  unlink_after s link previous next = if next == link then ok s else (do
    after ← expect (link_index next)
    a ← expect (get_elem? s.slots after)
    assert (a.previous == link)
    ok (record s {
      slots =
          set s.slots after (record a { previous = if previous == link then next else previous });
    }))

module _ {T : Type 0} (file_slot : T → ℕ) where
  unfoldable pub insert : FileSlots T → ℕ → T → Checked (FileSlots T)
  insert s index value = do
    slot ← expect (get_elem? s.slots index)
    assert (slot.next == 0)
    link ← link_of index
    old_head ← expect (get_elem? s.heads (file_slot value))
    let next = if old_head == 0 then link else old_head
    slots ←
        link_head (set s.slots index (record { previous = link; next = next; value = some value }))
          old_head link
    ok (record { slots = slots; heads = set s.heads (file_slot value) link })

  unfoldable pub remove : FileSlots T → ℕ → Checked (FileSlots T)
  unfolding get_value
  remove s index = do
    slot ← expect (get_elem? s.slots index)
    value ← expect (get_value slot)
    link ← link_of index
    headed ← unlink_before s (file_slot value) link slot.previous slot.next
    unlinked ← unlink_after headed link slot.previous slot.next
    last ← expect (get_elem? unlinked.slots index)
    ok (record unlinked {
      slots = set unlinked.slots index (record last { previous = 0; next = 0 });
    })

  -- The traversal of `for_file` from `cursor`, `remaining` of whose steps are allowed.
  unfoldable pub for_file_from : ℕ → FileSlots T → ℕ → ℕ → Checked (List (ℕ × T))
  unfolding get_value
  for_file_from remaining s owner zero = ok []
  for_file_from zero s owner (suc index) = panic
  for_file_from (suc remaining) s owner (suc index) = do
    slot ← expect (get_elem? s.slots index)
    value ← expect (get_value slot)
    assert (file_slot value == owner)
    let cursor = if slot.next == suc index then 0 else slot.next
    rest ← for_file_from remaining s owner cursor
    ok ((index, value) ∷ rest)

  unfoldable pub for_file : FileSlots T → ℕ → Checked (List (ℕ × T))
  unfolding for_file_from
  for_file s owner = do
    head ← expect (get_elem? s.heads owner)
    for_file_from (length s.slots) s owner head
