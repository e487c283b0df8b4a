-- ===== src/Table.antt =====
-- src/pool/table.rs: the page table under its one writer. A cell's seqlock gives a reader the entry
-- that was last written, so a cell is that entry here. The capacity is a power of two, so `& mask`
-- is `% capacity`; `>> k` is `/ 2 ^ k`, and a wrapping product is one modulo 2 ^ 64.
pub mod Probe
pub mod Ring
pub mod Map
pub mod Find
pub mod Insert
pub mod Shift
pub mod Remove
pub mod Spec
mod Tests
use dios.Common.{
  ℕ, zero, suc, ◌+◌, ◌-◌, ◌*◌, ◌/◌, ◌%◌, ◌^◌, Bool, true, false, ◌||◌, if◌then◌else◌, ◌==◌, ltb,
  leb, Option, none, some, List, length, get_elem?, set, replicate, bit_xor, Checked, ok, panic,
  assert, expect, checked_add, checked_sub, u32_max, ◌>>=◌, ◌>>◌,
}
use dios.Ids.{FileId, PageId, page_eq}

abbrev pub Entry : Type 0
Entry = PageId × ℕ

pub record PageTable : Type 0 where
  pub slots : List (Option Entry)
  pub capacity : ℕ
  pub len : ℕ

-- `u32::checked_next_power_of_two`: the first of the powers from `power` on, `rounds` of which fit.
unfoldable pub next_power_from : ℕ → ℕ → ℕ → Option ℕ
next_power_from zero power n = none
next_power_from (suc rounds) power n =
    let onward = next_power_from rounds (power * 2) n in if leb n power then some power else onward

-- `try_with_frame_count`, where the allocation succeeds.
unfoldable pub try_with_frame_count : ℕ → Checked PageTable
unfolding next_power_from
try_with_frame_count frame_count = do
  assert (ltb 0 frame_count)
  doubled ← expect (if leb (frame_count * 2) u32_max then some (frame_count * 2) else none)
  capacity ← expect (next_power_from 32 1 doubled)
  ok (record { slots = replicate capacity none; capacity = capacity; len = 0 })

unfoldable pub mix : ℕ → ℕ
mix word =
    let first = bit_xor word (word / 2 ^ 30) * 13787848793156543929 % 2 ^ 64 in
    let second = bit_xor first (first / 2 ^ 27) * 10723151780598845931 % 2 ^ 64 in
    bit_xor second (second / 2 ^ 31)

unfoldable pub page_hash : PageId → ℕ
unfolding mix
page_hash page =
    let driver = mix (bit_xor 0 page.file.driver) in
    let slot = mix (bit_xor driver page.file.slot) in
    let generation = mix (bit_xor slot page.file.generation) in
    mix (bit_xor generation page.granule_idx)

unfoldable pub home_slot : PageTable → PageId → ℕ
home_slot t page = page_hash page % t.capacity

abbrev pub next_slot : ℕ → ℕ → ℕ
next_slot capacity slot = (slot + 1) % capacity

-- The loop of `lookup`, `rounds` of which are left.
unfoldable pub lookup_from : ℕ → PageTable → PageId → ℕ → Checked (Option ℕ)
lookup_from zero t page slot = ok none
lookup_from (suc rounds) t page slot =
    let onward = lookup_from rounds t page (next_slot t.capacity slot) in
    expect (get_elem? t.slots slot) >>= λ cell. elim cell [
      | none ↦ ok none
      | some entry ↦ if page_eq entry.0 page then ok (some entry.1) else onward
    ]

unfoldable pub lookup : PageTable → PageId → Checked (Option ℕ)
unfolding lookup_from home_slot
lookup t page = lookup_from t.capacity t page (home_slot t page)

abbrev pub write_cell : PageTable → ℕ → Option Entry → PageTable
write_cell t slot entry = record t { slots = set t.slots slot entry }

unfoldable pub insert_from : ℕ → PageTable → PageId → ℕ → ℕ → Checked PageTable
insert_from zero t page frame slot = panic
insert_from (suc rounds) t page frame slot =
    let onward = insert_from rounds t page frame (next_slot t.capacity slot) in
    expect (get_elem? t.slots slot) >>= λ cell. elim cell [
      | none ↦
          assert (ltb t.len t.capacity)
          >> ok (record (write_cell t slot (some (page, frame))) { len = t.len + 1 })
      | some entry ↦
          if page_eq entry.0 page then ok (write_cell t slot (some (page, frame))) else onward
    ]

unfoldable pub insert_shared : PageTable → PageId → ℕ → Checked PageTable
unfolding insert_from home_slot
insert_shared t page frame = insert_from t.capacity t page frame (home_slot t page)

-- The search of `remove_shared`: the slot and the frame of the page.
unfoldable pub find_from : ℕ → PageTable → PageId → ℕ → Checked (Option (ℕ × ℕ))
find_from zero t page gap = ok none
find_from (suc rounds) t page gap =
    let onward = find_from rounds t page (next_slot t.capacity gap) in
    expect (get_elem? t.slots gap) >>= λ cell. elim cell [
      | none ↦ ok none
      | some entry ↦ if page_eq entry.0 page then ok (some (gap, entry.1)) else onward
    ]

-- `a.wrapping_sub(b) & mask`, for slots of the table.
abbrev pub cyclic_distance : ℕ → ℕ → ℕ → ℕ
cyclic_distance capacity a b = (a + capacity - b) % capacity

unfoldable pub fills_gap : ℕ → ℕ → ℕ → ℕ → Checked Bool
fills_gap home gap scan capacity =
    let scan_from_gap = cyclic_distance capacity scan gap in
    let home_from_gap = cyclic_distance capacity home gap in
    assert (leb 1 scan_from_gap) >> ok (home_from_gap == 0 || ltb scan_from_gap home_from_gap)

-- The loop of `backward_shift`.
unfoldable pub shift_from : ℕ → PageTable → ℕ → ℕ → Checked PageTable
unfolding fills_gap home_slot
shift_from zero t gap scan = ok t
shift_from (suc rounds) t gap scan = expect (get_elem? t.slots gap) >>= λ space. elim space [
  | some _ ↦ panic
  | none ↦ expect (get_elem? t.slots scan) >>= λ cell. elim cell [
    | none ↦ ok t
    | some entry ↦ fills_gap (home_slot t entry.0) gap scan t.capacity >>= λ moves. elim moves [
      | true ↦
          shift_from rounds (write_cell (write_cell t gap (some entry)) scan none) scan
            (next_slot t.capacity scan)
      | false ↦ shift_from rounds t gap (next_slot t.capacity scan)
    ]
  ]
]

unfoldable pub remove_shared : PageTable → PageId → Checked (Option ℕ × PageTable)
unfolding find_from shift_from home_slot
remove_shared t page = find_from t.capacity t page (home_slot t page) >>= λ found. elim found [
  | none ↦ ok (none, t)
  | some at ↦ (do
    len ← expect (checked_sub t.len 1)
    shifted ←
        shift_from t.capacity (record (write_cell t at.0 none) { len = len }) at.0
          (next_slot t.capacity at.0)
    ok (some at.1, shifted))
]
