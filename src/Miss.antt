-- ===== src/Miss.antt =====
-- src/pool/miss.rs: the table of the reads in flight, one for each missing page, over the slots of
-- src/pool/file_slots.rs, with the index of its pending entries. An errno is its 32-bit word.
pub mod Index
pub mod Terminal
pub mod Search
mod Tests
use dios.Common.{
  ℕ, zero, suc, ◌+◌, ◌-◌, ◌≡◌, ◌⊎◌, Bool, true, false, not, ◌&&◌, ◌||◌, if◌then◌else◌, ◌==◌, ltb,
  leb, Option, none, some, List, [], ◌∷◌, length, get_elem?, set, replicate, Checked, ok, panic,
  assert, expect, checked_sub, ◌>>=◌, ◌>>◌,
}
use dios.Ids.{FileId, PageId, page_eq, file_eq}
use dios.FileSlots.{MemberSlot, FileSlots, get_value, vacant_slots, insert, remove}
use dios.Interests.{MissInterests, InitialInterest, begin_initial, join_interest, waiters}

pub data MissOutcome : Type 0 where
  pending : MissOutcome
  failed : ℕ → MissOutcome
  succeeded : MissOutcome

abbrev pub is_pending : MissOutcome → Bool
is_pending pending = true
is_pending (failed errno) = false
is_pending succeeded = false

abbrev pub is_succeeded : MissOutcome → Bool
is_succeeded succeeded = true
is_succeeded pending = false
is_succeeded (failed errno) = false

pub record MissEntry : Type 0 where
  pub page : PageId
  pub frame : ℕ
  pub token : ℕ
  pub generation : ℕ
  pub filled : ℕ
  pub pending_position : ℕ
  pub outcome : MissOutcome

pub record PendingMiss : Type 0 where
  pub page : PageId
  pub token : ℕ
  pub slot : ℕ

pub record MissTable : Type 0 where
  pub slots : FileSlots MissEntry
  pub success_frames : List (Option (ℕ × ℕ))
  pub pending : List (Option PendingMiss)
  pub pending_len : ℕ

abbrev pub entry_file : MissEntry → ℕ
entry_file entry = entry.page.file.slot

abbrev pub is_absent {ℓ} : {A : Type ℓ} → Option A → Bool
is_absent none = true
is_absent (some value) = false

-- `try_with_capacity`, where the allocations succeed.
unfoldable pub new_misses : ℕ → ℕ → ℕ → Checked MissTable
unfolding vacant_slots
new_misses capacity pending_capacity file_capacity = do
  assert (leb pending_capacity capacity)
  slots ← vacant_slots capacity file_capacity
  ok (record {
    slots = slots;
    success_frames = replicate capacity none;
    pending = replicate pending_capacity none;
    pending_len = 0;
  })

-- The first of the live pending records that passes the test, as `find_map` finds it.
unfoldable pub find_live : ℕ → List (Option PendingMiss) → (PendingMiss → Bool) → Option ℕ
find_live zero records test = none
find_live (suc live) [] test = none
find_live (suc live) (none ∷ records) test = find_live live records test
find_live (suc live) (some miss ∷ records) test =
    if test miss then some miss.slot else find_live live records test

-- The first slot from `index` on whose entry is the page's pending one.
unfoldable pub pending_slot_from : ℕ → List (MemberSlot MissEntry) → PageId → Option ℕ
unfolding get_value
pending_slot_from index [] page = none
pending_slot_from index (slot ∷ slots) page =
    let onward = pending_slot_from (suc index) slots page in
    elim (get_value slot) [
      | none ↦ onward
      | some entry ↦
          if page_eq entry.page page && is_pending entry.outcome then some index else onward
    ]

abbrev pub same_slot : Option ℕ → Option ℕ → Bool
same_slot none none = true
same_slot (some a) (some b) = a == b
same_slot none (some b) = false
same_slot (some a) none = false

-- Its slice of the live records is in range.
unfoldable pub find_pending : MissTable → PageId → Checked (Option ℕ)
unfolding find_live pending_slot_from
find_pending t page = do
  assert (leb t.pending_len (length t.pending))
  let found = find_live t.pending_len t.pending (λ miss. page_eq miss.page page)
  assert (same_slot found (pending_slot_from 0 t.slots.slots page))
  ok found

unfoldable pub find_by_token : MissTable → ℕ → Checked (Option ℕ)
unfolding find_live
find_by_token t token = do
  assert (leb t.pending_len (length t.pending))
  ok (find_live t.pending_len t.pending (λ miss. miss.token == token))

unfoldable pub entry : MissTable → ℕ → Checked MissEntry
unfolding get_value
entry t index = do slot ← expect (get_elem? t.slots.slots index); expect (get_value slot)

-- A write through the entry that `get_mut` gives.
unfoldable pub write_entry : MissTable → ℕ → MissEntry → Checked MissTable
write_entry t index value = do
  slot ← expect (get_elem? t.slots.slots index)
  ok (record t {
    slots = record t.slots { slots = set t.slots.slots index (record slot { value = some value }) };
  })

unfoldable pub pending_position : MissTable → ℕ → Checked ℕ
unfolding entry
pending_position t slot = do
  found ← entry t slot
  cell ← expect (get_elem? t.pending found.pending_position)
  miss ← expect cell
  assert (miss.slot == slot)
  ok found.pending_position

unfoldable pub pending_push : MissTable → PendingMiss → Checked MissTable
pending_push t miss = do
  assert (ltb t.pending_len (length t.pending))
  tail ← expect (get_elem? t.pending t.pending_len)
  assert (is_absent tail)
  ok (record t {
    pending = set t.pending t.pending_len (some miss);
    pending_len = t.pending_len + 1;
  })

-- Whose place in the index the record in the tail takes.
abbrev pub move_tail : MissTable → ℕ → Option PendingMiss → Checked MissTable
move_tail t index none = panic
move_tail t index (some miss) = do
  moved ← entry t miss.slot
  write_entry (record t { pending = set t.pending index (some miss) }) miss.slot
      (record moved { pending_position = index })

unfoldable pub pending_remove : MissTable → ℕ → Checked MissTable
unfolding pending_position entry write_entry
pending_remove t slot = do
  index ← pending_position t slot
  last ← expect (checked_sub t.pending_len 1)
  moved ← expect (get_elem? t.pending last)
  let taken = record t { pending = set t.pending last none }
  filled ← (if ltb index last then move_tail taken index moved else ok taken)
  tail ← expect (get_elem? filled.pending last)
  assert (is_absent tail)
  ok (record filled { pending_len = last })

-- Whether an admission may take the slot: it is empty, or terminal with no waiter.
abbrev pub reusable : MissInterests → ℕ → Option MissEntry → Checked Bool
reusable interests index none = ok true
reusable interests index (some found) =
    let idle = (do
      count ← waiters interests index found.generation
      ok (same_slot count (some 0))) in
    if is_pending found.outcome then ok false else idle

-- The search from `index`.
unfoldable pub admission_slot_from :
    MissInterests → ℕ → List (MemberSlot MissEntry) → Checked (Option ℕ)
unfolding get_value waiters
admission_slot_from interests index [] = ok none
admission_slot_from interests index (slot ∷ slots) =
    let onward = admission_slot_from interests (suc index) slots in
    reusable interests index (get_value slot) >>= λ free. if free then ok (some index) else onward

unfoldable pub admission_slot : MissTable → MissInterests → Checked (Option ℕ)
unfolding admission_slot_from
admission_slot t interests = admission_slot_from interests 0 t.slots.slots

-- The first slots that admissions may take, `wanted` of them at most.
unfoldable pub admission_slots_from :
    MissInterests → ℕ → ℕ → List (MemberSlot MissEntry) → Checked (List ℕ)
unfolding get_value waiters
admission_slots_from interests zero index slots = ok []
admission_slots_from interests (suc wanted) index [] = ok []
admission_slots_from interests (suc wanted) index (slot ∷ slots) =
    let taking = (do
      rest ← admission_slots_from interests wanted (suc index) slots
      ok (index ∷ rest)) in
    let onward = admission_slots_from interests (suc wanted) (suc index) slots in
    reusable interests index (get_value slot) >>= λ free. if free then taking else onward

-- The slots that are written, and whether they are as many as `wanted`.
unfoldable pub admission_slots : MissTable → MissInterests → ℕ → Checked (List ℕ × Bool)
unfolding admission_slots_from
admission_slots t interests wanted = do
  assert (not (wanted == 0))
  found ← admission_slots_from interests wanted 0 t.slots.slots
  ok (found, length found == wanted)

abbrev pub same_protection : Option (ℕ × ℕ) → ℕ → ℕ → Bool
same_protection none slot generation = false
same_protection (some (s, g)) slot generation = s == slot && g == generation

unfoldable pub clean_entry : MissTable → ℕ → ℕ → MissEntry → Checked MissTable
unfolding remove
clean_entry t slot generation found =
    let cleared = (do
      protection ← expect (get_elem? t.success_frames found.frame)
      assert (same_protection protection slot generation)
      ok (record t { success_frames = set t.success_frames found.frame none })) in
    (if is_succeeded found.outcome then cleared else ok t) >>= λ freed. (do
      slots ← remove entry_file freed.slots slot
      ok (record freed { slots = slots }))

unfoldable pub clean_terminal_zero : MissTable → ℕ → ℕ → MissInterests → Checked MissTable
unfolding get_value waiters clean_entry
clean_terminal_zero t slot generation interests = expect (get_elem? t.slots.slots slot) >>= λ cell.
    elim (get_value cell) [
      | none ↦ ok t
      | some found ↦
          let cleaned = (do
            idle ← reusable interests slot (some found)
            if idle then clean_entry t slot generation found else ok t) in
          if found.generation == generation then cleaned else ok t
    ]

-- The table with the slot free for an admission.
abbrev pub cleaned_slot : MissTable → ℕ → MissInterests → Checked MissTable
cleaned_slot t slot interests = expect (get_elem? t.slots.slots slot) >>= λ cell.
    elim (get_value cell) [
      | none ↦ ok t
      | some previous ↦ clean_terminal_zero t slot previous.generation interests
    ]

-- The entry's generation, and the table and the interests after it.
unfoldable pub admit_initial :
    MissTable
    → ℕ
    → PageId
    → ℕ
    → ℕ
    → MissInterests
    → InitialInterest
    → Checked (ℕ × MissTable × MissInterests)
unfolding get_value find_pending clean_terminal_zero begin_initial insert pending_push
admit_initial t slot page frame token interests initial = do
  assert (not (length t.slots.slots == 0))
  duplicate ← find_pending t page
  assert (is_absent duplicate)
  cleaned ← cleaned_slot t slot interests
  cell ← expect (get_elem? cleaned.slots.slots slot)
  assert (is_absent (get_value cell))
  begun ← begin_initial interests slot initial
  slots ← insert entry_file cleaned.slots slot (record {
    page = page;
    frame = frame;
    token = token;
    generation = begun.0;
    filled = 0;
    pending_position = cleaned.pending_len;
    outcome = pending;
  })
  pushed ←
      pending_push (record cleaned { slots = slots })
        (record { page = page; token = token; slot = slot })
  ok (begun.0, pushed, begun.1)

-- The generation joined, and the interests after it.
unfoldable pub join : MissTable → ℕ → MissInterests → Checked (ℕ × MissInterests)
unfolding entry join_interest
join t index interests = do
  found ← entry t index
  assert (is_pending found.outcome)
  joined ← join_interest interests index found.generation
  ok (found.generation, joined)

unfoldable pub advance_remainder : MissTable → ℕ → ℕ → ℕ → Checked MissTable
unfolding entry write_entry pending_position
advance_remainder t index filled token = do
  found ← entry t index
  assert (is_pending found.outcome)
  advanced ← write_entry t index (record found { filled = filled; token = token })
  position ← pending_position advanced index
  cell ← expect (get_elem? advanced.pending position)
  miss ← expect cell
  ok (record advanced {
    pending = set advanced.pending position (some (record miss { token = token }));
  })

unfoldable pub fail : MissTable → ℕ → ℕ → Checked MissTable
unfolding entry write_entry pending_remove
fail t index errno = do
  found ← entry t index
  assert (not (errno == 0))
  assert (is_pending found.outcome)
  written ← write_entry t index (record found { outcome = failed errno })
  pending_remove written index

unfoldable pub succeed : MissTable → ℕ → Checked MissTable
unfolding entry write_entry pending_remove
succeed t index = do
  found ← entry t index
  assert (is_pending found.outcome)
  written ← write_entry t index (record found { outcome = succeeded })
  removed ← pending_remove written index
  protection ← expect (get_elem? removed.success_frames found.frame)
  assert (is_absent protection)
  ok (record removed {
    success_frames = set removed.success_frames found.frame (some (index, found.generation));
  })

unfoldable pub validate : MissTable → ℕ → ℕ → PageId → Checked MissEntry
unfolding entry
validate t slot generation page = do
  found ← entry t slot
  assert (found.generation == generation)
  assert (page_eq found.page page)
  ok found

-- Whether the frame may be evicted, and the table after it.
unfoldable pub prepare_eviction : MissTable → ℕ → MissInterests → Checked (Bool × MissTable)
unfolding waiters clean_terminal_zero
prepare_eviction t frame interests = expect (get_elem? t.success_frames frame) >>= λ protection.
    elim protection [
      | none ↦ ok (true, t)
      | some owner ↦
          let freeing = (do
            cleaned ← clean_terminal_zero t owner.0 owner.1 interests
            left ← expect (get_elem? cleaned.success_frames frame)
            assert (is_absent left)
            ok (true, cleaned)) in
          waiters interests owner.0 owner.1 >>= λ count.
          if same_slot count (some 0) then freeing else ok (false, t)
    ]

-- The walk over a file's members, which stops at the first live one; `remaining` steps are allowed.
unfoldable pub live_from : ℕ → MissTable → FileId → MissInterests → ℕ → Checked Bool
unfolding get_value waiters
live_from remaining t file interests zero = ok false
live_from zero t file interests (suc index) = panic
live_from (suc remaining) t file interests (suc index) =
    expect (get_elem? t.slots.slots index) >>= λ slot. expect (get_value slot) >>= λ found. (do
      let onward =
          live_from remaining t file interests (if slot.next == suc index then 0 else slot.next)
      assert (entry_file found == file.slot)
      idle ← reusable interests index (some found)
      if file_eq found.page.file file && not idle then ok true else onward)

unfoldable pub has_live_for_file : MissTable → FileId → MissInterests → Checked Bool
unfolding live_from
has_live_for_file t file interests = do
  head ← expect (get_elem? t.slots.heads file.slot)
  live_from (length t.slots.slots) t file interests head
