-- ===== src/Prefetch.antt =====
-- src/pool/prefetch/state.rs: the ledger of the speculative frames, under the pool's control lock. Of
-- its fields, those that only the pool's own requests or the benches read are left out.
pub mod Patterns
pub mod Finish
pub mod Settling
pub mod Cleanup
pub mod Requeue
mod Tests
use dios.Common.{
  ℕ, zero, suc, ◌+◌, ◌-◌, ◌*◌, ◌/◌, ◌%◌, ◌^◌, Bool, true, false, not, ◌&&◌, ◌||◌, if◌then◌else◌,
  ◌==◌, ltb, leb, min, max, Option, none, some, List, [], ◌∷◌, length, get_elem?, set, take,
  replicate, Checked, ok, panic, assert, expect, checked_add, checked_sub, u32_max, u64_max, ◌>>=◌,
  ◌>>◌,
}
use dios.Ids.{PageId}
use dios.Clock.{
  Clock, SpeculationOutcome, absent, unconsumed, consumed_by, begin_speculation, take_speculation,
  speculation_consumed, is_speculative,
}
use dios.FreeFrames.{FreeFrames, empty, push_frame, pop_frame}
use dios.Pattern.{
  Pattern, Source, explicit, automatic, owns, reset, observe, promoted, issued, window, fresh,
}
use dios.IndexQueue.{IndexQueue, Links, new_queue, push_index, remove_index, pop_index}

pub record LedgerEntry : Type 0 where
  pub page : PageId
  pub frame : ℕ
  pub source : Source
  pub membership : Option Links
  pub protected : ℕ

pub record Feedback : Type 0 where
  pub reader : ℕ
  pub incarnation : ℕ
  pub page : PageId

pub data Terminal : Type 0 where
  promoted_by : Option ℕ → Terminal
  evicted : Terminal
  failed : Terminal

pub record PrefetchStats : Type 0 where
  pub admitted : ℕ
  pub automatic_admitted : ℕ
  pub demand_promoted : ℕ
  pub evicted_unused : ℕ
  pub failed_reads : ℕ
  pub occupied : ℕ

pub record Prefetch : Type 0 where
  pub reserve : FreeFrames
  pub entries : List (Option LedgerEntry)
  pub patterns : List Pattern
  pub stats : PrefetchStats
  pub capacity : ℕ
  pub active : Bool
  pub automatic_width : ℕ
  pub ready : IndexQueue
  pub cleanup : IndexQueue
  pub waiting : IndexQueue
  pub reader_entries : List (Option ℕ)
  pub frame_entries : List (Option ℕ)
  pub vacant : List ℕ
  pub vacant_count : ℕ
  pub feedback : List (Option Feedback)
  pub feedback_scratch : List (Option Feedback)
  pub feedback_count : ℕ
  pub stamp : ℕ
  pub replacement_cursor : ℕ
  pub pending_releases : ℕ

-- The indices from `first` on, as the vacant slots start.
abbrev pub ascending : ℕ → ℕ → List ℕ
ascending first zero = []
ascending first (suc n) = first ∷ ascending (suc first) n

pub data Readahead : Type 0 where
  readahead_automatic : Readahead
  readahead_disabled : Readahead

abbrev pub pattern_count_of : Readahead → ℕ → ℕ → ℕ
pattern_count_of readahead_automatic capacity readers = if ltb 0 capacity then readers else 0
pattern_count_of readahead_disabled capacity readers = 0

-- `try_with_geometry`, where the allocations succeed.
unfoldable pub with_geometry : ℕ → ℕ → ℕ → Readahead → ℕ → ℕ → Checked Prefetch
unfolding fresh
with_geometry capacity readers reads mode frames granule = do
  let pattern_count = pattern_count_of mode capacity readers
  let feedback_capacity = if pattern_count == 0 then 0 else capacity
  assert (ltb 0 granule)
  let vector_width = min (max (131072 / granule) 1) 32
  ok (record {
    reserve = empty capacity;
    entries = replicate capacity none;
    patterns = replicate pattern_count fresh;
    stats = record {
      admitted = 0;
      automatic_admitted = 0;
      demand_promoted = 0;
      evicted_unused = 0;
      failed_reads = 0;
      occupied = 0;
    };
    capacity = capacity;
    active = false;
    automatic_width = if leb (2 * vector_width) (min capacity (reads - 1)) then vector_width else 1;
    ready = new_queue pattern_count;
    cleanup = new_queue capacity;
    waiting = new_queue capacity;
    reader_entries = replicate pattern_count none;
    frame_entries = replicate frames none;
    vacant = ascending 0 capacity;
    vacant_count = capacity;
    feedback = replicate feedback_capacity none;
    feedback_scratch = replicate feedback_capacity none;
    feedback_count = 0;
    stamp = 0;
    replacement_cursor = 0;
    pending_releases = 0;
  })

abbrev pub is_automatic : Source → Bool
is_automatic explicit = false
is_automatic (automatic reader incarnation) = true

abbrev pub is_vacant {ℓ} : {A : Type ℓ} → Option A → Bool
is_vacant none = true
is_vacant (some value) = false

abbrev pub same_index : Option ℕ → ℕ → Bool
same_index none index = false
same_index (some found) index = found == index

abbrev pub next_count : ℕ → Checked ℕ
next_count n = expect (checked_add u64_max n 1)

unfoldable pub available : Prefetch → Checked ℕ
available p = expect (checked_sub p.capacity p.stats.occupied)

-- The loop of `fill_reserve`.
unfoldable pub fill_from : ℕ → FreeFrames → FreeFrames → Checked (FreeFrames × FreeFrames)
fill_from zero reserve free = ok (reserve, free)
fill_from (suc rounds) reserve free = pop_frame free >>= λ popped. elim popped.0 [
  | none ↦ ok (reserve, popped.1)
  | some frame ↦ (do filled ← push_frame reserve frame; fill_from rounds filled popped.1)
]

-- The ledger and the free frames after it.
unfoldable pub fill_reserve : Prefetch → FreeFrames → Checked (Prefetch × FreeFrames)
unfolding fill_from available
fill_reserve p free =
    let filling = (do
      limit ← available p
      filled ← fill_from (limit - p.reserve.len) p.reserve free
      ok (record p { reserve = filled.0 }, filled.1)) in
    if p.active then filling else ok (p, free)

-- The membership of an entry of a reader's list.
abbrev pub entry_links : List (Option LedgerEntry) → ℕ → Checked (LedgerEntry × Links)
entry_links entries index = do
  cell ← expect (get_elem? entries index)
  found ← expect cell
  links ← expect found.membership
  ok (found, links)

abbrev pub link_entry :
    List (Option LedgerEntry) → ℕ → LedgerEntry → Links → List (Option LedgerEntry)
link_entry entries index found links =
    set entries index (some (record found { membership = some links }))

-- The new entry at the head of its reader's list: the ledger and the membership.
abbrev pub admit_link : Prefetch → ℕ → Source → Checked (Prefetch × Option Links)
admit_link p index explicit = ok (p, none)
admit_link p index (automatic reader incarnation) = do
  next ← expect (get_elem? p.reader_entries reader)
  let headed = record p { reader_entries = set p.reader_entries reader (some index) }
  linked ← elim next [
    | none ↦ ok headed
    | some old ↦ (do
      head ← entry_links headed.entries old
      ok (record headed {
        entries = link_entry headed.entries old head.0 (record head.1 { previous = some index });
      }))
  ]
  ok (linked, some (record { previous = none; next = next }))

module _ {D : Type 0} where
  unfoldable pub admit_speculation :
      Prefetch → Clock D → PageId → ℕ → Source → Checked (Prefetch × Clock D)
  unfolding available
  admit_speculation p clock page frame source = do
    assert (p.feedback_count == 0)
    credits ← available p
    assert (ltb 0 credits)
    vacant_count ← expect (checked_sub p.vacant_count 1)
    index ← expect (get_elem? p.vacant vacant_count)
    cell ← expect (get_elem? p.entries index)
    assert (is_vacant cell)
    owner ← expect (get_elem? p.frame_entries frame)
    assert (is_vacant owner)
    let held = record p {
      vacant_count = vacant_count;
      frame_entries = set p.frame_entries frame (some index);
    }
    linked ← admit_link held index source
    marked ← begin_speculation clock frame
    admitted ← next_count linked.0.stats.admitted
    automatic_admitted ←
        (if is_automatic source
          then next_count linked.0.stats.automatic_admitted
          else ok linked.0.stats.automatic_admitted)
    occupied ← expect (checked_add u32_max linked.0.stats.occupied 1)
    assert (leb occupied p.capacity)
    ok (
      record (linked.0) {
        entries = set linked.0.entries index (
            some (record {
              page = page;
              frame = frame;
              source = source;
              membership = linked.1;
              protected = p.stamp;
            }));
        stats = record (linked.0.stats) {
          admitted = admitted;
          automatic_admitted = automatic_admitted;
          occupied = occupied;
        };
      },
      marked,
    )
