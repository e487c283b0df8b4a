-- ===== src/Prefetch/Finish.antt =====
-- src/pool/prefetch/state.rs: the end of a speculative frame.
use dios.Common.{
  ℕ, ◌+◌, Bool, not, if◌then◌else◌, ◌==◌, ltb, none, some, length, get_elem?, set, Checked, ok,
  panic, assert, expect, checked_sub, ◌>>=◌, ◌>>◌,
}
use dios.Clock.{
  Clock, SpeculationOutcome, absent, unconsumed, consumed_by, take_speculation, is_speculative,
}
use dios.Pattern.{explicit, automatic, owns}
use dios.IndexQueue.{remove_index}
use dios.Prefetch.{
  LedgerEntry, Feedback, Terminal, PrefetchStats, Prefetch, is_vacant, same_index, next_count,
  entry_links, link_entry, promoted_by, evicted, failed,
}
use dios.Prefetch.Patterns.{reset_reader}

-- `finish_index_unlink_reader`, of an entry that has been taken out of its slot.
unfoldable pub unlink_reader : Prefetch → ℕ → LedgerEntry → Checked Prefetch
unlink_reader p index found = elim found.membership [
  | none ↦ ok p
  | some links ↦ elim found.source [
    | explicit ↦ panic
    | automatic reader incarnation ↦ (do
      before ← elim links.previous [
        | none ↦ (do
          head ← expect (get_elem? p.reader_entries reader)
          assert (same_index head index)
          ok (record p { reader_entries = set p.reader_entries reader links.next }))
        | some previous ↦ (do
          member ← entry_links p.entries previous
          ok (record p {
            entries =
                link_entry p.entries previous member.0 (record member.1 { next = links.next });
          }))
      ]
      elim links.next [
        | none ↦ ok before
        | some next ↦ (do
          member ← entry_links before.entries next
          ok (record before {
            entries =
                link_entry before.entries next member.0
                  (record member.1 { previous = links.previous });
          }))
      ])
  ]
]

abbrev pub record_feedback : Prefetch → Feedback → Checked Prefetch
record_feedback p given = do
  cell ← expect (get_elem? p.feedback p.feedback_count)
  assert (is_vacant cell)
  ok (record p {
    feedback = set p.feedback p.feedback_count (some given);
    feedback_count = p.feedback_count + 1;
  })

abbrev pub reset_owner : Prefetch → ℕ → ℕ → Checked Prefetch
reset_owner p reader incarnation = do
  pattern ← expect (get_elem? p.patterns reader)
  if owns pattern incarnation then reset_reader p reader else ok p

unfoldable pub finish_feedback : Prefetch → LedgerEntry → Terminal → Checked Prefetch
unfolding reset_reader
finish_feedback p found terminal = elim found.source [
  | explicit ↦ ok p
  | automatic reader incarnation ↦ elim terminal [
    | promoted_by consumer ↦
        if same_index consumer reader
        then record_feedback p
            (record { reader = reader; incarnation = incarnation; page = found.page })
        else ok p
    | evicted ↦ reset_owner p reader incarnation
    | failed ↦ reset_owner p reader incarnation
  ]
]

-- What a marker that was consumed makes of the terminal.
abbrev pub terminal_of : SpeculationOutcome → Terminal → Checked Terminal
terminal_of absent terminal = panic
terminal_of unconsumed terminal = ok terminal
terminal_of (consumed_by reader) terminal = ok (promoted_by reader)

abbrev pub count_terminal : PrefetchStats → Terminal → Checked PrefetchStats
count_terminal stats (promoted_by reader) = do
  n ← next_count stats.demand_promoted
  ok (record stats { demand_promoted = n })
count_terminal stats evicted = do
  n ← next_count stats.evicted_unused
  ok (record stats { evicted_unused = n })
count_terminal stats failed = do
  n ← next_count stats.failed_reads
  ok (record stats { failed_reads = n })

-- `admitted == demand_promoted + evicted_unused + failed + occupied`
abbrev pub balanced : PrefetchStats → Bool
balanced stats =
    stats.admitted
    == stats.demand_promoted + stats.evicted_unused + stats.failed_reads + stats.occupied

module _ {D : Type 0} where
  unfoldable pub finish_index : Prefetch → Clock D → ℕ → Terminal → Checked (Prefetch × Clock D)
  unfolding unlink_reader finish_feedback
  finish_index p clock index terminal = do
    cell ← expect (get_elem? p.entries index)
    found ← expect cell
    unlinked ← unlink_reader (record p { entries = set p.entries index none }) index found
    cleanup ← remove_index unlinked.cleanup index
    waiting ← remove_index unlinked.waiting index
    owner ← expect (get_elem? unlinked.frame_entries found.frame)
    assert (same_index owner index)
    assert (ltb unlinked.vacant_count (length unlinked.vacant))
    taken ← take_speculation clock found.frame
    ended ← terminal_of taken.0 terminal
    occupied ← expect (checked_sub unlinked.stats.occupied 1)
    stats ← count_terminal (record (unlinked.stats) { occupied = occupied }) ended
    told ←
        finish_feedback
          (record unlinked {
            cleanup = cleanup;
            waiting = waiting;
            frame_entries = set unlinked.frame_entries found.frame none;
            vacant = set unlinked.vacant unlinked.vacant_count index;
            vacant_count = unlinked.vacant_count + 1;
            stats = stats;
          })
          found ended
    assert (balanced told.stats)
    ok (told, taken.1)

  unfoldable pub finish_frame : Prefetch → Clock D → ℕ → Terminal → Checked (Prefetch × Clock D)
  unfolding finish_index
  finish_frame p clock frame terminal = do
    entry ← expect (get_elem? p.frame_entries frame)
    elim entry [
      | some index ↦ finish_index p clock index terminal
      | none ↦ (do marked ← is_speculative clock frame; assert (not marked); ok (p, clock))
    ]
