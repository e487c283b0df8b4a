-- ===== src/Prefetch/Patterns.antt =====
-- src/pool/prefetch/state.rs: the readers' patterns, and the entries of a pattern that changed.
use dios.Common.{
  ℕ, zero, suc, Bool, false, not, if◌then◌else◌, Option, none, some, get_elem?, set, Checked, ok,
  assert, expect, ◌>>=◌, ◌>>◌,
}
use dios.Ids.{PageId}
use dios.Pattern.{Source, explicit, automatic, owns, reset, issued, window}
use dios.IndexQueue.{push_index, remove_index}
use dios.Prefetch.{LedgerEntry, Prefetch, is_vacant, entry_links}

unfoldable pub source_obsolete : Prefetch → Source → Checked Bool
source_obsolete p explicit = ok false
source_obsolete p (automatic reader incarnation) = do
  pattern ← expect (get_elem? p.patterns reader)
  ok (not (owns pattern incarnation))

abbrev pub obsolete : Prefetch → LedgerEntry → Checked Bool
obsolete p found = source_obsolete p found.source

unfoldable pub refresh_ready : Prefetch → ℕ → Checked Prefetch
refresh_ready p reader = do
  pattern ← expect (get_elem? p.patterns reader)
  ahead ← window pattern reader p.automatic_width
  ready ← (if is_vacant ahead then remove_index p.ready reader else push_index p.ready reader)
  ok (record p { ready = ready })

-- The loop of `invalidate_reader`, `rounds` of which are left: what it leaves unvisited, and the ledger.
unfoldable pub invalidate_from : ℕ → Prefetch → Option ℕ → Checked (Option ℕ × Prefetch)
invalidate_from rounds p none = ok (none, p)
invalidate_from zero p (some index) = ok (some index, p)
invalidate_from (suc rounds) p (some index) = do
  member ← entry_links p.entries index
  cleanup ← push_index p.cleanup index
  invalidate_from rounds
      (record p {
        entries = set p.entries index (some (record (member.0) { membership = none }));
        cleanup = cleanup;
      })
      (member.1).next

unfoldable pub invalidate_reader : Prefetch → ℕ → Checked Prefetch
unfolding invalidate_from
invalidate_reader p reader = do
  first ← expect (get_elem? p.reader_entries reader)
  walked ←
      invalidate_from p.capacity (record p { reader_entries = set p.reader_entries reader none })
        first
  assert (is_vacant walked.0)
  ok walked.1

unfoldable pub pattern_changed : Prefetch → ℕ → ℕ → Checked Prefetch
unfolding invalidate_reader refresh_ready
pattern_changed p reader before = do
  pattern ← expect (get_elem? p.patterns reader)
  current ← (if owns pattern before then ok p else invalidate_reader p reader)
  refresh_ready current reader

unfoldable pub reset_reader : Prefetch → ℕ → Checked Prefetch
unfolding pattern_changed
reset_reader p reader = elim (get_elem? p.patterns reader) [
  | none ↦ ok p
  | some pattern ↦ (do
    again ← reset pattern
    pattern_changed (record p { patterns = set p.patterns reader again }) reader
        pattern.incarnation)
]

unfoldable pub issued_to : Prefetch → ℕ → PageId → Checked Prefetch
unfolding invalidate_reader refresh_ready
issued_to p reader page = do
  pattern ← expect (get_elem? p.patterns reader)
  after ← issued pattern page
  let told = record p { patterns = set p.patterns reader after }
  current ← (if owns after pattern.incarnation then ok told else invalidate_reader told reader)
  refresh_ready current reader

unfoldable pub advance_turn : Prefetch → ℕ → Checked Prefetch
unfolding refresh_ready
advance_turn p reader = do
  ready ← remove_index p.ready reader
  refresh_ready (record p { ready = ready }) reader
