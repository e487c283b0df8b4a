-- ===== src/Prefetch/Settling.antt =====
-- src/pool/prefetch/state.rs: the promotions that the patterns hear of, and the notified frames.
use dios.Common.{
  ℕ, zero, suc, ◌+◌, ◌-◌, ◌*◌, ◌/◌, ◌%◌, ◌^◌, if◌then◌else◌, ◌==◌, ltb, leb, Option, none, some,
  List, [], ◌∷◌, length, get_elem?, set, take, replicate, Checked, ok, assert, expect, ◌>>=◌, ◌>>◌,
}
use dios.Ids.{PageId}
use dios.Clock.{Clock, speculation_consumed}
use dios.Pattern.{observe, promoted}
use dios.IndexQueue.{push_index}
use dios.Prefetch.{Feedback, Prefetch, promoted_by}
use dios.Prefetch.Patterns.{source_obsolete, obsolete, pattern_changed}
use dios.Prefetch.Finish.{finish_index}

-- Byte `ordinal` of the key `(reader, incarnation, granule)`, the least first.
abbrev pub byte : Feedback → ℕ → ℕ
byte given ordinal =
    if leb ordinal 3
    then given.page.granule_idx / 2 ^ (ordinal * 8) % 256
    else if leb ordinal 11
    then given.incarnation / 2 ^ ((ordinal - 4) * 8) % 256
    else given.reader / 2 ^ ((ordinal - 12) * 8) % 256

-- One pass of the counting sort: how often each byte stands, where its run starts, and the placing.
unfoldable pub count_bytes : ℕ → List (Option Feedback) → List ℕ → Checked (List ℕ)
count_bytes ordinal [] counts = ok counts
count_bytes ordinal (cell ∷ cells) counts = do
  given ← expect cell
  seen ← expect (get_elem? counts (byte given ordinal))
  count_bytes ordinal cells (set counts (byte given ordinal) (seen + 1))

unfoldable pub offsets_from : ℕ → List ℕ → List ℕ
offsets_from offset [] = []
offsets_from offset (count ∷ counts) = offset ∷ offsets_from (offset + count) counts

unfoldable pub place_bytes :
    ℕ → List (Option Feedback) → List ℕ → List (Option Feedback) → Checked (List (Option Feedback))
place_bytes ordinal [] starts scratch = ok scratch
place_bytes ordinal (cell ∷ cells) starts scratch = do
  given ← expect cell
  place ← expect (get_elem? starts (byte given ordinal))
  assert (ltb place (length scratch))
  place_bytes ordinal cells (set starts (byte given ordinal) (place + 1)) (set scratch place cell)

-- The passes from `ordinal` on: the feedback and the scratch change places after each.
unfoldable pub sort_from : ℕ → ℕ → Prefetch → Checked Prefetch
unfolding count_bytes offsets_from place_bytes
sort_from zero ordinal p = ok p
sort_from (suc passes) ordinal p = do
  assert (leb p.feedback_count (length p.feedback))
  counts ← count_bytes ordinal (take p.feedback_count p.feedback) (replicate 256 0)
  placed ←
      place_bytes ordinal (take p.feedback_count p.feedback) (offsets_from 0 counts)
        p.feedback_scratch
  sort_from passes (suc ordinal) (record p { feedback = placed; feedback_scratch = p.feedback })

-- The loop of `flush_feedback` from `index`.
unfoldable pub flush_from : ℕ → ℕ → Prefetch → Checked Prefetch
unfolding pattern_changed
flush_from zero index p = ok p
flush_from (suc left) index p = do
  cell ← expect (get_elem? p.feedback index)
  given ← expect cell
  pattern ← expect (get_elem? p.patterns given.reader)
  grown ← promoted pattern given.page given.incarnation p.capacity
  told ←
      pattern_changed
        (record p {
          feedback = set p.feedback index none;
          patterns = set p.patterns given.reader grown;
        })
        given.reader pattern.incarnation
  flush_from left (suc index) told

unfoldable pub flush_feedback : Prefetch → Checked Prefetch
unfolding sort_from flush_from
flush_feedback p =
    let flushing = (do
      sorted ← (if ltb 1 p.feedback_count then sort_from 16 0 p else ok p)
      flushed ← flush_from sorted.feedback_count 0 sorted
      ok (record flushed { feedback_count = 0 })) in
    if p.feedback_count == 0 then ok p else flushing

-- The drains visit the frames of a notification bitmap, which `drain` gives in their order.
module _ {D : Type 0} (drain : D → List ℕ × D) where
  -- A completed frame whose stream is obsolete is queued for cleanup.
  unfoldable pub visit_completed : Prefetch → List ℕ → Checked Prefetch
  unfolding source_obsolete
  visit_completed p [] = ok p
  visit_completed p (frame ∷ frames) = do
    entry ← expect (get_elem? p.frame_entries frame)
    visited ← elim entry [
      | none ↦ ok p
      | some index ↦ (do
        cell ← expect (get_elem? p.entries index)
        found ← expect cell
        stale ← obsolete p found
        cleanup ← (if stale then push_index p.cleanup index else ok p.cleanup)
        ok (record p { cleanup = cleanup }))
    ]
    visit_completed visited frames

  -- A consumed frame is promoted.
  abbrev pub promote_consumed : Prefetch → Clock D → ℕ → Option ℕ → Checked (Prefetch × Clock D)
  promote_consumed p clock frame none = ok (p, clock)
  promote_consumed p clock frame (some index) = do
    recovered ← speculation_consumed clock frame
    if recovered then finish_index p clock index (promoted_by none) else ok (p, clock)

  unfoldable pub visit_consumed : Prefetch → Clock D → List ℕ → Checked (Prefetch × Clock D)
  unfolding finish_index
  visit_consumed p clock [] = ok (p, clock)
  visit_consumed p clock (frame ∷ frames) = do
    entry ← expect (get_elem? p.frame_entries frame)
    visited ← promote_consumed p clock frame entry
    visit_consumed visited.0 visited.1 frames

  -- The rounds over the consumed frames, until one returns no credit.
  unfoldable pub consume_rounds : ℕ → Prefetch → Clock D → Checked (Prefetch × Clock D)
  unfolding visit_consumed
  consume_rounds zero p clock = ok (p, clock)
  consume_rounds (suc rounds) p clock =
      let drained = drain clock.consumed in
      visit_consumed p (record clock { consumed = drained.1 }) drained.0 >>= λ after.
      let onward = consume_rounds rounds after.0 after.1 in
      if p.stats.occupied == (after.0).stats.occupied then ok after else onward

  unfoldable pub reconcile : Prefetch → Clock D → Checked (Prefetch × Clock D)
  unfolding visit_completed consume_rounds flush_feedback
  reconcile p clock = do
    let drained = drain clock.completed
    cleaned ← visit_completed p drained.0
    credited ← consume_rounds (suc p.capacity) cleaned (record clock { completed = drained.1 })
    flushed ← flush_feedback credited.0
    ok (flushed, credited.1)

  abbrev pub reconcile_feedback : Prefetch → Clock D → Checked (Prefetch × Clock D)
  reconcile_feedback p clock = if ltb 0 p.feedback_count then reconcile p clock else ok (p, clock)

  unfoldable pub observe_reader : Prefetch → Clock D → ℕ → PageId → Checked (Prefetch × Clock D)
  unfolding reconcile pattern_changed
  observe_reader p clock reader page = do
    settled ← reconcile_feedback p clock
    elim (get_elem? settled.0.patterns reader) [
      | none ↦ ok settled
      | some pattern ↦ (do
        seen ← observe pattern page settled.0.capacity
        told ←
            pattern_changed (record (settled.0) { patterns = set settled.0.patterns reader seen })
              reader pattern.incarnation
        ok (told, settled.1))
    ]
