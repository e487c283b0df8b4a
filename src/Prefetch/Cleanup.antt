-- ===== src/Prefetch/Cleanup.antt =====
-- src/pool/prefetch/state.rs: the entries that wait for their cleanup, and the protected ones.
use dios.Common.{
  ℕ, zero, suc, Bool, if◌then◌else◌, ◌==◌, none, some, get_elem?, set, Checked, ok, expect,
  checked_add, u64_max, ◌>>=◌,
}
use dios.IndexQueue.{IndexQueue, push_index, pop_index}
use dios.Prefetch.{LedgerEntry, Prefetch}

unfoldable pub wait_cleanup : Prefetch → ℕ → Checked Prefetch
wait_cleanup p index = do waiting ← push_index p.waiting index; ok (record p { waiting = waiting })

-- The loop of `retry_cleanup`.
unfoldable pub requeue_from : ℕ → IndexQueue → IndexQueue → Checked (IndexQueue × IndexQueue)
requeue_from zero waiting cleanup = ok (waiting, cleanup)
requeue_from (suc rounds) waiting cleanup = pop_index waiting >>= λ popped. elim popped.0 [
  | none ↦ ok (popped.1, cleanup)
  | some index ↦ (do queued ← push_index cleanup index; requeue_from rounds popped.1 queued)
]

unfoldable pub retry_cleanup : Prefetch → ℕ → Checked Prefetch
unfolding requeue_from
retry_cleanup p releases =
    let retrying = (do
      moved ← requeue_from p.capacity p.waiting p.cleanup
      ok (record p { pending_releases = releases; waiting = moved.0; cleanup = moved.1 })) in
    if p.pending_releases == releases then ok p else retrying

unfoldable pub begin_explicit : Prefetch → Checked Prefetch
begin_explicit p = do
  stamp ← expect (checked_add u64_max p.stamp 1)
  ok (record p { stamp = stamp; replacement_cursor = 0 })

unfoldable pub protect : Prefetch → ℕ → Checked Prefetch
protect p frame = do
  entry ← expect (get_elem? p.frame_entries frame)
  elim entry [
    | none ↦ ok p
    | some index ↦ (do
      cell ← expect (get_elem? p.entries index)
      found ← expect cell
      ok (record p { entries = set p.entries index (some (record found { protected = p.stamp })) }))
  ]

unfoldable pub is_protected : Prefetch → LedgerEntry → Bool
is_protected p found = found.protected == p.stamp
