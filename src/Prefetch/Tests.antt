-- ===== src/Prefetch/Tests.antt =====
-- src/pool/prefetch/state.rs, at a ledger of two entries.
use dios.Common.{◌≡◌, none, some, [], ◌∷◌, false, ok, arith, refl, get_elem?-replicate}
use dios.FreeFrames
use dios.IndexQueue.{IndexQueue, new_queue}
use dios.IndexQueue.Spec.{IsQueue}
use dios.Prefetch.{Prefetch, readahead_disabled, with_geometry}
use dios.Prefetch.Cleanup.{retry_cleanup}
use dios.Prefetch.Requeue.{retry_cleanup_lem}

abbrev one_waiting : IndexQueue
one_waiting = record {
  links = none ∷ some (record { previous = none; next = none }) ∷ [];
  first = some 1;
  last = some 1;
}

abbrev ledger : Prefetch
ledger = record {
  reserve = record { frames = 0 ∷ 0 ∷ []; len = 0 };
  entries = none ∷ none ∷ [];
  patterns = [];
  stats = record {
    admitted = 0;
    automatic_admitted = 0;
    demand_promoted = 0;
    evicted_unused = 0;
    failed_reads = 0;
    occupied = 0;
  };
  capacity = 2;
  active = false;
  automatic_width = 1;
  ready = new_queue 0;
  cleanup = new_queue 2;
  waiting = new_queue 2;
  reader_entries = [];
  frame_entries = none ∷ none ∷ none ∷ [];
  vacant = 0 ∷ 1 ∷ [];
  vacant_count = 2;
  feedback = [];
  feedback_scratch = [];
  feedback_count = 0;
  stamp = 0;
  replacement_cursor = 0;
  pending_releases = 0;
}

makes : with_geometry 2 0 1 readahead_disabled 3 4096 ≡ ok ledger
unfolding with_geometry dios.FreeFrames.empty
makes = refl

no_index-IsQueue : IsQueue (new_queue 2) []
no_index-IsQueue = record {
  once = λ i. omega arith;
  member = λ i at. absurd (omega arith);
  absent = λ i inside none_of_it. get_elem?-replicate 2 i none inside;
  first = refl;
  last = refl;
}

one_waiting-IsQueue : IsQueue one_waiting (1 ∷ [])
one_waiting-IsQueue = record {
  once = λ i. ground arith;
  member = λ i at. ground arith;
  absent = λ i inside none_of_it. ground arith;
  first = refl;
  last = refl;
}

retry_cleanup_lem_example :
    (p' : Prefetch) × (retry_cleanup (record ledger { waiting = one_waiting }) 1 ≡ ok p')
    × (p'.pending_releases ≡ 1)
    × IsQueue p'.waiting []
    × IsQueue p'.cleanup (1 ∷ [])
retry_cleanup_lem_example =
    retry_cleanup_lem (record ledger { waiting = one_waiting }) 1 (1 ∷ []) [] one_waiting-IsQueue
      no_index-IsQueue refl refl
