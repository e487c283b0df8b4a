-- ===== src/Miss/Tests.antt =====
-- src/pool/miss.rs, at a table of two slots with one read in flight.
use dios.Common.{
  ℕ, zero, suc, ◌≡◌, ◌<◌, ◌≤◌, Option, none, some, [], ◌∷◌, get_elem?, ok, arith, refl, sym, ap,
  subst, ◌∙◌,
}
use dios.Ids.{PageId}
use dios.FileSlots.{MemberSlot}
use dios.Interests.{demand, vacant_interests, MissInterests}
use dios.Miss.{
  pending, failed, succeeded, MissEntry, PendingMiss, MissTable, entry, new_misses, admit_initial,
  fail, succeed, find_pending,
}
use dios.Miss.Index.{Indexes, IsRecordOf, IsIndexed}
use dios.Miss.Terminal.{Keeps, fail-IsIndexed, succeed-IsIndexed}
use dios.Miss.Search.{Reads, find_pending_lem}

abbrev cold_page : PageId
cold_page = record { file = record { driver = 1; slot = 0; generation = 1 }; granule_idx = 7 }

abbrev first_entry : MissEntry
first_entry = record {
  page = cold_page;
  frame = 0;
  token = 5;
  generation = 1;
  filled = 0;
  pending_position = 0;
  outcome = pending;
}

abbrev first_miss : PendingMiss
first_miss = record { page = cold_page; token = 5; slot = 1 }

abbrev no_member : MemberSlot MissEntry
no_member = record { previous = 0; next = 0; value = none }

abbrev empty_table : MissTable
empty_table = record {
  slots = record { slots = no_member ∷ no_member ∷ []; heads = 0 ∷ [] };
  success_frames = none ∷ none ∷ [];
  pending = none ∷ none ∷ [];
  pending_len = 0;
}

abbrev one_read : MissTable
one_read = record {
  slots = record {
    slots = no_member ∷ record { previous = 2; next = 2; value = some first_entry } ∷ [];
    heads = 2 ∷ [];
  };
  success_frames = none ∷ none ∷ [];
  pending = some first_miss ∷ none ∷ [];
  pending_len = 1;
}

abbrev begun_interests : MissInterests
begun_interests =
    record { generation = 0; waiters = 0 } ∷ record { generation = 1; waiters = 1 } ∷ []

makes : new_misses 2 2 1 ≡ ok empty_table
unfolding new_misses
makes = refl

admits :
    admit_initial empty_table 1 cold_page 0 5 (vacant_interests 2) demand
    ≡ ok (1, one_read, begun_interests)
unfolding admit_initial
admits = refl

only_entry : (i : ℕ) (e : MissEntry) → entry one_read i ≡ ok e → (i ≡ 1) × (e ≡ first_entry)
unfolding entry
only_entry zero e at = ground (arith, at)
only_entry (suc zero) e at = ground (arith, at)
only_entry (suc (suc i)) e at = ground (arith, at)

one_read-IsRecordOf : IsRecordOf one_read 0 first_miss first_entry
unfolding entry
one_read-IsRecordOf = record { at = refl; waits = refl; place = refl; page = refl; token = refl }

one_read-free : (k : ℕ) → 1 ≤ k → k < 2 → get_elem? one_read.pending k ≡ some none
one_read-free zero above below = absurd (omega arith)
one_read-free (suc zero) above below = refl
one_read-free (suc (suc k)) above below = absurd (omega arith)

one_read-IsIndexed : IsIndexed one_read
one_read-IsIndexed = record {
  room = omega arith;
  live = λ k below. (
    first_miss,
    subst (λ n. Indexes one_read n first_miss) (zero_of k below) refl,
    first_entry,
    subst (λ n. IsRecordOf one_read n first_miss first_entry) (zero_of k below) one_read-IsRecordOf,
  );
  free = one_read-free;
  indexed = λ i e at wait.
      let (slot, is) = only_entry i e at in
      let place : e.pending_position ≡ 0 = ap (λ f. f.pending_position) is in
      (
        omega arith,
        first_miss,
        subst (λ n. Indexes one_read n first_miss) (sym place) refl,
        sym slot,
      );
  single = λ i j e f at at' wait wait' same. (only_entry i e at).0 ∙ sym (only_entry j f at').0;
}
  where
    zero_of : (k : ℕ) → k < 1 → 0 ≡ k
    zero_of k below = omega arith

reads_one : entry one_read 1 ≡ ok first_entry
unfolding entry
reads_one = refl

fail-IsIndexed_example :
    (t' : MissTable) × (fail one_read 1 5 ≡ ok t')
    × IsIndexed t'
    × (entry t' 1 ≡ ok (record first_entry { outcome = failed 5 }))
    × Keeps one_read 1 t'
fail-IsIndexed_example =
    fail-IsIndexed one_read 1 5 first_entry one_read-IsIndexed reads_one refl (omega arith)

succeed-IsIndexed_example :
    (t' : MissTable) × (succeed one_read 1 ≡ ok t')
    × IsIndexed t'
    × (entry t' 1 ≡ ok (record first_entry { outcome = succeeded }))
    × Keeps one_read 1 t'
    × (t'.success_frames ≡ some (1, 1) ∷ none ∷ [])
succeed-IsIndexed_example =
    succeed-IsIndexed one_read 1 first_entry one_read-IsIndexed reads_one refl refl

find_pending_lem_example :
    (found : Option ℕ) × (find_pending one_read cold_page ≡ ok found)
    × Reads one_read cold_page found
find_pending_lem_example = find_pending_lem one_read cold_page one_read-IsIndexed
