-- ===== src/IndexQueue/Tests.antt =====
-- src/pool/prefetch/state.rs, at queues of three indices.
use dios.Common.{
  ◌≡◌, none, some, [], ◌∷◌, length, ok, arith, refl, Checked, ap, subst, sym, ◌∙◌,
  get_elem?-replicate,
}
use dios.IndexQueue.{IndexQueue, new_queue, push_index, remove_index, pop_index}
use dios.IndexQueue.Spec.{IsQueue, remove_index-IsQueue, pop_index-IsQueue}
use dios.IndexQueue.Push.{push_index-IsQueue}

new_queue-IsQueue : IsQueue (new_queue 3) []
new_queue-IsQueue = record {
  once = λ i. omega arith;
  member = λ i at. absurd (omega arith);
  absent = λ i inside none_of_it. get_elem?-replicate 3 i none inside;
  first = refl;
  last = refl;
}

abbrev one_queued : IndexQueue
one_queued = record {
  links = none ∷ none ∷ some (record { previous = none; next = none }) ∷ [];
  first = some 2;
  last = some 2;
}

pushes_two : push_index (new_queue 3) 2 ≡ ok one_queued
unfolding push_index
pushes_two = refl

unfoldable ok_queue : Checked IndexQueue → IndexQueue
ok_queue (ok q) = q
ok_queue Checked.panic = one_queued

one_queued-IsQueue : IsQueue one_queued (2 ∷ [])
unfolding ok_queue
one_queued-IsQueue =
    let (q', runs, w, _) = push_index-IsQueue (new_queue 3) [] 2 new_queue-IsQueue (omega arith) in
    subst (λ q. IsQueue q (2 ∷ [])) (ap ok_queue (sym runs ∙ pushes_two)) w

push_index-IsQueue_example :
    (q' : IndexQueue) × (push_index one_queued 0 ≡ ok q')
    × IsQueue q' (2 ∷ 0 ∷ [])
    × (length q'.links ≡ 3)
push_index-IsQueue_example =
    push_index-IsQueue one_queued (2 ∷ []) 0 one_queued-IsQueue (omega arith)

remove_index-IsQueue_example :
    (q' : IndexQueue) × (remove_index one_queued 2 ≡ ok q') × IsQueue q' [] × (length q'.links ≡ 3)
remove_index-IsQueue_example =
    remove_index-IsQueue one_queued (2 ∷ []) 2 one_queued-IsQueue (omega arith)

pop_index-IsQueue_example :
    (q' : IndexQueue) × (pop_index one_queued ≡ ok (some 2, q'))
    × IsQueue q' []
    × (length q'.links ≡ 3)
pop_index-IsQueue_example = pop_index-IsQueue one_queued (2 ∷ []) one_queued-IsQueue
