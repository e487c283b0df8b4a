-- ===== src/Prefetch/Requeue.antt =====
-- src/pool/prefetch/state.rs: `retry_cleanup` moves the waiting entries to the cleanup queue.
use dios.Common.{
  ℕ, zero, suc, ◌≡◌, ◌≢◌, ◌≤◌, ◌<◌, ◌>>=◌, Bool, true, false, if◌then◌else◌, ◌==◌, List, [], ◌∷◌,
  length, ok, arith, refl, sym, ap, subst, ◌∙◌, ℕ_discrete, lt_of_get_elem?,
}
use dios.Common.Count.{count, erase, count-erase}
use dios.IndexQueue.{IndexQueue}
use dios.IndexQueue.Order.{Once}
use dios.IndexQueue.Spec.{IsQueue, pop_index-IsQueue}
use dios.IndexQueue.Push.{enqueue, push_index-IsQueue}
use dios.Prefetch.{Prefetch}
use dios.Prefetch.Cleanup.{requeue_from, retry_cleanup}

-- The list with each of `xs` at its end in turn, where it is not in it yet.
abbrev pub enqueue_all : List ℕ → List ℕ → List ℕ
enqueue_all [] ys = ys
enqueue_all (x ∷ xs) ys = enqueue_all xs (enqueue x ys)

length-erase : (x : ℕ) (xs : List ℕ) → length xs ≤ suc (length (erase x xs))
length-erase x [] = omega arith
length-erase x (y ∷ xs) = ground (arith, length-erase x xs)

-- Distinct numbers below `n` are at most `n`.
length-Once : (n : ℕ) (xs : List ℕ) → Once xs → ((i : ℕ) → 0 < count i xs → i < n) → length xs ≤ n
length-Once zero [] once below = omega arith
length-Once zero (x ∷ xs) once below = absurd (omega (arith, below x (ground arith)))
length-Once (suc n) xs once below =
    let fewer =
      length-Once n (erase n xs) (λ i. ground (arith, once i, count-erase i n xs)) (below_n) in
    omega (arith, fewer, length-erase n xs)
  where
    below_n : (i : ℕ) → 0 < count i (erase n xs) → i < n
    below_n i at =
        let inside : 0 < count i xs = ground (arith, at, count-erase i n xs) in
        let ne : i ≢ n = λ s. ground (arith, at, count-erase i n xs, once i, s) in
        omega (arith, below i inside)

member_below :
    (q : IndexQueue) (xs : List ℕ) → IsQueue q xs → (i : ℕ) → 0 < count i xs → i < length q.links
member_below q xs v i at = lt_of_get_elem? q.links i (v.member i at)

requeues :
    (rounds : ℕ) (waiting cleanup : IndexQueue) (xs ys : List ℕ)
    → IsQueue waiting xs
    → IsQueue cleanup ys
    → length waiting.links ≡ length cleanup.links
    → length xs ≤ rounds
    → (w c : IndexQueue) × (requeue_from rounds waiting cleanup ≡ ok (w, c))
      × IsQueue w []
      × IsQueue c (enqueue_all xs ys)
unfolding requeue_from
requeues zero waiting cleanup [] ys v u same enough = (waiting, cleanup, refl, v, u)
requeues zero waiting cleanup (x ∷ xs) ys v u same enough = absurd (omega arith)
requeues (suc rounds) waiting cleanup [] ys v u same enough =
    let (w, runs, r, _) = pop_index-IsQueue waiting [] v in (w, cleanup, rw runs refl, r, u)
requeues (suc rounds) waiting cleanup (x ∷ xs) ys v u same enough =
    let (w, runs, r, w_len) = pop_index-IsQueue waiting (x ∷ xs) v in
    let inside : x < length cleanup.links =
      omega (arith, same, member_below waiting (x ∷ xs) v x (ground arith)) in
    let (c, pushes, s, c_len) = push_index-IsQueue cleanup ys x u inside in
    let (w', c', onward, r', s') =
      requeues rounds w c xs (enqueue x ys) r s (omega arith) (omega arith) in
    (w', c', rw (runs, pushes) onward, r', s')

if_true : {A : Type 0} (x y : A) (b : Bool) → b ≡ true → (if b then x else y) ≡ x
if_true x y b e = rw e refl

if_false : {A : Type 0} (x y : A) (b : Bool) → b ≡ false → (if b then x else y) ≡ y
if_false x y b e = rw e refl

-- `retry_cleanup` queues every waiting entry again. On a ledger whose waiting and cleanup queues, of
-- the ledger's capacity, link two lists, it ends without a panic at the given count of releases: where
-- the count is new, the waiting queue is empty, and the cleanup queue has its members and then the
-- waiting ones in their order, each once; where it is not, the queues link the lists they did.
pub retry_cleanup_lem :
    (p : Prefetch) (releases : ℕ) (xs ys : List ℕ)
    → IsQueue p.waiting xs
    → IsQueue p.cleanup ys
    → length p.waiting.links ≡ p.capacity
    → length p.cleanup.links ≡ p.capacity
    → (p' : Prefetch) × (retry_cleanup p releases ≡ ok p')
      × (p'.pending_releases ≡ releases)
      × IsQueue p'.waiting (if p.pending_releases == releases then xs else [])
      × IsQueue p'.cleanup (if p.pending_releases == releases then ys else enqueue_all xs ys)
unfolding retry_cleanup
retry_cleanup_lem p releases xs ys v u w_len c_len = elim (ℕ_discrete p.pending_releases releases) [
  | yes same ↦
      let at : (p.pending_releases == releases) ≡ true = ground (arith, same) in
      (
        p,
        if_true _ _ (p.pending_releases == releases) at,
        same,
        subst (λ zs. IsQueue p.waiting zs) (sym (if_true _ _ (p.pending_releases == releases) at))
            v,
        subst (λ zs. IsQueue p.cleanup zs) (sym (if_true _ _ (p.pending_releases == releases) at))
            u,
      )
  | no new ↦
      let at : (p.pending_releases == releases) ≡ false = ground (arith, new) in
      let fits =
        length-Once p.capacity xs v.once
          (λ i member. omega (arith, member_below p.waiting xs v i member)) in
      let (w, c, runs, r, s) =
        requeues p.capacity p.waiting p.cleanup xs ys v u (w_len ∙ sym c_len) fits in
      (
        record p { pending_releases = releases; waiting = w; cleanup = c },
        if_false _ _ (p.pending_releases == releases) at
            ∙ moved p.capacity p.waiting p.cleanup w c runs,
        refl,
        subst (λ zs. IsQueue w zs) (sym (if_false _ _ (p.pending_releases == releases) at)) r,
        subst (λ zs. IsQueue c zs) (sym (if_false _ _ (p.pending_releases == releases) at)) s,
      )
]
  where
    moved :
        (n : ℕ) (waiting cleanup w c : IndexQueue)
        → requeue_from n waiting cleanup ≡ ok (w, c)
        → (requeue_from n waiting cleanup >>= λ both.
            ok (record p { pending_releases = releases; waiting = both.0; cleanup = both.1 }))
          ≡ ok (record p { pending_releases = releases; waiting = w; cleanup = c })
    moved n waiting cleanup w c runs =
        ap
          (λ m. m >>= λ both.
            ok (record p { pending_releases = releases; waiting = both.0; cleanup = both.1 }))
          runs
