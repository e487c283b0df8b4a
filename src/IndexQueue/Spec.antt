-- ===== src/IndexQueue/Spec.antt =====
-- src/pool/prefetch/state.rs: `IndexQueue` refines a list in which each index stands at most once.
use dios.Common.{
  ℕ, ◌≡◌, ◌≢◌, ◌<◌, Option, none, some, List, [], ◌∷◌, arith, refl, sym, ap, subst, ◌∙◌, ℕ_discrete,
  length, get_elem?, set, ok, drop, ◌>>=◌, get_elem?-set_self, get_elem?-set_ne, lt_of_get_elem?,
  length-set,
}
use dios.Common.Count.{count, erase, count-erase}
use dios.IndexQueue.{IndexQueue, remove_index, pop_index}
use dios.IndexQueue.Unlink.{IsLinked, passes_previous, passes_next}
use dios.IndexQueue.Order.{head, last_after, before, after, Once}

-- The queue links the elements of the list in its order, and no others.
pub record IsQueue (q : IndexQueue) (xs : List ℕ) : Type 0 where
  pub once : Once xs
  pub member :
      (i : ℕ)
      → 0 < count i xs
      → get_elem? q.links i
        ≡ some (some (record { previous = before none xs i; next = after xs i }))
  pub absent : (i : ℕ) → i < length q.links → count i xs ≡ 0 → get_elem? q.links i ≡ some none
  pub first : q.first ≡ head xs
  pub last : q.last ≡ last_after none xs

erase-absent : (x : ℕ) (xs : List ℕ) → count x xs ≡ 0 → erase x xs ≡ xs
erase-absent x [] e = refl
erase-absent x (y ∷ xs) e =
    let apart : x ≢ y = λ s. ground (arith, e, s) in
    ground (arith, apart, ap (λ ys. y ∷ ys) (erase-absent x xs (ground (arith, e, apart))))

erase-Once : (x : ℕ) (xs : List ℕ) → Once xs → Once (erase x xs)
erase-Once x xs once i = ground (arith, once i, count-erase i x xs)

-- A member is within the links.
member_inside :
    (q : IndexQueue) (xs : List ℕ) (i : ℕ) → IsQueue q xs → 0 < count i xs → i < length q.links
member_inside q xs i v at = lt_of_get_elem? q.links i (v.member i at)

unlinked-IsQueue :
    (q : IndexQueue) (xs : List ℕ) (x : ℕ)
    → Once xs
    → 0 < count x xs
    → IsLinked q.links xs x (before none (erase x xs)) (after (erase x xs))
    → q.first ≡ head (erase x xs)
    → q.last ≡ last_after none (erase x xs)
    → IsQueue q (erase x xs)
unlinked-IsQueue q xs x once mine w first last = record {
  once = erase-Once x xs once;
  member = λ i at. let (old, ne) = stays i at in w.there i old ne;
  absent = λ i inside none_of_it. elim (ℕ_discrete x i) [
    | yes same ↦ subst (λ k. get_elem? q.links k ≡ some none) same w.out
    | no ne ↦ w.gone i inside (ground (arith, ne, none_of_it, count-erase i x xs))
  ];
  first = first;
  last = last;
}
  where
    stays : (i : ℕ) → 0 < count i (erase x xs) → (0 < count i xs) × (x ≢ i)
    stays i at = (
      ground (arith, at, count-erase i x xs),
      (λ s. ground (arith, at, count-erase i x xs, once i, s)),
    )

removes_member :
    (q : IndexQueue) (xs : List ℕ) (x : ℕ)
    → IsQueue q xs
    → 0 < count x xs
    → (q' : IndexQueue) × (remove_index q x ≡ ok q')
      × IsQueue q' (erase x xs)
      × (length q'.links ≡ length q.links)
unfolding remove_index
removes_member q xs x v mine =
    let inside = member_inside q xs x v mine in
    let start : IsLinked (set q.links x none) xs x (before none xs) (after xs) = record {
      there = λ i at ne. get_elem?-set_ne q.links x i none ne ∙ v.member i at;
      gone = λ i i_in none_of_it.
          get_elem?-set_ne q.links x i none (λ s. ground (arith, mine, none_of_it, s))
          ∙ v.absent i (omega (arith, length-set q.links x none)) none_of_it;
      out = get_elem?-set_self q.links x none inside;
    } in
    let q₀ = record q { links = set q.links x none } in
    let (q₁, runs₁, w₁, first₁, last₁, len₁) = passes_previous q₀ xs x v.once mine start v.first in
    let (q₂, runs₂, w₂, first₂, last₂, len₂) =
      passes_next q₁ xs x v.once mine w₁ (last₁ ∙ v.last) in
    (
      q₂,
      rw (v.member x mine, runs₁) runs₂,
      unlinked-IsQueue q₂ xs x v.once mine w₂ (first₂ ∙ first₁) last₂,
      len₂ ∙ len₁ ∙ length-set q.links x none,
    )

-- `remove` refines the erasure. On a queue that links a list, the removal of an index within its
-- capacity ends without a panic and leaves a queue, of the same capacity, that links the list without
-- the index; an index that is not in the list leaves it as it is.
pub remove_index-IsQueue :
    (q : IndexQueue) (xs : List ℕ) (x : ℕ)
    → IsQueue q xs
    → x < length q.links
    → (q' : IndexQueue) × (remove_index q x ≡ ok q')
      × IsQueue q' (erase x xs)
      × (length q'.links ≡ length q.links)
unfolding remove_index
remove_index-IsQueue q xs x v inside = elim (ℕ_discrete (count x xs) 0) [
  | yes none_of_it ↦ (
    q,
    rw (v.absent x inside none_of_it) refl,
    subst (λ ys. IsQueue q ys) (sym (erase-absent x xs none_of_it)) v,
    refl,
  )
  | no some_of_it ↦ removes_member q xs x v (omega arith)
]

pop_none : (q : IndexQueue) → q.first ≡ none → pop_index q ≡ ok (none, q)
unfolding pop_index
pop_none q e =
    ap {A = Option ℕ}
      (λ o. elim o [
        | none ↦ ok (none, q)
        | some index ↦ remove_index q index >>= λ rest. ok (some index, rest)
      ])
      e

pop_some :
    (q : IndexQueue) (x : ℕ) {q' : IndexQueue}
    → q.first ≡ some x
    → remove_index q x ≡ ok q'
    → pop_index q ≡ ok (some x, q')
unfolding pop_index
pop_some q x e runs =
    ap {A = Option ℕ}
      (λ o. elim o [
        | none ↦ ok (none, q)
        | some index ↦ remove_index q index >>= λ rest. ok (some index, rest)
      ])
      e
    ∙ ap (λ c. c >>= λ rest. ok (some x, rest)) runs

-- `pop` refines taking the head off. On a queue that links a list, a pop ends without a panic, gives
-- the first index of the list, or `none` of an empty one, and leaves a queue that links the rest.
pub pop_index-IsQueue :
    (q : IndexQueue) (xs : List ℕ)
    → IsQueue q xs
    → (q' : IndexQueue) × (pop_index q ≡ ok (head xs, q'))
      × IsQueue q' (drop 1 xs)
      × (length q'.links ≡ length q.links)
pop_index-IsQueue q [] v = (q, pop_none q v.first, v, refl)
pop_index-IsQueue q (x ∷ xs) v =
    let (q', runs, w, len) = removes_member q (x ∷ xs) x v (ground arith) in
    let rest : erase x (x ∷ xs) ≡ xs = ground arith in
    (q', pop_some q x v.first runs, subst (λ ys. IsQueue q' ys) rest w, len)
