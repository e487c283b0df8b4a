-- ===== src/IndexQueue/Push.antt =====
-- src/pool/prefetch/state.rs: the push of `IndexQueue` onto a list.
use dios.Common.{
  ℕ, ◌≡◌, ◌≢◌, ◌<◌, if◌then◌else◌, ◌==◌, Option, none, some, List, [], ◌∷◌, ◌++◌, arith, refl, sym,
  ap, subst, ◌∙◌, ℕ_discrete, length, get_elem?, set, ok, ap₂, get_elem?-set_self, get_elem?-set_ne,
  lt_of_get_elem?, length-set,
}
use dios.Common.Count.{count}
use dios.IndexQueue.{IndexQueue, Cells, push_after, push_index}
use dios.IndexQueue.Unlink.{linked_by}
use dios.IndexQueue.Spec.{IsQueue}
use dios.IndexQueue.Order.{
  last_after, before, after, Once, before-push, last_after-push, after-push_last, after-push_inner,
  after-last, count-push, last_after-some, last-member,
}

-- The list with the index at its end, where it is not in it yet.
abbrev pub enqueue : ℕ → List ℕ → List ℕ
enqueue x xs = if count x xs == 0 then xs ++ x ∷ [] else xs

pushed-Once : (xs : List ℕ) (x : ℕ) → Once xs → count x xs ≡ 0 → Once (xs ++ x ∷ [])
pushed-Once xs x once none_of_it i = ground (arith, once i, count-push i xs x, none_of_it)

-- The push onto a queue that links no index.
pushes_first :
    (q : IndexQueue) (x : ℕ)
    → IsQueue q []
    → x < length q.links
    → (q' : IndexQueue) × (push_index q x ≡ ok q')
      × IsQueue q' (x ∷ [])
      × (length q'.links ≡ length q.links)
unfolding push_index
pushes_first q x v inside =
    let l = linked_by none none in
    (
      record { links = set q.links x (some l); first = some x; last = some x },
      rw (v.absent x inside refl) (pushed_on q.last v.last),
      record {
        once = λ i. ground arith;
        member = λ i at.
            let same : x ≡ i = ground (arith, at) in
            subst
              (λ k.
                get_elem? (set q.links x (some l)) k
                ≡ some (some (linked_by (before none (x ∷ []) k) (after (x ∷ []) k))))
              same (get_elem?-set_self q.links x (some l) inside ∙ ap (λ m. some (some m)) alone);
        absent = λ i i_in none_of_it.
            get_elem?-set_ne q.links x i (some l) (λ s. ground (arith, s, none_of_it))
            ∙ v.absent i (omega (arith, length-set q.links x (some l))) refl;
        first = refl;
        last = refl;
      },
      length-set q.links x (some l),
    )
  where
    pushed_on :
        (last : Option ℕ)
        → last ≡ none
        → push_after q x (set q.links x (some (linked_by last none))) last
          ≡ ok (record {
            links = set q.links x (some (linked_by none none));
            first = some x;
            last = some x;
          })
    pushed_on none e = refl
    pushed_on (some l) e = ground (arith, e)

    alone : linked_by none none ≡ linked_by (before none (x ∷ []) x) (after (x ∷ []) x)
    alone = ap₂ linked_by (ground arith) (ground arith)

-- The push onto a queue that links some.
module _ (q : IndexQueue) (y : ℕ) (ys : List ℕ) (x l : ℕ) (v : IsQueue q (y ∷ ys))
    (none_of_it : count x (y ∷ ys) ≡ 0) (inside : x < length q.links)
    (end : last_after (some y) ys ≡ some l) where
  abbrev xs : List ℕ
  xs = y ∷ ys

  abbrev fresh_cells : Cells
  fresh_cells = set q.links x (some (linked_by (some l) none))

  abbrev pushed_cells : Cells
  pushed_cells = set fresh_cells l (some (linked_by (before none xs l) (some x)))

  tail_member : 0 < count l xs
  tail_member = elim (ℕ_discrete y l) [
    | yes same ↦ ground (arith, same)
    | no ne ↦ ground (arith, last-member y ys l end ne)
  ]

  x_l : x ≢ l
  x_l s = ground (arith, none_of_it, tail_member, s)

  tail_cell : get_elem? fresh_cells l ≡ some (some (linked_by (before none xs l) (after xs l)))
  tail_cell =
      get_elem?-set_ne q.links x l (some (linked_by (some l) none)) x_l ∙ v.member l tail_member

  tail_linked :
      push_after q x fresh_cells (some l)
      ≡ ok (record { links = pushed_cells; first = q.first; last = some x })
  tail_linked = rw tail_cell refl

  -- The links of each member after the push, by where it stands.
  new_cell :
      get_elem? pushed_cells x
      ≡ some (some (linked_by (before none (xs ++ x ∷ []) x) (after (xs ++ x ∷ []) x)))
  new_cell =
      get_elem?-set_ne fresh_cells l x (some (linked_by (before none xs l) (some x)))
        (λ s. x_l (sym s))
      ∙ get_elem?-set_self q.links x (some (linked_by (some l) none)) inside
      ∙ ap (λ m. some (some m))
          (ap₂ linked_by (sym (ground (arith, before-push none xs x x none_of_it, end))) (
            sym (
              after-last none (xs ++ x ∷ []) x (pushed-Once xs x v.once none_of_it)
                (λ s. ground (arith, s)) (last_after-push none xs x))))

  old_tail_cell :
      get_elem? pushed_cells l
      ≡ some (some (linked_by (before none (xs ++ x ∷ []) l) (after (xs ++ x ∷ []) l)))
  old_tail_cell =
      get_elem?-set_self fresh_cells l (some (linked_by (before none xs l) (some x)))
        (lt_of_get_elem? fresh_cells l tail_cell)
      ∙ ap (λ m. some (some m))
          (ap₂ linked_by (sym (ground (arith, before-push none xs x l none_of_it, x_l)))
            (sym (after-push_last y ys x l v.once end)))

  other_cell :
      (i : ℕ)
      → 0 < count i xs
      → x ≢ i
      → l ≢ i
      → get_elem? pushed_cells i
        ≡ some (some (linked_by (before none (xs ++ x ∷ []) i) (after (xs ++ x ∷ []) i)))
  other_cell i at x_i l_i =
      let end_i : last_after (some y) ys ≢ some i = λ s. ground (arith, s, end, l_i) in
      get_elem?-set_ne fresh_cells l i (some (linked_by (before none xs l) (some x))) l_i
      ∙ get_elem?-set_ne q.links x i (some (linked_by (some l) none)) x_i
      ∙ v.member i at
      ∙ ap (λ m. some (some m))
          (ap₂ linked_by (sym (ground (arith, before-push none xs x i none_of_it, x_i)))
            (sym (after-push_inner y ys x i x_i end_i)))

  pushes_more :
      (q' : IndexQueue) × (push_index q x ≡ ok q')
      × IsQueue q' (xs ++ x ∷ [])
      × (length q'.links ≡ length q.links)
  unfolding push_index
  pushes_more = (
    record { links = pushed_cells; first = q.first; last = some x },
    rw (v.absent x inside none_of_it) (
        ap (λ o. push_after q x (set q.links x (some (linked_by o none))) o) (v.last ∙ end)
        ∙ tail_linked),
    record {
      once = pushed-Once xs x v.once none_of_it;
      member = λ i at. elim (ℕ_discrete x i) [
        | yes same ↦
            subst
              (λ k.
                get_elem? pushed_cells k
                ≡ some (some (linked_by (before none (xs ++ x ∷ []) k) (after (xs ++ x ∷ []) k))))
              same new_cell
        | no x_i ↦ elim (ℕ_discrete l i) [
          | yes same ↦
              subst
                (λ k.
                  get_elem? pushed_cells k
                  ≡ some (some (linked_by (before none (xs ++ x ∷ []) k) (after (xs ++ x ∷ []) k))))
                same old_tail_cell
          | no l_i ↦ other_cell i (ground (arith, at, count-push i xs x, x_i)) x_i l_i
        ]
      ];
      absent = λ i i_in none_here.
          let x_i : x ≢ i = λ s. ground (arith, s, none_here, count-push i xs x) in
          let gone : count i xs ≡ 0 = ground (arith, none_here, count-push i xs x, x_i) in
          let l_i : l ≢ i = λ s. ground (arith, s, gone, tail_member) in
          get_elem?-set_ne fresh_cells l i (some (linked_by (before none xs l) (some x))) l_i
          ∙ get_elem?-set_ne q.links x i (some (linked_by (some l) none)) x_i
          ∙ v.absent i
              (omega (
                arith,
                length-set fresh_cells l (some (linked_by (before none xs l) (some x))),
                length-set q.links x (some (linked_by (some l) none)),
              ))
              gone;
      first = v.first;
      last = sym (last_after-push none xs x);
    },
    length-set fresh_cells l (some (linked_by (before none xs l) (some x)))
        ∙ length-set q.links x (some (linked_by (some l) none)),
  )

pushes :
    (q : IndexQueue) (xs : List ℕ) (x : ℕ)
    → IsQueue q xs
    → count x xs ≡ 0
    → x < length q.links
    → (q' : IndexQueue) × (push_index q x ≡ ok q')
      × IsQueue q' (xs ++ x ∷ [])
      × (length q'.links ≡ length q.links)
pushes q [] x v none_of_it inside = pushes_first q x v inside
pushes q (y ∷ ys) x v none_of_it inside =
    let (l, end) = last_after-some y ys in pushes_more q y ys x l v none_of_it inside end

push_member :
    (q : IndexQueue) (xs : List ℕ) (x : ℕ) → IsQueue q xs → 0 < count x xs → push_index q x ≡ ok q
unfolding push_index
push_member q xs x v member = rw (v.member x member) refl

-- `push` refines the append. On a queue that links a list, the push of an index within its capacity
-- ends without a panic and leaves a queue, of the same capacity, that links the list with the index at
-- its end, or the same list where the index was in it already.
pub push_index-IsQueue :
    (q : IndexQueue) (xs : List ℕ) (x : ℕ)
    → IsQueue q xs
    → x < length q.links
    → (q' : IndexQueue) × (push_index q x ≡ ok q')
      × IsQueue q' (enqueue x xs)
      × (length q'.links ≡ length q.links)
push_index-IsQueue q xs x v inside = elim (ℕ_discrete (count x xs) 0) [
  | yes none_of_it ↦
      let at_end : enqueue x xs ≡ xs ++ x ∷ [] = rw none_of_it refl in
      let (q', runs, w, len) = pushes q xs x v none_of_it inside in
      (q', runs, subst (λ ys. IsQueue q' ys) (sym at_end) w, len)
  | no some_of_it ↦
      let kept : enqueue x xs ≡ xs = ground (arith, some_of_it) in
      (q, push_member q xs x v (omega arith), subst (λ ys. IsQueue q ys) (sym kept) v, refl)
]
