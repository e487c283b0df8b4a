-- ===== src/IndexQueue/Unlink.antt =====
-- src/pool/prefetch/state.rs: the two steps by which `IndexQueue` takes a member out of its links.
use dios.Common.{
  ℕ, ◌≡◌, ◌≢◌, ◌<◌, inl, inr, Option, none, some, List, arith, refl, sym, ap, ap₂, subst, ◌∙◌,
  ℕ_discrete, length, get_elem?, set, ok, Option-cases, get_elem?-set_self, get_elem?-set_ne,
  lt_of_get_elem?, length-set,
}
use dios.Common.Count.{count, erase}
use dios.IndexQueue.{Links, IndexQueue, Cells, set_next, set_previous, unlink_previous, unlink_next}
use dios.IndexQueue.Order.{
  head, last_after, before, after, Once, after-member, before-member, before-after, after-before,
  head-none, last-none, after-last, after_self, before-first,
}
use dios.IndexQueue.Erase.{
  head-erase_first, head-erase_other, before-erase_next, before-erase_other, after-erase_previous,
  after-erase_other, last-erase_last, last-erase_other,
}

abbrev pub linked_by : Option ℕ → Option ℕ → Links
linked_by previous next = record { previous = previous; next = next }

-- The links of the members but `x`, which is out of them, by two functions.
pub record IsLinked (cells : Cells) (xs : List ℕ) (x : ℕ) (p n : ℕ → Option ℕ) : Type 0 where
  pub there :
      (i : ℕ)
      → 0 < count i xs
      → x ≢ i
      → get_elem? cells i ≡ some (some (record { previous = p i; next = n i }))
  pub gone : (i : ℕ) → i < length cells → count i xs ≡ 0 → get_elem? cells i ≡ some none
  pub out : get_elem? cells x ≡ some none

module _ (cells : Cells) (xs : List ℕ) (x : ℕ) (p n : ℕ → Option ℕ)
    (w : IsLinked cells xs x p n) where
  -- A write to one member's links.
  pub relink :
      (a : ℕ) (l : Links) (p' n' : ℕ → Option ℕ)
      → 0 < count a xs
      → x ≢ a
      → l ≡ record { previous = p' a; next = n' a }
      → ((i : ℕ) → x ≢ i → a ≢ i → p' i ≡ p i)
      → ((i : ℕ) → x ≢ i → a ≢ i → n' i ≡ n i)
      → IsLinked (set cells a (some l)) xs x p' n'
  relink a l p' n' member ne is same_p same_n = record {
    there = λ i at apart. elim (ℕ_discrete a i) [
      | yes here ↦
          subst
            (λ k.
              get_elem? (set cells a (some l)) k
              ≡ some (some (record { previous = p' k; next = n' k })))
            here
            (get_elem?-set_self cells a (some l) (lt_of_get_elem? cells a (w.there a member ne))
              ∙ ap (λ m. some (some m)) is)
      | no other ↦
          get_elem?-set_ne cells a i (some l) other
          ∙ w.there i at apart
          ∙ ap (λ m. some (some m))
              (ap₂ linked_by (sym (same_p i apart other)) (sym (same_n i apart other)))
    ];
    gone = λ i inside none_of_it.
        get_elem?-set_ne cells a i (some l) (λ s. ground (arith, s, member, none_of_it))
        ∙ w.gone i (omega (arith, length-set cells a (some l))) none_of_it;
    out = get_elem?-set_ne cells a x (some l) (λ s. ne (sym s)) ∙ w.out;
  }

  -- The same links, by functions that agree on the members.
  relabel :
      (p' n' : ℕ → Option ℕ)
      → ((i : ℕ) → x ≢ i → p' i ≡ p i)
      → ((i : ℕ) → x ≢ i → n' i ≡ n i)
      → IsLinked cells xs x p' n'
  relabel p' n' same_p same_n = record {
    there = λ i at apart.
        w.there i at apart
        ∙ ap (λ m. some (some m)) (ap₂ linked_by (sym (same_p i apart)) (sym (same_n i apart)));
    gone = w.gone;
    out = w.out;
  }

  set_next-ok :
      (a : ℕ) (next : Option ℕ)
      → 0 < count a xs
      → x ≢ a
      → set_next cells a next ≡ ok (set cells a (some (record { previous = p a; next = next })))
  set_next-ok a next member ne = rw (w.there a member ne) refl

  set_previous-ok :
      (b : ℕ) (previous : Option ℕ)
      → 0 < count b xs
      → x ≢ b
      → set_previous cells b previous
        ≡ ok (set cells b (some (record { previous = previous; next = n b })))
  set_previous-ok b previous member ne = rw (w.there b member ne) refl

-- The first removal step: what came before `x` leads to what came after it.
module _ (q : IndexQueue) (xs : List ℕ) (x : ℕ) (once : Once xs) (mine : 0 < count x xs)
    (w : IsLinked q.links xs x (before none xs) (after xs)) (f : q.first ≡ head xs) where
  pub passes_previous :
      (q' : IndexQueue) × (unlink_previous q (linked_by (before none xs x) (after xs x)) ≡ ok q')
      × IsLinked q'.links xs x (before none xs) (after (erase x xs))
      × (q'.first ≡ head (erase x xs))
      × (q'.last ≡ q.last)
      × (length q'.links ≡ length q.links)
  passes_previous = elim (Option-cases (before none xs x)) [
    | inl at_head ↦
        let first_x = head-none xs x mine at_head in
        (
          record q { first = after xs x },
          rw at_head refl,
          relabel q.links xs x (before none xs) (after xs) w (before none xs) (after (erase x xs))
              (λ i ne. refl) (λ i ne. after-erase_other xs x i ne (λ s. apart_of_head i at_head s)),
          sym (head-erase_first xs x once first_x),
          refl,
          refl,
        )
    | inr (a, at) ↦
        let no_p : (none ≢ some a) = λ s. ground (arith, s) in
        let member = before-member none xs x a at no_p in
        let leads = after-before none xs x a once at no_p in
        let apart : x ≢ a = λ s. self_after a leads s in
        let l = linked_by (before none xs a) (after xs x) in
        (
          record q { links = set q.links a (some l) },
          rw
              (
                at,
                set_next-ok q.links xs x (before none xs) (after xs) w a (after xs x) member apart,
              )
              refl,
          relink q.links xs x (before none xs) (after xs) w a l (before none xs)
              (after (erase x xs)) member apart
              (ap (linked_by (before none xs a))
                (sym (after-erase_previous xs x a once apart leads)))
              (λ i ne other. refl)
              (λ i ne other. after-erase_other xs x i ne (λ s. other (only_before a i at s))),
          f ∙ sym (head-erase_other xs x (λ s. not_head a at s)),
          refl,
          length-set q.links a (some l),
        )
  ]
    where
      apart_of_head : (i : ℕ) → before none xs x ≡ none → after xs i ≢ some x
      apart_of_head i at_head s =
          let back = before-after none xs i x once s in ground (arith, at_head, back)

      self_after : (a : ℕ) → after xs a ≡ some x → x ≢ a
      self_after a leads s = after_self xs x once (subst (λ k. after xs k ≡ some x) (sym s) leads)

      only_before : (a i : ℕ) → before none xs x ≡ some a → after xs i ≡ some x → a ≡ i
      only_before a i at s = let back = before-after none xs i x once s in ground (arith, at, back)

      not_head : (a : ℕ) → before none xs x ≡ some a → head xs ≢ some x
      not_head a at s = ground (arith, at, before-first none xs x s)

-- The second: what came after `x` leads back to what came before it.
module _ (q : IndexQueue) (xs : List ℕ) (x : ℕ) (once : Once xs) (mine : 0 < count x xs)
    (w : IsLinked q.links xs x (before none xs) (after (erase x xs)))
    (f : q.last ≡ last_after none xs) where
  pub passes_next :
      (q' : IndexQueue) × (unlink_next q (linked_by (before none xs x) (after xs x)) ≡ ok q')
      × IsLinked q'.links xs x (before none (erase x xs)) (after (erase x xs))
      × (q'.first ≡ q.first)
      × (q'.last ≡ last_after none (erase x xs))
      × (length q'.links ≡ length q.links)
  passes_next = elim (Option-cases (after xs x)) [
    | inl at_end ↦
        let last_x = last-none none xs x mine at_end in
        (
          record q { last = before none xs x },
          rw at_end refl,
          relabel q.links xs x (before none xs) (after (erase x xs)) w (before none (erase x xs))
              (after (erase x xs))
              (λ i ne. before-erase_other none xs x i ne (λ s. apart_of_end i at_end s))
              (λ i ne. refl),
          refl,
          sym (last-erase_last none xs x once (λ s. ground (arith, s)) last_x),
          refl,
        )
    | inr (b, at) ↦
        let member = after-member xs x b at in
        let leads = before-after none xs x b once at in
        let apart : x ≢ b = λ s. self_before b at s in
        let l = linked_by (before none xs x) (after (erase x xs) b) in
        (
          record q { links = set q.links b (some l) },
          rw
              (
                at,
                set_previous-ok q.links xs x (before none xs) (after (erase x xs)) w b
                    (before none xs x) member apart,
              )
              refl,
          relink q.links xs x (before none xs) (after (erase x xs)) w b l (before none (erase x xs))
              (after (erase x xs)) member apart
              (ap (λ p. linked_by p (after (erase x xs) b))
                (sym (before-erase_next none xs x b once apart (λ s. ground (arith, s)) leads)))
              (λ i ne other. before-erase_other none xs x i ne (λ s. other (only_after b i at s)))
              (λ i ne other. refl),
          refl,
          f ∙ sym (last-erase_other none xs x (λ s. not_last b at s)),
          length-set q.links b (some l),
        )
  ]
    where
      no_p : {i : ℕ} → none ≢ some i
      no_p s = ground (arith, s)

      apart_of_end : (i : ℕ) → after xs x ≡ none → before none xs i ≢ some x
      apart_of_end i at_end s =
          let on = after-before none xs i x once s no_p in ground (arith, at_end, on)

      self_before : (b : ℕ) → after xs x ≡ some b → x ≢ b
      self_before b at s = after_self xs x once (at ∙ ap (λ n. some n) (sym s))

      only_after : (b i : ℕ) → after xs x ≡ some b → before none xs i ≡ some x → b ≡ i
      only_after b i at s = let on = after-before none xs i x once s no_p in ground (arith, at, on)

      not_last : (b : ℕ) → after xs x ≡ some b → last_after none xs ≢ some x
      not_last b at s = ground (arith, at, after-last none xs x once no_p s)
