-- ===== src/Table/Find.antt =====
-- src/pool/table.rs: what the searches of `lookup` and `remove_shared` find.
use dios.Common.{
  ℕ, zero, suc, ◌+◌, ◌%◌, ◌≡◌, ◌<◌, inl, inr, false, Option, none, some, get_elem?, ok, arith, refl,
  sym, ap, subst, ◌∙◌, Option-cases, Bool-cases, ℕ_discrete, get_elem?_lt,
}
use dios.Common.Cyclic.{add-mod_lt, add-mod_suc}
use native.Mathlib.Nat.{mod-eq_of_lt}
use dios.Ids.{PageId, page_eq, page_eq_iff}
use dios.Table.{Entry, PageTable, home_slot, lookup_from, lookup, find_from}
use dios.Table.Map.{
  home, home-lt, Holds, Maps, IsMap, IsOther, at_probe, Answers, found, absent, absent_at_vacancy,
  absent_after_all,
}

-- What `find_from` gives: the slot and the frame of the page, or that no entry is the page's.
pub data Finds (t : PageTable) (page : PageId) : Option (ℕ × ℕ) → Type 0 where
  at_slot : (slot frame : ℕ) → Holds t.slots slot (page, frame) → Finds t page (some (slot, frame))
  nowhere : ((frame : ℕ) → ¬ Maps t.slots page frame) → Finds t page none

unfoldable frame_of : Option (ℕ × ℕ) → Option ℕ
frame_of none = none
frame_of (some place) = some place.1

pub at_home :
    (t : PageTable) (page : PageId) → IsMap t → at_probe t.capacity page 0 ≡ home t.capacity page
at_home t page v =
    ap (λ n. n % t.capacity) (omega arith) ∙ mod-eq_of_lt (home-lt t.capacity page v.some_cell)

module _ (t : PageTable) (page : PageId) (v : IsMap t) where
  pub passes :
      (k : ℕ) (e : Entry)
      → ((j : ℕ) → j < k → IsOther t page j)
      → Holds t.slots (at_probe t.capacity page k) e
      → page_eq e.0 page ≡ false
      → (j : ℕ) → j < suc k
      → IsOther t page j
  passes k e passed here other j p = elim (ℕ_discrete j k) [
    | yes same ↦ subst (λ n. IsOther t page n) (sym same) (e, here, other)
    | no ne ↦ passed j (omega arith)
  ]

  finds :
      (rounds k : ℕ)
      → rounds + k ≡ t.capacity
      → ((j : ℕ) → j < k → IsOther t page j)
      → (r : Option (ℕ × ℕ)) × (find_from rounds t page (at_probe t.capacity page k) ≡ ok r)
        × Finds t page r
  unfolding find_from
  finds zero k f passed =
      (none, refl, nowhere (absent_after_all t page v (λ j p. passed j (omega arith))))
  finds (suc rounds) k f passed =
      let slot = at_probe t.capacity page k in
      let inside : slot < t.capacity =
        add-mod_lt (home t.capacity page) k t.capacity (home-lt t.capacity page v.some_cell)
          (omega arith) in
      let (cell, here) = get_elem?_lt t.slots slot (omega (arith, v.cells)) in
      elim (Option-cases cell) [
        | inl vacant ↦ (
          none,
          ground (arith, here, vacant),
          nowhere (absent_at_vacancy t page v k (omega arith) passed (here ∙ ap some vacant)),
        )
        | inr (e, full) ↦ elim (Bool-cases (page_eq e.0 page)) [
          | inl mine ↦ (
            some (slot, e.1),
            ground (arith, here, full, mine),
            at_slot slot e.1
                (here ∙ ap some (full ∙ ap (λ q. some (q, e.1)) ((page_eq_iff e.0 page).0 mine))),
          )
          | inr other ↦
              let (r, runs, what) =
                finds rounds (suc k) (omega arith)
                  (passes k e passed (here ∙ ap some full) other) in
              (
                r,
                rw (here, full, other)
                    (subst (λ s. find_from rounds t page s ≡ ok r)
                      (sym (add-mod_suc (home t.capacity page) k t.capacity)) runs),
                what,
              )
        ]
      ]

  -- `lookup` gives the frame of what `find_from` finds.
  lookup_of_find :
      (rounds slot : ℕ) {r : Option (ℕ × ℕ)}
      → find_from rounds t page slot ≡ ok r
      → lookup_from rounds t page slot ≡ ok (frame_of r)
  unfolding find_from lookup_from frame_of
  lookup_of_find zero slot e = ground (arith, e)
  lookup_of_find (suc rounds) slot {r} e = elim (Option-cases (get_elem? t.slots slot)) [
    | inl out ↦ ground (arith, e, out)
    | inr (cell, here) ↦ elim (Option-cases cell) [
      | inl vacant ↦ ground (arith, e, here, vacant)
      | inr (entry, full) ↦ elim (Bool-cases (page_eq entry.0 page)) [
        | inl mine ↦ ground (arith, e, here, full, mine)
        | inr other ↦
            let onward : find_from rounds t page ((slot + 1) % t.capacity) ≡ ok r =
              ground (arith, e, here, full, other) in
            rw (here, full, other) (lookup_of_find rounds ((slot + 1) % t.capacity) onward)
      ]
    ]
  ]

Answers-of_Finds :
    (t : PageTable) (page : PageId) (r : Option (ℕ × ℕ))
    → Finds t page r
    → Answers t.slots page (frame_of r)
unfolding frame_of
Answers-of_Finds t page (some (_, _)) (at_slot slot frame h) = found frame (slot, h)
Answers-of_Finds t page none (nowhere none_of_it) = absent none_of_it

-- The whole search for a page, from its home.
pub find_from_home :
    (t : PageTable) (page : PageId)
    → IsMap t
    → (r : Option (ℕ × ℕ)) × (find_from t.capacity t page (home_slot t page) ≡ ok r)
      × Finds t page r
unfolding home_slot
find_from_home t page v =
    let (r, runs, what) = finds t page v t.capacity 0 (omega arith) (λ j p. absurd (omega arith)) in
    (r, subst (λ s. find_from t.capacity t page s ≡ ok r) (at_home t page v) runs, what)

-- `lookup` is total and exact: on a table whose entries can be reached by probing, it never panics,
-- and it gives a frame that the table maps the page to, or `none` where the table maps the page to no
-- frame.
pub lookup_lem :
    (t : PageTable) (page : PageId)
    → IsMap t
    → (answer : Option ℕ) × (lookup t page ≡ ok answer) × Answers t.slots page answer
unfolding lookup
lookup_lem t page v =
    let (r, runs, what) = find_from_home t page v in
    (
      frame_of r,
      lookup_of_find t page v t.capacity (home_slot t page) runs,
      Answers-of_Finds t page r what,
    )
