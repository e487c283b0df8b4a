-- ===== src/Table/Remove.antt =====
-- src/pool/table.rs: `remove_shared` against the map from pages to frames.
use dios.Common.{
  ℕ, zero, suc, ◌+◌, ◌-◌, ◌%◌, ◌≡◌, ◌≢◌, ◌<◌, ◌↔◌, inl, inr, true, false, Option, none, some,
  get_elem?, set, length, ok, arith, refl, sym, ap, subst, ◌∙◌, Option-cases, Bool-cases,
  ℕ_discrete, checked_sub, ↔_trans, ltb, ltb→lt, get_elem?_lt, length-set, get_elem?-set_self,
  get_elem?-set_ne,
}
use dios.Common.Cyclic.{add-mod_suc}
use dios.Ids.{PageId}
use dios.Table.{
  Entry, PageTable, home_slot, fills_gap, shift_from, write_cell, next_slot, find_from,
  remove_shared,
}
use dios.Table.Ring.{dist, dist-lt, next_slot_cases, fills_gap-dist}
use dios.Table.Map.{
  Answers, found, absent, Holds-lt, home, home-lt, Holds, filled, Maps, IsProbed, IsMap,
}
use dios.Table.Find.{Finds, at_slot, nowhere, find_from_home}
use dios.Table.Insert.{vacant_of_filled, Holds-set, page_of_slot}
use dios.Table.Shift.{
  IsShifting, scan, scan_in, scan_gap, closed, on_passed, moved, on_moved, Maps-moved, filled-moved,
  not_vacant, filled-set_vacated,
}

-- A table whose gap is closed has the entries it had, and each is reached.
record Closed (t t' : PageTable) : Type 0 where
  cells : length t'.slots ≡ t.capacity
  capacity : t'.capacity ≡ t.capacity
  len : t'.len ≡ t.len
  probe : IsProbed t'.slots t.capacity
  same_count : filled t'.slots ≡ filled t.slots
  same_entries : (q : PageId) (g : ℕ) → Maps t'.slots q g ↔ Maps t.slots q g

dist_next : (c s x : ℕ) → s < c → x < c → s ≢ x → suc (dist c (next_slot c s) x) ≡ dist c s x
dist_next c s x p q ne = ground (arith, next_slot_cases c s p)

-- The test for the move, as it stands in the loop.
fills_gap-home :
    (t : PageTable) (e : Entry) (gap s : ℕ)
    → gap < t.capacity
    → s < t.capacity
    → s ≢ gap
    → fills_gap (home_slot t e.0) gap s t.capacity
      ≡ ok (
          ltb (dist t.capacity (home t.capacity e.0) gap) (dist t.capacity (home t.capacity e.0) s))
unfolding home_slot
fills_gap-home t e gap s p q ne =
    fills_gap-dist t.capacity (home t.capacity e.0) gap s (home-lt t.capacity e.0 (omega arith)) p q
      ne

-- One round of the loop at an entry that stays.
shift_stays :
    (rounds : ℕ) (t : PageTable) (gap s : ℕ) (e : Entry)
    → get_elem? t.slots gap ≡ some none
    → Holds t.slots s e
    → fills_gap (home_slot t e.0) gap s t.capacity ≡ ok false
    → shift_from (suc rounds) t gap s ≡ shift_from rounds t gap (next_slot t.capacity s)
unfolding shift_from
shift_stays rounds t gap s e vacant at stays = rw (vacant, at, stays) refl

-- And at an entry that moves.
shift_moves :
    (rounds : ℕ) (t : PageTable) (gap s : ℕ) (e : Entry)
    → get_elem? t.slots gap ≡ some none
    → Holds t.slots s e
    → fills_gap (home_slot t e.0) gap s t.capacity ≡ ok true
    → shift_from (suc rounds) t gap s
      ≡ shift_from rounds (write_cell (write_cell t gap (some e)) s none) s (next_slot t.capacity s)
unfolding shift_from
shift_moves rounds t gap s e vacant at moves = rw (vacant, at, moves) refl

closes :
    (rounds : ℕ) (t : PageTable) (gap k x : ℕ) (w : IsShifting t.slots t.capacity gap k x)
    → dist t.capacity (scan t.slots t.capacity gap k x w) x < rounds
    → (t' : PageTable) × (shift_from rounds t gap (scan t.slots t.capacity gap k x w) ≡ ok t')
      × Closed t t'
unfolding shift_from
closes zero t gap k x w near = absurd (omega arith)
closes (suc rounds) t gap k x w near =
    let s = scan t.slots t.capacity gap k x w in
    let inside : s < t.capacity = scan_in t.slots t.capacity gap k x w in
    let (cell, here) = get_elem?_lt t.slots s (omega (arith, w.cells)) in
    elim (Option-cases cell) [
      | inl stop ↦ (
        t,
        ground (arith, w.vacant, here, stop),
        record {
          cells = w.cells;
          capacity = refl;
          len = refl;
          probe = closed t.slots t.capacity gap k x w (here ∙ ap some stop);
          same_count = refl;
          same_entries = λ q g. ((λ m. m), (λ m. m));
        },
      )
      | inr (e, full) ↦
          let at : Holds t.slots s e = here ∙ ap some full in
          let apart = scan_gap t.slots t.capacity gap k x w e at in
          let moves = fills_gap-home t e gap s w.gap_in inside apart in
          let d = dist t.capacity (home t.capacity e.0) gap in
          let d' = dist t.capacity (home t.capacity e.0) s in
          let nearer =
            dist_next t.capacity s x inside w.x_in (not_vacant t.slots s x e at w.x_vacant) in
          elim (Bool-cases (ltb d d')) [
            | inl wants ↦
                let w' = on_moved t.slots t.capacity gap k x w e at (ltb→lt d d' wants) in
                let t₁ = record t { slots = moved t.slots t.capacity gap k x w e } in
                let (t', runs, done) = closes rounds t₁ s 1 x w' (omega arith) in
                (
                  t',
                  shift_moves rounds t gap s e w.vacant at (moves ∙ ap ok wants) ∙ runs,
                  record {
                    cells = done.cells;
                    capacity = done.capacity;
                    len = done.len;
                    probe = done.probe;
                    same_count = done.same_count ∙ filled-moved t.slots t.capacity gap k x w e at;
                    same_entries = λ q g.
                        ↔_trans (done.same_entries q g)
                          (Maps-moved t.slots t.capacity gap k x w e q g at);
                  },
                )
            | inr stays ↦
                let w' =
                  on_passed t.slots t.capacity gap k x w e at (λ lt. ground (arith, lt, stays)) in
                let onward : next_slot t.capacity s ≡ (gap + suc k) % t.capacity =
                  add-mod_suc gap k t.capacity in
                let (t', runs, done) =
                  closes rounds t gap (suc k) x w'
                    (subst (λ n. dist t.capacity n x < rounds) onward (omega arith)) in
                (
                  t',
                  shift_stays rounds t gap s e w.vacant at (moves ∙ ap ok stays)
                      ∙ subst (λ n. shift_from rounds t gap n ≡ ok t') (sym onward) runs,
                  done,
                )
          ]
    ]

-- The state in which `backward_shift` starts, once the page's slot is vacant.
opened :
    (t : PageTable) (page : PageId) (slot frame x : ℕ)
    → IsMap t
    → Holds t.slots slot (page, frame)
    → x < t.capacity
    → get_elem? t.slots x ≡ some none
    → IsShifting (set t.slots slot none) t.capacity slot 1 x
opened t page slot frame x v here inside vacant = record {
  cells = length-set t.slots slot none ∙ v.cells;
  gap_in = in_table;
  ahead = (omega arith, omega (arith, v.some_cell));
  vacant = get_elem?-set_self t.slots slot none in_list;
  between = λ i e h near. absurd (
      old_apart i e h (elim (ℕ_discrete slot i) [
        | yes same ↦ same
        | no ne ↦ absurd (no_near i ne (omega (arith, Holds-lt t v i e (old i e h))) near)
      ]));
  probed = λ i e h j j_in ne near.
      let (f, at) = v.probe.probed i e (old i e h) j j_in near in
      (f, get_elem?-set_ne t.slots slot j none (λ same. ne (sym same)) ∙ at);
  unique = λ i j e e' h h' same. v.probe.unique i j e e' (old i e h) (old j e' h') same;
  x_in = inside;
  x_vacant = get_elem?-set_ne t.slots slot x none slot_x ∙ vacant;
  x_apart = λ same. slot_x (sym same);
}
  where
    in_table : slot < t.capacity
    in_table = Holds-lt t v slot (page, frame) here

    in_list : slot < length t.slots
    in_list = omega (arith, in_table, v.cells)

    slot_x : slot ≢ x
    slot_x = not_vacant t.slots slot x (page, frame) here vacant

    old : (i : ℕ) (e : Entry) → Holds (set t.slots slot none) i e → Holds t.slots i e
    old i e h = elim (Holds-set t.slots slot i none e in_list h) [
      | inl (_, vacated) ↦ absurd (ground (arith, vacated))
      | inr (_, h') ↦ h'
    ]

    old_apart : (i : ℕ) (e : Entry) → Holds (set t.slots slot none) i e → slot ≢ i
    old_apart i e h = elim (Holds-set t.slots slot i none e in_list h) [
      | inl (_, vacated) ↦ absurd (ground (arith, vacated))
      | inr (ne, _) ↦ ne
    ]

    no_near : (i : ℕ) → slot ≢ i → i < t.capacity → ¬ (dist t.capacity slot i < 1)
    no_near i ne i_in near = ground (arith, in_table)

-- The entries once the page's slot is vacant.
Maps-vacated :
    (t : PageTable) (page : PageId) (slot frame : ℕ)
    → IsMap t
    → Holds t.slots slot (page, frame)
    → (q : PageId) (g : ℕ) → Maps (set t.slots slot none) q g ↔ ((q ≢ page) × Maps t.slots q g)
Maps-vacated t page slot frame v here q g = (
  (λ (i, h). elim (Holds-set t.slots slot i none (q, g) in_list h) [
    | inl (_, vacated) ↦ absurd (ground (arith, vacated))
    | inr (ne, old) ↦
        (λ same. ne (sym (v.probe.unique i slot (q, g) (page, frame) old here same)), (i, old))
  ]),
  (λ (other, (i, h)). (
    i,
    get_elem?-set_ne t.slots slot i none
          (λ same. other (page_of_slot t.slots i slot (q, g) (page, frame) h here (sym same)))
        ∙ h,
  )),
)
  where
    in_list : slot < length t.slots
    in_list = omega (arith, Holds-lt t v slot (page, frame) here, v.cells)

-- A removal: what the page was mapped to, and a table that maps the other pages as before.
pub record Removed (t : PageTable) (page : PageId) (answer : Option ℕ) (t' : PageTable)
    : Type 0 where
  pub was : Answers t.slots page answer
  pub after : IsMap t'
  pub capacity : t'.capacity ≡ t.capacity
  pub others : (q : PageId) (g : ℕ) → Maps t'.slots q g ↔ ((q ≢ page) × Maps t.slots q g)

removes_found :
    (t : PageTable) (page : PageId) (slot frame : ℕ)
    → IsMap t
    → t.len < t.capacity
    → find_from t.capacity t page (home_slot t page) ≡ ok (some (slot, frame))
    → Holds t.slots slot (page, frame)
    → (t' : PageTable) × (remove_shared t page ≡ ok (some frame, t'))
      × Removed t page (some frame) t'
unfolding remove_shared
removes_found t page slot frame v room runs here =
    let (x, x_in, vacant) = vacant_of_filled t.slots (omega (arith, v.cells, v.count)) in
    let inside : x < t.capacity = omega (arith, v.cells) in
    let w = opened t page slot frame x v here inside vacant in
    let counted = filled-set_vacated t.slots slot (page, frame) here in
    let t₀ = record t { slots = set t.slots slot none; len = t.len - 1 } in
    let (t', shifts, done) =
      closes t.capacity t₀ slot 1 x w
        (dist-lt t.capacity ((slot + 1) % t.capacity) x (omega (arith, v.some_cell)) inside) in
    let taken : checked_sub t.len 1 ≡ some (t.len - 1) = ground (arith, counted, v.count) in
    (
      t',
      rw (runs, taken, shifts) refl,
      record {
        was = found frame (slot, here);
        after = record {
          cells = done.cells ∙ sym done.capacity;
          some_cell = omega (arith, done.capacity, v.some_cell);
          count = omega (arith, done.len, done.same_count, counted, v.count);
          probe = subst (λ c. IsProbed t'.slots c) (sym done.capacity) done.probe;
        };
        capacity = done.capacity;
        others = λ q g. ↔_trans (done.same_entries q g) (Maps-vacated t page slot frame v here q g);
      },
    )

removes :
    (t : PageTable) (page : PageId) (r : Option (ℕ × ℕ))
    → IsMap t
    → t.len < t.capacity
    → find_from t.capacity t page (home_slot t page) ≡ ok r
    → Finds t page r
    → (answer : Option ℕ) × (t' : PageTable) × (remove_shared t page ≡ ok (answer, t'))
      × Removed t page answer t'
unfolding remove_shared
removes t page (some (slot, frame)) v room runs (at_slot _ _ here) =
    let (t', done, what) = removes_found t page slot frame v room runs here in
    (some frame, t', done, what)
removes t page none v room runs (nowhere none_of_it) = (
  none,
  t,
  rw runs refl,
  record {
    was = absent none_of_it;
    after = v;
    capacity = refl;
    others = λ q g.
        ((λ m. ((λ same. none_of_it g (subst (λ p. Maps t.slots p g) same m)), m)), (λ (_, m). m));
  },
)

pub remove_shared-Removed :
    (t : PageTable) (page : PageId)
    → IsMap t
    → t.len < t.capacity
    → (answer : Option ℕ) × (t' : PageTable) × (remove_shared t page ≡ ok (answer, t'))
      × Removed t page answer t'
remove_shared-Removed t page v room =
    let (r, runs, what) = find_from_home t page v in removes t page r v room runs what
