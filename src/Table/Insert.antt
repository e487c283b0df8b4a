-- ===== src/Table/Insert.antt =====
-- src/pool/table.rs: `insert_shared` against the map from pages to frames.
use dios.Common.{
  ℕ, zero, suc, ◌+◌, ◌≡◌, ◌≢◌, ◌<◌, ◌⊎◌, ◌↔◌, inl, inr, Option, none, some, [], ◌∷◌, get_elem?, set,
  length, ok, arith, refl, sym, ap, subst, subst₂, ◌∙◌, Option-cases, Bool-cases, ℕ_discrete,
  lt→ltb, get_elem?_lt, get_elem?-set_self, get_elem?-set_ne, length-set,
}
use dios.Common.Cyclic.{add-mod_lt, add-mod_suc}
use dios.Ids.{PageId, page_eq, page_eq_iff}
use dios.Table.{Entry, PageTable, home_slot, insert_from, insert_shared}
use dios.Table.Ring.{dist, dist-add_mod, dist-lt}
use dios.Table.Map.{
  Cells, home, home-lt, Holds, Occupied, filled, Maps, IsProbed, IsMap, IsOther, at_probe,
  at_probe-dist, absent_at_vacancy,
}
use dios.Table.Find.{passes, at_home}

-- A table that is not full has a vacant slot.
pub vacant_of_filled :
    (slots : Cells)
    → filled slots < length slots
    → (i : ℕ) × (i < length slots) × (get_elem? slots i ≡ some none)
vacant_of_filled [] p = absurd (omega arith)
vacant_of_filled (none ∷ slots) p = (0, omega arith, refl)
vacant_of_filled (some e ∷ slots) p =
    let (i, inside, at) = vacant_of_filled slots (omega arith) in (suc i, omega arith, at)

pub filled-set_vacant :
    (slots : Cells) (i : ℕ) (e : Entry)
    → get_elem? slots i ≡ some none
    → filled (set slots i (some e)) ≡ suc (filled slots)
filled-set_vacant [] i e at = ground (arith, at)
filled-set_vacant (none ∷ slots) zero e at = refl
filled-set_vacant (some f ∷ slots) zero e at = ground (arith, at)
filled-set_vacant (none ∷ slots) (suc i) e at = filled-set_vacant slots i e at
filled-set_vacant (some f ∷ slots) (suc i) e at = ap suc (filled-set_vacant slots i e at)

pub filled-set_full :
    (slots : Cells) (i : ℕ) (e f : Entry)
    → Holds slots i f
    → filled (set slots i (some e)) ≡ filled slots
filled-set_full [] i e f at = ground (arith, at)
filled-set_full (none ∷ slots) zero e f at = ground (arith, at)
filled-set_full (some g ∷ slots) zero e f at = refl
filled-set_full (none ∷ slots) (suc i) e f at = filled-set_full slots i e f at
filled-set_full (some g ∷ slots) (suc i) e f at = ap suc (filled-set_full slots i e f at)

-- An entry after a write in range is the written one or an old one elsewhere.
pub Holds-set :
    (slots : Cells) (p j : ℕ) (cell : Option Entry) (e : Entry)
    → p < length slots
    → Holds (set slots p cell) j e
    → ((p ≡ j) × (cell ≡ some e)) ⊎ ((p ≢ j) × Holds slots j e)
Holds-set slots p j cell e inside h = elim (ℕ_discrete p j) [
  | yes same ↦
      let at =
        subst (λ k. get_elem? (set slots p cell) k ≡ some cell) same
          (get_elem?-set_self slots p cell inside) in
      inl (same, ground (arith, at, h))
  | no ne ↦ inr (ne, sym (get_elem?-set_ne slots p j cell ne) ∙ h)
]

abbrev pub page_or : PageId → Option Entry → PageId
page_or q none = q
page_or q (some e) = e.0

abbrev cell_page : PageId → Option (Option Entry) → PageId
cell_page q none = q
cell_page q (some cell) = page_or q cell

-- One slot holds one page.
pub page_of_slot :
    (slots : Cells) (i j : ℕ) (e f : Entry) → Holds slots i e → Holds slots j f → i ≡ j → e.0 ≡ f.0
page_of_slot slots i j e f h h' same =
    ap (cell_page e.0) (sym h ∙ subst (λ s. get_elem? slots s ≡ some (some f)) (sym same) h')

-- What holds where an entry for the page is about to be written to slot `p`.
record IsPlace (t : PageTable) (page : PageId) (p : ℕ) : Type 0 where
  inside : p < t.capacity
  was : (e : Entry) → Holds t.slots p e → e.0 ≡ page
  mine : (j : ℕ) (e : Entry) → Holds t.slots j e → e.0 ≡ page → j ≡ p
  passed :
      (j : ℕ)
      → j < t.capacity
      → dist t.capacity (home t.capacity page) j < dist t.capacity (home t.capacity page) p
      → Occupied t.slots j

module _ (t : PageTable) (page : PageId) (frame p : ℕ) (v : IsMap t) (w : IsPlace t page p) where
  abbrev written : Cells
  written = set t.slots p (some (page, frame))

  in_list : p < length t.slots
  in_list = omega (arith, w.inside, v.cells)

  here : Holds written p (page, frame)
  here = get_elem?-set_self t.slots p (some (page, frame)) in_list

  Occupied-written : (j : ℕ) → Occupied t.slots j → Occupied written j
  Occupied-written j (e, at) = elim (ℕ_discrete p j) [
    | yes same ↦ ((page, frame), subst (λ k. Holds written k (page, frame)) same here)
    | no ne ↦ (e, get_elem?-set_ne t.slots p j (some (page, frame)) ne ∙ at)
  ]

  -- Its own entry is reached: the slots before it on its probe are occupied.
  mine_reached :
      (i : ℕ) (e : Entry)
      → p ≡ i
      → some (page, frame) ≡ some e
      → (j : ℕ) → j < t.capacity
      → dist t.capacity (home t.capacity e.0) j < dist t.capacity (home t.capacity e.0) i
      → Occupied t.slots j
  mine_reached i e same mine j inside near =
      let page_of : page ≡ e.0 = ap (page_or page) mine in
      w.passed j inside (
        subst₂
          (λ q k. dist t.capacity (home t.capacity q) j < dist t.capacity (home t.capacity q) k)
          (sym page_of) (sym same) near)

  written-IsProbed : IsProbed written t.capacity
  written-IsProbed = record {
    probed = λ i e h j inside near. elim (Holds-set t.slots p i (some (page, frame)) e in_list h) [
      | inl (same, mine) ↦ Occupied-written j (mine_reached i e same mine j inside near)
      | inr (ne, old) ↦ Occupied-written j (v.probe.probed i e old j inside near)
    ];
    unique = λ i j e e' h h' same. elim (Holds-set t.slots p i (some (page, frame)) e in_list h) [
      | inl (at_i, mine) ↦ elim (Holds-set t.slots p j (some (page, frame)) e' in_list h') [
        | inl (at_j, _) ↦ sym at_i ∙ at_j
        | inr (ne, old) ↦
            absurd (ne (sym (w.mine j e' old (sym same ∙ ap (page_or page) (sym mine)))))
      ]
      | inr (ne, old) ↦ elim (Holds-set t.slots p j (some (page, frame)) e' in_list h') [
        | inl (at_j, mine) ↦
            absurd (ne (sym (w.mine i e old (same ∙ ap (page_or page) (sym mine)))))
        | inr (_, old') ↦ v.probe.unique i j e e' old old' same
      ]
    ];
  }

  Maps-written : (q : PageId) (g : ℕ) → q ≢ page → Maps written q g ↔ Maps t.slots q g
  Maps-written q g ne = (
    (λ (i, h). elim (Holds-set t.slots p i (some (page, frame)) (q, g) in_list h) [
      | inl (_, mine) ↦ absurd (ne (ap (page_or page) (sym mine)))
      | inr (_, old) ↦ (i, old)
    ]),
    (λ (i, h). (
      i,
      get_elem?-set_ne t.slots p i (some (page, frame))
            (λ same. ne (w.was (q, g) (subst (λ k. Holds t.slots k (q, g)) (sym same) h)))
          ∙ h,
    )),
  )

-- A table after the write of an entry for the page.
pub record Inserted (t : PageTable) (page : PageId) (frame : ℕ) (t' : PageTable) : Type 0 where
  pub after : IsMap t'
  pub capacity : t'.capacity ≡ t.capacity
  pub holds : Maps t'.slots page frame
  pub others : (q : PageId) (g : ℕ) → q ≢ page → Maps t'.slots q g ↔ Maps t.slots q g

module _ (t : PageTable) (page : PageId) (frame : ℕ) (v : IsMap t) where
  after_write :
      (p n : ℕ)
      → IsPlace t page p
      → n ≡ filled (set t.slots p (some (page, frame)))
      → Inserted t page frame (record t { slots = set t.slots p (some (page, frame)); len = n })
  after_write p n w counted = record {
    after = record {
      cells = length-set t.slots p (some (page, frame)) ∙ v.cells;
      some_cell = v.some_cell;
      count = counted;
      probe = written-IsProbed t page frame p v w;
    };
    capacity = refl;
    holds = (p, here t page frame p v w);
    others = Maps-written t page frame p v w;
  }

  Occupied-before :
      (k : ℕ)
      → k < t.capacity
      → ((j : ℕ) → j < k → IsOther t page j)
      → (j : ℕ) → j < t.capacity
      → dist t.capacity (home t.capacity page) j
        < dist t.capacity (home t.capacity page) (at_probe t.capacity page k)
      → Occupied t.slots j
  Occupied-before k p passed j inside near =
      let (e, at, _) = passed (dist t.capacity (home t.capacity page) j) (
        omega (
          arith,
          near,
          dist-add_mod t.capacity (home t.capacity page) k (home-lt t.capacity page v.some_cell) p,
        )) in
      (e, subst (λ s. Holds t.slots s e) (at_probe-dist t page j v inside) at)

  -- The vacant slot at the end of a probe is the place for the page.
  vacant-IsPlace :
      (k : ℕ)
      → k < t.capacity
      → ((j : ℕ) → j < k → IsOther t page j)
      → get_elem? t.slots (at_probe t.capacity page k) ≡ some none
      → IsPlace t page (at_probe t.capacity page k)
  vacant-IsPlace k p passed vacant = record {
    inside = add-mod_lt (home t.capacity page) k t.capacity (home-lt t.capacity page v.some_cell) p;
    was = λ e h. absurd (ground (arith, h, vacant));
    mine = λ j e h same. absurd (
        absent_at_vacancy t page v k p passed vacant e.1
          (j, subst (λ q. Holds t.slots j (q, e.1)) same h));
    passed = Occupied-before k p passed;
  }

  -- So is the slot that holds the page already.
  held-IsPlace :
      (k : ℕ) (e : Entry)
      → k < t.capacity
      → ((j : ℕ) → j < k → IsOther t page j)
      → Holds t.slots (at_probe t.capacity page k) e
      → e.0 ≡ page
      → IsPlace t page (at_probe t.capacity page k)
  held-IsPlace k e p passed held mine = record {
    inside = add-mod_lt (home t.capacity page) k t.capacity (home-lt t.capacity page v.some_cell) p;
    was = λ f h. v_same f h;
    mine = λ j f h same. v.probe.unique j (at_probe t.capacity page k) f e h held (same ∙ sym mine);
    passed = Occupied-before k p passed;
  }
    where
      v_same : (f : Entry) → Holds t.slots (at_probe t.capacity page k) f → f.0 ≡ page
      v_same f h = ap (cell_page page) (sym h ∙ held) ∙ mine

  settles :
      (rounds k : ℕ)
      → t.len < t.capacity
      → rounds + k ≡ t.capacity
      → ((j : ℕ) → j < k → IsOther t page j)
      → (t' : PageTable) × (insert_from rounds t page frame (at_probe t.capacity page k) ≡ ok t')
        × Inserted t page frame t'
  unfolding insert_from
  settles zero k room f passed =
      let (i, inside, vacant) = vacant_of_filled t.slots (omega (arith, v.cells, v.count)) in
      let at = dist t.capacity (home t.capacity page) i in
      let (e, full, _) = passed at (
        omega (
          arith,
          dist-lt t.capacity (home t.capacity page) i (home-lt t.capacity page v.some_cell)
              (omega (arith, v.cells)),
        )) in
      let there =
        subst (λ s. Holds t.slots s e) (at_probe-dist t page i v (omega (arith, v.cells))) full in
      absurd (ground (arith, there, vacant))
  settles (suc rounds) k room f passed =
      let slot = at_probe t.capacity page k in
      let below : k < t.capacity = omega arith in
      let inside : slot < t.capacity =
        add-mod_lt (home t.capacity page) k t.capacity (home-lt t.capacity page v.some_cell)
          below in
      let (cell, at) = get_elem?_lt t.slots slot (omega (arith, v.cells)) in
      elim (Option-cases cell) [
        | inl none_here ↦
            let vacant : get_elem? t.slots slot ≡ some none = at ∙ ap some none_here in
            (
              record t { slots = set t.slots slot (some (page, frame)); len = t.len + 1 },
              ground (arith, vacant, lt→ltb t.len t.capacity room),
              after_write slot (t.len + 1) (vacant-IsPlace k below passed vacant)
                  (omega (arith, v.count, filled-set_vacant t.slots slot (page, frame) vacant)),
            )
        | inr (e, some_here) ↦
            let full : Holds t.slots slot e = at ∙ ap some some_here in
            elim (Bool-cases (page_eq e.0 page)) [
              | inl mine ↦ (
                record t { slots = set t.slots slot (some (page, frame)); len = t.len },
                ground (arith, full, mine),
                after_write slot t.len
                    (held-IsPlace k e below passed full ((page_eq_iff e.0 page).0 mine))
                    (omega (arith, v.count, filled-set_full t.slots slot (page, frame) e full)),
              )
              | inr other ↦
                  let (t', runs, done) =
                    settles rounds (suc k) room (omega arith)
                      (passes t page v k e passed full other) in
                  (
                    t',
                    rw (full, other)
                        (subst (λ s. insert_from rounds t page frame s ≡ ok t')
                          (sym (add-mod_suc (home t.capacity page) k t.capacity)) runs),
                    done,
                  )
            ]
      ]

  pub insert_shared-Inserted :
      t.len < t.capacity
      → (t' : PageTable) × (insert_shared t page frame ≡ ok t') × Inserted t page frame t'
  unfolding insert_shared home_slot
  insert_shared-Inserted room =
      let (t', runs, done) =
        settles t.capacity 0 room (omega arith) (λ j p. absurd (omega arith)) in
      (t', subst (λ s. insert_from t.capacity t page frame s ≡ ok t') (at_home t page v) runs, done)
