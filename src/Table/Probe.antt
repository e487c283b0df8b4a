-- ===== src/Table/Probe.antt =====
-- src/pool/table.rs: an entry that is inserted is found.
use dios.Common.{
  ℕ, zero, suc, ◌+◌, ◌%◌, ◌≡◌, ◌≤◌, ◌<◌, inl, inr, true, false, some, length, get_elem?, set, ok,
  arith, refl, get_elem?-set_self, get_elem?-set_ne, Option-cases, Bool-cases, ap, ◌∙◌, sym, subst,
  ℕ_discrete,
}
use dios.Common.Cyclic.{add-mod_ne, add-mod_lt, add-mod_suc}
use native.Mathlib.Nat.{mod-eq_of_lt}
use dios.Ids.{PageId, page_eq, page_eq_iff}
use dios.Table.{PageTable, page_hash, home_slot, lookup_from, lookup, insert_from, insert_shared}

-- A table with a cell for each slot of its capacity.
pub record IsTable (t : PageTable) : Type 0 where
  pub cells : length t.slots ≡ t.capacity
  pub some_cell : 0 < t.capacity

abbrev pub Other : PageTable → PageId → ℕ → Type 0
Other t page slot =
    (entry : PageId × ℕ) × (get_elem? t.slots slot ≡ some (some entry))
    × (page_eq entry.0 page ≡ false)

-- Where an insertion from slot `h` lands: it passed `d` slots of other pages.
pub record Landing (t : PageTable) (page : PageId) (h frame k : ℕ) (t' : PageTable) : Type 0 where
  pub d : ℕ
  pub from : k ≤ d
  pub within : d < t.capacity
  pub passed : (j : ℕ) → k ≤ j → j < d → Other t page ((h + j) % t.capacity)
  pub slots : t'.slots ≡ set t.slots ((h + d) % t.capacity) (some (page, frame))
  pub capacity : t'.capacity ≡ t.capacity

module _ (t : PageTable) (page : PageId) (frame h : ℕ) (v : IsTable t)
    (inside : h < t.capacity) where
  -- One more slot of another page before a landing.
  passes :
      (k : ℕ) (t' : PageTable)
      → Other t page ((h + k) % t.capacity)
      → Landing t page h frame (suc k) t'
      → Landing t page h frame k t'
  passes k t' o l = record {
    d = l.d;
    from = omega (arith, l.from);
    within = l.within;
    passed = λ j p q. elim (ℕ_discrete j k) [
      | yes same ↦ subst (λ i. Other t page ((h + i) % t.capacity)) (sym same) o
      | no ne ↦ l.passed j (omega arith) q
    ];
    slots = l.slots;
    capacity = l.capacity;
  }

  lands :
      (rounds k : ℕ) {t' : PageTable}
      → rounds + k ≡ t.capacity
      → insert_from rounds t page frame ((h + k) % t.capacity) ≡ ok t'
      → Landing t page h frame k t'
  unfolding insert_from
  lands zero k f e = ground arith
  lands (suc rounds) k {t'} f e = elim (Option-cases (get_elem? t.slots ((h + k) % t.capacity))) [
    | inl outside ↦ ground (arith, outside)
    | inr (cell, at) ↦ elim (Option-cases cell) [
      | inl vacant ↦ record {
        d = k;
        from = omega arith;
        within = omega arith;
        passed = λ j p q. absurd (omega arith);
        slots = ground (arith, at, vacant);
        capacity = ground (arith, at, vacant);
      }
      | inr (entry, full) ↦ elim (Bool-cases (page_eq entry.0 page)) [
        | inl same ↦ record {
          d = k;
          from = omega arith;
          within = omega arith;
          passed = λ j p q. absurd (omega arith);
          slots = ground (arith, at, full, same);
          capacity = ground (arith, at, full, same);
        }
        | inr other ↦
            let on : insert_from rounds t page frame (((h + k) % t.capacity + 1) % t.capacity)
                ≡ ok t' =
              ground (arith, at, full, other) in
            passes k t' (entry, at ∙ ap some full, other)
              (lands rounds (suc k) (omega arith) (
                subst (λ slot. insert_from rounds t page frame slot ≡ ok t')
                  (add-mod_suc h k t.capacity) on))
      ]
    ]
  ]

  -- A cell of another page before the landing is still there.
  keeps :
      (t' : PageTable) (l : Landing t page h frame 0 t') (k : ℕ)
      → k < l.d
      → Other t' page ((h + k) % t.capacity)
  keeps t' l k p =
      let (entry, at, other) = l.passed k (omega arith) p in
      (
        entry,
        rw l.slots (
            get_elem?-set_ne t.slots ((h + l.d) % t.capacity) ((h + k) % t.capacity)
              (some (page, frame))
              (add-mod_ne h l.d k t.capacity inside l.within (omega (arith, l.within))
                (omega arith))
            ∙ at),
        other,
      )

  lands_at :
      (t' : PageTable) (l : Landing t page h frame 0 t')
      → get_elem? t'.slots ((h + l.d) % t.capacity) ≡ some (some (page, frame))
  lands_at t' l = rw l.slots (
      get_elem?-set_self t.slots ((h + l.d) % t.capacity) (some (page, frame))
        (omega (arith, v.cells, add-mod_lt h l.d t.capacity inside l.within)))

  finds :
      (t' : PageTable) (l : Landing t page h frame 0 t') (rounds k : ℕ)
      → rounds + k ≡ t.capacity
      → k ≤ l.d
      → lookup_from rounds t' page ((h + k) % t.capacity) ≡ ok (some frame)
  unfolding lookup_from
  finds t' l zero k f p = absurd (omega (arith, l.within))
  finds t' l (suc rounds) k f p = elim (ℕ_discrete k l.d) [
    | yes here ↦
        let at =
          subst (λ i. get_elem? t'.slots ((h + i) % t.capacity) ≡ some (some (page, frame)))
            (sym here) (lands_at t' l) in
        let mine : page_eq page page ≡ true = (page_eq_iff page page).1 refl in
        rw at (ground (arith, mine))
    | no before ↦
        let (entry, at, other) = keeps t' l k (omega arith) in
        let on = finds t' l rounds (suc k) (omega arith) (omega arith) in
        let step : (h + suc k) % t.capacity ≡ ((h + k) % t.capacity + 1) % t'.capacity =
          sym (add-mod_suc h k t.capacity)
          ∙ ap (λ c. ((h + k) % t.capacity + 1) % c) (sym l.capacity) in
        rw (at, other) (subst (λ slot. lookup_from rounds t' page slot ≡ ok (some frame)) step on)
  ]

-- A page that is inserted is found. Where an insertion into the table succeeds, looking the page up
-- afterwards gives the frame that was inserted, whether the page is new or held another frame.
pub lookup-insert_shared :
    (t t' : PageTable) (page : PageId) (frame : ℕ)
    → IsTable t
    → insert_shared t page frame ≡ ok t'
    → lookup t' page ≡ ok (some frame)
unfolding insert_shared lookup home_slot
lookup-insert_shared t t' page frame v e =
    let h = page_hash page % t.capacity in
    let inside : h < t.capacity = omega (arith, v.some_cell) in
    let home : (h + 0) % t.capacity ≡ h =
      ap (λ n. n % t.capacity) (omega arith) ∙ mod-eq_of_lt inside in
    let l =
      lands t page frame h v inside t.capacity 0 (omega arith)
        (subst (λ slot. insert_from t.capacity t page frame slot ≡ ok t') (sym home) e) in
    let found =
      subst (λ slot. lookup_from t.capacity t' page slot ≡ ok (some frame)) home
        (finds t page frame h v inside t' l t.capacity 0 (omega arith) (omega arith)) in
    subst (λ c. lookup_from c t' page (page_hash page % c) ≡ ok (some frame)) (sym l.capacity) found
