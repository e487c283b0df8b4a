-- ===== src/Table/Map.antt =====
-- src/pool/table.rs: the table as a map from pages to frames, and `lookup` against it.
use dios.Common.{
  ℕ, suc, ◌+◌, ◌%◌, ◌≡◌, ◌≢◌, ◌<◌, ◌⊎◌, inl, inr, true, false, Option, none, some, List, [], ◌∷◌,
  length, get_elem?, arith, refl, sym, ap, subst, ◌∙◌, Option-cases, ℕ_discrete, get_elem?_lt,
  lt_of_get_elem?, dec_lt,
}
use dios.Common.Cyclic.{add-mod_lt}
use dios.Ids.{PageId, page_eq, page_eq_iff}
use dios.Table.{Entry, PageTable, page_hash}
use dios.Table.Ring.{dist, dist-add_mod, add_mod-dist, dist-lt}

abbrev pub Cells : Type 0
Cells = List (Option Entry)

abbrev pub home : ℕ → PageId → ℕ
home c page = page_hash page % c

-- Slot `i` holds an entry; it holds some entry.
abbrev pub Holds : Cells → ℕ → Entry → Type 0
Holds slots i e = get_elem? slots i ≡ some (some e)

abbrev pub Occupied : Cells → ℕ → Type 0
Occupied slots i = (e : Entry) × Holds slots i e

abbrev pub filled : Cells → ℕ
filled [] = 0
filled (none ∷ slots) = filled slots
filled (some e ∷ slots) = suc (filled slots)

-- A probe for any entry meets no vacant slot before the entry, and a page has one entry.
pub record IsProbed (slots : Cells) (c : ℕ) : Type 0 where
  pub probed :
      (i : ℕ) (e : Entry)
      → Holds slots i e
      → (j : ℕ) → j < c
      → dist c (home c e.0) j < dist c (home c e.0) i
      → Occupied slots j
  pub unique : (i j : ℕ) (e e' : Entry) → Holds slots i e → Holds slots j e' → e.0 ≡ e'.0 → i ≡ j

pub record IsMap (t : PageTable) : Type 0 where
  pub cells : length t.slots ≡ t.capacity
  pub some_cell : 0 < t.capacity
  pub count : t.len ≡ filled t.slots
  pub probe : IsProbed t.slots t.capacity

-- The table maps the page to the frame.
abbrev pub Maps : Cells → PageId → ℕ → Type 0
Maps slots page frame = (i : ℕ) × Holds slots i (page, frame)

-- A cell in range is vacant or holds an entry.
pub cell_cases :
    (slots : Cells) (i : ℕ) → i < length slots → Occupied slots i ⊎ (get_elem? slots i ≡ some none)
cell_cases slots i p =
    let (cell, at) = get_elem?_lt slots i p in
    elim (Option-cases cell) [
      | inl vacant ↦ inr (at ∙ ap some vacant)
      | inr (e, full) ↦ inl (e, at ∙ ap some full)
    ]

pub home-lt : (c : ℕ) (page : PageId) → 0 < c → home c page < c
home-lt c page p = omega arith

-- Slot `k` of the probe for a page.
abbrev pub at_probe : ℕ → PageId → ℕ → ℕ
at_probe c page k = (home c page + k) % c

-- Slot `j` of the probe holds an entry of another page.
abbrev pub IsOther : PageTable → PageId → ℕ → Type 0
IsOther t page j =
    (e : Entry) × Holds t.slots (at_probe t.capacity page j) e × (page_eq e.0 page ≡ false)

-- A page stands at its distance from home on its own probe.
pub at_probe-dist :
    (t : PageTable) (page : PageId) (i : ℕ)
    → IsMap t
    → i < t.capacity
    → at_probe t.capacity page (dist t.capacity (home t.capacity page) i) ≡ i
at_probe-dist t page i v p =
    add_mod-dist t.capacity (home t.capacity page) i (home-lt t.capacity page v.some_cell) p

pub Holds-lt : (t : PageTable) → IsMap t → (i : ℕ) (e : Entry) → Holds t.slots i e → i < t.capacity
Holds-lt t v i e h = subst (λ n. i < n) v.cells (lt_of_get_elem? t.slots i h)

-- A slot of another page is not where the page stands.
other_misses :
    (t : PageTable) (page : PageId) (j i frame : ℕ)
    → IsOther t page j
    → Holds t.slots i (page, frame)
    → at_probe t.capacity page j ≢ i
other_misses t page j i frame (e, at, other) here same =
    let entry : some (some e) ≡ some (some (page, frame)) =
      sym at ∙ subst (λ s. get_elem? t.slots s ≡ some (some (page, frame))) (sym same) here in
    let mine : page_eq page page ≡ true = (page_eq_iff page page).1 refl in
    ground (arith, entry, other, mine)

module _ (t : PageTable) (page : PageId) (v : IsMap t) where
  -- A probe that passed other pages only and stands at a vacant slot has shown the page absent.
  pub absent_at_vacancy :
      (k : ℕ)
      → k < t.capacity
      → ((j : ℕ) → j < k → IsOther t page j)
      → get_elem? t.slots (at_probe t.capacity page k) ≡ some none
      → (frame : ℕ) → ¬ Maps t.slots page frame
  absent_at_vacancy k p passed vacant frame (i, here) =
      let inside = Holds-lt t v i (page, frame) here in
      let h = home-lt t.capacity page v.some_cell in
      let m = dist t.capacity (home t.capacity page) i in
      let stands = at_probe-dist t page i v inside in
      elim (dec_lt m k) [
        | yes before ↦ other_misses t page m i frame (passed m before) here stands
        | no after ↦ elim (ℕ_discrete m k) [
          | yes same ↦
              let at : get_elem? t.slots i ≡ some none =
                subst (λ s. get_elem? t.slots s ≡ some none)
                  (ap (at_probe t.capacity page) (sym same) ∙ stands) vacant in
              ground (arith, at, here)
          | no ne ↦
              let (e, full) =
                v.probe.probed i (page, frame) here (at_probe t.capacity page k)
                  (add-mod_lt (home t.capacity page) k t.capacity h p)
                  (omega (arith, dist-add_mod t.capacity (home t.capacity page) k h p)) in
              ground (arith, full, vacant)
        ]
      ]

  pub absent_after_all :
      ((j : ℕ) → j < t.capacity → IsOther t page j) → (frame : ℕ) → ¬ Maps t.slots page frame
  absent_after_all passed frame (i, here) =
      let inside = Holds-lt t v i (page, frame) here in
      let m = dist t.capacity (home t.capacity page) i in
      other_misses t page m i frame
        (passed m (
          dist-lt t.capacity (home t.capacity page) i (home-lt t.capacity page v.some_cell) inside))
        here (at_probe-dist t page i v inside)

-- What a search gives: the frame of the page, or that no entry is the page's.
pub data Answers (slots : Cells) (page : PageId) : Option ℕ → Type 0 where
  found : (frame : ℕ) → Maps slots page frame → Answers slots page (some frame)
  absent : ((frame : ℕ) → ¬ Maps slots page frame) → Answers slots page none
