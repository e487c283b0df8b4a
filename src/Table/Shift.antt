-- ===== src/Table/Shift.antt =====
-- src/pool/table.rs: `backward_shift` closes the gap that a removal leaves.
use dios.Common.{
  ℕ, zero, suc, ◌+◌, ◌%◌, ◌≡◌, ◌≢◌, ◌≤◌, ◌<◌, ◌↔◌, inl, inr, none, some, [], ◌∷◌, get_elem?, set,
  length, arith, refl, sym, ap, subst, subst₂, ◌∙◌, ℕ_discrete, dec_lt, lt_of_get_elem?,
  get_elem?-set_self, get_elem?-set_ne, length-set,
}
use dios.Ids.{PageId}
use dios.Table.{Entry}
use dios.Table.Ring.{dist, add_mod_turn, dist-add_mod, dist-lt}
use dios.Table.Map.{Cells, home, home-lt, Holds, Occupied, filled, Maps, IsProbed}
use dios.Table.Insert.{Holds-set, page_of_slot, page_or, filled-set_vacant}

-- Distances add along a probe that meets `g` before `s`.
dist_split :
    (c h g s : ℕ)
    → h < c
    → g < c
    → s < c
    → dist c h g < dist c h s
    → dist c h s ≡ dist c h g + dist c g s
dist_split c h g s p q r e = ground (arith, e)

dist_join :
    (c h g s : ℕ)
    → h < c
    → g < c
    → s < c
    → dist c h g + dist c g s < c
    → dist c h s ≡ dist c h g + dist c g s
dist_join c h g s p q r e = ground (arith, e)

dist_self : (c g : ℕ) → dist c g g ≡ 0
dist_self c g = ground arith

dist_ne : (c g a b : ℕ) → g < c → a < c → b < c → a ≢ b → dist c g a ≢ dist c g b
dist_ne c g a b p q r ne same = ground (arith, ne, same)

pub filled-set_vacated :
    (slots : Cells) (i : ℕ) (e : Entry)
    → Holds slots i e
    → suc (filled (set slots i none)) ≡ filled slots
filled-set_vacated [] i e at = ground (arith, at)
filled-set_vacated (none ∷ slots) zero e at = ground (arith, at)
filled-set_vacated (some g ∷ slots) zero e at = refl
filled-set_vacated (none ∷ slots) (suc i) e at = filled-set_vacated slots i e at
filled-set_vacated (some g ∷ slots) (suc i) e at = ap suc (filled-set_vacated slots i e at)

-- The loop before the scan of slot `gap + k`: the gap is vacant, no entry among the slots from the gap
-- to there wants the gap, every other vacant slot is on no entry's probe, and `x` is vacant.
pub record IsShifting (slots : Cells) (c gap k x : ℕ) : Type 0 where
  pub cells : length slots ≡ c
  pub gap_in : gap < c
  pub ahead : (0 < k) × (k ≤ c)
  pub vacant : get_elem? slots gap ≡ some none
  pub between :
      (i : ℕ) (e : Entry)
      → Holds slots i e
      → dist c gap i < k
      → ¬ (dist c (home c e.0) gap < dist c (home c e.0) i)
  pub probed :
      (i : ℕ) (e : Entry)
      → Holds slots i e
      → (j : ℕ) → j < c
      → j ≢ gap
      → dist c (home c e.0) j < dist c (home c e.0) i
      → Occupied slots j
  pub unique : (i j : ℕ) (e e' : Entry) → Holds slots i e → Holds slots j e' → e.0 ≡ e'.0 → i ≡ j
  pub x_in : x < c
  pub x_vacant : get_elem? slots x ≡ some none
  pub x_apart : x ≢ gap

-- An entry is not in a vacant slot.
pub not_vacant :
    (slots : Cells) (i j : ℕ) (e : Entry) → Holds slots i e → get_elem? slots j ≡ some none → i ≢ j
not_vacant slots i j e h vacant same =
    let at = subst (λ s. get_elem? slots s ≡ some (some e)) same h in ground (arith, at, vacant)

-- What `f` in slot `i` is, after `e` moved from the scan into the gap.
data AfterMove (slots : Cells) (gap scan : ℕ) (e f : Entry) (i : ℕ) : Type 0 where
  in_gap : scan ≢ i → gap ≡ i → some e ≡ some f → AfterMove slots gap scan e f i
  elsewhere : scan ≢ i → Holds slots i f → AfterMove slots gap scan e f i

module _ (slots : Cells) (c gap k x : ℕ) (w : IsShifting slots c gap k x) where
  abbrev pub scan : ℕ
  scan = (gap + k) % c

  pub some_slot : 0 < c
  some_slot = omega (arith, w.gap_in)

  pub scan_in : scan < c
  scan_in = omega (arith, some_slot)

  scan_apart : k < c → scan ≢ gap
  scan_apart far same = omega (
    arith,
    w.ahead,
    subst (λ s. dist c gap s ≡ k) same (dist-add_mod c gap k w.gap_in far),
    dist_self c gap,
  )

  -- A vacant slot at the scan ends the shift with every entry reached.
  pub closed : get_elem? slots scan ≡ some none → IsProbed slots c
  closed stop = record {
    probed = λ i e h j inside near. elim (ℕ_discrete j gap) [
      | yes at_gap ↦
          absurd
            (no_gap i e h (subst (λ s. dist c (home c e.0) s < dist c (home c e.0) i) at_gap near))
      | no ne ↦ w.probed i e h j inside ne near
    ];
    unique = w.unique;
  }
    where
      no_gap :
          (i : ℕ) (e : Entry)
          → Holds slots i e
          → ¬ (dist c (home c e.0) gap < dist c (home c e.0) i)
      no_gap i e h near =
          let inside : i < c = omega (arith, lt_of_get_elem? slots i h, w.cells) in
          let hin = home-lt c e.0 some_slot in
          elim (dec_lt (dist c gap i) k) [
            | yes before ↦ w.between i e h before near
            | no after ↦
                let far : k < c = omega (arith, dist-lt c gap i w.gap_in inside) in
                let at : dist c gap scan ≡ k = dist-add_mod c gap k w.gap_in far in
                let split = dist_split c (home c e.0) gap i hin w.gap_in inside near in
                let top = dist-lt c (home c e.0) i hin inside in
                let joined = dist_join c (home c e.0) gap scan hin w.gap_in scan_in (omega arith) in
                let apart : dist c gap i ≢ dist c gap scan =
                  dist_ne c gap i scan w.gap_in inside scan_in (not_vacant slots i scan e h stop) in
                let (f, full) =
                  w.probed i e h scan scan_in (scan_apart far) (omega (arith, w.ahead)) in
                not_vacant slots scan scan f full stop refl
          ]

  scan_before_turn : (e : Entry) → Holds slots scan e → k < c
  scan_before_turn e at = elim (dec_lt k c) [
    | yes lt ↦ lt
    | no ge ↦
        let all : k ≡ c = omega (arith, w.ahead) in
        absurd (
          not_vacant slots scan gap e at w.vacant
            (ap (λ n. (gap + n) % c) all ∙ add_mod_turn c gap w.gap_in))
  ]

  -- An entry at the scan that does not want the gap is passed.
  pub on_passed :
      (e : Entry)
      → Holds slots scan e
      → ¬ (dist c (home c e.0) gap < dist c (home c e.0) scan)
      → IsShifting slots c gap (suc k) x
  on_passed e at stays = record {
    cells = w.cells;
    gap_in = w.gap_in;
    ahead = (omega arith, scan_before_turn e at);
    vacant = w.vacant;
    between = λ i f h near. elim (ℕ_discrete i scan) [
      | yes same ↦ stays_at i f h same
      | no ne ↦ w.between i f h (nearer i f h ne near)
    ];
    probed = w.probed;
    unique = w.unique;
    x_in = w.x_in;
    x_vacant = w.x_vacant;
    x_apart = w.x_apart;
  }
    where
      stays_at :
          (i : ℕ) (f : Entry)
          → Holds slots i f
          → i ≡ scan
          → ¬ (dist c (home c f.0) gap < dist c (home c f.0) i)
      stays_at i f h same =
          subst₂ (λ q s. ¬ (dist c (home c q) gap < dist c (home c q) s))
            (sym (page_of_slot slots i scan f e h at same)) (sym same) stays

      nearer :
          (i : ℕ) (f : Entry) → Holds slots i f → i ≢ scan → dist c gap i < suc k → dist c gap i < k
      nearer i f h ne near = omega (
        arith,
        dist_ne c gap i scan w.gap_in (omega (arith, lt_of_get_elem? slots i h, w.cells)) scan_in
            ne,
        dist-add_mod c gap k w.gap_in (scan_before_turn e at),
      )

  -- The slots after an entry at the scan has moved into the gap.
  abbrev pub moved : Entry → Cells
  moved e = set (set slots gap (some e)) scan none

  pub scan_gap : (e : Entry) → Holds slots scan e → scan ≢ gap
  scan_gap e at = not_vacant slots scan gap e at w.vacant

  in_first : (e : Entry) → scan < length (set slots gap (some e))
  in_first e = omega (arith, length-set slots gap (some e), w.cells, scan_in)

  -- An entry after the move is the one in the gap, or an old one elsewhere.
  Holds-moved : (e f : Entry) (i : ℕ) → Holds (moved e) i f → AfterMove slots gap scan e f i
  Holds-moved e f i h = elim (Holds-set (set slots gap (some e)) scan i none f (in_first e) h) [
    | inl (_, vacated) ↦ absurd (ground (arith, vacated))
    | inr (ne, first) ↦
        elim (Holds-set slots gap i (some e) f (omega (arith, w.cells, w.gap_in)) first) [
          | inl (at_gap, mine) ↦ in_gap ne at_gap mine
          | inr (_, old) ↦ elsewhere ne old
        ]
  ]

  gap_moved : (e : Entry) → Holds slots scan e → Holds (moved e) gap e
  gap_moved e at =
      get_elem?-set_ne (set slots gap (some e)) scan gap none (scan_gap e at)
      ∙ get_elem?-set_self slots gap (some e) (omega (arith, w.cells, w.gap_in))

  old_moved : (e f : Entry) (i : ℕ) → Holds slots i f → scan ≢ i → Holds (moved e) i f
  old_moved e f i h ne =
      get_elem?-set_ne (set slots gap (some e)) scan i none ne
      ∙ get_elem?-set_ne slots gap i (some e)
          (λ same. not_vacant slots i gap f h w.vacant (sym same))
      ∙ h

  vacant_moved :
      (e : Entry) (i : ℕ)
      → get_elem? slots i ≡ some none
      → gap ≢ i
      → scan ≢ i
      → get_elem? (moved e) i ≡ some none
  vacant_moved e i h ne ne' =
      get_elem?-set_ne (set slots gap (some e)) scan i none ne'
      ∙ get_elem?-set_ne slots gap i (some e) ne
      ∙ h

  Occupied-moved :
      (e : Entry) (j : ℕ)
      → Holds slots scan e
      → scan ≢ j
      → (j ≢ gap → Occupied slots j)
      → Occupied (moved e) j
  Occupied-moved e j at ne old = elim (ℕ_discrete j gap) [
    | yes same ↦ (e, subst (λ s. Holds (moved e) s e) (sym same) (gap_moved e at))
    | no apart ↦ let (f, h) = old apart in (f, old_moved e f j h ne)
  ]

  -- The move of an entry that wants the gap: the gap is now where the entry was.
  pub on_moved :
      (e : Entry)
      → Holds slots scan e
      → dist c (home c e.0) gap < dist c (home c e.0) scan
      → IsShifting (moved e) c scan 1 x
  on_moved e at wants = record {
    cells = length-set (set slots gap (some e)) scan none ∙ length-set slots gap (some e) ∙ w.cells;
    gap_in = scan_in;
    ahead = (omega arith, omega (arith, some_slot));
    vacant = get_elem?-set_self (set slots gap (some e)) scan none (in_first e);
    between = λ i f h near far. first_only e i f h near;
    probed = λ i f h j inside ne near. elim (Holds-moved e f i h) [
      | in_gap _ at_gap mine ↦
          Occupied-moved e j at (λ same. ne (sym same))
            (λ apart. w.probed scan e at j inside apart (through e f i j at_gap mine wants near))
      | elsewhere _ old ↦
          Occupied-moved e j at (λ same. ne (sym same))
            (λ apart. w.probed i f old j inside apart near)
    ];
    unique = λ i j f f' h h' same. elim (Holds-moved e f i h) [
      | in_gap not_i i_gap mine ↦ elim (Holds-moved e f' j h') [
        | in_gap _ j_gap _ ↦ sym i_gap ∙ j_gap
        | elsewhere not_j old ↦
            absurd (not_j (w.unique scan j e f' at old (ap (page_or e.0) mine ∙ same)))
      ]
      | elsewhere not_i old ↦ elim (Holds-moved e f' j h') [
        | in_gap _ _ mine ↦
            absurd (not_i (w.unique scan i e f at old (ap (page_or e.0) mine ∙ sym same)))
        | elsewhere _ old' ↦ w.unique i j f f' old old' same
      ]
    ];
    x_in = w.x_in;
    x_vacant =
        vacant_moved e x w.x_vacant (λ same. w.x_apart (sym same))
          (not_vacant slots scan x e at w.x_vacant);
    x_apart = λ same. not_vacant slots scan x e at w.x_vacant (sym same);
  }
    where
      apart : (e f : Entry) (i : ℕ) → Holds (moved e) i f → scan ≢ i
      apart e f i h = elim (Holds-moved e f i h) [ in_gap ne _ _ ↦ ne | elsewhere ne _ ↦ ne ]

      first_only : (e : Entry) (i : ℕ) (f : Entry) → Holds (moved e) i f → dist c scan i < 1 → ⊥
      first_only e i f h near = absurd (
          dist_ne c scan scan i scan_in scan_in
            (omega (
              arith,
              lt_of_get_elem? (moved e) i h,
              length-set (set slots gap (some e)) scan none,
              length-set slots gap (some e),
              w.cells,
            ))
            (apart e f i h) (omega (arith, dist_self c scan)))

      through :
          (e f : Entry) (i j : ℕ)
          → gap ≡ i
          → some e ≡ some f
          → dist c (home c e.0) gap < dist c (home c e.0) scan
          → dist c (home c f.0) j < dist c (home c f.0) i
          → dist c (home c e.0) j < dist c (home c e.0) scan
      through e f i j at_gap mine wants near =
          let near' : dist c (home c e.0) j < dist c (home c e.0) gap =
            subst₂ (λ q s. dist c (home c q) j < dist c (home c q) s) (sym (ap (page_or e.0) mine))
              (sym at_gap) near in
          omega arith

  pub Maps-moved :
      (e : Entry) (q : PageId) (g : ℕ) → Holds slots scan e → Maps (moved e) q g ↔ Maps slots q g
  Maps-moved e q g at = (
    (λ (i, h). elim (Holds-moved e (q, g) i h) [
      | in_gap _ _ mine ↦ (scan, at ∙ ap some mine)
      | elsewhere _ old ↦ (i, old)
    ]),
    (λ (i, h). elim (ℕ_discrete scan i) [
      | yes same ↦
          let mine : some (some e) ≡ some (some (q, g)) =
            sym at ∙ subst (λ s. Holds slots s (q, g)) (sym same) h in
          (gap, gap_moved e at ∙ mine)
      | no ne ↦ (i, old_moved e (q, g) i h ne)
    ]),
  )

  pub filled-moved : (e : Entry) → Holds slots scan e → filled (moved e) ≡ filled slots
  filled-moved e at = omega (
    arith,
    filled-set_vacant slots gap e w.vacant,
    filled-set_vacated (set slots gap (some e)) scan e
        (get_elem?-set_ne slots gap scan (some e) (λ same. scan_gap e at (sym same)) ∙ at),
  )
