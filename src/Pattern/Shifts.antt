-- ===== src/Pattern/Shifts.antt =====
-- src/pool/prefetch/pattern.rs: what a demand does to a pattern.
use dios.Common.{
  ℕ, ◌+◌, ◌≡◌, ◌≤◌, ◌<◌, inl, inr, ltb, leb, min, max, some, ok, arith, refl, u32_max, u64_max,
  Bool-cases, Option-cases, subst, ◌>>=◌,
}
use dios.Ids.{PageId, page_eq, file_eq_iff}
use dios.Pattern.{
  PatternState, empty, following, streaming, Pattern, reset, last_of, follows, start_over, sequel,
  observe_sequential, observe, observe_after,
}

-- A stream's next prediction lies past its demand, and its width within the capacity.
abbrev pub IsAhead : ℕ → PatternState → Type 0
IsAhead capacity empty = Unit
IsAhead capacity (following last run) = Unit
IsAhead capacity (streaming demand next width) = (demand.granule_idx < next) × (width ≤ capacity)

-- A page that the stream has passed.
abbrev pub Passed : PatternState → PageId → Type 0
Passed empty page = ⊥
Passed (following last run) page = ⊥
Passed (streaming demand next width) page = (page.file ≡ demand.file) × (page.granule_idx < next)

-- What an operation does to a pattern.
pub data Shift (capacity : ℕ) (p p' : Pattern) : Type 0 where
  restarted : p'.incarnation ≡ p.incarnation + 1 → IsAhead capacity p'.state → Shift capacity p p'
  onward :
      p'.incarnation ≡ p.incarnation
      → IsAhead capacity p'.state
      → ((page : PageId) → Passed p.state page → Passed p'.state page)
      → Shift capacity p p'

pub reset-Shift :
    (capacity : ℕ) (p : Pattern) {p' : Pattern} → reset p ≡ ok p' → Shift capacity p p'
unfolding reset
reset-Shift capacity p {p'} h = elim (Bool-cases (leb (p.incarnation + 1) u64_max)) [
  | inl room ↦
      let now : record { state = empty; incarnation = p.incarnation + 1 } ≡ p' =
        ground (arith, room) in
      subst (Shift capacity p) now (restarted refl tt)
  | inr full ↦ ground (arith, full)
]

start_over-Shift :
    (capacity : ℕ) (p : Pattern) (page : PageId) {p' : Pattern}
    → start_over p page ≡ ok p'
    → Shift capacity p p'
unfolding reset
start_over-Shift capacity p page {p'} h = elim (Bool-cases (leb (p.incarnation + 1) u64_max)) [
  | inl room ↦
      let now : record { state = following page 1; incarnation = p.incarnation + 1 } ≡ p' =
        ground (arith, room) in
      subst (Shift capacity p) now (restarted refl tt)
  | inr full ↦ ground (arith, full)
]

abbrev pub pattern_of : PatternState → ℕ → Pattern
pattern_of state incarnation = record { state = state; incarnation = incarnation }

sequential-Shift :
    (capacity incarnation : ℕ) (state : PatternState) (last page : PageId) {p' : Pattern}
    → IsAhead capacity state
    → last_of state ≡ some last
    → last.file ≡ page.file
    → observe_sequential (pattern_of state incarnation) page capacity ≡ ok p'
    → Shift capacity (pattern_of state incarnation) p'
unfolding observe_sequential
sequential-Shift capacity incarnation state last page {p'} a l f h =
    elim (Bool-cases (leb (page.granule_idx + 1) u32_max)) [
      | inr full ↦ reset-Shift capacity (pattern_of state incarnation) (ground (arith, full))
      | inl room ↦ go state a l (ground (arith, room))
    ]
  where
    go :
        (state : PatternState)
        → IsAhead capacity state
        → last_of state ≡ some last
        → (sequel state page (page.granule_idx + 1) capacity >>= λ s. ok (pattern_of s incarnation))
          ≡ ok p'
        → Shift capacity (pattern_of state incarnation) p'
    go empty a l e = ground arith
    go (following last2 run) a l e = elim (Bool-cases (ltb run 2)) [
      | inl early ↦
          let now : pattern_of (following page (run + 1)) incarnation ≡ p' =
            ground (arith, early) in
          subst (Shift capacity (pattern_of (following last2 run) incarnation)) now
            (onward refl tt (λ q passed. absurd passed))
      | inr third ↦
          let now : pattern_of (streaming page (page.granule_idx + 1) (min capacity 4)) incarnation
              ≡ p' =
            ground (arith, third) in
          subst (Shift capacity (pattern_of (following last2 run) incarnation)) now
            (onward refl (omega arith, omega arith) (λ q passed. absurd passed))
    ]
    go (streaming demand next width) a l e =
        let now : pattern_of (streaming page (max next (page.granule_idx + 1)) width) incarnation
            ≡ p' =
          ground arith in
        subst (Shift capacity (pattern_of (streaming demand next width) incarnation)) now (
          onward refl (omega arith, a.1)
            (λ q passed. (ground (arith, passed.0, l, f), omega (arith, passed.1))))

pub observe-Shift :
    (capacity : ℕ) (p : Pattern) (page : PageId) {p' : Pattern}
    → IsAhead capacity p.state
    → observe p page capacity ≡ ok p'
    → Shift capacity p p'
unfolding observe observe_after
observe-Shift capacity p page {p'} a h = elim (Bool-cases (ltb 0 capacity)) [
  | inr none_at_all ↦ ground (arith, none_at_all)
  | inl some_room ↦ elim (Option-cases (last_of p.state)) [
    | inl nothing ↦ start_over-Shift capacity p page (ground (arith, some_room, nothing))
    | inr (last, l) ↦ elim (Bool-cases (page_eq last page)) [
      | inl same ↦
          let now : p ≡ p' = ground (arith, some_room, l, same) in
          subst (Shift capacity p) now (onward refl a (λ q passed. passed))
      | inr other ↦ elim (Bool-cases (follows last page)) [
        | inl sequel_page ↦
            sequential-Shift capacity p.incarnation p.state last page a l
              ((file_eq_iff last.file page.file).0 (ground (arith, sequel_page)))
              (ground (arith, some_room, l, other, sequel_page))
        | inr elsewhere ↦
            start_over-Shift capacity p page (ground (arith, some_room, l, other, elsewhere))
      ]
    ]
  ]
]
