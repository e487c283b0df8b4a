-- ===== src/Pattern/Predictions.antt =====
-- src/pool/prefetch/pattern.rs: what a prediction issued, or promoted, does to a pattern.
use dios.Common.{
  ℕ, ◌+◌, ◌≡◌, inl, inr, true, ◌&&◌, ◌==◌, ltb, leb, some, ok, arith, refl, u32_max, Bool-cases,
  subst, sym, ◌∙◌, ℕ_discrete,
}
use dios.Ids.{PageId, file_eq}
use dios.Pattern.{
  PatternState, empty, following, streaming, Pattern, reset, Source, request, issued, widened,
  promoted,
}
use dios.Pattern.Shifts.{IsAhead, Passed, Shift, onward, pattern_of, reset-Shift, observe-Shift}

reset-incarnation :
    (p : Pattern) {p' : Pattern} → reset p ≡ ok p' → p'.incarnation ≡ p.incarnation + 1
unfolding reset
reset-incarnation p h = ground arith

-- An issued prediction starts the pattern over, or moves it past the page.
pub issued-Shift :
    (capacity : ℕ) (p : Pattern) (reader : ℕ) (page : PageId) (source : Source) {p' : Pattern}
    → IsAhead capacity p.state
    → request p reader ≡ some (page, source)
    → issued p page ≡ ok p'
    → Shift capacity p p' × (p'.incarnation ≡ p.incarnation → Passed p'.state page)
unfolding request issued
issued-Shift capacity p reader page source {p'} a asked h = go p.state a asked h
  where
    go :
        (state : PatternState)
        → IsAhead capacity state
        → request (pattern_of state p.incarnation) reader ≡ some (page, source)
        → issued (pattern_of state p.incarnation) page ≡ ok p'
        → Shift capacity (pattern_of state p.incarnation) p'
          × (p'.incarnation ≡ p.incarnation → Passed p'.state page)
    go empty a asked h = ground arith
    go (following last run) a asked h = ground arith
    go (streaming demand next width) a asked h =
        let named : record { file = demand.file; granule_idx = next } ≡ page =
          ground (arith, asked) in
        elim (Bool-cases (leb (next + 1) u32_max)) [
          | inl room ↦
              let now : pattern_of (streaming demand (next + 1) width) p.incarnation ≡ p' =
                ground (arith, room) in
              subst
                (λ q.
                  Shift capacity (pattern_of (streaming demand next width) p.incarnation) q
                  × (q.incarnation ≡ p.incarnation → Passed q.state page))
                now
                (
                  onward refl (omega (arith, a.0), a.1)
                      (λ q passed. (passed.0, omega (arith, passed.1))),
                  λ _. (ground (arith, named), ground (arith, named)),
                )
          | inr full ↦
              let shift =
                reset-Shift capacity (pattern_of (streaming demand next width) p.incarnation)
                  (ground (arith, full)) in
              (
                shift,
                λ same. absurd (
                    omega (
                      arith,
                      same,
                      reset-incarnation (pattern_of (streaming demand next width) p.incarnation)
                          {p' = p'} (ground (arith, full)),
                    )),
              )
        ]

stays :
    (capacity : ℕ) (p : Pattern) {p' : Pattern}
    → IsAhead capacity p.state
    → p ≡ p'
    → Shift capacity p p'
stays capacity p a e = subst (Shift capacity p) e (onward refl a (λ q passed. passed))

stream_promoted :
    (capacity incarnation next width : ℕ) (demand page : PageId) {p' : Pattern}
    → IsAhead capacity (streaming demand next width)
    → Passed (streaming demand next width) page
    → promoted (pattern_of (streaming demand next width) incarnation) page incarnation capacity
      ≡ ok p'
    → Shift capacity (pattern_of (streaming demand next width) incarnation) p'
unfolding promoted
stream_promoted capacity incarnation next width demand page {p'} a passed h =
    let mine : file_eq demand.file page.file ≡ true = ground (arith, passed.0) in
    elim (Bool-cases (leb page.granule_idx demand.granule_idx)) [
      | inl behind ↦
          stays capacity (pattern_of (streaming demand next width) incarnation) a
            (ground (arith, mine, behind))
      | inr past ↦
          elim (Bool-cases
            (ltb demand.granule_idx u32_max && demand.granule_idx + 1 == page.granule_idx)) [
              | inl adjacent ↦
                  let now : pattern_of (streaming page next (widened width capacity)) incarnation
                      ≡ p' =
                    ground (arith, mine, past, adjacent) in
                  subst (Shift capacity (pattern_of (streaming demand next width) incarnation)) now
                    (onward refl (passed.1, omega arith)
                      (λ q done. (done.0 ∙ sym passed.0, done.1)))
              | inr apart ↦
                  observe-Shift capacity (pattern_of (streaming demand next width) incarnation) page
                    a (ground (arith, mine, past, apart))
            ]
    ]

pub promoted-Shift :
    (capacity : ℕ) (p : Pattern) (page : PageId) (incarnation : ℕ) {p' : Pattern}
    → IsAhead capacity p.state
    → (incarnation ≡ p.incarnation → Passed p.state page)
    → promoted p page incarnation capacity ≡ ok p'
    → Shift capacity p p'
unfolding promoted
promoted-Shift capacity p page incarnation {p'} a passed h =
    elim (ℕ_discrete incarnation p.incarnation) [
      | no other ↦ stays capacity p a (ground arith)
      | yes same ↦
          go p.state a (passed same) (subst (λ i. promoted p page i capacity ≡ ok p') same h)
    ]
  where
    go :
        (state : PatternState)
        → IsAhead capacity state
        → Passed state page
        → promoted (pattern_of state p.incarnation) page p.incarnation capacity ≡ ok p'
        → Shift capacity (pattern_of state p.incarnation) p'
    go empty a passed h = absurd passed
    go (following last run) a passed h = absurd passed
    go (streaming demand next width) a passed h =
        stream_promoted capacity p.incarnation next width demand page a passed h
