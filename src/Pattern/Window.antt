-- ===== src/Pattern/Window.antt =====
-- src/pool/prefetch/pattern.rs: a reader's pattern over its demands, predictions and promotions.
use dios.Common.{
  ℕ, ◌+◌, ◌≡◌, ◌≤◌, ◌<◌, ◌⊎◌, inl, inr, some, List, [], ◌∷◌, ok, arith, refl, subst, sym, ap,
}
use dios.Ids.{PageId}
use dios.Pattern.{
  PatternState, last_of, empty, following, streaming, Pattern, fresh, reset, observe, Source,
  request, issued, promoted,
}
use dios.Pattern.Shifts.{
  IsAhead, Passed, Shift, restarted, onward, pattern_of, reset-Shift, observe-Shift,
}
use dios.Pattern.Predictions.{issued-Shift, promoted-Shift}

-- A reader's pattern, and the predictions that were issued for it, each with its incarnation.
pub record System : Type 0 where
  pub pattern : Pattern
  pub log : List (PageId × ℕ)

abbrev pub Logged : PageId → ℕ → List (PageId × ℕ) → Type 0
Logged page incarnation [] = ⊥
Logged page incarnation (entry ∷ log) =
    ((entry.0 ≡ page) × (entry.1 ≡ incarnation)) ⊎ Logged page incarnation log

-- The life of a pattern at one capacity: only what was issued is promoted.
pub data Act (capacity : ℕ) (x : System) : System → Type 0 where
  resets : (p' : Pattern) → reset x.pattern ≡ ok p' → Act capacity x (record x { pattern = p' })
  observes :
      (page : PageId) (p' : Pattern)
      → observe x.pattern page capacity ≡ ok p'
      → Act capacity x (record x { pattern = p' })
  issues :
      (reader : ℕ) (page : PageId) (source : Source) (p' : Pattern)
      → request x.pattern reader ≡ some (page, source)
      → issued x.pattern page ≡ ok p'
      → Act capacity x (record { pattern = p'; log = (page, x.pattern.incarnation) ∷ x.log })
  promotes :
      (page : PageId) (incarnation : ℕ) (p' : Pattern)
      → Logged page incarnation x.log
      → promoted x.pattern page incarnation capacity ≡ ok p'
      → Act capacity x (record x { pattern = p' })

pub data Acts (capacity : ℕ) : System → System → Type 0 where
  done : {x : System} → Acts capacity x x
  then_act : {x y z : System} → Acts capacity x y → Act capacity y z → Acts capacity x z

pub record IsCurrent (capacity : ℕ) (x : System) : Type 0 where
  pub ahead : IsAhead capacity x.pattern.state
  pub past : (page : PageId) (i : ℕ) → Logged page i x.log → i ≤ x.pattern.incarnation
  pub passed :
      (page : PageId) → Logged page x.pattern.incarnation x.log → Passed x.pattern.state page

Shift-IsCurrent :
    (capacity : ℕ) (x : System) (p' : Pattern)
    → IsCurrent capacity x
    → Shift capacity x.pattern p'
    → IsCurrent capacity (record x { pattern = p' })
Shift-IsCurrent capacity x p' c (restarted i a) = record {
  ahead = a;
  past = λ page j l. omega (arith, c.past page j l, i);
  passed = λ page l. absurd (omega (arith, c.past page p'.incarnation l, i));
}
Shift-IsCurrent capacity x p' c (onward i a keeps) = record {
  ahead = a;
  past = λ page j l. omega (arith, c.past page j l, i);
  passed = λ page l. keeps page (c.passed page (subst (λ j. Logged page j x.log) i l));
}

Shift-incarnation :
    (capacity : ℕ) (p : Pattern) {p' : Pattern}
    → Shift capacity p p'
    → p.incarnation ≤ p'.incarnation
Shift-incarnation capacity p (restarted i a) = omega (arith, i)
Shift-incarnation capacity p (onward i a keeps) = omega (arith, i)

issue-IsCurrent :
    (capacity : ℕ) (x : System) (p' : Pattern) (page : PageId)
    → IsCurrent capacity (record x { pattern = p' })
    → x.pattern.incarnation ≤ p'.incarnation
    → (p'.incarnation ≡ x.pattern.incarnation → Passed p'.state page)
    → IsCurrent capacity (record { pattern = p'; log = (page, x.pattern.incarnation) ∷ x.log })
issue-IsCurrent capacity x p' page c le here = record {
  ahead = c.ahead;
  past = λ q j l. elim l [ inl (_, e) ↦ omega (arith, e, le) | inr l ↦ c.past q j l ];
  passed = λ q l. elim l [
    | inl (same, e) ↦ subst (Passed p'.state) same (here (sym e))
    | inr l ↦ c.passed q l
  ];
}

Act-IsCurrent :
    (capacity : ℕ) {x y : System} → IsCurrent capacity x → Act capacity x y → IsCurrent capacity y
Act-IsCurrent capacity {x} c (resets p' h) =
    Shift-IsCurrent capacity x p' c (reset-Shift capacity x.pattern h)
Act-IsCurrent capacity {x} c (observes page p' h) =
    Shift-IsCurrent capacity x p' c (observe-Shift capacity x.pattern page c.ahead h)
Act-IsCurrent capacity {x} c (promotes page incarnation p' l h) = Shift-IsCurrent capacity x p' c (
    promoted-Shift capacity x.pattern page incarnation c.ahead
      (λ same. c.passed page (subst (λ j. Logged page j x.log) same l)) h)
Act-IsCurrent capacity {x} c (issues reader page source p' asked h) =
    let (shift, here) = issued-Shift capacity x.pattern reader page source c.ahead asked h in
    issue-IsCurrent capacity x p' page (Shift-IsCurrent capacity x p' c shift)
      (Shift-incarnation capacity x.pattern shift) here

Acts-IsCurrent :
    (capacity : ℕ) {x y : System} → IsCurrent capacity x → Acts capacity x y → IsCurrent capacity y
Acts-IsCurrent capacity c Acts.done = c
Acts-IsCurrent capacity c (Acts.then_act before last) =
    Act-IsCurrent capacity (Acts-IsCurrent capacity c before) last

abbrev pub start : System
start = record { pattern = fresh; log = [] }

start-IsCurrent : (capacity : ℕ) → IsCurrent capacity start
unfolding fresh
start-IsCurrent capacity = record {
  ahead = tt;
  past = λ page i l. absurd l;
  passed = λ page l. absurd l;
}

request-Passed :
    (capacity : ℕ) (p : Pattern) (reader : ℕ) (page : PageId) (source : Source)
    → IsAhead capacity p.state
    → request p reader ≡ some (page, source)
    → (demand : PageId) × (last_of p.state ≡ some demand)
      × (page.file ≡ demand.file)
      × (demand.granule_idx < page.granule_idx)
      × (page.granule_idx ≤ demand.granule_idx + capacity)
      × ¬ Passed p.state page
unfolding request
request-Passed capacity p reader page source a asked = go p.state a asked
  where
    go :
        (state : PatternState)
        → IsAhead capacity state
        → request (pattern_of state p.incarnation) reader ≡ some (page, source)
        → (demand : PageId) × (last_of state ≡ some demand)
          × (page.file ≡ demand.file)
          × (demand.granule_idx < page.granule_idx)
          × (page.granule_idx ≤ demand.granule_idx + capacity)
          × ¬ Passed state page
    go empty a asked = ground arith
    go (following last run) a asked = ground arith
    go (streaming demand next width) a asked =
        let named : record { file = demand.file; granule_idx = next } ≡ page =
          ground (arith, asked) in
        let at : next ≡ page.granule_idx = ap (λ q. q.granule_idx) named in
        let near : next ≤ demand.granule_idx + width = ground (arith, asked) in
        (
          demand,
          refl,
          sym (ap (λ q. q.file) named),
          omega (arith, a.0, at),
          omega (arith, a.1, at, near),
          λ passed. omega (arith, passed.1, at),
        )

-- Reading ahead keeps to its window and never repeats itself. Over every life of a reader's pattern
-- in which only issued predictions are promoted, a page that it asks for is of the file last
-- demanded, lies past that demand by at most the capacity, and was not issued before in the same
-- incarnation.
pub request-Logged :
    (capacity : ℕ) (x : System) (reader : ℕ) (page : PageId) (source : Source)
    → Acts capacity start x
    → request x.pattern reader ≡ some (page, source)
    → ((demand : PageId) × (last_of x.pattern.state ≡ some demand)
        × (page.file ≡ demand.file)
        × (demand.granule_idx < page.granule_idx)
        × (page.granule_idx ≤ demand.granule_idx + capacity))
      × ¬ Logged page x.pattern.incarnation x.log
request-Logged capacity x reader page source acts asked =
    let c = Acts-IsCurrent capacity (start-IsCurrent capacity) acts in
    let (demand, l, f, past, near, new) =
      request-Passed capacity x.pattern reader page source c.ahead asked in
    ((demand, l, f, past, near), λ logged. new (c.passed page logged))
