-- ===== src/Interests/Held.antt =====
-- src/pool/miss.rs: the waiter counts against the capabilities that callers hold.
use dios.Common.{
  panic, ◌⊎◌, ℕ_discrete, ℕ, zero, suc, ◌+◌, ◌-◌, ◌≡◌, ◌≢◌, ◌<◌, inl, inr, some, List, [], ◌∷◌,
  ◌++◌, get_elem?, set, ok, arith, refl, sym, subst, ◌∙◌, Option-cases, lt_of_get_elem?,
  get_elem?-set_self,
}
use dios.Interests.{
  MissInterest, InitialInterest, speculative, demand, initial_waiters, MissInterests,
  vacant_interests, begin_initial, join_interest, release_interest,
}
use dios.Interests.Counts.{
  Capability, holders, copies, copies-cases, holders-unheld, holders-append, IsCurrent, AllCurrent,
  IsCounted, kept_current, unheld_current, AllCurrent-drop, counted_write,
}

-- The interests with the capabilities that callers hold, as the operations change both.
pub data Reached (capacity : ℕ) : MissInterests → List Capability → Type 0 where
  fresh : Reached capacity (vacant_interests capacity) []
  begun :
      {interests after : MissInterests} {held : List Capability} (slot generation : ℕ)
      → Reached capacity interests held
      → begin_initial interests slot demand ≡ ok (generation, after)
      → Reached capacity after ((slot, generation) ∷ held)
  speculated :
      {interests after : MissInterests} {held : List Capability} (slot generation : ℕ)
      → Reached capacity interests held
      → begin_initial interests slot speculative ≡ ok (generation, after)
      → Reached capacity after held
  joined :
      {interests after : MissInterests} {held : List Capability} (slot generation : ℕ)
      → Reached capacity interests held
      → join_interest interests slot generation ≡ ok after
      → Reached capacity after ((slot, generation) ∷ held)
  released :
      {interests after : MissInterests} (earlier later : List Capability) (slot generation left : ℕ)
      → Reached capacity interests (earlier ++ (slot, generation) ∷ later)
      → release_interest interests slot generation ≡ ok (left, after)
      → Reached capacity after (earlier ++ later)

-- What a successful operation found and wrote.
begin_initial-eq-ok :
    (interests : MissInterests) (slot : ℕ) (initial : InitialInterest) {generation : ℕ}
    {after : MissInterests}
    → begin_initial interests slot initial ≡ ok (generation, after)
    → (i : MissInterest) × (get_elem? interests slot ≡ some i)
      × (i.waiters ≡ 0)
      × (generation ≡ i.generation + 1)
      × (after
          ≡ set interests slot
              (record { generation = generation; waiters = initial_waiters initial }))
unfolding begin_initial
begin_initial-eq-ok interests slot initial e = elim (Option-cases (get_elem? interests slot)) [
  | inl outside ↦ ground (arith, outside)
  | inr (i, at) ↦ (i, at, ground (arith, at), ground (arith, at), ground (arith, at))
]

join_interest-eq-ok :
    (interests : MissInterests) (slot generation : ℕ) {after : MissInterests}
    → join_interest interests slot generation ≡ ok after
    → (i : MissInterest) × (get_elem? interests slot ≡ some i)
      × (i.generation ≡ generation)
      × (after ≡ set interests slot (record i { waiters = i.waiters + 1 }))
unfolding join_interest
join_interest-eq-ok interests slot generation e = elim (Option-cases (get_elem? interests slot)) [
  | inl outside ↦ ground (arith, outside)
  | inr (i, at) ↦ (i, at, ground (arith, at), ground (arith, at))
]

release_interest-eq-ok :
    (interests : MissInterests) (slot generation : ℕ) {left : ℕ} {after : MissInterests}
    → release_interest interests slot generation ≡ ok (left, after)
    → (i : MissInterest) × (get_elem? interests slot ≡ some i)
      × (0 < i.waiters)
      × (after ≡ set interests slot (record i { waiters = i.waiters - 1 }))
unfolding release_interest
release_interest-eq-ok interests slot generation e =
    elim (Option-cases (get_elem? interests slot)) [
      | inl outside ↦ ground (arith, outside)
      | inr (i, at) ↦ (i, at, ground (arith, at), ground (arith, at))
    ]

-- The fresh slots have no waiter.
vacant_counts :
    (capacity slot : ℕ) (i : MissInterest)
    → get_elem? (vacant_interests capacity) slot ≡ some i
    → i.waiters ≡ 0
vacant_counts zero slot i at = ground (arith, at)
vacant_counts (suc n) zero i at = ground (arith, at)
vacant_counts (suc n) (suc slot) i at = vacant_counts n slot i at

begun-IsCounted :
    (interests : MissInterests) (held held' : List Capability) (slot : ℕ)
    (initial : InitialInterest) {generation : ℕ} {after : MissInterests}
    → IsCounted interests held
    → begin_initial interests slot initial ≡ ok (generation, after)
    → initial_waiters initial ≡ holders slot held'
    → ((s : ℕ) → s ≢ slot → holders s held' ≡ holders s held)
    → ((AllCurrent after held → IsCurrent after (slot, generation) → AllCurrent after held'))
    → IsCounted after held'
begun-IsCounted interests held held' slot initial {generation} {after} v e mine others takes =
    let (i, at, idle, next, is) = begin_initial-eq-ok interests slot initial e in
    let j : MissInterest = record { generation = generation; waiters = initial_waiters initial } in
    let inside = lt_of_get_elem? interests slot at in
    record {
      counts =
          subst
            (λ a. (s : ℕ) (k : MissInterest) → get_elem? a s ≡ some k → k.waiters ≡ holders s held')
            (sym is) (counted_write interests slot j held held' inside v.counts mine others);
      current =
          takes
            (subst (λ a. AllCurrent a held) (sym is)
              (unheld_current interests slot j held (sym (v.counts slot i at) ∙ idle) v.current))
            (
              j,
              subst (λ a. get_elem? a slot ≡ some j) (sym is)
                  (get_elem?-set_self interests slot j inside),
              refl,
            );
    }

joined-IsCounted :
    (interests : MissInterests) (held : List Capability) (slot generation : ℕ)
    {after : MissInterests}
    → IsCounted interests held
    → join_interest interests slot generation ≡ ok after
    → IsCounted after ((slot, generation) ∷ held)
joined-IsCounted interests held slot generation {after} v e =
    let (i, at, same, is) = join_interest-eq-ok interests slot generation e in
    let j : MissInterest = record i { waiters = i.waiters + 1 } in
    let inside = lt_of_get_elem? interests slot at in
    subst (λ a. IsCounted a ((slot, generation) ∷ held)) (sym is)
      (record {
        counts =
            counted_write interests slot j held ((slot, generation) ∷ held) inside v.counts
              (ground (arith, v.counts slot i at)) (λ s ne. ground (arith, ne));
        current = (
          (j, get_elem?-set_self interests slot j inside, same),
          kept_current interests slot i j held at refl v.current,
        );
      })

released-IsCounted :
    (interests : MissInterests) (xs ys : List Capability) (slot generation : ℕ) {left : ℕ}
    {after : MissInterests}
    → IsCounted interests (xs ++ (slot, generation) ∷ ys)
    → release_interest interests slot generation ≡ ok (left, after)
    → IsCounted after (xs ++ ys)
released-IsCounted interests xs ys slot generation {left} {after} v e =
    let (i, at, some_waiter, is) = release_interest-eq-ok interests slot generation e in
    let j : MissInterest = record i { waiters = i.waiters - 1 } in
    let inside = lt_of_get_elem? interests slot at in
    let held = xs ++ (slot, generation) ∷ ys in
    let both = holders-append slot xs ((slot, generation) ∷ ys) in
    let rest = holders-append slot xs ys in
    subst (λ a. IsCounted a (xs ++ ys)) (sym is)
      (record {
        counts =
            counted_write interests slot j held (xs ++ ys) inside v.counts
              (ground (arith, v.counts slot i at, both, rest))
              (λ s ne.
                ground (
                  arith,
                  ne,
                  holders-append s xs ((slot, generation) ∷ ys),
                  holders-append s xs ys,
                ));
        current =
            kept_current interests slot i j (xs ++ ys) at refl
              (AllCurrent-drop interests xs ys (slot, generation) v.current).1;
      })

Reached-IsCounted :
    {capacity : ℕ} {interests : MissInterests} {held : List Capability}
    → Reached capacity interests held
    → IsCounted interests held
Reached-IsCounted {capacity} fresh = record { counts = vacant_counts capacity; current = tt }
Reached-IsCounted (begun {interests} {after} {held} slot generation r e) =
    let v = Reached-IsCounted r in
    let (i, at, idle, _, _) = begin_initial-eq-ok interests slot demand e in
    begun-IsCounted interests held ((slot, generation) ∷ held) slot demand v e
      (ground (arith, v.counts slot i at, idle)) (λ s ne. ground (arith, ne))
      (λ all mine. (mine, all))
Reached-IsCounted (speculated {interests} {after} {held} slot generation r e) =
    let v = Reached-IsCounted r in
    let (i, at, idle, _, _) = begin_initial-eq-ok interests slot speculative e in
    begun-IsCounted interests held held slot speculative v e
      (ground (arith, v.counts slot i at, idle)) (λ s ne. refl) (λ all mine. all)
Reached-IsCounted (joined {interests} {after} {held} slot generation r e) =
    joined-IsCounted interests held slot generation (Reached-IsCounted r) e
Reached-IsCounted (released {interests} earlier later slot generation left r e) =
    released-IsCounted interests earlier later slot generation (Reached-IsCounted r) e

-- The release of a capability that is held succeeds, and one waiter fewer is left.
release_interest-held :
    (interests : MissInterests) (earlier later : List Capability) (slot generation : ℕ)
    → IsCounted interests (earlier ++ (slot, generation) ∷ later)
    → (after : MissInterests) × (release_interest interests slot generation
        ≡ ok (holders slot (earlier ++ later), after))
unfolding release_interest
release_interest-held interests earlier later slot generation v =
    let ((i, at, same), _) = AllCurrent-drop interests earlier later (slot, generation) v.current in
    let both = holders-append slot earlier ((slot, generation) ∷ later) in
    let rest = holders-append slot earlier later in
    let counted = v.counts slot i at in
    (
      set interests slot (record i { waiters = i.waiters - 1 }),
      ground (arith, at, same, counted, both, rest),
    )

-- The release of one that is not held panics.
release_interest-unheld :
    (interests : MissInterests) (held : List Capability) (slot generation : ℕ)
    → IsCounted interests held
    → copies (slot, generation) held ≡ 0
    → release_interest interests slot generation ≡ panic
unfolding release_interest
release_interest-unheld interests held slot generation v unheld =
    elim (Option-cases (get_elem? interests slot)) [
      | inl outside ↦ ground (arith, outside)
      | inr (i, at) ↦ elim (ℕ_discrete i.generation generation) [
        | yes same ↦
            let idle =
              v.counts slot i at
              ∙ holders-unheld interests slot i held at
                  (subst (λ g. copies (slot, g) held ≡ 0) (sym same) unheld) v.current in
            ground (arith, at, idle)
        | no ne ↦ ground (arith, at, ne)
      ]
    ]

-- A capability is released exactly as often as it is held. However the slots were reached from fresh
-- ones by beginning, joining and releasing, and for any slot and generation: either a capability for
-- them is held, and its release succeeds, reports how many other capabilities for the slot are held,
-- and leaves slots that are reached with one copy of it fewer; or no copy of it is held, and its
-- release panics.
pub release_interest-Reached :
    (capacity : ℕ) (interests : MissInterests) (held : List Capability) (slot generation : ℕ)
    → Reached capacity interests held
    → ((earlier later : List Capability) × (after : MissInterests) × (held
          ≡ earlier ++ (slot, generation) ∷ later)
        × (release_interest interests slot generation ≡ ok (holders slot (earlier ++ later), after))
        × Reached capacity after (earlier ++ later))
      ⊎ ((copies (slot, generation) held ≡ 0)
          × (release_interest interests slot generation ≡ panic))
release_interest-Reached capacity interests held slot generation r =
    elim (copies-cases slot generation held) [
      | inl (earlier, later, parts) ↦
          let r' = subst (λ h. Reached capacity interests h) parts r in
          let (after, e) =
            release_interest-held interests earlier later slot generation (Reached-IsCounted r') in
          inl (
            earlier,
            later,
            after,
            parts,
            e,
            released earlier later slot generation (holders slot (earlier ++ later)) r' e,
          )
      | inr unheld ↦ inr (
        unheld,
        release_interest-unheld interests held slot generation (Reached-IsCounted r) unheld,
      )
    ]

-- A slot is not recycled under a waiter: however the slots were reached, a new generation that begins
-- on a slot, for a demand or a speculation, finds no capability for the slot held.
pub begin_initial-Reached :
    (capacity : ℕ) (interests after : MissInterests) (held : List Capability) (slot generation : ℕ)
    (initial : InitialInterest)
    → Reached capacity interests held
    → begin_initial interests slot initial ≡ ok (generation, after)
    → holders slot held ≡ 0
begin_initial-Reached capacity interests after held slot generation initial r e =
    let v = Reached-IsCounted r in
    let (i, at, idle, _, _) = begin_initial-eq-ok interests slot initial e in
    sym (v.counts slot i at) ∙ idle
