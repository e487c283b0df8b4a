-- ===== src/Driver/Files/Closed.antt =====
-- src/driver.rs: a file identity that is closed, and one that is opened.
use dios.Common.{
  ℕ, suc, ◌+◌, ◌≡◌, ◌<◌, ◌⊎◌, inl, inr, true, false, some, List, [], ◌∷◌, get_elem?, set, ok, arith,
  refl, u32_max, Option-cases, Bool-cases, Checked-cases, leb, get_elem?-set_self, get_elem?-set_ne,
  lt_of_get_elem?, ℕ_discrete, ◌∙◌, sym, subst, ◌||◌, ltb,
}
use dios.Ids.{FileId}
use dios.Driver.Files.{
  FileSlot, FileTable, FileState, free, opened, closing, closed, is_free, is_closed_state, is_live,
  is_closed, open_from, open_file,
}
use dios.Driver.Files.Effects.{
  Steps, Change, Changed, unchanged, changed, Step-Changed, vacant_state,
}

-- The generation `g` of a slot is closed: the slot was opened again since, or it is closed now.
abbrev SlotClosed : ℕ → FileSlot → Type 0
SlotClosed g s = (g < s.generation) ⊎ ((s.generation ≡ g) × (s.state ≡ closed))

Change-SlotClosed : (g : ℕ) {s s' : FileSlot} → Change s s' → SlotClosed g s → SlotClosed g s'
Change-SlotClosed g (Change.reopened s v) (inl lt) = inl (omega arith)
Change-SlotClosed g (Change.reopened s v) (inr (e, c)) = inl (omega arith)
Change-SlotClosed g (Change.counted s n) c = c
Change-SlotClosed g (Change.aborted s o z) (inl lt) = inl lt
Change-SlotClosed g (Change.aborted s o z) (inr (e, c)) = absurd (cc (o, c))
Change-SlotClosed g (Change.shut s o) (inl lt) = inl lt
Change-SlotClosed g (Change.shut s o) (inr (e, c)) = absurd (cc (o, c))
Change-SlotClosed g (Change.retired s o z) (inl lt) = inl lt
Change-SlotClosed g (Change.retired s o z) (inr (e, c)) = absurd (cc (o, c))

abbrev IsOver : FileId → FileTable → Type 0
IsOver id t = (s : FileSlot) × (get_elem? t.slots id.slot ≡ some s) × SlotClosed id.generation s

Changed-IsOver :
    (id : FileId) (t t' : FileTable) → Changed t.slots t'.slots → IsOver id t → IsOver id t'
Changed-IsOver id t t' (unchanged e) over =
    subst (λ xs. IsOver id (record { slots = xs })) (sym e) over
Changed-IsOver id t t' (changed k a b at c e) (s, here, over) = elim (ℕ_discrete k id.slot) [
  | yes same ↦
      let now : get_elem? t.slots id.slot ≡ some a =
        subst (λ j. get_elem? t.slots j ≡ some a) same at in
      let same_slot : s ≡ a = cc (here, now) in
      (
        b,
        rw (e, sym same) (get_elem?-set_self t.slots k b (lt_of_get_elem? t.slots k at)),
        Change-SlotClosed id.generation c (subst (SlotClosed id.generation) same_slot over),
      )
  | no ne ↦ (s, rw e (get_elem?-set_ne t.slots k id.slot b ne ∙ here), over)
]

Steps-IsOver : (id : FileId) {t t' : FileTable} → Steps t t' → IsOver id t → IsOver id t'
Steps-IsOver id Steps.done over = over
Steps-IsOver id (Steps.then_step {t' = x} {t'' = y} before last) over =
    Changed-IsOver id x y (Step-Changed last) (Steps-IsOver id before over)

closed_state : (f : FileState) → is_closed_state f ≡ true → f ≡ closed
closed_state free e = cc
closed_state opened e = cc
closed_state closing e = cc
closed_state closed e = refl

is_closed-IsOver : (t : FileTable) (id : FileId) → is_closed t id ≡ ok true → IsOver id t
unfolding is_closed
is_closed-IsOver t id h = elim (Option-cases (get_elem? t.slots id.slot)) [
  | inl n ↦ ground (arith, n)
  | inr (s, at) ↦ elim (Bool-cases (ltb id.generation s.generation)) [
    | inl lt ↦ (s, at, inl (ground (arith, lt)))
    | inr ge ↦ (s, at, inr (ground (arith, at, ge), closed_state s.state (ground (arith, at, ge))))
  ]
]

IsOver-is_closed :
    (t : FileTable) (id : FileId)
    → IsOver id t
    → (is_closed t id ≡ ok true) × (is_live t id ≡ ok false)
unfolding is_closed is_live
IsOver-is_closed t id (s, at, inl lt) = (ground (arith, at), ground (arith, at))
IsOver-is_closed t id (s, at, inr (e, c)) = (ground (arith, at, c), ground (arith, at, c))

-- A closed identity stays closed. Whatever the table goes through afterwards, its slot opened anew
-- included, the identity is reported closed and never live again.
pub is_closed-Steps :
    (t t' : FileTable) (id : FileId)
    → Steps t t'
    → is_closed t id ≡ ok true
    → (is_closed t' id ≡ ok true) × (is_live t' id ≡ ok false)
is_closed-Steps t t' id steps h =
    IsOver-is_closed t' id (Steps-IsOver id steps (is_closed-IsOver t id h))

abbrev anew : FileSlot → FileSlot
anew s = record { generation = s.generation + 1; state = opened; inflight = 0 }

-- What `open` finds: the first slot that is free or closed.
open_from-eq-some :
    (driver index : ℕ) (slots : List FileSlot) {id : FileId} {slots' : List FileSlot}
    → open_from driver index slots ≡ ok (some id, slots')
    → (k : ℕ) × (s : FileSlot) × (get_elem? slots k ≡ some s)
      × ((s.state ≡ free) ⊎ (s.state ≡ closed))
      × (id ≡ record { driver = driver; slot = index + k; generation = s.generation + 1 })
      × (slots' ≡ set slots k (anew s))
unfolding open_from
open_from-eq-some driver index [] h = ground arith
open_from-eq-some driver index (s ∷ slots) {id} {slots'} h =
    elim (Bool-cases (is_free s.state || is_closed_state s.state)) [
      | inl vacant ↦ elim (Bool-cases (ltb s.generation u32_max)) [
        | inl room ↦ elim (Bool-cases (leb index u32_max)) [
          | inl small ↦ (
            0,
            s,
            refl,
            vacant_state s.state vacant,
            ground (arith, vacant, room, small),
            ground (arith, vacant, room, small),
          )
          | inr large ↦ ground (arith, vacant, room, large)
        ]
        | inr full ↦ ground (arith, vacant, full)
      ]
      | inr taken ↦ elim (Checked-cases (open_from driver (suc index) slots)) [
        | inl (next, e) ↦
            let found : open_from driver (suc index) slots ≡ ok (some id, next.1) =
              ground (arith, taken, e) in
            let (k, at, here, state, name, after) =
              open_from-eq-some driver (suc index) slots found in
            (suc k, at, here, state, ground (arith, name), ground (arith, taken, e, after))
        | inr stuck ↦ ground (arith, taken, stuck)
      ]
    ]

-- A write to a slot that is free or closed leaves every live identity.
stays_live :
    (slots : List FileSlot) (k : ℕ) (at : FileSlot) (other : FileId)
    → get_elem? slots k ≡ some at
    → ((at.state ≡ free) ⊎ (at.state ≡ closed))
    → (new : FileSlot) → is_live (record { slots = slots }) other ≡ ok true
    → is_live (record { slots = set slots k new }) other ≡ ok true
unfolding is_live
stays_live slots k at other here state new live = elim (ℕ_discrete k other.slot) [
  | yes same ↦
      let there : get_elem? slots other.slot ≡ some at =
        subst (λ j. get_elem? slots j ≡ some at) same here in
      ground (arith, live, there, state)
  | no ne ↦ rw (get_elem?-set_ne slots k other.slot new ne) live
]

-- A file that is opened gets a new identity: it is live at once and was neither live nor closed
-- before, and every identity that was live before stays live.
pub open_file-is_live :
    (t t' : FileTable) (driver : ℕ) (id : FileId)
    → open_file t driver ≡ ok (some id, t')
    → (is_live t' id ≡ ok true)
      × (is_live t id ≡ ok false)
      × (is_closed t id ≡ ok false)
      × ((other : FileId) → is_live t other ≡ ok true → is_live t' other ≡ ok true)
unfolding open_file is_live is_closed
open_file-is_live t t' driver id h = elim (Checked-cases (open_from driver 0 t.slots)) [
  | inl (next, e) ↦
      let found : open_from driver 0 t.slots ≡ ok (some id, t'.slots) = ground (arith, e) in
      let (k, at, here, state, name, after) = open_from-eq-some driver 0 t.slots found in
      let slot_at : id.slot ≡ k = ground (arith, name) in
      let new_generation : id.generation ≡ at.generation + 1 = ground (arith, name) in
      let now = get_elem?-set_self t.slots k (anew at) (lt_of_get_elem? t.slots k here) in
      (
        rw (after, slot_at, now, new_generation) (ground arith),
        rw (slot_at, here, new_generation) (ground arith),
        rw (slot_at, here, new_generation) (ground (arith, state)),
        λ other live. rw after (stays_live t.slots k at other here state (anew at) live),
      )
  | inr stuck ↦ ground (arith, stuck)
]
