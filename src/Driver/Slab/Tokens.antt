-- ===== src/Driver/Slab/Tokens.antt =====
-- src/driver.rs: a token of the slab after its operation is over.
use dios.Common.{
  ℕ, ◌+◌, ◌*◌, ◌%◌, ◌^◌, ◌≡◌, ◌≤◌, ◌<◌, ◌⊎◌, inl, inr, false, none, some, List, get_elem?, set, ok,
  arith, refl, u32_max, get_elem?-set_self, get_elem?-set_ne, lt_of_get_elem?, ℕ_discrete, ◌∙◌, sym,
  subst, ap,
}
use dios.Driver.Slab.{SlabSlot, CompletionSlab, new_token, token_slot, contains, reclaim}
use dios.Driver.Slab.Effects.{Step, Steps, fill-eq-ok, poke-eq-ok, reclaim-eq-ok, reserve-eq-some}

module _ {T : Type 0} where
  -- The generation `g` of a slot is over: the slot is past it, or at it and empty.
  abbrev EntryOver : ℕ → SlabSlot T → Type 0
  EntryOver g e = (g < e.generation) ⊎ ((g ≡ e.generation) × (e.payload ≡ none))

  abbrev Over : ℕ → ℕ → CompletionSlab T → Type 0
  Over slot g s = (e : SlabSlot T) × (get_elem? s.slots slot ≡ some e) × EntryOver g e

  -- A write to one slot whose entry keeps what is over.
  set-Over :
      (slot k g : ℕ) (slots : List (SlabSlot T)) (e at new : SlabSlot T)
      → get_elem? slots k ≡ some at
      → get_elem? slots slot ≡ some e
      → EntryOver g e
      → (EntryOver g at → EntryOver g new)
      → (e' : SlabSlot T) × (get_elem? (set slots k new) slot ≡ some e') × EntryOver g e'
  set-Over slot k g slots e at new found here over keeps = elim (ℕ_discrete k slot) [
    | yes same ↦ (
      new,
      subst (λ j. get_elem? (set slots k new) j ≡ some new) same
          (get_elem?-set_self slots k new (lt_of_get_elem? slots k found)),
      keeps (subst (EntryOver g) (cc (sym found, ap (get_elem? slots) same, here)) over),
    )
    | no ne ↦ (e, get_elem?-set_ne slots k slot new ne ∙ here, over)
  ]

  Step-Over : (slot g : ℕ) {s s' : CompletionSlab T} → Step s s' → Over slot g s → Over slot g s'
  Step-Over slot g {s} (Step.reserves k e) (at, found, o) =
      let (rest, _, after) = reserve-eq-some s e in (at, rw after found, o)
  Step-Over slot g {s} (Step.fills k payload t h) (e, here, o) =
      let (at, found, empty, _, _, after) = fill-eq-ok s k payload h in
      rw after (
        set-Over slot k g s.slots e at _ found here o
          (λ over. inl (elim over [ inl lt ↦ omega arith | inr (eq, _) ↦ omega arith ])))
  Step-Over slot g {s} (Step.pokes k change h) (e, here, o) =
      let (at, p, found, full, after) = poke-eq-ok s k change h in
      rw after (
        set-Over slot k g s.slots e at _ found here o
          (λ over. elim over [ inl lt ↦ inl lt | inr (_, gone) ↦ absurd (cc (full, gone)) ]))
  Step-Over slot g {s} (Step.reclaims k out h) (e, here, o) =
      let (at, found, full, _, after) = reclaim-eq-ok s k h in
      rw after (
        set-Over slot k g s.slots e at _ found here o
          (λ over. elim over [ inl lt ↦ inl lt | inr (eq, _) ↦ inr (eq, refl) ]))

  Steps-Over : (slot g : ℕ) {s s' : CompletionSlab T} → Steps s s' → Over slot g s → Over slot g s'
  Steps-Over slot g Steps.done o = o
  Steps-Over slot g (Steps.then_step before last) o =
      Step-Over slot g last (Steps-Over slot g before o)

  contains-Over :
      (s : CompletionSlab T) (slot g : ℕ)
      → slot ≤ u32_max
      → Over slot g s
      → contains s (new_token slot g) ≡ ok false
  unfolding contains new_token token_slot
  contains-Over s slot g small (e, at, o) =
      let low : (g * 2 ^ 32 + slot) % 2 ^ 32 ≡ slot = omega arith in
      rw (low, at) (elim o [ inl lt ↦ ground arith | inr (eq, gone) ↦ ground (arith, gone) ])

  -- A token dies with its operation. Once a slot is reclaimed, the token that the reclaim gave is
  -- in no slab that any further operations lead to, however often the slot is filled again.
  pub contains-reclaim :
      (s s' s'' : CompletionSlab T) (slot : ℕ) (out : ℕ × T)
      → slot ≤ u32_max
      → reclaim s slot ≡ ok (out, s')
      → Steps s' s''
      → contains s'' out.0 ≡ ok false
  contains-reclaim s s' s'' slot out small h later =
      let (at, found, full, minted, after) = reclaim-eq-ok s slot h in
      rw minted (
        contains-Over s'' slot at.generation small (
          Steps-Over slot at.generation later (
            rw after (
              _,
              get_elem?-set_self s.slots slot _ (lt_of_get_elem? s.slots slot found),
              inr (refl, refl),
            ))))
