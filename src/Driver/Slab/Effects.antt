-- ===== src/Driver/Slab/Effects.antt =====
-- src/driver.rs: what each operation on the slab does where it succeeds.
use dios.Common.{
  ℕ, ◌+◌, ◌≡◌, ◌<◌, inl, inr, none, some, List, ◌∷◌, get_elem?, set, ok, arith, u32_max,
  Option-cases, List-cases,
}
use dios.Driver.Slab.{SlabSlot, CompletionSlab, new_token, reserve, fill, poke, reclaim}

module _ {T : Type 0} where
  -- One operation on the slab.
  pub data Step : CompletionSlab T → CompletionSlab T → Type 0 where
    reserves :
        {s : CompletionSlab T} (slot : ℕ) {s' : CompletionSlab T}
        → reserve s ≡ (some slot, s')
        → Step s s'
    fills :
        {s : CompletionSlab T} (slot : ℕ) (payload : T) (t : ℕ) {s' : CompletionSlab T}
        → fill s slot payload ≡ ok (t, s')
        → Step s s'
    pokes :
        {s : CompletionSlab T} (slot : ℕ) (change : T → T) {s' : CompletionSlab T}
        → poke s slot change ≡ ok s'
        → Step s s'
    reclaims :
        {s : CompletionSlab T} (slot : ℕ) (out : ℕ × T) {s' : CompletionSlab T}
        → reclaim s slot ≡ ok (out, s')
        → Step s s'

  pub data Steps : CompletionSlab T → CompletionSlab T → Type 0 where
    done : {s : CompletionSlab T} → Steps s s
    then_step : {s s' s'' : CompletionSlab T} → Steps s s' → Step s' s'' → Steps s s''

  -- What each operation does where it succeeds: the entry it found, and the slab it leaves.
  pub fill-eq-ok :
      (s : CompletionSlab T) (slot : ℕ) (payload : T) {t : ℕ} {s' : CompletionSlab T}
      → fill s slot payload ≡ ok (t, s')
      → (e : SlabSlot T) × (get_elem? s.slots slot ≡ some e)
        × (e.payload ≡ none)
        × (e.generation < u32_max)
        × (t ≡ new_token slot (e.generation + 1))
        × (s' ≡ record s {
          slots =
              set s.slots slot (record { generation = e.generation + 1; payload = some payload });
        })
  unfolding fill
  fill-eq-ok s slot payload h = elim (Option-cases (get_elem? s.slots slot)) [
    | inl n ↦ ground (arith, n)
    | inr (e, at) ↦ elim (Option-cases e.payload) [
      | inl empty ↦ (
        e,
        at,
        empty,
        ground (arith, at, empty),
        ground (arith, at, empty),
        ground (arith, at, empty),
      )
      | inr (p, full) ↦ ground (arith, at, full)
    ]
  ]

  pub reclaim-eq-ok :
      (s : CompletionSlab T) (slot : ℕ) {out : ℕ × T} {s' : CompletionSlab T}
      → reclaim s slot ≡ ok (out, s')
      → (e : SlabSlot T) × (get_elem? s.slots slot ≡ some e)
        × (e.payload ≡ some out.1)
        × (out.0 ≡ new_token slot e.generation)
        × (s' ≡ record s {
          slots = set s.slots slot (record { generation = e.generation; payload = none });
          free = slot ∷ s.free;
        })
  unfolding reclaim
  reclaim-eq-ok s slot h = elim (Option-cases (get_elem? s.slots slot)) [
    | inl n ↦ ground (arith, n)
    | inr (e, at) ↦ elim (Option-cases e.payload) [
      | inl empty ↦ ground (arith, at, empty)
      | inr (p, full) ↦
          (e, at, ground (arith, at, full), ground (arith, at, full), ground (arith, at, full))
    ]
  ]

  pub poke-eq-ok :
      (s : CompletionSlab T) (slot : ℕ) (change : T → T) {s' : CompletionSlab T}
      → poke s slot change ≡ ok s'
      → (e : SlabSlot T) × (p : T) × (get_elem? s.slots slot ≡ some e)
        × (e.payload ≡ some p)
        × (s' ≡ record s {
          slots =
              set s.slots slot (record { generation = e.generation; payload = some (change p) });
        })
  unfolding poke
  poke-eq-ok s slot change h = elim (Option-cases (get_elem? s.slots slot)) [
    | inl n ↦ ground (arith, n)
    | inr (e, at) ↦ elim (Option-cases e.payload) [
      | inl empty ↦ ground (arith, at, empty)
      | inr (p, full) ↦ (e, p, at, full, ground (arith, at, full))
    ]
  ]

  pub reserve-eq-some :
      (s : CompletionSlab T) {slot : ℕ} {s' : CompletionSlab T}
      → reserve s ≡ (some slot, s')
      → (rest : List ℕ) × (s.free ≡ slot ∷ rest) × (s' ≡ record s { free = rest })
  unfolding reserve
  reserve-eq-some s h = elim (List-cases s.free) [
    | inl n ↦ ground (arith, n)
    | inr (x, rest, e) ↦ (rest, ground (arith, e), ground (arith, e))
  ]
