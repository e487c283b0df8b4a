-- ===== src/FileSlots/Links.antt =====
-- src/pool/file_slots.rs: the members of a file after an insertion.
use dios.Common.{
  ℕ, zero, suc, ◌+◌, ◌≡◌, ◌≢◌, some, List, ◌∷◌, get_elem?, set, ok, arith, refl, get_elem?-set_self,
  get_elem?-set_ne, lt_of_get_elem?, ap, ◌∙◌, sym, ℕ_discrete, if◌then◌else◌, ◌==◌, Option-cases,
  Checked-cases, inl, inr, subst,
}
use dios.FileSlots.{MemberSlot, FileSlots, get_value, insert, for_file_from, link_head}

get_value-same :
    {T : Type 0} (slot slot' : MemberSlot T)
    → slot'.next ≡ slot.next
    → slot'.value ≡ slot.value
    → get_value slot' ≡ get_value slot
unfolding get_value
get_value-same slot slot' n v = ground (arith, n, v)

module _ {T : Type 0} (file_slot : T → ℕ) where
  -- Two arrays of slots that show the same occupied slots to a traversal.
  abbrev Shows : FileSlots T → FileSlots T → Type 0
  Shows s s' =
      (i : ℕ) (slot : MemberSlot T) (v : T)
      → get_elem? s.slots i ≡ some slot
      → get_value slot ≡ some v
      → (slot' : MemberSlot T) × (get_elem? s'.slots i ≡ some slot')
        × (slot'.next ≡ slot.next)
        × (slot'.value ≡ slot.value)

  for_file_from-Shows :
      (n : ℕ) (s s' : FileSlots T) (owner cursor : ℕ) {members : List (ℕ × T)}
      → Shows s s'
      → for_file_from file_slot n s owner cursor ≡ ok members
      → for_file_from file_slot n s' owner cursor ≡ ok members
  unfolding for_file_from
  for_file_from-Shows n s s' owner zero shows e = ground arith
  for_file_from-Shows zero s s' owner (suc index) shows e = ground arith
  for_file_from-Shows (suc n) s s' owner (suc index) shows e =
      elim (Option-cases (get_elem? s.slots index)) [
        | inl outside ↦ ground (arith, outside)
        | inr (slot, at) ↦ elim (Option-cases (get_value slot)) [
          | inl vacant ↦ ground (arith, at, vacant)
          | inr (v, full) ↦
              let (slot', at', next, value) = shows index slot v at full in
              let cursor = if slot.next == suc index then 0 else slot.next in
              elim (Checked-cases (for_file_from file_slot n s owner cursor)) [
                | inl (rest, r) ↦
                    let r' = for_file_from-Shows n s s' owner cursor shows r in
                    let full' = get_value-same slot slot' next value ∙ full in
                    ground (arith, at, at', full, full', next, r, r')
                | inr stuck ↦ ground (arith, at, full, stuck)
              ]
        ]
      ]

  abbrev inserted : ℕ → ℕ → T → MemberSlot T
  inserted index old value = record {
    previous = index + 1;
    next = if old == 0 then index + 1 else old;
    value = some value;
  }

  insert-eq-ok :
      (s : FileSlots T) (index : ℕ) (value : T) {s' : FileSlots T}
      → insert file_slot s index value ≡ ok s'
      → (slot : MemberSlot T) × (old : ℕ) × (get_elem? s.slots index ≡ some slot)
        × (slot.next ≡ 0)
        × (get_elem? s.heads (file_slot value) ≡ some old)
        × (link_head (set s.slots index (inserted index old value)) old (index + 1) ≡ ok s'.slots)
        × (s'.heads ≡ set s.heads (file_slot value) (index + 1))
  unfolding insert
  insert-eq-ok s index value h = elim (Option-cases (get_elem? s.slots index)) [
    | inl outside ↦ ground (arith, outside)
    | inr (slot, at) ↦ elim (Option-cases (get_elem? s.heads (file_slot value))) [
      | inl no_file ↦ ground (arith, at, no_file)
      | inr (old, head) ↦
          elim (Checked-cases
            (link_head (set s.slots index (inserted index old value)) old (index + 1))) [
              | inl (linked, l) ↦ (
                slot,
                old,
                at,
                ground (arith, at, head),
                head,
                ground (arith, at, head, l),
                ground (arith, at, head, l),
              )
              | inr stuck ↦ ground (arith, at, head, stuck)
            ]
    ]
  ]

  -- Linking the new head changes no slot's value and no slot's next link.
  link_head-keeps :
      (slots : List (MemberSlot T)) (old link : ℕ) {linked : List (MemberSlot T)}
      → link_head slots old link ≡ ok linked
      → (i : ℕ) (slot : MemberSlot T) → get_elem? slots i ≡ some slot
      → (slot' : MemberSlot T) × (get_elem? linked i ≡ some slot')
        × (slot'.next ≡ slot.next)
        × (slot'.value ≡ slot.value)
  link_head-keeps slots zero link h i slot at = (slot, ground (arith, at), refl, refl)
  link_head-keeps slots (suc k) link {linked} h i slot at =
      elim (Option-cases (get_elem? slots k)) [
        | inl outside ↦ ground (arith, outside)
        | inr (head, there) ↦
            let linked_is : linked ≡ set slots k (record head { previous = link }) =
              ground (arith, there) in
            elim (ℕ_discrete k i) [
              | yes same ↦
                  let head_is : head ≡ slot = ground (arith, there, at, same) in
                  (
                    record head { previous = link },
                    rw (linked_is, sym same)
                        (get_elem?-set_self slots k (record head { previous = link })
                          (lt_of_get_elem? slots k there)),
                    ap (λ m. m.next) head_is,
                    ap (λ m. m.value) head_is,
                  )
              | no ne ↦ (
                slot,
                rw linked_is (get_elem?-set_ne slots k i (record head { previous = link }) ne ∙ at),
                refl,
                refl,
              )
            ]
      ]

  insert-Shows :
      (s : FileSlots T) (index : ℕ) (value : T) {s' : FileSlots T}
      → insert file_slot s index value ≡ ok s'
      → Shows s s'
  unfolding get_value
  insert-Shows s index value {s'} h i slot v at full =
      let (vacant, old, here, none_next, _, linked, _) = insert-eq-ok s index value h in
      let ne : index ≢ i = λ same. ground (arith, here, at, same, none_next, full) in
      link_head-keeps (set s.slots index (inserted index old value)) old (index + 1) linked i slot
        (get_elem?-set_ne s.slots index i (inserted index old value) ne ∙ at)

  -- A traversal does not start at a vacant slot.
  starts_occupied :
      (n : ℕ) (s : FileSlots T) (owner index : ℕ) (slot : MemberSlot T) {members : List (ℕ × T)}
      → get_elem? s.slots index ≡ some slot
      → slot.next ≡ 0
      → for_file_from file_slot n s owner (suc index) ≡ ok members
      → ⊥
  unfolding for_file_from get_value
  starts_occupied zero s owner index slot at none_next e = ground arith
  starts_occupied (suc n) s owner index slot at none_next e = ground (arith, at, none_next)

  occupied_shows :
      (slot : MemberSlot T) (k : ℕ) (value : T)
      → slot.next ≡ suc k
      → slot.value ≡ some value
      → get_value slot ≡ some value
  unfolding get_value
  occupied_shows slot k value n v = ground (arith, n, v)

  head_first :
      (n : ℕ) (s : FileSlots T) (index : ℕ) (value : T) (old : ℕ) (new : MemberSlot T)
      → {members : List (ℕ × T)} → get_elem? s.slots index ≡ some new
      → new.next ≡ (if old == 0 then index + 1 else old)
      → new.value ≡ some value
      → old ≢ suc index
      → for_file_from file_slot n s (file_slot value) old ≡ ok members
      → for_file_from file_slot (suc n) s (file_slot value) (suc index)
        ≡ ok ((index, value) ∷ members)
  unfolding for_file_from get_value
  head_first n s index value zero new at next v ne rest =
      let self : new.next ≡ suc index = ground (arith, next) in ground (arith, at, self, v, rest)
  head_first n s index value (suc old) new at next v ne rest =
      let link : new.next ≡ suc old = ground (arith, next) in
      let shown = occupied_shows new old value link v in
      let cursor : (if new.next == suc index then 0 else new.next) ≡ suc old =
        rw link (ground (arith, ne)) in
      rw (at, shown, cursor, rest) (ground (arith))

  -- An insertion puts its slot at the head of its file. Whatever members a traversal of the file gave
  -- before, afterwards it gives the new one and then the same, in one step more.
  pub for_file_from-insert :
      (n : ℕ) (s s' : FileSlots T) (index : ℕ) (value : T) (old : ℕ) (members : List (ℕ × T))
      → insert file_slot s index value ≡ ok s'
      → get_elem? s.heads (file_slot value) ≡ some old
      → for_file_from file_slot n s (file_slot value) old ≡ ok members
      → (get_elem? s'.heads (file_slot value) ≡ some (suc index))
        × (for_file_from file_slot (suc n) s' (file_slot value) (suc index)
            ≡ ok ((index, value) ∷ members))
  for_file_from-insert n s s' index value old members h head e =
      let (vacant, old2, here, none_next, head2, linked, heads) = insert-eq-ok s index value h in
      let same_old : old2 ≡ old = ground (arith, head, head2) in
      let (new, at, next, v) =
        link_head-keeps (set s.slots index (inserted index old2 value)) old2 (index + 1) linked
          index (inserted index old2 value)
          (get_elem?-set_self s.slots index (inserted index old2 value)
            (lt_of_get_elem? s.slots index here)) in
      let rest =
        for_file_from-Shows n s s' (file_slot value) old (insert-Shows s index value h) e in
      let ne : old ≢ suc index = λ same.
        starts_occupied n s (file_slot value) index vacant here none_next
          (subst (λ c. for_file_from file_slot n s (file_slot value) c ≡ ok members) same e) in
      (
        rw heads (
            get_elem?-set_self s.heads (file_slot value) (index + 1)
              (lt_of_get_elem? s.heads (file_slot value) head)
            ∙ ap some (omega arith)),
        head_first n s' index value old new at
            (next ∙ ap (λ o. if o == 0 then index + 1 else o) same_old) v ne rest,
      )
