-- ===== src/Miss/Index.antt =====
-- src/pool/miss.rs: the index of the pending entries mirrors the entries.
use dios.Common.{
  ℕ, suc, ◌≡◌, ◌≢◌, ◌≤◌, ◌<◌, inl, inr, true, false, Option, none, some, length, get_elem?, set,
  Checked, ok, expect, arith, refl, sym, ap, subst, ◌∙◌, Option-cases, ℕ_discrete, lt_of_get_elem?,
  get_elem?-set_self, get_elem?-set_ne,
}
use dios.FileSlots.{MemberSlot, get_value}
use dios.Miss.{MissEntry, PendingMiss, MissTable, is_pending, entry, write_entry}

-- Place `k` of the index holds the record.
abbrev pub Indexes : MissTable → ℕ → PendingMiss → Type 0
Indexes t k miss = get_elem? t.pending k ≡ some (some miss)

-- The record is the pending entry's at place `k`.
pub record IsRecordOf (t : MissTable) (k : ℕ) (miss : PendingMiss) (e : MissEntry) : Type 0 where
  pub at : entry t miss.slot ≡ ok e
  pub waits : is_pending e.outcome ≡ true
  pub place : e.pending_position ≡ k
  pub page : e.page ≡ miss.page
  pub token : e.token ≡ miss.token

pub record IsIndexed (t : MissTable) : Type 0 where
  pub room : t.pending_len ≤ length t.pending
  pub live :
      (k : ℕ)
      → k < t.pending_len
      → (miss : PendingMiss) × Indexes t k miss × (e : MissEntry) × IsRecordOf t k miss e
  pub free : (k : ℕ) → t.pending_len ≤ k → k < length t.pending → get_elem? t.pending k ≡ some none
  pub indexed :
      (i : ℕ) (e : MissEntry)
      → entry t i ≡ ok e
      → is_pending e.outcome ≡ true
      → (e.pending_position < t.pending_len)
        × (miss : PendingMiss) × Indexes t e.pending_position miss
        × (miss.slot ≡ i)
  pub single :
      (i j : ℕ) (e f : MissEntry)
      → entry t i ≡ ok e
      → entry t j ≡ ok f
      → is_pending e.outcome ≡ true
      → is_pending f.outcome ≡ true
      → e.page ≡ f.page
      → i ≡ j

-- A write to an entry: it succeeds, is read back, and leaves the other entries and the index.
pub record Written (t : MissTable) (i : ℕ) (e : MissEntry) (t' : MissTable) : Type 0 where
  pub self : entry t' i ≡ ok e
  pub others : (j : ℕ) → j ≢ i → entry t' j ≡ entry t j
  pub same_index : t'.pending ≡ t.pending
  pub same_len : t'.pending_len ≡ t.pending_len
  pub same_frames : t'.success_frames ≡ t.success_frames

pub slot_of_entry :
    (t : MissTable) (i : ℕ) {e : MissEntry}
    → entry t i ≡ ok e
    → (slot : MemberSlot MissEntry) × (get_elem? t.slots.slots i ≡ some slot)
      × (get_value slot ≡ some e)
unfolding entry
slot_of_entry t i e = elim (Option-cases (get_elem? t.slots.slots i)) [
  | inl outside ↦ ground (arith, outside, e)
  | inr (slot, at) ↦ elim (Option-cases (get_value slot)) [
    | inl vacant ↦ ground (arith, at, vacant, e)
    | inr (f, full) ↦ (slot, at, ground (arith, at, full, e))
  ]
]

shows_written :
    (slot : MemberSlot MissEntry) (e f : MissEntry)
    → get_value slot ≡ some e
    → expect (get_value (record slot { value = some f })) ≡ ok f
unfolding get_value
shows_written slot e f full = ground (arith, full)

pub write_entry-Written :
    (t : MissTable) (i : ℕ) (e f : MissEntry)
    → entry t i ≡ ok e
    → (t' : MissTable) × (write_entry t i f ≡ ok t') × Written t i f t'
unfolding write_entry entry
write_entry-Written t i e f h =
    let (slot, at, full) = slot_of_entry t i h in
    let slot' : MemberSlot MissEntry = record slot { value = some f } in
    let here = get_elem?-set_self t.slots.slots i slot' (lt_of_get_elem? t.slots.slots i at) in
    (
      record t { slots = record t.slots { slots = set t.slots.slots i slot' } },
      rw at refl,
      record {
        self = rw here (shows_written slot e f full);
        others = λ j ne. rw (get_elem?-set_ne t.slots.slots i j slot' (λ same. ne (sym same))) refl;
        same_index = refl;
        same_len = refl;
        same_frames = refl;
      },
    )

abbrev place_in : Checked MissEntry → ℕ
place_in (ok e) = e.pending_position
place_in Checked.panic = 0

-- Two records at different places are of different slots.
pub places_apart :
    (t : MissTable) (a b : ℕ) (e f : MissEntry)
    → entry t a ≡ ok e
    → entry t b ≡ ok f
    → e.pending_position ≢ f.pending_position
    → a ≢ b
places_apart t a b e f h h' ne same =
    let one : ok e ≡ ok f = sym h ∙ subst (λ s. entry t s ≡ ok f) (sym same) h' in
    ne (ap (λ c. place_in c) one)

-- The record at place `last` has taken the place of slot `i`'s, and place `last` is free.
pub record IsSwapped (t : MissTable) (i : ℕ) (e e' : MissEntry) (last : ℕ) (m : PendingMiss)
    (em : MissEntry) (t' : MissTable) : Type 0 where
  pub tail : Indexes t last m
  pub tail_record : IsRecordOf t last m em
  pub was_last : t.pending_len ≡ suc last
  pub self : entry t' i ≡ ok e'
  pub others : (j : ℕ) → j ≢ i → j ≢ m.slot → entry t' j ≡ entry t j
  pub moved :
      m.slot ≢ i → entry t' m.slot ≡ ok (record em { pending_position = e.pending_position })
  pub kept :
      (k : ℕ) → k < last → k ≢ e.pending_position → get_elem? t'.pending k ≡ get_elem? t.pending k
  pub filled : e.pending_position < last → Indexes t' e.pending_position m
  pub cleared : (k : ℕ) → last ≤ k → k < length t'.pending → get_elem? t'.pending k ≡ some none
  pub len : t'.pending_len ≡ last
  pub room : last ≤ length t'.pending

module _ (t : MissTable) (i : ℕ) (e e' : MissEntry) (v : IsIndexed t) (h : entry t i ≡ ok e)
    (waits : is_pending e.outcome ≡ true) (ended : is_pending e'.outcome ≡ false) (last : ℕ)
    (m : PendingMiss) (em : MissEntry) (t' : MissTable) (w : IsSwapped t i e e' last m em t') where
  -- Two records at one place are the same.
  one_record :
      (a b : ℕ) (k l : PendingMiss) → Indexes t a k → Indexes t b l → a ≡ b → k.slot ≡ l.slot
  one_record a b k l at at' same =
      ap record_slot (sym at ∙ subst (λ n. Indexes t n l) (sym same) at')
    where
      record_slot : Option (Option PendingMiss) → ℕ
      record_slot none = 0
      record_slot (some none) = 0
      record_slot (some (some r)) = r.slot

  swapped_live :
      (k : ℕ)
      → k < last
      → (miss : PendingMiss) × Indexes t' k miss × (f : MissEntry) × IsRecordOf t' k miss f
  swapped_live k below = elim (ℕ_discrete k e.pending_position) [
    | yes mine ↦
        let apart : m.slot ≢ i =
          places_apart t m.slot i em e w.tail_record.at h (omega (arith, w.tail_record.place)) in
        (
          m,
          subst (λ n. Indexes t' n m) (sym mine) (w.filled (omega arith)),
          record em { pending_position = e.pending_position },
          record {
            at = w.moved apart;
            waits = w.tail_record.waits;
            place = sym mine;
            page = w.tail_record.page;
            token = w.tail_record.token;
          },
        )
    | no ne ↦
        let (miss, at, f, r) = v.live k (omega (arith, w.was_last)) in
        let not_mine = places_apart t miss.slot i f e r.at h (omega (arith, r.place)) in
        let not_moved =
          places_apart t miss.slot m.slot f em r.at w.tail_record.at
            (omega (arith, r.place, w.tail_record.place)) in
        (
          miss,
          w.kept k below ne ∙ at,
          f,
          record {
            at = w.others miss.slot not_mine not_moved ∙ r.at;
            waits = r.waits;
            place = r.place;
            page = r.page;
            token = r.token;
          },
        )
  ]

  -- A pending entry of the new table was one of the old, with the same page.
  data Origin (j : ℕ) (f : MissEntry) : Type 0 where
    untouched : j ≢ i → j ≢ m.slot → entry t j ≡ ok f → Origin j f
    moved_here :
        j ≢ i → j ≡ m.slot → f ≡ record em { pending_position = e.pending_position } → Origin j f

  origin : (j : ℕ) (f : MissEntry) → entry t' j ≡ ok f → is_pending f.outcome ≡ true → Origin j f
  origin j f at wait = elim (ℕ_discrete j i) [
    | yes mine ↦
        let at_i = subst (λ s. entry t' s ≡ ok f) mine at in
        absurd (ground (arith, at_i, w.self, ended, wait))
    | no ne ↦ elim (ℕ_discrete j m.slot) [
      | no apart ↦ untouched ne apart (sym (w.others j ne apart) ∙ at)
      | yes same ↦
          let there = w.moved (λ on_i. ne (same ∙ on_i)) in
          moved_here ne same (ok_value (sym (subst (λ s. entry t' s ≡ ok f) same at) ∙ there))
    ]
  ]
    where
      ok_value : {a b : MissEntry} → ok a ≡ ok b → a ≡ b
      ok_value {a} p = ap (value_or a) p
        where
          value_or : MissEntry → Checked MissEntry → MissEntry
          value_or d (ok c) = c
          value_or d Checked.panic = d

  swapped_indexed :
      (j : ℕ) (f : MissEntry)
      → Origin j f
      → is_pending f.outcome ≡ true
      → (f.pending_position < last)
        × (miss : PendingMiss) × Indexes t' f.pending_position miss
        × (miss.slot ≡ j)
  swapped_indexed j f (untouched ne apart at) wait =
      let (inside, miss, there, owner) = v.indexed j f at wait in
      let (_, mine, here, owner_i) = v.indexed i e h waits in
      let not_mine : f.pending_position ≢ e.pending_position = λ same. ne (
        sym owner
        ∙ one_record f.pending_position e.pending_position miss mine there here same
        ∙ owner_i) in
      let not_last : f.pending_position ≢ last =
        λ same. apart (sym owner ∙ one_record f.pending_position last miss m there w.tail same) in
      let below : f.pending_position < last = omega (arith, w.was_last) in
      (below, miss, w.kept f.pending_position below not_mine ∙ there, owner)
  swapped_indexed j f (moved_here ne same is) wait =
      let (inside, mine, here, owner_i) = v.indexed i e h waits in
      let not_last : e.pending_position ≢ last = λ at.
        ne (same ∙ one_record last e.pending_position m mine w.tail here (sym at) ∙ owner_i) in
      let below : e.pending_position < last = omega (arith, w.was_last) in
      let place : f.pending_position ≡ e.pending_position = ap (λ g. g.pending_position) is in
      (omega arith, m, subst (λ n. Indexes t' n m) (sym place) (w.filled below), sym same)

  -- The entry of the old table, with the same page.
  old_entry :
      (j : ℕ) (f : MissEntry)
      → Origin j f
      → is_pending f.outcome ≡ true
      → (g : MissEntry) × (entry t j ≡ ok g) × (is_pending g.outcome ≡ true) × (g.page ≡ f.page)
  old_entry j f (untouched _ _ at) wait = (f, at, wait, refl)
  old_entry j f (moved_here _ same is) wait = (
    em,
    subst (λ s. entry t s ≡ ok em) (sym same) w.tail_record.at,
    w.tail_record.waits,
    sym (ap (λ g. g.page) is),
  )

  pub swapped-IsIndexed : IsIndexed t'
  swapped-IsIndexed = record {
    room = omega (arith, w.len, w.room);
    live = λ k below. swapped_live k (omega (arith, w.len));
    free = λ k above inside. w.cleared k (omega (arith, w.len)) inside;
    indexed = λ j f at wait.
        let (below, miss, there, owner) = swapped_indexed j f (origin j f at wait) wait in
        (omega (arith, w.len), miss, there, owner);
    single = λ j k f g at at' wait wait' same.
        let (f₀, old, old_wait, page) = old_entry j f (origin j f at wait) wait in
        let (g₀, old', old_wait', page') = old_entry k g (origin k g at' wait') wait' in
        v.single j k f₀ g₀ old old' old_wait old_wait' (page ∙ same ∙ sym page');
  }
