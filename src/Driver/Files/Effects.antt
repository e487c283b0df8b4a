-- ===== src/Driver/Files/Effects.antt =====
-- src/driver.rs: what each operation on the file table does to the slots where it succeeds.
use dios.Common.{
  ℕ, suc, ◌+◌, ◌-◌, ◌≡◌, ◌⊎◌, inl, inr, Bool, true, Option, some, List, [], ◌∷◌, get_elem?, set, ok,
  arith, refl, u32_max, Option-cases, Bool-cases, Checked-cases, subst, ap, ◌||◌, ltb,
}
use dios.Ids.{FileId}
use dios.Driver.Files.{
  FileSlot, FileTable, free, opened, closing, closed, is_free, is_opened, is_closing,
  is_closed_state, FileState, open_from, open_file, on_submit, on_complete, finish_retire, close,
  abort_open,
}

-- One operation on the table.
pub data Step : FileTable → FileTable → Type 0 where
  opens :
      {t : FileTable} (driver : ℕ) (id : Option FileId) {t' : FileTable}
      → open_file t driver ≡ ok (id, t')
      → Step t t'
  submits : {t : FileTable} (id : FileId) {t' : FileTable} → on_submit t id ≡ ok t' → Step t t'
  completes :
      {t : FileTable} (id : FileId) (due : Bool) {t' : FileTable}
      → on_complete t id ≡ ok (due, t')
      → Step t t'
  retires : {t : FileTable} (id : FileId) {t' : FileTable} → finish_retire t id ≡ ok t' → Step t t'
  closes :
      {t : FileTable} (id : FileId) (due : Bool) {t' : FileTable}
      → close t id ≡ ok (due, t')
      → Step t t'
  aborts : {t : FileTable} (id : FileId) {t' : FileTable} → abort_open t id ≡ ok t' → Step t t'

pub data Steps : FileTable → FileTable → Type 0 where
  done : {t : FileTable} → Steps t t
  then_step : {t t' t'' : FileTable} → Steps t t' → Step t' t'' → Steps t t''

-- How one slot may change: opened anew, or at the same generation along the states of a file.
pub data Change : FileSlot → FileSlot → Type 0 where
  reopened :
      (s : FileSlot)
      → ((s.state ≡ free) ⊎ (s.state ≡ closed))
      → Change s (record { generation = s.generation + 1; state = opened; inflight = 0 })
  counted : (s : FileSlot) (n : ℕ) → Change s (record s { inflight = n })
  aborted :
      (s : FileSlot) → s.state ≡ opened → s.inflight ≡ 0 → Change s (record s { state = free })
  shut : (s : FileSlot) → s.state ≡ opened → Change s (record s { state = closing })
  retired :
      (s : FileSlot) → s.state ≡ closing → s.inflight ≡ 0 → Change s (record s { state = closed })

-- Every operation changes one slot, or none.
pub data Changed : List FileSlot → List FileSlot → Type 0 where
  unchanged : {slots slots' : List FileSlot} → slots' ≡ slots → Changed slots slots'
  changed :
      {slots slots' : List FileSlot} (k : ℕ) (s s' : FileSlot)
      → get_elem? slots k ≡ some s
      → Change s s'
      → slots' ≡ set slots k s'
      → Changed slots slots'

pub vacant_state :
    (f : FileState) → (is_free f || is_closed_state f) ≡ true → (f ≡ free) ⊎ (f ≡ closed)
vacant_state free e = inl refl
vacant_state opened e = cc
vacant_state closing e = cc
vacant_state closed e = inr refl

pub opened_state : (f : FileState) → is_opened f ≡ true → f ≡ opened
opened_state free e = cc
opened_state opened e = refl
opened_state closing e = cc
opened_state closed e = cc

pub closing_state : (f : FileState) → is_closing f ≡ true → f ≡ closing
closing_state free e = cc
closing_state opened e = cc
closing_state closing e = refl
closing_state closed e = cc

Changed-cons :
    (s : FileSlot) (slots slots' : List FileSlot)
    → Changed slots slots'
    → Changed (s ∷ slots) (s ∷ slots')
Changed-cons s slots slots' (unchanged e) = unchanged (ap (λ xs. s ∷ xs) e)
Changed-cons s slots slots' (changed k a b at c e) = changed (suc k) a b at c (ap (λ xs. s ∷ xs) e)

open_from-Changed :
    (driver index : ℕ) (slots : List FileSlot) {r : Option FileId} {slots' : List FileSlot}
    → open_from driver index slots ≡ ok (r, slots')
    → Changed slots slots'
unfolding open_from
open_from-Changed driver index [] h = unchanged (ground arith)
open_from-Changed driver index (s ∷ slots) {r} {slots'} h =
    elim (Bool-cases (is_free s.state || is_closed_state s.state)) [
      | inl vacant ↦ elim (Bool-cases (ltb s.generation u32_max)) [
        | inl room ↦
            changed 0 s _ refl (reopened s (vacant_state s.state vacant))
              (ground (arith, vacant, room))
        | inr full ↦ ground (arith, vacant, full)
      ]
      | inr taken ↦ elim (Checked-cases (open_from driver (suc index) slots)) [
        | inl (next, e) ↦
            subst (Changed (s ∷ slots)) (ground (arith, taken, e))
              (Changed-cons s slots next.1 (open_from-Changed driver (suc index) slots e))
        | inr stuck ↦ ground (arith, taken, stuck)
      ]
    ]

open_file-Changed :
    (t : FileTable) (driver : ℕ) {id : Option FileId} {t' : FileTable}
    → open_file t driver ≡ ok (id, t')
    → Changed t.slots t'.slots
unfolding open_file
open_file-Changed t driver {t' = t'} h = elim (Checked-cases (open_from driver 0 t.slots)) [
  | inl (next, e) ↦
      subst (Changed t.slots) (ground (arith, e)) (open_from-Changed driver 0 t.slots e)
  | inr stuck ↦ ground (arith, stuck)
]

on_submit-Changed :
    (t : FileTable) (id : FileId) {t' : FileTable}
    → on_submit t id ≡ ok t'
    → Changed t.slots t'.slots
unfolding on_submit
on_submit-Changed t id h = elim (Option-cases (get_elem? t.slots id.slot)) [
  | inl n ↦ ground (arith, n)
  | inr (s, at) ↦ changed id.slot s _ at (counted s (s.inflight + 1)) (ground (arith, at))
]

on_complete-Changed :
    (t : FileTable) (id : FileId) {due : Bool} {t' : FileTable}
    → on_complete t id ≡ ok (due, t')
    → Changed t.slots t'.slots
unfolding on_complete
on_complete-Changed t id h = elim (Option-cases (get_elem? t.slots id.slot)) [
  | inl n ↦ ground (arith, n)
  | inr (s, at) ↦ changed id.slot s _ at (counted s (s.inflight - 1)) (ground (arith, at))
]

finish_retire-Changed :
    (t : FileTable) (id : FileId) {t' : FileTable}
    → finish_retire t id ≡ ok t'
    → Changed t.slots t'.slots
unfolding finish_retire
finish_retire-Changed t id h = elim (Option-cases (get_elem? t.slots id.slot)) [
  | inl n ↦ ground (arith, n)
  | inr (s, at) ↦
      changed id.slot s _ at
        (retired s (closing_state s.state (ground (arith, at))) (ground (arith, at)))
        (ground (arith, at))
]

close-Changed :
    (t : FileTable) (id : FileId) {due : Bool} {t' : FileTable}
    → close t id ≡ ok (due, t')
    → Changed t.slots t'.slots
unfolding close
close-Changed t id h = elim (Option-cases (get_elem? t.slots id.slot)) [
  | inl n ↦ ground (arith, n)
  | inr (s, at) ↦
      changed id.slot s _ at (shut s (opened_state s.state (ground (arith, at))))
        (ground (arith, at))
]

abort_open-Changed :
    (t : FileTable) (id : FileId) {t' : FileTable}
    → abort_open t id ≡ ok t'
    → Changed t.slots t'.slots
unfolding abort_open
abort_open-Changed t id h = elim (Option-cases (get_elem? t.slots id.slot)) [
  | inl n ↦ ground (arith, n)
  | inr (s, at) ↦
      changed id.slot s _ at
        (aborted s (opened_state s.state (ground (arith, at))) (ground (arith, at)))
        (ground (arith, at))
]

pub Step-Changed : {t t' : FileTable} → Step t t' → Changed t.slots t'.slots
Step-Changed {t} (Step.opens driver id h) = open_file-Changed t driver h
Step-Changed {t} (Step.submits id h) = on_submit-Changed t id h
Step-Changed {t} (Step.completes id due h) = on_complete-Changed t id h
Step-Changed {t} (Step.retires id h) = finish_retire-Changed t id h
Step-Changed {t} (Step.closes id due h) = close-Changed t id h
Step-Changed {t} (Step.aborts id h) = abort_open-Changed t id h
