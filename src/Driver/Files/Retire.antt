-- ===== src/Driver/Files/Retire.antt =====
-- src/driver.rs: a file that is closed while operations are in flight.
use dios.Common.{
  ℕ, zero, suc, ◌≡◌, ◌<◌, Bool, true, false, some, List, [], ◌∷◌, length, get_elem?, set, Checked,
  ok, ◌>>=◌, ◌==◌, arith, refl, get_elem?-set_self, set-set, lt_of_get_elem?,
}
use dios.Ids.{FileId}
use dios.Driver.Files.{
  FileSlot, FileTable, opened, closing, closed, on_complete, close, finish_retire, is_closed,
}

-- The completions of `n` operations of one file, with what each says of a deferred close.
abbrev pub complete_all : ℕ → FileTable → FileId → Checked (List Bool × FileTable)
complete_all zero t id = ok ([], t)
complete_all (suc n) t id =
    on_complete t id >>= λ c. complete_all n c.1 id >>= λ d. ok (c.0 ∷ d.0, d.1)

-- One answer for the close and one for each of `n` completions: only the last says that it is due.
abbrev pub due_last : ℕ → List Bool
due_last zero = true ∷ []
due_last (suc n) = false ∷ due_last n

ends : ℕ → List Bool
ends zero = []
ends (suc n) = (n == 0) ∷ ends n

due_last-ends : (n : ℕ) → ((n == 0) ∷ ends n) ≡ due_last n
unfolding ends
due_last-ends zero = refl
due_last-ends (suc n) = ground (arith, due_last-ends n)

abbrev closing_slot : ℕ → ℕ → FileSlot
closing_slot g n = record { generation = g; state = closing; inflight = n }

on_complete-closing :
    (n : ℕ) (slots : List FileSlot) (id : FileId)
    → id.slot < length slots
    → on_complete (record { slots = set slots id.slot (closing_slot id.generation (suc n)) }) id
      ≡ ok (n == 0, record { slots = set slots id.slot (closing_slot id.generation n) })
unfolding on_complete
on_complete-closing n slots id p = ground (
  arith,
  get_elem?-set_self slots id.slot (closing_slot id.generation (suc n)) p,
  set-set slots id.slot (closing_slot id.generation (suc n)) (closing_slot id.generation n),
)

complete_all-closing :
    (n : ℕ) (slots : List FileSlot) (id : FileId)
    → id.slot < length slots
    → complete_all n (record { slots = set slots id.slot (closing_slot id.generation n) }) id
      ≡ ok (ends n, record { slots = set slots id.slot (closing_slot id.generation 0) })
unfolding ends
complete_all-closing zero slots id p = refl
complete_all-closing (suc n) slots id p =
    rw (on_complete-closing n slots id p, complete_all-closing n slots id p) refl

finish_retire-closing :
    (slots : List FileSlot) (id : FileId)
    → id.slot < length slots
    → (finish_retire (record { slots = set slots id.slot (closing_slot id.generation 0) }) id
        >>= λ r. is_closed r id)
      ≡ ok true
unfolding finish_retire is_closed
finish_retire-closing slots id p =
    let over : FileSlot = record { generation = id.generation; state = closed; inflight = 0 } in
    ground (
      arith,
      get_elem?-set_self slots id.slot (closing_slot id.generation 0) p,
      set-set slots id.slot (closing_slot id.generation 0) over,
      get_elem?-set_self slots id.slot over p,
    )

close-opened :
    (n : ℕ) (t : FileTable) (id : FileId)
    → get_elem? t.slots id.slot
      ≡ some (record { generation = id.generation; state = opened; inflight = n })
    → close t id
      ≡ ok (n == 0, record { slots = set t.slots id.slot (closing_slot id.generation n) })
unfolding close
close-opened n t id e = ground (arith, e)

-- A close, the completions that it waits for, and the retirement: what each asked for, and whether
-- the identity is closed at the end.
abbrev pub close_down : ℕ → FileTable → FileId → Checked (List Bool × Bool)
close_down n t id = do
  begun ← close t id
  drained ← complete_all n begun.1 id
  over ← (finish_retire drained.1 id >>= λ r. is_closed r id)
  ok (begun.0 ∷ drained.0, over)

-- A deferred close ends exactly once. Closing an open file with `n` operations in flight, and then
-- completing each of them, asks for the file to be retired once, at the last of these events (at
-- the close itself where nothing is in flight); the retirement then succeeds and leaves the
-- identity closed.
pub close_down_lem :
    (n : ℕ) (t : FileTable) (id : FileId)
    → get_elem? t.slots id.slot
      ≡ some (record { generation = id.generation; state = opened; inflight = n })
    → close_down n t id ≡ ok (due_last n, true)
close_down_lem n t id e =
    let p = lt_of_get_elem? t.slots id.slot e in
    rw
      (
        close-opened n t id e,
        complete_all-closing n t.slots id p,
        finish_retire-closing t.slots id p,
        due_last-ends n,
      )
      refl
