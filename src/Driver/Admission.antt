-- ===== src/Driver/Admission.antt =====
-- src/driver.rs: the state under the submit mutex, the admission of an operation and its commit, and
-- the backlog of completions. `T` is the slab's entry and `C` a completion; what binds a token to a
-- vectored read's entry, and where the backend places an operation in its ready order, are
-- arguments. Recording for the benches is left out.
pub mod Capacity
use dios.Common.{
  ℕ, zero, suc, ◌+◌, Bool, true, false, if◌then◌else◌, ◌==◌, leb, ltb, Option, none, some, List, [],
  ◌∷◌, ◌++◌, length, take, drop, Checked, ok, assert, expect, checked_add, u32_max, ◌>>=◌, ◌>>◌,
}
use dios.Ids.{FileId}
use dios.Driver.Slab.{CompletionSlab, reserve, fill, poke}
use dios.Driver.Files.{
  FileTable, is_live, total_inflight, on_submit, is_closed, open_file, abort_open,
}

pub record Shared (T C : Type 0) : Type 0 where
  pub slab : CompletionSlab T
  pub files : FileTable
  pub ready : List ℕ
  pub completion_backlog : List C
  pub deferred : List C

-- `Result<u32, SubmitError>` of an admission.
pub data Admitted : Type 0 where
  reserved : (slot : ℕ) → Admitted
  refused_full refused_stale : Admitted

unfoldable pub assert_own : ℕ → FileId → Checked (Unit {0})
assert_own driver id = assert (id.driver == driver)

module _ {T C : Type 0} where
  reserve_slot : Shared T C → Admitted × Shared T C
  unfolding reserve
  reserve_slot s = elim (reserve s.slab).0 [
    | none ↦ (refused_full, s)
    | some slot ↦ (reserved slot, record s { slab = (reserve s.slab).1 })
  ]

  unfoldable pub admit : ℕ → ℕ → Shared T C → FileId → Checked (Admitted × Shared T C)
  unfolding assert_own is_live total_inflight reserve_slot
  admit driver queue_capacity s fd = do
    assert_own driver fd
    live ← is_live s.files fd
    if live
        then (do
          let held = length s.completion_backlog + length s.deferred
          assert (leb held u32_max)
          inflight ← total_inflight s.files.slots
          retained ← expect (checked_add u32_max inflight held)
          ok (if leb queue_capacity retained then (refused_full, s) else reserve_slot s))
        else ok (refused_stale, s)

  -- `self.executor.schedule` is `schedule`, and `vector.bind` is `bind`.
  unfoldable pub commit :
      (ℕ → ℕ) → (ℕ → T → T) → (T → FileId) → Shared T C → ℕ → T → Checked (ℕ × Shared T C)
  unfolding fill poke on_submit
  commit schedule bind fd_of s slot entry = do
    filled ← fill s.slab slot entry
    slab ← poke filled.1 slot (bind filled.0)
    files ← on_submit s.files (fd_of entry)
    let position = schedule (length s.ready)
    assert (leb position (length s.ready))
    ok (
      filled.0,
      record s {
        slab = slab;
        files = files;
        ready = take position s.ready ++ (slot ∷ drop position s.ready);
      },
    )

  -- The batch after it, of the completions that it had and those moved into it.
  unfoldable pub drain_completion_backlog : ℕ → Shared T C → List C → List C × Shared T C
  drain_completion_backlog capacity s out = (
    out ++ take capacity s.completion_backlog,
    record s { completion_backlog = drop capacity s.completion_backlog },
  )
