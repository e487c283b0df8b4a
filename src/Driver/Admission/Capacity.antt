-- ===== src/Driver/Admission/Capacity.antt =====
-- src/driver.rs: an operation that is admitted and committed is within the queue's capacity.
use dios.Common.{
  ℕ, zero, suc, ◌+◌, ◌≡◌, ◌≤◌, ◌<◌, true, some, List, [], ◌∷◌, length, get_elem?, set, ok, arith,
  Option-cases, Checked-cases, inl, inr, u32_max, ap,
}
use dios.Ids.{FileId}
use dios.Driver.Slab.{fill, poke}
use dios.Driver.Files.{FileSlot, is_live, total_inflight, on_submit}
use dios.Driver.Admission.{Shared, reserved, assert_own, admit, commit, reserve_slot}

-- One operation more on one file is one more in all.
total_inflight-set :
    (slots : List FileSlot) (k n : ℕ) (s : FileSlot)
    → get_elem? slots k ≡ some s
    → total_inflight slots ≡ ok n
    → n < u32_max
    → total_inflight (set slots k (record s { inflight = s.inflight + 1 })) ≡ ok (n + 1)
unfolding total_inflight
total_inflight-set [] k n s at e p = ground arith
total_inflight-set (x ∷ slots) zero n s at e p = elim (Checked-cases (total_inflight slots)) [
  | inl (m, r) ↦ ground (arith, at, e, r)
  | inr stuck ↦ ground (arith, e, stuck)
]
total_inflight-set (x ∷ slots) (suc k) n s at e p = elim (Checked-cases (total_inflight slots)) [
  | inl (m, r) ↦
      let small : m ≤ n = ground (arith, e, r) in
      ground (arith, e, r, total_inflight-set slots k m s at r (omega arith))
  | inr stuck ↦ ground (arith, e, stuck)
]

module _ {T C : Type 0} where
  admit-reserved :
      (driver queue_capacity : ℕ) (s s1 : Shared T C) (fd : FileId) (slot : ℕ)
      → admit driver queue_capacity s fd ≡ ok (reserved slot, s1)
      → (n : ℕ) × (total_inflight s.files.slots ≡ ok n)
        × (n + (length s.completion_backlog + length s.deferred) < queue_capacity)
        × (fd.driver ≡ driver)
        × (is_live s.files fd ≡ ok true)
        × (s1 ≡ record s { slab = s1.slab })
  unfolding admit reserve_slot assert_own
  admit-reserved driver queue_capacity s s1 fd slot h =
      elim (Checked-cases (assert_own driver fd)) [
        | inr foreign ↦ ground (arith, foreign)
        | inl (_, own) ↦ elim (Checked-cases (is_live s.files fd)) [
          | inr stuck ↦ ground (arith, own, stuck)
          | inl (live, l) ↦ elim (Checked-cases (total_inflight s.files.slots)) [
            | inr over ↦ ground (arith, own, l, over)
            | inl (n, t) ↦ (
              n,
              t,
              ground (arith, own, l, t),
              ground (arith, own),
              ground (arith, own, l, t),
              ground (arith, own, l, t),
            )
          ]
        ]
      ]

  commit-eq-ok :
      (schedule : ℕ → ℕ) (bind : ℕ → T → T) (fd_of : T → FileId) (s s' : Shared T C)
      → (slot : ℕ) (entry : T) (token : ℕ)
      → commit schedule bind fd_of s slot entry ≡ ok (token, s')
      → (file : FileSlot) × (get_elem? s.files.slots (fd_of entry).slot ≡ some file)
        × (s'.files.slots
            ≡ set s.files.slots (fd_of entry).slot (record file { inflight = file.inflight + 1 }))
        × (s'.completion_backlog ≡ s.completion_backlog)
        × (s'.deferred ≡ s.deferred)
  unfolding commit on_submit
  commit-eq-ok schedule bind fd_of s s' slot entry token h =
      elim (Checked-cases (fill s.slab slot entry)) [
        | inr stuck ↦ ground (arith, stuck)
        | inl (filled, f) ↦ elim (Checked-cases (poke filled.1 slot (bind filled.0))) [
          | inr stuck ↦ ground (arith, f, stuck)
          | inl (slab, p) ↦ elim (Option-cases (get_elem? s.files.slots (fd_of entry).slot)) [
            | inl outside ↦ ground (arith, f, p, outside)
            | inr (file, at) ↦ (
              file,
              at,
              ground (arith, f, p, at),
              ground (arith, f, p, at),
              ground (arith, f, p, at),
            )
          ]
        ]
      ]

  -- Admission respects the queue's capacity. An operation that is admitted is on a live file of
  -- this driver, and once it is committed the operations in flight, one more than before, and the
  -- completions kept back are together within the capacity.
  pub total_inflight-commit :
      (schedule : ℕ → ℕ) (bind : ℕ → T → T) (fd_of : T → FileId) (driver queue_capacity : ℕ)
      → (s s1 s2 : Shared T C) (slot : ℕ) (entry : T) (token : ℕ) → queue_capacity ≤ u32_max
      → admit driver queue_capacity s (fd_of entry) ≡ ok (reserved slot, s1)
      → commit schedule bind fd_of s1 slot entry ≡ ok (token, s2)
      → ((fd_of entry).driver ≡ driver)
        × (is_live s.files (fd_of entry) ≡ ok true)
        × ((n : ℕ) × (total_inflight s.files.slots ≡ ok n)
            × (total_inflight s2.files.slots ≡ ok (n + 1))
            × (n + 1 + (length s2.completion_backlog + length s2.deferred) ≤ queue_capacity))
  total_inflight-commit schedule bind fd_of driver queue_capacity s s1 s2 slot entry token small a
        c =
      let (n, t, room, own, live, same) =
        admit-reserved driver queue_capacity s s1 (fd_of entry) slot a in
      let (file, at, files, backlog, deferred) =
        commit-eq-ok schedule bind fd_of s1 s2 slot entry token c in
      let files_same : s1.files.slots ≡ s.files.slots = ap (λ x. x.files.slots) same in
      let backlog_same : s1.completion_backlog ≡ s.completion_backlog =
        ap (λ x. x.completion_backlog) same in
      let deferred_same : s1.deferred ≡ s.deferred = ap (λ x. x.deferred) same in
      (
        own,
        live,
        (
          n,
          t,
          rw files (
              total_inflight-set s1.files.slots (fd_of entry).slot n file at (rw files_same t)
                (omega (arith, room, small))),
          rw (backlog, deferred, backlog_same, deferred_same) (omega (arith, room)),
        ),
      )
