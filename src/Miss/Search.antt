-- ===== src/Miss/Search.antt =====
-- src/pool/miss.rs: the search for a page's pending read, in the index and in the slots.
use dios.Common.{
  ℕ, zero, suc, ◌+◌, ◌≡◌, ◌≢◌, ◌<◌, inl, inr, Bool, true, false, ◌&&◌, if◌then◌else◌, leb, Option,
  none, some, List, [], ◌∷◌, length, get_elem?, Checked, ok, arith, refl, sym, ap, subst, ◌∙◌,
  Option-cases, Bool-cases,
}
use dios.Ids.{PageId, page_eq, page_eq_iff}
use dios.FileSlots.{MemberSlot, get_value}
use dios.Miss.{
  MissEntry, PendingMiss, MissTable, is_pending, entry, find_live, pending_slot_from, same_slot,
  find_pending,
}
use dios.Miss.Index.{IsIndexed, slot_of_entry}

-- The slot of the page's pending read, or that there is none.
pub data Reads (t : MissTable) (page : PageId) : Option ℕ → Type 0 where
  reading :
      (i : ℕ) (e : MissEntry)
      → entry t i ≡ ok e
      → is_pending e.outcome ≡ true
      → e.page ≡ page
      → Reads t page (some i)
  idle :
      ((i : ℕ) (e : MissEntry) → entry t i ≡ ok e → is_pending e.outcome ≡ true → e.page ≢ page)
      → Reads t page none

-- One read of a page: two searches that are right agree.
Reads-same_slot :
    (t : MissTable) (page : PageId) (r r' : Option ℕ)
    → IsIndexed t
    → Reads t page r
    → Reads t page r'
    → same_slot r r' ≡ true
Reads-same_slot t page (some _) (some _) v (reading i e at wait is) (reading j f at' wait' is') =
    ground (arith, v.single i j e f at at' wait wait' (is ∙ sym is'))
Reads-same_slot t page (some _) none v (reading i e at wait is) (idle free) =
    absurd (free i e at wait is)
Reads-same_slot t page none (some _) v (idle free) (reading i e at wait is) =
    absurd (free i e at wait is)
Reads-same_slot t page none none v (idle free) (idle free') = refl

-- What `find_live` finds among records that are all there.
data Live (live : ℕ) (records : List (Option PendingMiss)) (test : PendingMiss → Bool)
    : Option ℕ → Type 0 where
  hit :
      (k : ℕ) (miss : PendingMiss)
      → k < live
      → get_elem? records k ≡ some (some miss)
      → test miss ≡ true
      → Live live records test (some miss.slot)
  no_hit :
      ((k : ℕ) (miss : PendingMiss)
        → k < live
        → get_elem? records k ≡ some (some miss)
        → test miss ≡ false)
      → Live live records test none

unfoldable cell_or : Option PendingMiss → Option (Option PendingMiss) → Option PendingMiss
cell_or d none = d
cell_or d (some c) = c

no_hit_on :
    (live : ℕ) (cell : Option PendingMiss) (records : List (Option PendingMiss))
    (test : PendingMiss → Bool)
    → ((miss : PendingMiss) → cell ≡ some miss → test miss ≡ false)
    → ((k : ℕ) (miss : PendingMiss)
        → k < live
        → get_elem? records k ≡ some (some miss)
        → test miss ≡ false)
    → (k : ℕ) (miss : PendingMiss) → k < suc live
    → get_elem? (cell ∷ records) k ≡ some (some miss)
    → test miss ≡ false
unfolding cell_or
no_hit_on live cell records test fails all zero miss below at = fails miss (ap (cell_or cell) at)
no_hit_on live cell records test fails all (suc k) miss below at = all k miss (omega arith) at

Live-on :
    (live : ℕ) (cell : Option PendingMiss) (records : List (Option PendingMiss))
    (test : PendingMiss → Bool) (r : Option ℕ)
    → ((miss : PendingMiss) → cell ≡ some miss → test miss ≡ false)
    → Live live records test r
    → Live (suc live) (cell ∷ records) test r
Live-on live cell records test (some _) fails (hit k miss below at is) =
    hit (suc k) miss (omega arith) at is
Live-on live cell records test none fails (no_hit all) =
    no_hit (no_hit_on live cell records test fails all)

find_live-Live :
    (live : ℕ) (records : List (Option PendingMiss)) (test : PendingMiss → Bool)
    → Live live records test (find_live live records test)
unfolding find_live
find_live-Live zero records test = no_hit (λ k miss below at. absurd (omega arith))
find_live-Live (suc live) [] test = no_hit (λ k miss below at. absurd (ground (arith, at)))
find_live-Live (suc live) (none ∷ records) test =
    Live-on live none records test (find_live live records test)
      (λ miss e. absurd (ground (arith, e))) (find_live-Live live records test)
find_live-Live (suc live) (some miss ∷ records) test = elim (Bool-cases (test miss)) [
  | inl is ↦
      subst (λ r. Live (suc live) (some miss ∷ records) test r) (sym (hits miss is))
        (hit 0 miss (omega arith) refl is)
  | inr is_not ↦
      subst (λ r. Live (suc live) (some miss ∷ records) test r) (sym (passes miss is_not))
        (Live-on live (some miss) records test (find_live live records test)
          (λ other e. others miss other is_not e) (find_live-Live live records test))
]
  where
    hits :
        (miss : PendingMiss)
        → test miss ≡ true
        → (if test miss then some miss.slot else find_live live records test) ≡ some miss.slot
    hits miss is = rw is refl

    passes :
        (miss : PendingMiss)
        → test miss ≡ false
        → (if test miss then some miss.slot else find_live live records test)
          ≡ find_live live records test
    passes miss is_not = rw is_not refl

    others :
        (miss other : PendingMiss) → test miss ≡ false → some miss ≡ some other → test other ≡ false
    others miss other is_not e = subst (λ o. test (miss_or miss o) ≡ false) e is_not
      where
        miss_or : PendingMiss → Option PendingMiss → PendingMiss
        miss_or d none = d
        miss_or d (some m) = m

-- What the scan of the slots finds.
data Scanned (index : ℕ) (slots : List (MemberSlot MissEntry)) (page : PageId)
    : Option ℕ → Type 0 where
  meets :
      (j : ℕ) (slot : MemberSlot MissEntry) (e : MissEntry)
      → get_elem? slots j ≡ some slot
      → get_value slot ≡ some e
      → is_pending e.outcome ≡ true
      → e.page ≡ page
      → Scanned index slots page (some (index + j))
  meets_none :
      ((j : ℕ) (slot : MemberSlot MissEntry) (e : MissEntry)
        → get_elem? slots j ≡ some slot
        → get_value slot ≡ some e
        → is_pending e.outcome ≡ true
        → e.page ≢ page)
      → Scanned index slots page none

slot_or : MemberSlot MissEntry → Option (MemberSlot MissEntry) → MemberSlot MissEntry
slot_or d none = d
slot_or d (some s) = s

none_on :
    (slot : MemberSlot MissEntry) (slots : List (MemberSlot MissEntry)) (page : PageId)
    → ((e : MissEntry) → get_value slot ≡ some e → is_pending e.outcome ≡ true → e.page ≢ page)
    → ((j : ℕ) (s : MemberSlot MissEntry) (e : MissEntry)
        → get_elem? slots j ≡ some s
        → get_value s ≡ some e
        → is_pending e.outcome ≡ true
        → e.page ≢ page)
    → (j : ℕ) (s : MemberSlot MissEntry) (e : MissEntry) → get_elem? (slot ∷ slots) j ≡ some s
    → get_value s ≡ some e
    → is_pending e.outcome ≡ true
    → e.page ≢ page
unfolding slot_or
none_on slot slots page fails all zero s e at full wait =
    fails e (ap get_value (ap (slot_or slot) at) ∙ full) wait
none_on slot slots page fails all (suc j) s e at full wait = all j s e at full wait

Scanned-on :
    (index : ℕ) (slot : MemberSlot MissEntry) (slots : List (MemberSlot MissEntry)) (page : PageId)
    (r : Option ℕ)
    → ((e : MissEntry) → get_value slot ≡ some e → is_pending e.outcome ≡ true → e.page ≢ page)
    → Scanned (suc index) slots page r
    → Scanned index (slot ∷ slots) page r
Scanned-on index slot slots page (some _) fails (meets j s e at full wait is) =
    subst (λ n. Scanned index (slot ∷ slots) page (some n)) (omega arith)
      (meets (suc j) s e at full wait is)
Scanned-on index slot slots page none fails (meets_none all) =
    meets_none (none_on slot slots page fails all)

module _ (index : ℕ) (slot : MemberSlot MissEntry) (slots : List (MemberSlot MissEntry))
    (page : PageId) where
  at_vacant :
      get_value slot ≡ none
      → pending_slot_from index (slot ∷ slots) page ≡ pending_slot_from (suc index) slots page
  unfolding pending_slot_from
  at_vacant vacant = rw (pending_slot_from, vacant) refl

  at_hit :
      (e : MissEntry)
      → get_value slot ≡ some e
      → (page_eq e.page page && is_pending e.outcome) ≡ true
      → pending_slot_from index (slot ∷ slots) page ≡ some index
  unfolding pending_slot_from
  at_hit e full here = rw (pending_slot_from, full, here) refl

  at_other :
      (e : MissEntry)
      → get_value slot ≡ some e
      → (page_eq e.page page && is_pending e.outcome) ≡ false
      → pending_slot_from index (slot ∷ slots) page ≡ pending_slot_from (suc index) slots page
  unfolding pending_slot_from
  at_other e full not_here = rw (pending_slot_from, full, not_here) refl

  not_this :
      (e f : MissEntry)
      → (page_eq e.page page && is_pending e.outcome) ≡ false
      → get_value slot ≡ some e
      → get_value slot ≡ some f
      → is_pending f.outcome ≡ true
      → f.page ≢ page
  not_this e f not_here full full' wait is =
      let mine = (page_eq_iff f.page page).1 is in
      let one : some e ≡ some f = sym full ∙ full' in ground (arith, one, not_here, mine, wait)

pending_slot_from-Scanned :
    (index : ℕ) (slots : List (MemberSlot MissEntry)) (page : PageId)
    → Scanned index slots page (pending_slot_from index slots page)
unfolding pending_slot_from
pending_slot_from-Scanned index [] page = meets_none (λ j slot e at. absurd (ground (arith, at)))
pending_slot_from-Scanned index (slot ∷ slots) page =
    let rest = pending_slot_from-Scanned (suc index) slots page in
    elim (Option-cases (get_value slot)) [
      | inl vacant ↦
          subst (λ r. Scanned index (slot ∷ slots) page r)
            (sym (at_vacant index slot slots page vacant))
            (Scanned-on index slot slots page (pending_slot_from (suc index) slots page)
              (λ e full. absurd (ground (arith, vacant, full))) rest)
      | inr (e, full) ↦ elim (Bool-cases (page_eq e.page page && is_pending e.outcome)) [
        | inl yes_here ↦
            subst (λ r. Scanned index (slot ∷ slots) page r)
              (sym (at_hit index slot slots page e full yes_here ∙ ap some (omega arith)))
              (meets 0 slot e refl full (ground (arith, yes_here))
                ((page_eq_iff e.page page).0 (ground (arith, yes_here))))
        | inr not_here ↦
            subst (λ r. Scanned index (slot ∷ slots) page r)
              (sym (at_other index slot slots page e full not_here))
              (Scanned-on index slot slots page (pending_slot_from (suc index) slots page)
                (λ f full' wait is. not_this index slot slots page e f not_here full full' wait is)
                rest)
      ]
    ]

abbrev record_in : PendingMiss → Option (Option PendingMiss) → PendingMiss
record_in d none = d
record_in d (some none) = d
record_in d (some (some m)) = m

abbrev page_of_entry : PageId → Checked MissEntry → PageId
page_of_entry d (ok e) = e.page
page_of_entry d Checked.panic = d

module _ (t : MissTable) (page : PageId) (v : IsIndexed t) where
  reads_of_slots : (r : Option ℕ) → Scanned 0 t.slots.slots page r → Reads t page r
  unfolding entry
  reads_of_slots (some _) (meets j slot e at full wait is) =
      subst (λ n. Reads t page (some n)) (omega arith) (reading j e (rw (at, full) refl) wait is)
  reads_of_slots none (meets_none all) = idle (λ i e at wait is.
      let (slot, here, full) = slot_of_entry t i at in all i slot e here full wait is)

  reads_of_index :
      (r : Option ℕ)
      → Live t.pending_len t.pending (λ miss. page_eq miss.page page) r
      → Reads t page r
  reads_of_index (some _) (hit k miss below at is) =
      let (own, there, e, r) = v.live k below in
      let one : some (some miss) ≡ some (some own) = sym at ∙ there in
      subst (λ s. Reads t page (some s)) (ap (λ c. (record_in own c).slot) (sym one))
        (reading own.slot e r.at r.waits
          (r.page ∙ ap (λ c. (record_in own c).page) (sym one) ∙ (page_eq_iff miss.page page).0 is))
  reads_of_index none (no_hit all) = idle (λ i e at wait is.
      let (below, miss, there, owner) = v.indexed i e at wait in
      let (own, here, f, r) = v.live e.pending_position below in
      let one : some (some own) ≡ some (some miss) = sym here ∙ there in
      let mine : own.slot ≡ i = ap (λ c. (record_in own c).slot) one ∙ owner in
      let both : ok f ≡ ok e = sym r.at ∙ subst (λ s. entry t s ≡ ok e) (sym mine) at in
      let page_is : own.page ≡ page = sym r.page ∙ ap (page_of_entry page) both ∙ is in
      ground (arith, all e.pending_position own below here, (page_eq_iff own.page page).1 page_is))

-- One read for a page. On a table whose index mirrors its pending entries, `find_pending` ends without
-- a panic: what it finds in the index is what a scan of all the slots finds, namely the slot of the
-- page's pending entry, or `none` where no entry of the page is pending.
pub find_pending_lem :
    (t : MissTable) (page : PageId)
    → IsIndexed t
    → (found : Option ℕ) × (find_pending t page ≡ ok found) × Reads t page found
unfolding find_pending
find_pending_lem t page v =
    let found = find_live t.pending_len t.pending (λ miss. page_eq miss.page page) in
    let there =
      reads_of_index t page v found
        (find_live-Live t.pending_len t.pending (λ miss. page_eq miss.page page)) in
    let agrees = Reads-same_slot t page found (pending_slot_from 0 t.slots.slots page) v there (
      reads_of_slots t page v (pending_slot_from 0 t.slots.slots page)
        (pending_slot_from-Scanned 0 t.slots.slots page)) in
    let fits : leb t.pending_len (length t.pending) ≡ true = ground (arith, v.room) in
    (found, rw (fits, agrees) refl, there)
