-- ===== src/Miss/Terminal.antt =====
-- src/pool/miss.rs: a read that ends, and the index once its record is out of it.
use dios.Common.{
  ℕ, suc, ◌-◌, ◌≡◌, ◌≢◌, ◌≤◌, ◌<◌, true, false, ◌==◌, ltb, lt→ltb, Option, none, some, List, length,
  get_elem?, set, Checked, ok, arith, refl, sym, ap, subst, ◌∙◌, ℕ_discrete, checked_sub,
  get_elem?-set_self, get_elem?-set_ne, length-set,
}
use dios.Miss.{
  failed, succeeded, MissEntry, PendingMiss, MissTable, is_pending, entry, pending_position,
  pending_remove, fail, succeed,
}
use dios.Miss.Index.{
  Indexes, IsRecordOf, IsIndexed, Written, write_entry-Written, IsSwapped, swapped-IsIndexed,
  places_apart,
}

pending_position-ok :
    (t : MissTable) (i : ℕ) (e : MissEntry) (miss : PendingMiss)
    → entry t i ≡ ok e
    → Indexes t e.pending_position miss
    → miss.slot ≡ i
    → pending_position t i ≡ ok e.pending_position
unfolding pending_position
pending_position-ok t i e miss h at owner = rw (h, at) (ground (arith, owner))

-- The index does not show in the entries.
entry_of_slots :
    (t : MissTable) (cells : List (Option PendingMiss)) (len j : ℕ)
    → entry (record t { pending = cells; pending_len = len }) j ≡ entry t j
unfolding entry
entry_of_slots t cells len j = refl

module _ (t w : MissTable) (i : ℕ) (e e' : MissEntry) (v : IsIndexed t) (h : entry t i ≡ ok e)
    (waits : is_pending e.outcome ≡ true) (place : e'.pending_position ≡ e.pending_position)
    (x : Written t i e' w) where
  abbrev Swap : ℕ → PendingMiss → MissEntry → Type 0
  Swap last m em =
      (t' : MissTable) × (pending_remove w i ≡ ok t')
      × IsSwapped t i e e' last m em t'
      × (t'.success_frames ≡ t.success_frames)

  -- What the table shows once the entry is written.
  in_index :
      (k : ℕ) {cell : Option (Option PendingMiss)}
      → get_elem? t.pending k ≡ cell
      → get_elem? w.pending k ≡ cell
  in_index k at = ap (λ cells. get_elem? cells k) x.same_index ∙ at

  same_length : length w.pending ≡ length t.pending
  same_length = ap length x.same_index

  position : pending_position w i ≡ ok e.pending_position
  position =
      let (_, mine, here, owner) = v.indexed i e h waits in
      pending_position-ok w i e' mine x.self
        (subst (λ n. Indexes w n mine) (sym place) (in_index e.pending_position here)) owner
      ∙ ap ok place

  last_of_len : (last : ℕ) → t.pending_len ≡ suc last → checked_sub w.pending_len 1 ≡ some last
  last_of_len last len = ground (arith, x.same_len)

  in_cells : (last : ℕ) → t.pending_len ≡ suc last → last < length w.pending
  in_cells last len = omega (arith, v.room, same_length)

  cleared_tail :
      (last : ℕ)
      → t.pending_len ≡ suc last
      → (k : ℕ) → last ≤ k
      → k < length w.pending
      → get_elem? (set w.pending last none) k ≡ some none
  cleared_tail last len k above inside = elim (ℕ_discrete last k) [
    | yes same ↦
        subst (λ n. get_elem? (set w.pending last none) n ≡ some none) same
          (get_elem?-set_self w.pending last none (in_cells last len))
    | no ne ↦
        get_elem?-set_ne w.pending last k none ne
        ∙ in_index k (v.free k (omega arith) (omega (arith, same_length)))
  ]

  -- The record was the last.
  removes_last :
      (last : ℕ) (m : PendingMiss) (em : MissEntry)
      → t.pending_len ≡ suc last
      → Indexes t last m
      → IsRecordOf t last m em
      → e.pending_position ≡ last
      → Swap last m em
  unfolding pending_remove
  removes_last last m em len at r same =
      let t' = record w { pending = set w.pending last none; pending_len = last } in
      let stays : ltb e.pending_position last ≡ false = ground (arith, same) in
      let (_, mine, here, owner) = v.indexed i e h waits in
      let there : Indexes t last mine = subst (λ n. Indexes t n mine) same here in
      let m_slot : m.slot ≡ i = ground (arith, there, at, owner) in
      (
        t',
        rw
            (
              position,
              last_of_len last len,
              in_index last at,
              stays,
              get_elem?-set_self w.pending last none (in_cells last len),
            )
            refl,
        record {
          tail = at;
          tail_record = r;
          was_last = len;
          self = entry_of_slots w (set w.pending last none) last i ∙ x.self;
          others = λ j ne apart. entry_of_slots w (set w.pending last none) last j ∙ x.others j ne;
          moved = λ apart. absurd (apart m_slot);
          kept =
              λ k below ne. get_elem?-set_ne w.pending last k none (omega arith) ∙ in_index k refl;
          filled = λ below. absurd (omega arith);
          cleared = λ k above inside.
              cleared_tail last len k above (omega (arith, length-set w.pending last none));
          len = refl;
          room = omega (arith, length-set w.pending last none, in_cells last len);
        },
        x.same_frames,
      )

  -- Another record was: it takes the place.
  removes_inner :
      (last : ℕ) (m : PendingMiss) (em : MissEntry)
      → t.pending_len ≡ suc last
      → Indexes t last m
      → IsRecordOf t last m em
      → e.pending_position < last
      → Swap last m em
  unfolding pending_remove
  removes_inner last m em len at r below =
      let p = e.pending_position in
      let taken = set w.pending last none in
      let cells = set taken p (some m) in
      let apart : m.slot ≢ i = places_apart t m.slot i em e r.at h (omega (arith, r.place)) in
      let em' : MissEntry = record em { pending_position = p } in
      let found : entry w m.slot ≡ ok em = x.others m.slot apart ∙ r.at in
      let base = record w { pending = cells } in
      let (u, writes, y) = write_entry-Written base m.slot em em' found in
      let t' = record u { pending_len = last } in
      let inner : ltb p last ≡ true = lt→ltb p last below in
      let tail_free : get_elem? u.pending last ≡ some none =
        ap (λ c. get_elem? c last) y.same_index
        ∙ get_elem?-set_ne taken p last (some m) (omega arith)
        ∙ get_elem?-set_self w.pending last none (in_cells last len) in
      (
        t',
        rw (position, last_of_len last len, in_index last at, inner, found, writes, tail_free) refl,
        record {
          tail = at;
          tail_record = r;
          was_last = len;
          self = entry_of_slots u u.pending last i ∙ y.others i (λ s. apart (sym s)) ∙ x.self;
          others = λ j ne ne'. entry_of_slots u u.pending last j ∙ y.others j ne' ∙ x.others j ne;
          moved = λ _. entry_of_slots u u.pending last m.slot ∙ y.self;
          kept = λ k k_below ne.
              ap (λ c. get_elem? c k) y.same_index
              ∙ get_elem?-set_ne taken p k (some m) (λ s. ne (sym s))
              ∙ get_elem?-set_ne w.pending last k none (omega arith)
              ∙ in_index k refl;
          filled = λ _.
              ap (λ c. get_elem? c p) y.same_index
              ∙ get_elem?-set_self taken p (some m)
                  (omega (arith, length-set w.pending last none, in_cells last len));
          cleared = λ k above inside.
              ap (λ c. get_elem? c k) y.same_index
              ∙ get_elem?-set_ne taken p k (some m) (omega arith)
              ∙ cleared_tail last len k above (
                  omega (
                    arith,
                    ap length y.same_index,
                    length-set taken p (some m),
                    length-set w.pending last none,
                  ));
          len = refl;
          room = omega (
            arith,
            ap length y.same_index,
            length-set taken p (some m),
            length-set w.pending last none,
            in_cells last len,
          );
        },
        y.same_frames ∙ x.same_frames,
      )

  removes :
      (t' : MissTable) × (pending_remove w i ≡ ok t')
      × ((last : ℕ) × (m : PendingMiss) × (em : MissEntry) × IsSwapped t i e e' last m em t')
      × (t'.success_frames ≡ t.success_frames)
  removes =
      let (below, _, _, _) = v.indexed i e h waits in
      let last = t.pending_len - 1 in
      let len : t.pending_len ≡ suc last = omega arith in
      let (m, at, em, r) = v.live last (omega arith) in
      elim (ℕ_discrete e.pending_position last) [
        | yes same ↦
            let (t', runs, swap, frames) = removes_last last m em len at r same in
            (t', runs, (last, m, em, swap), frames)
        | no ne ↦
            let (t', runs, swap, frames) = removes_inner last m em len at r (omega arith) in
            (t', runs, (last, m, em, swap), frames)
      ]

-- What an entry keeps when another read ends: all but its place in the index.
abbrev pub Keeps : MissTable → ℕ → MissTable → Type 0
Keeps t i t' =
    (j : ℕ) (f : MissEntry)
    → j ≢ i
    → entry t j ≡ ok f
    → (place : ℕ) × (entry t' j ≡ ok (record f { pending_position = place }))

swapped-Keeps :
    (t t' : MissTable) (i : ℕ) (e e' : MissEntry) (last : ℕ) (m : PendingMiss) (em : MissEntry)
    → IsSwapped t i e e' last m em t'
    → Keeps t i t'
swapped-Keeps t t' i e e' last m em w j f ne at = elim (ℕ_discrete j m.slot) [
  | no apart ↦ (f.pending_position, w.others j ne apart ∙ at)
  | yes same ↦
      let one : ok em ≡ ok f = sym w.tail_record.at ∙ subst (λ s. entry t s ≡ ok f) same at in
      (
        e.pending_position,
        subst (λ s. entry t' s ≡ ok (record f { pending_position = e.pending_position })) (sym same)
            (w.moved (λ on_i. ne (same ∙ on_i)) ∙ ap (place_ok e.pending_position) one),
      )
]
  where
    place_ok : ℕ → Checked MissEntry → Checked MissEntry
    place_ok p (ok g) = ok (record g { pending_position = p })
    place_ok p Checked.panic = Checked.panic

-- A pending read fails once. On a table whose index mirrors its pending entries, the failure of a
-- pending entry with an errno other than zero ends without a panic; the entry keeps all but its
-- outcome, the other entries keep all but their places, and the index mirrors the entries again.
pub fail-IsIndexed :
    (t : MissTable) (i errno : ℕ) (e : MissEntry)
    → IsIndexed t
    → entry t i ≡ ok e
    → is_pending e.outcome ≡ true
    → errno ≢ 0
    → (t' : MissTable) × (fail t i errno ≡ ok t')
      × IsIndexed t'
      × (entry t' i ≡ ok (record e { outcome = failed errno }))
      × Keeps t i t'
unfolding fail
fail-IsIndexed t i errno e v h waits ne =
    let e' : MissEntry = record e { outcome = failed errno } in
    let (w, writes, x) = write_entry-Written t i e e' h in
    let (t', runs, (last, m, em, swap), _) = removes t w i e e' v h waits refl x in
    let errs : (errno == 0) ≡ false = ground (arith, ne) in
    (
      t',
      rw (h, errs, waits, writes) runs,
      swapped-IsIndexed t i e e' v h waits refl last m em t' swap,
      swap.self,
      swapped-Keeps t t' i e e' last m em swap,
    )

-- The protected frames are apart from the entries and the index.
IsSwapped-frames :
    (t u : MissTable) (i : ℕ) (e e' : MissEntry) (last : ℕ) (m : PendingMiss) (em : MissEntry)
    (frames : List (Option (ℕ × ℕ)))
    → IsSwapped t i e e' last m em u
    → IsSwapped t i e e' last m em (record u { success_frames = frames })
unfolding entry
IsSwapped-frames t u i e e' last m em frames w = record {
  tail = w.tail;
  tail_record = w.tail_record;
  was_last = w.was_last;
  self = w.self;
  others = w.others;
  moved = w.moved;
  kept = w.kept;
  filled = w.filled;
  cleared = w.cleared;
  len = w.len;
  room = w.room;
}

-- A pending read succeeds once. On such a table, where no generation protects the entry's frame, the
-- success of a pending entry ends without a panic; the entry keeps all but its outcome, the other
-- entries keep all but their places, the index mirrors the entries again, and the one frame that
-- becomes protected is the entry's, by its generation.
pub succeed-IsIndexed :
    (t : MissTable) (i : ℕ) (e : MissEntry)
    → IsIndexed t
    → entry t i ≡ ok e
    → is_pending e.outcome ≡ true
    → get_elem? t.success_frames e.frame ≡ some none
    → (t' : MissTable) × (succeed t i ≡ ok t')
      × IsIndexed t'
      × (entry t' i ≡ ok (record e { outcome = succeeded }))
      × Keeps t i t'
      × (t'.success_frames ≡ set t.success_frames e.frame (some (i, e.generation)))
unfolding succeed
succeed-IsIndexed t i e v h waits free =
    let e' : MissEntry = record e { outcome = succeeded } in
    let (w, writes, x) = write_entry-Written t i e e' h in
    let (u, runs, (last, m, em, swap), frames) = removes t w i e e' v h waits refl x in
    let t' = record u { success_frames = set u.success_frames e.frame (some (i, e.generation)) } in
    let unprotected : get_elem? u.success_frames e.frame ≡ some none =
      ap (λ c. get_elem? c e.frame) frames ∙ free in
    let swap' = IsSwapped-frames t u i e e' last m em t'.success_frames swap in
    (
      t',
      rw (h, waits, writes, runs, unprotected) refl,
      swapped-IsIndexed t i e e' v h waits refl last m em t' swap',
      swap'.self,
      swapped-Keeps t t' i e e' last m em swap',
      ap (λ c. set c e.frame (some (i, e.generation))) frames,
    )
