-- ===== src/Table/Spec.antt =====
-- src/pool/table.rs: the page table refines a partial map from pages to frames.
use dios.Common.{
  ℕ, zero, suc, ◌*◌, ◌≡◌, ◌≢◌, ◌≤◌, ◌<◌, ◌↔◌, ↔_trans, true, false, Option, none, some,
  if◌then◌else◌, leb, replicate, length-replicate, ok, arith, refl, sym, ap, subst, ◌∙◌, Bool-cases,
  Option-cases, lt→ltb, u32_max, inl, inr,
}
use dios.Ids.{PageId, page_eq, page_eq_iff}
use dios.Table.{
  PageTable, next_power_from, try_with_frame_count, lookup, insert_shared, remove_shared,
}
use dios.Table.Map.{Holds, Maps, filled, IsMap, Answers, found, absent}
use dios.Table.Find.{lookup_lem}
use dios.Table.Insert.{Inserted, insert_shared-Inserted}
use dios.Table.Remove.{Removed, remove_shared-Removed}

-- The abstract table: what a page is mapped to.
abbrev pub Frames : Type 0
Frames = PageId → Option ℕ

abbrev pub update : Frames → PageId → Option ℕ → Frames
update m page answer q = if page_eq q page then answer else m q

-- The table holds the entries of the map, each within reach of a probe.
pub record Represents (t : PageTable) (m : Frames) : Type 0 where
  pub shape : IsMap t
  pub agrees : (page : PageId) (frame : ℕ) → Maps t.slots page frame ↔ (m page ≡ some frame)

-- A table has one frame for a page.
Maps-unique :
    (t : PageTable) (page : PageId) (f g : ℕ)
    → IsMap t
    → Maps t.slots page f
    → Maps t.slots page g
    → f ≡ g
Maps-unique t page f g v (i, at) (j, at') =
    let same = v.probe.unique i j (page, f) (page, g) at at' refl in
    let one : some (some (page, f)) ≡ some (some (page, g)) =
      sym at ∙ subst (λ s. Holds t.slots s (page, g)) (sym same) at' in
    ap (frame_or f) one
  where
    frame_or : ℕ → Option (Option (PageId × ℕ)) → ℕ
    frame_or d none = d
    frame_or d (some none) = d
    frame_or d (some (some (_, h))) = h

answer_of :
    (t : PageTable) (m : Frames) (page : PageId) (answer : Option ℕ)
    → Represents t m
    → Answers t.slots page answer
    → answer ≡ m page
answer_of t m page (some frame) r (found _ there) = sym ((r.agrees page frame).0 there)
answer_of t m page none r (absent none_of_it) = elim (Option-cases (m page)) [
  | inl nothing ↦ sym nothing
  | inr (frame, is) ↦ absurd (none_of_it frame ((r.agrees page frame).1 is))
]

-- `lookup` gives what the map says. On a table that represents a map from pages to frames, `lookup`
-- of any page ends without a panic, with the frame of that page in the map, or `none`.
pub lookup-Represents :
    (t : PageTable) (m : Frames) (page : PageId) → Represents t m → lookup t page ≡ ok (m page)
lookup-Represents t m page r =
    let (answer, runs, what) = lookup_lem t page r.shape in
    runs ∙ ap ok (answer_of t m page answer r what)

apart : (q page : PageId) → page_eq q page ≡ false → q ≢ page
apart q page other same = ground (arith, (page_eq_iff q page).1 same, other)

mine_updated :
    (m : Frames) (page : PageId) (answer : Option ℕ) (q : PageId)
    → page_eq q page ≡ true
    → update m page answer q ≡ answer
mine_updated m page answer q mine = rw mine refl

other_updated :
    (m : Frames) (page : PageId) (answer : Option ℕ) (q : PageId)
    → page_eq q page ≡ false
    → update m page answer q ≡ m q
other_updated m page answer q other = rw other refl

-- What the updated map says of a page, in place of an equal answer.
at_update :
    {A : Type 0} (m : Frames) (page : PageId) (answer : Option ℕ) (q : PageId) (g : ℕ)
    {given : Option ℕ}
    → A ↔ (given ≡ some g)
    → update m page answer q ≡ given
    → A ↔ (update m page answer q ≡ some g)
at_update m page answer q g f e = ((λ a. e ∙ f.0 a), (λ is. f.1 (sym e ∙ is)))

Inserted-there :
    {t : PageTable} (t' : PageTable) (page : PageId) (frame : ℕ) (q : PageId) (g : ℕ)
    → page_eq q page ≡ true
    → Inserted t page frame t'
    → Maps t'.slots q g ↔ (some frame ≡ some g)
Inserted-there t' page frame q g mine done =
    let same = (page_eq_iff q page).0 mine in
    (
      (λ there. ap some (
          Maps-unique t' page frame g done.after done.holds
            (subst (λ p. Maps t'.slots p g) same there))),
      (λ is.
          subst (λ p. Maps t'.slots p g) (sym same)
            (subst (λ f. Maps t'.slots page f) (some_injective is) done.holds)),
    )
  where
    some_injective : {a b : ℕ} → some a ≡ some b → a ≡ b
    some_injective e = ground (arith, e)

-- `insert_shared` updates the map. On a table with a vacant slot that represents a map, inserting a
-- page ends without a panic, and the table it leaves, of the same capacity, represents the map
-- updated at that page, whether the page was new or had another frame.
pub insert_shared-Represents :
    (t : PageTable) (m : Frames) (page : PageId) (frame : ℕ)
    → Represents t m
    → t.len < t.capacity
    → (t' : PageTable) × (insert_shared t page frame ≡ ok t')
      × (t'.capacity ≡ t.capacity)
      × Represents t' (update m page (some frame))
insert_shared-Represents t m page frame r room =
    let (t', runs, done) = insert_shared-Inserted t page frame r.shape room in
    (
      t',
      runs,
      done.capacity,
      record {
        shape = done.after;
        agrees = λ q g. elim (Bool-cases (page_eq q page)) [
          | inl mine ↦
              at_update m page (some frame) q g (Inserted-there t' page frame q g mine done)
                (mine_updated m page (some frame) q mine)
          | inr other ↦
              at_update m page (some frame) q g
                (↔_trans (done.others q g (apart q page other)) (r.agrees q g))
                (other_updated m page (some frame) q other)
        ];
      },
    )

Removed-there :
    {t : PageTable} (t' : PageTable) (page : PageId) (answer : Option ℕ) (q : PageId) (g : ℕ)
    → page_eq q page ≡ true
    → Removed t page answer t'
    → Maps t'.slots q g ↔ (none ≡ some g)
Removed-there t' page answer q g mine done = (
  (λ there. absurd (((done.others q g).0 there).0 ((page_eq_iff q page).0 mine))),
  (λ is. absurd (ground (arith, is))),
)

Removed-elsewhere :
    {t : PageTable} (t' : PageTable) (m : Frames) (page : PageId) (answer : Option ℕ) (q : PageId)
    (g : ℕ)
    → page_eq q page ≡ false
    → Represents t m
    → Removed t page answer t'
    → Maps t'.slots q g ↔ (m q ≡ some g)
Removed-elsewhere t' m page answer q g other r done = (
  (λ there. (r.agrees q g).0 ((done.others q g).0 there).1),
  (λ is. (done.others q g).1 (apart q page other, (r.agrees q g).1 is)),
)

-- `remove_shared` takes the page out of the map. On a table with a vacant slot that represents a map,
-- removing a page ends without a panic, gives what the map had for the page, and leaves a table of the
-- same capacity that represents the map without the page: the shift that closes the gap keeps every
-- other page within reach of its probe.
pub remove_shared-Represents :
    (t : PageTable) (m : Frames) (page : PageId)
    → Represents t m
    → t.len < t.capacity
    → (t' : PageTable) × (remove_shared t page ≡ ok (m page, t'))
      × (t'.capacity ≡ t.capacity)
      × Represents t' (update m page none)
remove_shared-Represents t m page r room =
    let (answer, t', runs, done) = remove_shared-Removed t page r.shape room in
    (
      t',
      runs ∙ ap (λ a. ok (a, t')) (answer_of t m page answer r done.was),
      done.capacity,
      record {
        shape = done.after;
        agrees = λ q g. elim (Bool-cases (page_eq q page)) [
          | inl mine ↦
              at_update m page none q g (Removed-there t' page answer q g mine done)
                (mine_updated m page none q mine)
          | inr other ↦
              at_update m page none q g (Removed-elsewhere t' m page answer q g other r done)
                (other_updated m page none q other)
        ];
      },
    )

filled-replicate : (n : ℕ) → filled (replicate n none) ≡ 0
filled-replicate zero = refl
filled-replicate (suc n) = filled-replicate n

pub vacant-replicate : (n i : ℕ) (e : PageId × ℕ) → ¬ Holds (replicate n none) i e
vacant-replicate zero i e h = ground (arith, h)
vacant-replicate (suc n) zero e h = ground (arith, h)
vacant-replicate (suc n) (suc i) e h = vacant-replicate n i e h

-- The last of the powers after `rounds` doublings.
abbrev reach : ℕ → ℕ → ℕ
reach zero power = power
reach (suc rounds) power = reach rounds (power * 2)

next_power_from-le :
    (rounds power n : ℕ)
    → n ≤ reach rounds power
    → (c : ℕ) × (next_power_from (suc rounds) power n ≡ some c) × (n ≤ c)
unfolding next_power_from
next_power_from-le zero power n p = (power, ground (arith, p), p)
next_power_from-le (suc rounds) power n p = elim (Bool-cases (leb n power)) [
  | inl fits ↦ (power, rw fits refl, ground (arith, fits))
  | inr small ↦
      let (c, at, above) = next_power_from-le rounds (power * 2) n p in (c, rw small at, above)
]

-- A new table represents the map with no page. For a positive number of frames of which twice as many
-- are at most 2 ^ 31, the construction ends without a panic in a table that has at least twice as many
-- slots as there are frames and represents the map with no page.
pub try_with_frame_count-Represents :
    (frame_count : ℕ)
    → 0 < frame_count
    → frame_count * 2 ≤ 2147483648
    → (t : PageTable) × (try_with_frame_count frame_count ≡ ok t)
      × (frame_count * 2 ≤ t.capacity)
      × Represents t (λ page. none)
unfolding try_with_frame_count
try_with_frame_count-Represents n some_frame fits =
    let (c, at, above) = next_power_from-le 31 1 (n * 2) fits in
    let doubled : leb (n * 2) u32_max ≡ true = ground (arith, fits) in
    (
      record { slots = replicate c none; capacity = c; len = 0 },
      rw (lt→ltb 0 n some_frame, doubled, at) refl,
      above,
      record {
        shape = record {
          cells = length-replicate c none;
          some_cell = omega (arith, above, some_frame);
          count = sym (filled-replicate c);
          probe = record {
            probed = λ i e h j p near. absurd (vacant-replicate c i e h);
            unique = λ i j e e' h h' same. absurd (vacant-replicate c i e h);
          };
        };
        agrees = λ page frame. (
          (λ (i, h). absurd (vacant-replicate c i (page, frame) h)),
          (λ is. absurd (ground (arith, is))),
        );
      },
    )
