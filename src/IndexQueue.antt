-- ===== src/IndexQueue.antt =====
-- src/pool/prefetch/state.rs, `IndexQueue`: a queue of distinct indices in a fixed array of links.
pub mod Order
pub mod Erase
pub mod Unlink
pub mod Spec
pub mod Push
mod Tests
use dios.Common.{
  ℕ, Option, none, some, List, get_elem?, set, replicate, Checked, ok, expect, ◌>>=◌, ◌>>◌,
}

pub record Links : Type 0 where
  pub previous : Option ℕ
  pub next : Option ℕ

pub record IndexQueue : Type 0 where
  pub links : List (Option Links)
  pub first : Option ℕ
  pub last : Option ℕ

abbrev pub new_queue : ℕ → IndexQueue
new_queue capacity = record { links = replicate capacity none; first = none; last = none }

abbrev pub Cells : Type 0
Cells = List (Option Links)

-- The links of a member, of which the code expects that they are there.
abbrev pub link_at : Cells → ℕ → Checked Links
link_at cells index = expect (get_elem? cells index) >>= λ cell. expect cell

abbrev pub set_next : Cells → ℕ → Option ℕ → Checked Cells
set_next cells index next = do
  link ← link_at cells index
  ok (set cells index (some (record link { next = next })))

abbrev pub set_previous : Cells → ℕ → Option ℕ → Checked Cells
set_previous cells index previous = do
  link ← link_at cells index
  ok (set cells index (some (record link { previous = previous })))

abbrev pub push_after : IndexQueue → ℕ → Cells → Option ℕ → Checked IndexQueue
push_after q index cells none = ok (record { links = cells; first = some index; last = some index })
push_after q index cells (some last) = do
  linked ← set_next cells last (some index)
  ok (record { links = linked; first = q.first; last = some index })

unfoldable pub push_index : IndexQueue → ℕ → Checked IndexQueue
push_index q index = expect (get_elem? q.links index) >>= λ cell. elim cell [
  | some link ↦ ok q
  | none ↦
      push_after q index (set q.links index (some (record { previous = q.last; next = none })))
        q.last
]

-- What comes before the removed index leads to what comes after it.
abbrev pub unlink_previous : IndexQueue → Links → Checked IndexQueue
unlink_previous q link = elim link.previous [
  | none ↦ ok (record q { first = link.next })
  | some previous ↦ (do
    cells ← set_next q.links previous link.next
    ok (record q { links = cells }))
]

abbrev pub unlink_next : IndexQueue → Links → Checked IndexQueue
unlink_next q link = elim link.next [
  | none ↦ ok (record q { last = link.previous })
  | some next ↦ (do
    cells ← set_previous q.links next link.previous
    ok (record q { links = cells }))
]

unfoldable pub remove_index : IndexQueue → ℕ → Checked IndexQueue
remove_index q index = expect (get_elem? q.links index) >>= λ cell. elim cell [
  | none ↦ ok q
  | some link ↦ (do
    before ← unlink_previous (record q { links = set q.links index none }) link
    unlink_next before link)
]

unfoldable pub pop_index : IndexQueue → Checked (Option ℕ × IndexQueue)
unfolding remove_index
pop_index q = elim q.first [
  | none ↦ ok (none, q)
  | some index ↦ (do rest ← remove_index q index; ok (some index, rest))
]
