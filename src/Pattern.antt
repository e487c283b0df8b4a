-- ===== src/Pattern.antt =====
-- src/pool/prefetch/pattern.rs: what a reader's demands say of the pages to read ahead.
pub mod Shifts
pub mod Predictions
pub mod Window
mod Tests
use dios.Common.{
  ℕ, zero, suc, ◌+◌, ◌-◌, ◌*◌, Bool, true, false, not, ◌&&◌, if◌then◌else◌, ◌==◌, ltb, leb, min,
  max, Option, none, some, Checked, ok, panic, assert, expect, checked_add, checked_sub, u32_max,
  u64_max, ◌>>=◌, ◌>>◌,
}
use dios.Ids.{PageId, file_eq, page_eq}

pub data PatternState : Type 0 where
  empty : PatternState
  following : (last : PageId) (run : ℕ) → PatternState
  streaming : (demand : PageId) (next width : ℕ) → PatternState

pub record Pattern : Type 0 where
  pub state : PatternState
  pub incarnation : ℕ

unfoldable pub fresh : Pattern
fresh = record { state = empty; incarnation = 0 }

unfoldable pub reset : Pattern → Checked Pattern
reset p = do
  incarnation ← expect (checked_add u64_max p.incarnation 1)
  ok (record { state = empty; incarnation = incarnation })

-- The page that the pattern saw last.
abbrev pub last_of : PatternState → Option PageId
last_of empty = none
last_of (following last run) = some last
last_of (streaming demand next width) = some demand

-- `last.granule_idx().checked_add(1) == Some(page.granule_idx())`, of one file.
abbrev pub follows : PageId → PageId → Bool
follows last page =
    file_eq last.file page.file
    && (ltb last.granule_idx u32_max && last.granule_idx + 1 == page.granule_idx)

abbrev pub sequel : PatternState → PageId → ℕ → ℕ → Checked PatternState
sequel empty page next capacity = panic
sequel (following last run) page next capacity =
    ok (if ltb run 2 then following page (run + 1) else streaming page next (min capacity 4))
sequel (streaming demand issued width) page next capacity =
    ok (streaming page (max issued next) width)

unfoldable pub observe_sequential : Pattern → PageId → ℕ → Checked Pattern
unfolding reset
observe_sequential p page capacity = elim (checked_add u32_max page.granule_idx 1) [
  | none ↦ reset p
  | some next ↦ (do state ← sequel p.state page next capacity; ok (record p { state = state }))
]

abbrev pub start_over : Pattern → PageId → Checked Pattern
start_over p page = do again ← reset p; ok (record again { state = following page 1 })

-- `observe`, past its assertion, by the page seen last.
observe_after : Pattern → PageId → ℕ → Option PageId → Checked Pattern
unfolding observe_sequential reset
observe_after p page capacity none = start_over p page
observe_after p page capacity (some last) =
    if page_eq last page
    then ok p
    else if follows last page
    then observe_sequential p page capacity
    else start_over p page

unfoldable pub observe : Pattern → PageId → ℕ → Checked Pattern
unfolding observe_after
observe p page capacity = assert (ltb 0 capacity) >> observe_after p page capacity (last_of p.state)

-- `u32::saturating_add`
abbrev pub saturating_add : ℕ → ℕ → ℕ
saturating_add a b = if leb (a + b) u32_max then a + b else u32_max

-- Who asks for a read ahead.
pub data Source : Type 0 where
  explicit : Source
  automatic : (reader incarnation : ℕ) → Source

unfoldable pub request : Pattern → ℕ → Option (PageId × Source)
request p reader = elim p.state [
  | empty ↦ none
  | following last run ↦ none
  | streaming demand next width ↦
      if ltb (saturating_add demand.granule_idx width) next
      then none
      else some (record { file = demand.file; granule_idx = next }, automatic reader p.incarnation)
]

unfoldable pub window : Pattern → ℕ → ℕ → Checked (Option (PageId × Source × ℕ))
unfolding request
window p reader vector_width = elim (request p reader) [
  | none ↦ ok none
  | some asked ↦ elim p.state [
    | empty ↦ panic
    | following last run ↦ panic
    | streaming demand next width ↦
        let count = min width vector_width in
        (do
          ahead ← expect (checked_sub (saturating_add demand.granule_idx width) next)
          eligible ← expect (checked_add u32_max ahead 1)
          ok (if ltb eligible count then none else some (asked.0, asked.1, count)))
  ]
]

unfoldable pub issued : Pattern → PageId → Checked Pattern
unfolding reset
issued p page = elim p.state [
  | empty ↦ panic
  | following last run ↦ panic
  | streaming demand next width ↦
      assert (page_eq page (record { file = demand.file; granule_idx = next }))
      >> elim (checked_add u32_max next 1) [
        | none ↦ reset p
        | some after ↦ ok (record p { state = streaming demand after width })
      ]
]

-- `width.saturating_mul(2).min(capacity)`
abbrev pub widened : ℕ → ℕ → ℕ
widened width capacity = min (if leb (width * 2) u32_max then width * 2 else u32_max) capacity

unfoldable pub promoted : Pattern → PageId → ℕ → ℕ → Checked Pattern
unfolding observe
promoted p page incarnation capacity =
    if not (p.incarnation == incarnation) then ok p else elim p.state [
      | empty ↦ ok p
      | following last run ↦ ok p
      | streaming demand next width ↦
          assert (file_eq demand.file page.file)
          >> (if leb page.granule_idx demand.granule_idx
              then ok p
              else if ltb demand.granule_idx u32_max && demand.granule_idx + 1 == page.granule_idx
              then ok (record p { state = streaming page next (widened width capacity) })
              else observe p page capacity)
    ]

unfoldable pub owns : Pattern → ℕ → Bool
owns p incarnation = p.incarnation == incarnation
