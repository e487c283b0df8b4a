-- ===== src/Frames.antt =====
-- src/pool/frames.rs, `Frames` and `InFlightFrame`: the arena of frames with one residency word and
-- one page identity each. A method on `&self` that stores returns the new arena. An atomic operation
-- is one step; `compare_exchange` names the value that the caller has loaded before.
pub mod Moves
pub mod Arena
pub mod Effects
pub mod Stamps
pub mod System
pub mod Owners
pub mod Tokens
pub mod Ranges
mod Tests
use dios.Common.{
  ℕ, ◌+◌, ◌*◌, ◌-◌, ◌≡◌, Bool, true, false, not, ◌&&◌, ◌||◌, if◌then◌else◌, ◌==◌, ltb, leb, Option,
  none, some, List, length, get_elem?, set, Checked, ok, panic, assert, expect, checked_add,
  u32_max, ◌>>=◌, ◌>>◌,
}
use dios.Ids.{PageId}
use dios.FrameState.{
  FrameState, free, in_flight, resident, evicting, from_word, state_eq, pack_word, retag_word,
  advance_generation,
}
use dios.FrameState

-- `pages` holds `MaybeUninit` cells: `none` is a cell that was never written.
pub record Frames : Type 0 where
  pub states : List ℕ
  pub pages : List (Option PageId)
  pub count : ℕ
  pub granule : ℕ
  pub id : ℕ

-- The write token; `frame` is the frame's index plus one.
pub record InFlightFrame : Type 0 where
  pub arena : ℕ
  pub frame : ℕ

new_token : ℕ → ℕ → Checked InFlightFrame
new_token arena frame = do
  plus_one ← expect (checked_add u32_max frame 1)
  ok (record { arena = arena; frame = plus_one })

-- `InFlightFrame::frame`
abbrev pub token_frame : InFlightFrame → ℕ
token_frame t = t.frame - 1

abbrev pub checked_index : Frames → ℕ → Checked ℕ
checked_index fs frame = assert (ltb frame (length fs.states)) >> ok frame

abbrev pub owned_index : Frames → InFlightFrame → Checked ℕ
owned_index fs token = do
  assert (token.arena == fs.id)
  assert (ltb (token_frame token) fs.count)
  ok (token_frame token)

-- An exchange stores only if the word is still the one that was loaded.
unfoldable pub compare_exchange : List ℕ → ℕ → ℕ → ℕ → Option (List ℕ)
compare_exchange words index current next = elim (get_elem? words index) [
  | none ↦ none
  | some word ↦ if word == current then some (set words index next) else none
]

-- The second half of a claim, after the load of `current_word`.
unfoldable pub claim_exchange : Frames → ℕ → ℕ → Checked (Option InFlightFrame × Frames)
unfolding new_token FrameState.advance compare_exchange
claim_exchange fs frame current_word = do
  next ← FrameState.advance free in_flight
  elim (compare_exchange fs.states frame current_word (retag_word current_word next)) [
    | none ↦ ok (none, fs)
    | some words ↦ (do token ← new_token fs.id frame; ok (some token, record fs { states = words }))
  ]

unfoldable pub claim_unidentified : Frames → ℕ → Checked (Option InFlightFrame × Frames)
unfolding from_word claim_exchange
claim_unidentified fs frame = do
  index ← checked_index fs frame
  current_word ← expect (get_elem? fs.states index)
  current ← from_word current_word
  if state_eq current free then claim_exchange fs frame current_word else ok (none, fs)

-- `ExactPageCells::write`
abbrev pub write_page : Frames → InFlightFrame → PageId → Frames
write_page fs token page = record fs { pages = set fs.pages (token_frame token) (some page) }

unfoldable pub claim : Frames → ℕ → PageId → Checked (Option InFlightFrame × Frames)
unfolding claim_unidentified
claim fs frame page = do
  (claimed, taken) ← claim_unidentified fs frame
  elim claimed [
    | none ↦ ok (none, taken)
    | some token ↦ ok (some token, write_page taken token page)
  ]

-- The word that `consume` stores over `current_word`.
unfoldable pub consume_word : ℕ → FrameState → Checked ℕ
unfolding from_word FrameState.advance advance_generation
consume_word current_word to = do
  current ← from_word current_word
  assert (state_eq current in_flight)
  next ← FrameState.advance current to
  generation ← advance_generation current_word next
  ok (pack_word generation next)

unfoldable pub consume : Frames → InFlightFrame → FrameState → Checked (ℕ × Frames)
consume fs token to = do
  index ← owned_index fs token
  current_word ← expect (get_elem? fs.states index)
  next_word ← consume_word current_word to
  ok (token_frame token, record fs { states = set fs.states index next_word })

unfoldable pub publish : Frames → InFlightFrame → Checked (ℕ × Frames)
unfolding consume
publish fs token = consume fs token resident

unfoldable pub abort : Frames → InFlightFrame → Checked (ℕ × Frames)
unfolding consume
abort fs token = consume fs token free

abbrev pub reclamation_edge : FrameState → FrameState → Bool
reclamation_edge resident evicting = true
reclamation_edge evicting free = true
reclamation_edge _ _ = false

-- The word that `advance` stores over `current_word`.
unfoldable pub advance_word : ℕ → FrameState → Checked ℕ
unfolding from_word FrameState.advance advance_generation
advance_word current_word to = do
  current ← from_word current_word
  assert (reclamation_edge current to)
  next ← FrameState.advance current to
  generation ← advance_generation current_word next
  ok (pack_word generation next)

unfoldable pub advance : Frames → ℕ → FrameState → Checked Frames
advance fs frame to = do
  index ← checked_index fs frame
  current_word ← expect (get_elem? fs.states index)
  next_word ← advance_word current_word to
  ok (record fs { states = set fs.states index next_word })

unfoldable pub state_word : Frames → ℕ → Checked ℕ
state_word fs frame = do index ← checked_index fs frame; expect (get_elem? fs.states index)

unfoldable pub state : Frames → ℕ → Checked FrameState
unfolding state_word from_word
state fs frame = state_word fs frame >>= from_word

unfoldable pub word_is_resident : ℕ → Checked Bool
unfolding from_word
word_is_resident word = do s ← from_word word; ok (state_eq s resident)

-- `ExactPageCells::read`: a read of a cell that was never written is no defined behaviour.
abbrev pub read_page : Frames → ℕ → Checked PageId
read_page fs index = expect (get_elem? fs.pages index) >>= expect

-- Under a pin that has begun: the page, if the word is still `stamp` and the frame resident.
unfoldable pub validate_resident : Frames → ℕ → ℕ → Checked (Option PageId)
unfolding word_is_resident
validate_resident fs frame stamp = do
  index ← checked_index fs frame
  word ← expect (get_elem? fs.states index)
  shown ← word_is_resident word
  if not (word == stamp) || not shown
      then ok none
      else (do page ← read_page fs index; ok (some page))

-- `transfer_ptr`, as an offset from the arena's base.
unfoldable pub transfer_offset : Frames → InFlightFrame → ℕ → ℕ → Checked ℕ
unfolding from_word
transfer_offset fs token destination_offset requested_len = do
  index ← owned_index fs token
  current_word ← expect (get_elem? fs.states index)
  current ← from_word current_word
  assert (state_eq current in_flight)
  assert (leb destination_offset fs.granule)
  assert (leb requested_len (fs.granule - destination_offset))
  ok (index * fs.granule + destination_offset)
