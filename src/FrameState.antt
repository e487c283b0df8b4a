-- ===== src/FrameState.antt =====
-- src/pool/frames.rs, `FrameState` and the packed residency word: two state bits below a residency
-- generation in a `u64`. A word is a number; `& MASK` is `% 4`, `<< 2` is `* 4` modulo 2 ^ 64, and
-- `|` of disjoint bits is a sum.
pub mod Laws
mod Tests
use dios.Common.{
  ℕ, ◌+◌, ◌*◌, ◌/◌, ◌%◌, ◌^◌, Bool, true, false, if◌then◌else◌, ◌==◌, Option, none, some, leb,
  Checked, ok, panic, expect, checked_add, u64_max, ◌>>=◌,
}

pub data FrameState : Type 0 where
  free in_flight resident evicting : FrameState

-- The residency cycle and the miss-abort edge; any other edge panics.
unfoldable pub advance : FrameState → FrameState → Checked FrameState
advance free in_flight = ok in_flight
advance in_flight resident = ok resident
advance in_flight free = ok free
advance resident evicting = ok evicting
advance evicting free = ok free
advance _ _ = panic

abbrev pub to_tag : FrameState → ℕ
to_tag free = 0
to_tag in_flight = 1
to_tag resident = 2
to_tag evicting = 3

unfoldable pub from_tag : ℕ → Checked FrameState
from_tag tag =
    if tag == 0
    then ok free
    else if tag == 1
    then ok in_flight
    else if tag == 2
    then ok resident
    else if tag == 3
    then ok evicting
    else panic

abbrev pub frame_state_bits : ℕ
frame_state_bits = 2

abbrev pub frame_generation_max : ℕ
frame_generation_max = u64_max / 2 ^ frame_state_bits

unfoldable pub from_word : ℕ → Checked FrameState
unfolding from_tag
from_word word = from_tag (word % 2 ^ frame_state_bits)

-- `self == other` of the derived `PartialEq`.
abbrev pub state_eq : FrameState → FrameState → Bool
state_eq a b = to_tag a == to_tag b

-- `(generation << FRAME_STATE_BITS) | tag`
unfoldable pub pack_word : ℕ → FrameState → ℕ
pack_word generation next = generation * 2 ^ frame_state_bits % 2 ^ 64 + to_tag next

-- `(word & !FRAME_STATE_MASK) | tag`
unfoldable pub retag_word : ℕ → FrameState → ℕ
retag_word word next = word / 2 ^ frame_state_bits * 2 ^ frame_state_bits + to_tag next

-- `checked_add(1).filter(|next| next <= MAX)`
next_generation : ℕ → Option ℕ
next_generation generation = elim (checked_add u64_max generation 1) [
  | none ↦ none
  | some next ↦ if leb next frame_generation_max then some next else none
]

unfoldable pub advance_generation : ℕ → FrameState → Checked ℕ
unfolding next_generation
advance_generation current_word next =
    let generation = current_word / 2 ^ frame_state_bits in
    if state_eq next resident then expect (next_generation generation) else ok generation
