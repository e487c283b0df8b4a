-- ===== src/FrameState/Laws.antt =====
-- src/pool/frames.rs: what the packed residency word says.
use dios.Common.{ℕ, ◌/◌, ◌%◌, ◌≤◌, ◌≡◌, ◌⊎◌, ok, arith, u64_max}
use dios.FrameState.{
  FrameState, free, in_flight, resident, evicting, to_tag, from_word, pack_word, retag_word,
  frame_generation_max,
}

-- The state of a word is told by its two low bits, and no word panics.
pub from_word_cases :
    (w : ℕ)
    → ((from_word w ≡ ok free) × (w % 4 ≡ 0))
      ⊎ ((from_word w ≡ ok in_flight) × (w % 4 ≡ 1))
      ⊎ ((from_word w ≡ ok resident) × (w % 4 ≡ 2))
      ⊎ ((from_word w ≡ ok evicting) × (w % 4 ≡ 3))
unfolding from_word
from_word_cases w = ground arith

pub from_word-tag : (w : ℕ) {s : FrameState} → from_word w ≡ ok s → w % 4 ≡ to_tag s
unfolding from_word
from_word-tag w e = ground arith

pub pack_word_parts :
    (g : ℕ) (s : FrameState)
    → g ≤ frame_generation_max
    → (pack_word g s / 4 ≡ g) × (pack_word g s % 4 ≡ to_tag s)
unfolding pack_word
pack_word_parts g s h = ground arith

pub retag_word_parts :
    (w : ℕ) (s : FrameState) → (retag_word w s / 4 ≡ w / 4) × (retag_word w s % 4 ≡ to_tag s)
unfolding retag_word
retag_word_parts w s = ground arith

-- A packed word gives back its generation and its state, and stays a `u64`.
pub pack_word_round_trip :
    (g : ℕ) (s : FrameState)
    → g ≤ frame_generation_max
    → (from_word (pack_word g s) ≡ ok s) × (pack_word g s / 4 ≡ g) × (pack_word g s ≤ u64_max)
unfolding pack_word from_word
pack_word_round_trip g s h = ground arith
