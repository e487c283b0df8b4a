-- ===== src/FrameState/Tests.antt =====
-- src/pool/frames.rs, at one packed word.
use dios.Common.{◌≡◌, ◌≤◌, ◌/◌, ok, arith, u64_max}
use dios.FrameState.{resident, from_word, pack_word}
use dios.FrameState.Laws.{pack_word_round_trip}

pack_word_round_trip_example :
    (from_word (pack_word 9 resident) ≡ ok resident)
    × (pack_word 9 resident / 4 ≡ 9)
    × (pack_word 9 resident ≤ u64_max)
pack_word_round_trip_example = pack_word_round_trip 9 resident (omega arith)
