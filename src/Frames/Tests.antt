-- ===== src/Frames/Tests.antt =====
-- src/pool/frames.rs: small arenas, and the theorems at them.
use dios.Common.{
  ℕ, zero, suc, ◌+◌, ◌*◌, ◌%◌, ◌≡◌, ◌≤◌, ◌⊎◌, refl, none, some, [], ◌∷◌, ok, arith, if◌then◌else◌,
  ◌==◌, get_elem?,
}
use dios.Ids.{PageId}
use dios.FrameState.{free, evicting, retag_word, pack_word}
use dios.Frames.{
  Frames, InFlightFrame, claim, publish, abort, advance, state, validate_resident, transfer_offset,
  consume_word, advance_word,
}
use dios.Frames.Arena.{IsArena, Step, here, next}
use dios.Frames.Stamps.{stamp_names_page}
use dios.Frames.System.{System, Act, Acts, IsOwned, holders}
use dios.Frames.Tokens.{token_unique, abort_held}
use dios.Frames.Ranges.{transfers_disjoint}

abbrev page_of : ℕ → PageId
page_of g = record { file = record { driver = 1; slot = 0; generation = 1 }; granule_idx = g }

-- Both frames hold their first pages.
abbrev both_resident : Frames
both_resident = record {
  states = 6 ∷ 6 ∷ [];
  pages = some (page_of 3) ∷ some (page_of 4) ∷ [];
  count = 2;
  granule = 4096;
  id = 9;
}

abbrev one_evicting : Frames
one_evicting = record both_resident { states = 6 ∷ 7 ∷ [] }

abbrev both_free : Frames
both_free = record both_resident { states = 0 ∷ 0 ∷ []; pages = none ∷ none ∷ [] }

abbrev first_token : InFlightFrame
first_token = record { arena = 9; frame = 1 }

abbrev second_token : InFlightFrame
second_token = record { arena = 9; frame = 2 }

abbrev both_in_flight : Frames
both_in_flight = record both_resident { states = 1 ∷ 1 ∷ [] }

claim-both_free :
    claim both_free 0 (page_of 3)
    ≡ ok (
      some first_token,
      record both_free { states = 1 ∷ 0 ∷ []; pages = some (page_of 3) ∷ none ∷ [] },
    )
unfolding claim retag_word
claim-both_free = refl

publish-generation :
    publish both_in_flight first_token ≡ ok (0, record both_in_flight { states = 6 ∷ 1 ∷ [] })
unfolding publish consume_word pack_word
publish-generation = refl

words_small : (i w : ℕ) (a b : ℕ) → a ≤ 7 → b ≤ 7 → get_elem? (a ∷ b ∷ []) i ≡ some w → w ≤ 7
words_small zero w a b p q e = ground arith
words_small (suc zero) w a b p q e = ground arith
words_small (suc (suc i)) w a b p q e = ground arith

both_resident-IsArena : IsArena both_resident
both_resident-IsArena = record {
  frames = refl;
  cells = refl;
  words = λ i w e. omega (arith, words_small i w 6 6 (omega arith) (omega arith) e);
}

stamp_names_page_example : page_of 3 ≡ page_of 3
unfolding advance validate_resident advance_word pack_word
stamp_names_page_example =
    stamp_names_page both_resident one_evicting 0 6 (page_of 3) (page_of 3) both_resident-IsArena
      (next here (Step.advances 1 evicting refl)) refl refl

abbrev unclaimed : System
unclaimed = record { arena = both_free; tokens = [] }

abbrev claimed : System
claimed = record {
  arena = record both_free { states = 1 ∷ 0 ∷ []; pages = some (page_of 3) ∷ none ∷ [] };
  tokens = first_token ∷ [];
}

unclaimed-IsOwned : IsOwned unclaimed
unclaimed-IsOwned = record {
  well_formed = record {
    frames = refl;
    cells = refl;
    words = λ i w e. omega (arith, words_small i w 0 0 (omega arith) (omega arith) e);
  };
  owners = vacant_word;
  held = tt;
}
  where
    vacant_word :
        (i w : ℕ) → get_elem? (0 ∷ 0 ∷ []) i ≡ some w → ◌≡◌ {A = ℕ} 0 (if w % 4 == 1 then 1 else 0)
    vacant_word zero w e = ground arith
    vacant_word (suc zero) w e = ground arith
    vacant_word (suc (suc i)) w e = ground arith

first_claim : Acts unclaimed claimed
unfolding claim retag_word
first_claim = Acts.next Acts.here (Act.claims 0 (page_of 3) (some first_token) claimed.arena refl)

token_unique_example : holders 0 (first_token ∷ []) ≡ 1
token_unique_example = token_unique unclaimed claimed 0 1 unclaimed-IsOwned first_claim refl

abort_held_example :
    (fs : Frames) × (abort claimed.arena first_token ≡ ok (0, fs)) × (state fs 0 ≡ ok free)
abort_held_example =
    abort_held unclaimed claimed [] [] first_token unclaimed-IsOwned first_claim refl

transfers_disjoint_example : ((512 + 512 ≤ 4096) ⊎ (4096 + 4096 ≤ 512)) × (512 + 512 ≤ 2 * 4096)
unfolding transfer_offset
transfers_disjoint_example =
    transfers_disjoint both_in_flight first_token second_token 512 512 0 4096 512 4096 (omega arith)
      refl refl
