-- ===== src/FreeFrames/Tests.antt =====
-- src/pool/frames.rs, `FreeFrames`, at a stack of two.
use dios.Common.{ℕ, Option, some, [], ◌∷◌, ok, ◌≡◌, arith}
use dios.FreeFrames.{FreeFrames, push_frame, pop_frame, contents, push_frame-pop_frame}

abbrev one_free : FreeFrames
one_free = record { frames = 1 ∷ 0 ∷ []; len = 1 }

push_frame-pop_frame_example :
    (s' : FreeFrames) × (push_frame one_free 5 ≡ ok s')
    × (contents s' ≡ 5 ∷ contents one_free)
    × ((top : Option ℕ) × (below : FreeFrames) × (pop_frame s' ≡ ok (top, below))
        × (top ≡ some 5)
        × (contents below ≡ contents one_free))
push_frame-pop_frame_example = push_frame-pop_frame one_free 5 (omega arith)
