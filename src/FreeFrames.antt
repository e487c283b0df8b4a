-- ===== src/FreeFrames.antt =====
-- src/pool/frames.rs, `FreeFrames`: the stack of free frames, in a fixed slice with a length.
mod Tests
use dios.Common.{
  ℕ, zero, suc, ◌+◌, ◌-◌, ◌≡◌, ◌≤◌, ◌<◌, Option, none, some, List, [], ◌∷◌, length, get_elem?, set,
  take, replicate, ltb, Checked, ok, assert, expect, ◌>>=◌, ◌>>◌, arith, refl, subst, sym, ap, ◌∙◌,
  if◌then◌else◌, ◌==◌, get_elem?-set_ne, get_elem?-set_self,
}

pub record FreeFrames : Type 0 where
  pub frames : List ℕ
  pub len : ℕ

unfoldable pub empty : ℕ → FreeFrames
empty capacity = record { frames = replicate capacity 0; len = 0 }

-- The frames below `n` from the last down, so that the first pop takes frame 0.
abbrev descending : ℕ → List ℕ
descending zero = []
descending (suc n) = n ∷ descending n

unfoldable pub with_all : ℕ → FreeFrames
with_all frame_count = record { frames = descending frame_count; len = frame_count }

unfoldable pub push_frame : FreeFrames → ℕ → Checked FreeFrames
push_frame s frame = do
  assert (ltb s.len (length s.frames))
  ok (record { frames = set s.frames s.len frame; len = s.len + 1 })

unfoldable pub pop_frame : FreeFrames → Checked (Option ℕ × FreeFrames)
pop_frame s = if s.len == 0 then ok (none, s) else (do
  frame ← expect (get_elem? s.frames (s.len - 1))
  ok (some frame, record s { len = s.len - 1 }))

-- The frames on the stack, the top first.
abbrev pub stacked : List ℕ → ℕ → List ℕ
stacked frames zero = []
stacked frames (suc n) = elim (get_elem? frames n) [
  | none ↦ stacked frames n
  | some frame ↦ frame ∷ stacked frames n
]

abbrev pub contents : FreeFrames → List ℕ
contents s = stacked s.frames s.len

stacked-set : (frames : List ℕ) (k n v : ℕ) → n ≤ k → stacked (set frames k v) n ≡ stacked frames n
stacked-set frames k zero v p = refl
stacked-set frames k (suc n) v p = ground (
  arith,
  get_elem?-set_ne frames k n v (λ e. omega arith),
  stacked-set frames k n v (omega arith),
)

stacked-suc :
    (frames : List ℕ) (n frame : ℕ)
    → get_elem? frames n ≡ some frame
    → stacked frames (n + 1) ≡ frame ∷ stacked frames n
stacked-suc frames n frame e =
    let next : n + 1 ≡ suc n = omega arith in
    subst (λ k. stacked frames k ≡ frame ∷ stacked frames n) (sym next) (ground (arith, e))

-- The slice is a stack. Below its capacity a push succeeds and puts the frame on top of what the
-- stack holds, and a pop then gives that frame and leaves what was below it.
pub push_frame-pop_frame :
    (s : FreeFrames) (frame : ℕ)
    → s.len < length s.frames
    → ((s' : FreeFrames) × (push_frame s frame ≡ ok s')
        × (contents s' ≡ frame ∷ contents s)
        × ((top : Option ℕ) × (below : FreeFrames) × (pop_frame s' ≡ ok (top, below))
            × (top ≡ some frame)
            × (contents below ≡ contents s)))
unfolding push_frame pop_frame
push_frame-pop_frame s frame p =
    let at = get_elem?-set_self s.frames s.len frame p in
    (
      record { frames = set s.frames s.len frame; len = s.len + 1 },
      ground (arith, p),
      stacked-suc (set s.frames s.len frame) s.len frame at
          ∙ ap (λ rest. frame ∷ rest) (stacked-set s.frames s.len s.len frame (omega arith)),
      (
        some frame,
        record { frames = set s.frames s.len frame; len = s.len },
        ground (arith, at),
        refl,
        stacked-set s.frames s.len s.len frame (omega arith),
      ),
    )
