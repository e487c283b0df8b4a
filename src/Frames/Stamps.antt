-- ===== src/Frames/Stamps.antt =====
-- src/pool/frames.rs: a residency stamp names one publication of one page. Every sequence of arena
-- operations is a path of the relation `Reach`.
use dios.Common.{ℕ, ◌/◌, ◌%◌, ◌<◌, ◌≡◌, ◌≢◌, ◌⊎◌, inl, refl, Option, some, get_elem?, ok, arith}
use dios.Ids.{PageId}
use dios.FrameState.{from_word}
use dios.Frames.{Frames, validate_resident}
use dios.Frames.Moves.{Move}
use dios.Frames.Arena.{IsArena, Reach, here, next, Reach-IsArena}
use dios.Frames.Effects.{Moved-Step}

-- A stamp `w0` taken while the frame held `p0`, seen from a later word `w` and page `p`: nothing has
-- changed, or the stamp will never be the frame's word again while it is resident.
abbrev Later : ℕ → Option PageId → ℕ → Option PageId → Type 0
Later w0 p0 w p = ((w ≡ w0) × (p ≡ p0)) ⊎ (w0 / 4 < w / 4) ⊎ ((w / 4 ≡ w0 / 4) × (w % 4 ≢ 2))

Later-Move :
    (w0 : ℕ) (p0 : Option PageId) (w : ℕ) (p : Option PageId) (w' : ℕ) (p' : Option PageId)
    → w0 % 4 ≡ 2
    → Move w p w' p'
    → Later w0 p0 w p
    → Later w0 p0 w' p'
Later-Move w0 p0 w p w' p' h (Move.stays a b) l = ground arith
Later-Move w0 p0 w p w' p' h (Move.claims a b) l = ground arith
Later-Move w0 p0 w p w' p' h (Move.publishes a b c d) l = ground arith
Later-Move w0 p0 w p w' p' h (Move.aborts a b c) l = ground arith
Later-Move w0 p0 w p w' p' h (Move.evicts a b c) l = ground arith
Later-Move w0 p0 w p w' p' h (Move.frees a b c) l = ground arith

record Seen (w0 : ℕ) (p0 : Option PageId) (i : ℕ) (fs : Frames) : Type 0 where
  word : ℕ
  page : Option PageId
  word_at : get_elem? fs.states i ≡ some word
  page_at : get_elem? fs.pages i ≡ some page
  later : Later w0 p0 word page

Reach-Seen :
    {fs fs' : Frames} (i w0 : ℕ) (p0 : Option PageId)
    → IsArena fs
    → get_elem? fs.states i ≡ some w0
    → get_elem? fs.pages i ≡ some p0
    → w0 % 4 ≡ 2
    → Reach fs fs'
    → Seen w0 p0 i fs'
Reach-Seen i w0 p0 v at cell tag here = record {
  word = w0;
  page = p0;
  word_at = at;
  page_at = cell;
  later = inl (refl, refl);
}
Reach-Seen i w0 p0 v at cell tag (next {gs = gs} {hs = hs} r st) =
    let s = Reach-Seen i w0 p0 v at cell tag r in
    let m = Moved-Step gs i s.word s.page s.word_at s.page_at (Reach-IsArena v r) hs st in
    record {
      word = m.word;
      page = m.page;
      word_at = m.word_at;
      page_at = m.page_at;
      later = Later-Move w0 p0 s.word s.page m.word m.page tag m.move s.later;
    }

-- What a validation that succeeds has seen.
pub validate_resident-some :
    (fs : Frames) (frame stamp : ℕ) {page : PageId}
    → validate_resident fs frame stamp ≡ ok (some page)
    → (get_elem? fs.states frame ≡ some stamp)
      × (stamp % 4 ≡ 2)
      × (get_elem? fs.pages frame ≡ some (some page))
unfolding validate_resident from_word
validate_resident-some fs frame stamp e = ground arith

-- A stamp is not fooled by reuse: if a frame validates against the same stamp at two moments with
-- any sequence of claims, publications, aborts and evictions of any frames between them, both
-- validations give the same page.
pub stamp_names_page :
    (fs fs' : Frames) (frame stamp : ℕ) (page page' : PageId)
    → IsArena fs
    → Reach fs fs'
    → validate_resident fs frame stamp ≡ ok (some page)
    → validate_resident fs' frame stamp ≡ ok (some page')
    → page ≡ page'
stamp_names_page fs fs' frame stamp page page' v r e e' =
    let (at, tag, cell) = validate_resident-some fs frame stamp e in
    let (at', _, cell') = validate_resident-some fs' frame stamp e' in
    let s = Reach-Seen frame stamp (some page) v at cell tag r in
    ground (arith, s.word_at, s.page_at, s.later)
