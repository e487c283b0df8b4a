-- ===== src/Frames/Arena.antt =====
-- src/pool/frames.rs: the operations on an arena as the steps of a relation, and what every step
-- keeps.
use dios.Common.{
  ℕ, ◌+◌, ◌%◌, ◌≤◌, ◌<◌, ◌≡◌, inl, inr, Option, some, length, get_elem?, set, ok, arith, u64_max,
  get_elem?-set_self, get_elem?-set_ne, lt_of_get_elem?, length-set, ap, sym, ◌∙◌, ℕ_discrete,
}
use dios.Ids.{PageId}
use dios.FrameState.{FrameState, free, in_flight, resident, evicting}
use dios.Frames.{
  Frames, InFlightFrame, claim_exchange, claim_unidentified, claim, publish, abort, advance,
  advance_word,
}
use dios.Frames.Moves.{
  consume_word-publish, consume_word-abort, advance_word-evict, advance_word-free,
  advance_word-other, consume-Stores, advance-Stores, claim-Stores, claim_exchange-Stores,
  claim_unidentified-Stores,
}

-- What the constructor gives and every operation keeps: one word and one page cell a frame, and
-- words of 64 bits.
pub record IsArena (fs : Frames) : Type 0 where
  pub frames : length fs.states ≡ fs.count
  pub cells : length fs.pages ≡ fs.count
  pub words : (i w : ℕ) → get_elem? fs.states i ≡ some w → w ≤ u64_max

-- One operation that returns.
pub data Step (fs : Frames) (fs' : Frames) : Type 0 where
  claims :
      (frame : ℕ) (page : PageId) (t : Option InFlightFrame)
      → claim fs frame page ≡ ok (t, fs')
      → Step fs fs'
  claims_raw :
      (frame : ℕ) (t : Option InFlightFrame)
      → claim_unidentified fs frame ≡ ok (t, fs')
      → Step fs fs'
  -- A claim that loaded the free word `w` some steps before.
  exchanges :
      (frame w : ℕ) (t : Option InFlightFrame)
      → w % 4 ≡ 0
      → claim_exchange fs frame w ≡ ok (t, fs')
      → Step fs fs'
  publishes : (token : InFlightFrame) (f : ℕ) → publish fs token ≡ ok (f, fs') → Step fs fs'
  aborts : (token : InFlightFrame) (f : ℕ) → abort fs token ≡ ok (f, fs') → Step fs fs'
  advances : (frame : ℕ) (to : FrameState) → advance fs frame to ≡ ok fs' → Step fs fs'

pub data Reach (fs : Frames) : Frames → Type 0 where
  here : Reach fs fs
  next : {gs hs : Frames} → Reach fs gs → Step gs hs → Reach fs hs

pub some_inj : {w v : ℕ} → some w ≡ some v → w ≡ v
some_inj e = cc

-- Every word of an arena after a store of a word of 64 bits is one of 64 bits.
IsArena-store :
    (fs fs' : Frames) (f w' : ℕ)
    → IsArena fs
    → w' ≤ u64_max
    → fs'.states ≡ set fs.states f w'
    → length fs'.pages ≡ length fs.pages
    → fs'.count ≡ fs.count
    → IsArena fs'
IsArena-store fs fs' f w' v h stored cells count = record {
  frames = rw stored (omega (arith, length-set fs.states f w', v.frames));
  cells = omega (arith, v.cells);
  words = λ i w e. elim (ℕ_discrete f i) [
    | yes same ↦
        let inside : i < length (set fs.states f w') =
          lt_of_get_elem? (set fs.states f w') i (rw stored at e) in
        let at : get_elem? (set fs.states f w') i ≡ some w' =
          rw (sym same)
            (get_elem?-set_self fs.states f w' (omega (arith, length-set fs.states f w', same))) in
        omega (arith, some_inj (sym at ∙ rw stored at e))
    | no ne ↦ v.words i w (sym (get_elem?-set_ne fs.states f i w' ne) ∙ rw stored at e)
  ];
}

IsArena-claim_unidentified :
    (fs fs' : Frames) (frame : ℕ) (t : Option InFlightFrame)
    → IsArena fs
    → claim_unidentified fs frame ≡ ok (t, fs')
    → IsArena fs'
IsArena-claim_unidentified fs fs' frame t v e = elim (claim_unidentified-Stores fs frame e) [
  | inl (_, same) ↦ rw same v
  | inr (w, _, at, tag, _, _, _, stored) ↦
      IsArena-store fs fs' frame (w + 1) v (omega (arith, v.words frame w at))
        (ap (λ x. x.states) stored) (ap (λ x. length x.pages) stored) (ap (λ x. x.count) stored)
]

IsArena-claim :
    (fs fs' : Frames) (frame : ℕ) (page : PageId) (t : Option InFlightFrame)
    → IsArena fs
    → claim fs frame page ≡ ok (t, fs')
    → IsArena fs'
IsArena-claim fs fs' frame page t v e = elim (claim-Stores fs frame page e) [
  | inl (_, same) ↦ rw same v
  | inr (w, _, at, tag, _, _, _, made) ↦
      IsArena-store fs fs' frame (w + 1) v (omega (arith, v.words frame w at))
        (ap (λ x. x.states) made)
        (ap (λ x. length x.pages) made ∙ length-set fs.pages frame (some page))
        (ap (λ x. x.count) made)
]

pub IsArena-Step : (fs fs' : Frames) → IsArena fs → Step fs fs' → IsArena fs'
unfolding publish abort
IsArena-Step fs fs' v (claims frame page t e) = IsArena-claim fs fs' frame page t v e
IsArena-Step fs fs' v (claims_raw frame t e) = IsArena-claim_unidentified fs fs' frame t v e
IsArena-Step fs fs' v (exchanges frame w t tag e) = elim (claim_exchange-Stores fs frame w tag e) [
  | inl (_, same) ↦ rw same v
  | inr (_, at, _, _, _, stored) ↦
      IsArena-store fs fs' frame (w + 1) v (omega (arith, v.words frame w at))
        (ap (λ x. x.states) stored) (ap (λ x. length x.pages) stored) (ap (λ x. x.count) stored)
]
IsArena-Step fs fs' v (publishes token f e) =
    let (w, w', at, word, stored, _) = consume-Stores fs token resident e in
    IsArena-store fs fs' f w' v (consume_word-publish w (v.words f w at) word).3
      (ap (λ x. x.states) stored) (ap (λ x. length x.pages) stored) (ap (λ x. x.count) stored)
IsArena-Step fs fs' v (aborts token f e) =
    let (w, w', at, word, stored, _) = consume-Stores fs token free e in
    IsArena-store fs fs' f w' v
      (omega (arith, consume_word-abort w (v.words f w at) word, v.words f w at))
      (ap (λ x. x.states) stored) (ap (λ x. length x.pages) stored) (ap (λ x. x.count) stored)
IsArena-Step fs fs' v (advances frame to e) =
    let (w, w', at, word, stored) = advance-Stores fs frame to e in
    IsArena-store fs fs' frame w' v (advanced w w' to (v.words frame w at) word)
      (ap (λ x. x.states) stored) (ap (λ x. length x.pages) stored) (ap (λ x. x.count) stored)
  where
    advanced : (w w' : ℕ) (to : FrameState) → w ≤ u64_max → advance_word w to ≡ ok w' → w' ≤ u64_max
    advanced w w' evicting h e = omega (arith, advance_word-evict w h e)
    advanced w w' free h e = omega (arith, advance_word-free w h e)
    advanced w w' in_flight h e = absurd ((advance_word-other w).0 e)
    advanced w w' resident h e = absurd ((advance_word-other w).1 e)

-- Every operation keeps the arena well formed.
pub Reach-IsArena : {fs fs' : Frames} → IsArena fs → Reach fs fs' → IsArena fs'
Reach-IsArena v here = v
Reach-IsArena v (next {gs = gs} {hs = hs} r st) = IsArena-Step gs hs (Reach-IsArena v r) st
