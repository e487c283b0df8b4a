-- ===== src/Frames/Moves.antt =====
-- src/pool/frames.rs: what each arena operation does to the word and the page of every frame.
use dios.Common.{
  ℕ, ◌+◌, ◌/◌, ◌%◌, ◌≤◌, ◌≡◌, ◌≢◌, ◌⊎◌, inl, inr, refl, Option, none, some, get_elem?, set, ok,
  arith, u64_max, Option-cases, Bool-cases, Checked-cases, leb, ◌&&◌, u32_max, ◌==◌,
}
use dios.Ids.{PageId}
use dios.FrameState.{
  FrameState, free, in_flight, resident, evicting, from_word, retag_word, pack_word,
}
use dios.Frames.{
  Frames, InFlightFrame, token_frame, claim_exchange, claim_unidentified, claim, consume_word,
  consume, advance_word, advance,
}

-- One operation's effect on one frame: its word and its page, before and after.
pub data Move (w : ℕ) (p : Option PageId) (w' : ℕ) (p' : Option PageId) : Type 0 where
  stays : w' ≡ w → p' ≡ p → Move w p w' p'
  claims : w % 4 ≡ 0 → w' ≡ w + 1 → Move w p w' p'
  publishes : w % 4 ≡ 1 → w' / 4 ≡ w / 4 + 1 → w' % 4 ≡ 2 → p' ≡ p → Move w p w' p'
  aborts : w % 4 ≡ 1 → w ≡ w' + 1 → p' ≡ p → Move w p w' p'
  evicts : w % 4 ≡ 2 → w' ≡ w + 1 → p' ≡ p → Move w p w' p'
  frees : w % 4 ≡ 3 → w ≡ w' + 3 → p' ≡ p → Move w p w' p'

pub consume_word-publish :
    (w : ℕ) {w' : ℕ}
    → w ≤ u64_max
    → consume_word w resident ≡ ok w'
    → (w % 4 ≡ 1) × (w' / 4 ≡ w / 4 + 1) × (w' % 4 ≡ 2) × (w' ≤ u64_max)
unfolding consume_word pack_word
consume_word-publish w h e = ground arith

pub consume_word-abort :
    (w : ℕ) {w' : ℕ} → w ≤ u64_max → consume_word w free ≡ ok w' → (w % 4 ≡ 1) × (w ≡ w' + 1)
unfolding consume_word pack_word
consume_word-abort w h e = ground arith

-- The abort of a frame in flight stores a free word.
pub consume_word-free :
    (w : ℕ)
    → w % 4 ≡ 1
    → (consume_word w free ≡ ok (pack_word (w / 4) free))
      × (from_word (pack_word (w / 4) free) ≡ ok free)
unfolding consume_word pack_word
consume_word-free w h = ground arith

pub advance_word-evict :
    (w : ℕ) {w' : ℕ} → w ≤ u64_max → advance_word w evicting ≡ ok w' → (w % 4 ≡ 2) × (w' ≡ w + 1)
unfolding advance_word pack_word
advance_word-evict w h e = ground arith

pub advance_word-free :
    (w : ℕ) {w' : ℕ} → w ≤ u64_max → advance_word w free ≡ ok w' → (w % 4 ≡ 3) × (w ≡ w' + 3)
unfolding advance_word pack_word
advance_word-free w h e = ground arith

pub advance_word-other :
    (w : ℕ) {w' : ℕ} → (advance_word w in_flight ≢ ok w') × (advance_word w resident ≢ ok w')
unfolding advance_word
advance_word-other w = ground arith

-- The arena that stores `w'` at frame `i`.
abbrev pub store_word : Frames → ℕ → ℕ → Frames
store_word fs i w' = record fs { states = set fs.states i w' }

pub consume-Stores :
    (fs : Frames) (token : InFlightFrame) (to : FrameState) {f : ℕ} {fs' : Frames}
    → consume fs token to ≡ ok (f, fs')
    → (w : ℕ) × (w' : ℕ) × (get_elem? fs.states f ≡ some w)
      × (consume_word w to ≡ ok w')
      × (fs' ≡ store_word fs f w')
      × (f ≡ token_frame token)
unfolding consume
consume-Stores fs token to e = elim (Option-cases (get_elem? fs.states (token_frame token))) [
  | inl out ↦ absurd (ground arith)
  | inr (w, at) ↦ elim (Checked-cases (consume_word w to)) [
    | inl (w', stored) ↦ (w, w', ground arith, stored, ground arith, ground arith)
    | inr bad ↦ absurd (ground arith)
  ]
]

pub advance-Stores :
    (fs : Frames) (frame : ℕ) (to : FrameState) {fs' : Frames}
    → advance fs frame to ≡ ok fs'
    → (w : ℕ) × (w' : ℕ) × (get_elem? fs.states frame ≡ some w)
      × (advance_word w to ≡ ok w')
      × (fs' ≡ store_word fs frame w')
unfolding advance
advance-Stores fs frame to e = elim (Option-cases (get_elem? fs.states frame)) [
  | inl out ↦ absurd (ground arith)
  | inr (w, at) ↦ elim (Checked-cases (advance_word w to)) [
    | inl (w', stored) ↦ (w, w', at, stored, ground arith)
    | inr bad ↦ absurd (ground arith)
  ]
]

retag_word-claim : (w : ℕ) → w % 4 ≡ 0 → retag_word w in_flight ≡ w + 1
unfolding retag_word
retag_word-claim w h = omega arith

-- A claim's exchange after a load of a free word `w`, which other threads may have changed since:
-- it takes the frame, whose word is still `w`, or leaves the arena alone.
pub claim_exchange-Stores :
    (fs : Frames) (frame w : ℕ) {t : Option InFlightFrame} {fs' : Frames}
    → w % 4 ≡ 0
    → claim_exchange fs frame w ≡ ok (t, fs')
    → ((t ≡ none) × (fs' ≡ fs))
      ⊎ ((token : InFlightFrame) × (get_elem? fs.states frame ≡ some w)
          × (t ≡ some token)
          × (token_frame token ≡ frame)
          × (token.arena ≡ fs.id)
          × (fs' ≡ store_word fs frame (w + 1)))
unfolding claim_exchange
claim_exchange-Stores fs frame w tag e = elim (Option-cases (get_elem? fs.states frame)) [
  | inl out ↦ inl (ground arith, ground arith)
  | inr (v, at) ↦ elim (Bool-cases (v == w && leb (frame + 1) u32_max)) [
    | inl taken ↦ inr (
      record { arena = fs.id; frame = frame + 1 },
      ground arith,
      ground arith,
      ground arith,
      refl,
      ground (arith, retag_word-claim w tag),
    )
    | inr lost ↦ inl (ground arith, ground arith)
  ]
]

-- A claim takes a free frame, or leaves the arena alone.
pub claim_unidentified-Stores :
    (fs : Frames) (frame : ℕ) {t : Option InFlightFrame} {fs' : Frames}
    → claim_unidentified fs frame ≡ ok (t, fs')
    → ((t ≡ none) × (fs' ≡ fs))
      ⊎ ((w : ℕ) × (token : InFlightFrame) × (get_elem? fs.states frame ≡ some w)
          × (w % 4 ≡ 0)
          × (t ≡ some token)
          × (token_frame token ≡ frame)
          × (token.arena ≡ fs.id)
          × (fs' ≡ store_word fs frame (w + 1)))
unfolding claim_unidentified
claim_unidentified-Stores fs frame e = elim (Option-cases (get_elem? fs.states frame)) [
  | inl out ↦ absurd (ground arith)
  | inr (w, at) ↦ elim (Bool-cases (w % 4 == 0 && leb (frame + 1) u32_max)) [
    | inl free_frame ↦ inr (
      w,
      record { arena = fs.id; frame = frame + 1 },
      at,
      ground arith,
      ground arith,
      ground arith,
      refl,
      ground (arith, retag_word-claim w),
    )
    | inr kept ↦ inl (ground arith, ground arith)
  ]
]

-- A claim with a page does the same, and writes the page of the frame that it takes.
pub claim-Stores :
    (fs : Frames) (frame : ℕ) (page : PageId) {t : Option InFlightFrame} {fs' : Frames}
    → claim fs frame page ≡ ok (t, fs')
    → ((t ≡ none) × (fs' ≡ fs))
      ⊎ ((w : ℕ) × (token : InFlightFrame) × (get_elem? fs.states frame ≡ some w)
          × (w % 4 ≡ 0)
          × (t ≡ some token)
          × (token_frame token ≡ frame)
          × (token.arena ≡ fs.id)
          × (fs' ≡ record (store_word fs frame (w + 1)) { pages = set fs.pages frame (some page) }))
unfolding claim
claim-Stores fs frame page e = elim (Checked-cases (claim_unidentified fs frame)) [
  | inr bad ↦ absurd (ground arith)
  | inl ((none, taken), first) ↦ elim (claim_unidentified-Stores fs frame first) [
    | inl (_, same) ↦ inl (ground arith, ground arith)
    | inr (w, token, at, tag, is, named, own, stored) ↦ absurd (ground arith)
  ]
  | inl ((some token', taken), first) ↦ elim (claim_unidentified-Stores fs frame first) [
    | inl (bad, _) ↦ absurd (ground arith)
    | inr (w, token, at, tag, is, named, own, stored) ↦
        inr (w, token, at, tag, ground arith, named, own, ground arith)
  ]
]
