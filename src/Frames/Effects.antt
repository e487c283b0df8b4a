-- ===== src/Frames/Effects.antt =====
-- src/pool/frames.rs: the effect of each step on the word and the page of one frame.
use dios.Common.{
  ℕ, ◌+◌, ◌≤◌, ◌≡◌, ◌≢◌, inl, inr, refl, Option, some, get_elem?, set, ok, u64_max,
  get_elem?-set_self, get_elem?-set_ne, lt_of_get_elem?, ap, sym, ◌∙◌, subst, ℕ_discrete,
}
use dios.Ids.{PageId}
use dios.FrameState.{FrameState, free, in_flight, resident, evicting}
use dios.Frames.{
  Frames, InFlightFrame, claim_unidentified, claim, publish, abort, advance, advance_word,
}
use dios.Frames.Moves.{
  Move, consume_word-publish, consume_word-abort, advance_word-evict, advance_word-free,
  advance_word-other, consume-Stores, advance-Stores, claim-Stores, claim_exchange-Stores,
  claim_unidentified-Stores,
}
use dios.Frames.Arena.{IsArena, Step, some_inj}

-- What a step does to frame `i`.
pub record Moved (fs fs' : Frames) (i w : ℕ) (p : Option PageId) : Type 0 where
  pub word : ℕ
  pub page : Option PageId
  pub word_at : get_elem? fs'.states i ≡ some word
  pub page_at : get_elem? fs'.pages i ≡ some page
  pub move : Move w p word page

module _ (fs : Frames) (i w : ℕ) (p : Option PageId) (w_at : get_elem? fs.states i ≡ some w)
    (p_at : get_elem? fs.pages i ≡ some p) where
  Moved-same : Moved fs fs i w p
  Moved-same = record {
    word = w;
    page = p;
    word_at = w_at;
    page_at = p_at;
    move = Move.stays refl refl;
  }

  -- A store of `w'` at frame `f`, whose word was `v`, and perhaps of a page.
  Moved-store :
      (fs' : Frames) (f v w' : ℕ) (p' : Option PageId)
      → get_elem? fs.states f ≡ some v
      → fs'.states ≡ set fs.states f w'
      → (f ≡ i → get_elem? fs'.pages i ≡ some p')
      → (f ≢ i → get_elem? fs'.pages i ≡ get_elem? fs.pages i)
      → Move v p w' p'
      → Moved fs fs' i w p
  Moved-store fs' f v w' p' at stored same other m = elim (ℕ_discrete f i) [
    | yes e ↦ record {
      word = w';
      page = p';
      word_at =
          rw stored
            (rw (sym e) (get_elem?-set_self fs.states f w' (lt_of_get_elem? fs.states f at)));
      page_at = same e;
      move = subst (λ x. Move x p w' p') (some_inj (sym at ∙ rw e w_at)) m;
    }
    | no ne ↦ record {
      word = w;
      page = p;
      word_at = rw stored (get_elem?-set_ne fs.states f i w' ne ∙ w_at);
      page_at = other ne ∙ p_at;
      move = Move.stays refl refl;
    }
  ]

  module _ (v64 : IsArena fs) where
    Moved-claim_unidentified :
        (frame : ℕ) (t : Option InFlightFrame) (fs' : Frames)
        → claim_unidentified fs frame ≡ ok (t, fs')
        → Moved fs fs' i w p
    Moved-claim_unidentified frame t fs' e = elim (claim_unidentified-Stores fs frame e) [
      | inl (_, same) ↦ rw same Moved-same
      | inr (v, _, at, tag, _, _, _, stored) ↦
          Moved-store fs' frame v (v + 1) p at (ap (λ x. x.states) stored)
            (λ _. ap (λ x. get_elem? x.pages i) stored ∙ p_at)
            (λ _. ap (λ x. get_elem? x.pages i) stored) (Move.claims tag refl)
    ]

    Moved-claim :
        (frame : ℕ) (page : PageId) (t : Option InFlightFrame) (fs' : Frames)
        → claim fs frame page ≡ ok (t, fs')
        → Moved fs fs' i w p
    Moved-claim frame page t fs' e = elim (claim-Stores fs frame page e) [
      | inl (_, same) ↦ rw same Moved-same
      | inr (v, token, at, tag, _, _, _, made) ↦
          let pages : fs'.pages ≡ set fs.pages frame (some page) = ap (λ x. x.pages) made in
          Moved-store fs' frame v (v + 1) (some page) at (ap (λ x. x.states) made)
            (λ f.
              rw pages (
                rw f (get_elem?-set_self fs.pages i (some page) (lt_of_get_elem? fs.pages i p_at))))
            (λ f. rw pages (get_elem?-set_ne fs.pages frame i (some page) f)) (Move.claims tag refl)
    ]

    Moved-publish :
        (token : InFlightFrame) (f : ℕ) (fs' : Frames)
        → publish fs token ≡ ok (f, fs')
        → Moved fs fs' i w p
    unfolding publish
    Moved-publish token f fs' e =
        let (v, w', at, word, stored, _) = consume-Stores fs token resident e in
        let (tag, generation, tag', _) = consume_word-publish v (v64.words f v at) word in
        Moved-store fs' f v w' p at (ap (λ x. x.states) stored)
          (λ _. ap (λ x. get_elem? x.pages i) stored ∙ p_at)
          (λ _. ap (λ x. get_elem? x.pages i) stored) (Move.publishes tag generation tag' refl)

    Moved-abort :
        (token : InFlightFrame) (f : ℕ) (fs' : Frames)
        → abort fs token ≡ ok (f, fs')
        → Moved fs fs' i w p
    unfolding abort
    Moved-abort token f fs' e =
        let (v, w', at, word, stored, _) = consume-Stores fs token free e in
        let (tag, down) = consume_word-abort v (v64.words f v at) word in
        Moved-store fs' f v w' p at (ap (λ x. x.states) stored)
          (λ _. ap (λ x. get_elem? x.pages i) stored ∙ p_at)
          (λ _. ap (λ x. get_elem? x.pages i) stored) (Move.aborts tag down refl)

    advance-Move :
        (v w' : ℕ) (to : FrameState) → v ≤ u64_max → advance_word v to ≡ ok w' → Move v p w' p
    advance-Move v w' evicting h e =
        let (tag, up) = advance_word-evict v h e in Move.evicts tag up refl
    advance-Move v w' free h e =
        let (tag, down) = advance_word-free v h e in Move.frees tag down refl
    advance-Move v w' in_flight h e = absurd ((advance_word-other v).0 e)
    advance-Move v w' resident h e = absurd ((advance_word-other v).1 e)

    Moved-advance :
        (frame : ℕ) (to : FrameState) (fs' : Frames)
        → advance fs frame to ≡ ok fs'
        → Moved fs fs' i w p
    Moved-advance frame to fs' e =
        let (v, w', at, word, stored) = advance-Stores fs frame to e in
        Moved-store fs' frame v w' p at (ap (λ x. x.states) stored)
          (λ _. ap (λ x. get_elem? x.pages i) stored ∙ p_at)
          (λ _. ap (λ x. get_elem? x.pages i) stored)
          (advance-Move v w' to (v64.words frame v at) word)

    pub Moved-Step : (fs' : Frames) → Step fs fs' → Moved fs fs' i w p
    Moved-Step fs' (Step.claims frame page t e) = Moved-claim frame page t fs' e
    Moved-Step fs' (Step.claims_raw frame t e) = Moved-claim_unidentified frame t fs' e
    Moved-Step fs' (Step.exchanges frame v t tag e) =
        elim (claim_exchange-Stores fs frame v tag e) [
          | inl (_, same) ↦ rw same Moved-same
          | inr (_, at, _, _, _, stored) ↦
              Moved-store fs' frame v (v + 1) p at (ap (λ x. x.states) stored)
                (λ _. ap (λ x. get_elem? x.pages i) stored ∙ p_at)
                (λ _. ap (λ x. get_elem? x.pages i) stored) (Move.claims tag refl)
        ]
    Moved-Step fs' (Step.publishes token f e) = Moved-publish token f fs' e
    Moved-Step fs' (Step.aborts token f e) = Moved-abort token f fs' e
    Moved-Step fs' (Step.advances frame to e) = Moved-advance frame to fs' e
