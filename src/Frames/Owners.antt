-- ===== src/Frames/Owners.antt =====
-- src/pool/frames.rs: every call keeps one token for each frame in flight.
use dios.Common.{
  ℕ, ◌+◌, ◌%◌, ◌≤◌, ◌≡◌, ◌≢◌, inl, inr, refl, Option, some, List, ◌∷◌, ◌++◌, get_elem?, set, ok,
  arith, u64_max, if◌then◌else◌, ◌==◌, get_elem?-set_self, get_elem?-set_ne, lt_of_get_elem?, ap,
  sym, ◌∙◌, ℕ_discrete, subst₂,
}
use dios.Ids.{PageId}
use dios.FrameState.{FrameState, free, in_flight, resident, evicting}
use dios.Frames.{
  Frames, InFlightFrame, token_frame, claim_exchange, claim_unidentified, claim, publish, abort,
  advance, advance_word,
}
use dios.Frames.Moves.{
  consume_word-publish, consume_word-abort, advance_word-evict, advance_word-free,
  advance_word-other, consume-Stores, advance-Stores, claim-Stores, claim_exchange-Stores,
  claim_unidentified-Stores,
}
use dios.Frames.Arena.{Step, IsArena-Step}
use dios.Frames.System.{System, keep, holders, holders-append, Held, Held-split, writing, IsOwned}

module _ (s : System) (v : IsOwned s) where
  -- A store of `w'` at frame `f` whose word was `w`, with the holders' list changed to suit.
  owners_store :
      (fs : Frames) (ts : List InFlightFrame) (f w w' : ℕ)
      → get_elem? s.arena.states f ≡ some w
      → fs.states ≡ set s.arena.states f w'
      → ((i : ℕ) → i ≢ f → holders i ts ≡ holders i s.tokens)
      → holders f ts + writing w ≡ holders f s.tokens + writing w'
      → (i x : ℕ) → get_elem? fs.states i ≡ some x
      → holders i ts ≡ writing x
  owners_store fs ts f w w' at stored other own i x e = elim (ℕ_discrete f i) [
    | yes same ↦
        let x_is : some w' ≡ some x =
          sym (get_elem?-set_self s.arena.states f w' (lt_of_get_elem? s.arena.states f at))
          ∙ rw (← stored) (rw same e) in
        let before = v.owners f w at in ground (arith, before, own, x_is)
    | no ne ↦
        let kept : get_elem? s.arena.states i ≡ some x =
          sym (get_elem?-set_ne s.arena.states f i w' ne) ∙ rw stored at e in
        other i (λ h. ne (sym h)) ∙ v.owners i x kept
  ]

  Held-move :
      (fs : Frames) (ts : List InFlightFrame)
      → fs.id ≡ s.arena.id
      → fs.count ≡ s.arena.count
      → Held s.arena.id s.arena.count ts
      → Held fs.id fs.count ts
  Held-move fs ts p q h = subst₂ (λ a b. Held a b ts) (sym p) (sym q) h

  Held-new :
      (frame w : ℕ) (token : InFlightFrame)
      → get_elem? s.arena.states frame ≡ some w
      → token_frame token ≡ frame
      → token.arena ≡ s.arena.id
      → Held s.arena.id s.arena.count (token ∷ s.tokens)
  Held-new frame w token at named own =
      (own, omega (arith, lt_of_get_elem? s.arena.states frame at, v.well_formed.frames), v.held)

  pub IsOwned-claims :
      (frame : ℕ) (page : PageId) (t : Option InFlightFrame) (fs : Frames)
      → claim s.arena frame page ≡ ok (t, fs)
      → IsOwned (record { arena = fs; tokens = keep t s.tokens })
  IsOwned-claims frame page t fs e = record {
    well_formed = IsArena-Step s.arena fs v.well_formed (Step.claims frame page t e);
    owners = elim (claim-Stores s.arena frame page e) [
      | inl (is, same) ↦ rw (is, same) v.owners
      | inr (w, token, at, tag, is, named, own, stored) ↦
          owners_store fs (keep t s.tokens) frame w (w + 1) at (ap (λ x. x.states) stored)
            (λ i ne. ground arith) (ground arith)
    ];
    held = elim (claim-Stores s.arena frame page e) [
      | inl (is, same) ↦ rw (is, same) v.held
      | inr (w, token, at, tag, is, named, own, stored) ↦ rw is (
          Held-move fs (token ∷ s.tokens) (ap (λ x. x.id) stored) (ap (λ x. x.count) stored)
            (Held-new frame w token at named own))
    ];
  }

  pub IsOwned-claims_raw :
      (frame : ℕ) (t : Option InFlightFrame) (fs : Frames)
      → claim_unidentified s.arena frame ≡ ok (t, fs)
      → IsOwned (record { arena = fs; tokens = keep t s.tokens })
  IsOwned-claims_raw frame t fs e = record {
    well_formed = IsArena-Step s.arena fs v.well_formed (Step.claims_raw frame t e);
    owners = elim (claim_unidentified-Stores s.arena frame e) [
      | inl (is, same) ↦ rw (is, same) v.owners
      | inr (w, token, at, tag, is, named, own, stored) ↦
          owners_store fs (keep t s.tokens) frame w (w + 1) at (ap (λ x. x.states) stored)
            (λ i ne. ground arith) (ground arith)
    ];
    held = elim (claim_unidentified-Stores s.arena frame e) [
      | inl (is, same) ↦ rw (is, same) v.held
      | inr (w, token, at, tag, is, named, own, stored) ↦ rw is (
          Held-move fs (token ∷ s.tokens) (ap (λ x. x.id) stored) (ap (λ x. x.count) stored)
            (Held-new frame w token at named own))
    ];
  }

  pub IsOwned-exchanges :
      (frame w : ℕ) (t : Option InFlightFrame) (fs : Frames)
      → w % 4 ≡ 0
      → claim_exchange s.arena frame w ≡ ok (t, fs)
      → IsOwned (record { arena = fs; tokens = keep t s.tokens })
  IsOwned-exchanges frame w t fs tag e = record {
    well_formed = IsArena-Step s.arena fs v.well_formed (Step.exchanges frame w t tag e);
    owners = elim (claim_exchange-Stores s.arena frame w tag e) [
      | inl (is, same) ↦ rw (is, same) v.owners
      | inr (token, at, is, named, own, stored) ↦
          owners_store fs (keep t s.tokens) frame w (w + 1) at (ap (λ x. x.states) stored)
            (λ i ne. ground arith) (ground arith)
    ];
    held = elim (claim_exchange-Stores s.arena frame w tag e) [
      | inl (is, same) ↦ rw (is, same) v.held
      | inr (token, at, is, named, own, stored) ↦ rw is (
          Held-move fs (token ∷ s.tokens) (ap (λ x. x.id) stored) (ap (λ x. x.count) stored)
            (Held-new frame w token at named own))
    ];
  }

  -- The holders of frame `i` before and after the token `t` is consumed.
  pub holders_split :
      (i : ℕ) (ts us : List InFlightFrame) (t : InFlightFrame)
      → s.tokens ≡ ts ++ (t ∷ us)
      → holders i s.tokens ≡ (if token_frame t == i then 1 else 0) + holders i (ts ++ us)
  holders_split i ts us t e =
      rw e (omega (arith, holders-append i ts (t ∷ us), holders-append i ts us))

  pub IsOwned-publishes :
      (ts us : List InFlightFrame) (t : InFlightFrame) (f : ℕ) (fs : Frames)
      → s.tokens ≡ ts ++ (t ∷ us)
      → publish s.arena t ≡ ok (f, fs)
      → IsOwned (record { arena = fs; tokens = ts ++ us })
  unfolding publish
  IsOwned-publishes ts us t f fs split e =
      let (w, w', at, word, stored, named) = consume-Stores s.arena t resident e in
      let (tag, _, tag', _) = consume_word-publish w (v.well_formed.words f w at) word in
      record {
        well_formed = IsArena-Step s.arena fs v.well_formed (Step.publishes t f e);
        owners =
            owners_store fs (ts ++ us) f w w' at (ap (λ x. x.states) stored)
              (λ i ne. ground (arith, holders_split i ts us t split))
              (ground (arith, holders_split f ts us t split));
        held = rw stored (Held-split _ _ ts us t (rw split at v.held)).2;
      }

  pub IsOwned-aborts :
      (ts us : List InFlightFrame) (t : InFlightFrame) (f : ℕ) (fs : Frames)
      → s.tokens ≡ ts ++ (t ∷ us)
      → abort s.arena t ≡ ok (f, fs)
      → IsOwned (record { arena = fs; tokens = ts ++ us })
  unfolding abort
  IsOwned-aborts ts us t f fs split e =
      let (w, w', at, word, stored, named) = consume-Stores s.arena t free e in
      let (tag, down) = consume_word-abort w (v.well_formed.words f w at) word in
      record {
        well_formed = IsArena-Step s.arena fs v.well_formed (Step.aborts t f e);
        owners =
            owners_store fs (ts ++ us) f w w' at (ap (λ x. x.states) stored)
              (λ i ne. ground (arith, holders_split i ts us t split))
              (ground (arith, holders_split f ts us t split));
        held = rw stored (Held-split _ _ ts us t (rw split at v.held)).2;
      }

  advance_word-writing :
      (w w' : ℕ) (to : FrameState)
      → w ≤ u64_max
      → advance_word w to ≡ ok w'
      → writing w' ≡ writing w
  advance_word-writing w w' evicting h e = ground (arith, advance_word-evict w h e)
  advance_word-writing w w' free h e = ground (arith, advance_word-free w h e)
  advance_word-writing w w' in_flight h e = absurd ((advance_word-other w).0 e)
  advance_word-writing w w' resident h e = absurd ((advance_word-other w).1 e)

  pub IsOwned-advances :
      (frame : ℕ) (to : FrameState) (fs : Frames)
      → advance s.arena frame to ≡ ok fs
      → IsOwned (record { arena = fs; tokens = s.tokens })
  IsOwned-advances frame to fs e =
      let (w, w', at, word, stored) = advance-Stores s.arena frame to e in
      record {
        well_formed = IsArena-Step s.arena fs v.well_formed (Step.advances frame to e);
        owners =
            owners_store fs s.tokens frame w w' at (ap (λ x. x.states) stored) (λ i ne. refl)
              (omega (arith, advance_word-writing w w' to (v.well_formed.words frame w at) word));
        held = rw stored v.held;
      }
