-- ===== src/Frames/Tokens.antt =====
-- src/pool/frames.rs: the write token of a frame is unique.
use dios.Common.{
  ℕ, ◌%◌, ◌/◌, ◌<◌, ◌≡◌, some, List, ◌∷◌, ◌++◌, get_elem?, ok, arith, if◌then◌else◌, ◌==◌,
  get_elem?-set_self, lt_of_get_elem?, length-set, get_elem?_lt,
}
use dios.FrameState.{free, pack_word}
use dios.Frames.{Frames, InFlightFrame, token_frame, abort, state, consume}
use dios.Frames.Moves.{store_word, consume_word-free}
use dios.Frames.Arena.{IsArena}
use dios.Frames.System.{System, Act, Acts, holders, Held-split, IsOwned, here, next}
use dios.Frames.Owners.{
  IsOwned-claims, IsOwned-claims_raw, IsOwned-exchanges, IsOwned-publishes, IsOwned-aborts,
  IsOwned-advances, holders_split,
}

Act-IsOwned : {s s' : System} → IsOwned s → Act s s' → IsOwned s'
Act-IsOwned {s} v (Act.claims frame page t fs e) = IsOwned-claims s v frame page t fs e
Act-IsOwned {s} v (Act.claims_raw frame t fs e) = IsOwned-claims_raw s v frame t fs e
Act-IsOwned {s} v (Act.exchanges frame w t fs tag e) = IsOwned-exchanges s v frame w t fs tag e
Act-IsOwned {s} v (Act.publishes ts us t f fs split e) = IsOwned-publishes s v ts us t f fs split e
Act-IsOwned {s} v (Act.aborts ts us t f fs split e) = IsOwned-aborts s v ts us t f fs split e
Act-IsOwned {s} v (Act.advances frame to fs e) = IsOwned-advances s v frame to fs e

Acts-IsOwned : {s s' : System} → IsOwned s → Acts s s' → IsOwned s'
Acts-IsOwned v here = v
Acts-IsOwned v (next r a) = Act-IsOwned (Acts-IsOwned v r) a

abort_writing :
    (fs : Frames) (t : InFlightFrame) (w : ℕ)
    → IsArena fs
    → t.arena ≡ fs.id
    → token_frame t < fs.count
    → get_elem? fs.states (token_frame t) ≡ some w
    → w % 4 ≡ 1
    → (gs : Frames) × (abort fs t ≡ ok (token_frame t, gs)) × (state gs (token_frame t) ≡ ok free)
unfolding abort consume state
abort_writing fs t w v own inside at tag =
    let w' = pack_word (w / 4) free in
    let (word, freed) = consume_word-free w tag in
    let inside' = lt_of_get_elem? fs.states (token_frame t) at in
    let same = get_elem?-set_self fs.states (token_frame t) w' inside' in
    let size = length-set fs.states (token_frame t) w' in
    (store_word fs (token_frame t) w', ground arith, ground arith)

-- A token that somebody holds can always be given back: `abort` does not panic, names the token's
-- frame, and leaves that frame free.
pub abort_held :
    (s s' : System) (ts us : List InFlightFrame) (t : InFlightFrame)
    → IsOwned s
    → Acts s s'
    → s'.tokens ≡ ts ++ (t ∷ us)
    → (fs : Frames) × (abort s'.arena t ≡ ok (token_frame t, fs))
      × (state fs (token_frame t) ≡ ok free)
abort_held s s' ts us t v r split =
    let v' = Acts-IsOwned v r in
    let (own, inside, _) = Held-split _ _ ts us t (rw split at v'.held) in
    let (w, at) =
      get_elem?_lt s'.arena.states (token_frame t) (omega (arith, v'.well_formed.frames)) in
    let one = holders_split s' v' (token_frame t) ts us t split in
    let is = v'.owners (token_frame t) w at in
    let tag : w % 4 ≡ 1 = ground arith in
    abort_writing s'.arena t w v'.well_formed own inside at tag

-- From a well-formed system in which every frame in flight has exactly one token and any other frame has
-- none, such as a fresh arena without tokens, and however claims, publications, aborts and evictions of any frames
-- follow one another, a frame in flight has exactly one token and any other frame has none.
pub token_unique :
    (s s' : System) (frame w : ℕ)
    → IsOwned s
    → Acts s s'
    → get_elem? s'.arena.states frame ≡ some w
    → holders frame s'.tokens ≡ (if w % 4 == 1 then 1 else 0)
token_unique s s' frame w v r at = (Acts-IsOwned v r).owners frame w at
