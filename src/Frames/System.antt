-- ===== src/Frames/System.antt =====
-- src/pool/frames.rs: the arena with the write tokens that its callers hold, and their calls.
use dios.Common.{
  ℕ, ◌+◌, ◌%◌, ◌<◌, ◌≡◌, Option, none, some, List, [], ◌∷◌, ◌++◌, get_elem?, ok, arith,
  if◌then◌else◌, ◌==◌,
}
use dios.Ids.{PageId}
use dios.FrameState.{FrameState}
use dios.Frames.{
  Frames, InFlightFrame, token_frame, claim_exchange, claim_unidentified, claim, publish, abort,
  advance,
}
use dios.Frames.Arena.{IsArena}

pub record System : Type 0 where
  pub arena : Frames
  pub tokens : List InFlightFrame

abbrev pub keep : Option InFlightFrame → List InFlightFrame → List InFlightFrame
keep none ts = ts
keep (some t) ts = t ∷ ts

-- A call by a holder or by the pool. A token is consumed by the call that it is given to.
pub data Act (s : System) : System → Type 0 where
  claims :
      (frame : ℕ) (page : PageId) (t : Option InFlightFrame) (fs : Frames)
      → claim s.arena frame page ≡ ok (t, fs)
      → Act s (record { arena = fs; tokens = keep t s.tokens })
  claims_raw :
      (frame : ℕ) (t : Option InFlightFrame) (fs : Frames)
      → claim_unidentified s.arena frame ≡ ok (t, fs)
      → Act s (record { arena = fs; tokens = keep t s.tokens })
  -- The exchange of a claim that loaded the free word `w` some calls before.
  exchanges :
      (frame w : ℕ) (t : Option InFlightFrame) (fs : Frames)
      → w % 4 ≡ 0
      → claim_exchange s.arena frame w ≡ ok (t, fs)
      → Act s (record { arena = fs; tokens = keep t s.tokens })
  publishes :
      (ts us : List InFlightFrame) (t : InFlightFrame) (f : ℕ) (fs : Frames)
      → s.tokens ≡ ts ++ (t ∷ us)
      → publish s.arena t ≡ ok (f, fs)
      → Act s (record { arena = fs; tokens = ts ++ us })
  aborts :
      (ts us : List InFlightFrame) (t : InFlightFrame) (f : ℕ) (fs : Frames)
      → s.tokens ≡ ts ++ (t ∷ us)
      → abort s.arena t ≡ ok (f, fs)
      → Act s (record { arena = fs; tokens = ts ++ us })
  advances :
      (frame : ℕ) (to : FrameState) (fs : Frames)
      → advance s.arena frame to ≡ ok fs
      → Act s (record { arena = fs; tokens = s.tokens })

pub data Acts (s : System) : System → Type 0 where
  here : Acts s s
  next : {t u : System} → Acts s t → Act t u → Acts s u

-- How many tokens name frame `i`.
abbrev pub holders : ℕ → List InFlightFrame → ℕ
holders i [] = 0
holders i (t ∷ ts) = (if token_frame t == i then 1 else 0) + holders i ts

pub holders-append :
    (i : ℕ) (ts us : List InFlightFrame) → holders i (ts ++ us) ≡ holders i ts + holders i us
holders-append i [] us = omega arith
holders-append i (t ∷ ts) us = ground (arith, holders-append i ts us)

-- Every token is of this arena and of one of its frames.
abbrev pub Held : ℕ → ℕ → List InFlightFrame → Type 0
Held id count [] = Unit
Held id count (t ∷ ts) = (t.arena ≡ id) × (token_frame t < count) × Held id count ts

pub Held-split :
    (id count : ℕ) (ts us : List InFlightFrame) (t : InFlightFrame)
    → Held id count (ts ++ (t ∷ us))
    → (t.arena ≡ id) × (token_frame t < count) × Held id count (ts ++ us)
Held-split id count [] us t h = h
Held-split id count (x ∷ ts) us t h =
    let rest = Held-split id count ts us t h.2 in (rest.0, rest.1, (h.0, h.1, rest.2))

-- 1 for a word that says `InFlight`.
abbrev pub writing : ℕ → ℕ
writing w = if w % 4 == 1 then 1 else 0

-- Every frame has one token while it is in flight, and none otherwise.
pub record IsOwned (s : System) : Type 0 where
  pub well_formed : IsArena s.arena
  pub owners : (i w : ℕ) → get_elem? s.arena.states i ≡ some w → holders i s.tokens ≡ writing w
  pub held : Held s.arena.id s.arena.count s.tokens
