-- ===== src/Frames/Ranges.antt =====
-- src/pool/frames.rs, `transfer_ptr`: the byte ranges that write tokens give out.
use dios.Common.{ℕ, ◌+◌, ◌*◌, ◌≤◌, ◌<◌, ◌≡◌, ◌≢◌, ◌⊎◌, inl, inr, ok, arith, dec_lt}
use dios.Frames.{Frames, InFlightFrame, token_frame, transfer_offset}

-- A transfer that is allowed stays inside the token's own frame, which is in flight.
pub transfer_offset-InFrame :
    (fs : Frames) (t : InFlightFrame) (at len : ℕ) {o : ℕ}
    → transfer_offset fs t at len ≡ ok o
    → (o ≡ token_frame t * fs.granule + at)
      × (at + len ≤ fs.granule)
      × (token_frame t < fs.count)
      × (t.arena ≡ fs.id)
unfolding transfer_offset
transfer_offset-InFrame fs t at len e = ground arith

rows_apart : (i j g : ℕ) → i < j → i * g + g ≤ j * g
rows_apart i j g h = grind arith

-- Two tokens of different frames never write the same byte, and every range that a token gives out
-- lies inside the arena's `count * granule` bytes.
pub transfers_disjoint :
    (fs : Frames) (t u : InFlightFrame) (at len at' len' : ℕ) (o o' : ℕ)
    → token_frame t ≢ token_frame u
    → transfer_offset fs t at len ≡ ok o
    → transfer_offset fs u at' len' ≡ ok o'
    → ((o + len ≤ o') ⊎ (o' + len' ≤ o)) × (o + len ≤ fs.count * fs.granule)
transfers_disjoint fs t u at len at' len' o o' ne e e' = (
  elim (dec_lt (token_frame t) (token_frame u)) [
    | yes lt ↦ inl (omega (arith, p, q, rows_apart (token_frame t) (token_frame u) fs.granule lt))
    | no ge ↦
        inr
          (omega (arith, p, q, rows_apart (token_frame u) (token_frame t) fs.granule (omega arith)))
  ],
  omega (arith, p, rows_apart (token_frame t) fs.count fs.granule p.2),
)
  where
    p :
        (o ≡ token_frame t * fs.granule + at)
        × (at + len ≤ fs.granule)
        × (token_frame t < fs.count)
        × (t.arena ≡ fs.id)
    p = transfer_offset-InFrame fs t at len e

    q :
        (o' ≡ token_frame u * fs.granule + at')
        × (at' + len' ≤ fs.granule)
        × (token_frame u < fs.count)
        × (u.arena ≡ fs.id)
    q = transfer_offset-InFrame fs u at' len' e'
