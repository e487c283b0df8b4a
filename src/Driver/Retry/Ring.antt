-- ===== src/Driver/Retry/Ring.antt =====
-- src/driver.rs, `ring_progress` against `execute`: both cores follow one retry policy.
use dios.Common.{
  ℕ, ◌+◌, ◌-◌, ◌≡◌, ◌≢◌, ◌≤◌, ◌<◌, inl, inr, Option, none, some, List, [], ◌∷◌, map, length-drop,
  Checked, ok, ◌>>=◌, arith, refl, Bool-cases, ◌==◌, subst, sym,
}
use dios.Driver.Retry.{
  OpKind, read, write, fsync, Attempt, done, failed, interrupted, would_block, Outcome, errno,
  OpContext, eintr, eagain, i32_max, execute_loop, execute, ℤ, pos, negsuc, OpEntry, resubmit,
  terminal, write_context, ring_result, ring_should_retry, settle, ring_progress,
}
use dios.Driver.Retry.Eager.{
  IsSound, Fits, tail_of, advance_write-tail_of, tail_of-requested_len, tail_of-IsSound,
}

-- The ring's completions of one operation, each resubmitted as its progress says.
abbrev pub ring_run : ℕ → OpEntry → List ℤ → Checked (Option Outcome)
ring_run bound entry [] = ok none
ring_run bound entry (raw ∷ raws) = ring_progress entry raw bound >>= λ p. elim p.0 [
  | resubmit ↦ ring_run bound p.1 raws
  | terminal o ↦ ok (some o)
]

-- The raw result that stands for an answer.
abbrev pub raw_of : Attempt → ℤ
raw_of (done bytes) = pos bytes
raw_of (failed number) = negsuc (number - 1)
raw_of interrupted = negsuc (eintr - 1)
raw_of would_block = negsuc (eagain - 1)

-- The errors that end an operation are error numbers, and not the two transient ones.
abbrev pub IsHard : List Attempt → Type 0
IsHard [] = Unit
IsHard (failed number ∷ answers) =
    (0 < number) × (number ≤ i32_max) × (number ≢ eintr) × (number ≢ eagain) × IsHard answers
IsHard (_ ∷ answers) = IsHard answers

abbrev pub entry_of : OpKind → ℕ → OpContext → OpEntry
entry_of kind retries c = record {
  kind = kind;
  file_offset = c.file_offset;
  destination_offset = c.destination_offset;
  requested_len = c.requested_len;
  retries = retries;
}

-- What the ring makes of an error that ends an operation, and of a write's short transfer.
failed_ends :
    (kind : OpKind) (bound retries : ℕ) (c : OpContext) (number : ℕ)
    → 0 < number
    → number ≤ i32_max
    → number ≢ eintr
    → number ≢ eagain
    → ring_progress (entry_of kind retries c) (negsuc (number - 1)) bound
      ≡ ok (terminal (errno number), entry_of kind retries c)
unfolding ring_progress settle ring_should_retry ring_result
failed_ends kind bound retries c number p q r t =
    let back : number - 1 + 1 ≡ number = omega arith in rw back (ground arith)

short_progress :
    (bound retries : ℕ) (c : OpContext) (bytes : ℕ)
    → IsSound write c
    → 0 < bytes
    → bytes < c.requested_len
    → ring_progress (entry_of write retries c) (pos bytes) bound
      ≡ ok (resubmit, entry_of write retries (tail_of c bytes))
unfolding ring_progress settle ring_should_retry write_context
short_progress bound retries c bytes v p q =
    ground (arith, v.file, v.destination, length-drop bytes c.write_buf, v.buffer refl)

tail_of-whole :
    (c : OpContext) (bytes whole : ℕ)
    → IsSound write c
    → whole ≡ c.destination_offset + c.requested_len
    → bytes < c.requested_len
    → whole ≡ (tail_of c bytes).destination_offset + (tail_of c bytes).requested_len
unfolding write_context
tail_of-whole c bytes whole v w p = omega (arith, w, length-drop bytes c.write_buf, v.buffer refl)

loops_agree :
    (bound retries whole : ℕ) (kind : OpKind) (c : OpContext) (answers : List Attempt)
    → IsSound kind c
    → whole ≡ c.destination_offset + c.requested_len
    → Fits kind c.requested_len answers
    → IsHard answers
    → ring_run bound (entry_of kind retries c) (map raw_of answers)
      ≡ execute_loop bound kind whole retries c answers
unfolding execute_loop ring_progress settle ring_should_retry ring_result
loops_agree bound retries whole kind c [] v w f h = refl
loops_agree bound retries whole kind c (failed number ∷ answers) v w f h =
    rw (failed_ends kind bound retries c number h.0 h.1 h.2 h.3) refl
loops_agree bound retries whole kind c (interrupted ∷ answers) v w f h =
    ground (arith, loops_agree bound (retries + 1) whole kind c answers v w f h)
loops_agree bound retries whole kind c (would_block ∷ answers) v w f h =
    ground (arith, loops_agree bound (retries + 1) whole kind c answers v w f h)
loops_agree bound retries whole read c (done bytes ∷ answers) v w f h = ground (arith, f.0)
loops_agree bound retries whole fsync c (done bytes ∷ answers) v w f h = ground (arith, f.0)
loops_agree bound retries whole write c (done bytes ∷ answers) v w f h =
    elim (Bool-cases (bytes == c.requested_len)) [
      | inl all ↦ ground (arith, all, f.0, w, v.destination)
      | inr short ↦ elim (Bool-cases (bytes == 0)) [
        | inl no_bytes ↦
            let same : c.requested_len - bytes ≡ c.requested_len = ground (arith, no_bytes) in
            let go =
              loops_agree bound (retries + 1) whole write c answers v w
                (subst (λ n. Fits write n answers) same f.1) h in
            ground (arith, short, no_bytes, f.0, go)
        | inr some_bytes ↦
            let shorter : bytes < c.requested_len = ground (arith, short, f.0) in
            let more : 0 < bytes = ground (arith, some_bytes) in
            let left = tail_of-requested_len c bytes v in
            let go =
              loops_agree bound retries whole write (tail_of c bytes) answers
                (tail_of-IsSound c bytes v shorter) (tail_of-whole c bytes whole v w shorter)
                (subst (λ n. Fits write n answers) (sym left) f.1) h in
            rw
              (
                short_progress bound retries c bytes v more shorter,
                advance_write-tail_of c bytes v more shorter,
              )
              (ground (arith, short, more, f.0, go))
      ]
    ]

-- Both cores follow one retry policy. The operation is fresh and at the start of its buffer, its
-- offsets plus the bytes asked for overflow no word, a write's buffer holds the bytes asked for, no
-- answer reports more bytes than are left, and the errors among the answers are positive `i32` numbers
-- other than the transient two. Then the ring's completions come to the outcome that the eager loop
-- comes to on the same answers, after as many of them.
pub ring_run-execute :
    (bound : ℕ) (kind : OpKind) (c : OpContext) (answers : List Attempt)
    → IsSound kind c
    → c.destination_offset ≡ 0
    → Fits kind c.requested_len answers
    → IsHard answers
    → ring_run bound (entry_of kind 0 c) (map raw_of answers) ≡ execute bound kind c answers
unfolding execute
ring_run-execute bound kind c answers v z f h =
    loops_agree bound 0 c.requested_len kind c answers v (omega (arith, z)) f h
