-- ===== src/Driver/Retry/Eager.antt =====
-- src/driver.rs, `execute`: the loop ends within its bounds, and a write that succeeds is whole.
use dios.Common.{
  ℕ, ◌+◌, ◌-◌, ◌≡◌, ◌≤◌, ◌<◌, inl, inr, not, some, List, [], ◌∷◌, length, drop, length-drop, ok,
  Checked, Option, none, false, ◌++◌, ap, ◌∙◌, arith, refl, u32_max, u64_max, Bool-cases, ◌==◌, leb,
  ltb, if◌then◌else◌, ◌&&◌, subst, sym,
}
use dios.Driver.Retry.{
  OpKind, read, write, fsync, is_read, is_write, Attempt, done, failed, interrupted, would_block,
  Outcome, transferred, errno, OpContext, eintr, eagain, eio, advance_write, write_context,
  execute_loop, execute,
}

-- A backend that never reports more bytes than are left to transfer.
abbrev pub Fits : OpKind → ℕ → List Attempt → Type 0
Fits kind left [] = Unit
Fits kind left (done bytes ∷ answers) =
    (bytes ≤ left) × Fits kind (if is_write kind then left - bytes else left) answers
Fits kind left (failed number ∷ answers) = Fits kind left answers
Fits kind left (interrupted ∷ answers) = Fits kind left answers
Fits kind left (would_block ∷ answers) = Fits kind left answers

-- A context whose words do not overflow, and whose buffer is what a write has left.
pub record IsSound (kind : OpKind) (c : OpContext) : Type 0 where
  pub file : c.file_offset + c.requested_len ≤ u64_max
  pub destination : c.destination_offset + c.requested_len ≤ u32_max
  pub buffer : kind ≡ write → length c.write_buf ≡ c.requested_len

abbrev WholeBytes : OpKind → ℕ → ℕ → Type 0
WholeBytes write whole n = n ≡ whole
WholeBytes read whole n = n ≤ whole
WholeBytes fsync whole n = n ≤ whole

-- The bytes that the answers report.
abbrev pub reported : List Attempt → ℕ
reported [] = 0
reported (done bytes ∷ answers) = bytes + reported answers
reported (failed number ∷ answers) = reported answers
reported (interrupted ∷ answers) = reported answers
reported (would_block ∷ answers) = reported answers

-- What a success says of an operation on `whole` bytes for which the backend reported `sum`: it gives
-- that sum, which is all of a write and no more than was asked of the others.
abbrev pub IsWhole : OpKind → ℕ → ℕ → Outcome → Type 0
IsWhole kind whole sum (errno n) = Unit
IsWhole kind whole sum (transferred n) = (n ≡ sum) × WholeBytes kind whole n

-- The answer that ends a run: before it the run has no outcome, and with it the outcome `o`, which
-- is right by the bytes reported up to it, `sofar` of them earlier.
pub record EndsRight (run : List Attempt → Checked (Option Outcome)) (kind : OpKind)
    (whole sofar : ℕ) (answers : List Attempt) (o : Outcome) : Type 0 where
  pub earlier : List Attempt
  pub last : Attempt
  pub later : List Attempt
  pub parts : answers ≡ earlier ++ (last ∷ later)
  pub open_before : run earlier ≡ ok none
  pub ends : run (earlier ++ (last ∷ [])) ≡ ok (some o)
  pub ends_all : run answers ≡ ok (some o)
  pub whole_sum : IsWhole kind whole (sofar + reported (earlier ++ (last ∷ []))) o

abbrev pub tail_of : OpContext → ℕ → OpContext
tail_of c bytes =
    write_context c.fd (c.file_offset + bytes) (c.destination_offset + bytes)
      (drop bytes c.write_buf)

pub advance_write-tail_of :
    (c : OpContext) (bytes : ℕ)
    → IsSound write c
    → 0 < bytes
    → bytes < c.requested_len
    → advance_write c bytes ≡ ok (tail_of c bytes)
unfolding advance_write
advance_write-tail_of c bytes v p q = ground (arith, v.file, v.destination)

pub tail_of-requested_len :
    (c : OpContext) (bytes : ℕ)
    → IsSound write c
    → (tail_of c bytes).requested_len ≡ c.requested_len - bytes
unfolding write_context
tail_of-requested_len c bytes v = omega (arith, length-drop bytes c.write_buf, v.buffer refl)

pub tail_of-IsSound :
    (c : OpContext) (bytes : ℕ)
    → IsSound write c
    → bytes < c.requested_len
    → IsSound write (tail_of c bytes)
unfolding write_context
tail_of-IsSound c bytes v p = record {
  file = omega (arith, v.file, length-drop bytes c.write_buf, v.buffer refl);
  destination = omega (arith, v.destination, length-drop bytes c.write_buf, v.buffer refl);
  buffer = λ _. refl;
}

-- The first answer ends the run.
ends_here :
    (run : List Attempt → Checked (Option Outcome)) (kind : OpKind) (whole sofar : ℕ) (a : Attempt)
    (answers : List Attempt) (o : Outcome)
    → run [] ≡ ok none
    → ((rest : List Attempt) → run (a ∷ rest) ≡ ok (some o))
    → IsWhole kind whole (sofar + reported (a ∷ [])) o
    → EndsRight run kind whole sofar (a ∷ answers) o
ends_here run kind whole sofar a answers o start e w = record {
  earlier = [];
  last = a;
  later = answers;
  parts = refl;
  open_before = start;
  ends = e [];
  ends_all = e answers;
  whole_sum = w;
}

-- The first answer leads to another run, which a later one ends.
ends_later :
    (run onward : List Attempt → Checked (Option Outcome)) (kind : OpKind) (whole sofar sofar' : ℕ)
    (a : Attempt) (answers : List Attempt) (o : Outcome)
    → ((rest : List Attempt) → run (a ∷ rest) ≡ onward rest)
    → ((rest : List Attempt) → sofar' + reported rest ≡ sofar + reported (a ∷ rest))
    → EndsRight onward kind whole sofar' answers o
    → EndsRight run kind whole sofar (a ∷ answers) o
ends_later run onward kind whole sofar sofar' a answers o goes sums r = record {
  earlier = a ∷ r.earlier;
  last = r.last;
  later = r.later;
  parts = ap (λ rest. a ∷ rest) r.parts;
  open_before = goes r.earlier ∙ r.open_before;
  ends = goes (r.earlier ++ (r.last ∷ [])) ∙ r.ends;
  ends_all = goes answers ∙ r.ends_all;
  whole_sum = subst (λ n. IsWhole kind whole n o) (sums (r.earlier ++ (r.last ∷ []))) r.whole_sum;
}

-- The loop ends: each answer ends it, spends a retry, or transfers bytes of the write.
loop_ends :
    (bound retries whole sofar : ℕ) (kind : OpKind) (c : OpContext) (answers : List Attempt)
    → IsSound kind c
    → sofar + c.requested_len ≡ whole
    → (is_write kind ≡ false → sofar ≡ 0)
    → Fits kind c.requested_len answers
    → bound - retries + c.requested_len < length answers
    → (o : Outcome) × EndsRight (execute_loop bound kind whole retries c) kind whole sofar answers o
unfolding execute_loop
loop_ends bound retries whole sofar kind c [] v w z f enough = absurd (omega arith)
loop_ends bound retries whole sofar kind c (failed number ∷ answers) v w z f enough = (
  errno number,
  ends_here (execute_loop bound kind whole retries c) kind whole sofar (failed number) answers
      (errno number) refl (λ rest. refl) tt,
)
loop_ends bound retries whole sofar kind c (interrupted ∷ answers) v w z f enough =
    elim (Bool-cases (leb bound retries)) [
      | inl spent ↦ (
        errno eintr,
        ends_here (execute_loop bound kind whole retries c) kind whole sofar interrupted answers
            (errno eintr) refl (λ rest. ground (arith, spent)) tt,
      )
      | inr left ↦
          let (o, r) =
            loop_ends bound (retries + 1) whole sofar kind c answers v w z f
              (ground (arith, left)) in
          (
            o,
            ends_later (execute_loop bound kind whole retries c)
                (execute_loop bound kind whole (retries + 1) c) kind whole sofar sofar interrupted
                answers o (λ rest. rw left refl) (λ rest. refl) r,
          )
    ]
loop_ends bound retries whole sofar kind c (would_block ∷ answers) v w z f enough =
    elim (Bool-cases (is_read kind && not (leb bound retries))) [
      | inl left ↦
          let (o, r) =
            loop_ends bound (retries + 1) whole sofar kind c answers v w z f
              (ground (arith, left)) in
          (
            o,
            ends_later (execute_loop bound kind whole retries c)
                (execute_loop bound kind whole (retries + 1) c) kind whole sofar sofar would_block
                answers o (λ rest. ground (arith, left)) (λ rest. refl) r,
          )
      | inr spent ↦ (
        errno eagain,
        ends_here (execute_loop bound kind whole retries c) kind whole sofar would_block answers
            (errno eagain) refl (λ rest. ground (arith, spent)) tt,
      )
    ]
loop_ends bound retries whole sofar read c (done bytes ∷ answers) v w z f enough = (
  transferred bytes,
  ends_here (execute_loop bound read whole retries c) read whole sofar (done bytes) answers
      (transferred bytes) refl (λ rest. ground (arith, f.0))
      (omega (arith, z refl), omega (arith, f.0)),
)
loop_ends bound retries whole sofar fsync c (done bytes ∷ answers) v w z f enough = (
  transferred bytes,
  ends_here (execute_loop bound fsync whole retries c) fsync whole sofar (done bytes) answers
      (transferred bytes) refl (λ rest. ground (arith, f.0))
      (omega (arith, z refl), omega (arith, f.0)),
)
loop_ends bound retries whole sofar write c (done bytes ∷ answers) v w z f enough =
    elim (Bool-cases (bytes == c.requested_len)) [
      | inl all ↦ (
        transferred whole,
        ends_here (execute_loop bound write whole retries c) write whole sofar (done bytes) answers
            (transferred whole) refl (λ rest. ground (arith, all, f.0)) (ground (arith, all), refl),
      )
      | inr short ↦ elim (Bool-cases (ltb 0 bytes)) [
        | inl some_bytes ↦
            let shorter : bytes < c.requested_len = ground (arith, short, f.0) in
            let left = tail_of-requested_len c bytes v in
            let (o, r) =
              loop_ends bound retries whole (sofar + bytes) write (tail_of c bytes) answers
                (tail_of-IsSound c bytes v shorter) (omega (arith, left))
                (λ no_write. absurd (ground (arith, no_write)))
                (subst (λ n. Fits write n answers) (sym left) f.1)
                (ground (arith, left, some_bytes)) in
            (
              o,
              ends_later (execute_loop bound write whole retries c)
                  (execute_loop bound write whole retries (tail_of c bytes)) write whole sofar
                  (sofar + bytes) (done bytes) answers o
                  (λ rest.
                    rw (advance_write-tail_of c bytes v (ground (arith, some_bytes)) shorter)
                      (ground (arith, short, some_bytes, f.0)))
                  (λ rest. omega arith) r,
            )
        | inr no_bytes ↦ elim (Bool-cases (leb bound retries)) [
          | inl spent ↦ (
            errno eio,
            ends_here (execute_loop bound write whole retries c) write whole sofar (done bytes)
                answers (errno eio) refl (λ rest. ground (arith, short, no_bytes, spent, f.0)) tt,
          )
          | inr more ↦
              let none_yet : c.requested_len - bytes ≡ c.requested_len = ground (arith, no_bytes) in
              let (o, r) =
                loop_ends bound (retries + 1) whole sofar write c answers v w z
                  (subst (λ n. Fits write n answers) none_yet f.1) (ground (arith, more)) in
              (
                o,
                ends_later (execute_loop bound write whole retries c)
                    (execute_loop bound write whole (retries + 1) c) write whole sofar sofar
                    (done bytes) answers o (λ rest. ground (arith, short, no_bytes, more, f.0))
                    (λ rest. ground (arith, no_bytes)) r,
              )
        ]
      ]
    ]

-- An operation always ends, and a write that succeeds is whole. The context's offsets plus the bytes
-- asked for overflow no word, a write's buffer holds the bytes asked for, and no answer of the backend
-- reports more bytes than are left. Then within one answer more than the retry bound and the bytes
-- asked for together there is one that ends `execute`, without a panic: on the answers before it there
-- is no outcome, and up to it there is one, which the answers after it do not change. Where that is a success, it gives the sum of the bytes that
-- these answers report, which for a write is every byte asked for and for the others no more.
pub execute_lem :
    (bound : ℕ) (kind : OpKind) (c : OpContext) (answers : List Attempt)
    → IsSound kind c
    → Fits kind c.requested_len answers
    → bound + c.requested_len < length answers
    → (o : Outcome) × EndsRight (execute bound kind c) kind c.requested_len 0 answers o
unfolding execute
execute_lem bound kind c answers v f enough =
    loop_ends bound 0 c.requested_len 0 kind c answers v (omega arith) (λ _. refl) f (omega arith)
