-- ===== src/Clock/Race/Winner.antt =====
-- src/pool/clock.rs: the winner of the race for a frame's marker is the reader credited.
use dios.Common.{
  ℕ, ◌≡◌, ◌≢◌, inl, inr, true, false, if◌then◌else◌, some, Option, length, get_elem?, set, ok,
  arith, sym, subst, ap, ◌∙◌, ℕ_discrete, Bool-cases, lt_of_get_elem?, get_elem?-set_self,
  get_elem?-set_ne,
}
use dios.Clock.{
  Clock, ReferencePhase, bit_load, bit_store, consuming, marker_load, marker_exchange,
  consumed_notify, count_store, returned, reference_step, consume_step, consumer_marker,
}
use dios.Clock.Race.{Reader, is_notifying, is_past, Racing}
use dios.Clock.Race.Credit.{IsQuiet, step-IsQuiet, IsWon, readers_set, consumer_marker-ne_one}

module _ {D : Type 0} (notify : D → ℕ → D) (frame : ℕ) where
  step_notify :
      (c : Clock D) (index : Option ℕ) (at : ReferencePhase) {phase : ReferencePhase}
      {after : Clock D}
      → is_notifying at ≡ true
      → reference_step notify c frame index at ≡ ok (phase, after)
      → (phase ≡ bit_store) × (after ≡ record c { consumed = notify c.consumed frame })
  unfolding reference_step consume_step
  step_notify c index (consuming consumed_notify) p e = (ground (arith, e), ground (arith, e))
  step_notify c index (consuming marker_load) p e = absurd (ground (arith, p))
  step_notify c index (consuming marker_exchange) p e = absurd (ground (arith, p))
  step_notify c index bit_load p e = absurd (ground (arith, p))
  step_notify c index bit_store p e = absurd (ground (arith, p))
  step_notify c index count_store p e = absurd (ground (arith, p))
  step_notify c index (returned stored) p e = absurd (ground (arith, p))

  -- The winner notifies.
  winner_notifies :
      (d0 : D) (s : Racing D) (k : ℕ) (w : Reader) (phase : ReferencePhase) (after : Clock D)
      → IsWon notify frame d0 s k w
      → is_notifying w.phase ≡ true
      → reference_step notify s.clock frame w.index w.phase ≡ ok (phase, after)
      → let w' : Reader = record { index = w.index; phase = phase } in
        let s' : Racing D = record { clock = after; readers = set s.readers k w' } in
        (length after.reference_bits ≡ length s.clock.reference_bits)
        × IsWon notify frame d0 s' k w'
  winner_notifies d0 s k w phase after v turn e =
      let w' : Reader = record { index = w.index; phase = phase } in
      let (stores, is) = step_notify s.clock w.index w.phase turn e in
      (
        ap (λ c. length c.reference_bits) is,
        record {
          at = get_elem?-set_self s.readers k w' (lt_of_get_elem? s.readers k v.at);
          past = ap is_past stores;
          marker = ap (λ c. get_elem? c.speculation frame) is ∙ v.marker;
          consumed =
              ap (λ c. c.consumed) is
              ∙ ap (λ d. notify d frame)
                  (v.consumed ∙ ap (λ b. if b then d0 else notify d0 frame) turn)
              ∙ ap (λ p. if is_notifying p then d0 else notify d0 frame) (sym stores);
          others = λ j x ne here_j.
              v.others j x ne
                (sym (get_elem?-set_ne s.readers k j w' (λ same. ne (sym same))) ∙ here_j);
        },
      )

  -- The winner goes on after it.
  winner_goes_on :
      (d0 : D) (s : Racing D) (k : ℕ) (w : Reader) (phase : ReferencePhase) (after : Clock D)
      → IsWon notify frame d0 s k w
      → is_notifying w.phase ≡ false
      → IsQuiet notify frame s.clock after w.phase phase
      → let w' : Reader = record { index = w.index; phase = phase } in
        let s' : Racing D = record { clock = after; readers = set s.readers k w' } in
        IsWon notify frame d0 s' k w'
  winner_goes_on d0 s k w phase after v calm q =
      let w' : Reader = record { index = w.index; phase = phase } in
      record {
        at = get_elem?-set_self s.readers k w' (lt_of_get_elem? s.readers k v.at);
        past = q.keeps_past v.past;
        marker = ap (λ m. get_elem? m frame) q.markers ∙ v.marker;
        consumed =
            q.notified
            ∙ v.consumed
            ∙ ap (λ b. if b then d0 else notify d0 frame) (calm ∙ sym q.calm);
        others = λ j x ne here_j.
            v.others j x ne
              (sym (get_elem?-set_ne s.readers k j w' (λ same. ne (sym same))) ∙ here_j);
      }

  -- Another reader goes on.
  loser_goes_on :
      (d0 : D) (s : Racing D) (k j : ℕ) (w r : Reader) (phase : ReferencePhase) (after : Clock D)
      → IsWon notify frame d0 s k w
      → j ≢ k
      → get_elem? s.readers j ≡ some r
      → IsQuiet notify frame s.clock after r.phase phase
      → let r' : Reader = record { index = r.index; phase = phase } in
        let s' : Racing D = record { clock = after; readers = set s.readers j r' } in
        IsWon notify frame d0 s' k w
  loser_goes_on d0 s k j w r phase after v ne at q =
      let r' : Reader = record { index = r.index; phase = phase } in
      record {
        at = get_elem?-set_ne s.readers j k r' ne ∙ v.at;
        past = v.past;
        marker = ap (λ m. get_elem? m frame) q.markers ∙ v.marker;
        consumed = q.notified ∙ v.consumed;
        others = λ i x ne_k here_i.
            readers_set notify frame (λ i x. i ≢ k → is_notifying x.phase ≡ false) s.readers j r r'
              at (λ i x _ here_i ne_k. v.others i x ne_k here_i) (λ _. q.calm) i x here_i ne_k;
      }

  pub moves-IsWon :
      (d0 : D) (s : Racing D) (k j : ℕ) (w r : Reader) (phase : ReferencePhase) (after : Clock D)
      → IsWon notify frame d0 s k w
      → get_elem? s.readers j ≡ some r
      → reference_step notify s.clock frame r.index r.phase ≡ ok (phase, after)
      → let r' : Reader = record { index = r.index; phase = phase } in
        let s' : Racing D = record { clock = after; readers = set s.readers j r' } in
        (length after.reference_bits ≡ length s.clock.reference_bits)
        × ((i : ℕ) × (x : Reader) × IsWon notify frame d0 s' i x)
  moves-IsWon d0 s k j w r phase after v at e =
      let r' : Reader = record { index = r.index; phase = phase } in
      let quiet =
        step-IsQuiet notify frame s.clock r.index r.phase (consumer_marker w.index) v.marker
          (consumer_marker-ne_one notify frame w.index) in
      elim (ℕ_discrete j k) [
        | yes same ↦
            let both : some w ≡ some r =
              sym (subst (λ i. get_elem? s.readers i ≡ some w) (sym same) v.at) ∙ at in
            let v' : IsWon notify frame d0 s j r =
              subst (λ x. IsWon notify frame d0 s j x) (ground (arith, both))
                (subst (λ i. IsWon notify frame d0 s i w) (sym same) v) in
            elim (Bool-cases (is_notifying r.phase)) [
              | inl turn ↦
                  let (size, won) = winner_notifies d0 s j r phase after v' turn e in
                  (size, (j, r', won))
              | inr calm ↦
                  let q = quiet calm e in
                  (q.size, (j, r', winner_goes_on d0 s j r phase after v' calm q))
            ]
        | no ne ↦
            let q = quiet (v.others j r ne at) e in
            (q.size, (k, w, loser_goes_on d0 s k j w r phase after v ne at q))
      ]
