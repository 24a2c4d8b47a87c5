-- ===== src/Manager/Start/Laws.antt =====
-- What a result of `startPayloadAt` says of the domain.
use bmboot.Base.{
  ◌⊎◌, ℕ, zero, suc, ◌<◌, ◌≡◌, ◌≢◌, refl, ap, arith, Bool, true, false, if◌then◌else◌, ◌==◌, Option,
  none, some, Bool-cases, if_ind, ==_iff, inl, inr,
}
use bmboot.Bus.{Bus}
use bmboot.Types.{
  ◌is◌, monitor_ready, running_payload, crashed_payload, ErrorCode, bad_domain_state,
  payload_crashed_during_startup, payload_start_timed_out, is_iff, is_not,
}
use bmboot.Manager.{Cpu, World, Host, Outcome, done, failed}
use bmboot.Manager.State.{get_state}
use bmboot.Manager.Start.{
  StartArguments, send, response_error, check_state, poll_loop, start_payload_at,
}

module _ {b : Bus} (h : Host b) (d : Cpu) where
  -- The world in which a round of the loop that begins in `v` looks at the state: the acknowledgement
  -- was not seen, or the response to it was no error.
  pub Looks : World b → World b → Type 0
  Looks v w =
      let w1 = h.elapse 10000 v in
      let acked = w1.ipc.to_manager.cmd_ack ≡ w1.ipc.to_executor.cmd_seq in
      ((¬ acked) × (w ≡ h.elapse 0 w1))
      ⊎ (acked
          × (response_error (h.elapse 0 w1).ipc.to_manager.cmd_resp ≡ none)
          × (w ≡ h.elapse 0 (h.elapse 0 w1)))

  -- `n` rounds that lead from `v` to `w`, and saw neither an error nor a state that ends the loop.
  pub Rounds : ℕ → World b → World b → Type 0
  unfolding Looks
  Rounds zero v w = w ≡ v
  Rounds (suc n) v w =
      (u : World b) × Looks v u
      × (get_state h d u ≢ running_payload)
      × (get_state h d u ≢ crashed_payload)
      × Rounds n u w

  -- What was seen of a loop of `rounds` rounds from the world `v` on, for each result: after fewer
  -- rounds that saw nothing, one that saw the payload running, a crash or an error; or as many
  -- rounds that saw nothing.
  pub data Evidence (rounds : ℕ) (v : World b) : Outcome → World b → Type 0 where
    running :
        (n : ℕ) (u w : World b)
        → n < rounds
        → Rounds n v u
        → Looks u w
        → get_state h d w ≡ running_payload
        → Evidence rounds v done w
    crashed :
        (n : ℕ) (u w : World b)
        → n < rounds
        → Rounds n v u
        → Looks u w
        → get_state h d w ≡ crashed_payload
        → Evidence rounds v (failed payload_crashed_during_startup) w
    rejected :
        (n : ℕ) (u : World b) (e : ErrorCode)
        → n < rounds
        → Rounds n v u
        → (let w = h.elapse 10000 u in w.ipc.to_manager.cmd_ack ≡ w.ipc.to_executor.cmd_seq)
        → response_error (h.elapse 0 (h.elapse 10000 u)).ipc.to_manager.cmd_resp ≡ some e
        → Evidence rounds v (failed e) (h.elapse 0 (h.elapse 10000 u))
    timed_out :
        (w : World b) → Rounds rounds v w → Evidence rounds v (failed payload_start_timed_out) w

  -- One more round before, which saw nothing.
  later :
      (rounds : ℕ) (v u : World b)
      → Looks v u
      → get_state h d u ≢ running_payload
      → get_state h d u ≢ crashed_payload
      → (o : Outcome) (w : World b) → Evidence rounds u o w
      → Evidence (suc rounds) v o w
  unfolding Rounds
  later rounds v u look p q _ _ (running n u' w below before look' seen) =
      running (suc n) u' w (omega (arith, below)) (u, look, p, q, before) look' seen
  later rounds v u look p q _ _ (crashed n u' w below before look' seen) =
      crashed (suc n) u' w (omega (arith, below)) (u, look, p, q, before) look' seen
  later rounds v u look p q _ _ (rejected n u' e below before acked answer) =
      rejected (suc n) u' e (omega (arith, below)) (u, look, p, q, before) acked answer
  later rounds v u look p q _ _ (timed_out w before) = timed_out w (u, look, p, q, before)

  check_state-Evidence :
      (rounds : ℕ) (v w : World b) (rest : Outcome × World b)
      → Looks v w
      → Evidence rounds w rest.0 rest.1
      → let r = check_state h d w rest in Evidence (suc rounds) v r.0 r.1
  unfolding Rounds
  check_state-Evidence rounds v w rest look after =
      if_ind (λ (r : Outcome × World b). Evidence (suc rounds) v r.0 r.1)
        (get_state h d w is running_payload)
        (λ e. running 0 v w (omega arith) refl look (is_iff _ _ e))
        λ p.
          if_ind (λ (r : Outcome × World b). Evidence (suc rounds) v r.0 r.1)
            (get_state h d w is crashed_payload)
            (λ e. crashed 0 v w (omega arith) refl look (is_iff _ _ e))
            (λ q. later rounds v w look (is_not _ _ p) (is_not _ _ q) rest.0 rest.1 after)

  -- One round, with the acknowledgement and the answer as they were read.
  round-Evidence :
      (rounds : ℕ) (v : World b) (acked : Bool) (answer : Option ErrorCode)
      → (let w1 = h.elapse 10000 v in
          (w1.ipc.to_manager.cmd_ack == w1.ipc.to_executor.cmd_seq) ≡ acked)
      → (let w1 = h.elapse 10000 v in
          let w2 = if acked then h.elapse 0 w1 else w1 in
          (if acked then response_error w2.ipc.to_manager.cmd_resp else none) ≡ answer)
      → (let w1 = h.elapse 10000 v in
          let w3 = h.elapse 0 (if acked then h.elapse 0 w1 else w1) in
          (rest : Outcome × World b)
          → Evidence rounds w3 rest.0 rest.1
          → let r : Outcome × World b = elim answer [
            | some e ↦ (failed e, if acked then h.elapse 0 w1 else w1)
            | none ↦ check_state h d w3 rest
          ] in
            Evidence (suc rounds) v r.0 r.1)
  unfolding Looks Rounds
  round-Evidence rounds v true (some e) acked answer rest after =
      rejected 0 v e (omega arith) refl ((==_iff _ _).0 acked) answer
  round-Evidence rounds v true none acked answer rest after =
      check_state-Evidence rounds v _ rest (inr ((==_iff _ _).0 acked, answer, refl)) after
  round-Evidence rounds v false (some e) acked answer rest after = cc
  round-Evidence rounds v false none acked answer rest after =
      check_state-Evidence rounds v _ rest (inl (λ e. cc (acked, (==_iff _ _).1 e), refl)) after

  poll_loop-Evidence :
      (rounds : ℕ) (v : World b) → let r = poll_loop h d rounds v in Evidence rounds v r.0 r.1
  unfolding poll_loop Rounds
  poll_loop-Evidence zero v = timed_out v refl
  poll_loop-Evidence (suc rounds) v =
      let w1 = h.elapse 10000 v in
      let acked = w1.ipc.to_manager.cmd_ack == w1.ipc.to_executor.cmd_seq in
      let w2 = if acked then h.elapse 0 w1 else w1 in
      let answer = if acked then response_error w2.ipc.to_manager.cmd_resp else none in
      round-Evidence rounds v acked answer refl refl (poll_loop h d rounds (h.elapse 0 w2))
        (poll_loop-Evidence rounds (h.elapse 0 w2))

  -- What `startPayloadAt` leaves of the world before it waits.
  abbrev pub told : World b → StartArguments → World b
  told w a = let w1 = h.elapse 0 w in record w1 { ipc = send w1.ipc a }

  pub start_payload_at-Evidence :
      (w : World b) (a : StartArguments)
      → let r = start_payload_at h d w a in
        (Evidence 100 (told w a) r.0 r.1 × (get_state h d w ≡ monitor_ready))
        ⊎ ((r ≡ (failed bad_domain_state, w)) × (get_state h d w ≢ monitor_ready))
        ⊎ ((r ≡ (failed bad_domain_state, h.elapse 0 w))
            × ((h.elapse 0 w).ipc.to_manager.cmd_ack ≢ (h.elapse 0 w).ipc.to_executor.cmd_seq))
  unfolding start_payload_at
  start_payload_at-Evidence w a = elim (Bool-cases (get_state h d w is monitor_ready)) [
    | inr other ↦
        rw (other, if◌then◌else◌) (inr (inl (refl, λ e. cc (ap (λ s. s is monitor_ready) e))))
    | inl ready ↦
        let w1 = h.elapse 0 w in
        elim (Bool-cases (w1.ipc.to_manager.cmd_ack == w1.ipc.to_executor.cmd_seq)) [
          | inr busy ↦ rw (ready, busy, if◌then◌else◌) (inr (inr (refl, ground arith)))
          | inl free ↦
              rw (ready, free, if◌then◌else◌)
                (inl (poll_loop-Evidence 100 (told w a), is_iff _ _ ready))
        ]
  ]

  -- Success means that the payload was seen running.
  unfoldable pub Runs : Outcome × World b → Type 0
  Runs r = r.0 ≡ done → get_state h d r.1 ≡ running_payload

  Evidence-Runs :
      (rounds : ℕ) (v : World b) (o : Outcome) (w : World b) → Evidence rounds v o w → Runs (o, w)
  unfolding Runs
  Evidence-Runs rounds v _ _ (running n u w below before look seen) = λ e. seen
  Evidence-Runs rounds v _ _ (crashed n u w below before look seen) = λ e. cc
  Evidence-Runs rounds v _ _ (rejected n u k below before acked answer) = λ e. cc
  Evidence-Runs rounds v _ _ (timed_out w before) = λ e. cc

  pub failed-Runs : (e : ErrorCode) (w : World b) → Runs (failed e, w)
  unfolding Runs
  failed-Runs e w = λ q. cc

  pub start_payload_at-Runs : (w : World b) (a : StartArguments) → Runs (start_payload_at h d w a)
  unfolding Runs
  start_payload_at-Runs w a = elim (start_payload_at-Evidence w a) [
    | inl (seen, ready) ↦ Evidence-Runs _ _ _ _ seen
    | inr (inl (refused, other)) ↦ λ e. cc (ap (λ (r : Outcome × World b). r.0) refused)
    | inr (inr (refused, busy)) ↦ λ e. cc (ap (λ (r : Outcome × World b). r.0) refused)
  ]
