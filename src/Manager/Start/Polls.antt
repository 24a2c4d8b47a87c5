-- ===== src/Manager/Start/Polls.antt =====
-- What the polling loop of `Domain::startPayloadAt` of src/manager/domain.cpp keeps: all that time
-- keeps, since it stores nothing itself.
use bmboot.Base.{ℕ, zero, suc, ◌≡◌, arith, not, if◌then◌else◌, ◌==◌, Option, none, some, if_ind}
use bmboot.Bus.{Bus}
use bmboot.Types.{◌is◌, is_iff, monitor_ready, running_payload, crashed_payload, ErrorCode}
use bmboot.Manager.{Cpu, World, Host, Outcome, failed}
use bmboot.Manager.State.{get_state}
use bmboot.Manager.Start.{
  response_error, check_state, poll_loop, StartArguments, send, start_payload_at,
}

module _ {b : Bus} (h : Host b) (d : Cpu) (P : World b → Type 0) where
  abbrev Ends : Outcome × World b → Type 0
  Ends r = P r.1

  check_state_ind :
      (w : World b) (rest : Outcome × World b) → P w → Ends rest → Ends (check_state h d w rest)
  check_state_ind w rest kept then_kept =
      if_ind Ends (get_state h d w is running_payload) (λ e. kept)
        λ _. if_ind Ends (get_state h d w is crashed_payload) (λ e. kept) (λ _. then_kept)

  round_ind :
      (w2 w3 : World b) (answer : Option ErrorCode) (rest : Outcome × World b)
      → P w2
      → P w3
      → Ends rest
      → let r : Outcome × World b = elim answer [
        | some e ↦ (failed e, w2)
        | none ↦ check_state h d w3 rest
      ] in
        Ends r
  round_ind w2 w3 (some e) rest k2 k3 k = k2
  round_ind w2 w3 none rest k2 k3 k = check_state_ind w3 rest k3 k

  pub poll_loop_ind :
      ((n : ℕ) (v : World b) → P v → P (h.elapse n v))
      → (left : ℕ) (w : World b) → P w
      → P (poll_loop h d left w).1
  unfolding poll_loop
  poll_loop_ind elapses zero w k = k
  poll_loop_ind elapses (suc left) w k =
      let w1 = h.elapse 10000 w in
      let acked = w1.ipc.to_manager.cmd_ack == w1.ipc.to_executor.cmd_seq in
      let w2 = if acked then h.elapse 0 w1 else w1 in
      let w3 = h.elapse 0 w2 in
      let answer = if acked then response_error w2.ipc.to_manager.cmd_resp else none in
      let k1 : P w1 = elapses 10000 w k in
      let k2 : P w2 = if_ind P acked (λ _. elapses 0 w1 k1) (λ _. k1) in
      let k3 : P w3 = elapses 0 w2 k2 in
      round_ind w2 w3 answer (poll_loop h d left w3) k2 k3 (poll_loop_ind elapses left w3 k3)

  -- `startPayloadAt` as a whole: time passes, and the command is sent at a moment when none is
  -- pending.
  pub start_payload_at_ind :
      (a : StartArguments)
      → ((n : ℕ) (v : World b) → P v → P (h.elapse n v))
      → (w : World b) → P w
      → (let w1 = h.elapse 0 w in
          get_state h d w ≡ monitor_ready
          → w1.ipc.to_manager.cmd_ack ≡ w1.ipc.to_executor.cmd_seq
          → P w1
          → P (record w1 { ipc = send w1.ipc a }))
      → P (start_payload_at h d w a).1
  unfolding start_payload_at
  start_payload_at_ind a elapses w k sends =
      let w1 = h.elapse 0 w in
      if_ind Ends (not (get_state h d w is monitor_ready)) (λ _. k)
        λ ready.
          if_ind Ends (not (w1.ipc.to_manager.cmd_ack == w1.ipc.to_executor.cmd_seq))
            (λ _. elapses 0 w k)
            λ free.
              poll_loop_ind elapses 100 (record w1 { ipc = send w1.ipc a })
                (sends (is_iff _ _ (ground arith)) (ground arith) (elapses 0 w k))
