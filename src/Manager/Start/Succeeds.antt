-- ===== src/Manager/Start/Succeeds.antt =====
-- When `Domain::startPayloadAt` of src/manager/domain.cpp succeeds.
use bmboot.Base.{
  ℕ, zero, suc, ◌<◌, ◌≡◌, ◌≢◌, refl, ap, arith, Bool, true, if◌then◌else◌, ◌==◌, none, some, ◌∙◌,
}
use bmboot.Bus.{Bus}
use bmboot.Types.{◌is◌, other_state, monitor_ready, running_payload, crashed_payload}
use bmboot.Manager.{Cpu, World, Host, Outcome, done, failed}
use bmboot.Manager.State.{get_state}
use bmboot.Manager.Start.{
  StartArguments, send, response_error, check_state, poll_loop, start_payload_at,
}

module _ {b : Bus} (h : Host b) (d : Cpu) where
  abbrev acked : World b → Bool
  acked w1 = w1.ipc.to_manager.cmd_ack == w1.ipc.to_executor.cmd_seq

  -- The world in which a round from `w` reads the response.
  abbrev pub woken : World b → World b
  woken w = let w1 = h.elapse 10000 w in if acked w1 then h.elapse 0 w1 else w1

  -- No error has been answered.
  abbrev pub Unrejected : World b → Type 0
  Unrejected w =
      (if acked (h.elapse 10000 w) then response_error (woken w).ipc.to_manager.cmd_resp else none)
      ≡ none

  -- The world at the end of a round.
  abbrev pub round_end : World b → World b
  round_end w = h.elapse 0 (woken w)

  -- The world after a number of rounds.
  unfoldable pub rounds : ℕ → World b → World b
  rounds zero w = w
  rounds (suc n) w = rounds n (round_end w)

  -- A round that ends nothing.
  pub record Waits (w : World b) : Type 0 where
    pub unrejected : Unrejected w
    pub not_running : get_state h d (round_end w) ≢ running_payload
    pub not_crashed : get_state h d (round_end w) ≢ crashed_payload

  poll_loop-round :
      (left : ℕ) (w : World b)
      → Unrejected w
      → poll_loop h d (suc left) w
        ≡ check_state h d (round_end w) (poll_loop h d left (round_end w))
  unfolding poll_loop
  poll_loop-round left w ok =
      ap
        (λ o. elim o as (λ _. Outcome × World b) [
          | some e ↦ (failed e, woken w)
          | none ↦ check_state h d (round_end w) (poll_loop h d left (round_end w))
        ])
        ok

  poll_loop-done :
      (n left : ℕ) (w : World b)
      → n < left
      → ((k : ℕ) → k < n → Waits (rounds k w))
      → Unrejected (rounds n w)
      → get_state h d (round_end (rounds n w)) ≡ running_payload
      → poll_loop h d left w ≡ (done, round_end (rounds n w))
  unfolding rounds
  poll_loop-done n zero w lt waits ok seen = absurd (omega arith)
  poll_loop-done zero (suc left) w lt waits ok seen =
      let is_running : (get_state h d (round_end w) is running_payload) ≡ true =
        ap (λ s. s is running_payload) seen in
      poll_loop-round left w ok ∙ rw (is_running, if◌then◌else◌) refl
  poll_loop-done (suc n) (suc left) w lt waits ok seen =
      let first = waits 0 (omega arith) in
      let not_running = other_state _ running_payload first.not_running in
      let not_crashed = other_state _ crashed_payload first.not_crashed in
      poll_loop-round left w first.unrejected
      ∙ rw (not_running, not_crashed, if◌then◌else◌)
          (poll_loop-done n left (round_end w) (omega arith) (λ k l. waits (suc k) (omega arith)) ok
            seen)

  -- The manager starts a payload on a domain that is ready with no command pending. If the payload is
  -- seen running at the end of one of the hundred rounds, and no error was answered until then, nor
  -- was the payload seen running or crashed at the end of a round before: `startPayloadAt` succeeds,
  -- after that round.
  pub start_payload_at-done :
      (w : World b) (a : StartArguments) (n : ℕ)
      → let w1 = h.elapse 0 w in
        let sent = record w1 { ipc = send w1.ipc a } in
        get_state h d w ≡ monitor_ready
        → w1.ipc.to_manager.cmd_ack ≡ w1.ipc.to_executor.cmd_seq
        → n < 100
        → ((k : ℕ) → k < n → Waits (rounds k sent))
        → Unrejected (rounds n sent)
        → get_state h d (round_end (rounds n sent)) ≡ running_payload
        → start_payload_at h d w a ≡ (done, round_end (rounds n sent))
  unfolding start_payload_at
  start_payload_at-done w a n ready free lt waits ok seen =
      let w1 = h.elapse 0 w in
      let is_ready : (get_state h d w is monitor_ready) ≡ true =
        ap (λ s. s is monitor_ready) ready in
      let is_free : w1.ipc.to_manager.cmd_ack == w1.ipc.to_executor.cmd_seq ≡ true = ground arith in
      rw (is_ready, is_free, if◌then◌else◌)
        (poll_loop-done n 100 (record w1 { ipc = send w1.ipc a }) lt waits ok seen)
