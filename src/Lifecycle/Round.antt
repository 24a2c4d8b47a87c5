-- ===== src/Lifecycle/Round.antt =====
-- One round of the monitor's loop, by cases.
use bmboot.Base.{◌≡◌, ◌≢◌, refl, arith, true, not, ◌==◌, if_ind}
use bmboot.Bus.{Bus}
use bmboot.Ipc.{noop, start_payload, Response, crc_ok}
use bmboot.Types.{state_code, starting_payload, monitor_ready}
use bmboot.Monitor.{Executor, in_payload, in_dummy}
use bmboot.Monitor.Loop.{main_round, handle_start, set_state, acknowledge, respond, accepted}
use bmboot.Monitor.Loop.Laws.{verdict}

accepted_ok : (r : Response) → accepted r ≡ true → r ≡ crc_ok
accepted_ok Response.crc_ok h = refl
accepted_ok _ h = cc

module _ {b : Bus} (e : Executor b) where
  -- A command waits.
  abbrev pub Pending : Type 0
  Pending = e.block.to_executor.cmd_seq ≢ e.block.to_manager.cmd_ack

  -- The core has taken up a start command.
  abbrev pub taken : Executor b
  taken = set_state e (state_code starting_payload)

  abbrev pub answered : Executor b
  answered = acknowledge (respond taken (verdict e))

  pub main_round_ind :
      (P : Executor b → Type 0)
      → P e
      → (Pending → P (acknowledge e))
      → (Pending → P (record taken { control = in_dummy }))
      → (Pending
          → verdict e ≡ crc_ok
          → P (record answered { control = in_payload e.block.to_executor.payload_entry_address }))
      → (Pending → P (set_state answered (state_code monitor_ready)))
      → P (main_round e)
  unfolding main_round handle_start
  main_round_ind P idle acked dummy entered rejected =
      let inbox = e.block.to_executor in
      if_ind P (not (inbox.cmd_seq == e.block.to_manager.cmd_ack))
        (λ busy.
          let pending : Pending = ground arith in
          if_ind P (inbox.cmd == noop) (λ _. acked pending)
            λ _.
              if_ind P (inbox.cmd == start_payload)
                (λ _.
                  if_ind P (inbox.payload_entry_address == 0xbaadf00d) (λ _. dummy pending)
                    λ _.
                      if_ind P (accepted (verdict e)) (λ ok. entered pending (accepted_ok _ ok))
                        (λ _. rejected pending))
                (λ _. idle))
        (λ _. idle)
