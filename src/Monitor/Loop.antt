-- ===== src/Monitor/Loop.antt =====
-- One round of the `for` loop of `main` in src/executor/monitor/monitor.cpp. `flushICache` leaves
-- DAIF as it was and is no change of the state. `enterEL1Payload` does not return.
pub mod Laws
use bmboot.Base.{ℕ, Bool, not, if◌then◌else◌, ◌==◌}
use bmboot.Bus.{Bus}
use bmboot.Ipc.{noop, start_payload, next_seq, Response, crc_ok, response_code}
use bmboot.Types.{state_code, starting_payload, monitor_ready}
use bmboot.Monitor.{Executor, Control, in_payload, in_dummy, set_to_manager}
use bmboot.Monitor.Validate.{validate_payload}

-- `resp == Response::crc_ok`
abbrev pub accepted : Response → Bool
accepted r = response_code r == response_code crc_ok

module _ {b : Bus} where
  abbrev pub set_state : Executor b → ℕ → Executor b
  set_state e n = set_to_manager e (record e.block.to_manager { state = n })

  abbrev pub acknowledge : Executor b → Executor b
  acknowledge e =
      set_to_manager e (record e.block.to_manager { cmd_ack = next_seq e.block.to_manager.cmd_ack })

  abbrev pub respond : Executor b → Response → Executor b
  respond e r = set_to_manager e (record e.block.to_manager { cmd_resp = response_code r })

  -- `case Command::start_payload`
  unfoldable pub handle_start : Executor b → Executor b
  handle_start e =
      let inbox = e.block.to_executor in
      let e1 = set_state e (state_code starting_payload) in
      let resp =
        validate_payload e.memory inbox.payload_entry_address inbox.payload_size
          inbox.payload_crc in
      let e2 = acknowledge (respond e1 resp) in
      if inbox.payload_entry_address == 0xbaadf00d
      then record e1 { control = in_dummy }
      else if accepted resp
      then record e2 { control = in_payload inbox.payload_entry_address }
      else set_state e2 (state_code monitor_ready)

  unfoldable pub main_round : Executor b → Executor b
  unfolding handle_start
  main_round e =
      let inbox = e.block.to_executor in
      if not (inbox.cmd_seq == e.block.to_manager.cmd_ack)
      then if inbox.cmd == noop
        then acknowledge e
        else if inbox.cmd == start_payload
        then handle_start e
        else e
      else e
