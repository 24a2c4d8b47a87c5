-- ===== src/Manager/Start.antt =====
-- `Domain::startPayloadAt` of src/manager/domain.cpp.
pub mod Laws
pub mod Polls
pub mod Succeeds
use bmboot.Base.{ℕ, zero, suc, ◌≡◌, Bool, not, if◌then◌else◌, ◌==◌, Option, none, some}
use bmboot.Bus.{Bus}
use bmboot.Ipc.{IpcBlock, start_payload, next_seq}
use bmboot.Types.{
  ◌is◌, monitor_ready, running_payload, crashed_payload, ErrorCode, bad_domain_state,
  payload_checksum_mismatch, payload_image_malformed, payload_abi_incompatible, unknown_error,
  payload_crashed_during_startup, payload_start_timed_out,
}
use bmboot.Manager.{Cpu, World, Host, Outcome, done, failed, set_outbox}
use bmboot.Manager.State.{get_state}

-- What the payload is started with.
pub record StartArguments : Type 0 where
  pub entry_address : ℕ
  pub payload_size : ℕ
  pub payload_crc32 : ℕ
  pub payload_argument : ℕ

-- The stores of `startPayloadAt`, the new sequence number last.
abbrev pub send : IpcBlock → StartArguments → IpcBlock
send b a = record b {
  to_executor = record b.to_executor {
    stdout_rdpos = b.to_manager.stdout_wrpos;
    payload_entry_address = a.entry_address;
    payload_size = a.payload_size;
    payload_crc = a.payload_crc32;
    payload_argument = a.payload_argument;
    cmd = start_payload;
    cmd_seq = next_seq b.to_executor.cmd_seq;
  };
}

-- The `switch` on the response to an acknowledged command: an error, or none for `crc_ok`.
abbrev pub response_error : ℕ → Option ErrorCode
response_error zero = none
response_error (suc zero) = some payload_checksum_mismatch
response_error (suc (suc zero)) = some payload_image_malformed
response_error (suc (suc (suc zero))) = some payload_abi_incompatible
response_error (suc (suc (suc (suc n)))) = some unknown_error

module _ {b : Bus} (h : Host b) (d : Cpu) where
  -- The end of a round: the state is looked at, and a further round may follow.
  abbrev pub check_state : World b → Outcome × World b → Outcome × World b
  check_state w rest =
      if get_state h d w is running_payload
      then (done, w)
      else if get_state h d w is crashed_payload
      then (failed payload_crashed_during_startup, w)
      else rest

  -- The loop, with the rounds that are left. The machine runs on during the sleep and between the
  -- loads of the acknowledgement, the response and the state.
  unfoldable pub poll_loop : ℕ → World b → Outcome × World b
  poll_loop zero w = (failed payload_start_timed_out, w)
  poll_loop (suc left) w =
      let w1 = h.elapse 10000 w in
      let acked = w1.ipc.to_manager.cmd_ack == w1.ipc.to_executor.cmd_seq in
      let w2 = if acked then h.elapse 0 w1 else w1 in
      let answer = if acked then response_error w2.ipc.to_manager.cmd_resp else none in
      let w3 = h.elapse 0 w2 in
      let rest = poll_loop left w3 in
      elim answer [ some e ↦ (failed e, w2) | none ↦ check_state w3 rest ]

  unfoldable pub start_payload_at : World b → StartArguments → Outcome × World b
  unfolding poll_loop
  start_payload_at w a =
      let w1 = h.elapse 0 w in
      if not (get_state h d w is monitor_ready)
      then (failed bad_domain_state, w)
      else if not (w1.ipc.to_manager.cmd_ack == w1.ipc.to_executor.cmd_seq)
      then (failed bad_domain_state, w1)
      else poll_loop 100 (record w1 { ipc = send w1.ipc a })

  -- `startDummyPayload`; the result is dropped.
  pub start_dummy_payload : World b → World b
  start_dummy_payload w =
      (start_payload_at w (record {
        entry_address = 0xbaadf00d;
        payload_size = 0;
        payload_crc32 = 0;
        payload_argument = 0;
      })).1
