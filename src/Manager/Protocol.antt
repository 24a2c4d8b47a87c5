-- ===== src/Manager/Protocol.antt =====
-- Both sides at once: `Domain::startPayloadAt` of src/manager/domain.cpp while the core runs the loop
-- of src/executor/monitor/monitor.cpp.
pub mod Mismatch
use bmboot.Base.{
  ℕ, zero, suc, ◌+◌, ◌%◌, ◌^◌, ◌≡◌, ◌≢◌, refl, sym, ap, subst, ◌∙◌, arith, Bool, true, false, not,
  if◌then◌else◌, ◌==◌, Option, none, some,
}
use bmboot.Bus.{Bus}
use bmboot.Ipc.{
  IpcBlock, ManagerToExecutor, Response, crc_ok, crc_mismatched, image_malformed, abi_incompatible,
  response_code, next_seq,
}
use bmboot.Types.{
  ◌is◌, monitor_ready, ErrorCode, payload_checksum_mismatch, payload_image_malformed,
  payload_abi_incompatible, unknown_error,
}
use bmboot.Monitor.{Executor}
use bmboot.Monitor.Loop.{main_round}
use bmboot.Monitor.Loop.Laws.{main_round_start, verdict}
use bmboot.Manager.{Cpu, World, Host, Outcome, done, failed}
use bmboot.Manager.State.{get_state}
use bmboot.Manager.Start.{
  StartArguments, send, response_error, start_payload_at, poll_loop, check_state,
}

-- The manager's error for each rejection by the monitor.
abbrev pub rejection : Response → ErrorCode
rejection crc_mismatched = payload_checksum_mismatch
rejection image_malformed = payload_image_malformed
rejection abi_incompatible = payload_abi_incompatible
rejection crc_ok = unknown_error

response_error-rejection :
    (r : Response) → r ≢ crc_ok → response_error (response_code r) ≡ some (rejection r)
response_error-rejection crc_ok h = absurd (h refl)
response_error-rejection crc_mismatched h = refl
response_error-rejection image_malformed h = refl
response_error-rejection abi_incompatible h = refl

module _ {b : Bus} (h : Host b) (d : Cpu) where
  -- What the manager has sent when it goes to sleep.
  abbrev pub sent : World b → StartArguments → World b
  sent w a = let w1 = h.elapse 0 w in record w1 { ipc = send w1.ipc a }

  -- A round of the polling loop that wakes in `x`.
  abbrev round : World b → (World b → Outcome × World b) → Outcome × World b
  round x next =
      let acked = x.ipc.to_manager.cmd_ack == x.ipc.to_executor.cmd_seq in
      let x2 = if acked then h.elapse 0 x else x in
      let answer = if acked then response_error x2.ipc.to_manager.cmd_resp else none in
      elim answer [
        | some e ↦ (failed e, x2)
        | none ↦ check_state h d (h.elapse 0 x2) (next (h.elapse 0 x2))
      ]

  round-rejected :
      (x : World b) (next : World b → Outcome × World b) (e : ErrorCode)
      → x.ipc.to_manager.cmd_ack ≡ x.ipc.to_executor.cmd_seq
      → h.elapse 0 x ≡ x
      → response_error x.ipc.to_manager.cmd_resp ≡ some e
      → round x next ≡ (failed e, x)
  round-rejected x next e acked idle answer =
      let seen : x.ipc.to_manager.cmd_ack == x.ipc.to_executor.cmd_seq ≡ true = ground arith in
      rw (round, seen, if◌then◌else◌)
        (rw idle (rw answer (rw (seen, if◌then◌else◌) (ap (λ y. (failed e, y)) idle))))

  poll_loop-acked :
      (left : ℕ) (w w1 : World b) (e : ErrorCode)
      → h.elapse 10000 w ≡ w1
      → w1.ipc.to_manager.cmd_ack ≡ w1.ipc.to_executor.cmd_seq
      → h.elapse 0 w1 ≡ w1
      → response_error w1.ipc.to_manager.cmd_resp ≡ some e
      → poll_loop h d (suc left) w ≡ (failed e, w1)
  unfolding poll_loop
  poll_loop-acked left w w1 e slept acked idle answer =
      ap (λ x. round x (poll_loop h d left)) slept
      ∙ round-rejected w1 (poll_loop h d left) e acked idle answer

  -- The manager starts a payload, other than the dummy, on a domain that is ready with no command
  -- pending; while it sleeps the core does one round of its loop, on the block as the manager left
  -- it, and a further round finds nothing to do. If the monitor rejects the image, the manager
  -- returns the error of that verdict, after that one sleep, and the domain is left as the
  -- monitor left it.
  pub start_payload_at-rejected :
      (w : World b) (a : StartArguments) (e : Executor b)
      → get_state h d w ≡ monitor_ready
      → (h.elapse 0 w).ipc.to_manager.cmd_ack ≡ (h.elapse 0 w).ipc.to_executor.cmd_seq
      → a.entry_address ≢ 0xbaadf00d
      → e.block ≡ send (h.elapse 0 w).ipc a
      → (let w2 = record (h.elapse 0 w) { ipc = (main_round e).block } in
          (h.elapse 10000 (sent w a) ≡ w2) × (h.elapse 0 w2 ≡ w2))
      → verdict e ≢ crc_ok
      → start_payload_at h d w a
        ≡ (failed (rejection (verdict e)), record (h.elapse 0 w) { ipc = (main_round e).block })
  unfolding start_payload_at
  start_payload_at-rejected w a e ready free real same (slept, idle) bad =
      let w1 = h.elapse 0 w in
      let w2 = record w1 { ipc = (main_round e).block } in
      let seq : e.block.to_executor.cmd_seq ≡ next_seq w1.ipc.to_executor.cmd_seq =
        ap (λ (k : IpcBlock). k.to_executor.cmd_seq) same in
      let ack : e.block.to_manager.cmd_ack ≡ w1.ipc.to_manager.cmd_ack =
        ap (λ (k : IpcBlock). k.to_manager.cmd_ack) same in
      let (acked, resp, entered, back, framed) =
        main_round_start e (λ q. omega arith) (ap (λ (k : IpcBlock). k.to_executor.cmd) same)
          (λ q. real (sym (ap (λ (k : IpcBlock). k.to_executor.payload_entry_address) same) ∙ q)) in
      let seen : w2.ipc.to_manager.cmd_ack ≡ w2.ipc.to_executor.cmd_seq =
        acked
        ∙ ap next_seq (ack ∙ free)
        ∙ sym (ap (λ (o : ManagerToExecutor). o.cmd_seq) framed ∙ seq) in
      let is_ready : (get_state h d w is monitor_ready) ≡ true =
        ap (λ s. s is monitor_ready) ready in
      let is_free : w1.ipc.to_manager.cmd_ack == w1.ipc.to_executor.cmd_seq ≡ true = ground arith in
      let answer : response_error w2.ipc.to_manager.cmd_resp ≡ some (rejection (verdict e)) =
        ap response_error resp ∙ response_error-rejection (verdict e) bad in
      rw (start_payload_at, is_ready, is_free, if◌then◌else◌)
        (poll_loop-acked 99 (sent w a) w2 (rejection (verdict e)) slept seen idle answer)
