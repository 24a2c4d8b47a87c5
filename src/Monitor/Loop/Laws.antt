-- ===== src/Monitor/Loop/Laws.antt =====
-- What a round of the monitor's loop does with a pending command.
use bmboot.Base.{
  ◌≡◌, ◌≢◌, ◌⊎◌, inl, inr, refl, sym, subst, arith, true, false, if◌then◌else◌, ◌==◌, not, ◌&&◌,
  ◌||◌,
}
use bmboot.Bus.{Bus}
use bmboot.Ipc.{
  noop, start_payload, next_seq, Response, crc_ok, crc_mismatched, image_malformed,
  abi_incompatible, response_code,
}
use bmboot.Types.{state_code, starting_payload, monitor_ready}
use bmboot.Monitor.{Executor, in_payload, in_dummy}
use bmboot.Monitor.Validate.{validate_payload}
use bmboot.Monitor.Loop.{main_round, handle_start, set_state, acknowledge, respond, accepted}

module _ {b : Bus} where
  abbrev pub verdict : Executor b → Response
  verdict e =
      let inbox = e.block.to_executor in
      validate_payload e.memory inbox.payload_entry_address inbox.payload_size inbox.payload_crc

  -- The state after a start command that got the answer `r`.
  abbrev answered : Executor b → Response → Executor b
  answered e r =
      let e2 = acknowledge (respond (set_state e (state_code starting_payload)) r) in
      if accepted r
      then record e2 { control = in_payload e.block.to_executor.payload_entry_address }
      else set_state e2 (state_code monitor_ready)

  abbrev Answers : Executor b → Response → Executor b → Type 0
  Answers e r e' =
      (e'.block.to_manager.cmd_ack ≡ next_seq e.block.to_manager.cmd_ack)
      × (e'.block.to_manager.cmd_resp ≡ response_code r)
      × (r ≡ crc_ok
          → (e'.control ≡ in_payload e.block.to_executor.payload_entry_address)
            × (e'.block.to_manager.state ≡ state_code starting_payload))
      × (r ≢ crc_ok
          → (e'.control ≡ e.control) × (e'.block.to_manager.state ≡ state_code monitor_ready))
      × (e'.block.to_executor ≡ e.block.to_executor)

  answered-Answers : (e : Executor b) (r : Response) → Answers e r (answered e r)
  answered-Answers e crc_ok = (refl, refl, λ h. (refl, refl), λ h. absurd (h refl), refl)
  answered-Answers e crc_mismatched = (refl, refl, λ h. cc, λ h. (refl, refl), refl)
  answered-Answers e image_malformed = (refl, refl, λ h. cc, λ h. (refl, refl), refl)
  answered-Answers e abi_incompatible = (refl, refl, λ h. cc, λ h. (refl, refl), refl)

  main_round-answered :
      (e : Executor b)
      → (e.block.to_executor.cmd_seq == e.block.to_manager.cmd_ack) ≡ false
      → (e.block.to_executor.cmd == noop) ≡ false
      → (e.block.to_executor.cmd == start_payload) ≡ true
      → (e.block.to_executor.payload_entry_address == 0xbaadf00d) ≡ false
      → main_round e ≡ answered e (verdict e)
  unfolding main_round
  main_round-answered e pending not_noop start real =
      rw (pending, not_noop, start, real, if◌then◌else◌)

  -- A pending command to start a payload, other than the dummy, is acknowledged with the verdict on
  -- the image; an accepted payload is entered at its entry address in the state
  -- `starting_payload`, and after a rejected one the monitor is ready again and goes on where it was. The
  -- manager's half of the block is left alone.
  pub main_round_start :
      (e : Executor b)
      → e.block.to_executor.cmd_seq ≢ e.block.to_manager.cmd_ack
      → e.block.to_executor.cmd ≡ start_payload
      → e.block.to_executor.payload_entry_address ≢ 0xbaadf00d
      → let e' = main_round e in
        (e'.block.to_manager.cmd_ack ≡ next_seq e.block.to_manager.cmd_ack)
        × (e'.block.to_manager.cmd_resp ≡ response_code (verdict e))
        × (verdict e ≡ crc_ok
            → (e'.control ≡ in_payload e.block.to_executor.payload_entry_address)
              × (e'.block.to_manager.state ≡ state_code starting_payload))
        × (verdict e ≢ crc_ok
            → (e'.control ≡ e.control) × (e'.block.to_manager.state ≡ state_code monitor_ready))
        × (e'.block.to_executor ≡ e.block.to_executor)
  main_round_start e pending cmd real =
      subst (Answers e (verdict e))
        (sym (main_round-answered e (ground arith) (ground arith) (ground arith) (ground arith)))
        (answered-Answers e (verdict e))

  -- A pending `noop` is acknowledged, and nothing else happens.
  pub main_round-noop :
      (e : Executor b)
      → e.block.to_executor.cmd_seq ≢ e.block.to_manager.cmd_ack
      → e.block.to_executor.cmd ≡ noop
      → main_round e ≡ acknowledge e
  unfolding main_round
  main_round-noop e pending cmd =
      let busy : e.block.to_executor.cmd_seq == e.block.to_manager.cmd_ack ≡ false = ground arith in
      let is_noop : e.block.to_executor.cmd == noop ≡ true = ground arith in
      rw (busy, is_noop, if◌then◌else◌)

  -- A start of the dummy payload is never acknowledged: the core leaves the loop first.
  pub main_round_dummy :
      (e : Executor b)
      → e.block.to_executor.cmd_seq ≢ e.block.to_manager.cmd_ack
      → e.block.to_executor.cmd ≡ start_payload
      → e.block.to_executor.payload_entry_address ≡ 0xbaadf00d
      → let e' = main_round e in
        (e'.control ≡ in_dummy)
        × (e'.block.to_manager.state ≡ state_code starting_payload)
        × (e'.block.to_manager.cmd_ack ≡ e.block.to_manager.cmd_ack)
  unfolding main_round
  main_round_dummy e pending cmd dummy =
      let busy : e.block.to_executor.cmd_seq == e.block.to_manager.cmd_ack ≡ false = ground arith in
      let not_noop : e.block.to_executor.cmd == noop ≡ false = ground arith in
      let start : e.block.to_executor.cmd == start_payload ≡ true = ground arith in
      let is_dummy : e.block.to_executor.payload_entry_address == 0xbaadf00d ≡ true =
        ground arith in
      rw (busy, not_noop, start, is_dummy, if◌then◌else◌) (refl, refl, refl)

  -- With no command pending, or one that is not known, a round changes nothing.
  pub main_round_idle :
      (e : Executor b)
      → (e.block.to_executor.cmd_seq ≡ e.block.to_manager.cmd_ack)
        ⊎ ((e.block.to_executor.cmd ≢ noop) × (e.block.to_executor.cmd ≢ start_payload))
      → main_round e ≡ e
  unfolding main_round
  main_round_idle e (inl same) =
      let none_pending : e.block.to_executor.cmd_seq == e.block.to_manager.cmd_ack ≡ true =
        ground arith in
      rw (none_pending, if◌then◌else◌)
  main_round_idle e (inr unknown) =
      let not_noop : e.block.to_executor.cmd == noop ≡ false = ground arith in
      let not_start : e.block.to_executor.cmd == start_payload ≡ false = ground arith in
      rw (not_noop, not_start, if◌then◌else◌) (ground arith)

  -- A round acknowledges exactly where it finds a pending `noop`, and a pending start of a
  -- payload other than the dummy; with a start of the dummy, an unknown command or nothing pending the
  -- acknowledgement stays as it was. No round changes the manager's half of the block, or memory.
  pub main_round-ack :
      (e : Executor b)
      → let inbox = e.block.to_executor in
        let ack = e.block.to_manager.cmd_ack in
        let known =
          inbox.cmd == noop
          || (inbox.cmd == start_payload && not (inbox.payload_entry_address == 0xbaadf00d)) in
        ((main_round e).block.to_manager.cmd_ack
          ≡ (if not (inbox.cmd_seq == ack) && known then next_seq ack else ack))
        × ((main_round e).block.to_executor ≡ inbox)
        × ((main_round e).memory ≡ e.memory)
  unfolding main_round handle_start
  main_round-ack e = ground arith
