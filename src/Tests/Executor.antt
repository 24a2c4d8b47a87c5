-- ===== src/Tests/Executor.antt =====
-- The monitor: its loop, its check of a payload and its calls.
use bmboot.Base.{◌+◌, ◌≡◌, ◌≢◌, ◌↔◌, refl, arith}
use bmboot.Ipc.{zeroed, crc_mismatched, crc_ok, image_malformed, response_code}
use bmboot.Types.{state_code, monitor_ready, starting_payload}
use bmboot.Crc.{crc32}
use bmboot.Monitor.{in_payload, in_main, read_bytes, read_word}
use bmboot.Monitor.Validate.{validate_payload, validate_payload_lem, IsPayload, abi_magic_number}
use bmboot.Monitor.Loop.{main_round}
use bmboot.Monitor.Loop.Laws.{main_round_start, verdict}
use bmboot.Smc.{handle_smc, smc_write_stdout}
use bmboot.Smc.Laws.{Serves, handle_smc-Serves}
use bmboot.Tests.Fixtures.{executor, started_block, call}

main_round_start_example :
    let e = executor started_block in
    let e' = main_round e in
    (e'.block.to_manager.cmd_ack ≡ 1)
    × (e'.block.to_manager.cmd_resp ≡ response_code (verdict e))
    × (verdict e ≡ crc_ok
        → (e'.control ≡ in_payload 0x2000)
          × (e'.block.to_manager.state ≡ state_code starting_payload))
    × (verdict e ≢ crc_ok
        → (e'.control ≡ in_main) × (e'.block.to_manager.state ≡ state_code monitor_ready))
    × (e'.block.to_executor ≡ started_block.to_executor)
main_round_start_example =
    main_round_start (executor started_block) (omega arith) (omega arith) (omega arith)

validate_payload_lem_example :
    ((validate_payload (λ a. 0) 0x2000 0 0 ≡ crc_ok) ↔ IsPayload (λ a. 0) 0x2000 0 0)
    × ((validate_payload (λ a. 0) 0x2000 0 0 ≡ crc_mismatched)
        ↔ (crc32 0 (read_bytes (λ a. 0) 0x2000 0) ≢ 0))
    × ((validate_payload (λ a. 0) 0x2000 0 0 ≡ image_malformed) ↔ (
        (crc32 0 (read_bytes (λ a. 0) 0x2000 0) ≡ 0)
        × (read_word (λ a. 0) (0x2000 + 8) ≢ abi_magic_number)))
validate_payload_lem_example = validate_payload_lem (λ a. 0) 0x2000 0 0

handle_smc-Serves_example :
    Serves
      (executor zeroed)
      (call smc_write_stdout)
      (handle_smc (executor zeroed) (call smc_write_stdout))
handle_smc-Serves_example =
    handle_smc-Serves (executor zeroed) (call smc_write_stdout)
      (record { storage = refl; wrpos_in = omega arith; rdpos_in = omega arith }) (omega arith)
