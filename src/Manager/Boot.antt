-- ===== src/Manager/Boot.antt =====
-- Starting and stopping the monitor: `startup`, `terminatePayload`, `ensureReadyToLoadPayload` and
-- `get_devmem_handle` of src/manager/domain.cpp, and src/platform/zynqmp/manager/zynqmp_manager.cpp.
pub mod Laws
pub mod Passes
use bmboot.Base.{
  ℕ, zero, suc, ◌+◌, ◌-◌, ◌*◌, ◌/◌, ◌%◌, ◌^◌, Bool, true, false, not, ◌&&◌, if◌then◌else◌, ◌==◌,
  ltb, leb, Option, none, some, List, [], ◌∷◌, length, bit_and,
}
use bmboot.Bus.{Bus}
use bmboot.Ipc.{IpcBlock, noop, zeroed}
use bmboot.Zynqmp.{
  IpiChannel, ch0, ch1, ch2, ch7, ch8, ch9, ch10, get_ipi_base_address, get_ipi_peer_mask,
  get_ipi_channel_for_cpu, ipi_src_bmboot_manager,
}
use bmboot.Gic.{not32}
use bmboot.Types.{
  DomainState, state_code, invalid_state, ErrorCode, bad_domain_state, configuration_file_error,
  dev_mem_access_failed, mmap_failed, program_too_large, hw_resource_unavailable, ◌is◌,
  monitor_ready, crashed_payload, running_payload, starting_payload,
}
use bmboot.Types.{in_reset as reset_state}
use bmboot.Manager.{
  Cpu, get_cpu_index, World, Host, Outcome, done, failed, fault, DomainGeneralState, in_reset,
  unavailable, monitor_started, set_outbox, set_general,
}
use bmboot.Manager.Memory.{get_physical_memory_ranges, store_bytes}
use bmboot.Manager.State.{get_state, await_monitor_startup}

abbrev pub is_in_reset : DomainGeneralState → Bool
is_in_reset in_reset = true
is_in_reset _ = false

abbrev pub is_started : DomainGeneralState → Bool
is_started monitor_started = true
is_started _ = false

-- The bytes of `MONITOR_CODE_COOKIE` in memory.
abbrev pub cookie_bytes : List ℕ
cookie_bytes = 0xCD ∷ 0xAB ∷ 0x50 ∷ 0x71 ∷ []

-- The reset register of the application cores, and a core's two bits in it.
abbrev pub rst_fpd_apu : ℕ
rst_fpd_apu = 0xFD1A0104

abbrev pub reset_mask : Cpu → ℕ
reset_mask d = 0x401 * 2 ^ get_cpu_index d

-- Where a core's reset address goes, `RVBARADDR`.
abbrev pub rvbaraddr : Cpu → ℕ
rvbaraddr d = 0xFD5C0040 + get_cpu_index d * 8

-- The message buffer for each channel.
abbrev pub message_buffer_base : IpiChannel → ℕ
message_buffer_base ch0 = 0xFF990400
message_buffer_base ch1 = 0xFF990000
message_buffer_base ch2 = 0xFF990200
message_buffer_base ch7 = 0xFF990600
message_buffer_base ch8 = 0xFF990800
message_buffer_base ch9 = 0xFF990A00
message_buffer_base ch10 = 0xFF990C00

-- Word `i` of the message 1, 2, … 20, where it has one.
abbrev pub message_word : ℕ → ℕ
message_word i = (4 * i + 1) + 0x100 * (4 * i + 2) + 0x10000 * (4 * i + 3) + 0x1000000 * (4 * i + 4)

module _ {b : Bus} (h : Host b) where
  -- `get_devmem_handle`: opened once; the rest needs the handle.
  abbrev pub with_devmem : World b → (World b → Outcome × World b) → Outcome × World b
  with_devmem w next = elim w.devmem [
    | some fd ↦ next w
    | none ↦ elim (h.open_dev_mem w) [
      | none ↦ (failed dev_mem_access_failed, w)
      | some fd ↦ next (record w { devmem = some fd })
    ]
  ]

  unfoldable pub is_core_in_reset : Cpu → World b → Bool
  is_core_in_reset d w =
      if h.mmap w 0xFD1A0000 0x1000
      then not (bit_and (b.read32 w.device rst_fpd_apu) (reset_mask d) == 0)
      else false

  unfoldable pub boot_core : Cpu → ℕ → World b → Outcome × World b
  boot_core d reset_address w =
      let init = b.read32 w.device rst_fpd_apu in
      let s1 = b.write32 w.device (rvbaraddr d) (reset_address % 2 ^ 32) in
      let s2 = b.write32 s1 (rvbaraddr d + 4) (reset_address / 2 ^ 32) in
      let s3 = b.write32 s2 rst_fpd_apu (bit_and init (not32 (reset_mask d))) in
      if not (h.mmap w 0xFD1A0000 0x1000 && h.mmap w 0xFD5C0000 0x1000)
      then (failed mmap_failed, w)
      else if bit_and init (reset_mask d) == 0
      then (failed hw_resource_unavailable, w)
      else (done, record w { device = s3 })

  -- The loop over the eight words of the message buffer; the first five have been filled.
  pub write_message : ℕ → ℕ → ℕ → b.State → b.State
  write_message zero i base s = s
  write_message (suc left) i base s =
      write_message left (i + 1) base
        (b.write32 s (base + i * 4) (if ltb i 5 then message_word i else h.stack i))

  -- `sendIpiMessage` with the one message there is. The mappings are not checked.
  unfoldable pub send_ipi_message : Cpu → World b → Outcome × World b
  unfolding write_message
  send_ipi_message d w = elim (get_ipi_channel_for_cpu (get_cpu_index d)) [
    | none ↦ (fault, w)
    | some channel ↦
        let s = write_message 8 0 (message_buffer_base channel) w.device in
        let s' =
          b.write32 s (get_ipi_base_address ipi_src_bmboot_manager) (get_ipi_peer_mask channel) in
        if not (h.mmap w 0xFF990000 0x1000)
        then (fault, w)
        else if not (h.mmap w (get_ipi_base_address ipi_src_bmboot_manager) 0x1000)
        then (fault, record w { device = s })
        else (done, record w { device = s' })
  ]

  -- The domain's block as `startup` leaves it to the core.
  abbrev pub fresh_block : ℕ → IpcBlock
  fresh_block cntfrq = record zeroed {
    to_executor = record zeroed.to_executor { cntfrq = cntfrq };
    to_manager = record zeroed.to_manager { state = state_code invalid_state };
  }

  -- The monitor's code and the cookie in the last four bytes of its region.
  abbrev pub install_monitor : Cpu → World b → World b
  install_monitor d w =
      let r = get_physical_memory_ranges d in
      let code = store_bytes w.memory r.monitor_address (h.monitor_binary d) in
      record w { memory = store_bytes code (r.monitor_address + r.monitor_size - 4) cookie_bytes }

  -- The end of `startup`, after `bootCore`.
  abbrev pub finish_startup : Cpu → Outcome × World b → Outcome × World b
  finish_startup d (failed e, w) = (failed e, w)
  finish_startup d (fault, w) = (fault, w)
  finish_startup d (done, w) = await_monitor_startup h d (set_general w d monitor_started)

  -- `startup`, from the mapping of the code area on.
  unfoldable pub install_and_boot : Cpu → ℕ → World b → Outcome × World b
  unfolding boot_core
  install_and_boot d cntfrq w =
      let r = get_physical_memory_ranges d in
      let installed = record (install_monitor d w) { ipc = fresh_block cntfrq } in
      if not (h.mmap w r.monitor_address r.monitor_size)
      then (failed mmap_failed, w)
      else if ltb (r.monitor_size - 4) (length (h.monitor_binary d))
      then (failed program_too_large, w)
      else finish_startup d (boot_core d r.monitor_address installed)

  unfoldable pub startup : Cpu → World b → Outcome × World b
  unfolding install_and_boot
  startup d w = elim (h.configuration w) [
    | none ↦ (failed configuration_file_error, w)
    | some cntfrq ↦
        if not (is_in_reset (w.general d))
        then (failed bad_domain_state, w)
        else with_devmem w (install_and_boot d cntfrq)
  ]

  -- The end of `terminatePayload`; an error of `sendIpiMessage` is dropped, a fault is not.
  abbrev pub finish_terminate : Cpu → Outcome × World b → Outcome × World b
  finish_terminate d (fault, w) = (fault, w)
  finish_terminate d (done, w) = await_monitor_startup h d w
  finish_terminate d (failed e, w) = await_monitor_startup h d w

  abbrev pub withdraw_command : World b → World b
  withdraw_command w = set_outbox w (record w.ipc.to_executor { cmd = noop })

  unfoldable pub terminate_payload : Cpu → World b → Outcome × World b
  unfolding send_ipi_message
  terminate_payload d w =
      if not (is_started (w.general d))
      then (failed bad_domain_state, w)
      else with_devmem w (λ v. finish_terminate d (send_ipi_message d (withdraw_command v)))

  abbrev pub ensure_by : Cpu → World b → DomainState → Outcome × World b
  ensure_by d w reset_state = startup d w
  ensure_by d w monitor_ready = (done, w)
  ensure_by d w crashed_payload = terminate_payload d w
  ensure_by d w running_payload = terminate_payload d w
  ensure_by d w starting_payload = terminate_payload d w
  ensure_by d w _ = (failed bad_domain_state, w)

  unfoldable pub ensure_ready_to_load_payload : Cpu → World b → Outcome × World b
  ensure_ready_to_load_payload d w = ensure_by d w (get_state h d w)
