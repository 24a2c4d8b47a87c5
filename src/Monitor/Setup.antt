-- ===== src/Monitor/Setup.antt =====
-- The start of the monitor's `main` in src/executor/monitor/monitor.cpp, and `setupInterrupts` of
-- src/platform/zynqmp/executor/monitor/interrupt_controller.cpp.
pub mod Laws
use bmboot.Base.{ℕ, ◌+◌, Option, none, some, bit_and}
use bmboot.Bus.{Bus, gicc_ctrl, gicc_pmr, gicc_bpr}
use bmboot.Zynqmp.{
  IpiChannel, get_ipi_base_address, get_ipi_peer_mask, get_interrupt_id_for_ipi,
  get_ipi_channel_for_cpu, ipi_src_bmboot_manager,
}
use bmboot.Gic.{
  Controller, group0_fiq_el3, unchanged, configure_shared_peripheral_interrupt, enable_interrupt,
  not32,
}
use bmboot.Types.{state_code, monitor_ready}
use bmboot.Monitor.{Executor, in_main, set_to_manager}

-- `enableIpiReception`: the channel's ISR and IER.
pub enable_ipi_reception : (b : Bus) → b.State → IpiChannel → IpiChannel → b.State
enable_ipi_reception b s src dst =
    let base = get_ipi_base_address dst in
    let cleared = b.write32 s (base + 0x10) (get_ipi_peer_mask src) in
    b.write32 cleared (base + 0x18) (get_ipi_peer_mask src)

module _ {b : Bus} where
  -- `enableCpuInterrupts`: the three registers, and the F and I masks of DAIF.
  unfoldable pub enable_cpu_interrupts : Executor b → Executor b
  enable_cpu_interrupts e =
      let s1 = b.write32 e.irq.device gicc_bpr 0x03 in
      let s2 = b.write32 s1 gicc_pmr 0xFF in
      let s3 = b.write32 s2 gicc_ctrl 15 in
      record e {
        irq = record e.irq { device = s3 };
        daif = bit_and (bit_and e.daif (not32 0x80)) (not32 0x40);
      }

  unfoldable pub ipi_setup : Controller b → IpiChannel → ℕ → Controller b
  unfolding enable_ipi_reception
  ipi_setup c mine cpu =
      let id = get_interrupt_id_for_ipi mine in
      let routed = configure_shared_peripheral_interrupt b c id unchanged cpu group0_fiq_el3 0x00 in
      let enabled = enable_interrupt b routed.device id in
      record routed { device = enable_ipi_reception b enabled ipi_src_bmboot_manager mine }

  -- `setupInterrupts`; `none` where the core has no channel.
  unfoldable pub setup_interrupts : Executor b → Option (Executor b)
  unfolding enable_cpu_interrupts ipi_setup
  setup_interrupts e =
      let e' = enable_cpu_interrupts e in
      elim (get_ipi_channel_for_cpu e.cpu_index) [
        | none ↦ none
        | some mine ↦ some (record e' { irq = ipi_setup e'.irq mine e.cpu_index })
      ]

  abbrev pub ready : Executor b → Executor b
  ready e =
      set_to_manager (record e { control = in_main })
        (record e.block.to_manager { state = state_code monitor_ready })

  -- `main` up to its loop.
  unfoldable pub start_main : Executor b → Option (Executor b)
  unfolding setup_interrupts
  start_main e = elim (setup_interrupts (record e { cntfrq = e.block.to_executor.cntfrq })) [
    | none ↦ none
    | some e' ↦ some (ready e')
  ]
