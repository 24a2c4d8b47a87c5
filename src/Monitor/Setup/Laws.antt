-- ===== src/Monitor/Setup/Laws.antt =====
-- What the start of the monitor's `main` in src/executor/monitor/monitor.cpp leaves behind: which
-- interrupts are enabled and routed, and the block.
use bmboot.Base.{ℕ, ◌≤◌, ◌<◌, ◌≡◌, inr, refl, ap, ◌∙◌, arith, not, ◌&&◌, ◌||◌, ◌==◌, some}
use bmboot.Bus.{Bus, Distributor, gicc_ctrl, gicc_pmr, gicc_bpr}
use bmboot.Zynqmp.{
  IpiChannel, ch0, ch1, ch2, ch7, ch8, ch9, ch10, get_ipi_base_address, get_interrupt_id_for_ipi,
  get_ipi_channel_for_cpu, ipi_src_bmboot_manager,
}
use bmboot.Gic.{Controller, group0_fiq_el3, unchanged, configure_shared_peripheral_interrupt}
use bmboot.Gic.Enable.{enable_interrupt-enabled, enabled_elsewhere}
use bmboot.Gic.Configure.{configure_shared_lem, configure_shared-enabled}
use bmboot.Types.{state_code, monitor_ready}
use bmboot.Monitor.{Executor}
use bmboot.Monitor.Setup.{
  enable_ipi_reception, enable_cpu_interrupts, ipi_setup, setup_interrupts, start_main, ready,
}

pub ipi_base_high : (c : IpiChannel) → 0xFF300000 ≤ get_ipi_base_address c
unfolding get_ipi_base_address
ipi_base_high ch0 = omega arith
ipi_base_high ch1 = omega arith
ipi_base_high ch2 = omega arith
ipi_base_high ch7 = omega arith
ipi_base_high ch8 = omega arith
ipi_base_high ch9 = omega arith
ipi_base_high ch10 = omega arith

pub ipi_id_small : (c : IpiChannel) → get_interrupt_id_for_ipi c ≤ 67
unfolding get_interrupt_id_for_ipi
ipi_id_small ch0 = omega arith
ipi_id_small ch1 = omega arith
ipi_id_small ch2 = omega arith
ipi_id_small ch7 = omega arith
ipi_id_small ch8 = omega arith
ipi_id_small ch9 = omega arith
ipi_id_small ch10 = omega arith

module _ (b : Bus) (d : Distributor b) where
  open d use {enabled}

  enable_cpu_interrupts-enabled :
      (e : Executor b) (j : ℕ)
      → j < 1024
      → enabled (enable_cpu_interrupts e).irq.device j ≡ enabled e.irq.device j
  unfolding enable_cpu_interrupts
  enable_cpu_interrupts-enabled e j q =
      enabled_elsewhere b d _ gicc_ctrl 15 j (inr (omega arith)) q
      ∙ enabled_elsewhere b d _ gicc_pmr 0xFF j (inr (omega arith)) q
      ∙ enabled_elsewhere b d e.irq.device gicc_bpr 0x03 j (inr (omega arith)) q

  enable_ipi_reception-enabled :
      (s : b.State) (src dst : IpiChannel) (j : ℕ)
      → j < 1024
      → enabled (enable_ipi_reception b s src dst) j ≡ enabled s j
  unfolding enable_ipi_reception
  enable_ipi_reception-enabled s src dst j q =
      let high : 0xFF300000 ≤ get_ipi_base_address dst = ipi_base_high dst in
      enabled_elsewhere b d _ _ _ j (inr (omega arith)) q
      ∙ enabled_elsewhere b d s _ _ j (inr (omega arith)) q

  -- The interrupt of the core's channel is enabled and taken away from EL1; of the others nothing
  -- changes.
  ipi_setup_lem :
      (c : Controller b) (mine : IpiChannel) (cpu j : ℕ)
      → j < 1024
      → (enabled (ipi_setup c mine cpu).device j
          ≡ (get_interrupt_id_for_ipi mine == j || enabled c.device j))
        × ((ipi_setup c mine cpu).routed j
            ≡ (not (get_interrupt_id_for_ipi mine == j) && c.routed j))
  unfolding ipi_setup
  ipi_setup_lem c mine cpu j q =
      let id = get_interrupt_id_for_ipi mine in
      let small : id ≤ 67 = ipi_id_small mine in
      let routed = configure_shared_peripheral_interrupt b c id unchanged cpu group0_fiq_el3 0x00 in
      let (group, note) =
        configure_shared_lem b d c id j cpu 0 unchanged group0_fiq_el3 (omega arith) q in
      let on = enable_interrupt-enabled b d routed.device id j (omega arith) q in
      (
        enable_ipi_reception-enabled _ ipi_src_bmboot_manager mine j q
            ∙ on
            ∙ ap (λ x. id == j || x)
                (configure_shared-enabled b d c id j cpu 0 unchanged group0_fiq_el3 (omega arith)
                  q),
        note ∙ ground arith,
      )

  -- The state in which `main` enters its loop.
  abbrev pub started : Executor b → IpiChannel → Executor b
  started e mine =
      let e' = enable_cpu_interrupts (record e { cntfrq = e.block.to_executor.cntfrq }) in
      ready (record e' { irq = ipi_setup e'.irq mine e.cpu_index })

  pub start_main-started :
      (e : Executor b) (mine : IpiChannel)
      → get_ipi_channel_for_cpu e.cpu_index ≡ some mine
      → start_main e ≡ some (started e mine)
  unfolding start_main setup_interrupts enable_cpu_interrupts
  start_main-started e mine known = rw (known, start_main, setup_interrupts) refl

  pub started_lem :
      (e : Executor b) (mine : IpiChannel) (j : ℕ)
      → j < 1024
      → (enabled (started e mine).irq.device j
          ≡ (get_interrupt_id_for_ipi mine == j || enabled e.irq.device j))
        × ((started e mine).irq.routed j
            ≡ (not (get_interrupt_id_for_ipi mine == j) && e.irq.routed j))
  unfolding enable_cpu_interrupts
  started_lem e mine j q =
      let e' = enable_cpu_interrupts (record e { cntfrq = e.block.to_executor.cntfrq }) in
      let (on, routed) = ipi_setup_lem e'.irq mine e.cpu_index j q in
      (
        on
            ∙ ap (λ x. get_interrupt_id_for_ipi mine == j || x)
                (enable_cpu_interrupts-enabled (record e { cntfrq = e.block.to_executor.cntfrq }) j
                  q),
        routed,
      )

  pub started-block :
      (e : Executor b) (mine : IpiChannel)
      → (started e mine).block ≡ record e.block {
        to_manager = record e.block.to_manager { state = state_code monitor_ready };
      }
  unfolding enable_cpu_interrupts
  started-block e mine = refl
