-- ===== src/Monitor/Vectors/Kill.antt =====
-- The kill request of `FIQInterrupt` in src/platform/zynqmp/executor/monitor/vectors_el3.cpp.
use bmboot.Base.{
  ℕ, ◌+◌, ◌≤◌, ◌<◌, ◌≡◌, ◌≢◌, inr, refl, ap, ◌∙◌, arith, true, false, not, ◌&&◌, ◌||◌,
  if◌then◌else◌, ◌==◌, leb, some, bit_and,
}
use bmboot.Bus.{Bus, Distributor, gicc_eoir}
use bmboot.Zynqmp.{
  IpiChannel, get_ipi_base_address, get_ipi_peer_mask, get_interrupt_id_for_ipi,
  get_ipi_channel_for_cpu, ipi_src_bmboot_manager,
}
use bmboot.Types.{state_code, monitor_ready}
use bmboot.Gic.{teardown_el1_interrupts}
use bmboot.Gic.Enable.{enabled_elsewhere}
use bmboot.Gic.Teardown.{teardown_el1_interrupts_lem}
use bmboot.Monitor.{Executor, in_main}
use bmboot.Monitor.Setup.Laws.{
  started, start_main-started, started_lem, started-block, ipi_base_high,
}
use bmboot.Monitor.Vectors.{set_device, acknowledge_ipi, kill, handle_fiq, fiq_interrupt}

module _ (b : Bus) (d : Distributor b) where
  open d use {enabled}

  acknowledge_ipi-enabled :
      (e : Executor b) (mine : IpiChannel) (iar j : ℕ)
      → j < 1024
      → enabled (acknowledge_ipi e mine iar).irq.device j ≡ enabled e.irq.device j
  acknowledge_ipi-enabled e mine iar j q =
      let high : 0xFF300000 ≤ get_ipi_base_address mine = ipi_base_high mine in
      enabled_elsewhere b d _ gicc_eoir iar j (inr (omega arith)) q
      ∙ enabled_elsewhere b d e.irq.device _ _ j (inr (omega arith)) q

  -- The core after the kill request of `e`, which found `iar` in the acknowledge register.
  abbrev pub killed : Executor b → IpiChannel → ℕ → Executor b
  killed e mine iar =
      let e' = acknowledge_ipi e mine iar in
      started b d (record e' { irq = teardown_el1_interrupts b e'.irq }) mine

  handle_fiq-killed :
      (e : Executor b) (mine : IpiChannel) (iar : ℕ)
      → get_ipi_channel_for_cpu e.cpu_index ≡ some mine
      → bit_and iar 0x3FF ≡ get_interrupt_id_for_ipi mine
      → bit_and
          (b.read32 e.irq.device (get_ipi_base_address mine + 0x10))
          (get_ipi_peer_mask ipi_src_bmboot_manager)
        ≢ 0
      → handle_fiq e mine iar ≡ some (killed e mine iar)
  unfolding handle_fiq kill
  handle_fiq-killed e mine iar known same asked =
      let is_ipi : bit_and iar 0x3FF == get_interrupt_id_for_ipi mine ≡ true = ground arith in
      let from_manager : bit_and (b.read32 e.irq.device (get_ipi_base_address mine + 0x10))
              (get_ipi_peer_mask ipi_src_bmboot_manager)
            == 0
          ≡ false =
        ground arith in
      rw (is_ipi, from_manager, if◌then◌else◌) (start_main-started b d _ mine known)

  killed_lem :
      (e : Executor b) (mine : IpiChannel) (iar j : ℕ)
      → j < 1024
      → (enabled (killed e mine iar).irq.device j ≡ (
          get_interrupt_id_for_ipi mine == j
          || (not (j == 30 || (leb j 187 && e.irq.routed j)) && enabled e.irq.device j)))
        × ((killed e mine iar).irq.routed j
            ≡ (not (get_interrupt_id_for_ipi mine == j) && (not (leb j 187) && e.irq.routed j)))
  killed_lem e mine iar j q =
      let e' = acknowledge_ipi e mine iar in
      let torn = record e' { irq = teardown_el1_interrupts b e'.irq } in
      let (on, note) = started_lem b d torn mine j q in
      let (note', off) = teardown_el1_interrupts_lem b d e'.irq j q in
      (
        on
            ∙ ap (λ x. get_interrupt_id_for_ipi mine == j || x)
                (off
                  ∙ ap (λ x. not (j == 30 || (leb j 187 && e.irq.routed j)) && x)
                      (acknowledge_ipi-enabled e mine iar j q)),
        note ∙ ap (λ x. not (get_interrupt_id_for_ipi mine == j) && x) note',
      )

  pub fiq_interrupt-killed :
      (e : Executor b) (mine : IpiChannel)
      → get_ipi_channel_for_cpu e.cpu_index ≡ some mine
      → bit_and (b.read_iar e.irq.device).0 0x3FF ≡ get_interrupt_id_for_ipi mine
      → bit_and
          (b.read32 (b.read_iar e.irq.device).1 (get_ipi_base_address mine + 0x10))
          (get_ipi_peer_mask ipi_src_bmboot_manager)
        ≢ 0
      → fiq_interrupt e
        ≡ some (killed (set_device e (b.read_iar e.irq.device).1) mine (b.read_iar e.irq.device).0)
  unfolding fiq_interrupt
  fiq_interrupt-killed e mine known same asked =
      rw (known, fiq_interrupt)
        (handle_fiq-killed (set_device e (b.read_iar e.irq.device).1) mine
          (b.read_iar e.irq.device).0 known same asked)

  -- When the core finds that its own IPI is pending, and that the manager is among its sources, the
  -- monitor starts afresh: it is ready and in its loop, with the block as it was but for the state.
  -- Of the interrupts (ids below 1024), the core's own IPI is enabled, the timer and those that the
  -- payload had routed to EL1 are disabled, every other one is as before; and none up to 187 is
  -- routed to EL1 any more.
  pub fiq_interrupt-kill :
      (e : Executor b) (mine : IpiChannel)
      → get_ipi_channel_for_cpu e.cpu_index ≡ some mine
      → bit_and (b.read_iar e.irq.device).0 0x3FF ≡ get_interrupt_id_for_ipi mine
      → bit_and
          (b.read32 (b.read_iar e.irq.device).1 (get_ipi_base_address mine + 0x10))
          (get_ipi_peer_mask ipi_src_bmboot_manager)
        ≢ 0
      → (e' : Executor b) × (fiq_interrupt e ≡ some e')
        × (e'.control ≡ in_main)
        × (e'.block ≡ record e.block {
          to_manager = record e.block.to_manager { state = state_code monitor_ready };
        })
        × ((j : ℕ)
            → j < 1024
            → (enabled e'.irq.device j ≡ (
                get_interrupt_id_for_ipi mine == j
                || (not (j == 30 || (leb j 187 && e.irq.routed j)) && enabled e.irq.device j)))
              × (j ≤ 187 → e'.irq.routed j ≡ false))
  fiq_interrupt-kill e mine known same asked =
      let iar = (b.read_iar e.irq.device).0 in
      let e1 = set_device e (b.read_iar e.irq.device).1 in
      (
        killed e1 mine iar,
        fiq_interrupt-killed e mine known same asked,
        refl,
        started-block b d
            (record (acknowledge_ipi e1 mine iar) {
              irq = teardown_el1_interrupts b (acknowledge_ipi e1 mine iar).irq;
            })
            mine,
        λ j q.
            let (on, note) = killed_lem e1 mine iar j q in
            (
              on
                  ∙ ap
                      (λ x.
                        get_interrupt_id_for_ipi mine == j
                        || (not (j == 30 || (leb j 187 && e.irq.routed j)) && x))
                      (d.enabled-read_iar e.irq.device j),
              λ small. note ∙ ground arith,
            ),
      )
