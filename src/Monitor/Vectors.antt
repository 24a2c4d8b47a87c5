-- ===== src/Monitor/Vectors.antt =====
-- The exceptions that are taken to EL3: src/platform/zynqmp/executor/monitor/vectors_el3.cpp. `none`
-- is where the core has no IPI channel (`abort`), or a monitor call is undefined.
pub mod Frames
pub mod Kill
pub mod Crash
use bmboot.Base.{
  ℕ, ◌+◌, ◌/◌, ◌%◌, ◌^◌, Bool, not, if◌then◌else◌, ◌==◌, Option, none, some, List, [], ◌∷◌, bit_and,
}
use bmboot.Bus.{Bus, gicc_eoir}
use bmboot.Ipc.{Regs, FpRegs}
use bmboot.Zynqmp.{
  IpiChannel, get_ipi_base_address, get_ipi_peer_mask, get_interrupt_id_for_ipi,
  get_ipi_channel_for_cpu, ipi_src_bmboot_manager,
}
use bmboot.Gic.{teardown_el1_interrupts}
use bmboot.Monitor.{Executor, monitor, halted, literal, report_crash, set_to_manager}
use bmboot.Monitor.Setup.{start_main}
use bmboot.Smc.{handle_smc}

-- `EC_SMC`
abbrev pub ec_smc : ℕ
ec_smc = 0x17

-- "Monitor FIQInterrupt"
abbrev pub fiq_text : List ℕ
fiq_text =
    77 ∷ 111 ∷ 110 ∷ 105 ∷ 116 ∷ 111 ∷ 114 ∷ 32 ∷ 70 ∷ 73 ∷ 81 ∷ 73 ∷ 110 ∷ 116 ∷ 101 ∷ 114 ∷ 114
    ∷ 117 ∷ 112 ∷ 116 ∷ []

-- "Monitor IRQInterrupt"
abbrev pub irq_text : List ℕ
irq_text =
    77 ∷ 111 ∷ 110 ∷ 105 ∷ 116 ∷ 111 ∷ 114 ∷ 32 ∷ 73 ∷ 82 ∷ 81 ∷ 73 ∷ 110 ∷ 116 ∷ 101 ∷ 114 ∷ 114
    ∷ 117 ∷ 112 ∷ 116 ∷ []

-- "Monitor SynchronousInterrupt"
abbrev pub synchronous_text : List ℕ
synchronous_text =
    77 ∷ 111 ∷ 110 ∷ 105 ∷ 116 ∷ 111 ∷ 114 ∷ 32 ∷ 83 ∷ 121 ∷ 110 ∷ 99 ∷ 104 ∷ 114 ∷ 111 ∷ 110 ∷ 111
    ∷ 117 ∷ 115 ∷ 73 ∷ 110 ∷ 116 ∷ 101 ∷ 114 ∷ 114 ∷ 117 ∷ 112 ∷ 116 ∷ []

-- "Monitor SErrorInterrupt"
abbrev pub serror_text : List ℕ
serror_text =
    77 ∷ 111 ∷ 110 ∷ 105 ∷ 116 ∷ 111 ∷ 114 ∷ 32 ∷ 83 ∷ 69 ∷ 114 ∷ 114 ∷ 111 ∷ 114 ∷ 73 ∷ 110 ∷ 116
    ∷ 101 ∷ 114 ∷ 114 ∷ 117 ∷ 112 ∷ 116 ∷ []

module _ {b : Bus} where
  abbrev pub set_device : Executor b → b.State → Executor b
  set_device e s = record e { irq = record e.irq { device = s } }

  -- The crash of the monitor, and the endless loop after it.
  abbrev pub crash : Executor b → List ℕ → ℕ → Executor b
  crash e text address = record (report_crash e monitor (literal text) 0 address) {
    control = halted;
  }

  -- A crash on an interrupt, which is acknowledged before the endless loop.
  abbrev pub crash_on_interrupt : Executor b → List ℕ → ℕ → Executor b
  crash_on_interrupt e text iar =
      set_device (crash e text iar) (b.write32 e.irq.device gicc_eoir iar)

  -- The store to `ipi->ISR` of what was read from it, and the store to `EOIR`.
  abbrev pub acknowledge_ipi : Executor b → IpiChannel → ℕ → Executor b
  acknowledge_ipi e mine iar =
      let isr = get_ipi_base_address mine + 0x10 in
      let s = b.write32 e.irq.device isr (b.read32 e.irq.device isr) in
      set_device e (b.write32 s gicc_eoir iar)

  -- The kill request; `_boot` runs the monitor from its entry point.
  pub kill : Executor b → Option (Executor b)
  kill e = start_main (record e { irq = teardown_el1_interrupts b e.irq })

  pub handle_fiq : Executor b → IpiChannel → ℕ → Option (Executor b)
  unfolding kill
  handle_fiq e mine iar =
      let source_mask = b.read32 e.irq.device (get_ipi_base_address mine + 0x10) in
      let e' = acknowledge_ipi e mine iar in
      if bit_and iar 0x3FF == get_interrupt_id_for_ipi mine
      then if not (bit_and source_mask (get_ipi_peer_mask ipi_src_bmboot_manager) == 0)
        then kill e'
        else some (crash_on_interrupt e' fiq_text iar)
      else some (crash_on_interrupt e fiq_text iar)

  -- `FIQInterrupt`; the load of `IAR` comes first.
  pub fiq_interrupt : Executor b → Option (Executor b)
  unfolding handle_fiq
  fiq_interrupt e =
      let (iar, s) = b.read_iar e.irq.device in
      elim (get_ipi_channel_for_cpu e.cpu_index) [
        | none ↦ none
        | some mine ↦ handle_fiq (set_device e s) mine iar
      ]

  -- `IRQInterrupt`
  pub irq_interrupt : Executor b → Executor b
  irq_interrupt e =
      let (iar, s) = b.read_iar e.irq.device in crash_on_interrupt (set_device e s) irq_text iar

  -- `SynchronousInterrupt`, with the contents of ESR_EL3, ELR_EL3 and the floating-point registers.
  pub synchronous_interrupt : Executor b → Regs → ℕ → ℕ → FpRegs → Option (Executor b × Regs)
  synchronous_interrupt e r esr elr fp =
      let saved = set_to_manager e (record e.block.to_manager { fpregs = fp; regs = r }) in
      if esr / 2 ^ 26 % 64 == ec_smc
      then handle_smc e r
      else some (crash saved synchronous_text elr, r)

  -- `SErrorInterrupt`
  pub serror_interrupt : Executor b → ℕ → Executor b
  serror_interrupt e elr = crash e serror_text elr
