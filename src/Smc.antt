-- ===== src/Smc.antt =====
-- The secure monitor calls of a payload: `handleSmc` of src/executor/monitor/smc_handlers.cpp.
-- `none` stands for undefined behaviour: a shift by a negative count, at a negative interrupt id.
pub mod Laws
pub mod Configure
pub mod States
use bmboot.Base.{
  ℕ, zero, suc, ◌+◌, ◌-◌, ◌*◌, ◌%◌, ◌^◌, Bool, ◌||◌, ◌&&◌, if◌then◌else◌, ◌==◌, ltb, leb, Option,
  none, some, List, [], ◌∷◌, get_or, set, ℤ, pos, negsuc, to_int,
}
use bmboot.Bus.{Bus}
use bmboot.Ipc.{Regs}
use bmboot.Types.{state_code, running_payload}
use bmboot.Gic.{
  Controller, group1_irq_el1, edge, configure_private_peripheral_interrupt,
  configure_shared_peripheral_interrupt, disable_interrupt, enable_interrupt,
}
use bmboot.Monitor.{
  Executor, halted, monitor, payload, read_bytes, literal, report_crash, set_to_manager,
}
use bmboot.Monitor.Validate.{abi_major, abi_minor}
use bmboot.Stdout.{write_to_stdout}

abbrev pub smc_get_abi_version : ℕ
smc_get_abi_version = 0xF2000000

abbrev pub smc_notify_payload_started : ℕ
smc_notify_payload_started = 0xF2000001

abbrev pub smc_notify_payload_crashed : ℕ
smc_notify_payload_crashed = 0xF2000002

abbrev pub smc_write_stdout : ℕ
smc_write_stdout = 0xF2000003

abbrev pub smc_zynqmp_gic_irq_configure : ℕ
smc_zynqmp_gic_irq_configure = 0xF2000080

abbrev pub smc_zynqmp_gic_irq_enable : ℕ
smc_zynqmp_gic_irq_enable = 0xF2000081

abbrev pub smc_zynqmp_gic_irq_disable : ℕ
smc_zynqmp_gic_irq_disable = 0xF2000082

-- "Unhandled SMC"
abbrev pub unhandled_smc : List ℕ
unhandled_smc = 85 ∷ 110 ∷ 104 ∷ 97 ∷ 110 ∷ 100 ∷ 108 ∷ 101 ∷ 100 ∷ 32 ∷ 83 ∷ 77 ∷ 67 ∷ []

-- The argument registers.
abbrev pub x : Regs → ℕ → ℕ
x r n = get_or r.regs n 0

abbrev pub set_x0 : Regs → ℕ → Regs
set_x0 r v = record r { regs = set r.regs 0 v }

-- An `int` result in a register of 64 bits.
abbrev pub int_to_reg : ℕ → ℕ
int_to_reg n = let w = n % 2 ^ 32 in if ltb w (2 ^ 31) then w else w + (2 ^ 64 - 2 ^ 32)

-- `payloadMinPriorityValue ≤ priority ≤ payloadMaxPriorityValue`
abbrev pub payload_priority : ℤ → Option ℕ
payload_priority (negsuc n) = none
payload_priority (pos p) = if ltb p 0x80 || ltb 0xF0 p then none else some p

module _ {b : Bus} where
  abbrev set_irq : Executor b → b.State → Executor b
  set_irq e s = record e { irq = record e.irq { device = s } }

  -- `case SMC_ZYNQMP_GIC_IRQ_CONFIGURE`: a private interrupt from 16 on, a shared one from 32 on.
  pub configure_irq : Executor b → ℤ → Option ℕ → Executor b
  configure_irq e id none = e
  configure_irq e (negsuc n) (some priority) = e
  configure_irq e (pos id) (some priority) =
      if leb 16 id && ltb id 32
      then record e {
        irq = configure_private_peripheral_interrupt b e.irq id group1_irq_el1 priority;
      }
      else if leb 32 id
      then record e {
        irq =
            configure_shared_peripheral_interrupt b e.irq id edge e.cpu_index group1_irq_el1
              priority;
      }
      else e

  pub enable_irq : Executor b → ℤ → Option (Executor b)
  enable_irq e (negsuc n) = none
  enable_irq e (pos id) = some (set_irq e (enable_interrupt b e.irq.device id))

  pub disable_irq : Executor b → ℤ → Option (Executor b)
  disable_irq e (negsuc n) = none
  disable_irq e (pos id) = some (set_irq e (disable_interrupt b e.irq.device id))

  abbrev pub with_regs : Regs → Option (Executor b) → Option (Executor b × Regs)
  with_regs r none = none
  with_regs r (some e) = some (e, r)

  abbrev pub write_smc : Executor b → Regs → Executor b × Regs
  write_smc e r =
      let (block, wrote) = write_to_stdout e.block (read_bytes e.memory (x r 1) (x r 2)) in
      (record e { block = block }, set_x0 r (int_to_reg wrote))

  -- The `default` case ends in an endless loop.
  abbrev pub crash_on_smc : Executor b → ℕ → Executor b
  crash_on_smc e function = record (report_crash e monitor (literal unhandled_smc) 0 function) {
    control = halted;
  }

  unfoldable pub handle_smc : Executor b → Regs → Option (Executor b × Regs)
  unfolding configure_irq enable_irq disable_irq
  handle_smc e r =
      if x r 0 == smc_get_abi_version
      then some (e, set_x0 r (abi_major * 256 + abi_minor))
      else if x r 0 == smc_notify_payload_started
      then some
          (set_to_manager e (record e.block.to_manager { state = state_code running_payload }), r)
      else if x r 0 == smc_notify_payload_crashed
      then some (report_crash e payload e.memory (x r 1) (x r 2), r)
      else if x r 0 == smc_write_stdout
      then some (write_smc e r)
      else if x r 0 == smc_zynqmp_gic_irq_configure
      then some (configure_irq e (to_int (x r 1)) (payload_priority (to_int (x r 2))), r)
      else if x r 0 == smc_zynqmp_gic_irq_disable
      then with_regs r (disable_irq e (to_int (x r 1)))
      else if x r 0 == smc_zynqmp_gic_irq_enable
      then with_regs r (enable_irq e (to_int (x r 1)))
      else some (crash_on_smc e (x r 0), r)
