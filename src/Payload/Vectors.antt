-- ===== src/Payload/Vectors.antt =====
-- The exceptions that are taken to EL1: src/platform/zynqmp/executor/payload/vectors_el1.cpp. The
-- payload's own functions are a parameter, `run`, and so are the addresses that the linker gives the
-- texts. None is where a function of the payload does not return, or where a monitor call is undefined.
pub mod Dispatch
use bmboot.Base.{ℕ, if◌then◌else◌, leb, Option, none, some, bit_and, bit_or}
use bmboot.Bus.{Bus, gicc_eoir}
use bmboot.Sys.{SysBus, daif, spsr_el1, elr_el1}
use bmboot.Ipc.{gic_max_user_interrupt_id, Regs, FpRegs}
use bmboot.Monitor.{halted, set_to_manager}
use bmboot.Monitor.Vectors.{set_device}
use bmboot.Payload.{Core, Handler, set_executor, write_sys, read_sys, ◌>>=◌}
use bmboot.Payload.Runtime.{notify_payload_crashed, call_handler}

-- Where the texts "EL1 FIQInterrupt" and so on lie.
pub record Texts : Type 0 where
  pub fiq : ℕ
  pub irq : ℕ
  pub synchronous : ℕ
  pub serror : ℕ

-- `DAIF_I_MASK`, and its complement in 32 bits.
abbrev pub daif_i_mask : ℕ
daif_i_mask = 0x80

abbrev pub not_daif_i_mask : ℕ
not_daif_i_mask = 0xFFFFFF7F

module _ {b : Bus} {y : SysBus} where
  -- `for (;;) {}`
  abbrev pub halt : Core b y → Core b y
  halt c = set_executor c (record c.executor { control = halted })

  -- The store to `EOIR`.
  abbrev pub end_of_interrupt : Core b y → ℕ → Core b y
  end_of_interrupt c iar =
      set_executor c (set_device c.executor (b.write32 c.executor.irq.device gicc_eoir iar))

  -- The handler of an interrupt. None is read out of range.
  abbrev pub handler_of : Core b y → ℕ → Option Handler
  handler_of c id = if leb id gic_max_user_interrupt_id then c.handlers id else none

  -- The core after the load of `IAR`.
  abbrev pub acknowledged : Core b y → b.State → Core b y
  acknowledged c s = set_executor c (set_device c.executor s)

  -- What follows the call of the handler: interrupts are masked, and the two registers get back
  -- what they had.
  abbrev pub leave : Core b y → ℕ → ℕ → ℕ → Core b y
  leave c spsr elr iar =
      let c1 = write_sys c daif (bit_or (read_sys c daif) daif_i_mask) in
      end_of_interrupt (write_sys (write_sys c1 spsr_el1 spsr) elr_el1 elr) iar

module _ {b : Bus} {y : SysBus} (texts : Texts) where
  -- The crash on an interrupt that is not handled.
  pub crash_on_interrupt : Core b y → ℕ → ℕ → Option (Core b y)
  crash_on_interrupt c text iar =
      notify_payload_crashed c text iar >>= (λ c'. some (halt (end_of_interrupt c' iar)))

  pub fiq_interrupt : Core b y → Option (Core b y)
  unfolding crash_on_interrupt
  fiq_interrupt c =
      let (iar, s) = b.read_iar c.executor.irq.device in
      crash_on_interrupt (acknowledged c s) texts.fiq iar

  -- `SynchronousInterrupt`, with the contents of the registers.
  pub synchronous_interrupt : Core b y → Regs → FpRegs → Option (Core b y)
  synchronous_interrupt c saved fp =
      let e =
        set_to_manager c.executor
          (record c.executor.block.to_manager { fpregs = fp; regs = saved }) in
      notify_payload_crashed (set_executor c e) texts.synchronous (read_sys c elr_el1)
      >>= (λ c'. some (halt c'))

  pub serror_interrupt : Core b y → Option (Core b y)
  serror_interrupt c =
      notify_payload_crashed c texts.serror (read_sys c elr_el1) >>= (λ c'. some (halt c'))

  module _ (run : ℕ → Core b y → Option (Core b y)) where
    pub dispatch : Core b y → ℕ → Option Handler → Option (Core b y)
    unfolding crash_on_interrupt
    dispatch c iar none = crash_on_interrupt c texts.irq iar
    dispatch c iar (some h) =
        call_handler run h (write_sys c daif (bit_and (read_sys c daif) not_daif_i_mask))
        >>= (λ c'. some (leave c' (read_sys c spsr_el1) (read_sys c elr_el1) iar))

    pub irq_interrupt : Core b y → Option (Core b y)
    unfolding dispatch
    irq_interrupt c =
        let (iar, s) = b.read_iar c.executor.irq.device in
        dispatch (acknowledged c s) iar (handler_of c (bit_and iar 0x3FF))
