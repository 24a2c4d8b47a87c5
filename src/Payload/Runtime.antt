-- ===== src/Payload/Runtime.antt =====
-- src/executor/payload/payload_runtime.cpp. The payload's own functions are a parameter, `run`.
pub mod Calls
pub mod Interrupts
pub mod Timer
use bmboot.Base.{
  ℕ, ◌+◌, ◌*◌, ◌/◌, ◌%◌, ◌^◌, Bool, true, false, if◌then◌else◌, ◌==◌, leb, Option, none, some, ℤ,
  pos, negsuc, to_int, bit_and, bit_or,
}
use bmboot.Bus.{Bus}
use bmboot.Sys.{
  SysBus, cntfrq_el0, cntp_ctl_el0, cntp_cval_el0, cntp_tval_el0, pmcr_el0, pmcntenset_el0,
}
use bmboot.Ipc.{gic_max_user_interrupt_id}
use bmboot.Smc.{
  smc_get_abi_version, smc_notify_payload_started, smc_notify_payload_crashed, smc_write_stdout,
  smc_zynqmp_gic_irq_configure, smc_zynqmp_gic_irq_enable, smc_zynqmp_gic_irq_disable,
}
use bmboot.Payload.{Core, Handler, handle_timer, user, to_reg, smc, write_sys, read_sys, ◌>>=◌}

pub record AbiVersion : Type 0 where
  pub major : ℕ
  pub minor : ℕ

pub data PayloadInterruptPriority : Type 0 where
  p7_max p6 p5 p4 p3 p2 p1 p0_min : PayloadInterruptPriority

abbrev pub priority_code : PayloadInterruptPriority → ℕ
priority_code p7_max = 0x80
priority_code p6 = 0x90
priority_code p5 = 0xA0
priority_code p4 = 0xB0
priority_code p3 = 0xC0
priority_code p2 = 0xD0
priority_code p1 = 0xE0
priority_code p0_min = 0xF0

-- `CNTPNS_INTERRUPT_ID`
abbrev pub cntpns_interrupt_id : ℕ
cntpns_interrupt_id = 30

-- The period of the timer, in its ticks.
abbrev pub period_ticks : ℕ → ℕ → ℕ
period_ticks period_us frequency = period_us * frequency % 2 ^ 64 / 1000000

module _ {b : Bus} {y : SysBus} where
  pub disable_interrupt_handling : Core b y → ℤ → Option (Core b y)
  disable_interrupt_handling c id = do
    (c', _) ← smc c smc_zynqmp_gic_irq_disable (to_reg id) 0
    some c'

  pub enable_interrupt_handling : Core b y → ℤ → Option (Core b y)
  enable_interrupt_handling c id = do
    (c', _) ← smc c smc_zynqmp_gic_irq_enable (to_reg id) 0
    some c'

  pub get_monitor_abi_version : Core b y → Option (Core b y × AbiVersion)
  get_monitor_abi_version c = do
    (c', v) ← smc c smc_get_abi_version 0 0
    some (c', record { major = bit_and (v / 2 ^ 8) 0xFF; minor = bit_and v 0xFF })

  abbrev pub install : Core b y → ℕ → Handler → Core b y
  install c id h = record c { handlers = λ j. if id == j then some h else c.handlers j }

  pub setup_interrupt_handling :
      Core b y → ℤ → PayloadInterruptPriority → Handler → Option (Core b y × Bool)
  setup_interrupt_handling c (negsuc n) priority h = some (c, false)
  setup_interrupt_handling c (pos id) priority h =
      if leb id gic_max_user_interrupt_id
      then smc (install c id h) smc_zynqmp_gic_irq_configure id (priority_code priority)
        >>= (λ r. some (r.0, true))
      else some (c, false)

  pub setup_periodic_interrupt : Core b y → ℕ → ℕ → Option (Core b y)
  unfolding setup_interrupt_handling
  setup_periodic_interrupt c period_us handler = do
    let c1 = record c {
      timer_period_ticks = period_ticks period_us (read_sys c cntfrq_el0);
      timer_irq_handler = some handler;
    }
    let c2 = write_sys c1 cntp_ctl_el0 0
    (c3, _) ← setup_interrupt_handling c2 (pos cntpns_interrupt_id) p7_max handle_timer
    some c3

  -- `1 << 31` is a negative `int`, so that its upper 32 bits are set.
  pub start_cycle_counter : Core b y → Core b y
  start_cycle_counter c =
      let c1 = write_sys c pmcr_el0 (bit_or (bit_or (read_sys c pmcr_el0) 1) 4) in
      write_sys c1 pmcntenset_el0 (bit_or (read_sys c1 pmcntenset_el0) 0xFFFFFFFF80000000)

  pub start_periodic_interrupt : Core b y → Option (Core b y)
  unfolding enable_interrupt_handling
  start_periodic_interrupt c = do
    c1 ← enable_interrupt_handling c (pos cntpns_interrupt_id)
    some (write_sys (write_sys c1 cntp_tval_el0 c1.timer_period_ticks) cntp_ctl_el0 1)

  pub stop_periodic_interrupt : Core b y → Option (Core b y)
  unfolding disable_interrupt_handling
  stop_periodic_interrupt c =
      disable_interrupt_handling (write_sys c cntp_ctl_el0 0) (pos cntpns_interrupt_id)

  pub get_payload_argument : Core b y → ℕ
  get_payload_argument c = c.executor.block.to_executor.payload_argument

  pub notify_payload_crashed : Core b y → ℕ → ℕ → Option (Core b y)
  notify_payload_crashed c desc address = do
    (c', _) ← smc c smc_notify_payload_crashed desc address
    some c'

  pub notify_payload_started : Core b y → Option (Core b y)
  notify_payload_started c = do (c', _) ← smc c smc_notify_payload_started 0 0; some c'

  -- The result is converted from a register to `int`.
  pub write_to_stdout : Core b y → ℕ → ℕ → Option (Core b y × ℤ)
  write_to_stdout c address size = do
    (c', v) ← smc c smc_write_stdout address size
    some (c', to_int v)

  -- The new deadline, on which the pace of the timer depends.
  abbrev pub advance : Core b y → Core b y
  advance c = write_sys c cntp_cval_el0 ((read_sys c cntp_cval_el0 + c.timer_period_ticks) % 2 ^ 64)

  module _ (run : ℕ → Core b y → Option (Core b y)) where
    abbrev pub call_timer_handler : Core b y → Option ℕ → Option (Core b y)
    call_timer_handler c none = some c
    call_timer_handler c (some f) = run f c

    pub handle_timer_irq : Core b y → Option (Core b y)
    handle_timer_irq c =
        if bit_and (read_sys c cntp_ctl_el0) 4 == 0
        then some c
        else call_timer_handler c c.timer_irq_handler >>= (λ c'. some (advance c'))

    -- A call of an `InterruptHandler`.
    unfoldable pub call_handler : Handler → Core b y → Option (Core b y)
    unfolding handle_timer_irq
    call_handler handle_timer c = handle_timer_irq c
    call_handler (user f) c = run f c
