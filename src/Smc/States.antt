-- ===== src/Smc/States.antt =====
-- Which state a monitor call reports, and where it leaves the core.
use bmboot.Base.{ℕ, ◌≡◌, refl, arith, ◌==◌, Option, some, none, ℤ, pos, negsuc, to_int, if_ind}
use bmboot.Bus.{Bus}
use bmboot.Ipc.{Regs}
use bmboot.Types.{state_code, running_payload, crashed_payload, crashed_monitor}
use bmboot.Monitor.{Executor, read_bytes, halted}
use bmboot.Monitor.Frame.{OnSome}
use bmboot.Stdout.Contents.{IsValid}
use bmboot.Stdout.Refine.{write_to_stdout-SameStatus}
use bmboot.Smc.{
  smc_get_abi_version, smc_notify_payload_started, smc_notify_payload_crashed, smc_write_stdout,
  smc_zynqmp_gic_irq_configure, smc_zynqmp_gic_irq_disable, smc_zynqmp_gic_irq_enable,
  payload_priority, handle_smc, x, with_regs, configure_irq, enable_irq, disable_irq,
}

module _ {b : Bus} where
  -- The payload goes on, in the state as it was or in one that it asked for; or the monitor has crashed
  -- on an unknown call.
  pub data Called (e e' : Executor b) : Type 0 where
    as_before :
        e'.control ≡ e.control → e'.block.to_manager.state ≡ e.block.to_manager.state → Called e e'
    told_running :
        e'.control ≡ e.control
        → e'.block.to_manager.state ≡ state_code running_payload
        → Called e e'
    told_crashed :
        e'.control ≡ e.control
        → e'.block.to_manager.state ≡ state_code crashed_payload
        → Called e e'
    unknown :
        e'.control ≡ halted → e'.block.to_manager.state ≡ state_code crashed_monitor → Called e e'

  module _ (e : Executor b) (r : Regs) (v : IsValid e.block) where
    abbrev Calls : Option (Executor b × Regs) → Type 0
    Calls = OnSome (λ (p : Executor b × Regs). Called e p.0)

    configure_irq-Called : (id : ℤ) (p : Option ℕ) → Called e (configure_irq e id p)
    unfolding configure_irq
    configure_irq-Called id none = as_before refl refl
    configure_irq-Called (negsuc n) (some p) = as_before refl refl
    configure_irq-Called (pos id) (some p) = as_before (ground arith) (ground arith)

    enable_irq-Calls : (id : ℤ) → Calls (with_regs r (enable_irq e id))
    unfolding enable_irq
    enable_irq-Calls (negsuc n) = tt
    enable_irq-Calls (pos id) = as_before refl refl

    disable_irq-Calls : (id : ℤ) → Calls (with_regs r (disable_irq e id))
    unfolding disable_irq
    disable_irq-Calls (negsuc n) = tt
    disable_irq-Calls (pos id) = as_before refl refl

    pub handle_smc-Called : Calls (handle_smc e r)
    unfolding handle_smc bmboot.Monitor.report_crash
    handle_smc-Called =
        if_ind Calls (x r 0 == smc_get_abi_version) (λ _. as_before refl refl)
          λ _.
            if_ind Calls (x r 0 == smc_notify_payload_started) (λ _. told_running refl refl)
              λ _.
                if_ind Calls (x r 0 == smc_notify_payload_crashed) (λ _. told_crashed refl refl)
                  λ _.
                    if_ind Calls (x r 0 == smc_write_stdout)
                      (λ _.
                        as_before refl
                          (write_to_stdout-SameStatus e.block (read_bytes e.memory (x r 1) (x r 2))
                            v).0)
                      λ _.
                        if_ind Calls (x r 0 == smc_zynqmp_gic_irq_configure)
                          (λ _.
                            configure_irq-Called (to_int (x r 1))
                              (payload_priority (to_int (x r 2))))
                          λ _.
                            if_ind Calls (x r 0 == smc_zynqmp_gic_irq_disable)
                              (λ _. disable_irq-Calls (to_int (x r 1)))
                              λ _.
                                if_ind Calls (x r 0 == smc_zynqmp_gic_irq_enable)
                                  (λ _. enable_irq-Calls (to_int (x r 1))) (λ _. unknown refl refl)
