-- ===== src/Tests/Payload.antt =====
-- A payload that handles interrupts, sleeps and writes.
use bmboot.Base.{
  ℕ, ◌+◌, ◌*◌, ◌<◌, ◌≤◌, ◌≡◌, inr, refl, arith, true, false, ◌==◌, if◌then◌else◌, none, some, [],
  ◌∷◌, ◌++◌, replicate, pos,
}
use bmboot.Base.Bits.{test_bit}
use bmboot.Bus.{gicc_eoir}
use bmboot.Sys.{daif, spsr_el1, elr_el1, cntp_cval_el0}
use bmboot.Ipc.{zeroed}
use bmboot.Types.{state_code, crashed_payload}
use bmboot.Gic.Configure.{in_group1}
use bmboot.Monitor.{halted, literal}
use bmboot.Manager.Crash.{get_crash_info}
use bmboot.Stdout.Contents.{contents, IsValid}
use bmboot.Payload.{Core, user, read_sys}
use bmboot.Payload.Runtime.{p7_max, setup_interrupt_handling, call_handler}
use bmboot.Payload.Runtime.Interrupts.{setup_interrupt_handling_lem}
use bmboot.Payload.Runtime.Timer.{fire, fire_lem}
use bmboot.Payload.Vectors.{Texts, irq_interrupt}
use bmboot.Payload.Vectors.Dispatch.{entered, irq_interrupt-handled, irq_interrupt-unhandled}
use bmboot.Payload.Sleep.{usleep}
use bmboot.Payload.Sleep.Waits.{usleep_lem}
use bmboot.Payload.Syscalls.{write}
use bmboot.Payload.Syscalls.Write.{write_lem}
use bmboot.Tests.Fixtures.{bus, sys_bus, distributor, plain_registers, core, idle}
use bmboot.Tests.Crash.{oops, oops-IsText}
use bmboot.Tests.Stdout.{zeroed-IsValid}

setup_interrupt_handling_lem_example :
    (c' : Core bus sys_bus) × (setup_interrupt_handling (core zeroed) (pos 40) p7_max (user 5)
      ≡ some (c', true))
    × (c'.handlers 40 ≡ some (user 5))
    × (in_group1 bus distributor c'.executor.irq.device 40 ≡ true)
    × (c'.executor.block ≡ zeroed)
setup_interrupt_handling_lem_example =
    setup_interrupt_handling_lem distributor (core zeroed) p7_max (user 5) 40 40 (omega arith)

abbrev texts : Texts
texts = record { fiq = 0; irq = 0; synchronous = 0; serror = 0 }

called : call_handler idle (user 5) (entered (core zeroed)) ≡ some (entered (core zeroed))
unfolding call_handler
called = refl

irq_interrupt-handled_example :
    (r : Core bus sys_bus) × (irq_interrupt texts idle (core zeroed) ≡ some r)
    × (test_bit (read_sys (entered (core zeroed)) daif) 7 ≡ false)
    × (test_bit (read_sys r daif) 7 ≡ true)
    × (read_sys r spsr_el1 ≡ 100)
    × (read_sys r elr_el1 ≡ 100)
    × (r.executor.irq.device ≡ bus.write32 (entered (core zeroed)).executor.irq.device gicc_eoir 67)
    × (r.executor.block ≡ zeroed)
    × (r.handlers ≡ (core zeroed).handlers)
irq_interrupt-handled_example =
    irq_interrupt-handled texts idle (core zeroed) plain_registers (entered (core zeroed)) (user 5)
      (omega arith) refl called (omega arith) (omega arith)

-- No interrupt has a handler, and the text lies at address 0.
abbrev bare : Core bus sys_bus
bare = record (core zeroed) {
  executor = record (core zeroed).executor { memory = literal oops };
  handlers = λ id. none;
}

irq_interrupt-unhandled_example :
    (r : Core bus sys_bus) × (irq_interrupt texts idle bare ≡ some r)
    × (get_crash_info r.executor.block ≡ record { pc = 67; desc = oops ++ replicate 28 0 })
    × (r.executor.block.to_manager.state ≡ state_code crashed_payload)
    × (r.executor.control ≡ halted)
    × (r.executor.irq.device ≡ bus.write32 (bus.read_iar bare.executor.irq.device).1 gicc_eoir 67)
irq_interrupt-unhandled_example =
    irq_interrupt-unhandled texts idle bare oops (inr refl) oops-IsText (omega arith)

-- The timer's condition is met in each pause.
abbrev pause : ℕ → Core bus sys_bus → Core bus sys_bus
pause n c = record c { sys = λ k. if k == 0 then 4 else c.sys k }

fire_lem_example :
    (c' : Core bus sys_bus) × (fire idle pause 3 (core zeroed) ≡ some c')
    × (read_sys c' cntp_cval_el0 ≡ 250)
    × (c'.timer_period_ticks ≡ 50)
fire_lem_example =
    fire_lem plain_registers idle pause
      (λ f c. (c, refl, record { deadline = refl; period = refl; handler = refl }))
      (λ n c. (record { deadline = refl; period = refl; handler = refl }, refl)) 3 (core zeroed)
      (omega arith)

-- A timer of 1 MHz that goes on at each load.
abbrev now : ℕ → ℕ
now k = k

usleep_lem_example :
    (j : ℕ) × (usleep now 6 1000000 0 5 ≡ some (j + 1))
    × (0 < j)
    × (5000000 ≤ j * 1000000)
    × ((i : ℕ) → 0 < i → i < j → i * 1000000 < 5000000)
usleep_lem_example =
    usleep_lem now 1000000 5 0 (omega arith) (omega arith) 1 5
      (record { forward = λ k. omega arith; goes_on = λ k. omega arith }) (omega arith)

write_lem_example :
    (c' : Core bus sys_bus) × (write (core zeroed) (pos 1) 0x2000 (pos 3) ≡ some (c', pos 3))
    × (contents c'.executor.block ≡ 0 ∷ 0 ∷ 0 ∷ [])
    × IsValid c'.executor.block
    × (c'.executor.block.to_executor ≡ zeroed.to_executor)
write_lem_example = write_lem (core zeroed) (pos 1) 0x2000 3 zeroed-IsValid (omega arith)
