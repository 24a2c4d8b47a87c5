-- ===== src/Tests/Crash.antt =====
-- A payload crashes with the text "oops".
use bmboot.Base.{
  ℕ, zero, suc, ◌<◌, ◌≡◌, ◌≢◌, refl, ap, arith, some, List, [], ◌∷◌, ◌++◌, replicate, get_or,
}
use bmboot.Ipc.{zeroed}
use bmboot.Monitor.{payload, literal, report_crash}
use bmboot.Manager.Crash.{get_crash_info, get_crash_info-report_crash, IsText}
use bmboot.Bus.{gicc_eoir}
use bmboot.Monitor.{Executor}
use bmboot.Monitor.Vectors.{
  irq_text, serror_text, synchronous_text, irq_interrupt, serror_interrupt, synchronous_interrupt,
}
use bmboot.Monitor.Vectors.Crash.{Crashed, exceptions-Crashed}
use bmboot.Tests.Fixtures.{bus, call, executor}

abbrev pub oops : List ℕ
oops = 111 ∷ 111 ∷ 112 ∷ 115 ∷ []

pub oops-IsText : IsText (literal oops) 0 oops
oops-IsText = record {
  same = λ i l. ap (literal oops) (omega arith);
  no_zero = λ i l. nonzero i l;
  ended = refl;
}
  where
    nonzero : (i : ℕ) → i < 4 → get_or oops i 0 ≢ 0
    nonzero zero l = λ e. omega arith
    nonzero (suc zero) l = λ e. omega arith
    nonzero (suc (suc zero)) l = λ e. omega arith
    nonzero (suc (suc (suc zero))) l = λ e. omega arith
    nonzero (suc (suc (suc (suc i)))) l = absurd (omega arith)

get_crash_info-report_crash_example :
    (get_crash_info (report_crash (executor zeroed) payload (literal oops) 0 0x2000).block
      ≡ record { pc = 0x2000; desc = oops ++ replicate 28 0 })
    × ((report_crash (executor zeroed) payload (literal oops) 0 0x2000).block.to_manager.state ≡ 4)
get_crash_info-report_crash_example =
    get_crash_info-report_crash (executor zeroed) payload (literal oops) 0 0x2000 oops oops-IsText
      (omega arith)

-- An exception of class 0 at EL3.
exceptions-Crashed_example :
    Crashed (irq_interrupt (executor zeroed)) irq_text 67
    × ((irq_interrupt (executor zeroed)).irq.device
        ≡ bus.write32 (executor zeroed).irq.device gicc_eoir 67)
    × Crashed (serror_interrupt (executor zeroed) 0x1234) serror_text 0x1234
    × (e' : Executor bus) × (synchronous_interrupt
          (executor zeroed)
          (call 0)
          0
          0x1234
          zeroed.to_manager.fpregs
        ≡ some (e', call 0))
    × Crashed e' synchronous_text 0x1234
    × (e'.block.to_manager.regs ≡ call 0)
    × (e'.block.to_manager.fpregs ≡ zeroed.to_manager.fpregs)
exceptions-Crashed_example =
    exceptions-Crashed (executor zeroed) (call 0) zeroed.to_manager.fpregs 0 0x1234
      (λ e. omega arith)
