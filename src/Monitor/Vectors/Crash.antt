-- ===== src/Monitor/Vectors/Crash.antt =====
-- What the manager learns of a crash of the monitor, from the handlers of
-- src/platform/zynqmp/executor/monitor/vectors_el3.cpp.
use bmboot.Base.{
  ℕ, zero, suc, ◌-◌, ◌/◌, ◌%◌, ◌^◌, ◌≤◌, ◌<◌, ◌≡◌, ◌≢◌, refl, ap, ◌∙◌, arith, Bool, true, false,
  not, ◌&&◌, if◌then◌else◌, ◌==◌, some, List, [], ◌∷◌, ◌++◌, length, get_or, replicate,
}
use bmboot.Bus.{Bus, gicc_eoir}
use bmboot.Ipc.{Regs, FpRegs, fault_desc_size}
use bmboot.Types.{state_code, crashed_monitor}
use bmboot.Monitor.{Executor, monitor, set_to_manager, halted, literal, report_crash}
use bmboot.Manager.Crash.{get_crash_info, get_crash_info-report_crash, IsText}
use bmboot.Monitor.Vectors.{
  ec_smc, irq_text, synchronous_text, serror_text, crash, set_device, irq_interrupt,
  synchronous_interrupt, serror_interrupt,
}

abbrev all_nonzero : List ℕ → Bool
all_nonzero [] = true
all_nonzero (c ∷ cs) = not (c == 0) && all_nonzero cs

get_or-nonzero : (xs : List ℕ) (i : ℕ) → all_nonzero xs ≡ true → i < length xs → get_or xs i 0 ≢ 0
get_or-nonzero [] i h l = absurd (omega arith)
get_or-nonzero (x ∷ xs) zero h l = ground arith
get_or-nonzero (x ∷ xs) (suc i) h l = get_or-nonzero xs i (ground arith) (omega arith)

get_or-length : (xs : List ℕ) → get_or xs (length xs) 0 ≡ 0
get_or-length [] = refl
get_or-length (x ∷ xs) = get_or-length xs

-- A literal without zeros.
literal-IsText : (xs : List ℕ) → all_nonzero xs ≡ true → IsText (literal xs) 0 xs
literal-IsText xs h = record {
  same = λ i l. ap (literal xs) (omega arith);
  no_zero = λ i l. get_or-nonzero xs i h l;
  ended = ap (literal xs) (omega arith) ∙ get_or-length xs;
}

-- The manager finds the monitor crashed at an address, with a text filled up with zeros, and the core
-- does not go on.
pub record Crashed {b : Bus} (e : Executor b) (xs : List ℕ) (address : ℕ) : Type 0 where
  pub info :
      get_crash_info e.block
      ≡ record { pc = address; desc = xs ++ replicate (fault_desc_size - length xs) 0 }
  pub state : e.block.to_manager.state ≡ state_code crashed_monitor
  pub control : e.control ≡ halted

module _ {b : Bus} (e : Executor b) where
  crash-Crashed :
      (xs : List ℕ) (address : ℕ)
      → all_nonzero xs ≡ true
      → length xs ≤ fault_desc_size
      → Crashed (crash e xs address) xs address
  crash-Crashed xs address h fits =
      let (info, state) =
        get_crash_info-report_crash e monitor (literal xs) 0 address xs (literal-IsText xs h)
          fits in
      record { info = info; state = state; control = refl }

module _ {b : Bus} where
  -- An IRQ, a system error, or a synchronous exception other than a monitor call, at EL3: the manager
  -- finds the monitor crashed, with the text of that exception, and with what was read of the interrupt
  -- or the address of the exception; the core halts. The interrupt is acknowledged, and a
  -- synchronous exception leaves the registers for the manager.
  pub exceptions-Crashed :
      (e : Executor b) (r : Regs) (fp : FpRegs) (esr elr : ℕ)
      → (esr / 2 ^ 26 % 64) ≢ ec_smc
      → let iar = (b.read_iar e.irq.device).0 in
        Crashed (irq_interrupt e) irq_text iar
        × ((irq_interrupt e).irq.device ≡ b.write32 (b.read_iar e.irq.device).1 gicc_eoir iar)
        × Crashed (serror_interrupt e elr) serror_text elr
        × (e' : Executor b) × (synchronous_interrupt e r esr elr fp ≡ some (e', r))
        × Crashed e' synchronous_text elr
        × (e'.block.to_manager.regs ≡ r)
        × (e'.block.to_manager.fpregs ≡ fp)
  unfolding irq_interrupt serror_interrupt synchronous_interrupt report_crash
  exceptions-Crashed e r fp esr elr other =
      let iar = (b.read_iar e.irq.device).0 in
      let saved = set_to_manager e (record e.block.to_manager { fpregs = fp; regs = r }) in
      let irq =
        crash-Crashed (set_device e (b.read_iar e.irq.device).1) irq_text iar refl (omega arith) in
      let synchronous = crash-Crashed saved synchronous_text elr refl (omega arith) in
      let not_call : (esr / 2 ^ 26 % 64 == ec_smc) ≡ false = ground arith in
      (
        record { info = irq.info; state = irq.state; control = irq.control },
        refl,
        crash-Crashed e serror_text elr refl (omega arith),
        crash saved synchronous_text elr,
        rw (not_call, if◌then◌else◌) refl,
        synchronous,
        refl,
        refl,
      )
