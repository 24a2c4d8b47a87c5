-- ===== src/Manager/Crash.antt =====
-- `Domain::getCrashInfo` of src/manager/domain.cpp, and what it gives after `reportCrash` of
-- src/executor/monitor/smc_handlers.cpp.
use bmboot.Base.{
  ℕ, zero, suc, ◌+◌, ◌-◌, ◌<◌, ◌≤◌, ◌≡◌, ◌≢◌, refl, ap, ap₂, ◌∙◌, arith, true, false, if◌then◌else◌,
  ◌==◌, List, [], ◌∷◌, ◌++◌, length, get_or, replicate,
}
use bmboot.Bus.{Bus}
use bmboot.Ipc.{IpcBlock, fault_desc_size}
use bmboot.Types.{state_code}
use bmboot.Monitor.{Executor, CrashingEntity, crashed_state, strncpy, report_crash}

pub record CrashInfo : Type 0 where
  pub pc : ℕ
  pub desc : List ℕ

-- `desc` is made of all the bytes of `fault_desc`.
pub get_crash_info : IpcBlock → CrashInfo
get_crash_info b = record { pc = b.to_manager.fault_pc; desc = b.to_manager.fault_desc }

-- The text `xs` lies at address `a`, with a zero after it and none in it.
pub record IsText (memory : ℕ → ℕ) (a : ℕ) (xs : List ℕ) : Type 0 where
  pub same : (i : ℕ) → i < length xs → memory (a + i) ≡ get_or xs i 0
  pub no_zero : (i : ℕ) → i < length xs → get_or xs i 0 ≢ 0
  pub ended : memory (a + length xs) ≡ 0

strncpy-IsText :
    (memory : ℕ → ℕ) (n a : ℕ) (xs : List ℕ)
    → IsText memory a xs
    → length xs ≤ n
    → strncpy memory a n ≡ xs ++ replicate (n - length xs) 0
unfolding strncpy
strncpy-IsText memory zero a [] t fits = refl
strncpy-IsText memory (suc n) a [] t fits =
    let ended : memory a == 0 ≡ true =
      ground (arith, t.ended, ap memory {x = a} {y = a + 0} (omega arith)) in
    rw (ended, if◌then◌else◌) (ap (λ (k : ℕ). replicate k 0) {x = suc n} (omega arith))
strncpy-IsText memory zero a (x ∷ xs) t fits = absurd (omega arith)
strncpy-IsText memory (suc n) a (x ∷ xs) t fits =
    let first : memory a ≡ x = ap memory (omega arith) ∙ t.same 0 (omega arith) in
    let goes_on : memory a == 0 ≡ false = ground (arith, first, t.no_zero 0 (omega arith)) in
    let rest : IsText memory (a + 1) xs = record {
      same = λ i l. ap memory (omega arith) ∙ t.same (suc i) (omega arith);
      no_zero = λ i l. t.no_zero (suc i) (omega arith);
      ended = ap memory (omega arith) ∙ t.ended;
    } in
    rw (goes_on, if◌then◌else◌)
      (ap₂ ◌∷◌ first (
        strncpy-IsText memory n (a + 1) xs rest (omega arith)
        ∙ ap (λ k. xs ++ replicate k 0) (omega arith)))

-- After a crash is reported with a text of at most 32 bytes, the manager gets the address of the
-- crash, and the text filled up with zeros to 32 bytes; the state reported is that of a crash of the
-- payload or of the monitor, whichever it was.
pub get_crash_info-report_crash :
    {b : Bus} (e : Executor b) (who : CrashingEntity) (memory : ℕ → ℕ) (a address : ℕ) (xs : List ℕ)
    → IsText memory a xs
    → length xs ≤ fault_desc_size
    → (get_crash_info (report_crash e who memory a address).block
        ≡ record { pc = address; desc = xs ++ replicate (fault_desc_size - length xs) 0 })
      × ((report_crash e who memory a address).block.to_manager.state
          ≡ state_code (crashed_state who))
unfolding get_crash_info report_crash
get_crash_info-report_crash e who memory a address xs t fits = (
  ap (λ d. record { pc = address; desc = d }) (strncpy-IsText memory fault_desc_size a xs t fits),
  refl,
)
