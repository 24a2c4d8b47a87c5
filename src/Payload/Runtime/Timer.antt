-- ===== src/Payload/Runtime/Timer.antt =====
-- The pace of the periodic interrupt of src/executor/payload/payload_runtime.cpp.
use bmboot.Base.{
  ℕ, zero, suc, ◌+◌, ◌*◌, ◌%◌, ◌^◌, ◌<◌, ◌≡◌, refl, ◌∙◌, arith, false, if◌then◌else◌, ◌==◌, Option,
  none, some, bit_and,
}
use bmboot.Bus.{Bus}
use bmboot.Sys.{SysBus, PlainRegisters, cntp_cval_el0, cntp_ctl_el0}
use bmboot.Payload.{Core, read_sys, ◌>>=◌}
use bmboot.Payload.Runtime.{handle_timer_irq, call_timer_handler, advance}

-- The deadline of the timer, its period and its handler are the same.
pub record SameTimer {b : Bus} {y : SysBus} (c c' : Core b y) : Type 0 where
  pub deadline : read_sys c' cntp_cval_el0 ≡ read_sys c cntp_cval_el0
  pub period : c'.timer_period_ticks ≡ c.timer_period_ticks
  pub handler : c'.timer_irq_handler ≡ c.timer_irq_handler

module _ {b : Bus} {y : SysBus} (run : ℕ → Core b y → Option (Core b y)) where
  -- `n` interrupts of the timer, with what happens before each of them.
  abbrev pub fire : (ℕ → Core b y → Core b y) → ℕ → Core b y → Option (Core b y)
  fire pause zero c = some c
  fire pause (suc n) c = handle_timer_irq run (pause n c) >>= fire pause n

  -- Every function of the payload returns, and leaves the timer alone.
  abbrev pub Returns : Type 0
  Returns = (f : ℕ) (c : Core b y) → (c' : Core b y) × (run f c ≡ some c') × SameTimer c c'

-- Each pause leaves the timer alone, and ends with the condition of the timer met.
abbrev pub Signals : {b : Bus} {y : SysBus} → (ℕ → Core b y → Core b y) → Type 0
Signals {b} {y} pause =
    (n : ℕ) (c : Core b y)
    → SameTimer c (pause n c) × ((bit_and (read_sys (pause n c) cntp_ctl_el0) 4 == 0) ≡ false)

module _ {b : Bus} {y : SysBus} (p : PlainRegisters y) (run : ℕ → Core b y → Option (Core b y))
    (pause : ℕ → Core b y → Core b y) where
  called :
      Returns run
      → (c : Core b y) (h : Option ℕ)
      → (c' : Core b y) × (call_timer_handler run c h ≡ some c') × SameTimer c c'
  called returns c none = (c, refl, record { deadline = refl; period = refl; handler = refl })
  called returns c (some f) = returns f c

  fire_once :
      Returns run
      → Signals pause
      → (n : ℕ) (c : Core b y)
      → (c' : Core b y) × (handle_timer_irq run (pause n c) ≡ some c')
        × (read_sys c' cntp_cval_el0 ≡ (read_sys c cntp_cval_el0 + c.timer_period_ticks) % 2 ^ 64)
        × (c'.timer_period_ticks ≡ c.timer_period_ticks)
  unfolding handle_timer_irq
  fire_once returns signals n c =
      let (before, met) = signals n c in
      let (c', done, after) = called returns (pause n c) (pause n c).timer_irq_handler in
      (
        advance c',
        rw (met, if◌then◌else◌, done) refl,
        p.read-write _ _ _ _ refl refl
            ∙ omega (arith, after.deadline, before.deadline, after.period, before.period),
        after.period ∙ before.period,
      )

  -- Where the timer's register holds what is stored, each function of the payload returns and
  -- leaves the timer alone, as does what happens between the interrupts, and the timer's condition
  -- is met at each: after n timer interrupts the deadline is n periods later, modulo 2 ^ 64, and
  -- the period is the same.
  pub fire_lem :
      Returns run
      → Signals pause
      → (n : ℕ) (c : Core b y) → read_sys c cntp_cval_el0 < 2 ^ 64
      → (c' : Core b y) × (fire run pause n c ≡ some c')
        × (read_sys c' cntp_cval_el0
            ≡ (read_sys c cntp_cval_el0 + n * c.timer_period_ticks) % 2 ^ 64)
        × (c'.timer_period_ticks ≡ c.timer_period_ticks)
  fire_lem returns signals zero c word = (c, refl, omega arith, refl)
  fire_lem returns signals (suc n) c word =
      let (c1, fired, deadline, period) = fire_once returns signals n c in
      let (c', rest, last, same) = fire_lem returns signals n c1 (omega arith) in
      (c', rw fired rest, grind (arith, last, deadline, period), same ∙ period)
