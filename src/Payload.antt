-- ===== src/Payload.antt =====
-- The payload's side of an executor core: what src/executor/payload and
-- src/platform/zynqmp/executor/payload/vectors_el1.cpp keep in memory and in registers, and the
-- `smc` function of src/executor/executor_asm.hpp. None stands for undefined behaviour of a
-- monitor call.
pub mod Runtime
pub mod Vectors
pub mod Sleep
pub mod Syscalls
use bmboot.Base.{
  ℕ, ◌+◌, ◌-◌, ◌^◌, Bool, if◌then◌else◌, ◌==◌, Option, none, some, List, [], ◌∷◌, replicate, ℤ, pos,
  negsuc,
}
use bmboot.Bus.{Bus}
use bmboot.Sys.{SysBus, SysReg}
use bmboot.Ipc.{Regs}
use bmboot.Monitor.{Executor}
use bmboot.Smc.{handle_smc, x}

-- `InterruptHandler`: a function of the payload, by number, or the runtime's own `handleTimerIrq`.
pub data Handler : Type 0 where
  handle_timer : Handler
  user : ℕ → Handler

-- The core with `user_interrupt_handlers`, `timer_period_ticks` and `timer_irq_handler`.
pub record Core (b : Bus) (y : SysBus) : Type 0 where
  pub executor : Executor b
  pub sys : y.Sys
  pub handlers : ℕ → Option Handler
  pub timer_period_ticks : ℕ
  pub timer_irq_handler : Option ℕ

-- An `int` in an argument register; the monitor reads the lower 32 bits.
abbrev pub to_reg : ℤ → ℕ
to_reg (pos n) = n
to_reg (negsuc n) = 2 ^ 32 - 1 - n

-- The registers at the call: the function and its two arguments. The monitor reads no others.
abbrev pub call_regs : ℕ → ℕ → ℕ → Regs
call_regs function a1 a2 = record {
  regs = function ∷ a1 ∷ a2 ∷ replicate 28 0;
  sp = 0;
  pc = 0;
  pstate = 0;
}

-- The next step, where there is one.
infixl 5 ◌>>=◌
abbrev pub ◌>>=◌ {ℓ κ} : {A : Type ℓ} {B : Type κ} → Option A → (A → Option B) → Option B
none >>= f = none
some a >>= f = f a

module _ {b : Bus} {y : SysBus} where
  abbrev pub set_executor : Core b y → Executor b → Core b y
  set_executor c e = record c { executor = e }

  abbrev pub returned : Core b y → Option (Executor b × Regs) → Option (Core b y × ℕ)
  returned c none = none
  returned c (some (e, r)) = some (set_executor c e, x r 0)

  -- `smc`: the result is in x0.
  unfoldable pub smc : Core b y → ℕ → ℕ → ℕ → Option (Core b y × ℕ)
  smc c function a1 a2 = returned c (handle_smc c.executor (call_regs function a1 a2))

  abbrev pub write_sys : Core b y → SysReg → ℕ → Core b y
  write_sys c r v = record c { sys = y.write_sys c.sys r v }

  abbrev pub read_sys : Core b y → SysReg → ℕ
  read_sys c r = y.read_sys c.sys r
