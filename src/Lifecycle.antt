-- ===== src/Lifecycle.antt =====
-- The life of a domain from its boot on: the core's own steps, as the functions of Monitor,
-- Monitor.Vectors and Smc take them, and the stores of the manager (src/manager/domain.cpp) to the
-- memory they share. A step is one round of the monitor's loop, one exception or one store.
pub mod Round
pub mod Frames
pub mod Invariant
pub mod Entry
pub mod Unspoiled
pub mod Drives
pub mod Start
pub mod Terminate
pub mod Rings
pub mod Kill
pub mod Load
use bmboot.Base.{ℕ, ◌/◌, ◌%◌, ◌^◌, ◌≡◌, ◌≢◌, some}
use bmboot.Bus.{Bus}
use bmboot.Ipc.{Regs, FpRegs, noop}
use bmboot.Types.{state_code, crashed_payload}
use bmboot.Stdout.{getchar}
use bmboot.Smc.{handle_smc}
use bmboot.Monitor.{Executor, in_main, in_payload, halted}
use bmboot.Monitor.Loop.{main_round}
use bmboot.Monitor.Setup.{start_main}
use bmboot.Monitor.Vectors.{
  ec_smc, set_device, fiq_interrupt, irq_interrupt, synchronous_interrupt, serror_interrupt,
}
use bmboot.Manager.{Host}
use bmboot.Manager.Start.{StartArguments, send}
use bmboot.Manager.Boot.{fresh_block}

module _ {b : Bus} where
  -- What the core does. Where exceptions are masked they are allowed nevertheless: there are more
  -- steps here than on the hardware, not fewer.
  pub data CoreStep : Executor b → Executor b → Type 0 where
    loops : (e : Executor b) → e.control ≡ in_main → CoreStep e (main_round e)
    calls :
        (e e' : Executor b) (a : ℕ) (r r' : Regs)
        → e.control ≡ in_payload a
        → handle_smc e r ≡ some (e', r')
        → CoreStep e e'
    -- The payload computes.
    works :
        (e : Executor b) (a : ℕ) (memory : ℕ → ℕ)
        → e.control ≡ in_payload a
        → CoreStep e (record e { memory = memory })
    -- Devices change their state: an interrupt becomes pending.
    hears : (e : Executor b) (s : b.State) → CoreStep e (set_device e s)
    -- The endless loop of the handlers of src/platform/zynqmp/executor/payload/vectors_el1.cpp.
    halts :
        (e : Executor b) (a : ℕ)
        → e.control ≡ in_payload a
        → e.block.to_manager.state ≡ state_code crashed_payload
        → CoreStep e (record e { control = halted })
    takes_fiq : (e e' : Executor b) → fiq_interrupt e ≡ some e' → CoreStep e e'
    takes_irq : (e : Executor b) → CoreStep e (irq_interrupt e)
    takes_serror : (e : Executor b) (elr : ℕ) → CoreStep e (serror_interrupt e elr)
    traps :
        (e e' : Executor b) (r r' : Regs) (esr elr : ℕ) (fp : FpRegs)
        → (esr / 2 ^ 26 % 64) ≢ ec_smc
        → synchronous_interrupt e r esr elr fp ≡ some (e', r')
        → CoreStep e e'

  -- What the manager does: a new command follows one that is acknowledged.
  pub data Step : Executor b → Executor b → Type 0 where
    runs : {e e' : Executor b} → CoreStep e e' → Step e e'
    sends :
        (e : Executor b) (a : StartArguments)
        → e.block.to_manager.cmd_ack ≡ e.block.to_executor.cmd_seq
        → Step e (record e { block = send e.block a })
    withdraws :
        (e : Executor b)
        → Step e (record e {
          block = record e.block { to_executor = record e.block.to_executor { cmd = noop } };
        })
    reads : (e : Executor b) → Step e (record e { block = (getchar e.block).1 })
    stores : (e : Executor b) (memory : ℕ → ℕ) → Step e (record e { memory = memory })

-- Any number of steps of a relation, the last one outermost.
pub data Reach {b : Bus} (R : Executor b → Executor b → Type 0) (e : Executor b)
    : Executor b → Type 0 where
  here : Reach R e e
  next : {t u : Executor b} → Reach R e t → R t u → Reach R e u

-- The core after `startup` cleared the block and the monitor came up to its loop.
pub record Booted {b : Bus} (h : Host b) (e : Executor b) : Type 0 where
  pub core : Executor b
  pub cntfrq : ℕ
  pub fresh : core.block ≡ fresh_block h cntfrq
  pub started : start_main core ≡ some e
