-- ===== src/Monitor.antt =====
-- The executor core under the monitor: its state, src/executor/monitor/monitor.cpp, and
-- `reportCrash` of src/executor/monitor/smc_handlers.cpp.
pub mod Validate
pub mod Bytes
pub mod Setup
pub mod Loop
pub mod Vectors
pub mod Identity
pub mod Frame
use bmboot.Base.{
  ℕ, zero, suc, ◌+◌, ◌*◌, Bool, if◌then◌else◌, ◌==◌, List, [], ◌∷◌, get_or, replicate,
}
use bmboot.Bus.{Bus}
use bmboot.Ipc.{IpcBlock, ExecutorToManager, fault_desc_size}
use bmboot.Types.{DomainState, crashed_payload, crashed_monitor, state_code}
use bmboot.Gic.{Controller}

-- Where the core executes: in the `for` loop of the monitor's `main`, in the payload that was
-- entered at an address, in the monitor's own dummy payload, or in a `for (;;) {}` for good.
pub data Control : Type 0 where
  in_main in_dummy halted : Control
  in_payload : ℕ → Control

-- `memory` is the core's view of the bytes of physical memory.
pub record Executor (b : Bus) : Type 0 where
  pub block : IpcBlock
  pub memory : ℕ → ℕ
  pub irq : Controller b
  pub cpu_index : ℕ
  pub cntfrq : ℕ
  pub daif : ℕ
  pub current_el : ℕ
  pub control : Control

pub data CrashingEntity : Type 0 where
  monitor payload : CrashingEntity

-- `n` bytes from an address on.
abbrev pub read_bytes : (ℕ → ℕ) → ℕ → ℕ → List ℕ
read_bytes memory a zero = []
read_bytes memory a (suc n) = memory a ∷ read_bytes memory (a + 1) n

-- A little-endian word of 32 bits.
abbrev pub read_word : (ℕ → ℕ) → ℕ → ℕ
read_word memory a =
    memory a + 0x100 * memory (a + 1) + 0x10000 * memory (a + 2) + 0x1000000 * memory (a + 3)

-- `strncpy` of a text at an address into a field of `n` bytes: up to the terminator, then zeros.
unfoldable pub strncpy : (ℕ → ℕ) → ℕ → ℕ → List ℕ
strncpy memory a zero = []
strncpy memory a (suc n) =
    let rest = memory a ∷ strncpy memory (a + 1) n in
    if memory a == 0 then replicate (suc n) 0 else rest

-- A literal of the monitor, as bytes in memory from address 0 on.
abbrev pub literal : List ℕ → ℕ → ℕ
literal cs i = get_or cs i 0

abbrev pub crashed_state : CrashingEntity → DomainState
crashed_state payload = crashed_payload
crashed_state monitor = crashed_monitor

abbrev pub set_to_manager : {b : Bus} → Executor b → ExecutorToManager → Executor b
set_to_manager e out = record e { block = record e.block { to_manager = out } }

-- `reportCrash`; the text is at address `a` of `memory`.
unfoldable pub report_crash : {b : Bus} → Executor b → CrashingEntity → (ℕ → ℕ) → ℕ → ℕ → Executor b
unfolding strncpy
report_crash e who memory a address = set_to_manager e (record e.block.to_manager {
  fault_pc = address;
  fault_el = e.current_el;
  fault_desc = strncpy memory a fault_desc_size;
  state = state_code (crashed_state who);
})
