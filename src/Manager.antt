-- ===== src/Manager.antt =====
-- The manager's side of a domain: src/manager/domain.cpp with
-- src/platform/zynqmp/manager/zynqmp_manager.cpp. This file has the state and what the operating
-- system and the rest of the machine contribute.
pub mod Memory
pub mod Mapping
pub mod State
pub mod Start
pub mod Boot
pub mod Load
pub mod Protocol
pub mod Open
pub mod Elf
pub mod Crash
pub mod Domain
pub mod Console
pub mod Coredump
use bmboot.Base.{ℕ, Bool, Option, none, some, List, if◌then◌else◌, ◌==◌}
use bmboot.Bus.{Bus}
use bmboot.Ipc.{IpcBlock, ManagerToExecutor}
use bmboot.Types.{ErrorCode}

-- The domains that can be open: `getPhysicalMemoryRanges` terminates the program at `max_domain`.
pub data Cpu : Type 0 where
  cpu1 cpu2 cpu3 : Cpu

-- `getCpuIndex` of zynqmp_manager.cpp.
abbrev pub get_cpu_index : Cpu → ℕ
get_cpu_index cpu1 = 1
get_cpu_index cpu2 = 2
get_cpu_index cpu3 = 3

pub data DomainGeneralState : Type 0 where
  in_reset unavailable monitor_started : DomainGeneralState

-- `general` is `domain_general_state`, `devmem` is `s_devmem_handle` (none for a negative one),
-- `ipc` the block of the domain at hand. `memory` is physical memory by bytes, outside that block's
-- bytes: what the manager stores to the block shows in `ipc` alone.
pub record World (b : Bus) : Type 0 where
  pub general : Cpu → DomainGeneralState
  pub devmem : Option ℕ
  pub ipc : IpcBlock
  pub memory : ℕ → ℕ
  pub device : b.State

-- The results of the operating system's calls, the time generator's frequency in
-- /etc/bmboot.conf if it can be read, the embedded monitor images, and `elapse n`: what the rest of
-- the machine does while the manager sleeps for n microseconds, or between two of its loads for
-- n = 0. `stack` is what lies in the words of an array that the code does not initialise.
pub record Host (b : Bus) : Type 0 where
  pub open_dev_mem : World b → Option ℕ
  pub mmap : World b → ℕ → ℕ → Bool
  pub configuration : World b → Option ℕ
  pub elapse : ℕ → World b → World b
  pub monitor_binary : Cpu → List ℕ
  pub stack : ℕ → ℕ

-- `MaybeError`, and the faults of C++: a load or store through a null pointer.
pub data Outcome : Type 0 where
  done fault : Outcome
  failed : ErrorCode → Outcome

module _ {b : Bus} where
  abbrev pub set_outbox : World b → ManagerToExecutor → World b
  set_outbox w out = record w { ipc = record w.ipc { to_executor = out } }

  abbrev pub set_general : World b → Cpu → DomainGeneralState → World b
  set_general w d g = record w {
    general = λ k. if get_cpu_index k == get_cpu_index d then g else w.general k;
  }
