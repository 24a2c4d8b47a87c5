-- ===== src/Manager/Domain.antt =====
-- `IDomain` of include/bmboot/domain.hpp, what its comments promise, and the class `Domain` of
-- src/manager/domain.cpp that implements it.
pub mod Promises
use bmboot.Base.{ℕ, ◌≡◌, ◌≢◌, List, ℤ}
use bmboot.Bus.{Bus}
use bmboot.Types.{DomainState, ErrorCode, in_reset, monitor_ready, running_payload}
use bmboot.Stdout.{getchar}
use bmboot.Manager.{Cpu, World, Host, Outcome, done, failed}
use bmboot.Manager.State.{get_state}
use bmboot.Manager.Boot.{startup, terminate_payload, ensure_ready_to_load_payload}
use bmboot.Manager.Start.{start_dummy_payload}
use bmboot.Manager.Load.{load_and_start_payload}
use bmboot.Manager.Elf.{ElfLibrary, load_elf_payload}
use bmboot.Manager.Crash.{CrashInfo, get_crash_info}

-- The operations, on a world `W` that they may change.
pub record IDomain (W : Type 0) : Type 0 where
  pub get_index : Cpu
  pub startup : W → Outcome × W
  pub get_state : W → DomainState
  pub terminate_payload : W → Outcome × W
  pub ensure_ready_to_load_payload : W → Outcome × W
  pub load_and_start_payload : List ℕ → ℕ → ℕ → W → Outcome × W
  pub load_elf_payload : List ℕ → ℕ → W → Outcome × W
  pub getchar : W → ℤ × W
  pub dump_core : W → Outcome × W
  pub dump_debug_info : W → W
  pub get_crash_info : W → CrashInfo
  pub start_dummy_payload : W → W

module _ {W : Type 0} (i : IDomain W) where
  -- An operation that succeeds brings the domain to a state.
  abbrev pub Brings : (W → Outcome × W) → DomainState → Type 0
  Brings f s = (w : W) → (f w).0 ≡ done → i.get_state (f w).1 ≡ s

  -- It is permissible in one state only: in another it is an error, and changes nothing.
  abbrev pub Needs : (W → Outcome × W) → DomainState → Type 0
  Needs f s = (w : W) → i.get_state w ≢ s → (e : ErrorCode) × (f w ≡ (failed e, w))

-- What a user of a domain may rely on.
pub record Contract {W : Type 0} (i : IDomain W) : Type 0 where
  pub startup_needs : Needs i i.startup in_reset
  pub startup_brings : Brings i i.startup monitor_ready
  pub terminate_brings : Brings i i.terminate_payload monitor_ready
  pub ensure_brings : Brings i i.ensure_ready_to_load_payload monitor_ready
  pub load_needs :
      (binary : List ℕ) (crc argument : ℕ)
      → Needs i (i.load_and_start_payload binary crc argument) monitor_ready
  pub load_brings :
      (binary : List ℕ) (crc argument : ℕ)
      → Brings i (i.load_and_start_payload binary crc argument) running_payload
  pub elf_needs :
      (binary : List ℕ) (argument : ℕ) → Needs i (i.load_elf_payload binary argument) monitor_ready
  pub elf_brings :
      (binary : List ℕ) (argument : ℕ)
      → Brings i (i.load_elf_payload binary argument) running_payload

-- The class `Domain`; `dump` is `dumpCore` for the file at hand, and `dumpDebugInfo` only prints.
abbrev pub domain :
    {b : Bus} → Host b → ElfLibrary → (World b → Outcome × World b) → Cpu → IDomain (World b)
domain h elf dump d = record {
  get_index = d;
  startup = startup h d;
  get_state = get_state h d;
  terminate_payload = terminate_payload h d;
  ensure_ready_to_load_payload = ensure_ready_to_load_payload h d;
  load_and_start_payload = load_and_start_payload h d;
  load_elf_payload = load_elf_payload h elf d;
  getchar = λ w. let (c, k) = getchar w.ipc in (c, record w { ipc = k });
  dump_core = dump;
  dump_debug_info = λ w. w;
  get_crash_info = λ w. get_crash_info w.ipc;
  start_dummy_payload = start_dummy_payload h d;
}
