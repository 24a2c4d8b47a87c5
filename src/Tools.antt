-- ===== src/Tools.antt =====
-- The command-line tools of src/tools on the manager, with `loadPayloadFromFileOrThrow` and
-- `throwOnError` of src/manager/domain_helpers.cpp. What they print is left out; the file system, and
-- how long a console is left running, are parameters. A tool begins with no core dumped.
pub mod Bmctl
pub mod Console
pub mod Load
use Prim.Native.String.{String}
use bmboot.Base.{ℕ, Bool, if◌then◌else◌, Option, none, some, List, ℤ, pos, negsuc}
use bmboot.Bus.{Bus}
use bmboot.Ipc.{IpcBlock}
use bmboot.Types.{DomainIndex, ErrorCode}
use bmboot.Types.{cpu1 as index1, cpu2 as index2, cpu3 as index3, max_domain}
use bmboot.Crc.{crc32}
use bmboot.Manager.{Cpu, cpu1, cpu2, cpu3, World, Host, Outcome, done, failed, fault}
use bmboot.Manager.Elf.{ElfLibrary, load_elf_payload}
use bmboot.Manager.Domain.{IDomain}
use bmboot.Manager.Coredump.{Stdio, Structs}
use bmboot.Manager.Console.{run_console}

-- How a tool ends: by its status, by an exception that nothing catches, or killed on a fault.
pub data Exit : Type 0 where
  status : ℤ → Exit
  exception killed : Exit

-- `-1`, and the end of `main`.
abbrev pub failure : Exit
failure = status (negsuc 0)

abbrev pub success : Exit
success = status (pos 0)

-- `read_file` is none where the file cannot be opened; `is_elf` tells whether the extension of a path
-- is ".elf". `watched` has what the machine does before each round of a console that is started.
-- The rest is for `dumpCore`, the file "core" last.
pub record Files (b : Bus) : Type 1 where
  pub read_file : String → Option (List ℕ)
  pub is_elf : String → Bool
  pub elf : ElfLibrary
  pub watched : World b → List (IpcBlock → IpcBlock)
  pub io : Stdio
  pub structs : Structs
  pub map_at : World b → ℕ
  pub elsewhere : ℕ → ℕ
  pub core_file : io.File

-- The domains that can be opened.
abbrev pub domain_of : Option DomainIndex → Option Cpu
domain_of (some index1) = some cpu1
domain_of (some index2) = some cpu2
domain_of (some index3) = some cpu3
domain_of _ = none

module _ {b : Bus} (h : Host b) (files : Files b) where
  -- `if (err.has_value()) { …; return -1; }`
  abbrev pub return_on_error : Outcome × World b → (World b → Exit × World b) → Exit × World b
  return_on_error (done, w) next = next w
  return_on_error (failed e, w) next = (failure, w)
  return_on_error (fault, w) next = (killed, w)

  abbrev pub throw_on_error : Outcome × World b → (World b → Exit × World b) → Exit × World b
  throw_on_error (done, w) next = next w
  throw_on_error (failed e, w) next = (exception, w)
  throw_on_error (fault, w) next = (killed, w)

  -- `loadElfPayload` or `loadAndStartPayload`, by the extension of the file.
  pub load_program : IDomain (World b) → String → List ℕ → World b → Outcome × World b
  load_program i path program w =
      if files.is_elf path
      then i.load_elf_payload program 1234 w
      else i.load_and_start_payload program (crc32 0 program) 123 w

  pub load_payload_from_file_or_throw :
      IDomain (World b) → String → World b → (World b → Exit × World b) → Exit × World b
  unfolding load_program
  load_payload_from_file_or_throw i path w next = elim (files.read_file path) [
    | none ↦ (exception, w)
    | some program ↦ throw_on_error (load_program i path program w) next
  ]

  -- `runConsoleUntilInterrupted`: what the console reads leaves the buffer.
  abbrev pub run_console_until_interrupted : World b → World b
  run_console_until_interrupted w = record w { ipc = (run_console (files.watched w) w.ipc).block }
