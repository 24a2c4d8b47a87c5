-- ===== src/Manager/Load.antt =====
-- `load_to_physical_memory` and `Domain::loadAndStartPayload` of src/manager/domain.cpp.
pub mod Elsewhere
use bmboot.Base.{ℕ, ◌+◌, ◌*◌, ◌/◌, not, if◌then◌else◌, ltb, List, length}
use bmboot.Bus.{Bus}
use bmboot.Types.{◌is◌, monitor_ready, bad_domain_state, mmap_failed, program_too_large}
use bmboot.Manager.{Cpu, World, Host, Outcome, done, failed, fault}
use bmboot.Manager.Memory.{get_physical_memory_ranges, store_bytes}
use bmboot.Manager.State.{get_state}
use bmboot.Manager.Boot.{with_devmem}
use bmboot.Manager.Start.{StartArguments, start_payload_at}

module _ {b : Bus} (h : Host b) where
  -- The size is rounded up to a multiple of 4096; `& ~4095` is written as a division.
  abbrev pub size_aligned : List ℕ → ℕ
  size_aligned binary = (length binary + 4095) / 4096 * 4096

  unfoldable pub load_to_physical_memory : ℕ → List ℕ → World b → Outcome × World b
  load_to_physical_memory address binary w = with_devmem h w λ v.
      if not (h.mmap v address (size_aligned binary))
      then (failed mmap_failed, v)
      else (done, record v { memory = store_bytes v.memory address binary })

  -- What follows a load that succeeded.
  abbrev pub and_then : Outcome × World b → (World b → Outcome × World b) → Outcome × World b
  and_then (done, w) next = next w
  and_then (failed e, w) next = (failed e, w)
  and_then (fault, w) next = (fault, w)

  abbrev pub start_arguments : Cpu → List ℕ → ℕ → ℕ → StartArguments
  start_arguments d binary crc argument = record {
    entry_address = (get_physical_memory_ranges d).payload_address;
    payload_size = length binary;
    payload_crc32 = crc;
    payload_argument = argument;
  }

  unfoldable pub load_and_start_payload : Cpu → List ℕ → ℕ → ℕ → World b → Outcome × World b
  unfolding load_to_physical_memory
  load_and_start_payload d binary crc argument w =
      let r = get_physical_memory_ranges d in
      if not (get_state h d w is monitor_ready)
      then (failed bad_domain_state, w)
      else if ltb r.payload_size (length binary)
      then (failed program_too_large, w)
      else and_then (load_to_physical_memory r.payload_address binary w)
          (λ v. start_payload_at h d v (start_arguments d binary crc argument))
