-- ===== src/Manager/Elf.antt =====
-- `Domain::loadElfPayload` of src/manager/domain.cpp. The ELF library, a submodule, is a parameter:
-- it calls back to read the file and to ask where in the mapped area a segment goes.
use bmboot.Base.{
  ℕ, ◌+◌, ◌-◌, ◌%◌, ◌^◌, ◌≤◌, ◌<◌, ◌≡◌, ◌⊎◌, arith, Bool, not, ◌||◌, if◌then◌else◌, ltb, leb,
  Option, none, some, List, length, get_or,
}
use bmboot.Bus.{Bus}
use bmboot.Types.{◌is◌, monitor_ready, bad_domain_state, mmap_failed, program_too_large}
use bmboot.Monitor.{read_bytes}
use bmboot.Manager.{Cpu, cpu1, cpu2, cpu3, World, Host, Outcome, failed}
use bmboot.Manager.Memory.{get_physical_memory_ranges}
use bmboot.Manager.State.{get_state}
use bmboot.Manager.Boot.{with_devmem}
use bmboot.Manager.Start.{StartArguments, start_payload_at}

-- What a read gives: false, the bytes, or a copy from outside the file.
pub data ReadResult : Type 0 where
  refused outside : ReadResult
  bytes : List ℕ → ReadResult

-- `ctx.pread`; `size_t` addition wraps.
pub pread : List ℕ → ℕ → ℕ → ReadResult
pread binary nb offset =
    if ltb ((offset + nb) % 2 ^ 64) (length binary)
    then if leb (offset + nb) (length binary)
      then bytes (read_bytes (λ i. get_or binary i 0) offset nb)
      else outside
    else refused

-- The callback of `el_load`: an offset in the mapped area, or the null pointer.
unfoldable pub alloc : Cpu → ℕ → ℕ → Option ℕ
alloc d phys size =
    let r = get_physical_memory_ranges d in
    if ltb phys r.payload_address
      || ltb (r.payload_address + r.payload_size) ((phys + size) % 2 ^ 64)
    then none
    else some (phys - r.payload_address)

-- The result of `el_init` and `el_load`: whether there was an error, what was stored in memory, and
-- `ehdr.e_entry` and `base_load_paddr`.
pub record ElfResult : Type 0 where
  pub err : Bool
  pub store : (ℕ → ℕ) → ℕ → ℕ
  pub e_entry : ℕ
  pub base_load_paddr : ℕ

abbrev pub ElfLibrary : Type 0
ElfLibrary = (ℕ → ℕ → ReadResult) → (ℕ → ℕ → Option ℕ) → ElfResult

abbrev pub elf_arguments : ElfResult → ℕ → StartArguments
elf_arguments loaded argument = record {
  entry_address = (loaded.e_entry + loaded.base_load_paddr) % 2 ^ 64;
  payload_size = 0;
  payload_crc32 = 0;
  payload_argument = argument;
}

module _ {b : Bus} (h : Host b) (elf : ElfLibrary) where
  unfoldable pub load_elf_payload : Cpu → List ℕ → ℕ → World b → Outcome × World b
  unfolding pread alloc
  load_elf_payload d binary argument w =
      let r = get_physical_memory_ranges d in
      let loaded = elf (pread binary) (alloc d) in
      if not (get_state h d w is monitor_ready)
      then (failed bad_domain_state, w)
      else with_devmem h w λ v.
        let stored = record v { memory = loaded.store v.memory } in
        if not (h.mmap v r.payload_address r.payload_size)
        then (failed mmap_failed, v)
        else if loaded.err
        then (failed program_too_large, stored)
        else start_payload_at h d stored (elf_arguments loaded argument)

-- A segment, of an address and a size below 2 ^ 64, that is given a place gets the place of its
-- physical address, and lies within the domain's payload region unless its end wraps at 2 ^ 64.
pub alloc_bounds :
    (d : Cpu) (phys size offset : ℕ)
    → phys < 2 ^ 64
    → size < 2 ^ 64
    → alloc d phys size ≡ some offset
    → ((get_physical_memory_ranges d).payload_address + offset ≡ phys)
      × ((offset + size ≤ (get_physical_memory_ranges d).payload_size) ⊎ (2 ^ 64 ≤ phys + size))
unfolding alloc
alloc_bounds cpu1 phys size offset p s e = ground arith
alloc_bounds cpu2 phys size offset p s e = ground arith
alloc_bounds cpu3 phys size offset p s e = ground arith

-- A segment at the start of the region whose end is beyond 2 ^ 64 by no more than the region's size
-- is given a place, though it is larger than the region.
pub alloc_wraps :
    (d : Cpu) (over : ℕ)
    → over ≤ (get_physical_memory_ranges d).payload_size
    → (alloc d
          (get_physical_memory_ranges d).payload_address
          (2 ^ 64 - (get_physical_memory_ranges d).payload_address + over)
        ≡ some 0)
      × ((get_physical_memory_ranges d).payload_size
          < 2 ^ 64 - (get_physical_memory_ranges d).payload_address + over)
unfolding alloc
alloc_wraps cpu1 over p = ground arith
alloc_wraps cpu2 over p = ground arith
alloc_wraps cpu3 over p = ground arith

-- Where the sum of offset and size does not wrap: a read that ends before the end of the file gives
-- the bytes from the offset on, and one that ends exactly at the end of the file is refused.
pub pread_lem :
    (binary : List ℕ) (nb offset : ℕ)
    → offset + nb < 2 ^ 64
    → (offset + nb < length binary
        → pread binary nb offset ≡ bytes (read_bytes (λ i. get_or binary i 0) offset nb))
      × (offset + nb ≡ length binary → pread binary nb offset ≡ refused)
unfolding pread
pread_lem binary nb offset p = (λ q. ground arith, λ q. ground arith)
