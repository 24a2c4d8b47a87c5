-- ===== src/Manager/Memory.antt =====
-- Physical memory of a domain: src/bmboot_memmap.hpp and `getPhysicalMemoryRanges` of
-- src/manager/domain.cpp, and the store of a block of bytes.
use bmboot.Base.{
  ℕ, suc, ◌+◌, ◌-◌, ◌<◌, ◌≤◌, ◌≡◌, refl, ap, ap₂, ◌∙◌, arith, ◌&&◌, if◌then◌else◌, ltb, leb, List,
  [], ◌∷◌, length, get_or,
}
use bmboot.Manager.{Cpu, cpu1, cpu2, cpu3}
use bmboot.Monitor.{read_bytes}

pub record PhysicalMemoryRanges : Type 0 where
  pub monitor_address : ℕ
  pub monitor_size : ℕ
  pub monitor_ipc_address : ℕ
  pub monitor_ipc_size : ℕ
  pub payload_address : ℕ
  pub payload_size : ℕ

abbrev pub get_physical_memory_ranges : Cpu → PhysicalMemoryRanges
get_physical_memory_ranges cpu1 = record {
  monitor_address = 0x800000000;
  monitor_size = 0x00010000;
  monitor_ipc_address = 0x800030000;
  monitor_ipc_size = 0x00004000;
  payload_address = 0x800100000;
  payload_size = 0x02000000;
}
get_physical_memory_ranges cpu2 = record {
  monitor_address = 0x800010000;
  monitor_size = 0x00010000;
  monitor_ipc_address = 0x800034000;
  monitor_ipc_size = 0x00004000;
  payload_address = 0x802100000;
  payload_size = 0x02000000;
}
get_physical_memory_ranges cpu3 = record {
  monitor_address = 0x800020000;
  monitor_size = 0x00010000;
  monitor_ipc_address = 0x800038000;
  monitor_ipc_size = 0x00004000;
  payload_address = 0x804100000;
  payload_size = 0x02000000;
}

-- The three regions of a domain, as addresses and sizes.
pub data Region : Type 0 where
  monitor_region ipc_region payload_region : Region

abbrev pub first : Cpu → Region → ℕ
first d monitor_region = (get_physical_memory_ranges d).monitor_address
first d ipc_region = (get_physical_memory_ranges d).monitor_ipc_address
first d payload_region = (get_physical_memory_ranges d).payload_address

abbrev pub size : Cpu → Region → ℕ
size d monitor_region = (get_physical_memory_ranges d).monitor_size
size d ipc_region = (get_physical_memory_ranges d).monitor_ipc_size
size d payload_region = (get_physical_memory_ranges d).payload_size

-- No address lies in two regions, be they of one domain or of two: the regions at an address are
-- the same region of the same domain.
pub regions_disjoint :
    (d e : Cpu) (r s : Region) (a : ℕ)
    → first d r ≤ a
    → a < first d r + size d r
    → first e s ≤ a
    → a < first e s + size e s
    → (d ≡ e) × (r ≡ s)
regions_disjoint cpu1 e r s a h1 h2 h3 h4 = ground arith
regions_disjoint cpu2 e r s a h1 h2 h3 h4 = ground arith
regions_disjoint cpu3 e r s a h1 h2 h3 h4 = ground arith

-- `memcpy` to an address.
abbrev pub store_bytes : (ℕ → ℕ) → ℕ → List ℕ → ℕ → ℕ
store_bytes memory a bytes i =
    if leb a i && ltb i (a + length bytes) then get_or bytes (i - a) 0 else memory i

read_bytes_of :
    (f : ℕ → ℕ) (bytes : List ℕ) (a : ℕ)
    → ((i : ℕ) → i < length bytes → f (a + i) ≡ get_or bytes i 0)
    → read_bytes f a (length bytes) ≡ bytes
read_bytes_of f [] a h = refl
read_bytes_of f (x ∷ xs) a h =
    ap₂ ◌∷◌ (ap f (omega arith) ∙ h 0 (omega arith))
      (read_bytes_of f xs (a + 1) λ i l. ap f (omega arith) ∙ h (suc i) (omega arith))

-- What was stored is what is read.
pub read_bytes-store_bytes :
    (memory : ℕ → ℕ) (a : ℕ) (bytes : List ℕ)
    → read_bytes (store_bytes memory a bytes) a (length bytes) ≡ bytes
read_bytes-store_bytes memory a bytes =
    read_bytes_of (store_bytes memory a bytes) bytes a λ i h. ground arith
