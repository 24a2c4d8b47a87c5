-- ===== src/Monitor/Identity.antt =====
-- Which core executes, and where its block lies: src/executor/executor.cpp. The manager's side has the
-- addresses in Manager.Memory.
use bmboot.Base.{ℕ, ◌≡◌, if◌then◌else◌, ◌==◌, Option, none, some, bit_and, ap}
use bmboot.Manager
use bmboot.Manager.{Cpu, cpu1, cpu2, cpu3}
use bmboot.Manager.Memory.{get_physical_memory_ranges}

-- `getCpuIndex`, of the contents of MPIDR_EL1.
abbrev get_cpu_index : ℕ → ℕ
get_cpu_index mpidr = bit_and mpidr 0xFF

-- The address of the block of a core; none is `abort`.
abbrev block_address : ℕ → Option ℕ
block_address cpu =
    if cpu == 1
    then some 0x800030000
    else if cpu == 2
    then some 0x800034000
    else if cpu == 3
    then some 0x800038000
    else none

get_ipc_block : ℕ → Option ℕ
get_ipc_block mpidr = block_address (get_cpu_index mpidr)

-- A core finds its block where the manager maps the block of that domain.
get_ipc_block_lem :
    (d : Cpu) (mpidr : ℕ)
    → get_cpu_index mpidr ≡ Manager.get_cpu_index d
    → get_ipc_block mpidr ≡ some (get_physical_memory_ranges d).monitor_ipc_address
unfolding get_ipc_block
get_ipc_block_lem cpu1 mpidr same = ap block_address same
get_ipc_block_lem cpu2 mpidr same = ap block_address same
get_ipc_block_lem cpu3 mpidr same = ap block_address same
