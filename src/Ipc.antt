-- ===== src/Ipc.antt =====
-- src/bmboot_internal.hpp: the block of shared memory through which the manager and one executor
-- talk. Fields that C++ gives an enumeration type are kept as the integers that lie in memory.
-- `cmd_seq`, `cmd_ack`, `state` are 32 bits wide; the stdout positions are 64 bits wide.
use bmboot.Base.{ℕ, ◌+◌, ◌%◌, ◌^◌, List, replicate}

-- `Command`
abbrev pub noop : ℕ
noop = 0x00

abbrev pub start_payload : ℕ
start_payload = 0x01

-- `Response`
pub data Response : Type 0 where
  crc_ok crc_mismatched image_malformed abi_incompatible : Response

abbrev pub response_code : Response → ℕ
response_code crc_ok = 0
response_code crc_mismatched = 1
response_code image_malformed = 2
response_code abi_incompatible = 3

pub record ManagerToExecutor : Type 0 where
  pub cmd : ℕ
  pub cmd_seq : ℕ
  pub cntfrq : ℕ
  pub payload_entry_address : ℕ
  pub payload_size : ℕ
  pub payload_crc : ℕ
  pub payload_argument : ℕ
  pub stdout_rdpos : ℕ

-- The general and floating-point registers at a crash.
pub record Regs : Type 0 where
  pub regs : List ℕ
  pub sp : ℕ
  pub pc : ℕ
  pub pstate : ℕ

pub record FpRegs : Type 0 where
  pub vregs : List ℕ
  pub fpsr : ℕ
  pub fpcr : ℕ

pub record ExecutorToManager : Type 0 where
  pub state : ℕ
  pub cmd_ack : ℕ
  pub cmd_resp : ℕ
  pub fault_el : ℕ
  pub fault_pc : ℕ
  pub fault_desc : List ℕ
  pub regs : Regs
  pub fpregs : FpRegs
  pub stdout_wrpos : ℕ
  pub stdout_buf : List ℕ

pub record IpcBlock : Type 0 where
  pub to_executor : ManagerToExecutor
  pub to_manager : ExecutorToManager

-- `sizeof(stdout_buf)` and `sizeof(fault_desc)`
abbrev pub stdout_buf_size : ℕ
stdout_buf_size = 1024

abbrev pub fault_desc_size : ℕ
fault_desc_size = 32

-- `uint32_t` addition of one.
abbrev pub next_seq : ℕ → ℕ
next_seq s = (s + 1) % 2 ^ 32

abbrev pub gic_max_user_interrupt_id : ℕ
gic_max_user_interrupt_id = 187

abbrev pub monitor_code_cookie : ℕ
monitor_code_cookie = 0x7150ABCD

-- The block after `memset(…, 0, …)`.
abbrev pub zeroed : IpcBlock
zeroed = record {
  to_executor = record {
    cmd = 0;
    cmd_seq = 0;
    cntfrq = 0;
    payload_entry_address = 0;
    payload_size = 0;
    payload_crc = 0;
    payload_argument = 0;
    stdout_rdpos = 0;
  };
  to_manager = record {
    state = 0;
    cmd_ack = 0;
    cmd_resp = 0;
    fault_el = 0;
    fault_pc = 0;
    fault_desc = replicate fault_desc_size 0;
    regs = record { regs = replicate 31 0; sp = 0; pc = 0; pstate = 0 };
    fpregs = record { vregs = replicate 32 0; fpsr = 0; fpcr = 0 };
    stdout_wrpos = 0;
    stdout_buf = replicate stdout_buf_size 0;
  };
}
