-- ===== src/Sys.antt =====
-- The system registers of a core that the payload's side uses, by `readSysReg` and `writeSysReg` of
-- src/executor/armv8a.hpp. The hardware is a parameter of the model; `PlainRegisters` is what the Arm
-- architecture (DDI 0487) documents of those whose contents are just stored.
use bmboot.Base.{ℕ, ◌%◌, ◌^◌, ◌≡◌, false, if◌then◌else◌, ◌==◌}

pub data SysReg : Type 0 where
  cntfrq_el0 cntp_ctl_el0 cntp_cval_el0 cntp_tval_el0 daif spsr_el1 elr_el1 pmcr_el0 : SysReg
  pmcntenset_el0 : SysReg

pub record SysBus : Type 1 where
  pub Sys : Type 0
  pub read_sys : Sys → SysReg → ℕ
  pub write_sys : Sys → SysReg → ℕ → Sys

-- The registers whose contents matter to the theorems, by number.
abbrev pub plain : SysReg → ℕ
plain cntp_cval_el0 = 1
plain daif = 2
plain spsr_el1 = 3
plain elr_el1 = 4
plain _ = 0

-- The four registers hold what was stored last, and no store to another one of them changes it.
pub record PlainRegisters (y : SysBus) : Type 0 where
  pub read-write :
      (s : y.Sys) (r q : SysReg) (v : ℕ)
      → (plain r == 0) ≡ false
      → (plain q == 0) ≡ false
      → y.read_sys (y.write_sys s r v) q
        ≡ (if plain r == plain q then v % 2 ^ 64 else y.read_sys s q)
