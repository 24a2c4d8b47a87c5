-- ===== src/Tests/Fixtures.antt =====
-- A machine with a working distributor, an executor, a manager and a host.
use bmboot.Base.{
  ℕ, zero, suc, ◌%◌, ◌^◌, Option, none, Bool, true, false, not, ◌&&◌, ◌||◌, if◌then◌else◌, ◌==◌,
  some, [], ◌∷◌, refl, replicate,
}
use bmboot.Sys.{SysBus, PlainRegisters, plain}
use bmboot.Payload.{Core, user}
use bmboot.Bus.{
  Bus, Distributor, hits, isenabler, icenabler, ispendr, icpendr, isactiver, icactiver,
}
use bmboot.Ipc.{IpcBlock, Regs, zeroed, start_payload}
use bmboot.Gic.{Controller}
use bmboot.Monitor.{Executor, in_main}
use bmboot.Manager.{World, Host, DomainGeneralState}

-- The last four are no registers; no store reaches them.
pub record Device : Type 0 where
  pub words : ℕ → ℕ
  pub enables : ℕ → Bool
  pub pends : ℕ → Bool
  pub actives : ℕ → Bool
  pub place : ℕ
  pub notes : ℕ → Bool
  pub ticks : ℕ
  pub masks : ℕ

abbrev banked : ℕ → ℕ → ℕ → ℕ → (ℕ → Bool) → ℕ → Bool
banked on off a v f id = hits on a v id || (not (hits off a v id) && f id)

abbrev pub bus : Bus
bus = record {
  State = Device;
  read32 = λ s a. s.words a;
  write32 = λ s a v. record {
    words = λ c. if a == c then v else s.words c;
    enables = banked (isenabler 0) (icenabler 0) a v s.enables;
    pends = banked (ispendr 0) (icpendr 0) a v s.pends;
    actives = banked (isactiver 0) (icactiver 0) a v s.actives;
    place = s.place;
    notes = s.notes;
    ticks = s.ticks;
    masks = s.masks;
  };
  write8 = λ s a v. s;
  read_iar = λ s. (67, s);
}

abbrev pub distributor : Distributor bus
distributor = record {
  enabled = λ s. s.enables;
  latched = λ s. s.pends;
  active = λ s. s.actives;
  enabled-write32 = λ s a v id p. refl;
  enabled-read_iar = λ s id. refl;
  enabled-write8 = λ s a v id. refl;
  latched-write32 = λ s a v id at m p. refl;
  active-write32 = λ s a v id at p. refl;
  read-write32 = λ s a v c p. refl;
  read-write8 = λ s a v c p. refl;
}

-- All cores are held in reset; interrupts 30 and 40 are enabled and active.
abbrev pub device : Device
device = record {
  words = λ a. 0x3C0F;
  enables = λ id. id == 30 || id == 40;
  pends = λ id. false;
  actives = λ id. id == 30 || id == 40;
  place = 0;
  notes = λ id. id == 40;
  ticks = 100;
  masks = 0;
}

abbrev pub controller : Controller bus
controller = record { device = device; routed = λ id. id == 40 }

-- A block in which the command to start the payload at 0x2000 is pending.
abbrev pub started_block : IpcBlock
started_block = record zeroed {
  to_executor = record zeroed.to_executor {
    cmd = start_payload;
    cmd_seq = 1;
    payload_entry_address = 0x2000;
  };
}

abbrev pub executor : IpcBlock → Executor bus
executor b = record {
  block = b;
  memory = λ a. 0;
  irq = controller;
  cpu_index = 1;
  cntfrq = 100;
  daif = 0;
  current_el = 3;
  control = in_main;
}

-- The registers of a call `function`.
abbrev pub call : ℕ → Regs
call function = record { regs = function ∷ replicate 30 0; sp = 0; pc = 0; pstate = 0 }

abbrev pub world : DomainGeneralState → ℕ → World bus
world g state = record {
  general = λ d. g;
  devmem = some 3;
  ipc = record zeroed { to_manager = record zeroed.to_manager { state = state } };
  memory = λ a. 0;
  device = device;
}

-- The rest of the machine does nothing but bring domains to state `state` during a sleep.
abbrev pub settle : ℕ → ℕ → World bus → World bus
settle state zero w = w
settle state (suc n) w = record w {
  ipc = record w.ipc { to_manager = record w.ipc.to_manager { state = state } };
}

abbrev pub host : ℕ → Host bus
host state = record {
  open_dev_mem = λ w. some 3;
  mmap = λ w a n. true;
  configuration = λ w. some 100;
  elapse = settle state;
  monitor_binary = λ d. 1 ∷ 2 ∷ 3 ∷ [];
  stack = λ i. 0;
}

-- The system registers, of which those without plain contents share one word.
abbrev pub sys_bus : SysBus
sys_bus = record {
  Sys = ℕ → ℕ;
  read_sys = λ s r. s (plain r);
  write_sys = λ s r v. λ k. if plain r == k then v % 2 ^ 64 else s k;
}

abbrev pub plain_registers : PlainRegisters sys_bus
plain_registers = record { read-write = λ s r q v p p'. refl }

-- The payload's side of an executor: function 5 handles interrupt 67.
abbrev pub core : IpcBlock → Core bus sys_bus
core b = record {
  executor = executor b;
  sys = λ k. 100;
  handlers = λ id. if id == 67 then some (user 5) else none;
  timer_period_ticks = 50;
  timer_irq_handler = some 5;
}

-- A function of the payload that returns at once.
abbrev pub idle : ℕ → Core bus sys_bus → Option (Core bus sys_bus)
idle f c = some c
