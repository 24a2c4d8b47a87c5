-- ===== src/Tests/Kill.antt =====
-- The manager kills the payload of core 1, which had interrupt 40.
use bmboot.Base.{
  ℕ, zero, suc, ◌+◌, ◌<◌, ◌≤◌, ◌≡◌, ◌≢◌, refl, arith, some, bit_and, false, not, ◌&&◌, ◌||◌, ◌==◌,
  leb, if◌then◌else◌,
}
use bmboot.Ipc.{zeroed}
use bmboot.Types.{state_code, monitor_ready}
use bmboot.Zynqmp.{
  ch0, get_ipi_base_address, get_ipi_peer_mask, get_interrupt_id_for_ipi, get_ipi_channel_for_cpu,
  ipi_src_bmboot_manager,
}
use bmboot.Monitor.{Executor, in_main}
use bmboot.Monitor.Vectors.{fiq_interrupt}
use bmboot.Monitor.Vectors.Kill.{killed, fiq_interrupt-kill}
use bmboot.Manager.{World, Host, cpu1, monitor_started}
use bmboot.Lifecycle.Drives.{Drives}
use bmboot.Lifecycle.Rings.{Rings, trigger, status}
use bmboot.Tests.Fixtures.{Device, bus, distributor, device, controller, executor, world, host}
use bmboot.Tests.Lifecycle.{decode}

channel_of_core : get_ipi_channel_for_cpu 1 ≡ some ch0
unfolding get_ipi_channel_for_cpu
channel_of_core = refl

ipi_pending : bit_and 67 0x3FF ≡ get_interrupt_id_for_ipi ch0
unfolding get_interrupt_id_for_ipi
ipi_pending = refl

from_manager :
    bit_and
      (device.words (get_ipi_base_address ch0 + 0x10))
      (get_ipi_peer_mask ipi_src_bmboot_manager)
    ≢ 0
unfolding get_ipi_peer_mask
from_manager = λ e. omega arith

fiq_interrupt-kill_example :
    (e' : Executor bus) × (fiq_interrupt (executor zeroed) ≡ some e')
    × (e'.control ≡ in_main)
    × (e'.block ≡ record zeroed {
      to_manager = record zeroed.to_manager { state = state_code monitor_ready };
    })
    × ((j : ℕ)
        → j < 1024
        → (e'.irq.device.enables j ≡ (
            get_interrupt_id_for_ipi ch0 == j
            || (not (j == 30 || (leb j 187 && controller.routed j)) && device.enables j)))
          × (j ≤ 187 → e'.irq.routed j ≡ false))
fiq_interrupt-kill_example =
    fiq_interrupt-kill bus distributor (executor zeroed) ch0 channel_of_core ipi_pending
      from_manager

-- The first core, with its own IPI enabled. Its status register is the trigger register, so that a
-- store to the latter rings, until the core answers.
abbrev listening : Device → Device
listening s = record s {
  words = λ a. if a == status cpu1 then s.words trigger else s.words a;
  enables = λ id. id == 67 || s.enables id;
}

abbrev core : World bus → Executor bus
core w = record (executor w.ipc) {
  memory = w.memory;
  control = decode w.device.place;
  cntfrq = w.device.ticks;
  daif = w.device.masks;
  irq = record { device = listening w.device; routed = w.device.notes };
}

abbrev answered : World bus → Executor bus
answered w = killed bus distributor (core w) ch0 67

-- The world after the core has answered.
abbrev struck : World bus → World bus
struck w = record w {
  ipc = (answered w).block;
  device = record w.device {
    words = λ a. if a == trigger then 0 else w.device.words a;
    place = 0;
    notes = (answered w).irq.routed;
    ticks = (answered w).cntfrq;
    masks = (answered w).daif;
  };
}

abbrev elapse : ℕ → World bus → World bus
elapse zero w = w
elapse (suc n) w = if bit_and (w.device.words trigger) 1 == 0 then w else struck w

abbrev answering : Host bus
answering = record (host 1) { elapse = elapse }

-- A payload runs on the first core, and no request was made yet.
abbrev busy : World bus
busy =
    let w = world monitor_started 3 in
    record w { device = record w.device { words = λ a. 0; place = suc (suc (suc 0x2000)) } }
