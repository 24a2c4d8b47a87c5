-- ===== src/Lifecycle/Rings.antt =====
-- The inter-processor interrupts of the Zynq UltraScale+ device, which no source file implements: a
-- parameter of the model. The registers are written here as the device's manual has them, beside
-- the tables of src/platform/zynqmp/zynqmp.hpp that the code uses.
use bmboot.Base.{ℕ, zero, suc, ◌+◌, ◌<◌, ◌≡◌, ◌≢◌, refl, arith, true, some, bit_and}
use bmboot.Bus.{Bus, Distributor}
use bmboot.Zynqmp.{
  IpiChannel, ch0, ch7, ch8, get_ipi_base_address, get_ipi_peer_mask, get_interrupt_id_for_ipi,
  get_ipi_channel_for_cpu, ipi_src_bmboot_manager,
}
use bmboot.Types.{crashed_monitor}
use bmboot.Monitor.{Executor}
use bmboot.Monitor.Loop.{main_round}
use bmboot.Monitor.Vectors.{set_device, fiq_interrupt}
use bmboot.Manager.{Cpu, cpu1, cpu2, cpu3, get_cpu_index, World, Host}
use bmboot.Manager.State.{get_state}
use bmboot.Lifecycle.{CoreStep, Reach}

-- The trigger register of channel 0, which the manager has; and for each core's channel its digit in
-- trigger registers, its status register, where channel 0 is digit 0, and its interrupt.
abbrev pub trigger : ℕ
trigger = 0xFF300000

abbrev pub trigger_digit : Cpu → ℕ
trigger_digit cpu1 = 0x00000001
trigger_digit cpu2 = 0x01000000
trigger_digit cpu3 = 0x02000000

abbrev pub status : Cpu → ℕ
status cpu1 = 0xFF300010
status cpu2 = 0xFF340010
status cpu3 = 0xFF350010

abbrev pub ipi_of : Cpu → ℕ
ipi_of cpu1 = 67
ipi_of cpu2 = 61
ipi_of cpu3 = 62

abbrev pub channel_of : Cpu → IpiChannel
channel_of cpu1 = ch0
channel_of cpu2 = ch7
channel_of cpu3 = ch8

pub channel_of_lem : (d : Cpu) → get_ipi_channel_for_cpu (get_cpu_index d) ≡ some (channel_of d)
unfolding get_ipi_channel_for_cpu
channel_of_lem cpu1 = refl
channel_of_lem cpu2 = refl
channel_of_lem cpu3 = refl

pub ipi_of_lem : (d : Cpu) → get_interrupt_id_for_ipi (channel_of d) ≡ ipi_of d
unfolding get_interrupt_id_for_ipi
ipi_of_lem cpu1 = refl
ipi_of_lem cpu2 = refl
ipi_of_lem cpu3 = refl

pub status_lem : (d : Cpu) → get_ipi_base_address (channel_of d) + 0x10 ≡ status d
unfolding get_ipi_base_address
status_lem cpu1 = refl
status_lem cpu2 = refl
status_lem cpu3 = refl

pub peer_mask_lem : (d : Cpu) → get_ipi_peer_mask (channel_of d) ≡ trigger_digit d
unfolding get_ipi_peer_mask
peer_mask_lem cpu1 = refl
peer_mask_lem cpu2 = refl
peer_mask_lem cpu3 = refl

pub trigger_lem : get_ipi_base_address ipi_src_bmboot_manager ≡ trigger
unfolding get_ipi_base_address
trigger_lem = refl

pub manager_mask_lem : get_ipi_peer_mask ipi_src_bmboot_manager ≡ 1
unfolding get_ipi_peer_mask
manager_mask_lem = refl

pub trigger_digit_set : (d : Cpu) → bit_and (trigger_digit d) (trigger_digit d) ≢ 0
trigger_digit_set cpu1 = λ e. omega arith
trigger_digit_set cpu2 = λ e. omega arith
trigger_digit_set cpu3 = λ e. omega arith

-- `k` sleeps of the manager.
unfoldable pub sleeps : {b : Bus} → Host b → ℕ → World b → World b
sleeps h zero w = w
sleeps h (suc k) w = sleeps h k (h.elapse 10000 w)

-- `j` rounds of the monitor's loop.
unfoldable pub again : {b : Bus} → ℕ → Executor b → Executor b
again zero e = e
again (suc j) e = main_round (again j e)

-- The core answers its interrupt in the manager's sleep after the first `k`: from a state that its
-- steps lead to, in which its acknowledge register has its IPI and channel 0 is among the
-- sources; after that, to the end of the sleep, it does rounds of its loop, and only devices move
-- besides.
pub record Answers {b : Bus} (h : Host b) (core : World b → Executor b) (d : Cpu) (w : World b)
    (k : ℕ) : Type 0 where
  pub at : Executor b
  pub reached : Reach CoreStep (core w) at
  pub own : at.cpu_index ≡ get_cpu_index d
  pub found : bit_and (b.read_iar at.irq.device).0 0x3FF ≡ ipi_of d
  pub source : bit_and (b.read32 (b.read_iar at.irq.device).1 (status d)) 1 ≢ 0
  pub left : Executor b
  pub taken : fiq_interrupt at ≡ some left
  pub rounds_left : ℕ
  pub device_left : b.State
  pub undisturbed : core (sleeps h (suc k) w) ≡ set_device (again rounds_left left) device_left

-- What the machine does about an inter-processor interrupt. A store to channel 0's trigger register
-- of a value with the core's digit sets digit 0 of the core's status register, whatever was there.
-- Where that digit is set and the core's IPI enabled, the core answers in less than half a second,
-- unless it sits in the monitor's own crash handler, where interrupts are masked. Only the manager
-- changes its general state.
pub record Rings {b : Bus} (h : Host b) (core : World b → Executor b) (d : Cpu)
    (dist : Distributor b) : Type 0 where
  pub raises :
      (w : World b) (v : ℕ)
      → bit_and v (trigger_digit d) ≢ 0
      → let e = core (record w { device = b.write32 w.device trigger v }) in
        bit_and (b.read32 e.irq.device (status d)) 1 ≢ 0
  pub answers :
      (w : World b)
      → bit_and (b.read32 (core w).irq.device (status d)) 1 ≢ 0
      → dist.enabled (core w).irq.device (ipi_of d) ≡ true
      → get_state h d w ≢ crashed_monitor
      → (k : ℕ) × (k < 50) × Answers h core d w k
  pub general : (n : ℕ) (w : World b) → (h.elapse n w).general d ≡ w.general d
