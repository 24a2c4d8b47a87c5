-- ===== src/Gic.antt =====
-- src/platform/zynqmp/executor/monitor/interrupt_controller.cpp, and the register operations of
-- src/executor/gicv2.hpp. Interrupt ids are numbers here; what a negative `int` does is written out
-- where one can arrive (`Smc`). `1 << k` on `int` reaches the register as the word `2 ^ k`.
pub mod Enable
pub mod Configure
pub mod Teardown
use bmboot.Base.{
  ℕ, zero, suc, ◌+◌, ◌-◌, ◌*◌, ◌/◌, ◌%◌, ◌^◌, Bool, true, false, ◌&&◌, if◌then◌else◌, ◌==◌, leb,
  bit_and, bit_or,
}
use bmboot.Bus.{
  Bus, isenabler, icenabler, icpendr, icactiver, igroupr, icfgr, ipriorityr, itargetsr, gicc_ctrl,
  gicc_pmr, gicc_bpr, gicc_nsapr0,
}
use bmboot.Ipc.{gic_max_user_interrupt_id}

pub data InterruptGroup : Type 0 where
  group0_fiq_el3 group1_irq_el1 : InterruptGroup

pub data InterruptTrigger : Type 0 where
  unchanged level edge : InterruptTrigger

-- `~mask` on 32 bits.
abbrev pub not32 : ℕ → ℕ
not32 m = 2 ^ 32 - 1 - m

abbrev pub is_group1 : InterruptGroup → Bool
is_group1 group0_fiq_el3 = false
is_group1 group1_irq_el1 = true

-- The registers, and `interrupt_routed_to_el1`.
pub record Controller (b : Bus) : Type 0 where
  pub device : b.State
  pub routed : ℕ → Bool

abbrev pub update : (ℕ → Bool) → ℕ → Bool → ℕ → Bool
update f i v j = if i == j then v else f j

module _ (b : Bus) where
  -- `GICD::clearEnable`, `clearPending`, `clearActive`, `setEnable`
  abbrev pub clear_enable : b.State → ℕ → b.State
  clear_enable s id = b.write32 s (icenabler (id / 32)) (2 ^ (id % 32))

  abbrev pub clear_pending : b.State → ℕ → b.State
  clear_pending s id = b.write32 s (icpendr (id / 32)) (2 ^ (id % 32))

  abbrev pub clear_active : b.State → ℕ → b.State
  clear_active s id = b.write32 s (icactiver (id / 32)) (2 ^ (id % 32))

  abbrev pub set_enable : b.State → ℕ → b.State
  set_enable s id = b.write32 s (isenabler (id / 32)) (2 ^ (id % 32))

  -- `GICD::setGroup`
  abbrev pub set_group : b.State → ℕ → Bool → b.State
  set_group s id group =
      let mask = 2 ^ (id % 32) in
      b.write32 s (igroupr (id / 32))
        (bit_or (bit_and (b.read32 s (igroupr (id / 32))) (not32 mask)) (if group then mask else 0))

  -- `GICD::setTriggerEdge`
  abbrev pub set_trigger_edge : b.State → ℕ → b.State
  set_trigger_edge s id =
      b.write32 s (icfgr (id / 16)) (bit_or (b.read32 s (icfgr (id / 16))) (2 * 2 ^ (id % 16 * 2)))

  -- `GICD::setTriggerLevel`
  abbrev pub set_trigger_level : b.State → ℕ → b.State
  set_trigger_level s id =
      b.write32 s (icfgr (id / 16)) (bit_and (b.read32 s (icfgr (id / 16))) (2 * 2 ^ (id % 16 * 2)))

  pub disable_interrupt : b.State → ℕ → b.State
  disable_interrupt s id = clear_enable s id

  pub enable_interrupt : b.State → ℕ → b.State
  enable_interrupt s id = set_enable (clear_active (clear_pending s id) id) id

  pub set_group_for_interrupt_channel : Controller b → ℕ → InterruptGroup → Controller b
  set_group_for_interrupt_channel c id group = record {
    device = set_group c.device id (is_group1 group);
    routed =
        if leb id gic_max_user_interrupt_id then update c.routed id (is_group1 group) else c.routed;
  }

  pub configure_private_peripheral_interrupt : Controller b → ℕ → InterruptGroup → ℕ → Controller b
  unfolding set_group_for_interrupt_channel
  configure_private_peripheral_interrupt c ch group priority =
      let c' = set_group_for_interrupt_channel c ch group in
      record c' { device = b.write8 c'.device (ipriorityr ch) priority }

  abbrev pub set_trigger : b.State → ℕ → InterruptTrigger → b.State
  set_trigger s id unchanged = s
  set_trigger s id level = set_trigger_level s id
  set_trigger s id edge = set_trigger_edge s id

  -- `configureSharedPeripheralInterruptAndRouteToCpu`; `1 << target_cpu` is stored in a byte.
  pub configure_shared_peripheral_interrupt :
      Controller b → ℕ → InterruptTrigger → ℕ → InterruptGroup → ℕ → Controller b
  unfolding set_group_for_interrupt_channel
  configure_shared_peripheral_interrupt c ch trigger target_cpu group priority =
      let c' = set_group_for_interrupt_channel c ch group in
      let prioritised = b.write8 c'.device (ipriorityr ch) priority in
      let targeted = b.write8 prioritised (itargetsr ch) (2 ^ target_cpu % 256) in
      record c' { device = set_trigger targeted ch trigger }

  -- The loop of `teardownEl1Interrupts` over `left` more ids from `id` on.
  pub teardown_loop : ℕ → ℕ → Controller b → Controller b
  unfolding disable_interrupt
  teardown_loop zero id c = c
  teardown_loop (suc left) id c = teardown_loop left (id + 1) (
      if c.routed id
      then record { device = disable_interrupt c.device id; routed = update c.routed id false }
      else c)

  -- `CNTPNS_INTERRUPT_ID` is 30.
  pub teardown_el1_interrupts : Controller b → Controller b
  unfolding disable_interrupt teardown_loop
  teardown_el1_interrupts c =
      teardown_loop (gic_max_user_interrupt_id + 1) 0
        (record c { device = b.write32 (disable_interrupt c.device 30) gicc_nsapr0 0 })
