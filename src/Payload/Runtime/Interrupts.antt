-- ===== src/Payload/Runtime/Interrupts.antt =====
-- What a payload gets by `setupInterruptHandling` of src/executor/payload/payload_runtime.cpp.
use bmboot.Base.{
  ℕ, ◌<◌, ◌≡◌, refl, ◌∙◌, arith, true, false, ◌&&◌, if◌then◌else◌, ◌==◌, leb, some, pos, negsuc,
  Bool-cases, inl, inr,
}
use bmboot.Bus.{Bus, Distributor}
use bmboot.Sys.{SysBus}
use bmboot.Gic.Configure.{in_group1}
use bmboot.Smc.{configure_irq, payload_priority}
use bmboot.Smc.Configure.{configure_irq_lem, permitted}
use bmboot.Payload.{Core, Handler, set_executor}
use bmboot.Payload.Runtime.{
  PayloadInterruptPriority, p7_max, p6, p5, p4, p3, p2, p1, p0_min, priority_code,
  setup_interrupt_handling, install,
}
use bmboot.Payload.Runtime.Calls.{configure_lem}

priority-permitted :
    (id : ℕ) (p : PayloadInterruptPriority) → permitted id (priority_code p) ≡ leb 16 id
priority-permitted id p7_max = ground arith
priority-permitted id p6 = ground arith
priority-permitted id p5 = ground arith
priority-permitted id p4 = ground arith
priority-permitted id p3 = ground arith
priority-permitted id p2 = ground arith
priority-permitted id p1 = ground arith
priority-permitted id p0_min = ground arith

module _ {b : Bus} {y : SysBus} (d : Distributor b) (c : Core b y) (p : PayloadInterruptPriority)
    (h : Handler) where
  setup_interrupt_handling-refused :
      (n : ℕ) → setup_interrupt_handling c (negsuc n) p h ≡ some (c, false)
  unfolding setup_interrupt_handling
  setup_interrupt_handling-refused n = refl

  -- For an id that is not negative, and the interrupts below 1024: `setupInterruptHandling`
  -- succeeds exactly where the id is at most 187. Then the handler is installed for that interrupt
  -- and for no other, and the monitor puts the interrupt in the group that is delivered to EL1 if
  -- the id is at least 16; for the ids 0 to 15 it does not, though the result is true. Every other
  -- interrupt keeps its group, and the block stays as it was.
  pub setup_interrupt_handling_lem :
      (id j : ℕ)
      → j < 1024
      → (c' : Core b y) × (setup_interrupt_handling c (pos id) p h ≡ some (c', leb id 187))
        × (c'.handlers j ≡ (if id == j && leb id 187 then some h else c.handlers j))
        × (in_group1 b d c'.executor.irq.device j ≡ (
            if id == j && leb id 187 && leb 16 id
            then true
            else in_group1 b d c.executor.irq.device j))
        × (c'.executor.block ≡ c.executor.block)
  unfolding setup_interrupt_handling
  setup_interrupt_handling_lem id j r = elim (Bool-cases (leb id 187)) [
    | inr out ↦ (c, rw (out, if◌then◌else◌) refl, ground arith, ground arith, refl)
    | inl fits ↦
        let (group, note, same) =
          configure_irq_lem b d c.executor id (priority_code p) j (ground arith) r in
        (
          set_executor (install c id h)
              (configure_irq c.executor (pos id) (payload_priority (pos (priority_code p)))),
          rw (fits, if◌then◌else◌, configure_lem (install c id h) id p (ground arith)) refl,
          ground arith,
          group ∙ ground (arith, priority-permitted id p),
          same,
        )
  ]
