-- ===== src/Smc/Configure.antt =====
-- What a payload can do to the interrupts by SMC_ZYNQMP_GIC_IRQ_CONFIGURE
-- (src/executor/monitor/smc_handlers.cpp).
use bmboot.Base.{
  ℕ, ◌<◌, ◌≡◌, inl, inr, refl, ◌∙◌, arith, Bool, true, ◌&&◌, ◌||◌, if◌then◌else◌, ◌==◌, ltb, leb,
  pos, Bool-cases,
}
use bmboot.Bus.{Bus, Distributor}
use bmboot.Gic.{group1_irq_el1, edge}
use bmboot.Gic.Configure.{in_group1, configure_private_lem, configure_shared_lem}
use bmboot.Monitor.{Executor}
use bmboot.Smc.{configure_irq, payload_priority}

-- The ids and priorities that are not refused.
abbrev pub permitted : ℕ → ℕ → Bool
permitted id p = leb 16 id && (leb 0x80 p && leb p 0xF0)

module _ (b : Bus) (d : Distributor b) where
  -- For an id below 1024 that is not negative, as is the priority: the call routes the interrupt to
  -- EL1, and notes that if the id is up to 187, exactly where the id is at least 16 and the priority
  -- from 0x80 to 0xF0; else it does nothing. Every other interrupt keeps its group and its note, and
  -- the block stays as it was. The monitor's own inter-processor interrupt is not excepted.
  pub configure_irq_lem :
      (e : Executor b) (id p j : ℕ)
      → id < 1024
      → j < 1024
      → let e' = configure_irq e (pos id) (payload_priority (pos p)) in
        (in_group1 b d e'.irq.device j
          ≡ (if id == j && permitted id p then true else in_group1 b d e.irq.device j))
        × (e'.irq.routed j
            ≡ (if id == j && permitted id p && leb j 187 then true else e.irq.routed j))
        × (e'.block ≡ e.block)
  unfolding configure_irq
  configure_irq_lem e id p j q r = elim (Bool-cases (ltb p 0x80 || ltb 0xF0 p)) [
    | inl refused ↦ rw (refused, if◌then◌else◌) (ground arith, ground arith, refl)
    | inr known ↦ elim (Bool-cases (leb 16 id && ltb id 32)) [
      | inl private ↦
          let (group, note) = configure_private_lem b d e.irq id j p group1_irq_el1 q r in
          rw (known, private, if◌then◌else◌) (group ∙ ground arith, note ∙ ground arith, refl)
      | inr other ↦ elim (Bool-cases (leb 32 id)) [
        | inl shared ↦
            let (group, note) =
              configure_shared_lem b d e.irq id j e.cpu_index p edge group1_irq_el1 q r in
            rw (known, other, shared, if◌then◌else◌)
              (group ∙ ground arith, note ∙ ground arith, refl)
        | inr low ↦ rw (known, other, low, if◌then◌else◌) (ground arith, ground arith, refl)
      ]
    ]
  ]
