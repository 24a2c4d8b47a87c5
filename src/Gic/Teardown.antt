-- ===== src/Gic/Teardown.antt =====
-- `teardownEl1Interrupts` of src/platform/zynqmp/executor/monitor/interrupt_controller.cpp.
use bmboot.Base.{
  ℕ, zero, suc, ◌+◌, ◌<◌, ◌≤◌, ◌≡◌, ap, ap₂, ◌∙◌, arith, Bool, false, not, ◌&&◌, ◌||◌,
  if◌then◌else◌, ◌==◌, ltb, leb,
}
use bmboot.Bus.{Bus, Distributor, gicc_nsapr0}
use bmboot.Gic.{Controller, update, disable_interrupt, teardown_loop, teardown_el1_interrupts}
use bmboot.Gic.Enable.{disable_interrupt-enabled}

-- `id ≤ j < id + left`
abbrev within : ℕ → ℕ → ℕ → Bool
within id left j = leb id j && ltb j (id + left)

within_user : (j : ℕ) → within 0 188 j ≡ leb j 187
within_user j = ground arith

==_sym : (i j : ℕ) → (i == j) ≡ (j == i)
==_sym i j = ground arith

both_off : (x y e : Bool) → (not x && (not y && e)) ≡ (not (y || x) && e)
both_off x y e = ground arith

module _ (b : Bus) (d : Distributor b) where
  open d use {enabled}

  abbrev visit : Controller b → ℕ → Controller b
  visit c id =
      if c.routed id
      then record { device = disable_interrupt b c.device id; routed = update c.routed id false }
      else c

  visit_lem :
      (c : Controller b) (id j : ℕ)
      → id < 1024
      → j < 1024
      → (enabled (visit c id).device j ≡ (not (id == j && c.routed j) && enabled c.device j))
        × ((visit c id).routed j ≡ (not (id == j) && c.routed j))
  visit_lem c id j p q = ground (arith, disable_interrupt-enabled b d c.device id j p q)

  teardown_loop_lem :
      (left id j : ℕ) (c : Controller b)
      → id + left ≤ 1024
      → j < 1024
      → (enabled (teardown_loop b left id c).device j
          ≡ (not (within id left j && c.routed j) && enabled c.device j))
        × ((teardown_loop b left id c).routed j ≡ (not (within id left j) && c.routed j))
  unfolding teardown_loop
  teardown_loop_lem zero id j c p q = ground arith
  teardown_loop_lem (suc left) id j c p q =
      let (e, r) = teardown_loop_lem left (id + 1) j (visit c id) (omega arith) q in
      let (e', r') = visit_lem c id j (omega arith) q in
      (e ∙ rw (e', r') (ground arith), r ∙ rw r' (ground arith))

  -- For ids below 1024: after `teardownEl1Interrupts` no interrupt of the user's range is routed to EL1 any more; those
  -- that were, and the timer's, are disabled, and every other interrupt is enabled as before.
  pub teardown_el1_interrupts_lem :
      (c : Controller b) (j : ℕ)
      → j < 1024
      → ((teardown_el1_interrupts b c).routed j ≡ (not (leb j 187) && c.routed j))
        × (enabled (teardown_el1_interrupts b c).device j
            ≡ (not (j == 30 || (leb j 187 && c.routed j)) && enabled c.device j))
  unfolding teardown_el1_interrupts
  teardown_el1_interrupts_lem c j q =
      let s1 = disable_interrupt b c.device 30 in
      let s2 = b.write32 s1 gicc_nsapr0 0 in
      let (e, r) = teardown_loop_lem 188 0 j (record c { device = s2 }) (omega arith) q in
      let e30 = disable_interrupt-enabled b d c.device 30 j (omega arith) q in
      let e2 : enabled s2 j ≡ enabled s1 j =
        d.enabled-write32 s1 gicc_nsapr0 0 j q ∙ ground arith in
      (
        r ∙ ap (λ w. not w && c.routed j) (within_user j),
        e
            ∙ ap₂ (λ w x. not (w && c.routed j) && x) (within_user j) (e2 ∙ e30)
            ∙ ap (λ x. not (leb j 187 && c.routed j) && (not x && enabled c.device j)) (==_sym 30 j)
            ∙ both_off (leb j 187 && c.routed j) (j == 30) (enabled c.device j),
      )
