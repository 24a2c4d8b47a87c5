-- ===== src/Gic/Configure.antt =====
-- Routing and triggers: what `configurePrivatePeripheralInterrupt` and
-- `configureSharedPeripheralInterruptAndRouteToCpu` of
-- src/platform/zynqmp/executor/monitor/interrupt_controller.cpp do to the group and configuration
-- registers, and to `interrupt_routed_to_el1`.
use native.Mathlib.Nat.{pow-suc}
use bmboot.Base.{
  ℕ, suc, ◌+◌, ◌*◌, ◌/◌, ◌%◌, ◌^◌, ◌<◌, inl, inr, ◌≡◌, refl, ap, ◌∙◌, arith, Bool, false, not, ◌&&◌,
  if◌then◌else◌, ◌==◌, leb, bit_and, bit_or,
}
use bmboot.Base.Bits.{
  test_bit, test_bit-and, test_bit-or, test_bit-pow, test_bit-not, test_bit-zero, pow-lt,
}
use bmboot.Bus.{Bus, Distributor, igroupr, icfgr, ipriorityr, itargetsr}
use bmboot.Gic.Enable.{enabled_elsewhere}
use bmboot.Gic.{
  Controller, InterruptGroup, InterruptTrigger, unchanged, level, edge, is_group1, not32, set_group,
  set_trigger, set_trigger_level, configure_private_peripheral_interrupt,
  configure_shared_peripheral_interrupt,
}

-- The digit `k` of a word in which digit `i` is replaced by `group`.
replaced_digit :
    (old i k : ℕ) (group : Bool)
    → i < 32
    → k < 32
    → test_bit (bit_or (bit_and old (not32 (2 ^ i))) (if group then 2 ^ i else 0)) k
      ≡ (if i == k then group else test_bit old k)
replaced_digit old i k group p q = ground (
  arith,
  test_bit-or k (bit_and old (not32 (2 ^ i))) (2 ^ i),
  test_bit-or k (bit_and old (not32 (2 ^ i))) 0,
  test_bit-and k old (not32 (2 ^ i)),
  test_bit-not 32 k (2 ^ i) (pow-lt i 32 p) q,
  test_bit-pow i k,
  test_bit-zero k,
)

-- `0b10 << (i * 2)` has the upper digit of field `i`.
edge_mask : (i k : ℕ) → test_bit (2 * 2 ^ (i * 2)) (k * 2 + 1) ≡ (i == k)
edge_mask i k =
    let same : suc (i * 2) ≡ i * 2 + 1 = omega arith in
    let word : 2 * 2 ^ (i * 2) ≡ 2 ^ (i * 2 + 1) =
      omega (arith, pow-suc 2 (i * 2), ap (λ (n : ℕ). 2 ^ n) same) in
    ap (λ (w : ℕ). test_bit w (k * 2 + 1)) word
    ∙ test_bit-pow (i * 2 + 1) (k * 2 + 1)
    ∙ ground arith

module _ (b : Bus) (d : Distributor b) where
  -- Whether interrupt `j` is in group 1, which is delivered to EL1 as an IRQ.
  abbrev pub in_group1 : b.State → ℕ → Bool
  in_group1 s j = test_bit (b.read32 s (igroupr (j / 32))) (j % 32)

  set_group_lem :
      (s : b.State) (id j : ℕ) (group : Bool)
      → id < 1024
      → j < 1024
      → in_group1 (set_group b s id group) j ≡ (if id == j then group else in_group1 s j)
  set_group_lem s id j group p q = ground (
    arith,
    d.read-write32 s (igroupr (id / 32))
        (bit_or (bit_and (b.read32 s (igroupr (id / 32))) (not32 (2 ^ (id % 32))))
          (if group then 2 ^ (id % 32) else 0))
        (igroupr (j / 32)) (inl (omega arith)),
    replaced_digit (b.read32 s (igroupr (id / 32))) (id % 32) (j % 32) group (omega arith)
        (omega arith),
  )

  elsewhere :
      (s : b.State) (id j v : ℕ)
      → id < 1024
      → j < 1024
      → in_group1 (b.write32 s (icfgr (id / 16)) v) j ≡ in_group1 s j
  elsewhere s id j v p q =
      let other : icfgr (id / 16) == igroupr (j / 32) ≡ false = ground arith in
      ap (λ w. test_bit w (j % 32))
        (d.read-write32 s (icfgr (id / 16)) v (igroupr (j / 32)) (inl (omega arith))
          ∙ ap (λ x. if x then v else b.read32 s (igroupr (j / 32))) other)

  set_trigger-in_group1 :
      (s : b.State) (id j : ℕ) (t : InterruptTrigger)
      → id < 1024
      → j < 1024
      → in_group1 (set_trigger b s id t) j ≡ in_group1 s j
  set_trigger-in_group1 s id j unchanged p q = refl
  set_trigger-in_group1 s id j level p q = elsewhere s id j _ p q
  set_trigger-in_group1 s id j edge p q = elsewhere s id j _ p q

  -- For an id below 1024, `configurePrivatePeripheralInterrupt` puts the interrupt in the group asked for, and notes in
  -- `interrupt_routed_to_el1` whether that is group 1, if the id is up to 187; every other
  -- interrupt keeps its group and its note.
  pub configure_private_lem :
      (c : Controller b) (id j priority : ℕ) (group : InterruptGroup)
      → id < 1024
      → j < 1024
      → let c' = configure_private_peripheral_interrupt b c id group priority in
        (in_group1 c'.device j ≡ (if id == j then is_group1 group else in_group1 c.device j))
        × (c'.routed j ≡ (if id == j && leb j 187 then is_group1 group else c.routed j))
  unfolding configure_private_peripheral_interrupt
  configure_private_lem c id j priority group p q = (
    ap (λ w. test_bit w (j % 32))
          (d.read-write8 (set_group b c.device id (is_group1 group)) (ipriorityr id) priority
            (igroupr (j / 32)) (inl (omega arith)))
        ∙ set_group_lem c.device id j (is_group1 group) p q,
    ground arith,
  )

  -- For an id below 1024, `configureSharedPeripheralInterruptAndRouteToCpu` puts the interrupt in the
  -- group asked for, whatever trigger is asked for, and notes in `interrupt_routed_to_el1` whether
  -- that is group 1, if the id is up to 187; every other interrupt keeps its group and its note.
  pub configure_shared_lem :
      (c : Controller b) (id j cpu priority : ℕ) (t : InterruptTrigger) (group : InterruptGroup)
      → id < 1024
      → j < 1024
      → let c' = configure_shared_peripheral_interrupt b c id t cpu group priority in
        (in_group1 c'.device j ≡ (if id == j then is_group1 group else in_group1 c.device j))
        × (c'.routed j ≡ (if id == j && leb j 187 then is_group1 group else c.routed j))
  unfolding configure_shared_peripheral_interrupt
  configure_shared_lem c id j cpu priority t group p q =
      let s1 = set_group b c.device id (is_group1 group) in
      let s2 = b.write8 s1 (ipriorityr id) priority in
      let s3 = b.write8 s2 (itargetsr id) (2 ^ cpu % 256) in
      (
        set_trigger-in_group1 s3 id j t p q
            ∙ ap (λ w. test_bit w (j % 32))
                (d.read-write8 s2 (itargetsr id) (2 ^ cpu % 256) (igroupr (j / 32))
                    (inl (omega arith))
                  ∙ d.read-write8 s1 (ipriorityr id) priority (igroupr (j / 32))
                      (inl (omega arith)))
            ∙ set_group_lem c.device id j (is_group1 group) p q,
        ground arith,
      )

  -- Routing an interrupt enables none and disables none.
  pub configure_shared-enabled :
      (c : Controller b) (id j cpu priority : ℕ) (t : InterruptTrigger) (group : InterruptGroup)
      → id < 1024
      → j < 1024
      → d.enabled (configure_shared_peripheral_interrupt b c id t cpu group priority).device j
        ≡ d.enabled c.device j
  unfolding configure_shared_peripheral_interrupt
  configure_shared-enabled c id j cpu priority t group p q =
      set_trigger-enabled t
      ∙ d.enabled-write8 _ _ _ j
      ∙ d.enabled-write8 _ _ _ j
      ∙ enabled_elsewhere b d c.device _ _ j (inl (omega arith)) q
    where
      set_trigger-enabled :
          (t : InterruptTrigger) {s : b.State} → d.enabled (set_trigger b s id t) j ≡ d.enabled s j
      set_trigger-enabled unchanged = refl
      set_trigger-enabled level = enabled_elsewhere b d _ _ _ j (inr (omega arith)) q
      set_trigger-enabled edge = enabled_elsewhere b d _ _ _ j (inr (omega arith)) q

  -- Whether interrupt `j` is configured as edge-triggered: the upper of its two digits.
  abbrev pub is_edge : b.State → ℕ → Bool
  is_edge s j = test_bit (b.read32 s (icfgr (j / 16))) (j % 16 * 2 + 1)

  -- For an id below 1024, `setTriggerLevel` leaves the interrupt as it was: it stays
  -- edge-triggered if it was, and the other fifteen of its register become level-sensitive.
  pub set_trigger_level_lem :
      (s : b.State) (id j : ℕ)
      → id < 1024
      → j < 1024
      → is_edge (set_trigger_level b s id) j
        ≡ (is_edge s j && not (id / 16 == j / 16 && not (id == j)))
  set_trigger_level_lem s id j p q = ground (
    arith,
    d.read-write32 s (icfgr (id / 16))
        (bit_and (b.read32 s (icfgr (id / 16))) (2 * 2 ^ (id % 16 * 2))) (icfgr (j / 16))
        (inr (omega arith)),
    test_bit-and (j % 16 * 2 + 1) (b.read32 s (icfgr (id / 16))) (2 * 2 ^ (id % 16 * 2)),
    edge_mask (id % 16) (j % 16),
  )
