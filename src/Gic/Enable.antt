-- ===== src/Gic/Enable.antt =====
-- What `enableInterrupt` and `disableInterrupt` of
-- src/platform/zynqmp/executor/monitor/interrupt_controller.cpp do to each interrupt.
use bmboot.Base.{
  ℕ, ◌+◌, ◌*◌, ◌/◌, ◌%◌, ◌^◌, ◌<◌, ◌≤◌, ◌⊎◌, ◌≡◌, refl, ap, ap₂, ◌∙◌, arith, Bool, false, not, ◌&&◌,
  ◌||◌, ◌==◌, inr,
}
use bmboot.Base.Bits.{test_bit-pow}
use bmboot.Bus.{
  Bus, Distributor, hits, isenabler, icenabler, ispendr, icpendr, isactiver, icactiver,
}
use bmboot.Gic.{enable_interrupt, disable_interrupt, set_enable, clear_pending, clear_active}

-- The word of one digit for `id`, stored at its place in the bank, concerns `id` alone.
pub hits_own : (first id j : ℕ) → hits first (first + 4 * (id / 32)) (2 ^ (id % 32)) j ≡ (id == j)
hits_own first id j = ground (arith, test_bit-pow (id % 32) (j % 32))

-- A store in one bank misses another.
pub hits_other :
    (first other v id j : ℕ)
    → id < 1024
    → j < 1024
    → (first + 128 ≤ other) ⊎ (other + 128 ≤ first)
    → hits other (first + 4 * (id / 32)) v j ≡ false
hits_other first other v id j p q apart = ground arith

-- The digit of `j` after a store, in a pair of banks that sets from `on` and clears from `off`.
abbrev stored : ℕ → ℕ → ℕ → ℕ → ℕ → Bool → Bool
stored on off a v j old = hits on a v j || (not (hits off a v j) && old)

abbrev Apart : ℕ → ℕ → Type 0
Apart m n = (m + 128 ≤ n) ⊎ (n + 128 ≤ m)

stored_on :
    (on off id j : ℕ) (old : Bool)
    → id < 1024
    → j < 1024
    → Apart on off
    → stored on off (on + 4 * (id / 32)) (2 ^ (id % 32)) j old ≡ (id == j || old)
stored_on on off id j old p q apart =
    ap₂ (λ x y. x || (not y && old)) (hits_own on id j)
      (hits_other on off (2 ^ (id % 32)) id j p q apart)

stored_off :
    (on off id j : ℕ) (old : Bool)
    → id < 1024
    → j < 1024
    → Apart off on
    → stored on off (off + 4 * (id / 32)) (2 ^ (id % 32)) j old ≡ (not (id == j) && old)
stored_off on off id j old p q apart =
    ap₂ (λ x y. x || (not y && old)) (hits_other off on (2 ^ (id % 32)) id j p q apart)
      (hits_own off id j)

stored_elsewhere :
    (on off first id j : ℕ) (old : Bool)
    → id < 1024
    → j < 1024
    → Apart first on
    → Apart first off
    → stored on off (first + 4 * (id / 32)) (2 ^ (id % 32)) j old ≡ old
stored_elsewhere on off first id j old p q apart apart' =
    ap₂ (λ x y. x || (not y && old)) (hits_other first on (2 ^ (id % 32)) id j p q apart)
      (hits_other first off (2 ^ (id % 32)) id j p q apart')

module _ (b : Bus) (d : Distributor b) where
  open d use {enabled, latched, active}

  -- A store outside the two enable banks.
  pub enabled_elsewhere :
      (s : b.State) (a v j : ℕ)
      → (a < isenabler 0) ⊎ (icenabler 32 ≤ a)
      → j < 1024
      → enabled (b.write32 s a v) j ≡ enabled s j
  enabled_elsewhere s a v j apart q =
      let on : hits (isenabler 0) a v j ≡ false = ground arith in
      let off : hits (icenabler 0) a v j ≡ false = ground arith in
      d.enabled-write32 s a v j q ∙ rw (on, off) refl

  -- `disableInterrupt` disables the interrupt, and no other is enabled or disabled.
  pub disable_interrupt-enabled :
      (s : b.State) (id j : ℕ)
      → id < 1024
      → j < 1024
      → enabled (disable_interrupt b s id) j ≡ (not (id == j) && enabled s j)
  unfolding disable_interrupt
  disable_interrupt-enabled s id j p q =
      d.enabled-write32 s (icenabler (id / 32)) (2 ^ (id % 32)) j q
      ∙ stored_off (isenabler 0) (icenabler 0) id j (enabled s j) p q (omega arith)

  -- For an id below 1024, `disableInterrupt` disables the interrupt, and changes nothing else of it
  -- or of another: of the interrupts from 16 on, whether they are enabled, latched as pending or
  -- active stays as it was.
  pub disable_interrupt_lem :
      (s : b.State) (id j : ℕ)
      → id < 1024
      → 16 ≤ j
      → j < 1024
      → (enabled (disable_interrupt b s id) j ≡ (not (id == j) && enabled s j))
        × (latched (disable_interrupt b s id) j ≡ latched s j)
        × (active (disable_interrupt b s id) j ≡ active s j)
  unfolding disable_interrupt
  disable_interrupt_lem s id j p m q = (
    disable_interrupt-enabled s id j p q,
    d.latched-write32 s (icenabler (id / 32)) (2 ^ (id % 32)) j (omega arith) m q
        ∙ stored_elsewhere (ispendr 0) (icpendr 0) (icenabler 0) id j (latched s j) p q
            (omega arith) (omega arith),
    d.active-write32 s (icenabler (id / 32)) (2 ^ (id % 32)) j (omega arith) q
        ∙ stored_elsewhere (isactiver 0) (icactiver 0) (icenabler 0) id j (active s j) p q
            (omega arith) (omega arith),
  )

  clear_pending_lem :
      (s : b.State) (id j : ℕ)
      → id < 1024
      → 16 ≤ j
      → j < 1024
      → (latched (clear_pending b s id) j ≡ (not (id == j) && latched s j))
        × (active (clear_pending b s id) j ≡ active s j)
  clear_pending_lem s id j p m q = (
    d.latched-write32 s (icpendr (id / 32)) (2 ^ (id % 32)) j (omega arith) m q
        ∙ stored_off (ispendr 0) (icpendr 0) id j (latched s j) p q (omega arith),
    d.active-write32 s (icpendr (id / 32)) (2 ^ (id % 32)) j (omega arith) q
        ∙ stored_elsewhere (isactiver 0) (icactiver 0) (icpendr 0) id j (active s j) p q
            (omega arith) (omega arith),
  )

  clear_active_lem :
      (s : b.State) (id j : ℕ)
      → id < 1024
      → 16 ≤ j
      → j < 1024
      → (latched (clear_active b s id) j ≡ latched s j)
        × (active (clear_active b s id) j ≡ (not (id == j) && active s j))
  clear_active_lem s id j p m q = (
    d.latched-write32 s (icactiver (id / 32)) (2 ^ (id % 32)) j (omega arith) m q
        ∙ stored_elsewhere (ispendr 0) (icpendr 0) (icactiver 0) id j (latched s j) p q
            (omega arith) (omega arith),
    d.active-write32 s (icactiver (id / 32)) (2 ^ (id % 32)) j (omega arith) q
        ∙ stored_off (isactiver 0) (icactiver 0) id j (active s j) p q (omega arith),
  )

  set_enable_lem :
      (s : b.State) (id j : ℕ)
      → id < 1024
      → 16 ≤ j
      → j < 1024
      → (latched (set_enable b s id) j ≡ latched s j) × (active (set_enable b s id) j ≡ active s j)
  set_enable_lem s id j p m q = (
    d.latched-write32 s (isenabler (id / 32)) (2 ^ (id % 32)) j (omega arith) m q
        ∙ stored_elsewhere (ispendr 0) (icpendr 0) (isenabler 0) id j (latched s j) p q
            (omega arith) (omega arith),
    d.active-write32 s (isenabler (id / 32)) (2 ^ (id % 32)) j (omega arith) q
        ∙ stored_elsewhere (isactiver 0) (icactiver 0) (isenabler 0) id j (active s j) p q
            (omega arith) (omega arith),
  )

  -- `enableInterrupt` enables the interrupt, and no other is enabled or disabled.
  pub enable_interrupt-enabled :
      (s : b.State) (id j : ℕ)
      → id < 1024
      → j < 1024
      → enabled (enable_interrupt b s id) j ≡ (id == j || enabled s j)
  unfolding enable_interrupt
  enable_interrupt-enabled s id j p q =
      let s1 = clear_pending b s id in
      let s2 = clear_active b s1 id in
      d.enabled-write32 s2 (isenabler (id / 32)) (2 ^ (id % 32)) j q
      ∙ stored_on (isenabler 0) (icenabler 0) id j (enabled s2 j) p q (omega arith)
      ∙ ap (λ x. id == j || x)
          (enabled_elsewhere s1 _ _ j (inr (omega arith)) q
            ∙ enabled_elsewhere s _ _ j (inr (omega arith)) q)

  -- Of the interrupts 16 to 1023, those that no software generates: for an id below 1024,
  -- `enableInterrupt` leaves the interrupt enabled, not active, and without a pending state latched
  -- from before, whatever a terminated payload left behind; every other interrupt keeps its three
  -- states. A level-sensitive interrupt whose signal is still asserted is pending all the same.
  pub enable_interrupt_lem :
      (s : b.State) (id j : ℕ)
      → id < 1024
      → 16 ≤ j
      → j < 1024
      → (enabled (enable_interrupt b s id) j ≡ (id == j || enabled s j))
        × (latched (enable_interrupt b s id) j ≡ (not (id == j) && latched s j))
        × (active (enable_interrupt b s id) j ≡ (not (id == j) && active s j))
  unfolding enable_interrupt
  enable_interrupt_lem s id j p m q =
      let s1 = clear_pending b s id in
      let s2 = clear_active b s1 id in
      let (p1, a1) = clear_pending_lem s id j p m q in
      let (p2, a2) = clear_active_lem s1 id j p m q in
      let (p3, a3) = set_enable_lem s2 id j p m q in
      (enable_interrupt-enabled s id j p q, p3 ∙ p2 ∙ p1, a3 ∙ a2 ∙ ap (λ x. not (id == j) && x) a1)

  -- An id from 1024 on reaches past the set-enable bank: asked to enable interrupt 1024 + k, for k
  -- below 1024, the code disables interrupt k and enables nothing.
  pub enable_interrupt_out_of_range :
      (s : b.State) (k j : ℕ)
      → k < 1024
      → j < 1024
      → enabled (enable_interrupt b s (1024 + k)) j ≡ (not (k == j) && enabled s j)
  unfolding enable_interrupt
  enable_interrupt_out_of_range s k j p q =
      ap₂ (λ s2 m. enabled (b.write32 s2 (isenabler ((1024 + k) / 32)) m) j) refl mask
      ∙ ap (λ a. enabled (b.write32 s2 a (2 ^ (k % 32))) j) (on_off)
      ∙ d.enabled-write32 s2 (icenabler (k / 32)) (2 ^ (k % 32)) j q
      ∙ stored_off (isenabler 0) (icenabler 0) k j (enabled s2 j) p q (omega arith)
      ∙ ap (λ x. not (k == j) && x) untouched
    where
      mask : ◌≡◌ {A = ℕ} (2 ^ ((1024 + k) % 32)) (2 ^ (k % 32))
      mask = ap (λ (n : ℕ). 2 ^ n) (omega arith)

      on_off : isenabler ((1024 + k) / 32) ≡ icenabler (k / 32)
      on_off = omega arith

      s1 : b.State
      s1 = b.write32 s (icpendr ((1024 + k) / 32)) (2 ^ ((1024 + k) % 32))

      s2 : b.State
      s2 = b.write32 s1 (icactiver ((1024 + k) / 32)) (2 ^ ((1024 + k) % 32))

      beyond :
          (t : b.State) (first v : ℕ)
          → icpendr 0 ≤ first
          → enabled (b.write32 t (first + 4 * ((1024 + k) / 32)) v) j ≡ enabled t j
      beyond t first v far =
          let a = first + 4 * ((1024 + k) / 32) in
          let on : hits (isenabler 0) a v j ≡ false = ground arith in
          let off : hits (icenabler 0) a v j ≡ false = ground arith in
          d.enabled-write32 t a v j q ∙ ap₂ (λ x y. x || (not y && enabled t j)) on off

      untouched : enabled s2 j ≡ enabled s j
      untouched =
          beyond s1 (icactiver 0) (2 ^ ((1024 + k) % 32)) (omega arith)
          ∙ beyond s (icpendr 0) (2 ^ ((1024 + k) % 32)) (omega arith)
