-- ===== src/Bus.antt =====
-- The memory-mapped registers, which no source file implements: a parameter of the model, with the
-- behaviour that ARM IHI 0048B (GICv2) documents of the registers that the code relies on.
-- Addresses are those of src/platform/zynqmp/zynqmp.hpp and src/executor/gicv2.hpp.
use bmboot.Base.{
  ℕ, ◌+◌, ◌*◌, ◌/◌, ◌%◌, ◌<◌, ◌≤◌, ◌⊎◌, ◌≡◌, Bool, not, ◌&&◌, ◌||◌, if◌then◌else◌, ◌==◌,
}
use bmboot.Base.Bits.{test_bit}

abbrev pub gicd_base : ℕ
gicd_base = 0xF9010000

abbrev pub gicc_base : ℕ
gicc_base = 0xF9020000

-- `GICD->IGROUPRn[n]` and so on, by the offsets of `struct GICD`.
abbrev pub igroupr : ℕ → ℕ
igroupr n = gicd_base + 0x080 + 4 * n

abbrev pub isenabler : ℕ → ℕ
isenabler n = gicd_base + 0x100 + 4 * n

abbrev pub icenabler : ℕ → ℕ
icenabler n = gicd_base + 0x180 + 4 * n

abbrev pub ispendr : ℕ → ℕ
ispendr n = gicd_base + 0x200 + 4 * n

abbrev pub icpendr : ℕ → ℕ
icpendr n = gicd_base + 0x280 + 4 * n

abbrev pub isactiver : ℕ → ℕ
isactiver n = gicd_base + 0x300 + 4 * n

abbrev pub icactiver : ℕ → ℕ
icactiver n = gicd_base + 0x380 + 4 * n

abbrev pub ipriorityr : ℕ → ℕ
ipriorityr n = gicd_base + 0x400 + n

abbrev pub itargetsr : ℕ → ℕ
itargetsr n = gicd_base + 0x800 + n

abbrev pub icfgr : ℕ → ℕ
icfgr n = gicd_base + 0xC00 + 4 * n

-- `GICC->…`, by the offsets of `struct GICC`.
abbrev pub gicc_ctrl : ℕ
gicc_ctrl = gicc_base + 0x000

abbrev pub gicc_pmr : ℕ
gicc_pmr = gicc_base + 0x004

abbrev pub gicc_bpr : ℕ
gicc_bpr = gicc_base + 0x008

abbrev pub gicc_eoir : ℕ
gicc_eoir = gicc_base + 0x010

abbrev pub gicc_nsapr0 : ℕ
gicc_nsapr0 = gicc_base + 0x0E0

-- `read_iar` is the load of `GICC->IAR`, which also acknowledges the interrupt.
pub record Bus : Type 1 where
  pub State : Type 0
  pub read32 : State → ℕ → ℕ
  pub write32 : State → ℕ → ℕ → State
  pub write8 : State → ℕ → ℕ → State
  pub read_iar : State → ℕ × State

-- Whether a store of `v` at `a` has the digit of interrupt `id` set, in the bank of one digit per
-- interrupt that begins at `first`.
abbrev pub hits : ℕ → ℕ → ℕ → ℕ → Bool
hits first a v id = a == first + 4 * (id / 32) && test_bit v (id % 32)

-- The group and configuration registers.
abbrev pub HoldsValue : ℕ → Type 0
HoldsValue a = ((igroupr 0 ≤ a) × (a < igroupr 32)) ⊎ ((icfgr 0 ≤ a) × (a < icfgr 64))

-- The registers that set or clear a digit for each interrupt: `enabled` to `active`, without those
-- that only hold a value.
abbrev pub SetsOrClears : ℕ → Type 0
SetsOrClears a = (isenabler 0 ≤ a) × (a < icactiver 32)

-- The set and clear registers: a one in a store sets or clears, a zero does nothing. `latched` is the
-- pending state that an edge or a store to a set-pending register leaves; a level-sensitive interrupt
-- is pending besides while its signal is asserted, which no store changes. The ids below 16 are those
-- of software generated interrupts, on whose pending state the registers have no effect. The
-- registers with plain contents: a load gives what was stored last.
pub record Distributor (b : Bus) : Type 0 where
  pub enabled : b.State → ℕ → Bool
  pub latched : b.State → ℕ → Bool
  pub active : b.State → ℕ → Bool
  pub enabled-write32 :
      (s : b.State) (a v id : ℕ)
      → id < 1024
      → enabled (b.write32 s a v) id
        ≡ (hits (isenabler 0) a v id || (not (hits (icenabler 0) a v id) && enabled s id))
  pub enabled-read_iar : (s : b.State) (id : ℕ) → enabled (b.read_iar s).1 id ≡ enabled s id
  pub enabled-write8 : (s : b.State) (a v id : ℕ) → enabled (b.write8 s a v) id ≡ enabled s id
  pub latched-write32 :
      (s : b.State) (a v id : ℕ)
      → SetsOrClears a
      → 16 ≤ id
      → id < 1024
      → latched (b.write32 s a v) id
        ≡ (hits (ispendr 0) a v id || (not (hits (icpendr 0) a v id) && latched s id))
  pub active-write32 :
      (s : b.State) (a v id : ℕ)
      → SetsOrClears a
      → id < 1024
      → active (b.write32 s a v) id
        ≡ (hits (isactiver 0) a v id || (not (hits (icactiver 0) a v id) && active s id))
  pub read-write32 :
      (s : b.State) (a v c : ℕ)
      → HoldsValue c
      → b.read32 (b.write32 s a v) c ≡ (if a == c then v else b.read32 s c)
  pub read-write8 :
      (s : b.State) (a v c : ℕ) → HoldsValue c → b.read32 (b.write8 s a v) c ≡ b.read32 s c
