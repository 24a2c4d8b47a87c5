-- ===== src/Base/Bits.antt =====
-- The binary digits of a word, and what `&` and `|` do to each of them.
use Prim.Native.Nat.{min, max, digits, bitwise, bit_or-bitwise, bit_and-bitwise}
use mathlib.Core.Path.{◌≡◌, refl, ap, sym, ◌∙◌}
use mathlib.Core.Bool.{Bool, true, false, not, ◌&&◌, ◌||◌}
use Prim.Native.Nat.{ℕ, zero, suc, ◌+◌, ◌-◌, ◌*◌, ◌/◌, ◌%◌, ◌^◌, ◌≤◌, ◌<◌, bit_and, bit_or}
use native.Mathlib.Omega.{arith}
use native.Mathlib.Nat.{pow-suc, one-le-pow}
use bmboot.Base.Tests.{◌==◌, Bool-cases}
use mathlib.Core.Logic.{inl, inr}

-- Digit `k` of `a`.
unfoldable pub test_bit : ℕ → ℕ → Bool
test_bit a zero = a % 2 == 1
test_bit a (suc k) = test_bit (a / 2) k

-- Fuel beyond the number's own size makes no difference.
spare_fuel :
    (rest : ℕ → ℕ) (g : ℕ → ℕ → ℕ) (n k a b : ℕ)
    → a ≤ n
    → digits rest g (n + k) a b ≡ digits rest g n a b
spare_fuel rest g n k zero b fits = at_zero (n + k) ∙ sym (at_zero n)
  where
    at_zero : (m : ℕ) → digits rest g m 0 b ≡ rest b
    at_zero zero = refl
    at_zero (suc m) = refl
spare_fuel rest g zero k (suc a) b fits = absurd (omega arith)
spare_fuel rest g (suc n) k (suc a) b fits =
    ap (λ m. digits rest g m (suc a) b) {y = suc (n + k)} (omega arith)
    ∙ ap (λ (t : ℕ). t * 2 + g (suc a % 2) (b % 2))
        (spare_fuel rest g n k (suc a / 2) (b / 2) (omega arith))

-- An operation on digits, by its recursion on the halves.
module _ (rest : ℕ → ℕ) (g : ℕ → ℕ → ℕ) (op : ℕ → ℕ → ℕ)
    (meaning : (a b : ℕ) → op a b ≡ bitwise rest g a b) where
  pub halves : (a b : ℕ) → op (suc a) b ≡ op (suc a / 2) (b / 2) * 2 + g (suc a % 2) (b % 2)
  halves a b =
      meaning (suc a) b
      ∙ ap (λ (t : ℕ). t * 2 + g (suc a % 2) (b % 2))
          (ap (λ n. digits rest g n (suc a / 2) (b / 2)) {y = suc a / 2 + (a - suc a / 2)}
              (omega arith)
            ∙ spare_fuel rest g (suc a / 2) (a - suc a / 2) (suc a / 2) (b / 2) (omega arith)
            ∙ sym (meaning (suc a / 2) (b / 2)))

pub and_step : (a b : ℕ) → bit_and a b ≡ bit_and (a / 2) (b / 2) * 2 + min (a % 2) (b % 2)
and_step (suc a) b = halves (λ y. 0) min bit_and bit_and-bitwise a b
and_step zero b = omega (arith, bit_and-bitwise 0 b, bit_and-bitwise 0 (b / 2))

pub or_step : (a b : ℕ) → bit_or a b ≡ bit_or (a / 2) (b / 2) * 2 + max (a % 2) (b % 2)
or_step (suc a) b = halves (λ y. y) max bit_or bit_or-bitwise a b
or_step zero b = omega (arith, bit_or-bitwise 0 b, bit_or-bitwise 0 (b / 2))

pub test_bit-and : (k a b : ℕ) → test_bit (bit_and a b) k ≡ (test_bit a k && test_bit b k)
unfolding test_bit
test_bit-and zero a b = ground (arith, and_step a b)
test_bit-and (suc k) a b =
    let half : bit_and a b / 2 ≡ bit_and (a / 2) (b / 2) = omega (arith, and_step a b) in
    ap (λ t. test_bit t k) half ∙ test_bit-and k (a / 2) (b / 2)

pub test_bit-or : (k a b : ℕ) → test_bit (bit_or a b) k ≡ (test_bit a k || test_bit b k)
unfolding test_bit
test_bit-or zero a b = ground (arith, or_step a b)
test_bit-or (suc k) a b =
    let half : bit_or a b / 2 ≡ bit_or (a / 2) (b / 2) = omega (arith, or_step a b) in
    ap (λ t. test_bit t k) half ∙ test_bit-or k (a / 2) (b / 2)

pub test_bit-zero : (k : ℕ) → test_bit 0 k ≡ false
unfolding test_bit
test_bit-zero zero = refl
test_bit-zero (suc k) = test_bit-zero k

-- A shifted one has one digit.
pub test_bit-pow : (j k : ℕ) → test_bit (2 ^ j) k ≡ (j == k)
unfolding test_bit
test_bit-pow zero zero = refl
test_bit-pow zero (suc k) = test_bit-zero k ∙ ground arith
test_bit-pow (suc j) zero = ground (arith, pow-suc 2 j)
test_bit-pow (suc j) (suc k) =
    let half : 2 ^ suc j / 2 ≡ 2 ^ j = omega (arith, pow-suc 2 j) in
    ap (λ t. test_bit t k) half ∙ test_bit-pow j k ∙ ground arith

-- The complement in `n` digits.
pub test_bit-not : (n k a : ℕ) → a < 2 ^ n → k < n → test_bit (2 ^ n - 1 - a) k ≡ not (test_bit a k)
unfolding test_bit
test_bit-not zero k a h l = absurd (omega arith)
test_bit-not (suc n) zero a h l = ground (arith, pow-suc 2 n)
test_bit-not (suc n) (suc k) a h l =
    let half : (2 ^ suc n - 1 - a) / 2 ≡ 2 ^ n - 1 - a / 2 = omega (arith, pow-suc 2 n) in
    ap (λ t. test_bit t k) half
    ∙ test_bit-not n k (a / 2) (omega (arith, pow-suc 2 n)) (omega arith)

pub pow-lt : (i n : ℕ) → i < n → 2 ^ i < 2 ^ n
pow-lt zero zero h = absurd (omega arith)
pow-lt zero (suc n) h = omega (arith, pow-suc 2 n, one-le-pow n 2)
pow-lt (suc i) zero h = absurd (omega arith)
pow-lt (suc i) (suc n) h = omega (arith, pow-suc 2 n, pow-suc 2 i, pow-lt i n (omega arith))

-- Whether `p` holds of every number below `n`, by evaluation.
unfoldable pub holds_below : ℕ → (ℕ → Bool) → Bool
holds_below zero p = true
holds_below (suc n) p = holds_below n p && p n

pub holds_below-true :
    (n : ℕ) (p : ℕ → Bool) → holds_below n p ≡ true → (k : ℕ) → k < n → p k ≡ true
unfolding holds_below
holds_below-true (suc n) p all k less = elim (Bool-cases (k == n)) [
  | inl last ↦ ground arith
  | inr earlier ↦ holds_below-true n p (ground arith) k (ground arith)
]
holds_below-true zero p all k less = absurd (omega arith)
