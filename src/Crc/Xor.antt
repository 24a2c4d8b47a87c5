-- ===== src/Crc/Xor.antt =====
-- `^` and `&` at variables: their recursion on binary digits, and the laws that the checksum of
-- src/utility/crc32.c rests on.
use Prim.Native.Nat.{differ, bit_xor-bitwise}
use native.Mathlib.Nat.{pow-suc}
use bmboot.Base.Bits.{halves, and_step}
use bmboot.Base.{
  ℕ, zero, suc, ◌+◌, ◌*◌, ◌/◌, ◌%◌, ◌^◌, ◌<◌, ◌≤◌, ◌≡◌, refl, ap, arith, bit_xor, bit_and,
}

differ_digit : (a b : ℕ) → a < 2 → b < 2 → differ a b ≡ (a + b) % 2
differ_digit zero b p q = omega arith
differ_digit (suc zero) zero p q = refl
differ_digit (suc zero) (suc zero) p q = refl
differ_digit (suc zero) (suc (suc b)) p q = absurd (omega arith)
differ_digit (suc (suc a)) b p q = absurd (omega arith)

zero-xor : (b : ℕ) → bit_xor 0 b ≡ b
zero-xor b = bit_xor-bitwise 0 b

pub xor_step : (a b : ℕ) → bit_xor a b ≡ bit_xor (a / 2) (b / 2) * 2 + (a + b) % 2
xor_step (suc a) b = omega (
  arith,
  halves (λ y. y) differ bit_xor bit_xor-bitwise a b,
  differ_digit (suc a % 2) (b % 2) (omega arith) (omega arith),
)
xor_step zero b = omega (arith, zero-xor b, zero-xor (b / 2))

pub xor-half : (a b : ℕ) → bit_xor a b / 2 ≡ bit_xor (a / 2) (b / 2)
xor-half a b = omega (arith, xor_step a b)

pub xor-parity : (a b : ℕ) → bit_xor a b % 2 ≡ (a + b) % 2
xor-parity a b = omega (arith, xor_step a b)

xor_comm_fuel : (n a b : ℕ) → a ≤ n → b ≤ n → bit_xor a b ≡ bit_xor b a
xor_comm_fuel zero zero zero p q = refl
xor_comm_fuel zero (suc a) b p q = absurd (omega arith)
xor_comm_fuel zero zero (suc b) p q = absurd (omega arith)
xor_comm_fuel (suc n) a b p q =
    omega (
      arith,
      xor_step a b,
      xor_step b a,
      xor_comm_fuel n (a / 2) (b / 2) (omega arith) (omega arith),
    )

pub xor_comm : (a b : ℕ) → bit_xor a b ≡ bit_xor b a
xor_comm a b = xor_comm_fuel (a + b) a b (omega arith) (omega arith)

xor_assoc_fuel :
    (n a b c : ℕ) → a ≤ n → b ≤ n → c ≤ n → bit_xor (bit_xor a b) c ≡ bit_xor a (bit_xor b c)
xor_assoc_fuel zero zero b c p q r =
    omega (arith, zero-xor b, zero-xor (bit_xor b c), ap (λ t. bit_xor t c) (zero-xor b))
xor_assoc_fuel zero (suc a) b c p q r = absurd (omega arith)
xor_assoc_fuel (suc n) a b c p q r = omega (
  arith,
  xor_step (bit_xor a b) c,
  xor_step a (bit_xor b c),
  xor_step a b,
  xor_step b c,
  ap (λ t. bit_xor t (c / 2)) (xor-half a b),
  ap (bit_xor (a / 2)) (xor-half b c),
  xor_assoc_fuel n (a / 2) (b / 2) (c / 2) (omega arith) (omega arith) (omega arith),
)

pub xor_assoc : (a b c : ℕ) → bit_xor (bit_xor a b) c ≡ bit_xor a (bit_xor b c)
xor_assoc a b c = xor_assoc_fuel (a + b + c) a b c (omega arith) (omega arith) (omega arith)

xor_self_fuel : (n a : ℕ) → a ≤ n → bit_xor a a ≡ 0
xor_self_fuel zero zero p = refl
xor_self_fuel zero (suc a) p = absurd (omega arith)
xor_self_fuel (suc n) a p = omega (arith, xor_step a a, xor_self_fuel n (a / 2) (omega arith))

pub xor_self : (a : ℕ) → bit_xor a a ≡ 0
xor_self a = xor_self_fuel a a (omega arith)

pub xor-zero : (a : ℕ) → bit_xor a 0 ≡ a
xor-zero a = omega (arith, xor_comm a 0, zero-xor a)

-- What is toggled twice is left as it was.
pub xor_twice : (a b : ℕ) → bit_xor (bit_xor a b) b ≡ a
xor_twice a b = omega (arith, xor_assoc a b b, ap (bit_xor a) (xor_self b), xor-zero a)

pub xor-lt : (k a b : ℕ) → a < 2 ^ k → b < 2 ^ k → bit_xor a b < 2 ^ k
xor-lt zero zero zero p q = omega arith
xor-lt zero zero (suc b) p q = absurd (omega arith)
xor-lt zero (suc a) b p q = absurd (omega arith)
xor-lt (suc k) a b p q = omega (
  arith,
  pow-suc 2 k,
  xor_step a b,
  xor-lt k (a / 2) (b / 2) (omega (arith, pow-suc 2 k)) (omega (arith, pow-suc 2 k)),
)

and-zero_fuel : (n a : ℕ) → a ≤ n → bit_and a 0 ≡ 0
and-zero_fuel zero zero p = refl
and-zero_fuel zero (suc a) p = absurd (omega arith)
and-zero_fuel (suc n) a p = omega (arith, and_step a 0, and-zero_fuel n (a / 2) (omega arith))

and-zero : (a : ℕ) → bit_and a 0 ≡ 0
and-zero a = and-zero_fuel a a (omega arith)

and_odd : (a m n : ℕ) → m ≡ 2 * n + 1 → bit_and a m ≡ bit_and (a / 2) n * 2 + a % 2
and_odd a m n e =
    let half : m / 2 ≡ n = omega arith in omega (arith, and_step a m, ap (bit_and (a / 2)) half)

-- The mask of a byte keeps the eight lowest digits.
pub and_byte : (a : ℕ) → bit_and a 0xFF ≡ a % 256
and_byte a = omega (
  arith,
  and_odd a 255 127 refl,
  and_odd (a / 2) 127 63 refl,
  and_odd (a / 2 / 2) 63 31 refl,
  and_odd (a / 2 / 2 / 2) 31 15 refl,
  and_odd (a / 2 / 2 / 2 / 2) 15 7 refl,
  and_odd (a / 2 / 2 / 2 / 2 / 2) 7 3 refl,
  and_odd (a / 2 / 2 / 2 / 2 / 2 / 2) 3 1 refl,
  and_odd (a / 2 / 2 / 2 / 2 / 2 / 2 / 2) 1 0 refl,
  and-zero (a / 2 / 2 / 2 / 2 / 2 / 2 / 2 / 2),
)

-- What is shifted out is not needed for the digits above.
pub xor-high : (c p : ℕ) → p < 256 → bit_xor c p / 256 ≡ c / 256
xor-high c p h =
    let gone : p / 2 / 2 / 2 / 2 / 2 / 2 / 2 / 2 ≡ 0 = omega arith in
    omega (
      arith,
      xor-half c p,
      xor-half (c / 2) (p / 2),
      xor-half (c / 2 / 2) (p / 2 / 2),
      xor-half (c / 2 / 2 / 2) (p / 2 / 2 / 2),
      xor-half (c / 2 / 2 / 2 / 2) (p / 2 / 2 / 2 / 2),
      xor-half (c / 2 / 2 / 2 / 2 / 2) (p / 2 / 2 / 2 / 2 / 2),
      xor-half (c / 2 / 2 / 2 / 2 / 2 / 2) (p / 2 / 2 / 2 / 2 / 2 / 2),
      xor-half (c / 2 / 2 / 2 / 2 / 2 / 2 / 2) (p / 2 / 2 / 2 / 2 / 2 / 2 / 2),
      ap (bit_xor (c / 2 / 2 / 2 / 2 / 2 / 2 / 2 / 2)) gone,
      xor-zero (c / 2 / 2 / 2 / 2 / 2 / 2 / 2 / 2),
    )

-- Digits that do not overlap add up.
pub xor_fields : (k q r : ℕ) → r < 2 ^ k → bit_xor (q * 2 ^ k) r ≡ q * 2 ^ k + r
xor_fields zero q zero h = omega (arith, xor-zero (q * 1))
xor_fields zero q (suc r) h = absurd (omega arith)
xor_fields (suc k) q r h =
    let twice : q * 2 ^ suc k ≡ 2 * (q * 2 ^ k) =
      omega (arith, ap (λ (t : ℕ). q * t) (pow-suc 2 k)) in
    let half : q * 2 ^ suc k / 2 ≡ q * 2 ^ k = omega arith in
    omega (
      arith,
      xor_step (q * 2 ^ suc k) r,
      ap (λ t. bit_xor t (r / 2)) half,
      xor_fields k q (r / 2) (omega (arith, pow-suc 2 k)),
    )
