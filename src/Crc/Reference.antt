-- ===== src/Crc/Reference.antt =====
-- The table of src/utility/crc32.c against the division by the polynomial, one bit at a time.
use native.Mathlib.Nat.{pow-suc}
use bmboot.Base.{
  ℕ, zero, suc, ◌*◌, ◌/◌, ◌%◌, ◌^◌, ◌<◌, ◌≡◌, refl, ap, ap₂, sym, ◌∙◌, arith, List, [], ◌∷◌, ◌++◌,
  true, if◌then◌else◌, ◌==◌, ==_iff, get_or, bit_and, bit_xor,
}
use bmboot.Base.Bits.{holds_below, holds_below-true}
use bmboot.Crc.{crc32_tab, update, crc_loop, crc32, all_ones}
use bmboot.Crc.Xor.{
  xor-half, xor-parity, xor_comm, xor_assoc, xor_twice, and_byte, xor_fields, xor-high,
}

-- The comment's "polynomial $edb88320", its lowest-order term in the highest bit.
abbrev polynomial : ℕ
polynomial = 0xEDB88320

-- One step of the division: shift out a bit, and subtract the polynomial if it was set.
divide_bit : ℕ → ℕ
divide_bit c = if c % 2 == 1 then bit_xor (c / 2) polynomial else c / 2

divide_bits : ℕ → ℕ → ℕ
divide_bits zero c = c
divide_bits (suc n) c = divide_bits n (divide_bit c)

-- The checksum with no table: the bytes one after the other, each with eight steps.
divide_bytes : ℕ → List ℕ → ℕ
divide_bytes c [] = c
divide_bytes c (p ∷ buf) = divide_bytes (divide_bits 8 (bit_xor c p)) buf

pub reference : ℕ → List ℕ → ℕ
unfolding divide_bytes divide_bits divide_bit
reference crc buf = bit_xor (divide_bytes (bit_xor crc all_ones) buf) all_ones

-- The table holds the quotient steps of each byte.
table_check : holds_below 256 (λ x. get_or crc32_tab x 0 == divide_bits 8 x) ≡ true
unfolding holds_below divide_bits divide_bit
table_check = refl

table_entry : (x : ℕ) → x < 256 → get_or crc32_tab x 0 ≡ divide_bits 8 x
table_entry x h =
    (==_iff _ _).0
      (holds_below-true 256 (λ x. get_or crc32_tab x 0 == divide_bits 8 x) table_check x h)

abbrev pub AllBytes : List ℕ → Type 0
AllBytes [] = Unit {0}
AllBytes (x ∷ xs) = (x < 256) × AllBytes xs

-- The division is linear.
regroup : (a b p : ℕ) → bit_xor (bit_xor a p) b ≡ bit_xor (bit_xor a b) p
regroup a b p = xor_assoc a p b ∙ ap (bit_xor a) (xor_comm p b) ∙ sym (xor_assoc a b p)

xor_cancel : (a b p : ℕ) → bit_xor (bit_xor a p) (bit_xor b p) ≡ bit_xor a b
xor_cancel a b p =
    sym (xor_assoc (bit_xor a p) b p)
    ∙ ap (λ t. bit_xor t p) (regroup a b p)
    ∙ xor_twice (bit_xor a b) p

divide_bit-xor : (a b : ℕ) → divide_bit (bit_xor a b) ≡ bit_xor (divide_bit a) (divide_bit b)
unfolding divide_bit
divide_bit-xor a b = ground (
  arith,
  xor-half a b,
  xor-parity a b,
  regroup (a / 2) (b / 2) polynomial,
  xor_assoc (a / 2) (b / 2) polynomial,
  xor_cancel (a / 2) (b / 2) polynomial,
)

divide_bits-xor :
    (n a b : ℕ) → divide_bits n (bit_xor a b) ≡ bit_xor (divide_bits n a) (divide_bits n b)
unfolding divide_bits
divide_bits-xor zero a b = refl
divide_bits-xor (suc n) a b =
    ap (divide_bits n) (divide_bit-xor a b) ∙ divide_bits-xor n (divide_bit a) (divide_bit b)

divide_bit-double : (c m : ℕ) → c ≡ 2 * m → divide_bit c ≡ m
unfolding divide_bit
divide_bit-double c m e = ground arith

divide_bits-shift : (n q : ℕ) → divide_bits n (q * 2 ^ n) ≡ q
unfolding divide_bits divide_bit
divide_bits-shift zero q = omega arith
divide_bits-shift (suc n) q =
    ap (divide_bits n) (
      divide_bit-double (q * 2 ^ suc n) (q * 2 ^ n)
        (omega (arith, ap (λ (t : ℕ). q * t) (pow-suc 2 n))))
    ∙ divide_bits-shift n q

-- One table look-up is eight steps of the division.
update_lem : (c p : ℕ) → p < 256 → update c p ≡ divide_bits 8 (bit_xor c p)
unfolding update
update_lem c p h =
    let x = bit_xor c p in
    let entry : get_or crc32_tab (bit_and x 0xFF) 0 ≡ divide_bits 8 (x % 256) =
      ap (λ k. get_or crc32_tab k 0) (and_byte x) ∙ table_entry (x % 256) (omega arith) in
    let split : x ≡ bit_xor (x / 256 * 2 ^ 8) (x % 256) =
      omega (arith, xor_fields 8 (x / 256) (x % 256) (omega arith)) in
    ap₂ bit_xor entry (sym (xor-high c p h))
    ∙ xor_comm (divide_bits 8 (x % 256)) (x / 256)
    ∙ ap (λ q. bit_xor q (divide_bits 8 (x % 256))) (sym (divide_bits-shift 8 (x / 256)))
    ∙ sym (divide_bits-xor 8 (x / 256 * 2 ^ 8) (x % 256))
    ∙ ap (divide_bits 8) (sym split)

crc_loop-divide_bytes : (buf : List ℕ) (c : ℕ) → AllBytes buf → crc_loop c buf ≡ divide_bytes c buf
unfolding crc_loop divide_bytes
crc_loop-divide_bytes [] c h = refl
crc_loop-divide_bytes (p ∷ buf) c h =
    ap (λ k. crc_loop k buf) (update_lem c p h.0) ∙ crc_loop-divide_bytes buf _ h.1

-- The table-driven checksum of a sequence of bytes is its checksum by bitwise division.
pub crc32-reference : (crc : ℕ) (buf : List ℕ) → AllBytes buf → crc32 crc buf ≡ reference crc buf
unfolding crc32 reference
crc32-reference crc buf h = ap (λ t. bit_xor t all_ones) (crc_loop-divide_bytes buf _ h)

crc_loop-append : (xs ys : List ℕ) (c : ℕ) → crc_loop c (xs ++ ys) ≡ crc_loop (crc_loop c xs) ys
unfolding crc_loop
crc_loop-append [] ys c = refl
crc_loop-append (x ∷ xs) ys c = crc_loop-append xs ys (update c x)

-- The checksum of no bytes is the start value.
pub crc32-nil : (crc : ℕ) → crc32 crc [] ≡ crc
unfolding crc32 crc_loop
crc32-nil crc = xor_twice crc all_ones
