-- ===== src/Base/Int.antt =====
-- C++ `int`: 32-bit values as integers, and the conversion from a 64-bit register.
use Prim.Native.Nat.{ℕ, ◌-◌, ◌%◌, ◌^◌}
use bmboot.Base.Tests.{ltb, if◌then◌else◌}

-- `negsuc n` is -(n + 1).
pub data ℤ : Type 0 where
  pos : ℕ → ℤ
  negsuc : ℕ → ℤ

-- The value of `int x = reg` for an unsigned 64-bit register: the low 32 bits, read as signed.
abbrev pub to_int : ℕ → ℤ
to_int r = let w = r % 2 ^ 32 in if ltb w (2 ^ 31) then pos w else negsuc (2 ^ 32 - 1 - w)
