-- ===== src/Crc.antt =====
-- src/utility/crc32.c: the table-driven CRC-32, on words of 32 bits.
mod Table
pub mod Xor
pub mod Reference
pub use Table.{crc32_tab}
use bmboot.Base.{ℕ, ◌/◌, ◌^◌, List, [], ◌∷◌, get_or, bit_and, bit_xor}

-- `~0U`
abbrev pub all_ones : ℕ
all_ones = 0xFFFFFFFF

-- One round of the loop: `crc32_tab[(crc ^ *p++) & 0xFF] ^ (crc >> 8)`.
unfoldable pub update : ℕ → ℕ → ℕ
update crc p = bit_xor (get_or crc32_tab (bit_and (bit_xor crc p) 0xFF) 0) (crc / 2 ^ 8)

pub crc_loop : ℕ → List ℕ → ℕ
crc_loop crc [] = crc
crc_loop crc (p ∷ buf) = crc_loop (update crc p) buf

unfoldable pub crc32 : ℕ → List ℕ → ℕ
unfolding crc_loop
crc32 crc buf = bit_xor (crc_loop (bit_xor crc all_ones) buf) all_ones
