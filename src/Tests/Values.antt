-- ===== src/Tests/Values.antt =====
-- Names, checksums and memory.
use bmboot.Base.{ℕ, ◌≡◌, ◌∷◌, [], refl, arith, List, some}
use bmboot.Crc.{crc32}
use bmboot.Crc.Reference.{crc32-reference, reference, AllBytes}
use bmboot.Manager.Memory.{read_bytes-store_bytes, store_bytes}
use bmboot.Monitor.{read_bytes}
use bmboot.Types.Names.{parse_domain_index, index_to_string, parse_domain_index-index_to_string}
use bmboot.Types.{cpu3}

-- "123456789"
abbrev digits : List ℕ
digits = 49 ∷ 50 ∷ 51 ∷ 52 ∷ 53 ∷ 54 ∷ 55 ∷ 56 ∷ 57 ∷ []

digits-AllBytes : AllBytes digits
digits-AllBytes = ground arith

crc32-reference_example : crc32 0 digits ≡ reference 0 digits
crc32-reference_example = crc32-reference 0 digits digits-AllBytes

-- The check value of CRC-32/ISO-HDLC.
crc32_of_digits : crc32 0 digits ≡ 0xCBF43926
unfolding crc32 bmboot.Crc.update
crc32_of_digits = refl

parse_domain_index-index_to_string_example :
    (parse_domain_index "cpu3" ≡ some cpu3 → "cpu3" ≡ index_to_string cpu3)
    × ("cpu3" ≡ index_to_string cpu3 → parse_domain_index "cpu3" ≡ some cpu3)
parse_domain_index-index_to_string_example =
    parse_domain_index-index_to_string "cpu3" cpu3 (λ e. cc)

read_bytes-store_bytes_example : read_bytes (store_bytes (λ a. 0) 0x2000 digits) 0x2000 9 ≡ digits
read_bytes-store_bytes_example = read_bytes-store_bytes (λ a. 0) 0x2000 digits
