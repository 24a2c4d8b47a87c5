-- ===== src/Monitor/Validate.antt =====
-- `validatePayload` of src/executor/monitor/monitor.cpp. The header's `magic` is at offset 8,
-- `abi_major` at 12 and `abi_minor` at 13.
use bmboot.Base.{ℕ, ◌+◌, ◌≤◌, ◌≡◌, ◌≢◌, ◌↔◌, arith, not, ◌||◌, if◌then◌else◌, ◌==◌, ltb}
use bmboot.Crc.{crc32}
use bmboot.Ipc.{Response, crc_ok, crc_mismatched, image_malformed, abi_incompatible}
use bmboot.Monitor.{read_bytes, read_word}

abbrev pub abi_magic_number : ℕ
abi_magic_number = 0x6f626d42

abbrev pub abi_major : ℕ
abi_major = 0x02

abbrev pub abi_minor : ℕ
abi_minor = 0x00

unfoldable pub validate_payload : (ℕ → ℕ) → ℕ → ℕ → ℕ → Response
validate_payload memory image image_size crc_expected =
    if not (crc32 0 (read_bytes memory image image_size) == crc_expected)
    then crc_mismatched
    else if not (read_word memory (image + 8) == abi_magic_number)
    then image_malformed
    else if not (memory (image + 12) == abi_major) || ltb abi_minor (memory (image + 13))
    then abi_incompatible
    else crc_ok

-- What makes an image acceptable.
pub record IsPayload (memory : ℕ → ℕ) (image size crc : ℕ) : Type 0 where
  pub checksum : crc32 0 (read_bytes memory image size) ≡ crc
  pub magic : read_word memory (image + 8) ≡ abi_magic_number
  pub same_major : memory (image + 12) ≡ abi_major
  pub minor_known : memory (image + 13) ≤ abi_minor

-- An image is accepted exactly when its checksum, its magic number and its ABI version are right;
-- a wrong checksum is reported before a wrong magic number, and that before a wrong version.
pub validate_payload_lem :
    (memory : ℕ → ℕ) (image size crc : ℕ)
    → ((validate_payload memory image size crc ≡ crc_ok) ↔ IsPayload memory image size crc)
      × ((validate_payload memory image size crc ≡ crc_mismatched)
          ↔ (crc32 0 (read_bytes memory image size) ≢ crc))
      × ((validate_payload memory image size crc ≡ image_malformed) ↔ (
          (crc32 0 (read_bytes memory image size) ≡ crc)
          × (read_word memory (image + 8) ≢ abi_magic_number)))
unfolding validate_payload
validate_payload_lem memory image size crc = (
  (λ h. ground arith, λ p. ground arith),
  (λ h. ground arith, λ p. ground arith),
  (λ h. ground arith, λ p. ground arith),
)
