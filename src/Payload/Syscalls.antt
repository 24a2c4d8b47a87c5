-- ===== src/Payload/Syscalls.antt =====
-- src/executor/payload/syscalls.cpp. The constants of the C library's headers are parameters.
pub mod Write
use bmboot.Base.{
  ℕ, ◌+◌, ◌-◌, ◌^◌, ◌<◌, ◌≡◌, refl, ap, ◌∙◌, arith, if◌then◌else◌, leb, Bool, true, false, Option,
  none, some, ◌++◌, take, length, ℤ, pos, negsuc,
}
use bmboot.Bus.{Bus}
use bmboot.Sys.{SysBus}
use bmboot.Monitor.{read_bytes}
use bmboot.Stdout.Contents.{contents, IsValid}
use bmboot.Stdout.Refine.{capacity, write_to_stdout_lem}
use bmboot.Payload.{Core, to_reg}
use bmboot.Payload.Runtime.{write_to_stdout}

pub record Headers : Type 0 where
  pub ebadf : ℕ
  pub eio : ℕ
  pub s_ifchr : ℕ

-- `fd >= STDIN_FILENO && fd <= STDERR_FILENO`
abbrev pub is_standard : ℤ → Bool
is_standard (pos fd) = leb fd 2
is_standard (negsuc n) = false

abbrev pub is_stdin : ℤ → Bool
is_stdin (pos fd) = leb fd 0
is_stdin (negsuc n) = false

module _ (h : Headers) where
  -- The calls give `errno` and their result; `fstat` also the mode.
  pub isatty : ℕ → ℤ → ℕ × ℤ
  isatty errno fd = if is_standard fd then (errno, pos 1) else (h.ebadf, pos 0)

  pub close : ℕ → ℤ → ℕ × ℤ
  close errno fd = if is_standard fd then (errno, pos 0) else (h.ebadf, negsuc 0)

  pub lseek : ℕ → ℤ → ℤ → ℤ → ℕ × ℤ
  lseek errno fd offset whence = (h.ebadf, negsuc 0)

  pub read : ℕ → ℤ → ℕ → ℤ → ℕ × ℤ
  read errno fd buffer len = if is_stdin fd then (errno, pos h.eio) else (h.ebadf, negsuc 0)

  pub fstat : ℕ → ℤ → ℕ → ℕ × ℤ × ℕ
  fstat errno fd mode = if is_standard fd then (errno, pos 0, h.s_ifchr) else (h.ebadf, pos 0, mode)

-- The length becomes a `size_t` of 64 bits.
abbrev pub to_size : ℤ → ℕ
to_size (pos n) = n
to_size (negsuc n) = 2 ^ 64 - 1 - n

pub write : {b : Bus} {y : SysBus} → Core b y → ℤ → ℕ → ℤ → Option (Core b y × ℤ)
write c fd buffer len = write_to_stdout c buffer (to_size len)
