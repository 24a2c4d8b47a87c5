-- ===== src/Monitor/Bytes.antt =====
-- Bytes in a row, for src/executor/monitor/smc_handlers.cpp and src/manager/coredump_linux.cpp.
use bmboot.Base.{ℕ, zero, suc, ◌+◌, ◌≡◌, refl, ap, length}
use bmboot.Monitor.{read_bytes}

pub length-read_bytes : (memory : ℕ → ℕ) (n a : ℕ) → length (read_bytes memory a n) ≡ n
length-read_bytes memory zero a = refl
length-read_bytes memory (suc n) a = ap suc (length-read_bytes memory n (a + 1))
