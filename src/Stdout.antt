-- ===== src/Stdout.antt =====
-- The executor's standard output, a circular buffer in the IPC block: `writeToStdout` of
-- src/executor/monitor/smc_handlers.cpp and `Domain::getchar` of src/manager/domain.cpp.
-- `size_t` does not wrap here: 1024 divides 2 ^ 64.
pub mod Contents
pub mod Refine
pub mod Interleaving
use bmboot.Base.{
  ℕ, ◌+◌, ◌%◌, Bool, true, false, if◌then◌else◌, ltb, leb, ◌==◌, Option, none, some, List, [], ◌∷◌,
  length, get_or, set, ℤ, pos, negsuc, not,
}
use bmboot.Ipc.{IpcBlock, stdout_buf_size}

-- The producer: one round of the `while` loop. `none` where the buffer is full.
unfoldable pub put_byte : IpcBlock → ℕ → Option IpcBlock
put_byte b x =
    let out = b.to_manager in
    let wrpos_new = (out.stdout_wrpos + 1) % stdout_buf_size in
    if wrpos_new == b.to_executor.stdout_rdpos
    then none
    else some (record b {
      to_manager = record out {
        stdout_buf = set out.stdout_buf out.stdout_wrpos x;
        stdout_wrpos = wrpos_new;
      };
    })

-- The `while` loop. On a full buffer it stops, and counts the bytes that are left as written.
unfoldable pub write_loop : IpcBlock → List ℕ → ℕ → IpcBlock × ℕ
write_loop b [] wrote = (b, wrote)
write_loop b (x ∷ xs) wrote = elim (put_byte b x) [
  | none ↦ (b, wrote + length (x ∷ xs))
  | some b' ↦ write_loop b' xs (wrote + 1)
]

-- "unexpected dom_stdout_wrpos, reset to 0\n"
abbrev pub reset_message : List ℕ
reset_message =
    117 ∷ 110 ∷ 101 ∷ 120 ∷ 112 ∷ 101 ∷ 99 ∷ 116 ∷ 101 ∷ 100 ∷ 32 ∷ 100 ∷ 111 ∷ 109 ∷ 95 ∷ 115 ∷ 116
    ∷ 100 ∷ 111 ∷ 117 ∷ 116 ∷ 95 ∷ 119 ∷ 114 ∷ 112 ∷ 111 ∷ 115 ∷ 44 ∷ 32 ∷ 114 ∷ 101 ∷ 115 ∷ 101
    ∷ 116 ∷ 32 ∷ 116 ∷ 111 ∷ 32 ∷ 48 ∷ 10 ∷ []

abbrev pub reset_wrpos : IpcBlock → IpcBlock
reset_wrpos b = record b { to_manager = record b.to_manager { stdout_wrpos = 0 } }

-- `writeToStdout`. The nested call finds a position in range, so it is the loop alone.
unfoldable pub write_to_stdout : IpcBlock → List ℕ → IpcBlock × ℕ
write_to_stdout b xs =
    let fixed =
      if leb stdout_buf_size b.to_manager.stdout_wrpos
      then (write_loop (reset_wrpos b) reset_message 0).0
      else b in
    write_loop fixed xs 0

abbrev pub set_rdpos : IpcBlock → ℕ → IpcBlock
set_rdpos b r = record b { to_executor = record b.to_executor { stdout_rdpos = r } }

-- The consumer, at a read position in range.
read_char : IpcBlock → ℤ × IpcBlock
read_char b =
    let r = b.to_executor.stdout_rdpos in
    if not (r == b.to_manager.stdout_wrpos)
    then (pos (get_or b.to_manager.stdout_buf r 0), set_rdpos b ((r + 1) % stdout_buf_size))
    else (negsuc 0, b)

-- `Domain::getchar`: the next byte, or -1.
unfoldable pub getchar : IpcBlock → ℤ × IpcBlock
unfolding read_char
getchar b =
    if leb stdout_buf_size b.to_executor.stdout_rdpos
    then read_char (set_rdpos b 0)
    else read_char b
