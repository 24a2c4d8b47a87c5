-- ===== src/Payload/Syscalls/Write.antt =====
-- What `_write` of src/executor/payload/syscalls.cpp brings to the manager.
use bmboot.Base.{ℕ, ◌-◌, ◌^◌, ◌<◌, ◌≡◌, arith, some, ◌++◌, take, length, ℤ, pos}
use bmboot.Bus.{Bus}
use bmboot.Sys.{SysBus}
use bmboot.Monitor.{read_bytes}
use bmboot.Monitor.Bytes.{length-read_bytes}
use bmboot.Stdout.{write_to_stdout}
use bmboot.Stdout.Contents.{contents, IsValid}
use bmboot.Stdout.Refine.{capacity, write_to_stdout_lem}
use bmboot.Payload.{Core, set_executor}
use bmboot.Payload.Runtime.Calls.{write_to_stdout_call}
use bmboot.Payload.Syscalls.{write}

module _ {b : Bus} {y : SysBus} (c : Core b y) where
  -- Where the positions of the output are in range and the length is below 2 ^ 31: `_write` returns
  -- the length, and of the payload's bytes it queues as many as there is room for, in order, for
  -- the manager to read; the positions stay in range, and the manager's half of the block as it
  -- was.
  pub write_lem :
      (fd : ℤ) (buffer len : ℕ)
      → IsValid c.executor.block
      → len < 2 ^ 31
      → let xs = read_bytes c.executor.memory buffer len in
        (c' : Core b y) × (write c fd buffer (pos len) ≡ some (c', pos len))
        × (contents c'.executor.block
            ≡ contents c.executor.block ++ take (capacity - length (contents c.executor.block)) xs)
        × IsValid c'.executor.block
        × (c'.executor.block.to_executor ≡ c.executor.block.to_executor)
  unfolding write
  write_lem fd buffer len v short =
      let xs = read_bytes c.executor.memory buffer len in
      let (count, bytes, valid, framed) = write_to_stdout_lem c.executor.block xs v in
      (
        set_executor c (record c.executor { block = (write_to_stdout c.executor.block xs).0 }),
        write_to_stdout_call c buffer len
            (omega (arith, count, length-read_bytes c.executor.memory len buffer)) short,
        bytes,
        valid,
        framed,
      )
