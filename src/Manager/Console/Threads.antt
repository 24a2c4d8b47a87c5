-- ===== src/Manager/Console/Threads.antt =====
-- `startConsoleThread`, `runConsoleUntilInterrupted` and the handler of SIGINT of
-- src/manager/domain_helpers.cpp.
use bmboot.Base.{◌≡◌, ap, arith, Bool, true, false, if◌then◌else◌, ◌==◌, List, []}
use bmboot.Ipc.{IpcBlock}
use bmboot.Manager.{Cpu, get_cpu_index}
use bmboot.Manager.Console.{Console, run_console}

-- `console_interrupted`, and which of `console_threads` are joinable.
record Threads : Type 0 where
  interrupted : Cpu → Bool
  joinable : Cpu → Bool

abbrev set_flag : (Cpu → Bool) → Cpu → Bool → Cpu → Bool
set_flag flags d v k = if get_cpu_index d == get_cpu_index k then v else flags k

-- The signal handler sets all of the flags, and nothing clears them but the function below.
interrupt : Threads → Threads
interrupt t = record t { interrupted = λ d. true }

start_console_thread : Cpu → Threads → Threads
start_console_thread d t =
    if t.joinable d then t else record t { joinable = set_flag t.joinable d true }

-- Up to the join.
begin_console : Cpu → Threads → Threads
unfolding start_console_thread
begin_console d t =
    start_console_thread d (record t { interrupted = set_flag t.interrupted d false })

-- What the thread of a domain does that finds the flags as they are, and may do `rounds`.
abbrev thread_console : Cpu → Threads → List (IpcBlock → IpcBlock) → IpcBlock → Console
thread_console d t rounds b = run_console (if t.interrupted d then [] else rounds) b

-- Once a console was interrupted, a thread that `startConsoleThread` starts reads nothing, while
-- `runConsoleUntilInterrupted` clears the flag of its domain.
begin_console-interrupted :
    (d : Cpu) (t : Threads) (rounds : List (IpcBlock → IpcBlock)) (b : IpcBlock)
    → (thread_console d (start_console_thread d (interrupt t)) rounds b ≡ run_console [] b)
      × (thread_console d (begin_console d (interrupt t)) rounds b ≡ run_console rounds b)
unfolding start_console_thread begin_console interrupt
begin_console-interrupted d t rounds b = (
  ap (λ v. run_console (if v then [] else rounds) b) started,
  ap (λ v. run_console (if v then [] else rounds) b) begun,
)
  where
    started : (start_console_thread d (interrupt t)).interrupted d ≡ true
    started = ground arith

    begun : (begin_console d (interrupt t)).interrupted d ≡ false
    begun = ground arith
