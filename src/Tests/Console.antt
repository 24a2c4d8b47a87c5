-- ===== src/Tests/Console.antt =====
-- A payload that writes a line and a half while a console reads.
use mathlib.Core.List.{map}
use bmboot.Base.{ℕ, ◌≡◌, arith, refl, set, List, [], ◌∷◌, ◌++◌}
use bmboot.Ipc.{IpcBlock, zeroed}
use bmboot.Stdout.Contents.{contents}
use bmboot.Manager.Console.{run_console}
use bmboot.Manager.Console.Text.{text, flatten, AllLines}
use bmboot.Manager.Console.Prints.{writes, queued, start, run_console_lem}
use bmboot.Manager.Console.Drains.{silent, run_console-silent}
use bmboot.Tests.Stdout.{zeroed-IsValid}

abbrev spoken : List (List ℕ)
spoken = (104 ∷ 105 ∷ 10 ∷ []) ∷ [] ∷ (33 ∷ []) ∷ []

run_console_lem_example :
    let s = run_console (map writes spoken) zeroed in
    (flatten s.printed ++ text (contents s.block)
      ≡ text (contents zeroed ++ queued spoken (start zeroed)))
    × AllLines s.printed
run_console_lem_example = run_console_lem spoken zeroed zeroed-IsValid tt (
  (λ e. omega arith, (λ e. omega arith, (λ e. omega arith, tt))),
  (tt, ((λ e. omega arith, tt), tt)),
)

-- A block in which one byte waits.
abbrev waiting : IpcBlock
waiting = record zeroed {
  to_manager = record zeroed.to_manager {
    stdout_buf = set zeroed.to_manager.stdout_buf 0 104;
    stdout_wrpos = 1;
  };
}

run_console-silent_example :
    let s = run_console (map writes (silent 2)) waiting in
    (contents s.block ≡ []) × (flatten s.printed ≡ 104 ∷ [])
run_console-silent_example =
    run_console-silent 2 waiting
      (record { storage = refl; wrpos_in = omega arith; rdpos_in = omega arith })
      (λ e. omega arith, tt) (omega arith)
