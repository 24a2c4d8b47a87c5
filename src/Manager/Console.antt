-- ===== src/Manager/Console.antt =====
-- `runConsole` of src/manager/domain_helpers.cpp. The name of the domain and the time before each
-- line are left out.
pub mod Text
pub mod Steps
pub mod Prints
pub mod Drains
pub mod Threads
use bmboot.Base.{
  ℕ, ◌<◌, Bool, if◌then◌else◌, ◌==◌, ltb, leb, List, [], ◌∷◌, ◌++◌, length, ℤ, pos, negsuc,
}
use bmboot.Ipc.{IpcBlock}
use bmboot.Stdout.{getchar}

abbrev pub max_line_length : ℕ
max_line_length = 160

-- `stdout_accum`, the lines that were printed, and the block through which the domain is read.
pub record Console : Type 0 where
  pub block : IpcBlock
  pub accum : List ℕ
  pub printed : List (List ℕ)

-- What `%s` prints of a string's bytes: those before the first zero.
unfoldable pub c_str : List ℕ → List ℕ
c_str [] = []
c_str (c ∷ cs) = let rest = c ∷ c_str cs in if c == 0 then [] else rest

unfoldable pub flush : Console → Console
unfolding c_str
flush s = record s { accum = []; printed = s.printed ++ (c_str s.accum ∷ []) }

-- A character that is not a newline.
unfoldable pub append_char : Console → ℕ → Console
unfolding flush
append_char s c =
    let s' = record s { accum = s.accum ++ (c ∷ []) } in
    if leb max_line_length (length s'.accum) then flush s' else s'

unfoldable pub take_char : Console → ℤ → Console
unfolding flush append_char
take_char s (negsuc n) = s
take_char s (pos c) = if c == 10 then flush s else append_char s c

-- One round of the `while` loop; where there is no character, the thread sleeps.
unfoldable pub console_round : Console → Console
console_round s = let (c, block) = getchar s.block in take_char (record s { block = block }) c

-- The rounds until the console is interrupted: for each, what the rest of the machine does before it.
unfoldable pub console_rounds : List (IpcBlock → IpcBlock) → Console → Console
console_rounds [] s = s
console_rounds (elapse ∷ rounds) s =
    console_rounds rounds (console_round (record s { block = elapse s.block }))

unfoldable pub run_console : List (IpcBlock → IpcBlock) → IpcBlock → Console
run_console rounds block =
    let s = console_rounds rounds (record { block = block; accum = []; printed = [] }) in
    if ltb 0 (length s.accum) then flush s else s
