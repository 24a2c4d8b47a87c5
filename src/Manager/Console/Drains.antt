-- ===== src/Manager/Console/Drains.antt =====
-- That the console of src/manager/domain_helpers.cpp prints all of what a payload has written, once the
-- payload is silent.
use mathlib.Core.List.{map, append-nil}
use bmboot.Base.{
  ℕ, zero, suc, ◌-◌, ◌≤◌, ◌≡◌, refl, ap, ◌∙◌, sym, arith, if◌then◌else◌, if_ind, ltb, List, [],
  ◌++◌, length, take-nil, replicate,
}
use bmboot.Ipc.{IpcBlock}
use bmboot.Stdout.Contents.{contents, IsValid}
use bmboot.Stdout.Refine.{capacity, write_to_stdout_lem}
use bmboot.Manager.Console.{Console, flush, console_round, console_rounds, run_console}
use bmboot.Manager.Console.Text.{text, flatten, NoZero, AllNoZero}
use bmboot.Manager.Console.Steps.{Between, at_block, console_round-Round}
use bmboot.Manager.Console.Prints.{
  writes, queued, start, write-Between, nothing_left, run_console_lem,
}

abbrev pub silent : ℕ → List (List ℕ)
silent n = replicate n []

silent-AllNoZero : (n : ℕ) → AllNoZero (silent n)
silent-AllNoZero zero = tt
silent-AllNoZero (suc n) = (tt, silent-AllNoZero n)

queued-silent : (n : ℕ) (s : Console) → queued (silent n) s ≡ []
queued-silent zero s = refl
queued-silent (suc n) s =
    ap (λ t. t ++ queued (silent n) (console_round (at_block s (writes [] s.block))))
      (take-nil (capacity - length (contents s.block)))
    ∙ queued-silent n (console_round (at_block s (writes [] s.block)))

-- Each round takes one byte, while there is one.
fewer_each :
    (n : ℕ) (s : Console)
    → Between s
    → length (contents (console_rounds (map writes (silent n)) s).block)
      ≡ length (contents s.block) - n
unfolding console_rounds
fewer_each zero s k = omega arith
fewer_each (suc n) s k =
    let (count, bytes, valid, framed) = write_to_stdout_lem s.block [] k.valid in
    let r = console_round-Round (at_block s (writes [] s.block)) (write-Between [] s tt k) in
    let same : contents (writes [] s.block) ≡ contents s.block =
      bytes
      ∙ ap (λ t. contents s.block ++ t) (take-nil (capacity - length (contents s.block)))
      ∙ append-nil (contents s.block) in
    omega (
      arith,
      fewer_each n (console_round (at_block s (writes [] s.block))) r.between,
      r.fewer,
      ap (λ (t : List ℕ). length t) same,
    )

flush-block : (s : Console) → (if ltb 0 (length s.accum) then flush s else s).block ≡ s.block
unfolding flush
flush-block s =
    if_ind (λ (k : Console). k.block ≡ s.block) (ltb 0 (length s.accum)) (λ _. refl) (λ _. refl)

-- Where the positions of the output are in range and no byte that waits is a zero: a console that
-- turns at least once for each byte that waits, while the payload writes nothing, leaves no byte
-- behind. What it printed, line after line, is all that waited, without the newlines.
pub run_console-silent :
    (n : ℕ) (b : IpcBlock)
    → IsValid b
    → NoZero (contents b)
    → length (contents b) ≤ n
    → let s = run_console (map writes (silent n)) b in
      (contents s.block ≡ []) × (flatten s.printed ≡ text (contents b))
unfolding run_console
run_console-silent n b v p enough =
    let s' = console_rounds (map writes (silent n)) (start b) in
    let s = run_console (map writes (silent n)) b in
    let begin : Between (start b) = record {
      valid = v;
      waiting = p;
      holds = record { no_zero = tt; short = omega arith; no_newline = refl; lines = tt };
    } in
    let empty : contents s.block ≡ [] =
      ap contents (flush-block s')
      ∙ nothing_left (contents s'.block) (omega (arith, fewer_each n (start b) begin)) in
    (
      empty,
      sym (append-nil (flatten s.printed))
          ∙ ap (λ t. flatten s.printed ++ text t) (sym empty)
          ∙ (run_console_lem (silent n) b v p (silent-AllNoZero n)).0
          ∙ ap (λ t. text (contents b ++ t)) (queued-silent n (start b))
          ∙ ap text (append-nil (contents b)),
    )
