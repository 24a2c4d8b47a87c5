-- ===== src/Manager/Console/Prints.antt =====
-- What the console of src/manager/domain_helpers.cpp prints of what a payload writes.
use mathlib.Core.List.{map, append-nil, append_assoc}
use bmboot.Base.{
  ℕ, ◌-◌, ◌≡◌, refl, ap, sym, subst, ◌∙◌, arith, Bool-cases, inl, inr, if◌then◌else◌, ltb, List, [],
  ◌∷◌, ◌++◌, length, take,
}
use bmboot.Ipc.{IpcBlock}
use bmboot.Stdout.{write_to_stdout}
use bmboot.Stdout.Contents.{contents, IsValid}
use bmboot.Stdout.Refine.{capacity, write_to_stdout_lem}
use bmboot.Manager.Console.{Console, flush, console_round, console_rounds, run_console}
use bmboot.Manager.Console.Text.{
  text, flatten, NoZero, AllLines, AllNoZero, text-append, NoZero-append, NoZero-take,
}
use bmboot.Manager.Console.Steps.{
  Between, shown, total, at_block, accum-IsLine, flush-shown, flush-Holds, console_round-Round,
}

-- The payload writes before each round.
abbrev pub writes : List ℕ → IpcBlock → IpcBlock
writes xs b = (write_to_stdout b xs).0

-- The bytes that the buffer had room for, over the rounds.
abbrev pub queued : List (List ℕ) → Console → List ℕ
queued [] s = []
queued (xs ∷ rounds) s =
    take (capacity - length (contents s.block)) xs
    ++ queued rounds (console_round (record s { block = writes xs s.block }))

pub write-Between :
    (xs : List ℕ) (s : Console) → NoZero xs → Between s → Between (at_block s (writes xs s.block))
write-Between xs s p k =
    let (count, bytes, valid, framed) = write_to_stdout_lem s.block xs k.valid in
    record {
      valid = valid;
      waiting = subst NoZero (sym bytes) (
          NoZero-append (contents s.block) _ k.waiting
            (NoZero-take (capacity - length (contents s.block)) xs p));
      holds = record {
        no_zero = k.holds.no_zero;
        short = k.holds.short;
        no_newline = k.holds.no_newline;
        lines = k.holds.lines;
      };
    }

-- A write and a round.
write-total :
    (xs : List ℕ) (s : Console)
    → NoZero xs
    → Between s
    → let s' = console_round (at_block s (writes xs s.block)) in
      Between s' × (total s' ≡ total s ++ text (take (capacity - length (contents s.block)) xs))
write-total xs s p k =
    let (count, bytes, valid, framed) = write_to_stdout_lem s.block xs k.valid in
    let r = console_round-Round (at_block s (writes xs s.block)) (write-Between xs s p k) in
    (
      r.between,
      r.nothing_lost
          ∙ ap (λ t. shown s ++ text t) bytes
          ∙ ap (λ t. shown s ++ t) (text-append (contents s.block) _)
          ∙ sym (append_assoc (shown s) (text (contents s.block)) _),
    )

console_rounds-total :
    (rounds : List (List ℕ)) (s : Console)
    → AllNoZero rounds
    → Between s
    → let s' = console_rounds (map writes rounds) s in
      Between s' × (total s' ≡ total s ++ text (queued rounds s))
unfolding console_rounds
console_rounds-total [] s p k = (k, sym (append-nil (total s)))
console_rounds-total (xs ∷ rounds) s (p, rest) k =
    let (next, once) = write-total xs s p k in
    let (between, all) =
      console_rounds-total rounds (console_round (at_block s (writes xs s.block))) rest next in
    (
      between,
      all
          ∙ ap (λ t. t ++ text (queued rounds (console_round (at_block s (writes xs s.block)))))
              once
          ∙ append_assoc (total s) _ _
          ∙ ap (λ t. total s ++ t)
              (sym (text-append (take (capacity - length (contents s.block)) xs) _)),
    )

-- The console before its first round.
abbrev pub start : IpcBlock → Console
start b = record { block = b; accum = []; printed = [] }

pub nothing_left : (xs : List ℕ) → length xs ≡ 0 → xs ≡ []
nothing_left [] e = refl
nothing_left (x ∷ xs) e = absurd (omega arith)

pub finished :
    (s : Console)
    → Between s
    → let s' = if ltb 0 (length s.accum) then flush s else s in
      (flatten s'.printed ++ text (contents s'.block) ≡ total s) × AllLines s'.printed
unfolding flush
finished s k = elim (Bool-cases (ltb 0 (length s.accum))) [
  | inl more ↦
      rw (more, if◌then◌else◌)
        (
          ap (λ t. t ++ text (contents s.block))
              (sym (append-nil (flatten (flush s).printed))
                ∙ flush-shown s k.holds.no_zero (accum-IsLine s k.holds) k.holds.lines),
          (flush-Holds s k.holds.no_zero (accum-IsLine s k.holds) k.holds.lines).lines,
        )
  | inr over ↦
      rw (over, if◌then◌else◌)
        (
          ap (λ t. t ++ text (contents s.block))
              (sym (
                ap (λ t. flatten s.printed ++ t) (nothing_left s.accum (ground arith))
                ∙ append-nil _)),
          k.holds.lines,
        )
]

-- A console reads a domain whose output has its positions in range, while the payload writes before
-- each round; no byte that waits or is written is a zero. What was printed, line after line, and
-- then what still waits, without the newlines, is what waited at first and then all that was queued
-- since, without the newlines. No line has more than 160 bytes, or a newline in it.
pub run_console_lem :
    (rounds : List (List ℕ)) (b : IpcBlock)
    → IsValid b
    → NoZero (contents b)
    → AllNoZero rounds
    → let s = run_console (map writes rounds) b in
      (flatten s.printed ++ text (contents s.block) ≡ text (contents b ++ queued rounds (start b)))
      × AllLines s.printed
unfolding run_console
run_console_lem rounds b v p q =
    let (between, all) = console_rounds-total rounds (start b) q (record {
      valid = v;
      waiting = p;
      holds = record { no_zero = tt; short = omega arith; no_newline = refl; lines = tt };
    }) in
    let (same, lines) = finished (console_rounds (map writes rounds) (start b)) between in
    (same ∙ all ∙ sym (text-append (contents b) (queued rounds (start b))), lines)
