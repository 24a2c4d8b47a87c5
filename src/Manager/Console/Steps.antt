-- ===== src/Manager/Console/Steps.antt =====
-- One round of the console of src/manager/domain_helpers.cpp.
use mathlib.Core.List.{append-nil, append_assoc}
use bmboot.Base.{
  ℕ, ◌-◌, ◌<◌, ◌≡◌, ◌≢◌, refl, ap, ap₂, sym, subst, ◌∙◌, arith, false, Bool-cases, inl, inr,
  if◌then◌else◌, ◌==◌, leb, List, [], ◌∷◌, ◌++◌, length, length-append, ℤ, pos, negsuc,
}
use bmboot.Ipc.{IpcBlock}
use bmboot.Stdout.{getchar}
use bmboot.Stdout.Contents.{contents, IsValid}
use bmboot.Stdout.Refine.{getchar-Gets, Gets}
use bmboot.Manager.Console.{
  Console, max_line_length, c_str, flush, append_char, take_char, console_round,
}
use bmboot.Manager.Console.Text.{
  text, flatten, NoZero, IsLine, AllLines, text-append, flatten-snoc, AllLines-snoc, NoZero-append,
  c_str-NoZero,
}

-- The characters that wait in the console, and the lines that it printed.
pub record Holds (s : Console) : Type 0 where
  pub no_zero : NoZero s.accum
  pub short : length s.accum < max_line_length
  pub no_newline : text s.accum ≡ s.accum
  pub lines : AllLines s.printed

-- The bytes that were taken, but the newlines.
abbrev pub shown : Console → List ℕ
shown s = flatten s.printed ++ s.accum

-- The step from `s` to `s'` takes the bytes `xs`.
pub record Took (s s' : Console) (xs : List ℕ) : Type 0 where
  pub holds : Holds s'
  pub same_block : s'.block ≡ s.block
  pub all_shown : shown s' ≡ shown s ++ text xs

-- A flushed buffer of at most the longest line.
module _ (s : Console) (p : NoZero s.accum) (i : IsLine s.accum) (a : AllLines s.printed) where
  pub flush-shown : shown (flush s) ≡ shown s
  unfolding flush
  flush-shown =
      append-nil _
      ∙ flatten-snoc s.printed (c_str s.accum)
      ∙ ap (λ t. flatten s.printed ++ t) (c_str-NoZero s.accum p)

  pub flush-Holds : Holds (flush s)
  unfolding flush
  flush-Holds = record {
    no_zero = tt;
    short = omega arith;
    no_newline = refl;
    lines =
        AllLines-snoc s.printed (c_str s.accum) a (subst IsLine (sym (c_str-NoZero s.accum p)) i);
  }

  flush-block : (flush s).block ≡ s.block
  unfolding flush
  flush-block = refl

abbrev pub extended : Console → ℕ → Console
extended s c = record s { accum = s.accum ++ (c ∷ []) }

pub accum-IsLine : (s : Console) → Holds s → IsLine s.accum
accum-IsLine s h = (omega (arith, h.short), h.no_newline)

pub append_char-Took :
    (s : Console) (c : ℕ) → Holds s → c ≢ 0 → (c == 10) ≡ false → Took s (append_char s c) (c ∷ [])
unfolding append_char
append_char-Took s c h nonzero other = elim (Bool-cases (leb max_line_length (length s'.accum))) [
  | inl full ↦
      rw (full, if◌then◌else◌)
        (record {
          holds = flush-Holds s' kept line h.lines;
          same_block = flush-block s' kept line h.lines;
          all_shown = flush-shown s' kept line h.lines ∙ longer;
        })
  | inr room ↦
      rw (room, if◌then◌else◌)
        (record {
          holds = record {
            no_zero = kept;
            short = ground arith;
            no_newline = line.1;
            lines = h.lines;
          };
          same_block = refl;
          all_shown = longer;
        })
]
  where
    s' : Console
    s' = extended s c

    single : text (c ∷ []) ≡ c ∷ []
    single = rw (other, if◌then◌else◌) refl

    kept : NoZero s'.accum
    kept = NoZero-append s.accum (c ∷ []) h.no_zero (nonzero, tt)

    line : IsLine s'.accum
    line = (
      omega (arith, length-append s.accum (c ∷ []), h.short),
      text-append s.accum (c ∷ []) ∙ ap₂ ◌++◌ h.no_newline single,
    )

    longer : shown s' ≡ shown s ++ text (c ∷ [])
    longer =
        sym (append_assoc (flatten s.printed) s.accum (c ∷ []))
        ∙ ap (λ t. shown s ++ t) (sym single)

pub take_char-Took : (s : Console) (c : ℕ) → Holds s → c ≢ 0 → Took s (take_char s (pos c)) (c ∷ [])
unfolding take_char
take_char-Took s c h nonzero = elim (Bool-cases (c == 10)) [
  | inl newline ↦
      rw (newline, if◌then◌else◌)
        (record {
          holds = flush-Holds s h.no_zero (accum-IsLine s h) h.lines;
          same_block = flush-block s h.no_zero (accum-IsLine s h) h.lines;
          all_shown =
              flush-shown s h.no_zero (accum-IsLine s h) h.lines
              ∙ sym (append-nil (shown s))
              ∙ ap (λ t. shown s ++ t) (sym (rw (newline, if◌then◌else◌) refl));
        })
  | inr other ↦ rw (other, if◌then◌else◌) (append_char-Took s c h nonzero other)
]

-- The console between two rounds, with the bytes that wait for it.
pub record Between (s : Console) : Type 0 where
  pub valid : IsValid s.block
  pub waiting : NoZero (contents s.block)
  pub holds : Holds s

abbrev pub total : Console → List ℕ
total s = shown s ++ text (contents s.block)

-- A round takes at most one byte, and loses none.
pub record Round (s s' : Console) : Type 0 where
  pub between : Between s'
  pub nothing_lost : total s' ≡ total s
  pub fewer : length (contents s'.block) ≡ length (contents s.block) - 1

abbrev pub at_block : Console → IpcBlock → Console
at_block s b = record s { block = b }

pub taken_one :
    (s : Console) (c : ℕ) (cs : List ℕ) (out : ℤ × IpcBlock)
    → Holds s
    → contents s.block ≡ c ∷ cs
    → NoZero (c ∷ cs)
    → Gets s.block (c ∷ cs) out
    → Round s (take_char (at_block s out.1) out.0)
taken_one s c cs out h e (nonzero, rest) (got, left, valid, frame) =
    let t : Took (at_block s out.1) (take_char (at_block s out.1) (pos c)) (c ∷ []) =
      take_char-Took (at_block s out.1) c
        (record {
          no_zero = h.no_zero;
          short = h.short;
          no_newline = h.no_newline;
          lines = h.lines;
        })
        nonzero in
    let left' : contents (take_char (at_block s out.1) (pos c)).block ≡ cs =
      ap contents t.same_block ∙ left in
    rw got (record {
      between = record {
        valid = subst IsValid (sym t.same_block) valid;
        waiting = subst NoZero (sym left') rest;
        holds = t.holds;
      };
      nothing_lost =
          ap₂ (λ x y. x ++ text y) t.all_shown left'
          ∙ append_assoc (shown s) (text (c ∷ [])) (text cs)
          ∙ ap (λ t. shown s ++ t) (sym (text-append (c ∷ []) cs) ∙ ap text (sym e));
      fewer = omega (arith, ap (λ (t : List ℕ). length t) left', ap (λ (t : List ℕ). length t) e);
    })

pub nothing_taken :
    (s : Console) (out : ℤ × IpcBlock)
    → Between s
    → contents s.block ≡ []
    → out.0 ≡ negsuc 0
    → out.1 ≡ s.block
    → Round s (take_char (at_block s out.1) out.0)
unfolding take_char
nothing_taken s out k e got same =
    rw (got, same)
      (record {
        between = k;
        nothing_lost = refl;
        fewer = omega (arith, ap (λ (t : List ℕ). length t) e);
      })

pub console_round-Round : (s : Console) → Between s → Round s (console_round s)
unfolding console_round
console_round-Round s k = go (contents s.block) refl (getchar-Gets s.block k.valid)
  where
    go :
        (q : List ℕ)
        → contents s.block ≡ q
        → Gets s.block q (getchar s.block)
        → Round s (take_char (at_block s (getchar s.block).1) (getchar s.block).0)
    go [] e (got, same) = nothing_taken s (getchar s.block) k e got same
    go (c ∷ cs) e gets =
        taken_one s c cs (getchar s.block) k.holds e (subst NoZero e k.waiting) gets
