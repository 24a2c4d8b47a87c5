-- ===== src/Manager/Console/Text.antt =====
-- Lines of text, for src/manager/domain_helpers.cpp: bytes without newlines and zeros.
use mathlib.Core.List.{append-nil, append_assoc}
use bmboot.Base.{
  ℕ, zero, suc, ◌≤◌, ◌≡◌, ◌≢◌, refl, ap, sym, ◌∙◌, arith, if◌then◌else◌, ◌==◌, List, [], ◌∷◌, ◌++◌,
  length, take,
}
use bmboot.Manager.Console.{max_line_length, c_str}

-- The bytes but the newlines.
abbrev pub text : List ℕ → List ℕ
text [] = []
text (c ∷ cs) = if c == 10 then text cs else c ∷ text cs

abbrev pub flatten : List (List ℕ) → List ℕ
flatten [] = []
flatten (l ∷ ls) = l ++ flatten ls

-- No zero and, in a line, no newline.
abbrev pub NoZero : List ℕ → Type 0
NoZero [] = Unit {0}
NoZero (c ∷ cs) = (c ≢ 0) × NoZero cs

abbrev pub IsLine : List ℕ → Type 0
IsLine l = (length l ≤ max_line_length) × (text l ≡ l)

abbrev pub AllLines : List (List ℕ) → Type 0
AllLines [] = Unit {0}
AllLines (l ∷ ls) = IsLine l × AllLines ls

abbrev pub AllNoZero : List (List ℕ) → Type 0
AllNoZero [] = Unit {0}
AllNoZero (xs ∷ rest) = NoZero xs × AllNoZero rest

pub text-append : (xs ys : List ℕ) → text (xs ++ ys) ≡ text xs ++ text ys
text-append [] ys = refl
text-append (c ∷ cs) ys = ground (arith, text-append cs ys)

pub flatten-snoc : (ls : List (List ℕ)) (l : List ℕ) → flatten (ls ++ (l ∷ [])) ≡ flatten ls ++ l
flatten-snoc [] l = append-nil l
flatten-snoc (k ∷ ls) l = ap (λ t. k ++ t) (flatten-snoc ls l) ∙ sym (append_assoc k (flatten ls) l)

pub AllLines-snoc :
    (ls : List (List ℕ)) (l : List ℕ) → AllLines ls → IsLine l → AllLines (ls ++ (l ∷ []))
AllLines-snoc [] l a i = (i, tt)
AllLines-snoc (k ∷ ls) l (a, rest) i = (a, AllLines-snoc ls l rest i)

pub NoZero-append : (xs ys : List ℕ) → NoZero xs → NoZero ys → NoZero (xs ++ ys)
NoZero-append [] ys p q = q
NoZero-append (x ∷ xs) ys (p, ps) q = (p, NoZero-append xs ys ps q)

pub NoZero-take : (n : ℕ) (xs : List ℕ) → NoZero xs → NoZero (take n xs)
NoZero-take zero xs p = tt
NoZero-take (suc n) [] p = tt
NoZero-take (suc n) (x ∷ xs) (p, ps) = (p, NoZero-take n xs ps)

-- Without a zero, all of a string is printed.
pub c_str-NoZero : (xs : List ℕ) → NoZero xs → c_str xs ≡ xs
unfolding c_str
c_str-NoZero [] p = refl
c_str-NoZero (c ∷ cs) (p, ps) = ground (arith, c_str-NoZero cs ps)
