-- ===== src/UserInput/Split.antt =====
-- Text as a sequence of lines: what the input buffer stands for.
use mathlib.Core.Path.{subst}
use mathlib.Core.List.{append_assoc}
use bittorrent_with_congesti.Base.{
  ℕ, zero, suc, ◌≤◌, ◌≡◌, refl, sym, ap, ◌∙◌, arith, false, Bool-cases, inl, inr, List, [], ◌∷◌,
  ◌++◌, ◌==◌, ==_iff, if◌then◌else◌, length, length-append,
}
use bittorrent_with_congesti.Text.{newline}
use bittorrent_with_congesti.Text.Lines.{AreInLine}

-- The lines that end in the text, and what comes behind the last newline.
abbrev attach : ℕ → List (List ℕ) × List ℕ → List (List ℕ) × List ℕ
attach c ([], rest) = ([], c ∷ rest)
attach c (l ∷ ls, rest) = ((c ∷ l) ∷ ls, rest)

abbrev close : List (List ℕ) × List ℕ → List (List ℕ) × List ℕ
close (ls, rest) = ([] ∷ ls, rest)

pub split : List ℕ → List (List ℕ) × List ℕ
split [] = ([], [])
split (c ∷ cs) = if c == newline then close (split cs) else attach c (split cs)

-- A text is within a line, or has a first line.
pub data FirstLine (t : List ℕ) : Type 0 where
  no_line : AreInLine t → FirstLine t
  a_line : (w rest : List ℕ) → AreInLine w → t ≡ w ++ (newline ∷ rest) → FirstLine t

pub first_line : (t : List ℕ) → FirstLine t
first_line [] = no_line tt
first_line (c ∷ cs) = elim (Bool-cases (c == newline)) [
  | inl e ↦ a_line [] cs tt (ap (λ d. d ∷ cs) ((==_iff c newline).0 e))
  | inr e ↦ elim (first_line cs) [
    | no_line h ↦ no_line (e, h)
    | a_line w rest h f ↦ a_line (c ∷ w) rest (e, h) (ap (λ r. c ∷ r) f)
  ]
]

pub split-AreInLine : (t : List ℕ) → AreInLine t → split t ≡ ([], t)
unfolding split
split-AreInLine [] h = refl
split-AreInLine (c ∷ cs) h = rw (h.0, split-AreInLine cs h.1)

pub split-line :
    (w rest : List ℕ)
    → AreInLine w
    → split (w ++ (newline ∷ rest)) ≡ (w ∷ (split rest).0, (split rest).1)
unfolding split
split-line [] rest h = refl
split-line (c ∷ cs) rest h = rw (h.0, split-line cs rest h.1)

-- text without NUL
abbrev pub AreChars : List ℕ → Type 0
AreChars [] = Unit
AreChars (c ∷ cs) = ((c == 0) ≡ false) × AreChars cs

pub AreChars-append : (s t : List ℕ) → AreChars s → AreChars t → AreChars (s ++ t)
AreChars-append [] t h k = k
AreChars-append (c ∷ cs) t h k = (h.0, AreChars-append cs t h.1 k)

pub AreChars-parts :
    (w rest : List ℕ) → AreChars (w ++ (newline ∷ rest)) → AreChars w × AreChars rest
AreChars-parts [] rest h = (tt, h.1)
AreChars-parts (c ∷ cs) rest h = let (a, b) = AreChars-parts cs rest h.1 in ((h.0, a), b)

abbrev Left : List ℕ → Type 0
Left t = AreChars (split t).1 × AreInLine (split t).1 × (length (split t).1 ≤ length t)

Left-line : (w rest : List ℕ) → AreInLine w → Left rest → Left (w ++ (newline ∷ rest))
Left-line w rest inside (chars, line, le) =
    rw (split-line w rest inside) (chars, line, omega (arith, le, length-append w (newline ∷ rest)))

Left-within : (n : ℕ) (t : List ℕ) → length t ≤ n → AreChars t → Left t
Left-within zero [] le h = rw (split-AreInLine [] tt) (h, tt, omega arith)
Left-within zero (c ∷ cs) le h = absurd (omega arith)
Left-within (suc n) t le h = elim (first_line t) [
  | no_line inside ↦ rw (split-AreInLine t inside) (h, inside, omega arith)
  | a_line w rest inside e ↦ subst Left (sym e) (
      Left-line w rest inside (
        Left-within n rest (omega (arith, ap length e, length-append w (newline ∷ rest)))
          (AreChars-parts w rest (subst AreChars e h)).1))
]

-- What is left behind the last newline is text within a line, and no longer than the text.
pub split-Left : (t : List ℕ) → AreChars t → Left t
split-Left t h = Left-within (length t) t (omega arith) h

-- Lines first, then what is split behind them.
abbrev behind : List (List ℕ) → List (List ℕ) × List ℕ → List (List ℕ) × List ℕ
behind ls (ms, rest) = (ls ++ ms, rest)

abbrev Resumes : (b : List ℕ) → List ℕ → Type 0
Resumes b a = split (a ++ b) ≡ behind (split a).0 (split ((split a).1 ++ b))

Resumes-line :
    (w rest b : List ℕ) → AreInLine w → Resumes b rest → Resumes b (w ++ (newline ∷ rest))
Resumes-line w rest b inside h =
    ap split (append_assoc w (newline ∷ rest) b)
    ∙ split-line w (rest ++ b) inside
    ∙ ap (λ (r : List (List ℕ) × List ℕ). (w ∷ r.0, r.1)) h
    ∙ sym (
        ap (λ (r : List (List ℕ) × List ℕ). behind r.0 (split (r.1 ++ b)))
          (split-line w rest inside))

Resumes-within : (n : ℕ) (a b : List ℕ) → length a ≤ n → Resumes b a
Resumes-within zero [] b le = rw (split-AreInLine [] tt)
Resumes-within zero (c ∷ cs) b le = absurd (omega arith)
Resumes-within (suc n) a b le = elim (first_line a) [
  | no_line inside ↦ rw (split-AreInLine a inside)
  | a_line w rest inside e ↦ subst (Resumes b) (sym e) (
      Resumes-line w rest b inside
        (Resumes-within n rest b (omega (arith, ap length e, length-append w (newline ∷ rest)))))
]

-- The lines of a text are those of a first part, and of what that leaves with the second part.
pub split-append : (a b : List ℕ) → Resumes b a
split-append a b = Resumes-within (length a) a b (omega arith)
