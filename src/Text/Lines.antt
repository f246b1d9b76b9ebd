-- ===== src/Text/Lines.antt =====
-- `fgets` on text that is made of short lines.
use bittorrent_with_congesti.Base.{
  ℕ, zero, suc, ◌+◌, ◌*◌, ◌/◌, ◌%◌, ◌<◌, ◌≤◌, ◌≡◌, refl, sym, ap, ◌∙◌, arith, false, Bool-cases,
  inl, inr, List, [], ◌∷◌, ◌++◌, ◌==◌, ltb, length,
}
use bittorrent_with_congesti.Text.Decimal.{decimal_onto-step, decimal_onto-last}
use bittorrent_with_congesti.Text.{newline, next_line, next_lines, decimal_onto}

-- text within a line
abbrev pub AreInLine : List ℕ → Type 0
AreInLine [] = Unit
AreInLine (c ∷ cs) = ((c == newline) ≡ false) × AreInLine cs

pub next_line-append :
    (room : ℕ) (w rest : List ℕ)
    → AreInLine w
    → length w < room
    → next_line room (w ++ (newline ∷ rest)) ≡ (w ++ (newline ∷ []), rest)
unfolding next_line
next_line-append zero w rest h lt = absurd (omega arith)
next_line-append (suc room) [] rest h lt = refl
next_line-append (suc room) (c ∷ cs) rest h lt =
    rw (h.0, next_line-append room cs rest h.1 (omega arith))

pub next_lines-nil : (fuel room : ℕ) → next_lines fuel room [] ≡ []
unfolding next_lines
next_lines-nil zero room = refl
next_lines-nil (suc fuel) room = refl

-- A line that is not empty is taken off.
pub next_lines-cons :
    (fuel room : ℕ) (s : List ℕ) {c : ℕ} {cs line rest : List ℕ}
    → s ≡ c ∷ cs
    → next_line room s ≡ (line, rest)
    → next_lines (suc fuel) room s ≡ line ∷ next_lines fuel room rest
unfolding next_lines
next_lines-cons fuel room s {c} {cs} e f = rw (e, next_lines) (rw (ap (next_line room) (sym e) ∙ f))

pub decimal_onto-AreInLine :
    (fuel n : ℕ) (rest : List ℕ) → AreInLine rest → AreInLine (decimal_onto fuel n rest)
decimal_onto-AreInLine zero n rest h = unfold decimal_onto in h
decimal_onto-AreInLine (suc fuel) n rest h = elim (Bool-cases (ltb n 10)) [
  | inl small ↦ rw (decimal_onto-last fuel n rest (ground arith)) (ground arith, h)
  | inr large ↦
      rw (decimal_onto-step fuel n rest (ground arith))
        (decimal_onto-AreInLine fuel (n / 10) ((b'0' + n % 10) ∷ rest) (ground arith, h))
]

-- 10 to the power of `k`
abbrev pub power : ℕ → ℕ
power zero = 1
power (suc k) = 10 * power k

pub length-decimal_onto :
    (k fuel n : ℕ) (rest : List ℕ)
    → n < power k
    → length (decimal_onto fuel n rest) ≤ suc k + length rest
length-decimal_onto k zero n rest h = unfold decimal_onto in omega arith
length-decimal_onto zero (suc fuel) n rest h =
    omega (arith, ap length (decimal_onto-last fuel n rest (omega arith)))
length-decimal_onto (suc k) (suc fuel) n rest h = elim (Bool-cases (ltb n 10)) [
  | inl small ↦ rw (decimal_onto-last fuel n rest (ground arith)) (omega arith)
  | inr large ↦
      rw (decimal_onto-step fuel n rest (ground arith))
        (omega (arith, length-decimal_onto k fuel (n / 10) ((b'0' + n % 10) ∷ rest) (omega arith)))
]
