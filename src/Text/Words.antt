-- ===== src/Text/Words.antt =====
-- `%s` and words between spaces.
use bittorrent_with_congesti.Base.{
  ℕ, ◌≤◌, ◌≡◌, refl, ap, ◌∙◌, arith, true, false, some, List, [], ◌∷◌, ◌++◌, length,
}
use bittorrent_with_congesti.Text.{space, is_space, skip_spaces, scan_run, scan_word}
use bittorrent_with_congesti.Text.Lines.{AreInLine}

-- a text without spaces
abbrev pub AreVisible : List ℕ → Type 0
AreVisible [] = Unit
AreVisible (c ∷ cs) = (is_space c ≡ false) × AreVisible cs

pub AreVisible-AreInLine :
    (cs rest : List ℕ) → AreVisible cs → AreInLine rest → AreInLine (cs ++ rest)
AreVisible-AreInLine [] rest h k = k
AreVisible-AreInLine (c ∷ cs) rest h k = (ground (arith, h.0), AreVisible-AreInLine cs rest h.1 k)

pub scan_run-all : (w : List ℕ) → AreVisible w → scan_run w ≡ (w, [])
scan_run-all [] h = refl
scan_run-all (d ∷ ds) h = rw (h.0, scan_run-all ds h.1)

pub scan_run-stop :
    (w : List ℕ) (c : ℕ) (rest : List ℕ)
    → AreVisible w
    → is_space c ≡ true
    → scan_run (w ++ (c ∷ rest)) ≡ (w, c ∷ rest)
scan_run-stop [] c rest h stop = rw stop
scan_run-stop (d ∷ ds) c rest h stop = rw (h.0, scan_run-stop ds c rest h.1 stop)

scan_word_of :
    (s : List ℕ) {c : ℕ} {cs : List ℕ}
    → skip_spaces s ≡ c ∷ cs
    → scan_word s ≡ some (scan_run (c ∷ cs))
scan_word_of s e = rw (e, scan_word)

pub skip_spaces-visible :
    (c : ℕ) (cs : List ℕ) → is_space c ≡ false → skip_spaces (space ∷ c ∷ cs) ≡ c ∷ cs
skip_spaces-visible c cs h = rw h

-- A word behind a space, with a space of some kind behind it.
pub scan_word-stop :
    (w : List ℕ) (c : ℕ) (rest : List ℕ)
    → AreVisible w
    → 1 ≤ length w
    → is_space c ≡ true
    → scan_word (space ∷ (w ++ (c ∷ rest))) ≡ some (w, c ∷ rest)
scan_word-stop [] c rest h long stop = absurd (omega arith)
scan_word-stop (d ∷ ds) c rest h long stop =
    scan_word_of (space ∷ (d ∷ ds ++ (c ∷ rest))) (skip_spaces-visible d (ds ++ (c ∷ rest)) h.0)
    ∙ ap some (scan_run-stop (d ∷ ds) c rest h stop)

-- A word behind a space, at the end of the text.
pub scan_word-end :
    (w : List ℕ) → AreVisible w → 1 ≤ length w → scan_word (space ∷ w) ≡ some (w, [])
scan_word-end [] h long = absurd (omega arith)
scan_word-end (d ∷ ds) h long =
    scan_word_of (space ∷ d ∷ ds) (skip_spaces-visible d ds h.0) ∙ ap some (scan_run-all (d ∷ ds) h)
