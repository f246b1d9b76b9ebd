-- ===== src/UserInput/Reads.antt =====
-- input_buffer.c: one call of `process_user_input` for each read that finds bytes.
use mathlib.Core.List.{append_assoc, append-nil}
use bittorrent_with_congesti.Base.{
  ℕ, ◌+◌, ◌≤◌, ◌<◌, ◌≡◌, sym, ap, ◌∙◌, arith, List, [], ◌∷◌, ◌++◌, length, length-append, Outcome,
  done, ◌>>=◌,
}
use bittorrent_with_congesti.UserInput.{UserBuffer, create_userbuf, process_user_input}
use bittorrent_with_congesti.UserInput.Split.{
  split, split-AreInLine, AreChars, AreChars-append, split-Left, split-append,
}
use bittorrent_with_congesti.UserInput.Refine.{holding, half, process_user_input-split}

-- the lines of all calls, and the buffer that is left
abbrev pub process_reads :
    (fuel : ℕ) → UserBuffer → List (List ℕ) → Outcome (List (List ℕ) × UserBuffer)
process_reads fuel b [] = done ([], b)
process_reads fuel b (r ∷ rs) = process_user_input fuel b r >>= λ (ls, b').
    process_reads fuel b' rs >>= λ (ms, b''). done (ls ++ ms, b'')

abbrev pub joined : List (List ℕ) → List ℕ
joined [] = []
joined (r ∷ rs) = r ++ joined rs

abbrev pub AreTexts : List (List ℕ) → Type 0
AreTexts [] = Unit
AreTexts (r ∷ rs) = AreChars r × AreTexts rs

AreChars-joined : (rs : List (List ℕ)) → AreTexts rs → AreChars (joined rs)
AreChars-joined [] h = tt
AreChars-joined (r ∷ rs) h = AreChars-append r (joined rs) h.0 (AreChars-joined rs h.1)

abbrev held : List (List ℕ) × List ℕ → Outcome (List (List ℕ) × UserBuffer)
held (ls, rest) = done (ls, holding rest)

process_reads-split :
    (fuel : ℕ) (p : List ℕ) (rs : List (List ℕ))
    → AreChars p
    → split p ≡ ([], p)
    → AreTexts rs
    → length p + length (joined rs) ≤ half
    → length p + length (joined rs) < fuel
    → process_reads fuel (holding p) rs ≡ held (split (p ++ joined rs))
process_reads-split fuel p [] h line ok le enough = sym (ap held (ap split (append-nil p) ∙ line))
process_reads-split fuel p (r ∷ rs) h line ok le enough =
    let sizes = length-append r (joined rs) in
    let size = length-append p r in
    let first = split (p ++ r) in
    let left = split-Left (p ++ r) (AreChars-append p r h ok.0) in
    let rest =
      process_reads-split fuel first.1 rs left.0 (split-AreInLine first.1 left.1) ok.1
        (omega (arith, sizes, size, left.2)) (omega (arith, sizes, size, left.2)) in
    ap
      (λ (o : Outcome (List (List ℕ) × UserBuffer)).
        o >>= λ (ls, b'). process_reads fuel b' rs >>= λ (ms, b''). done (ls ++ ms, b''))
      (process_user_input-split fuel p r h ok.0 (omega (arith, sizes)) (omega (arith, sizes)))
    ∙ ap
        (λ (o : Outcome (List (List ℕ) × UserBuffer)). o >>= λ (ms, b''). done (first.0 ++ ms, b''))
        rest
    ∙ sym (ap held (split-append (p ++ r) (joined rs)))
    ∙ ap (λ t. held (split t)) (append_assoc p r (joined rs))

-- From a fresh buffer, reads that bring a text in pieces hand on the same lines, and leave the same
-- buffer, as one read that brings the whole text, if the text has no NUL and no more than 4096
-- bytes, and the fuel is more than their number.
pub process_reads-joined :
    (fuel : ℕ) (rs : List (List ℕ))
    → AreTexts rs
    → length (joined rs) ≤ half
    → length (joined rs) < fuel
    → process_reads fuel create_userbuf rs ≡ process_user_input fuel create_userbuf (joined rs)
process_reads-joined fuel rs ok le enough =
    process_reads-split fuel [] rs tt (split-AreInLine [] tt) ok (omega arith) (omega arith)
    ∙ sym (
        process_user_input-split fuel [] (joined rs) tt (AreChars-joined rs ok) (omega arith)
          (omega arith))
