-- ===== src/UserInput/Refine.antt =====
-- input_buffer.c: the buffer stands for the text of an unfinished line, and a read splits off the
-- lines.
use mathlib.Core.Path.{subst}
use mathlib.Core.List.{append_assoc}
use bittorrent_with_congesti.Base.{
  ℕ, zero, suc, ◌+◌, ◌-◌, ◌≤◌, ◌<◌, ◌≡◌, refl, sym, ap, ◌∙◌, arith, false, none, some, List, [],
  ◌∷◌, ◌++◌, leb, sub32, length, length-append, take, drop, take-append_self, take-le, drop-append,
  set, done,
}
use bittorrent_with_congesti.Text.{newline}
use bittorrent_with_congesti.Text.Lines.{AreInLine}
use bittorrent_with_congesti.UserInput.{
  userbuf_size, UserBuffer, zeros, find_newline, shift, take_lines, receive, process_user_input,
}
use bittorrent_with_congesti.UserInput.Split.{
  split, no_line, a_line, first_line, split-AreInLine, split-line, AreChars, AreChars-append,
  AreChars-parts,
}

zeros-append : (a b : ℕ) → zeros a ++ zeros b ≡ zeros (a + b)
unfolding zeros
zeros-append zero b = ap zeros (omega arith)
zeros-append (suc a) b =
    let next : suc a + b ≡ suc (a + b) = omega arith in
    ap (λ l. 0 ∷ l) (zeros-append a b) ∙ sym (ap zeros next)

drop-zeros : (n k : ℕ) → drop n (zeros (n + k)) ≡ zeros k
unfolding zeros
drop-zeros zero k = ap zeros (omega arith)
drop-zeros (suc n) k =
    let next : suc n + k ≡ suc (n + k) = omega arith in
    ap (λ m. drop (suc n) (zeros m)) next ∙ drop-zeros n k

length-zeros : (n : ℕ) → length (zeros n) ≡ n
unfolding zeros
length-zeros zero = refl
length-zeros (suc n) = ap suc (length-zeros n)

-- the buffer that holds a text
abbrev pub holding : List ℕ → UserBuffer
holding t = record { buf = t ++ zeros (userbuf_size + 1 - length t); cur = length t }

find_newline-zeros : (n : ℕ) → find_newline (zeros n) ≡ none
unfolding zeros
find_newline-zeros zero = refl
find_newline-zeros (suc n) = refl

find_newline-AreInLine :
    (t : List ℕ) (n : ℕ) → AreChars t → AreInLine t → find_newline (t ++ zeros n) ≡ none
find_newline-AreInLine [] n h k = find_newline-zeros n
find_newline-AreInLine (c ∷ cs) n h k = rw (k.0, h.0) (rw (find_newline-AreInLine cs n h.1 k.1))

find_newline-line :
    (w rest : List ℕ)
    → AreChars w
    → AreInLine w
    → find_newline (w ++ (newline ∷ rest)) ≡ some (length w)
find_newline-line [] rest h k = refl
find_newline-line (c ∷ cs) rest h k = rw (k.0, h.0) (rw (find_newline-line cs rest h.1 k.1))

set-append :
    (w : List ℕ) (c : ℕ) (rest : List ℕ) → set (w ++ (c ∷ rest)) (length w) 0 ≡ w ++ (0 ∷ rest)
set-append [] c rest = refl
set-append (x ∷ xs) c rest = ap (λ l. x ∷ l) (set-append xs c rest)

-- The bytes behind a line move to the front, and zeros are behind them if enough zeros were there.
module _ (w rest : List ℕ) (k : ℕ) (all : length w + 1 + length rest + k ≡ userbuf_size + 1) where
  moved :
      take (userbuf_size - length w) (drop (length w + 1) (w ++ (0 ∷ (rest ++ zeros k))))
      ≡ rest ++ zeros k
  moved =
      ap (take (userbuf_size - length w)) (drop-append w (0 ∷ (rest ++ zeros k)) 1)
      ∙ take-le (userbuf_size - length w) (rest ++ zeros k)
          (omega (arith, all, length-append rest (zeros k), length-zeros k))

  kept :
      length w + 1 ≤ k
      → drop (userbuf_size - length w) (w ++ (0 ∷ (rest ++ zeros k))) ≡ zeros (length w + 1)
  kept room =
      let text = w ++ (0 ∷ rest) in
      let unmoved : ℕ = k - (length w + 1) in
      let shape : userbuf_size - length w ≡ length text + unmoved =
        omega (arith, all, length-append w (0 ∷ rest)) in
      let size : k ≡ unmoved + (length w + 1) = omega arith in
      ap (drop (userbuf_size - length w)) (sym (append_assoc w (0 ∷ rest) (zeros k)))
      ∙ ap (λ n. drop n (text ++ zeros k)) shape
      ∙ drop-append text (zeros k) unmoved
      ∙ ap (λ n. drop unmoved (zeros n)) size
      ∙ drop-zeros unmoved (length w + 1)

  shift-line :
      length w + 1 ≤ k
      → shift (length w) (w ++ (newline ∷ (rest ++ zeros k))) ≡ rest ++ zeros (k + (length w + 1))
  shift-line room =
      ap
        (λ b.
          take (userbuf_size - length w) (drop (length w + 1) b)
          ++ drop (userbuf_size - length w) b)
        (set-append w newline (rest ++ zeros k))
      ∙ ap (λ l. l ++ drop (userbuf_size - length w) (w ++ (0 ∷ (rest ++ zeros k)))) moved
      ∙ ap (λ l. (rest ++ zeros k) ++ l) (kept room)
      ∙ append_assoc rest (zeros k) (zeros (length w + 1))
      ∙ ap (λ l. rest ++ l) (zeros-append k (length w + 1))

-- half the buffer: a line that is moved away is never longer than the free part
abbrev pub half : ℕ
half = 4096

abbrev Takes : ℕ → List ℕ → Type 0
Takes fuel t = take_lines fuel (holding t) ≡ some ((split t).0, holding (split t).1)

module _ (w rest : List ℕ) (chars : AreChars w) (inside : AreInLine w) where
  buf_of_line :
      (holding (w ++ (newline ∷ rest))).buf
      ≡ w ++ (newline ∷ (rest ++ zeros (userbuf_size + 1 - length (w ++ (newline ∷ rest)))))
  buf_of_line =
      append_assoc w (newline ∷ rest) (zeros (userbuf_size + 1 - length (w ++ (newline ∷ rest))))

  found_line : find_newline (holding (w ++ (newline ∷ rest))).buf ≡ some (length w)
  found_line =
      ap find_newline buf_of_line
      ∙ find_newline-line w (rest ++ zeros (userbuf_size + 1 - length (w ++ (newline ∷ rest))))
          chars inside

  shifted :
      length (w ++ (newline ∷ rest)) ≤ half
      → (record {
        buf = shift (length w) (holding (w ++ (newline ∷ rest))).buf;
        cur = sub32 (length (w ++ (newline ∷ rest))) (length w + 1);
      })
        ≡ holding rest
  shifted le =
      let free : ℕ = userbuf_size + 1 - length (w ++ (newline ∷ rest)) in
      let size = length-append w (newline ∷ rest) in
      let front : shift (length w) (holding (w ++ (newline ∷ rest))).buf
          ≡ rest ++ zeros (userbuf_size + 1 - length rest) =
        ap (shift (length w)) buf_of_line
        ∙ shift-line w rest free (omega (arith, size, le)) (omega (arith, size, le))
        ∙ ap (λ n. rest ++ zeros n) (omega (arith, size, le)) in
      let count : sub32 (length (w ++ (newline ∷ rest))) (length w + 1) ≡ length rest =
        omega (arith, size, le) in
      λ i. record { buf = front i; cur = count i }

take_lines-none :
    (fuel : ℕ) (b : UserBuffer) → find_newline b.buf ≡ none → take_lines (suc fuel) b ≡ some ([], b)
unfolding take_lines
take_lines-none fuel b e = rw (e, take_lines)

take_lines-some :
    (fuel : ℕ) (b : UserBuffer) {offset : ℕ} {r : List (List ℕ) × UserBuffer}
    → find_newline b.buf ≡ some offset
    → take_lines fuel (record { buf = shift offset b.buf; cur = sub32 b.cur (offset + 1) }) ≡ some r
    → take_lines (suc fuel) b ≡ some (take offset b.buf ∷ r.0, r.1)
unfolding take_lines
take_lines-some fuel b e h = rw (e, take_lines) (rw (h, take_lines))

Takes-line :
    (fuel : ℕ) (w rest : List ℕ)
    → AreChars w
    → AreInLine w
    → length (w ++ (newline ∷ rest)) ≤ half
    → Takes fuel rest
    → Takes (suc fuel) (w ++ (newline ∷ rest))
Takes-line fuel w rest chars inside le h =
    let free : ℕ = userbuf_size + 1 - length (w ++ (newline ∷ rest)) in
    let front : take (length w) (holding (w ++ (newline ∷ rest))).buf ≡ w =
      ap (take (length w)) (buf_of_line w rest chars inside)
      ∙ take-append_self w (newline ∷ (rest ++ zeros free)) in
    take_lines-some fuel (holding (w ++ (newline ∷ rest))) (found_line w rest chars inside)
      (ap (take_lines fuel) (shifted w rest chars inside le) ∙ h)
    ∙ ap (λ l. some (l ∷ (split rest).0, holding (split rest).1)) front
    ∙ ap (λ (r : List (List ℕ) × List ℕ). some (r.0, holding r.1)) (sym (split-line w rest inside))

Takes-within :
    (fuel : ℕ) (t : List ℕ) → length t < fuel → length t ≤ half → AreChars t → Takes fuel t
Takes-within zero t lt le h = absurd (omega arith)
Takes-within (suc fuel) t lt le h = elim (first_line t) [
  | no_line inside ↦
      take_lines-none fuel (holding t)
        (find_newline-AreInLine t (userbuf_size + 1 - length t) h inside)
      ∙ ap (λ (r : List (List ℕ) × List ℕ). some (r.0, holding r.1))
          (sym (split-AreInLine t inside))
  | a_line w rest inside e ↦
      let size = length-append w (newline ∷ rest) in
      let parts = AreChars-parts w rest (subst AreChars e h) in
      subst (Takes (suc fuel)) (sym e) (
        Takes-line fuel w rest parts.0 inside (omega (arith, ap length e, le)) (
          Takes-within fuel rest (omega (arith, ap length e, size))
            (omega (arith, ap length e, size, le)) parts.1))
]

receive-holding :
    (p bytes : List ℕ)
    → length p + length bytes ≤ half
    → receive (holding p) bytes ≡ holding (p ++ bytes)
receive-holding p bytes le =
    let free : ℕ = userbuf_size + 1 - length p in
    let got : take (userbuf_size - length p) bytes ≡ bytes =
      take-le (userbuf_size - length p) bytes (omega arith) in
    let behind : drop (length p + length bytes) (p ++ zeros free) ≡ zeros (free - length bytes) =
      drop-append p (zeros free) (length bytes)
      ∙ ap (λ n. drop (length bytes) (zeros n)) (omega arith)
      ∙ drop-zeros (length bytes) (free - length bytes) in
    let shape : p ++ (bytes ++ zeros (free - length bytes))
        ≡ (p ++ bytes) ++ zeros (userbuf_size + 1 - length (p ++ bytes)) =
      sym (append_assoc p bytes (zeros (free - length bytes)))
      ∙ ap (λ n. (p ++ bytes) ++ zeros n) (omega (arith, length-append p bytes)) in
    let filled = take-append_self p (zeros free) in
    λ i. record {
      buf =
          (ap
                (λ g.
                  take (length p) (p ++ zeros free)
                  ++ (g ++ drop (length p + length g) (p ++ zeros free)))
                got
              ∙ ap (λ f. f ++ (bytes ++ drop (length p + length bytes) (p ++ zeros free))) filled
              ∙ ap (λ d. p ++ (bytes ++ d)) behind
              ∙ shape)
            i;
      cur = (ap (λ g. length p + length g) got ∙ sym (length-append p bytes)) i;
    }

process_user_input-taken :
    (fuel : ℕ) (b : UserBuffer) (bytes : List ℕ) {r : List (List ℕ) × UserBuffer}
    → leb (userbuf_size - 1) b.cur ≡ false
    → take_lines fuel (receive b bytes) ≡ some r
    → process_user_input fuel b bytes ≡ done r
unfolding process_user_input
process_user_input-taken fuel b bytes e h = rw (e, process_user_input) (rw (h, process_user_input))

-- A buffer that holds the text of an unfinished line and gets more bytes hands on the lines that the
-- text and the bytes make together and holds what is left of them behind the last newline, if the
-- two have no NUL and no more than 4096 bytes, and the fuel is more than their number.
pub process_user_input-split :
    (fuel : ℕ) (p bytes : List ℕ)
    → AreChars p
    → AreChars bytes
    → length p + length bytes ≤ half
    → length p + length bytes < fuel
    → process_user_input fuel (holding p) bytes
      ≡ done ((split (p ++ bytes)).0, holding (split (p ++ bytes)).1)
process_user_input-split fuel p bytes h k le enough =
    let size = length-append p bytes in
    let room : leb (userbuf_size - 1) (length p) ≡ false = ground arith in
    let taken =
      Takes-within fuel (p ++ bytes) (omega (arith, size)) (omega (arith, size))
        (AreChars-append p bytes h k) in
    process_user_input-taken fuel (holding p) bytes room
      (ap (take_lines fuel) (receive-holding p bytes le) ∙ taken)
