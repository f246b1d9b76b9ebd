-- ===== src/Text.antt =====
-- What the parsers use of the C library: `fgets` and `sscanf` with `%d` and `%s`, `%d` of `printf`,
-- on texts as lists of bytes without NUL.
pub mod Decimal
pub mod Lines
pub mod Words
use bittorrent_with_congesti.Base.{
  ℕ, zero, suc, ◌+◌, ◌-◌, ◌*◌, ◌/◌, ◌%◌, ◌^◌, Bool, ◌&&◌, ◌||◌, Option, none, some, List, [], ◌∷◌,
  ◌++◌, ◌==◌, if◌then◌else◌, ltb, leb, length, sub32, drop,
}

abbrev pub newline : ℕ
newline = 10

abbrev pub space : ℕ
space = 32

-- `isspace`
abbrev pub is_space : ℕ → Bool
is_space c = (c == space) || (leb 9 c && leb c 13)

-- `isdigit`
abbrev pub is_digit : ℕ → Bool
is_digit c = leb b'0' c && leb c b'9'

-- `fgets` with a buffer of `room + 1` bytes: the line, with its newline if it fits, and the rest of
-- the stream
unfoldable pub next_line : (room : ℕ) → List ℕ → List ℕ × List ℕ
next_line zero s = ([], s)
next_line (suc room) [] = ([], [])
next_line (suc room) (c ∷ cs) =
    let (line, rest) = next_line room cs in if c == newline then (c ∷ [], cs) else (c ∷ line, rest)

-- `while (fgets(line, room + 1, f))`, at most `fuel` times
unfoldable pub next_lines : (fuel room : ℕ) → List ℕ → List (List ℕ)
unfolding next_line
next_lines zero room s = []
next_lines (suc fuel) room [] = []
next_lines (suc fuel) room (c ∷ cs) =
    let (line, rest) = next_line room (c ∷ cs) in line ∷ next_lines fuel room rest

-- Each call takes a byte, so there are no more lines than bytes.
abbrev pub lines_of : (room : ℕ) → List ℕ → List (List ℕ)
lines_of room s = next_lines (length s) room s

abbrev pub skip_spaces : List ℕ → List ℕ
skip_spaces [] = []
skip_spaces (c ∷ cs) = if is_space c then skip_spaces cs else c ∷ cs

-- the digits that are read after `value`, and what follows them
abbrev pub scan_digits : (value : ℕ) → List ℕ → ℕ × List ℕ
scan_digits value [] = (value, [])
scan_digits value (c ∷ cs) =
    if is_digit c then scan_digits (value * 10 + (c - b'0')) cs else (value, c ∷ cs)

-- a number, if one stands here; an `int` that it overflows gets its low bits
abbrev scan_number : List ℕ → Option (ℕ × List ℕ)
scan_number [] = none
scan_number (c ∷ cs) =
    let (value, rest) = scan_digits 0 (c ∷ cs) in
    if is_digit c then some (value % 2 ^ 32, rest) else none

abbrev negated : Option (ℕ × List ℕ) → Option (ℕ × List ℕ)
negated none = none
negated (some (value, rest)) = some (sub32 0 value, rest)

abbrev scan_signed : List ℕ → Option (ℕ × List ℕ)
scan_signed [] = none
scan_signed (c ∷ cs) =
    if c == b'-'
    then negated (scan_number cs)
    else if c == b'+'
    then scan_number cs
    else scan_number (c ∷ cs)

-- `%d`
abbrev pub scan_int : List ℕ → Option (ℕ × List ℕ)
scan_int s = scan_signed (skip_spaces s)

-- a run of bytes that are no spaces
abbrev pub scan_run : List ℕ → List ℕ × List ℕ
scan_run [] = ([], [])
scan_run (c ∷ cs) =
    let (word, rest) = scan_run cs in if is_space c then ([], c ∷ cs) else (c ∷ word, rest)

-- `%s`; there is none at the end of the text
abbrev pub scan_word : List ℕ → Option (List ℕ × List ℕ)
scan_word s = elim (skip_spaces s) [ [] ↦ none | c ∷ cs ↦ some (scan_run (c ∷ cs)) ]

-- `%d` of `printf` for a number that is not negative, in front of `rest`; fuel for the digits
unfoldable pub decimal_onto : (fuel n : ℕ) → List ℕ → List ℕ
decimal_onto zero n rest = rest
decimal_onto (suc fuel) n rest =
    let more = decimal_onto fuel (n / 10) ((b'0' + n % 10) ∷ rest) in
    if ltb n 10 then (b'0' + n) ∷ rest else more

-- There are no more digits than `n + 1`.
abbrev pub decimal : ℕ → List ℕ
decimal n = decimal_onto (n + 1) n []
