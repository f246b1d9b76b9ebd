-- ===== src/UserInput.antt =====
-- input_buffer.c: the buffer of the user's input, out of which whole lines are taken.
pub mod Split
pub mod Refine
pub mod Reads
use bittorrent_with_congesti.Base.{
  ℕ, zero, suc, ◌+◌, ◌-◌, ◌%◌, ◌^◌, Option, none, some, List, [], ◌∷◌, ◌++◌, ◌==◌, if◌then◌else◌,
  leb, sub32, length, take, drop, set, Outcome, done, crash, exited, unfinished, ◌>>=◌,
}
use bittorrent_with_congesti.Text.{newline}

-- `USERBUF_SIZE`
abbrev pub userbuf_size : ℕ
userbuf_size = 8191

-- `struct user_iobuf`; `buf` has `USERBUF_SIZE + 1` bytes.
pub record UserBuffer : Type 0 where
  pub buf : List ℕ
  pub cur : ℕ

-- what `bzero` leaves
unfoldable pub zeros : ℕ → List ℕ
zeros zero = []
zeros (suc n) = 0 ∷ zeros n

-- `create_userbuf`; the allocations succeed
abbrev pub create_userbuf : UserBuffer
create_userbuf = record { buf = zeros (userbuf_size + 1); cur = 0 }

abbrev one_more : Option ℕ → Option ℕ
one_more none = none
one_more (some i) = some (suc i)

-- `strchr(buf, '\n')`, as an offset
abbrev pub find_newline : List ℕ → Option ℕ
find_newline [] = none
find_newline (c ∷ cs) =
    if c == newline then some 0 else if c == 0 then none else one_more (find_newline cs)

-- `memmove` of the bytes behind the line, which `*ret = '\0'` has ended; the bytes at the end stay.
abbrev pub shift : (offset : ℕ) → List ℕ → List ℕ
shift offset buf =
    let ended = set buf offset 0 in
    take (userbuf_size - offset) (drop (offset + 1) ended) ++ drop (userbuf_size - offset) ended

-- The loop: the lines handed to `handle_line`, and the buffer that is left. `none` says that it
-- still runs when the fuel is used up.
unfoldable pub take_lines : (fuel : ℕ) → UserBuffer → Option (List (List ℕ) × UserBuffer)
take_lines zero b = none
take_lines (suc fuel) b = elim (find_newline b.buf) [
  | none ↦ some ([], b)
  | some offset ↦
      elim (take_lines fuel (record { buf = shift offset b.buf; cur = sub32 b.cur (offset + 1) })) [
        | none ↦ none
        | some (lines, b') ↦ some (take offset b.buf ∷ lines, b')
      ]
]

-- `read` of these bytes, as many as there is room for, behind the `cur` bytes of the buffer
abbrev pub receive : UserBuffer → List ℕ → UserBuffer
receive b bytes =
    let got = take (userbuf_size - b.cur) bytes in
    record {
      buf = take b.cur b.buf ++ (got ++ drop (b.cur + length got) b.buf);
      cur = b.cur + length got;
    }

abbrev ended : Option (List (List ℕ) × UserBuffer) → Outcome (List (List ℕ) × UserBuffer)
ended none = crash unfinished
ended (some r) = done r

-- `process_user_input`, given what `read` finds
unfoldable pub process_user_input :
    (fuel : ℕ) → UserBuffer → List ℕ → Outcome (List (List ℕ) × UserBuffer)
unfolding take_lines
process_user_input fuel b bytes =
    if leb (userbuf_size - 1) b.cur then crash exited else ended (take_lines fuel (receive b bytes))
