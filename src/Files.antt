-- ===== src/Files.antt =====
-- file.c: files read and written at an offset, on the files of a directory. Names and contents are
-- lists of bytes, and an `int` is a number below `2 ^ 32`.
pub mod Blocks
pub mod Access
pub mod Deposit
use bittorrent_with_congesti.Base.{
  ℕ, zero, suc, ◌+◌, ◌-◌, Bool, Option, none, some, List, [], ◌∷◌, ◌++◌, if◌then◌else◌, is_neg,
  sub32, minus_one, eq_bytes, length, take, drop, replicate,
}

-- the files, and which names `open` may open or create
pub record Disk : Type 0 where
  pub may_open : List ℕ → Bool
  pub contents : List ℕ → Option (List ℕ)

-- an open file
pub record Handle : Type 0 where
  pub name : List ℕ
  pub offset : ℕ

abbrev bytes_of : Option (List ℕ) → List ℕ
bytes_of none = []
bytes_of (some bytes) = bytes

-- a file's bytes; those of a file that is not there are none
abbrev pub file : Disk → List ℕ → List ℕ
file d name = bytes_of (d.contents name)

abbrev pub store : Disk → List ℕ → List ℕ → Disk
store d name bytes = record d {
  contents = λ other. if eq_bytes other name then some bytes else d.contents other;
}

-- `open_file`: `open` with `O_RDWR | O_CREAT`
unfoldable pub open_file : Disk → List ℕ → Disk × Option Handle
open_file d name =
    if d.may_open name
    then (store d name (file d name), some (record { name = name; offset = 0 }))
    else (d, none)

-- `lseek` with `SEEK_SET`; it refuses an offset below 0.
abbrev pub lseek : Handle → (offset : ℕ) → Handle
lseek h offset = if is_neg offset then h else record h { offset = offset }

-- a file's bytes with these at an offset; the gap behind a shorter file is filled with zeros.
abbrev pub splice : List ℕ → (offset : ℕ) → List ℕ → List ℕ
splice old offset bytes =
    take offset (old ++ replicate (offset - length old) 0)
    ++ (bytes ++ drop (offset + length bytes) old)

-- `write` of these bytes: all are written. `write` of no bytes changes nothing.
abbrev write_bytes : Disk → Handle → List ℕ → Disk
write_bytes d h [] = d
write_bytes d h (c ∷ cs) = store d h.name (splice (file d h.name) h.offset (c ∷ cs))

-- `close_file` of a handle that `open` has given: the descriptor is released, the files stay.
abbrev pub close_file : Disk → Handle → Disk
close_file d h = d

-- what `write_file`, `create_file` and `read_file` do with the file that they have opened, or not
abbrev pub write_to : Disk × Option Handle → (bytes : List ℕ) → (offset : ℕ) → Disk × ℕ
write_to (d, none) bytes offset = (d, minus_one)
write_to (d, some h) bytes offset =
    (close_file (write_bytes d (lseek h offset) bytes) h, length bytes)

abbrev pub read_from : Disk × Option Handle → (size offset : ℕ) → Disk × List ℕ × ℕ
read_from (d, none) size offset = (d, [], minus_one)
read_from (d, some h) size offset =
    let bytes = take size (drop (lseek h offset).offset (file d h.name)) in
    (close_file d h, bytes, length bytes)

-- `write_file`: the result of `write`
unfoldable pub write_file : Disk → List ℕ → (bytes : List ℕ) → (offset : ℕ) → Disk × ℕ
unfolding open_file
write_file d name bytes offset = write_to (open_file d name) bytes offset

-- `create_file`: one NUL at the last place
unfoldable pub create_file : Disk → List ℕ → (size : ℕ) → Disk × ℕ
unfolding open_file
create_file d name size = write_to (open_file d name) (0 ∷ []) (sub32 size 1)

-- `read_file`: the bytes that `read` puts into the buffer, and its result
unfoldable pub read_file : Disk → List ℕ → (size offset : ℕ) → Disk × List ℕ × ℕ
unfolding open_file
read_file d name size offset = read_from (open_file d name) size offset
