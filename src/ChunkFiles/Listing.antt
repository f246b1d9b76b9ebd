-- ===== src/ChunkFiles/Listing.antt =====
-- util.c and make_chunks.c: the list of chunks that `make_chunks` prints is read as their table.
use mathlib.Core.Path.{subst}
use mathlib.Core.List.{append_assoc, append-nil}
use bittorrent_with_congesti.Base.{
  ℕ, zero, suc, ◌+◌, ◌^◌, ◌<◌, ◌≤◌, ◌≡◌, refl, sym, ap, ◌∙◌, arith, true, false, Option, none, some,
  List, [], ◌∷◌, ◌++◌, leb, length, length-append, take, drop, take-append_self, done,
}
use bittorrent_with_congesti.Chunks.{Chunk, ChunkState, hash_size}
use bittorrent_with_congesti.Hex.{binary2hex, hex2binary}
use bittorrent_with_congesti.Hex.RoundTrip.{
  AreBytes, hex2binary-binary2hex, length-binary2hex, binary2hex-AreVisible,
}
use bittorrent_with_congesti.Text.Words.{AreVisible-AreInLine, scan_word-stop}
use bittorrent_with_congesti.Text.{
  newline, space, scan_int, next_line, next_lines, lines_of, decimal_onto,
}
use bittorrent_with_congesti.Text.Decimal.{
  decimal_onto-cons, decimal_onto-append, scan_int-decimal_onto,
}
use bittorrent_with_congesti.Text.Lines.{
  AreInLine, next_line-append, next_lines-nil, next_lines-cons, decimal_onto-AreInLine,
  length-decimal_onto,
}
use bittorrent_with_congesti.ChunkFiles.{
  line_room, Memory, is_comment, count_lines, scan_hash, scan_line, entry, read_chunks, state_for,
  read_request, parse_has_get_chunk_file, drop_line, parse_total_chunk_file, chunk_line, listing,
}

-- hashes of 20 bytes
abbrev pub AreHashes : List (List ℕ) → Type 0
AreHashes [] = Unit
AreHashes (h ∷ hs) = (length h ≡ hash_size) × AreBytes h × AreHashes hs

-- the table of these hashes, with ids from `i` on
abbrev pub table : ChunkState → (i : ℕ) → List (List ℕ) → List Chunk
table state i [] = []
table state i (h ∷ hs) =
    record {
      id = i;
      hash = h;
      state = state;
      buffer = none;
      received_seq_number = 0;
      received_byte_number = 0;
    }
    ∷ table state (suc i) hs

binary2hex-AreInLine : (hash : List ℕ) → AreBytes hash → AreInLine (binary2hex hash)
binary2hex-AreInLine hash bytes =
    subst AreInLine (append-nil (binary2hex hash))
      (AreVisible-AreInLine (binary2hex hash) [] (binary2hex-AreVisible hash bytes) tt)

-- a line without its newline, and with it
abbrev text_of : (i : ℕ) → (hash : List ℕ) → List ℕ
text_of i hash = decimal_onto (i + 1) i (space ∷ binary2hex hash)

abbrev line_of : (i : ℕ) → (hash : List ℕ) → List ℕ
line_of i hash = chunk_line i hash []

chunk_line-text_of :
    (i : ℕ) (hash rest : List ℕ) → chunk_line i hash rest ≡ text_of i hash ++ (newline ∷ rest)
chunk_line-text_of i hash rest =
    decimal_onto-append (i + 1) i (space ∷ binary2hex hash) (newline ∷ rest)

module _ (i : ℕ) (hash : List ℕ) (size : length hash ≡ hash_size) (bytes : AreBytes hash)
    (small : i < 2 ^ 31) where
  length-text_of : length (text_of i hash) < line_room
  length-text_of = omega (
    arith,
    length-decimal_onto 10 (i + 1) i (space ∷ binary2hex hash) (omega arith),
    length-binary2hex hash,
    size,
  )

  next_line-chunk_line :
      (rest : List ℕ) → next_line line_room (chunk_line i hash rest) ≡ (line_of i hash, rest)
  next_line-chunk_line rest =
      ap (next_line line_room) (chunk_line-text_of i hash rest)
      ∙ next_line-append line_room (text_of i hash) rest
          (decimal_onto-AreInLine (i + 1) i (space ∷ binary2hex hash)
            (refl, binary2hex-AreInLine hash bytes))
          length-text_of
      ∙ ap (λ (l : List ℕ). (l, rest)) (sym (chunk_line-text_of i hash []))

  not_comment : is_comment (line_of i hash) ≡ false
  not_comment =
      let (d, cs, lt, e) =
        decimal_onto-cons (i + 1) i (space ∷ (binary2hex hash ++ (newline ∷ []))) (omega arith) in
      ap is_comment e ∙ ground arith

-- what the array for a hash holds after this hash has been read into it
abbrev stored : (old hash : List ℕ) → List ℕ
stored old hash = (binary2hex hash ++ (0 ∷ [])) ++ drop (length (binary2hex hash) + 1) old

module _ (i : ℕ) (hash : List ℕ) (size : length hash ≡ hash_size) (bytes : AreBytes hash)
    (small : i < 2 ^ 31) where
  scan_line-line_of :
      (id : ℕ) (old : List ℕ) → scan_line id old (line_of i hash) ≡ done (i, stored old hash)
  scan_line-line_of id old =
      let number : scan_int (line_of i hash)
          ≡ some (i, space ∷ (binary2hex hash ++ (newline ∷ []))) =
        scan_int-decimal_onto (i + 1) i (binary2hex hash ++ (newline ∷ [])) (omega arith) small in
      let word =
        scan_word-stop (binary2hex hash) newline [] (binary2hex-AreVisible hash bytes)
          (omega (arith, length-binary2hex hash, size)) refl in
      let fits : leb (length (binary2hex hash)) 40 ≡ true =
        ground (arith, length-binary2hex hash, size) in
      let hashed : scan_hash old (space ∷ (binary2hex hash ++ (newline ∷ [])))
          ≡ done (stored old hash) =
        rw (word, scan_hash) (rw fits) in
      rw (number, scan_line) (rw hashed)

  hex2binary-stored : (old : List ℕ) → hex2binary (take 40 (stored old hash)) ≡ hash
  hex2binary-stored old =
      let tail = drop (length (binary2hex hash) + 1) old in
      let long : 40 ≡ length (binary2hex hash) = omega (arith, length-binary2hex hash, size) in
      ap hex2binary (
        ap (take 40) (append_assoc (binary2hex hash) (0 ∷ []) tail)
        ∙ ap (λ n. take n (binary2hex hash ++ ((0 ∷ []) ++ tail))) long
        ∙ take-append_self (binary2hex hash) ((0 ∷ []) ++ tail))
      ∙ hex2binary-binary2hex hash bytes

abbrev lines_from : (i : ℕ) → List (List ℕ) → List (List ℕ)
lines_from i [] = []
lines_from i (h ∷ hs) = line_of i h ∷ lines_from (suc i) hs

next_lines-listing :
    (fuel i : ℕ) (hs : List (List ℕ))
    → AreHashes hs
    → i + length hs < 2 ^ 31
    → length hs ≤ fuel
    → next_lines fuel line_room (listing i hs) ≡ lines_from i hs
next_lines-listing fuel i [] h small enough = next_lines-nil fuel line_room
next_lines-listing zero i (h ∷ hs) ok small enough = absurd (omega arith)
next_lines-listing (suc fuel) i (h ∷ hs) ok small enough =
    let (d, cs, _, e) =
      decimal_onto-cons (i + 1) i (space ∷ (binary2hex h ++ (newline ∷ listing (suc i) hs)))
        (omega arith) in
    next_lines-cons fuel line_room (listing i (h ∷ hs)) e
      (next_line-chunk_line i h ok.0 ok.1 (omega arith) (listing (suc i) hs))
    ∙ ap (λ ls. line_of i h ∷ ls)
        (next_lines-listing fuel (suc i) hs ok.2 (omega arith) (omega arith))

-- A listing has a byte for each of its lines at least.
length-listing : (i : ℕ) (hs : List (List ℕ)) → length hs ≤ length (listing i hs)
length-listing i [] = omega arith
length-listing i (h ∷ hs) = omega (
  arith,
  ap length (chunk_line-text_of i h (listing (suc i) hs)),
  length-append (text_of i h) (newline ∷ listing (suc i) hs),
  length-listing (suc i) hs,
)

count_lines-lines_from :
    (i : ℕ) (hs : List (List ℕ))
    → AreHashes hs
    → i + length hs < 2 ^ 31
    → count_lines (lines_from i hs) ≡ length hs
count_lines-lines_from i [] ok small = refl
count_lines-lines_from i (h ∷ hs) ok small =
    rw (not_comment i h ok.0 ok.1 (omega arith))
      (ap suc (count_lines-lines_from (suc i) hs ok.2 (omega arith)))

read_chunks-cons :
    (m : Memory) (state : ChunkState) (room i : ℕ) (old line : List ℕ) (ls : List (List ℕ)) {id : ℕ}
    {hash : List ℕ} {cs : List Chunk}
    → scan_line (m.chunks i).id old line ≡ done (id, hash)
    → read_chunks m state room (suc i) hash ls ≡ done cs
    → read_chunks m state (suc room) i old (line ∷ ls) ≡ done (entry state id hash ∷ cs)
unfolding read_chunks
read_chunks-cons m state room i old line ls e f = rw (e, read_chunks) (rw f)

read_chunks-lines_from :
    (m : Memory) (state : ChunkState) (i : ℕ) (old : List ℕ) (hs : List (List ℕ))
    → AreHashes hs
    → i + length hs < 2 ^ 31
    → read_chunks m state (length hs) i old (lines_from i hs) ≡ done (table state i hs)
read_chunks-lines_from m state i old [] ok small = unfold read_chunks in refl
read_chunks-lines_from m state i old (h ∷ hs) ok small =
    read_chunks-cons m state (length hs) i old (line_of i h) (lines_from (suc i) hs)
      (scan_line-line_of i h ok.0 ok.1 (omega arith) (m.chunks i).id old)
      (read_chunks-lines_from m state (suc i) (stored old h) hs ok.2 (omega arith))
    ∙ ap
        (λ b. done (
          record {
            id = i;
            hash = b;
            state = state;
            buffer = none;
            received_seq_number = 0;
            received_byte_number = 0;
          }
          ∷ table state (suc i) hs))
        (hex2binary-stored i h ok.0 ok.1 (omega arith) old)

read_request-lines_from :
    (m : Memory) (name : Option (List ℕ)) (hs : List (List ℕ))
    → AreHashes hs
    → length hs < 2 ^ 31
    → read_request m name (lines_from 0 hs)
      ≡ done (record { filename = name; chunks = table (state_for name) 0 hs })
unfolding read_request
read_request-lines_from m name hs ok small = rw (
  count_lines-lines_from 0 hs ok (omega arith),
  read_chunks-lines_from m (state_for name) 0 m.hash hs ok (omega arith),
)

lines_of-listing :
    (hs : List (List ℕ))
    → AreHashes hs
    → length hs < 2 ^ 31
    → lines_of line_room (listing 0 hs) ≡ lines_from 0 hs
lines_of-listing hs ok small =
    next_lines-listing (length (listing 0 hs)) 0 hs ok (omega arith) (length-listing 0 hs)

-- The file is what make_chunks.c prints for fewer than 2^31 hashes of 20 bytes. It is read, without
-- a fault, as the table of these hashes in order, with ids from 0 on; they are all owned, or none
-- is started if there is a file for the output.
pub parse_has_get_chunk_file-listing :
    (m : Memory) (name : Option (List ℕ)) (hs : List (List ℕ))
    → AreHashes hs
    → length hs < 2 ^ 31
    → parse_has_get_chunk_file m (some (listing 0 hs)) name
      ≡ done (some (record { filename = name; chunks = table (state_for name) 0 hs }))
unfolding parse_has_get_chunk_file
parse_has_get_chunk_file-listing m name hs ok small =
    rw (lines_of-listing hs ok small, read_request-lines_from m name hs ok small)

drop_line-append :
    (w rest : List ℕ)
    → AreInLine w
    → length w < line_room
    → drop_line (w ++ (newline ∷ rest)) ≡ rest
drop_line-append w rest h short =
    ap (λ (p : List ℕ × List ℕ). p.1) (next_line-append line_room w rest h short)

-- The master file has two lines of fewer than 254 bytes, and behind them what make_chunks.c prints.
-- It is read as the table of the hashes, as if the two lines were not there.
pub parse_total_chunk_file-listing :
    (m : Memory) (name : Option (List ℕ)) (first second : List ℕ) (hs : List (List ℕ))
    → AreInLine first
    → length first < line_room
    → AreInLine second
    → length second < line_room
    → AreHashes hs
    → length hs < 2 ^ 31
    → parse_total_chunk_file m
        (some (first ++ (newline ∷ (second ++ (newline ∷ listing 0 hs)))))
        name
      ≡ done (some (record { filename = name; chunks = table (state_for name) 0 hs }))
unfolding parse_total_chunk_file
parse_total_chunk_file-listing m name first second hs a b c d ok small =
    let skipped =
      ap drop_line (drop_line-append first (second ++ (newline ∷ listing 0 hs)) a b)
      ∙ drop_line-append second (listing 0 hs) c d in
    rw (skipped, lines_of-listing hs ok small, read_request-lines_from m name hs ok small)
