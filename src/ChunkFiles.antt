-- ===== src/ChunkFiles.antt =====
-- util.c: the files that list chunks, read into a table; chunk.c and make_chunks.c: how such a list
-- is made. A file is its bytes, `none` if it cannot be opened.
pub mod Listing
pub mod Bounds
use bittorrent_with_congesti.Base.{
  ℕ, zero, suc, ◌+◌, ◌-◌, ◌*◌, ◌/◌, Bool, true, false, Option, none, some, List, [], ◌∷◌, ◌++◌, map,
  if◌then◌else◌, ◌==◌, leb, length, take, drop, Outcome, done, crash, out_of_bounds, ◌>>=◌,
}
use bittorrent_with_congesti.Chunks.{Chunk, ChunkState, owned, not_started, Request, chunk_size}
use bittorrent_with_congesti.Hex.{binary2hex, hex2binary}
use bittorrent_with_congesti.Text.{
  newline, space, next_line, lines_of, next_lines, scan_int, scan_word, decimal_onto,
}

-- `MAX_LINE_LENGTH - 1`, the bytes that `fgets` reads into the buffer for a line
abbrev pub line_room : ℕ
line_room = 254

-- What memory from `malloc` and a local array hold before they are written.
pub record Memory : Type 0 where
  pub chunks : ℕ → Chunk
  pub hash : List ℕ

-- the block `request->chunks` for `n` chunks from index `i` on
abbrev pub unwritten : Memory → (n i : ℕ) → List Chunk
unwritten m zero i = []
unwritten m (suc n) i = m.chunks i ∷ unwritten m n (suc i)

abbrev pub is_comment : List ℕ → Bool
is_comment [] = false
is_comment (c ∷ cs) = c == b'#'

-- the first loop: the lines that are no comments
abbrev pub count_lines : List (List ℕ) → ℕ
count_lines [] = 0
count_lines (l ∷ ls) = if is_comment l then count_lines ls else suc (count_lines ls)

-- `"%d %s"` on a line: the id, which keeps its value if no number is read, and the array `hash` of
-- 41 bytes, which keeps its bytes where no word is written. A word of more than 40 bytes leaves it.
abbrev write_word : (hash word : List ℕ) → Outcome (List ℕ)
write_word hash word =
    if leb (length word) 40
    then done ((word ++ (0 ∷ [])) ++ drop (length word + 1) hash)
    else crash out_of_bounds

abbrev scan_hash : (hash rest : List ℕ) → Outcome (List ℕ)
scan_hash hash rest = elim (scan_word rest) [
  | none ↦ done hash
  | some (word, _) ↦ write_word hash word
]

abbrev pub scan_line : (id : ℕ) → (hash line : List ℕ) → Outcome (ℕ × List ℕ)
scan_line id hash line = elim (scan_int line) [
  | none ↦ done (id, hash)
  | some (value, rest) ↦ scan_hash hash rest >>= λ hash'. done (value, hash')
]

-- what a line makes of the chunk at its index
abbrev pub entry : ChunkState → (id : ℕ) → (hash : List ℕ) → Chunk
entry state id hash = record {
  id = id;
  hash = hex2binary (take 40 hash);
  state = state;
  buffer = none;
  received_seq_number = 0;
  received_byte_number = 0;
}

-- The second loop, which writes a chunk for every line: `room` chunks of the block are left, from
-- index `i` on.
unfoldable pub read_chunks :
    Memory → ChunkState → (room i : ℕ) → (hash : List ℕ) → List (List ℕ) → Outcome (List Chunk)
read_chunks m state room i hash [] = done (unwritten m room i)
read_chunks m state zero i hash (l ∷ ls) = crash out_of_bounds
read_chunks m state (suc room) i hash (l ∷ ls) = do
  (id, hash') ← scan_line (m.chunks i).id hash l
  rest ← read_chunks m state room (suc i) hash' ls
  done (entry state id hash' ∷ rest)

-- OWNED for a table of the peer, NOT_STARTED for a request, which has a file for its output
abbrev pub state_for : Option (List ℕ) → ChunkState
state_for none = owned
state_for (some name) = not_started

-- `parse_has_get_chunk_file` and `parse_total_chunk_file`, after the lines that the second skips.
-- `memcpy` takes 255 bytes from the name's array; what is read of the copy is the name.
unfoldable pub read_request :
    Memory → (output_filename : Option (List ℕ)) → List (List ℕ) → Outcome Request
unfolding read_chunks
read_request m name lines = do
  chunks ← read_chunks m (state_for name) (count_lines lines) 0 m.hash lines
  done (record { filename = name; chunks = chunks })

abbrev found : Outcome Request → Outcome (Option Request)
found o = o >>= λ r. done (some r)

unfoldable pub parse_has_get_chunk_file :
    Memory
    → (file : Option (List ℕ)) → (output_filename : Option (List ℕ)) → Outcome (Option Request)
unfolding read_request next_lines
parse_has_get_chunk_file m none name = done none
parse_has_get_chunk_file m (some s) name = found (read_request m name (lines_of line_room s))

abbrev pub drop_line : List ℕ → List ℕ
drop_line s = (next_line line_room s).1

unfoldable pub parse_total_chunk_file :
    Memory
    → (file : Option (List ℕ)) → (output_filename : Option (List ℕ)) → Outcome (Option Request)
unfolding read_request next_lines next_line
parse_total_chunk_file m none name = done none
parse_total_chunk_file m (some s) name =
    found (read_request m name (lines_of line_room (drop_line (drop_line s))))

-- `make_chunks`: the hash of each block of the file, the last of which may be shorter. `n` blocks
-- are left at most.
unfoldable pub hash_blocks : (sha1 : List ℕ → List ℕ) → (n : ℕ) → List ℕ → List (List ℕ)
hash_blocks sha1 zero file = []
hash_blocks sha1 (suc n) [] = []
hash_blocks sha1 (suc n) (b ∷ bs) =
    sha1 (take chunk_size (b ∷ bs)) ∷ hash_blocks sha1 n (drop chunk_size (b ∷ bs))

-- `get_numchunks`
abbrev pub get_numchunks : List ℕ → ℕ
get_numchunks file = (length file + (chunk_size - 1)) / chunk_size

abbrev pub make_chunks : (sha1 : List ℕ → List ℕ) → List ℕ → List (List ℕ)
make_chunks sha1 file = hash_blocks sha1 (length file) file

-- a line that make_chunks.c prints, in front of `rest`
abbrev pub chunk_line : (i : ℕ) → (hash rest : List ℕ) → List ℕ
chunk_line i hash rest = decimal_onto (i + 1) i (space ∷ (binary2hex hash ++ (newline ∷ rest)))

abbrev pub listing : (i : ℕ) → List (List ℕ) → List ℕ
listing i [] = []
listing i (h ∷ hs) = chunk_line i h (listing (suc i) hs)
