-- ===== src/ChunkFiles/Bounds.antt =====
-- util.c and chunk.c: the bounds of the arrays that the lists of chunks are read into and made in.
use bittorrent_with_congesti.Base.{
  ℕ, zero, suc, ◌<◌, ◌≤◌, ◌≡◌, refl, ap, ◌∙◌, arith, true, Bool-cases, inl, inr, Option,
  Option-cases, some, List, [], ◌∷◌, ◌⊎◌, leb, length, length-drop, drop, Outcome, done, crash,
  out_of_bounds, Outcome-cases,
}
use bittorrent_with_congesti.Chunks.{ChunkState, chunk_size}
use bittorrent_with_congesti.Text.{lines_of, scan_int, scan_word}
use bittorrent_with_congesti.ChunkFiles.{
  line_room, Memory, is_comment, count_lines, write_word, scan_hash, scan_line, read_chunks,
  state_for, read_request, parse_has_get_chunk_file, hash_blocks, get_numchunks, make_chunks,
}

-- A line is read, or its word is too long.
abbrev IsInBounds {ℓ} : {A : Type ℓ} → Outcome A → Type 0
IsInBounds (done a) = Unit
IsInBounds (crash c) = c ≡ out_of_bounds

write_word-IsInBounds : (hash word : List ℕ) → IsInBounds (write_word hash word)
write_word-IsInBounds hash word = elim (Bool-cases (leb (length word) 40)) [
  | inl e ↦ rw e tt
  | inr e ↦ rw e refl
]

scan_hash-IsInBounds : (hash rest : List ℕ) → IsInBounds (scan_hash hash rest)
scan_hash-IsInBounds hash rest = elim (Option-cases (scan_word rest)) [
  | inl e ↦ rw (e, scan_hash) tt
  | inr ((word, _), e) ↦ rw (e, scan_hash) (write_word-IsInBounds hash word)
]

scan_line-IsInBounds : (id : ℕ) (hash line : List ℕ) → IsInBounds (scan_line id hash line)
scan_line-IsInBounds id hash line = elim (Option-cases (scan_int line)) [
  | inl e ↦ rw (e, scan_line) tt
  | inr ((value, rest), e) ↦ elim (Outcome-cases (scan_hash hash rest)) [
    | inl (h, f) ↦ rw (e, scan_line) (rw f tt)
    | inr (c, f) ↦ rw (e, scan_line) (rw f (rw f at (scan_hash-IsInBounds hash rest)))
  ]
]

-- A line more than there are chunks in the block: one of the writes leaves it.
read_chunks-overflow :
    (m : Memory) (state : ChunkState) (room i : ℕ) (hash : List ℕ) (ls : List (List ℕ))
    → room < length ls
    → read_chunks m state room i hash ls ≡ crash out_of_bounds
unfolding read_chunks
read_chunks-overflow m state room i hash [] lt = absurd (omega arith)
read_chunks-overflow m state zero i hash (l ∷ ls) lt = refl
read_chunks-overflow m state (suc room) i hash (l ∷ ls) lt =
    elim (Outcome-cases (scan_line (m.chunks i).id hash l)) [
      | inr (c, e) ↦ rw e (ap crash (rw e at (scan_line-IsInBounds (m.chunks i).id hash l)))
      | inl ((id, hash'), e) ↦
          rw (e, read_chunks-overflow m state room (suc i) hash' ls (omega arith))
    ]

-- The lines have a comment among them.
abbrev pub HasComment : List (List ℕ) → Type 0
HasComment [] = ⊥
HasComment (l ∷ ls) = (is_comment l ≡ true) ⊎ HasComment ls

count_lines-le : (ls : List (List ℕ)) → count_lines ls ≤ length ls
count_lines-le [] = omega arith
count_lines-le (l ∷ ls) = ground (arith, count_lines-le ls)

count_lines-HasComment : (ls : List (List ℕ)) → HasComment ls → count_lines ls < length ls
count_lines-HasComment [] h = absurd h
count_lines-HasComment (l ∷ ls) (inl e) = rw e (omega (arith, count_lines-le ls))
count_lines-HasComment (l ∷ ls) (inr h) = ground (arith, count_lines-HasComment ls h)

-- A file with a comment among its lines makes the parser write past the end of an array: the chunks
-- are counted without the comments, and a chunk is written for every line.
pub parse_has_get_chunk_file-HasComment :
    (m : Memory) (s : List ℕ) (name : Option (List ℕ))
    → HasComment (lines_of line_room s)
    → parse_has_get_chunk_file m (some s) name ≡ crash out_of_bounds
unfolding parse_has_get_chunk_file read_request
parse_has_get_chunk_file-HasComment m s name h = rw (
    read_chunks-overflow m (state_for name) (count_lines (lines_of line_room s)) 0 m.hash
      (lines_of line_room s) (count_lines-HasComment (lines_of line_room s) h))

length-hash_blocks :
    (sha1 : List ℕ → List ℕ) (n : ℕ) (file : List ℕ)
    → length file ≤ n
    → length (hash_blocks sha1 n file) ≡ get_numchunks file
unfolding hash_blocks
length-hash_blocks sha1 zero [] h = refl
length-hash_blocks sha1 zero (b ∷ bs) h = absurd (omega arith)
length-hash_blocks sha1 (suc n) [] h = refl
length-hash_blocks sha1 (suc n) (b ∷ bs) h =
    let left = length-drop chunk_size (b ∷ bs) in
    let rest = length-hash_blocks sha1 n (drop chunk_size (b ∷ bs)) (omega (arith, left)) in
    ap suc rest ∙ omega (arith, left)

-- `make_chunks` makes as many hashes as `get_numchunks` counts, for which room has been allocated.
pub length-make_chunks :
    (sha1 : List ℕ → List ℕ) (file : List ℕ) → length (make_chunks sha1 file) ≡ get_numchunks file
length-make_chunks sha1 file = length-hash_blocks sha1 (length file) file (omega arith)
