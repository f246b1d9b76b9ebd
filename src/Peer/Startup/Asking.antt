-- ===== src/Peer/Startup/Asking.antt =====
-- peer.c: a user's line that asks for the chunks of a file.
use mathlib.Core.List.{flatten}
use bittorrent_with_congesti.Base.{
  ℕ, zero, suc, ◌-◌, ◌^◌, ◌<◌, ◌≤◌, ◌≡◌, refl, ap, ◌∙◌, arith, true, false, Option, none, some,
  List, [], ◌∷◌, ◌++◌, map, eq_bytes, length, take, drop, take-le, Outcome, done, ◌>>=◌,
}
use bittorrent_with_congesti.Chunks.{Request, not_started, chunk_size}
use bittorrent_with_congesti.ChunkFiles.{Memory, listing, parse_has_get_chunk_file}
use bittorrent_with_congesti.ChunkFiles.Listing.{AreHashes, table, parse_has_get_chunk_file-listing}
use bittorrent_with_congesti.Files.{Disk, file, create_file}
use bittorrent_with_congesti.Files.Blocks.{block, block-splice_self}
use bittorrent_with_congesti.Files.Access.{create_file-other, create_file-file}
use bittorrent_with_congesti.Peer.{Peer, Effect}
use bittorrent_with_congesti.Peer.Loop.{flood, whohas_flooding, process_get}
use bittorrent_with_congesti.Peer.Startup.{
  scan_word_upto, scan_out, scan_files, scan_get, get_chunks, handle_get, handle_user_input,
}
use bittorrent_with_congesti.Text.{space, scan_word}
use bittorrent_with_congesti.Text.Words.{AreVisible, scan_word-stop, scan_word-end}
use bittorrent_with_congesti.Wire.Whohas.{pending, asking, AreGroups, make_whohas-asking}
use bittorrent_with_congesti.Wire.{Packet}
use bittorrent_with_congesti.Wire.Build.{make_whohas}

-- a name as it may stand in the line
pub record IsName (name : List ℕ) : Type 0 where
  pub visible : AreVisible name
  pub named : 1 ≤ length name
  pub short : length name ≤ 120

drop-le : (n : ℕ) (xs : List ℕ) → length xs ≤ n → drop n xs ≡ []
drop-le zero [] h = refl
drop-le (suc n) [] h = refl
drop-le zero (x ∷ xs) h = absurd (omega arith)
drop-le (suc n) (x ∷ xs) h = drop-le n xs (omega arith)

scan_word_upto-some :
    (s : List ℕ) {word rest : List ℕ}
    → scan_word s ≡ some (word, rest)
    → scan_word_upto 120 s ≡ some (take 120 word, drop 120 word ++ rest)
scan_word_upto-some s e = rw (e, scan_word_upto)

scan_word_upto-short :
    (s : List ℕ) {word rest : List ℕ}
    → length word ≤ 120
    → scan_word s ≡ some (word, rest)
    → scan_word_upto 120 s ≡ some (word, rest)
scan_word_upto-short s {word} {rest} short e =
    scan_word_upto-some s e ∙ λ i. some (take-le 120 word short i, drop-le 120 word short i ++ rest)

scan_out-some :
    (chunkf rest : List ℕ) {outf more : List ℕ}
    → scan_word_upto 120 rest ≡ some (outf, more)
    → scan_out chunkf rest ≡ (chunkf, outf)
scan_out-some chunkf rest e = rw (e, scan_out)

scan_files-some :
    (s : List ℕ) {chunkf rest : List ℕ}
    → scan_word_upto 120 s ≡ some (chunkf, rest)
    → scan_files (some s) ≡ scan_out chunkf rest
scan_files-some s e = rw (e, scan_files)

abbrev pub get_line : (chunkf outf : List ℕ) → List ℕ
get_line chunkf outf = b'G' ∷ b'E' ∷ b'T' ∷ space ∷ (chunkf ++ (space ∷ outf))

scan_get-get_line :
    (chunkf outf : List ℕ)
    → IsName chunkf
    → IsName outf
    → scan_get (get_line chunkf outf) ≡ (chunkf, outf)
scan_get-get_line chunkf outf c o =
    scan_files-some (space ∷ (chunkf ++ (space ∷ outf))) (
      scan_word_upto-short (space ∷ (chunkf ++ (space ∷ outf))) c.short
        (scan_word-stop chunkf space outf c.visible c.named refl))
    ∙ scan_out-some chunkf (space ∷ outf)
        (scan_word_upto-short (space ∷ outf) o.short (scan_word-end outf o.visible o.named))

pending-table : (i : ℕ) (hs : List (List ℕ)) → pending (table not_started i hs) ≡ hs
pending-table i [] = refl
pending-table i (h ∷ hs) = ap (λ l. h ∷ l) (pending-table (suc i) hs)

length-table : (i : ℕ) (hs : List (List ℕ)) → length (table not_started i hs) ≡ length hs
length-table i [] = refl
length-table i (h ∷ hs) = ap suc (length-table (suc i) hs)

get_chunks-idle :
    (m : Memory) (fuel : ℕ) (p : Peer) (d : Disk) (chunkf outf : List ℕ) {r : Request}
    {packets : List Packet}
    → p.current_request ≡ none
    → parse_has_get_chunk_file m (d.contents chunkf) (some outf) ≡ done (some r)
    → make_whohas fuel r ≡ some packets
    → get_chunks m fuel p d chunkf outf
      ≡ done (record p { current_request = some r }, flood p.config.identity p.config.peers packets)
unfolding process_get
get_chunks-idle m fuel p d chunkf outf idle parsed made =
    rw (idle, get_chunks) (rw parsed (rw (idle, process_get) (rw (made, whohas_flooding))))

get_chunks-busy :
    (m : Memory) (fuel : ℕ) (p : Peer) (d : Disk) (chunkf outf : List ℕ) {r : Request}
    → p.current_request ≡ some r
    → get_chunks m fuel p d chunkf outf ≡ done (p, [])
get_chunks-busy m fuel p d chunkf outf busy =
    let parse : Outcome (Peer × List Effect) =
      parse_has_get_chunk_file m (d.contents chunkf) (some outf) >>= λ parsed.
      process_get fuel p parsed in
    let chosen = λ (o : Option Request). elim o as (λ _. Outcome (Peer × List Effect)) [
      | some _ ↦ done (p, [])
      | none ↦ parse
    ] in
    ap chosen busy

handle_get-some :
    (m : Memory) (fuel : ℕ) (p : Peer) (d : Disk) (chunkf outf : List ℕ) {r : Peer × List Effect}
    → 1 ≤ length outf
    → get_chunks m fuel p (create_file d outf chunk_size).0 chunkf outf ≡ done r
    → handle_get m fuel p d (chunkf, outf) ≡ done (r.0, (create_file d outf chunk_size).0, r.1)
handle_get-some m fuel p d chunkf [] named h = absurd (omega arith)
handle_get-some m fuel p d chunkf (c ∷ cs) named h = rw (h, handle_get)

-- A user asks for the chunks that a file lists, in a line "GET <file> <output>" of two different
-- names of 1 to 120 bytes without spaces. The peer has no request, and the file is what
-- make_chunks.c prints for at most 255 hashes of 20 bytes; there is fuel for them. Then the output
-- file is made, the request is for these chunks, none of them started, with the output file, and
-- every other peer is sent packets of 1 to 74 hashes each that together ask for each hash once and
-- in order.
pub handle_user_input-get_line :
    (m : Memory) (fuel : ℕ) (p : Peer) (d : Disk) (chunkf outf : List ℕ) (hs : List (List ℕ))
    → IsName chunkf
    → IsName outf
    → eq_bytes chunkf outf ≡ false
    → p.current_request ≡ none
    → d.contents chunkf ≡ some (listing 0 hs)
    → AreHashes hs
    → length hs < 2 ^ 8
    → length hs < fuel
    → (gs : List (List (List ℕ))) × (flatten gs ≡ hs)
      × AreGroups gs
      × (handle_user_input m fuel p d (get_line chunkf outf)
          ≡ done (
            record p {
              current_request =
                  some (record { filename = some outf; chunks = table not_started 0 hs });
            },
            (create_file d outf chunk_size).0,
            flood p.config.identity p.config.peers (map asking gs),
          ))
unfolding handle_user_input
handle_user_input-get_line m fuel p d chunkf outf hs c o other idle listed ok small enough =
    let request : Request = record { filename = some outf; chunks = table not_started 0 hs } in
    let (gs, made, all, groups) =
      make_whohas-asking fuel request (omega (arith, length-table 0 hs))
        (omega (arith, length-table 0 hs)) in
    let d' = (create_file d outf chunk_size).0 in
    let parsed =
      ap (λ f. parse_has_get_chunk_file m f (some outf))
        (create_file-other d outf chunkf other ∙ listed)
      ∙ parse_has_get_chunk_file-listing m (some outf) hs ok (omega arith) in
    (
      gs,
      all ∙ pending-table 0 hs,
      groups,
      ap (handle_get m fuel p d) (scan_get-get_line chunkf outf c o)
          ∙ handle_get-some m fuel p d chunkf outf o.named
              (get_chunks-idle m fuel p d' chunkf outf idle parsed made),
    )

-- A line "GET <file> <output>", of two names of 1 to 120 bytes without spaces, comes while a
-- request is under way. The request stays and nothing is sent, but the output file, if it may be
-- opened, is written to: the place of its last byte in a first block of 512 KiB then holds 0,
-- whatever stood there.
pub handle_user_input-busy :
    (m : Memory) (fuel : ℕ) (p : Peer) (d : Disk) (chunkf outf : List ℕ) (r : Request)
    → IsName chunkf
    → IsName outf
    → p.current_request ≡ some r
    → d.may_open outf ≡ true
    → (d' : Disk) × (handle_user_input m fuel p d (get_line chunkf outf) ≡ done (p, d', []))
      × (block (file d' outf) (chunk_size - 1) 1 ≡ 0 ∷ [])
unfolding handle_user_input
handle_user_input-busy m fuel p d chunkf outf r c o busy allowed =
    let d' = (create_file d outf chunk_size).0 in
    (
      d',
      ap (handle_get m fuel p d) (scan_get-get_line chunkf outf c o)
          ∙ handle_get-some m fuel p d chunkf outf o.named
              (get_chunks-busy m fuel p d' chunkf outf busy),
      ap (λ f. block f (chunk_size - 1) 1) (create_file-file d outf allowed)
          ∙ block-splice_self (file d outf) (chunk_size - 1) (0 ∷ []),
    )
