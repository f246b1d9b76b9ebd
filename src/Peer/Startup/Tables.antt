-- ===== src/Peer/Startup/Tables.antt =====
-- peer.c: a start whose files have the form that make_chunks.c and the master file have.
use mathlib.Core.Path.{subst}
use mathlib.Core.List.{append-nil}
use bittorrent_with_congesti.Base.{
  ℕ, ◌^◌, ◌<◌, ◌≤◌, ◌≡◌, refl, ap, ◌∙◌, arith, Option, none, some, List, [], ◌∷◌, ◌++◌, length,
  Outcome, done, ◌>>=◌,
}
use bittorrent_with_congesti.Chunks.{Request, owned}
use bittorrent_with_congesti.ChunkFiles.{
  line_room, listing, parse_has_get_chunk_file, parse_total_chunk_file,
}
use bittorrent_with_congesti.ChunkFiles.Listing.{
  AreHashes, table, parse_has_get_chunk_file-listing, parse_total_chunk_file-listing,
}
use bittorrent_with_congesti.Config.CommandLine.{Settings}
use bittorrent_with_congesti.Congestion.{init_controller}
use bittorrent_with_congesti.Peer.Startup.{
  Fresh, Started, past_literal, word_of, name_behind, name_of_line, master_name, started,
  with_tables, peer_run_start,
}
use bittorrent_with_congesti.Spiffy.{Spiffy, spiffy_init}
use bittorrent_with_congesti.Text.{newline, space, next_line, scan_word}
use bittorrent_with_congesti.Text.Lines.{AreInLine, next_line-append}
use bittorrent_with_congesti.Text.Words.{AreVisible, AreVisible-AreInLine, scan_word-stop}
use bittorrent_with_congesti.Tracker.{init_tracker}
use bittorrent_with_congesti.UserInput.{create_userbuf}

-- a path as it may stand in the first line of the master file
pub record IsPath (path : List ℕ) : Type 0 where
  pub visible : AreVisible path
  pub named : 1 ≤ length path
  pub short : length path < 240

abbrev pub file_line : (path : List ℕ) → List ℕ
file_line path = b'F' ∷ b'i' ∷ b'l' ∷ b'e' ∷ b':' ∷ space ∷ path

abbrev pub master_file : (path second : List ℕ) → (hs : List (List ℕ)) → List ℕ
master_file path second hs = file_line path ++ (newline ∷ (second ++ (newline ∷ listing 0 hs)))

file_line-AreInLine : (path : List ℕ) → IsPath path → AreInLine (file_line path)
file_line-AreInLine path ok =
    subst (λ p. AreInLine (file_line p)) (append-nil path)
      (refl, (refl, (refl, (refl, (refl, (refl, AreVisible-AreInLine path [] ok.visible tt))))))

master_name-some :
    (file : List ℕ) {line s word rest : List ℕ}
    → (next_line line_room file).0 ≡ line
    → past_literal (b'F' ∷ b'i' ∷ b'l' ∷ b'e' ∷ b':' ∷ []) line ≡ some s
    → scan_word s ≡ some (word, rest)
    → master_name file ≡ word
master_name-some file e f g = ap name_of_line e ∙ ap name_behind f ∙ ap word_of g

master_name-master_file :
    (path second : List ℕ) (hs : List (List ℕ))
    → IsPath path
    → master_name (master_file path second hs) ≡ path
master_name-master_file path second hs ok =
    master_name-some (master_file path second hs)
      (ap (λ (l : List ℕ × List ℕ). l.0)
        (next_line-append line_room (file_line path) (second ++ (newline ∷ listing 0 hs))
          (file_line-AreInLine path ok) (omega (arith, ok.short))))
      refl (scan_word-stop path newline [] ok.visible ok.named refl)

-- The peer's file of chunks is what make_chunks.c prints for fewer than 2^31 hashes of 20 bytes. So
-- is the chunk file behind its first two lines, of which the first names the data file by a path of
-- 1 to 239 bytes without spaces, and the second has fewer than 254 bytes. Then the peer starts,
-- whatever becomes of the simulator: with the two tables, all their chunks owned, no request, no
-- connections, fresh streams and windows for the downloads that are allowed, an empty input buffer,
-- and the path.
pub peer_run_start-tables :
    (fresh : Fresh) (contents : List ℕ → Option (List ℕ)) (inet_aton : List ℕ → Option ℕ)
    (router : Option (List ℕ)) (spiffy : Spiffy) (s : Settings) (now : ℕ) (path second : List ℕ)
    (has total : List (List ℕ))
    → contents s.has_chunk_file ≡ some (listing 0 has)
    → contents s.chunk_file ≡ some (master_file path second total)
    → IsPath path
    → AreInLine second
    → length second < line_room
    → AreHashes has
    → length has < 2 ^ 31
    → AreHashes total
    → length total < 2 ^ 31
    → peer_run_start fresh contents inet_aton router spiffy s now
      ≡ done (
          some (record {
            peer = record {
              config = s.config;
              tracker = init_tracker (fresh.downloads s.max_conn) (fresh.uploads s.max_conn);
              controller = init_controller (fresh.windows s.max_conn) now;
              has_chunk_table = record { filename = none; chunks = table owned 0 has };
              total_chunk_table = record { filename = none; chunks = table owned 0 total };
              current_request = none;
              connections = [];
            };
            userbuf = create_userbuf;
            spiffy =
                (spiffy_init inet_aton spiffy router s.config.identity
                  (record { ip = 0; port = s.myport })).0;
            master_data_file_name = path;
          }))
unfolding peer_run_start
peer_run_start-tables fresh contents inet_aton router spiffy s now path second has total e f p
      second_line short ok small ok' small' =
    let spiffy' =
      (spiffy_init inet_aton spiffy router s.config.identity
        (record { ip = 0; port = s.myport })).0 in
    let own =
      ap (λ (c : Option (List ℕ)). parse_has_get_chunk_file fresh.memory c none) e
      ∙ parse_has_get_chunk_file-listing fresh.memory none has ok small in
    let all =
      ap (λ (c : Option (List ℕ)). parse_total_chunk_file fresh.memory c none) f
      ∙ parse_total_chunk_file-listing fresh.memory none (file_line path) second total
          (file_line-AreInLine path p) (omega (arith, p.short)) second_line short ok' small' in
    let h : Request = record { filename = none; chunks = table owned 0 has } in
    let t : Request = record { filename = none; chunks = table owned 0 total } in
    let tables : (named : List ℕ) → Outcome (Option Started) =
      λ (named : List ℕ). done (some (started fresh s now spiffy' named h t)) in
    ap
      (λ (o : Outcome (Option Request)). o >>= λ a.
        parse_total_chunk_file fresh.memory (contents s.chunk_file) none >>= λ b.
        with_tables fresh s now spiffy' (contents s.chunk_file) a b)
      own
    ∙ ap
        (λ (o : Outcome (Option Request)).
          o >>= λ b. with_tables fresh s now spiffy' (contents s.chunk_file) (some h) b)
        all
    ∙ ap (λ c. with_tables fresh s now spiffy' c (some h) (some t)) f
    ∙ ap tables (master_name-master_file path second total p)
