-- ===== src/Peer/Startup.antt =====
-- peer.c: the start of `peer_run`, and a user's line.
pub mod Asking
pub mod Tables
pub mod Identity
use bittorrent_with_congesti.Base.{
  ℕ, Bool, true, false, Option, none, some, List, [], ◌∷◌, ◌++◌, ◌==◌, if◌then◌else◌, take, drop,
  Outcome, done, crash, exited, ◌>>=◌,
}
use bittorrent_with_congesti.Chunks.{Request, chunk_size}
use bittorrent_with_congesti.ChunkFiles.{
  Memory, line_room, parse_has_get_chunk_file, parse_total_chunk_file,
}
use bittorrent_with_congesti.Config.{Address}
use bittorrent_with_congesti.Config.CommandLine.{Settings, bt_init, bt_parse_command_line}
use bittorrent_with_congesti.Config.PeerList.{Scanned}
use bittorrent_with_congesti.Congestion.{Window, init_controller}
use bittorrent_with_congesti.Files.{Disk, create_file}
use bittorrent_with_congesti.Peer.{Peer, Effect}
use bittorrent_with_congesti.Peer.Loop.{process_get}
use bittorrent_with_congesti.Spiffy.{Spiffy, disabled, spiffy_init}
use bittorrent_with_congesti.Text.{space, skip_spaces, next_line, next_lines, scan_run, scan_word}
use bittorrent_with_congesti.Tracker.{Download, Upload, init_tracker}
use bittorrent_with_congesti.UserInput.{UserBuffer, create_userbuf}

-- a literal text at the front of a format: what is behind it
abbrev pub past_literal : (literal text : List ℕ) → Option (List ℕ)
past_literal [] s = some s
past_literal (l ∷ ls) [] = none
past_literal (l ∷ ls) (c ∷ cs) = if c == l then past_literal ls cs else none

-- `%120s`: a word, cut behind 120 bytes
abbrev pub scan_word_upto : (width : ℕ) → List ℕ → Option (List ℕ × List ℕ)
scan_word_upto width s = elim (scan_word s) [
  | none ↦ none
  | some (word, rest) ↦ some (take width word, drop width word ++ rest)
]

-- `sscanf(line, "GET %120s %120s", ...)` into two arrays of zeros: the texts in them after the call
abbrev pub scan_out : (chunkf : List ℕ) → List ℕ → List ℕ × List ℕ
scan_out chunkf rest = elim (scan_word_upto 120 rest) [
  | none ↦ (chunkf, [])
  | some (outf, _) ↦ (chunkf, outf)
]

abbrev pub scan_files : Option (List ℕ) → List ℕ × List ℕ
scan_files none = ([], [])
scan_files (some s) = elim (scan_word_upto 120 s) [
  | none ↦ ([], [])
  | some (chunkf, rest) ↦ scan_out chunkf rest
]

abbrev pub scan_get : (line : List ℕ) → List ℕ × List ℕ
scan_get line = scan_files (past_literal (b'G' ∷ b'E' ∷ b'T' ∷ []) line)

-- `process_get` with the call of the parser, which is made only without a request
abbrev pub get_chunks :
    Memory → (fuel : ℕ) → Peer → Disk → (chunkf outf : List ℕ) → Outcome (Peer × List Effect)
get_chunks m fuel p d chunkf outf = elim p.current_request [
  | some _ ↦ done (p, [])
  | none ↦ parse_has_get_chunk_file m (d.contents chunkf) (some outf) >>= λ parsed.
      process_get fuel p parsed
]

-- with the texts that the line gives
abbrev pub handle_get :
    Memory → (fuel : ℕ) → Peer → Disk → List ℕ × List ℕ → Outcome (Peer × Disk × List Effect)
handle_get m fuel p d (chunkf, []) = done (p, d, [])
handle_get m fuel p d (chunkf, c ∷ cs) =
    let d' = (create_file d (c ∷ cs) chunk_size).0 in
    get_chunks m fuel p d' chunkf (c ∷ cs) >>= λ (p', sent). done (p', d', sent)

-- `handle_user_input`: the file for the output is made before anything else.
unfoldable pub handle_user_input :
    Memory → (fuel : ℕ) → Peer → Disk → (line : List ℕ) → Outcome (Peer × Disk × List Effect)
unfolding process_get create_file parse_has_get_chunk_file
handle_user_input m fuel p d line = handle_get m fuel p d (scan_get line)

-- What fresh memory holds: the chunks and the array for a hash of a parser, and the arrays of
-- `init_tracker` and `init_controller`.
pub record Fresh : Type 0 where
  pub memory : Memory
  pub downloads : (count : ℕ) → List Download
  pub uploads : (count : ℕ) → List Upload
  pub windows : (count : ℕ) → List Window

-- `sscanf(read_buffer, "File:%s", master_data_file_name)` into an array of zeros. The line is
-- shorter than the array.
abbrev pub word_of : Option (List ℕ × List ℕ) → List ℕ
word_of none = []
word_of (some (word, rest)) = word

abbrev pub name_behind : Option (List ℕ) → List ℕ
name_behind none = []
name_behind (some s) = word_of (scan_word s)

abbrev pub name_of_line : (line : List ℕ) → List ℕ
name_of_line line = name_behind (past_literal (b'F' ∷ b'i' ∷ b'l' ∷ b'e' ∷ b':' ∷ []) line)

abbrev pub master_name : (file : List ℕ) → List ℕ
master_name file = name_of_line (next_line line_room file).0

-- a peer as its loop starts
pub record Started : Type 0 where
  pub peer : Peer
  pub userbuf : UserBuffer
  pub spiffy : Spiffy
  pub master_data_file_name : List ℕ

abbrev pub started :
    Fresh
    → Settings
    → (now : ℕ) → Spiffy
    → (master_data_file_name : List ℕ) → (has total : Request) → Started
started fresh s now spiffy master_data_file_name has total = record {
  peer = record {
    config = s.config;
    tracker = init_tracker (fresh.downloads s.max_conn) (fresh.uploads s.max_conn);
    controller = init_controller (fresh.windows s.max_conn) now;
    has_chunk_table = has;
    total_chunk_table = total;
    current_request = none;
    connections = [];
  };
  userbuf = create_userbuf;
  spiffy = spiffy;
  master_data_file_name = master_data_file_name;
}

-- Without both tables the peer does not run.
abbrev pub with_tables :
    Fresh
    → Settings
    → (now : ℕ) → Spiffy
    → (master : Option (List ℕ)) → (has total : Option Request) → Outcome (Option Started)
with_tables fresh s now spiffy master none total = done none
with_tables fresh s now spiffy master (some has) none = done none
with_tables fresh s now spiffy none (some has) (some total) = done none
with_tables fresh s now spiffy (some file) (some has) (some total) =
    done (some (started fresh s now spiffy (master_name file) has total))

-- `peer_run` up to its loop, where the socket is there and bound: its address is `INADDR_ANY` and
-- the port of the configuration. `contents` is what `fopen` finds, `inet_aton` and the router's
-- variable are the environment's.
unfoldable pub peer_run_start :
    Fresh
    → (contents : List ℕ → Option (List ℕ)) → (inet_aton : List ℕ → Option ℕ)
    → (router : Option (List ℕ)) → Spiffy
    → Settings
    → (now : ℕ) → Outcome (Option Started)
unfolding parse_has_get_chunk_file parse_total_chunk_file spiffy_init init_tracker init_controller
    next_line
peer_run_start fresh contents inet_aton router spiffy s now =
    let local : Address = record { ip = 0; port = s.myport } in
    let (spiffy', _) = spiffy_init inet_aton spiffy router s.config.identity local in
    do
      has ← parse_has_get_chunk_file fresh.memory (contents s.has_chunk_file) none
      total ← parse_total_chunk_file fresh.memory (contents s.chunk_file) none
      with_tables fresh s now spiffy' (contents s.chunk_file) has total

-- what `main` sets in front of the command line: it is compiled with TESTING (Makefile)
abbrev pub testing_defaults : Settings → Settings
testing_defaults s = record s {
  config = record s.config { identity = 1 };
  chunk_file = b'c' ∷ b'h' ∷ b'u' ∷ b'n' ∷ b'k' ∷ b'f' ∷ b'i' ∷ b'l' ∷ b'e' ∷ [];
  has_chunk_file = b'h' ∷ b'a' ∷ b's' ∷ b'c' ∷ b'h' ∷ b'u' ∷ b'n' ∷ b'k' ∷ b's' ∷ [];
}

-- `main`, up to the loop of `peer_run`
unfoldable pub main_start :
    (gethostbyname inet_aton : List ℕ → Option ℕ)
    → Scanned
    → Fresh
    → (contents : List ℕ → Option (List ℕ)) → (router : Option (List ℕ))
    → (options : List (ℕ × List ℕ)) → (now : ℕ) → Outcome (Option Started)
unfolding bt_init bt_parse_command_line peer_run_start
main_start gethostbyname inet_aton v fresh contents router options now =
    bt_parse_command_line gethostbyname v contents (testing_defaults bt_init) options >>= λ s.
    peer_run_start fresh contents inet_aton router disabled s now
