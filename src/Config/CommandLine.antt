-- ===== src/Config/CommandLine.antt =====
-- bt_parse.c: the command line; debug.c: the option that says what is printed. `getopt` is the C
-- library's: its results are given, each an option and its argument.
pub mod Accept
use Prim.Native.Nat.{bit_or}
use bittorrent_with_congesti.Base.{
  ℕ, ◌%◌, ◌^◌, Bool, true, false, ◌||◌, Option, none, some, List, [], ◌∷◌, ◌==◌, if◌then◌else◌, leb,
  length, eq_bytes, Outcome, done, crash, exited, out_of_bounds, ◌>>=◌,
}
use bittorrent_with_congesti.Config.{PeerInfo, Config, bt_peer_info}
use bittorrent_with_congesti.Config.PeerList.{name_room, to_short, Scanned, bt_parse_peer_list}
use bittorrent_with_congesti.Spiffy.{atoi}
use bittorrent_with_congesti.Text.{is_digit}

-- `bt_config_t`: the names are texts without their NUL; `config` has the peers and the identity.
-- `debug` is the variable of debug.c.
pub record Settings : Type 0 where
  pub chunk_file : List ℕ
  pub has_chunk_file : List ℕ
  pub output_file : List ℕ
  pub peer_list_file : List ℕ
  pub max_conn : ℕ
  pub myport : ℕ
  pub config : Config
  pub debug : ℕ

-- `bt_init`: "output.dat" and "nodes.map", and nothing else
unfoldable pub bt_init : Settings
bt_init = record {
  chunk_file = [];
  has_chunk_file = [];
  output_file = 111 ∷ 117 ∷ 116 ∷ 112 ∷ 117 ∷ 116 ∷ 46 ∷ 100 ∷ 97 ∷ 116 ∷ [];
  peer_list_file = 110 ∷ 111 ∷ 100 ∷ 101 ∷ 115 ∷ 46 ∷ 109 ∷ 97 ∷ 112 ∷ [];
  max_conn = 0;
  myport = 0;
  config = record { peers = []; identity = 0 };
  debug = 0;
}

-- `set_debug`: the variable, and whether the argument is taken
unfoldable pub set_debug : (debug : ℕ) → (arg : List ℕ) → ℕ × Bool
set_debug debug [] = (debug, false)
set_debug debug (c ∷ cs) =
    let asks = (c == b'?') || eq_bytes (c ∷ cs) (b'l' ∷ b'i' ∷ b's' ∷ b't' ∷ []) in
    if asks
    then (debug, false)
    else ((if is_digit c then bit_or debug (atoi (c ∷ cs)) else debug), true)

-- `strcpy` into an array of 255 bytes
abbrev pub copied : List ℕ → Outcome (List ℕ)
copied name = if leb (length name) name_room then done name else crash out_of_bounds

-- the `switch`
unfoldable pub apply_option : Settings → (option : ℕ) → (optarg : List ℕ) → Outcome Settings
unfolding set_debug
apply_option s option optarg =
    let debugged : Outcome Settings =
      if (set_debug s.debug optarg).1
      then done (record s { debug = (set_debug s.debug optarg).0 })
      else crash exited in
    if option == b'd'
    then debugged
    else if option == b'p'
    then (copied optarg >>= λ name. done (record s { peer_list_file = name }))
    else if option == b'c'
    then (copied optarg >>= λ name. done (record s { has_chunk_file = name }))
    else if option == b'f'
    then (copied optarg >>= λ name. done (record s { chunk_file = name }))
    else if option == b'm'
    then done (record s { max_conn = atoi optarg })
    else if option == b'i'
    then done (record s { config = record s.config { identity = to_short (atoi optarg) } })
    else crash exited

unfoldable pub apply_options : Settings → List (ℕ × List ℕ) → Outcome Settings
unfolding apply_option
apply_options s [] = done s
apply_options s ((option, optarg) ∷ os) = apply_option s option optarg >>= λ s'. apply_options s' os

-- what is checked at the end
abbrev pub is_empty : List ℕ → Bool
is_empty [] = true
is_empty (c ∷ cs) = false

abbrev pub own_port : Settings → Option PeerInfo → Outcome Settings
own_port s none = crash exited
own_port s (some p) =
    if is_empty s.chunk_file || is_empty s.has_chunk_file
    then crash exited
    else done (record s { myport = p.addr.port })

abbrev pub own_peer : Settings → Outcome Settings
own_peer s =
    if s.config.identity == 0
    then crash exited
    else own_port s (bt_peer_info s.config s.config.identity)

-- `bt_parse_command_line`, given the files, and what the local variables of `bt_parse_peer_list`
-- hold
unfoldable pub bt_parse_command_line :
    (gethostbyname : List ℕ → Option ℕ)
    → Scanned
    → (contents : List ℕ → Option (List ℕ)) → Settings
    → List (ℕ × List ℕ)
    → Outcome Settings
unfolding apply_options bt_parse_peer_list bt_peer_info
bt_parse_command_line gethostbyname v contents settings options = do
  s ← apply_options settings options
  peers ← bt_parse_peer_list gethostbyname v (contents s.peer_list_file) s.config.peers
  own_peer (record s { config = record s.config { peers = peers } })
