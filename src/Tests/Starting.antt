-- ===== src/Tests/Starting.antt =====
-- bt_parse.c, util.c and peer.c: the start of a peer, from its files, and a user's line.
use mathlib.Core.List.{flatten}
use bittorrent_with_congesti.Base.{
  ℕ, ◌-◌, ◌≡◌, refl, arith, true, Option, none, some, List, [], ◌∷◌, ◌++◌, map, inl, if◌then◌else◌,
  eq_bytes, done, crash, out_of_bounds,
}
use bittorrent_with_congesti.Chunks.{owned, not_started, chunk_size}
use bittorrent_with_congesti.ChunkFiles.{
  Memory, listing, parse_has_get_chunk_file, parse_total_chunk_file,
}
use bittorrent_with_congesti.ChunkFiles.Bounds.{parse_has_get_chunk_file-HasComment}
use bittorrent_with_congesti.ChunkFiles.Listing.{AreHashes, table, parse_total_chunk_file-listing}
use bittorrent_with_congesti.Config.CommandLine.{Settings, bt_init}
use bittorrent_with_congesti.Config.PeerList.{Scanned, bt_parse_peer_list}
use bittorrent_with_congesti.Config.PeerList.Listing.{
  Node, AreNodes, peer_file, infos_onto, bt_parse_peer_list-peer_file,
}
use bittorrent_with_congesti.Files.{Disk, file, create_file}
use bittorrent_with_congesti.Files.Blocks.{block}
use bittorrent_with_congesti.Peer.{Peer, Effect}
use bittorrent_with_congesti.Peer.Run.{on_input}
use bittorrent_with_congesti.Peer.Run.Typed.{IsTyped, IsAsking, on_input-get_line}
use bittorrent_with_congesti.UserInput.Refine.{holding}
use bittorrent_with_congesti.Peer.Startup.{
  Fresh, Started, started, handle_user_input, peer_run_start, main_start,
}
use bittorrent_with_congesti.Peer.Startup.Asking.{IsName, get_line, handle_user_input-busy}
use bittorrent_with_congesti.Peer.Startup.Identity.{KnowsItself, main_start-KnowsItself}
use bittorrent_with_congesti.Peer.Startup.Tables.{IsPath, master_file, peer_run_start-tables}
use bittorrent_with_congesti.Spiffy.{disabled, spiffy_init}
use bittorrent_with_congesti.Text.{next_lines, decimal_onto}
use bittorrent_with_congesti.Hex.{binary2hex, hex2binary}
use bittorrent_with_congesti.Tests.{chunk_in, hash_of, download, upload, window, peer, request}
use bittorrent_with_congesti.Wire.Whohas.{asking, AreGroups}

abbrev memory : Memory
memory = record { chunks = λ i. chunk_in owned i; hash = [] }

abbrev fresh : Fresh
fresh = record {
  memory = memory;
  downloads = λ count. download ∷ [];
  uploads = λ count. upload ∷ [];
  windows = λ count. window ∷ [];
}

abbrev hashes : List (List ℕ)
hashes = hash_of 1 ∷ hash_of 2 ∷ []

hashes-AreHashes : AreHashes hashes
hashes-AreHashes = (refl, omega arith, (refl, omega arith, tt))

-- "Chunks:"
abbrev second : List ℕ
second = b'C' ∷ b':' ∷ []

parse_total_chunk_file-listing_example :
    parse_total_chunk_file memory (some (second ++ (10 ∷ (second ++ (10 ∷ listing 0 hashes))))) none
    ≡ done (some (record { filename = none; chunks = table owned 0 hashes }))
parse_total_chunk_file-listing_example =
    parse_total_chunk_file-listing memory none second second hashes (refl, (refl, tt)) (omega arith)
      (refl, (refl, tt)) (omega arith) hashes-AreHashes (omega arith)

parse_has_get_chunk_file-HasComment_example :
    parse_has_get_chunk_file memory (some (b'#' ∷ 10 ∷ [])) none ≡ crash out_of_bounds
unfolding next_lines
parse_has_get_chunk_file-HasComment_example =
    parse_has_get_chunk_file-HasComment memory (b'#' ∷ 10 ∷ []) none (inl refl)

-- two peers on hosts "a" and "b"
abbrev nodes : List Node
nodes =
    record { id = 1; host = b'a' ∷ []; port = 1111; ip = 5 }
    ∷ record { id = 2; host = b'b' ∷ []; port = 2222; ip = 5 }
    ∷ []

abbrev five : List ℕ → Option ℕ
five host = some 5

abbrev unset : Scanned
unset = record { nodeid = 9; hostname = []; port = 9 }

nodes-AreNodes : AreNodes five nodes
nodes-AreNodes = (
  record {
    id = omega arith;
    port = omega arith;
    visible = (refl, tt);
    named = omega arith;
    short = omega arith;
    known = refl;
  },
  (
    record {
      id = omega arith;
      port = omega arith;
      visible = (refl, tt);
      named = omega arith;
      short = omega arith;
      known = refl;
    },
    tt,
  ),
)

bt_parse_peer_list-peer_file_example :
    bt_parse_peer_list five unset (some (peer_file nodes)) [] ≡ done (infos_onto nodes [])
bt_parse_peer_list-peer_file_example =
    bt_parse_peer_list-peer_file five unset nodes [] nodes-AreNodes

-- The file "c" lists the chunks, "m" is the master file, and every other name is the peers' file.
abbrev contents : List ℕ → Option (List ℕ)
contents name =
    if eq_bytes name (b'c' ∷ [])
    then some (listing 0 hashes)
    else if eq_bytes name (b'm' ∷ [])
    then some (master_file (b'd' ∷ []) second hashes)
    else some (peer_file nodes)

abbrev settings : Settings
settings = record {
  chunk_file = b'm' ∷ [];
  has_chunk_file = b'c' ∷ [];
  output_file = [];
  peer_list_file = [];
  max_conn = 1;
  myport = 1111;
  config = record { peers = infos_onto nodes []; identity = 1 };
  debug = 0;
}

abbrev no_router : List ℕ → Option ℕ
no_router name = none

d-IsPath : IsPath (b'd' ∷ [])
d-IsPath = record { visible = (refl, tt); named = omega arith; short = omega arith }

peer_run_start-tables_example :
    peer_run_start fresh contents no_router none disabled settings 0
    ≡ done (
        some (
          started fresh settings 0
            (spiffy_init no_router disabled none 1 (record { ip = 0; port = 1111 })).0
            (b'd' ∷ [])
            (record { filename = none; chunks = table owned 0 hashes })
            (record { filename = none; chunks = table owned 0 hashes })))
peer_run_start-tables_example =
    peer_run_start-tables fresh contents no_router none disabled settings 0 (b'd' ∷ []) second
      hashes hashes refl refl d-IsPath (refl, (refl, tt)) (omega arith) hashes-AreHashes
      (omega arith) hashes-AreHashes (omega arith)

-- "-c c -f m -i 1"
abbrev options : List (ℕ × List ℕ)
options = (b'c', b'c' ∷ []) ∷ (b'f', b'm' ∷ []) ∷ (b'i', b'1' ∷ []) ∷ []

abbrev running : Started
running =
    started fresh
      (record settings {
        max_conn = 0;
        output_file = bt_init.output_file;
        peer_list_file = bt_init.peer_list_file;
      })
      0 disabled (b'd' ∷ []) (record { filename = none; chunks = table owned 0 hashes })
      (record { filename = none; chunks = table owned 0 hashes })

main_start_runs :
    main_start five no_router unset fresh contents none options 0 ≡ done (some running)
unfolding main_start next_lines decimal_onto binary2hex hex2binary
main_start_runs = refl

main_start-KnowsItself_example : KnowsItself running.peer.config
main_start-KnowsItself_example =
    main_start-KnowsItself five no_router unset fresh contents none options 0 running
      main_start_runs

-- a user asks for the chunks of "c" in the file "o"
abbrev disk : Disk
disk = record { may_open = λ name. true; contents = contents }

abbrev waiting : Peer
waiting = record peer { current_request = none; config = settings.config }

c-IsName : IsName (b'c' ∷ [])
c-IsName = record { visible = (refl, tt); named = omega arith; short = omega arith }

o-IsName : IsName (b'o' ∷ [])
o-IsName = record { visible = (refl, tt); named = omega arith; short = omega arith }

-- "GET c" is in the buffer, and " o", the end of the line and a "G" are read.
abbrev typed : List ℕ
typed = b'G' ∷ b'E' ∷ b'T' ∷ 32 ∷ b'c' ∷ []

abbrev read : List ℕ
read = 32 ∷ b'o' ∷ 10 ∷ b'G' ∷ []

get_c-IsTyped : IsTyped typed read (b'c' ∷ []) (b'o' ∷ []) (b'G' ∷ [])
get_c-IsTyped = record {
  text = refl;
  typed_chars = (refl, (refl, (refl, (refl, (refl, tt)))));
  read_chars = (refl, (refl, (refl, (refl, tt))));
  rest_line = (refl, tt);
  short = omega arith;
}

on_input-get_line_example :
    (gs : List (List (List ℕ))) × (flatten gs ≡ hashes)
    × AreGroups gs
    × (out : List Effect) × IsAsking 1 (map asking gs) (infos_onto nodes []) out
    × (on_input memory 20
          (record { peer = waiting; userbuf = holding typed; disk = disk })
          (some read)
        ≡ done (
          record {
            peer = record waiting {
              current_request =
                  some
                    (record { filename = some (b'o' ∷ []); chunks = table not_started 0 hashes });
            };
            userbuf = holding (b'G' ∷ []);
            disk = (create_file disk (b'o' ∷ []) chunk_size).0;
          },
          out,
        ))
on_input-get_line_example =
    on_input-get_line memory 20 waiting disk typed read (b'c' ∷ []) (b'o' ∷ []) (b'G' ∷ []) hashes
      get_c-IsTyped (omega arith) c-IsName o-IsName refl refl refl hashes-AreHashes (omega arith)
      (omega arith)

handle_user_input-busy_example :
    (d' : Disk) × (handle_user_input memory 9 peer disk (get_line (b'c' ∷ []) (b'o' ∷ []))
      ≡ done (peer, d', []))
    × (block (file d' (b'o' ∷ [])) (chunk_size - 1) 1 ≡ 0 ∷ [])
handle_user_input-busy_example =
    handle_user_input-busy memory 9 peer disk (b'c' ∷ []) (b'o' ∷ []) request c-IsName o-IsName refl
      refl
