-- ===== src/Config/PeerList.antt =====
-- bt_parse.c: `bt_parse_peer_list`. Each line of the file gives a peer's id, host name and port.
pub mod Listing
use bittorrent_with_congesti.Base.{
  ℕ, ◌+◌, ◌-◌, ◌%◌, ◌^◌, Bool, true, false, Option, none, some, List, [], ◌∷◌, if◌then◌else◌, ltb,
  Outcome, done, crash, exited, ◌>>=◌,
}
use bittorrent_with_congesti.Config.{PeerInfo}
use bittorrent_with_congesti.ChunkFiles.{is_comment}
use bittorrent_with_congesti.Text.{
  skip_spaces, scan_int, scan_word, next_line, next_lines, lines_of,
}

-- `BT_FILENAME_LEN - 1`
abbrev pub name_room : ℕ
name_room = 254

-- an `int` that is stored as a `short`, as the `int` that it is read as
abbrev pub to_short : ℕ → ℕ
to_short n = if ltb (n % 2 ^ 16) (2 ^ 15) then n % 2 ^ 16 else n % 2 ^ 16 + (2 ^ 32 - 2 ^ 16)

-- the local variables, which a line that ends early leaves as they are
pub record Scanned : Type 0 where
  pub nodeid : ℕ
  pub hostname : List ℕ
  pub port : ℕ

abbrev pub scan_port : Scanned → List ℕ → Scanned
scan_port v rest = elim (scan_int rest) [ none ↦ v | some (n, _) ↦ record v { port = n } ]

abbrev pub scan_host : Scanned → List ℕ → Scanned
scan_host v rest = elim (scan_word rest) [
  | none ↦ v
  | some (word, rest') ↦ scan_port (record v { hostname = word }) rest'
]

abbrev pub scan_id : Scanned → (line : List ℕ) → Option Scanned
scan_id v line = elim (scan_int line) [
  | none ↦ none
  | some (n, rest) ↦ some (scan_host (record v { nodeid = n }) rest)
]

-- `sscanf(line, "%d %s %d", ...)`; `none` is the result 0. At the end of the text it is `EOF`.
abbrev pub scan_node : Scanned → (line : List ℕ) → Option Scanned
scan_node v line = elim (skip_spaces line) [ [] ↦ some v | c ∷ cs ↦ scan_id v line ]

-- the address of a host; the assertion fails if it is not known
abbrev pub resolve : Option ℕ → Scanned → Outcome PeerInfo
resolve none v = crash exited
resolve (some ip) v =
    done (record { id = to_short v.nodeid; addr = record { ip = ip; port = v.port % 2 ^ 16 } })

abbrev pub node_of :
    (gethostbyname : List ℕ → Option ℕ) → Option Scanned → Outcome (Scanned × PeerInfo)
node_of gethostbyname none = crash exited
node_of gethostbyname (some v) = resolve (gethostbyname v.hostname) v >>= λ node. done (v, node)

-- The loop: a node goes to the front of the list.
unfoldable pub add_nodes :
    (gethostbyname : List ℕ → Option ℕ)
    → Scanned
    → List PeerInfo
    → (lines : List (List ℕ)) → Outcome (List PeerInfo)
add_nodes gethostbyname v peers [] = done peers
add_nodes gethostbyname v peers (l ∷ ls) =
    let skipped = add_nodes gethostbyname v peers ls in
    let added = node_of gethostbyname (scan_node v l) >>= λ (v', node).
    add_nodes gethostbyname v' (node ∷ peers) ls in
    if is_comment l then skipped else added

-- `bt_parse_peer_list`, given what `fopen` finds, and what the local variables hold at first
unfoldable pub bt_parse_peer_list :
    (gethostbyname : List ℕ → Option ℕ)
    → Scanned
    → (file : Option (List ℕ)) → List PeerInfo
    → Outcome (List PeerInfo)
unfolding add_nodes next_lines
bt_parse_peer_list gethostbyname v none peers = crash exited
bt_parse_peer_list gethostbyname v (some s) peers =
    add_nodes gethostbyname v peers (lines_of name_room s)
