-- ===== src/Config/PeerList/Listing.antt =====
-- bt_parse.c: a file of peers in the form that the parser expects.
use mathlib.Core.List.{append_assoc}
use bittorrent_with_congesti.Base.{
  ℕ, zero, suc, ◌+◌, ◌%◌, ◌^◌, ◌<◌, ◌≤◌, ◌≡◌, refl, sym, ap, ◌∙◌, arith, false, Option, some, List,
  [], ◌∷◌, ◌++◌, length, length-append, done, ◌>>=◌,
}
use bittorrent_with_congesti.Config.{PeerInfo}
use bittorrent_with_congesti.ChunkFiles.{is_comment}
use bittorrent_with_congesti.Text.Words.{AreVisible, AreVisible-AreInLine, scan_word-stop}
use bittorrent_with_congesti.Text.{
  newline, space, is_space, skip_spaces, scan_word, scan_int, next_line, next_lines, decimal_onto,
}
use bittorrent_with_congesti.Text.Decimal.{
  decimal_onto-cons, decimal_onto-append, scan_int-decimal_onto, scan_int-decimal_onto_stop,
}
use bittorrent_with_congesti.Text.Lines.{
  AreInLine, next_line-append, next_lines-nil, next_lines-cons, decimal_onto-AreInLine,
  length-decimal_onto,
}
use bittorrent_with_congesti.Config.PeerList.{
  name_room, Scanned, scan_port, scan_host, scan_id, scan_node, to_short, resolve, node_of,
  add_nodes, bt_parse_peer_list,
}

-- a peer as a file lists it, and the address of its host
pub record Node : Type 0 where
  pub id : ℕ
  pub host : List ℕ
  pub port : ℕ
  pub ip : ℕ

pub record IsNode (gethostbyname : List ℕ → Option ℕ) (n : Node) : Type 0 where
  pub id : n.id < 2 ^ 15
  pub port : n.port < 2 ^ 16
  pub visible : AreVisible n.host
  pub named : 1 ≤ length n.host
  pub short : length n.host ≤ 200
  pub known : gethostbyname n.host ≡ some n.ip

abbrev pub AreNodes : (gethostbyname : List ℕ → Option ℕ) → List Node → Type 0
AreNodes gethostbyname [] = Unit
AreNodes gethostbyname (n ∷ ns) = IsNode gethostbyname n × AreNodes gethostbyname ns

-- the line of a peer, in front of `rest`, and the file
abbrev port_onto : Node → List ℕ → List ℕ
port_onto n rest = decimal_onto (n.port + 1) n.port rest

abbrev host_onto : Node → List ℕ → List ℕ
host_onto n rest = n.host ++ (space ∷ port_onto n rest)

abbrev pub node_onto : Node → List ℕ → List ℕ
node_onto n rest = decimal_onto (n.id + 1) n.id (space ∷ host_onto n rest)

abbrev pub peer_file : List Node → List ℕ
peer_file [] = []
peer_file (n ∷ ns) = node_onto n (newline ∷ peer_file ns)

abbrev pub info : Node → PeerInfo
info n = record { id = n.id; addr = record { ip = n.ip; port = n.port } }

-- the peers in front of others, the last first
abbrev pub infos_onto : List Node → List PeerInfo → List PeerInfo
infos_onto [] peers = peers
infos_onto (n ∷ ns) peers = infos_onto ns (info n ∷ peers)

abbrev scanned : Node → Scanned
scanned n = record { nodeid = n.id; hostname = n.host; port = n.port }

module _ (v : Scanned) where
  scan_port-some :
      (rest : List ℕ) {port : ℕ} {more : List ℕ}
      → scan_int rest ≡ some (port, more)
      → scan_port v rest ≡ record v { port = port }
  scan_port-some rest e = rw (e, scan_port)

  scan_host-some :
      (rest : List ℕ) {host more : List ℕ}
      → scan_word rest ≡ some (host, more)
      → scan_host v rest ≡ scan_port (record v { hostname = host }) more
  scan_host-some rest e = rw (e, scan_host)

  scan_id-some :
      (line : List ℕ) {id : ℕ} {more : List ℕ}
      → scan_int line ≡ some (id, more)
      → scan_id v line ≡ some (scan_host (record v { nodeid = id }) more)
  scan_id-some line e = rw (e, scan_id)

  scan_node-digit :
      (line : List ℕ) {d : ℕ} {cs : List ℕ}
      → d < 10
      → line ≡ (b'0' + d) ∷ cs
      → scan_node v line ≡ scan_id v line
  scan_node-digit line {d} {cs} lt e =
      let visible : is_space (b'0' + d) ≡ false = ground arith in
      let kept : skip_spaces ((b'0' + d) ∷ cs) ≡ (b'0' + d) ∷ cs = rw visible in
      let some_text : skip_spaces line ≡ (b'0' + d) ∷ cs = ap skip_spaces e ∙ kept in
      rw (some_text, scan_node)

module _ (gethostbyname : List ℕ → Option ℕ) (n : Node) (ok : IsNode gethostbyname n) where
  abbrev text : List ℕ
  text = node_onto n []

  node_onto-text : (rest : List ℕ) → node_onto n rest ≡ text ++ rest
  node_onto-text rest =
      ap (λ p. decimal_onto (n.id + 1) n.id (space ∷ (n.host ++ (space ∷ p))))
        (decimal_onto-append (n.port + 1) n.port [] rest)
      ∙ ap (λ p. decimal_onto (n.id + 1) n.id (space ∷ p))
          (sym (append_assoc n.host (space ∷ port_onto n []) rest))
      ∙ decimal_onto-append (n.id + 1) n.id (space ∷ host_onto n []) rest

  length-text : length text < name_room
  length-text = omega (
    arith,
    length-decimal_onto 10 (n.id + 1) n.id (space ∷ host_onto n []) (omega (arith, ok.id)),
    length-append n.host (space ∷ port_onto n []),
    length-decimal_onto 10 (n.port + 1) n.port [] (omega (arith, ok.port)),
    ok.short,
  )

  text-AreInLine : AreInLine text
  text-AreInLine = decimal_onto-AreInLine (n.id + 1) n.id (space ∷ host_onto n []) (
    refl,
    AreVisible-AreInLine n.host (space ∷ port_onto n []) ok.visible
        (refl, decimal_onto-AreInLine (n.port + 1) n.port [] tt),
  )

  abbrev line : List ℕ
  line = node_onto n (newline ∷ [])

  next_line-node :
      (rest : List ℕ) → next_line name_room (node_onto n (newline ∷ rest)) ≡ (line, rest)
  next_line-node rest =
      ap (next_line name_room) (node_onto-text (newline ∷ rest))
      ∙ next_line-append name_room text rest text-AreInLine length-text
      ∙ ap (λ (l : List ℕ). (l, rest)) (sym (node_onto-text (newline ∷ [])))

  first_digit :
      (rest : List ℕ) → (d : ℕ) × (cs : List ℕ) × (d < 10) × (node_onto n rest ≡ (b'0' + d) ∷ cs)
  first_digit rest = decimal_onto-cons (n.id + 1) n.id (space ∷ host_onto n rest) (omega arith)

  not_comment : is_comment line ≡ false
  not_comment = let (d, cs, lt, e) = first_digit (newline ∷ []) in ap is_comment e ∙ ground arith

  scan_node-line : (v : Scanned) → scan_node v line ≡ some (scanned n)
  scan_node-line v =
      let (d, cs, lt, e) = first_digit (newline ∷ []) in
      let w : Scanned = record v { nodeid = n.id } in
      let ends = port_onto n (newline ∷ []) in
      scan_node-digit v line lt e
      ∙ scan_id-some v line (
          scan_int-decimal_onto (n.id + 1) n.id (host_onto n (newline ∷ [])) (omega arith)
            (omega (arith, ok.id)))
      ∙ ap some (
          scan_host-some w (space ∷ host_onto n (newline ∷ []))
            (scan_word-stop n.host space ends ok.visible ok.named refl))
      ∙ ap some (
          scan_port-some (record w { hostname = n.host }) (space ∷ ends)
            (scan_int-decimal_onto_stop (n.port + 1) n.port newline [] (omega arith)
              (omega (arith, ok.port)) refl))

  node_of-line : (v : Scanned) → node_of gethostbyname (scan_node v line) ≡ done (scanned n, info n)
  node_of-line v =
      let id : to_short n.id ≡ n.id = ground (arith, ok.id) in
      let port : n.port % 2 ^ 16 ≡ n.port = omega (arith, ok.port) in
      ap (node_of gethostbyname) (scan_node-line v)
      ∙ ap (λ (a : Option ℕ). resolve a (scanned n) >>= λ node. done (scanned n, node)) ok.known
      ∙ λ i. done (scanned n, record { id = id i; addr = record { ip = n.ip; port = port i } })

add_nodes-cons :
    (gethostbyname : List ℕ → Option ℕ) (v : Scanned) (peers : List PeerInfo) (l : List ℕ)
    (ls : List (List ℕ)) {v' : Scanned} {node : PeerInfo}
    → is_comment l ≡ false
    → node_of gethostbyname (scan_node v l) ≡ done (v', node)
    → add_nodes gethostbyname v peers (l ∷ ls) ≡ add_nodes gethostbyname v' (node ∷ peers) ls
unfolding add_nodes
add_nodes-cons gethostbyname v peers l ls e f = rw (e, add_nodes) (rw f)

module _ (gethostbyname : List ℕ → Option ℕ) where
  lines : List Node → List (List ℕ)
  lines [] = []
  lines (n ∷ ns) = node_onto n (newline ∷ []) ∷ lines ns

  add_nodes-lines :
      (v : Scanned) (peers : List PeerInfo) (ns : List Node)
      → AreNodes gethostbyname ns
      → add_nodes gethostbyname v peers (lines ns) ≡ done (infos_onto ns peers)
  unfolding add_nodes lines
  add_nodes-lines v peers [] ok = refl
  add_nodes-lines v peers (n ∷ ns) ok =
      add_nodes-cons gethostbyname v peers (node_onto n (newline ∷ [])) (lines ns)
        (not_comment gethostbyname n ok.0) (node_of-line gethostbyname n ok.0 v)
      ∙ add_nodes-lines (scanned n) (info n ∷ peers) ns ok.1

  next_lines-peer_file :
      (fuel : ℕ) (ns : List Node)
      → AreNodes gethostbyname ns
      → length ns ≤ fuel
      → next_lines fuel name_room (peer_file ns) ≡ lines ns
  unfolding lines
  next_lines-peer_file fuel [] ok enough = next_lines-nil fuel name_room
  next_lines-peer_file zero (n ∷ ns) ok enough = absurd (omega arith)
  next_lines-peer_file (suc fuel) (n ∷ ns) ok enough =
      let (d, cs, _, e) = first_digit gethostbyname n ok.0 (newline ∷ peer_file ns) in
      next_lines-cons fuel name_room (node_onto n (newline ∷ peer_file ns)) e
        (next_line-node gethostbyname n ok.0 (peer_file ns))
      ∙ ap (λ ls. node_onto n (newline ∷ []) ∷ ls) (next_lines-peer_file fuel ns ok.1 (omega arith))

  length-peer_file :
      (ns : List Node) → AreNodes gethostbyname ns → length ns ≤ length (peer_file ns)
  length-peer_file [] ok = omega arith
  length-peer_file (n ∷ ns) ok = omega (
    arith,
    ap length (node_onto-text gethostbyname n ok.0 (newline ∷ peer_file ns)),
    length-append (node_onto n []) (newline ∷ peer_file ns),
    length-peer_file ns ok.1,
  )

-- A file has a line for each peer, of its id (below 2^15), its host's name (1 to 200 bytes, no
-- spaces, known to `gethostbyname`) and its port (below 2^16), a space between them. It is read
-- without a failure, whatever the local variables hold at first: its peers come in front of those
-- that the list had, the last line first, each with its id, its host's address and its port.
pub bt_parse_peer_list-peer_file :
    (gethostbyname : List ℕ → Option ℕ) (v : Scanned) (ns : List Node) (peers : List PeerInfo)
    → AreNodes gethostbyname ns
    → bt_parse_peer_list gethostbyname v (some (peer_file ns)) peers ≡ done (infos_onto ns peers)
unfolding bt_parse_peer_list
bt_parse_peer_list-peer_file gethostbyname v ns peers ok =
    ap (add_nodes gethostbyname v peers) (
      next_lines-peer_file gethostbyname (length (peer_file ns)) ns ok
        (length-peer_file gethostbyname ns ok))
    ∙ add_nodes-lines gethostbyname v peers ns ok
