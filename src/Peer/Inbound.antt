-- ===== src/Peer/Inbound.antt =====
-- peer.c: `process_inbound_udp`, one function for each packet type. The buffer is the whole block of
-- BUFLEN bytes: what was received, and behind it what the block held before. The clock is read once.
pub mod Acknowledge
pub mod Complete
pub mod Printing
pub mod Receive
pub mod Whole
use bittorrent_with_congesti.Base.{
  ℕ, ◌+◌, ◌-◌, ◌*◌, ◌%◌, ◌^◌, Bool, true, false, Option, none, some, List, [], ◌∷◌, ◌++◌, ◌==◌,
  ◌||◌, not, if◌then◌else◌, ltb, leb, lt_int, sub32, is_neg, slice, min, length, get_elem?, set,
  Outcome, done, crash, null_dereference, ◌>>=◌,
}
use bittorrent_with_congesti.Tracker.{Tracker}
use bittorrent_with_congesti.Tracker.Receive.{track_data_packet}
use bittorrent_with_congesti.Tracker.Send.{receive_ack}
use bittorrent_with_congesti.Tracker.Streams.{
  get_chunk_hash, start_download, abort_download, start_upload, abort_upload,
}
use bittorrent_with_congesti.Congestion.{window_control, init_cwnd}
use bittorrent_with_congesti.Chunks.{
  Chunk, Request, Saved, incomplete, rejected, accepted, chunk_size, hash_size, is_owned,
  find_chunk, get_chunk_id, save_data, check_chunk, update_ihave_table,
}
use bittorrent_with_congesti.Connections.{
  working, not_working, mark_peer_state, update_connections, pick_a_chunk, pick_a_new_chunk,
}
use bittorrent_with_congesti.Wire.{
  whohas, ihave, get, data_packet, ack, denied, max_payload_size, Header, Packet, wire_bytes,
  read_header, validate_packet,
}
use bittorrent_with_congesti.Wire.Print.{print_incoming_packet, print_packet}
use bittorrent_with_congesti.Wire.Build.{make_ihave, make_get, make_ack}
use bittorrent_with_congesti.Config.{Address, bt_peer_id}
use bittorrent_with_congesti.Peer.{Externals, Peer, Effect, send, write_file}
use bittorrent_with_congesti.Peer.Transmit.{max_packet_per_chunk}

abbrev pub Step : Type 0
Step = Outcome (Peer × List Effect)

abbrev pub reply : Address → Packet → List Effect
reply from packet = send (some from) (wire_bytes packet) ∷ []

-- `case WHOHAS`
unfoldable pub on_whohas : Peer → Address → List ℕ → Step
unfolding make_ihave
on_whohas p from buf = make_ihave p.has_chunk_table buf >>= λ answer. elim answer [
  | none ↦ done (p, [])
  | some packet ↦ print_packet packet >>= λ _. done (p, reply from packet)
]

-- A chunk has been picked for a peer: the peer is marked at work, and if a stream is free it is
-- started and asked for.
unfoldable pub fetch :
    Peer → (peer_id : ℕ) → Option Address → Chunk → (now : ℕ) → Peer × List Effect
fetch p peer_id to chunk now =
    let (t, started) = start_download p.tracker peer_id chunk.hash now now in
    let p' = record p {
      tracker = t;
      connections = mark_peer_state peer_id working p.connections;
    } in
    (p', if started then send to (wire_bytes (make_get chunk)) ∷ [] else [])

abbrev pub idle : Peer → ℕ → Peer
idle p peer_id = record p { connections = mark_peer_state peer_id not_working p.connections }

-- `case IHAVE`
unfoldable pub on_ihave : Peer → (peer_id : ℕ) → Address → List ℕ → (now : ℕ) → Step
unfolding fetch
on_ihave p peer_id from buf now = do
  printed ← print_incoming_packet buf
  cs ← update_connections peer_id buf p.connections
  let known = record p { connections = cs }
  elim p.current_request [
    | none ↦ done (known, [])
    | some r ↦ pick_a_chunk buf r.chunks >>= λ (found, chunks).
        let picked = record known { current_request = some (record r { chunks = chunks }) } in
        elim found [
          | some chunk ↦ done (fetch picked peer_id (some from) chunk now)
          | none ↦ done (idle picked peer_id, [])
        ]
  ]

-- `case GET`
unfoldable pub on_get : Peer → (peer_id : ℕ) → (header_length : ℕ) → List ℕ → (now : ℕ) → Step
on_get p peer_id header_length buf now = do
  hash ← slice buf header_length hash_size
  let (t, started) =
      start_upload p.tracker peer_id (get_chunk_id hash (some p.total_chunk_table)) now
  let p' = record p {
    tracker = t;
    controller = if started then init_cwnd t p.controller peer_id now else p.controller;
  }
  done (if find_chunk p.has_chunk_table hash then (p', []) else (p, []))

-- `data_size` of `save_data_packet`
abbrev pub payload_size : Header → ℕ
payload_size h = min (h.packet_length - h.header_length) max_payload_size

-- The stream of a completed chunk ends, and the next chunk that the peer has is fetched.
unfoldable pub continue_with : Peer → Request → (peer_id : ℕ) → Address → (now : ℕ) → Step
unfolding fetch
continue_with p r peer_id from now =
    let p' = record p { tracker = (abort_download p.tracker peer_id).0 } in
    pick_a_new_chunk peer_id p.connections r.chunks >>= λ (found, chunks).
    let picked = record p' { current_request = some (record r { chunks = chunks }) } in
    elim found [
      | some chunk ↦ done (fetch picked peer_id (some from) chunk now)
      | none ↦ done (idle picked peer_id, [])
    ]

unfoldable pub save_packet :
    Externals
    → Peer
    → Request
    → (chunk_id : ℕ) → Chunk
    → (peer_id : ℕ) → Address
    → Header
    → List ℕ
    → (now : ℕ) → Step
unfolding continue_with
save_packet ext p r chunk_id c peer_id from h buf now = do
  bytes ← (if is_owned c.state then done [] else slice buf h.header_length (payload_size h))
  c' ← save_data c h.seq_number bytes
  result ← check_chunk ext.sha1 c'
  let stored = λ (c'' : Chunk). record r { chunks = set r.chunks chunk_id c'' }
  elim result [
    | incomplete ↦ done (record p { current_request = some (stored c') }, [])
    | rejected c'' ↦ continue_with p (stored c'') peer_id from now
    | accepted c'' block ↦
        continue_with
          (record p {
            has_chunk_table = update_ihave_table p.has_chunk_table p.total_chunk_table c'';
          })
          (stored c'') peer_id from now
        >>= λ (p', sent). done (p', write_file r.filename (c.id * chunk_size % 2 ^ 32) block ∷ sent)
  ]

-- the expected packet: it is acknowledged, and saved to the chunk at index `chunk_id`
unfoldable pub save_expected :
    Externals
    → Peer
    → Request
    → (chunk_id : ℕ) → (peer_id : ℕ) → Address
    → Header
    → List ℕ
    → (last now : ℕ) → Step
unfolding save_packet
save_expected ext p r chunk_id peer_id from h buf last now = elim (get_elem? r.chunks chunk_id) [
  | none ↦ done (p, [])
  | some c ↦ save_packet ext p r chunk_id c peer_id from h buf now >>= λ (p', sent).
      done (p', reply from (make_ack last) ++ sent)
]

-- a packet of the chunk at index `chunk_id`
unfoldable pub on_chunk_data :
    Externals
    → Peer
    → Request
    → (chunk_id : ℕ) → (peer_id : ℕ) → Address
    → Header
    → List ℕ
    → (now : ℕ) → Step
unfolding save_expected
on_chunk_data ext p r chunk_id peer_id from h buf now =
    let (t, last) =
      track_data_packet p.tracker peer_id h.seq_number (sub32 h.packet_length h.header_length)
        now in
    let tracked = record p { tracker = t } in
    if is_neg chunk_id || leb (length r.chunks) chunk_id
    then done (p, [])
    else if h.seq_number == last
    then save_expected ext tracked r chunk_id peer_id from h buf last now
    else done (tracked, reply from (make_ack last))

-- a packet of the chunk with hash `hash`, under a request; the id of the chunk serves as its index
unfoldable pub on_requested_data :
    Externals
    → Peer
    → (hash : List ℕ) → Option Request
    → (peer_id : ℕ) → Address
    → Header
    → List ℕ
    → (now : ℕ) → Step
unfolding on_chunk_data
on_requested_data ext p hash none peer_id from h buf now = crash null_dereference
on_requested_data ext p hash (some r) peer_id from h buf now =
    on_chunk_data ext p r (get_chunk_id hash (some r)) peer_id from h buf now

-- `case DATA`
unfoldable pub on_data :
    Externals → Peer → (peer_id : ℕ) → Address → Header → List ℕ → (now : ℕ) → Step
unfolding on_requested_data
on_data ext p peer_id from h buf now = elim (get_chunk_hash p.tracker peer_id) [
  | none ↦ done (p, [])
  | some hash ↦ on_requested_data ext p hash p.current_request peer_id from h buf now
]

-- `case ACK`
unfoldable pub on_ack : Externals → Peer → (peer_id : ℕ) → (ack_number : ℕ) → (now : ℕ) → Step
on_ack ext p peer_id ack_number now = do
  (t, count) ← receive_ack ext.smoothing p.tracker peer_id ack_number now now
  let c = window_control t p.controller peer_id count now
  let finished = (abort_upload t peer_id).0
  done (
    record p {
      tracker = if ack_number == max_packet_per_chunk then finished else t;
      controller = c;
    },
    [],
  )

-- the `switch` over the packet type
unfoldable pub dispatch :
    Externals → Peer → (peer_id : ℕ) → Address → Header → List ℕ → (now : ℕ) → Step
unfolding on_whohas on_ihave on_get on_data on_ack
dispatch ext p peer_id from h buf now =
    if h.packet_type == whohas
    then on_whohas p from buf
    else if h.packet_type == ihave
    then on_ihave p peer_id from buf now
    else if h.packet_type == get
    then on_get p peer_id h.header_length buf now
    else if h.packet_type == data_packet
    then on_data ext p peer_id from h buf now
    else if h.packet_type == ack
    then on_ack ext p peer_id h.ack_number now
    else if h.packet_type == denied
    then done (record p { tracker = (abort_download p.tracker peer_id).0 }, [])
    else done (p, [])

unfoldable pub process_inbound_udp : Externals → Peer → Address → List ℕ → (now : ℕ) → Step
unfolding dispatch
process_inbound_udp ext p from buf now =
    let h = read_header buf in
    if validate_packet h
    then dispatch ext p (bt_peer_id p.config from) from h buf now
    else done (p, [])
