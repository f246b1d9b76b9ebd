-- ===== src/Peer/Transmit.antt =====
-- network.c: `send_data_packets`, one packet for each upload stream in a round. The clock is read
-- once for a stream.
pub mod Collapse
pub mod Cover
pub mod Decide
pub mod Flow
use bittorrent_with_congesti.Base.{
  ℕ, ◌+◌, ◌-◌, ◌*◌, ◌%◌, ◌^◌, Bool, true, false, Option, none, some, List, [], ◌∷◌, ◌++◌, ◌==◌,
  if◌then◌else◌, ltb, lt_int, sub32,
}
use bittorrent_with_congesti.Tracker.{Upload, Tracker}
use bittorrent_with_congesti.Tracker.Send.{
  get_timeout_seq, wait_ack, get_queue_size, get_tail_seq_number,
}
use bittorrent_with_congesti.Tracker.Streams.{active_uploads}
use bittorrent_with_congesti.Congestion.{Controller, window_timeout, get_cwnd_size}
use bittorrent_with_congesti.Chunks.{chunk_size}
use bittorrent_with_congesti.Wire.{Packet, wire_bytes, max_payload_size}
use bittorrent_with_congesti.Wire.Build.{make_data}
use bittorrent_with_congesti.Config.{Config, find_addr}
use bittorrent_with_congesti.Peer.{Externals, Peer, Effect, send}

-- MAX_PACKET_PER_CHUNK
abbrev pub max_packet_per_chunk : ℕ
max_packet_per_chunk = 354

-- the size of the packet with this offset: the last of a chunk is shorter
abbrev pub data_size : ℕ → ℕ
data_size seq_number =
    if seq_number == max_packet_per_chunk - 1
    then chunk_size - max_payload_size * (max_packet_per_chunk - 1)
    else max_payload_size

-- the place in the data file, an `int`
abbrev pub data_offset : (chunk_id seq_number : ℕ) → ℕ
data_offset chunk_id seq_number = (chunk_id * chunk_size + seq_number * max_payload_size) % 2 ^ 32

-- the bytes of the packet with this offset
abbrev pub data_bytes : Externals → (chunk_id seq_number : ℕ) → List ℕ
data_bytes ext chunk_id seq_number =
    ext.read_file (data_size seq_number) (data_offset chunk_id seq_number)

-- What a stream is to send: the offset of a packet and whether it is sent again. In the result also
-- the tracker and the controller, after a timeout has been noted.
pub record Choice : Type 0 where
  pub tracker : Tracker
  pub controller : Controller
  pub packet : Option (ℕ × Bool)

-- the branches, after `get_timeout_seq` has returned `expired`
unfoldable pub choose_after : Tracker → Controller → (peer_id now expired : ℕ) → Choice
choose_after t c peer_id now expired =
    let fresh : Choice = record {
      tracker = t;
      controller = c;
      packet = some (get_tail_seq_number t peer_id, false);
    } in
    let wait : Choice = record { tracker = t; controller = c; packet = none } in
    let again : Choice = record {
      tracker = t;
      controller = window_timeout t c peer_id now;
      packet = some (sub32 expired 1, true);
    } in
    if expired == 0
    then (if lt_int (get_queue_size t peer_id) (get_cwnd_size t c peer_id) then fresh else wait)
    else again

unfoldable pub choose : Tracker → Controller → (peer_id now : ℕ) → Choice
unfolding choose_after
choose t c peer_id now =
    let (t', expired) = get_timeout_seq t peer_id now now in choose_after t' c peer_id now expired

-- The rest of a round for a stream: the packet is read from the file, sent and noted.
unfoldable pub transmit :
    Externals → Config → (peer_id chunk_id now : ℕ) → Choice → Tracker × Controller × List Effect
transmit ext config peer_id chunk_id now ch = elim ch.packet [
  | none ↦ (ch.tracker, ch.controller, [])
  | some (seq_number, timeout) ↦
      let bytes = data_bytes ext chunk_id seq_number in
      let packet = make_data bytes (seq_number + 1) in
      if ltb seq_number max_packet_per_chunk
      then (
        (wait_ack ch.tracker peer_id (seq_number + 1) timeout now).0,
        ch.controller,
        send (find_addr config peer_id) (wire_bytes packet) ∷ [],
      )
      else (ch.tracker, ch.controller, [])
]

-- the loop over the streams that were active when the round began
unfoldable pub transmit_all :
    Externals
    → Config
    → (now : ℕ) → List Upload
    → Tracker
    → Controller
    → Tracker × Controller × List Effect
unfolding choose transmit
transmit_all ext config now [] t c = (t, c, [])
transmit_all ext config now (u ∷ us) t c =
    let (t₁, c₁, sent) = transmit ext config u.id u.chunk_id now (choose t c u.id now) in
    let (t₂, c₂, later) = transmit_all ext config now us t₁ c₁ in (t₂, c₂, sent ++ later)

unfoldable pub send_data_packets : Externals → Peer → (now : ℕ) → Peer × List Effect
unfolding transmit_all active_uploads
send_data_packets ext p now =
    let (t, c, sent) =
      transmit_all ext p.config now (active_uploads p.tracker.uploads) p.tracker p.controller in
    (record p { tracker = t; controller = c }, sent)
