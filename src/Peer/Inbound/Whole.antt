-- ===== src/Peer/Inbound/Whole.antt =====
-- peer.c, `case DATA`: the datagrams of a whole chunk, one after the other.
pub mod Completed
pub mod Judged
pub mod Transfer
use bittorrent_with_congesti.Base.{
  ℕ, suc, ◌+◌, ◌^◌, ◌<◌, ◌≤◌, ◌≡◌, ◌≢◌, refl, sym, ap, ◌∙◌, arith, some, ◌⊎◌, List, [], ◌∷◌, ◌++◌,
  length, slice, set, get_elem?, length-set, get_elem?-set_self, sub32, done, ◌>>=◌,
}
use bittorrent_with_congesti.Tracker.{Download, Tracker, index_of}
use bittorrent_with_congesti.Tracker.Slots.{lt_of_index_of}
use bittorrent_with_congesti.Tracker.Receive.{track_data_packet}
use bittorrent_with_congesti.Tracker.Receive.InOrder.{
  IsTracking, in_order, track_data_packet-in_order, track_data_packet-found,
}
use bittorrent_with_congesti.Tracker.Streams.{get_chunk_hash, find_download}
use bittorrent_with_congesti.Chunks.{Chunk, Request, chunk_size, get_chunk_id}
use bittorrent_with_congesti.Chunks.Save.{Holds, extended, save_data-Holds}
use bittorrent_with_congesti.Chunks.Tables.{get_chunk_id-set}
use bittorrent_with_congesti.Wire.{Header, header_length, max_payload_size, data_packet, wire_bytes}
use bittorrent_with_congesti.Wire.Build.{make_data, make_ack}
use bittorrent_with_congesti.Wire.RoundTrip.{header_of, validate_packet-header_of, make_data-read}
use bittorrent_with_congesti.Config.{Address, bt_peer_id}
use bittorrent_with_congesti.Peer.{Externals, Peer, Effect}
use bittorrent_with_congesti.Peer.Inbound.{
  Step, reply, payload_size, on_data, dispatch, process_inbound_udp,
}
use bittorrent_with_congesti.Peer.Inbound.Receive.{IsReceiving, on_data-save, on_data-discard}

-- A DATA packet as it arrives: its number and data, what the receiver's buffer holds behind it, and
-- the time.
pub record Datagram : Type 0 where
  pub seq : ℕ
  pub bytes : List ℕ
  pub rest : List ℕ
  pub now : ℕ

abbrev pub buffer_of : Datagram → List ℕ
buffer_of d = wire_bytes (make_data d.bytes d.seq) ++ d.rest

-- the datagrams of one peer, handled in turn
unfoldable pub handle_all : Externals → Peer → Address → List Datagram → Step
handle_all ext p from [] = done (p, [])
handle_all ext p from (d ∷ ds) = do
  (p', sent) ← process_inbound_udp ext p from (buffer_of d) d.now
  (p'', later) ← handle_all ext p' from ds
  done (p'', sent ++ later)

-- The datagrams bring these pieces in order, the first with the number behind `last`, and end with
-- the last piece. There may be others in between, of numbers that are neither the last one that has
-- come in order nor the next.
abbrev pub Brings : (last : ℕ) → (pieces : List (List ℕ)) → List Datagram → Type 0
Brings last [] [] = Unit
Brings last [] (d ∷ ds) = ⊥
Brings last (b ∷ bs) [] = ⊥
Brings last (b ∷ bs) (d ∷ ds) =
    ((d.seq ≡ suc last) × (d.bytes ≡ b) × Brings (suc last) bs ds)
    ⊎ ((d.seq ≢ last) × (d.seq ≢ suc last) × Brings last (b ∷ bs) ds)

-- Each fits a packet, and its number a field of the header.
abbrev pub AreSmall : List Datagram → Type 0
AreSmall [] = Unit
AreSmall (d ∷ ds) = (length d.bytes ≤ max_payload_size) × (d.seq < 2 ^ 32) × AreSmall ds

-- the acknowledgements of an in-order receiver
abbrev pub answers : Address → (last : ℕ) → List Datagram → List Effect
answers from last [] = []
answers from last (d ∷ ds) =
    reply from (make_ack (in_order last d.seq)) ++ answers from (in_order last d.seq) ds

abbrev pub joined : List (List ℕ) → List ℕ
joined [] = []
joined (b ∷ bs) = b ++ joined bs

-- A chunk is being received from the peer at an address: its stream stands at `last`, and chunk `k`
-- of the request holds `bytes`.
pub record IsFilling (p : Peer) (from : Address) (i last k : ℕ) (r : Request) (c : Chunk)
    (bytes : List ℕ) : Type 0 where
  pub stream : IsTracking p.tracker (bt_peer_id p.config from) i last
  pub request : p.current_request ≡ some r
  pub hash : List ℕ
  pub asked : get_chunk_hash p.tracker (bt_peer_id p.config from) ≡ some hash
  pub index : get_chunk_id hash (some r) ≡ k
  pub in_table : get_elem? r.chunks k ≡ some c
  pub in_range : k < length r.chunks
  pub small : length r.chunks < 2 ^ 31
  pub holds : Holds c bytes

get_chunk_hash_of_parts :
    (t : Tracker) (peer_id : ℕ) {i : ℕ} {d : Download}
    → index_of Download.id peer_id t.downloads ≡ some i
    → get_elem? t.downloads i ≡ some d
    → get_chunk_hash t peer_id ≡ some d.hash
unfolding get_chunk_hash find_download
get_chunk_hash_of_parts t peer_id f e =
    rw (f, get_chunk_hash, find_download) (rw (e, get_chunk_hash, find_download))

-- A packet does not change which chunk its stream is of.
get_chunk_hash-track_data_packet :
    (t : Tracker) (peer_id i last seq len now : ℕ)
    → IsTracking t peer_id i last
    → get_chunk_hash (track_data_packet t peer_id seq len now).0 peer_id ≡ get_chunk_hash t peer_id
get_chunk_hash-track_data_packet t peer_id i last seq len now h =
    let (d, at, _, _) = h.chain in
    let moved = ap (λ o. o.0) (track_data_packet-found t peer_id seq len now h.found at) in
    let after = (track_data_packet-in_order t peer_id i last seq len now h).1 in
    let there =
      ap (λ (x : Tracker). get_elem? x.downloads i) moved
      ∙ get_elem?-set_self t.downloads i _
          (lt_of_index_of Download.id peer_id t.downloads h.found) in
    get_chunk_hash_of_parts _ peer_id after.found there
    ∙ sym (get_chunk_hash_of_parts t peer_id h.found at)

abbrev pub header_for : Datagram → Header
header_for d = header_of data_packet (length d.bytes + header_length) d.seq 0

module _ (ext : Externals) (p : Peer) (from : Address) (d : Datagram)
    (fits : length d.bytes ≤ max_payload_size) (low : d.seq < 2 ^ 32) where
  pub process_inbound_udp-on_data :
      process_inbound_udp ext p from (buffer_of d) d.now
      ≡ on_data ext p (bt_peer_id p.config from) from (header_for d) (buffer_of d) d.now
  unfolding process_inbound_udp dispatch
  process_inbound_udp-on_data =
      let (header, _, _) = make_data-read d.bytes d.seq d.rest fits low in
      rw (header, validate_packet-header_of (length d.bytes + header_length) d.seq)

  pub IsFilling-IsReceiving :
      {i last k : ℕ} {r : Request} {c : Chunk} {bytes : List ℕ}
      → IsFilling p from i last k r c bytes
      → IsReceiving p
          (bt_peer_id p.config from)
          i
          last
          k
          r
          c
          bytes
          (header_for d)
          (buffer_of d)
          d.bytes
  IsFilling-IsReceiving f =
      let (_, _, read) = make_data-read d.bytes d.seq d.rest fits low in
      let size : payload_size (header_for d) ≡ length d.bytes = omega arith in
      record {
        stream = f.stream;
        request = f.request;
        hash = f.hash;
        asked = f.asked;
        index = f.index;
        in_table = f.in_table;
        in_range = f.in_range;
        small = f.small;
        holds = f.holds;
        read = ap (slice (buffer_of d) header_length) size ∙ read;
      }

module _ (ext : Externals) (from : Address) where
  -- A packet in order that does not complete the chunk.
  pub step-save :
      (p : Peer) (d : Datagram)
      → length d.bytes ≤ max_payload_size
      → d.seq < 2 ^ 32
      → {i last k : ℕ} {r : Request} {c : Chunk} {bytes : List ℕ}
      → IsFilling p from i last k r c bytes
      → in_order last d.seq ≡ d.seq
      → length bytes + length d.bytes < chunk_size
      → (p' : Peer) × (r' : Request) × (process_inbound_udp ext p from (buffer_of d) d.now
          ≡ done (p', reply from (make_ack (in_order last d.seq))))
        × IsFilling p' from i
            (in_order last d.seq)
            k
            r'
            (extended c d.seq bytes d.bytes)
            (bytes ++ d.bytes)
        × (r'.filename ≡ r.filename)
        × (p'.has_chunk_table ≡ p.has_chunk_table)
  step-save p d fits low {i} {last} {k} {r} {c} {bytes} f expected short =
      let s = IsFilling-IsReceiving ext p from d fits low f in
      let peer_id = bt_peer_id p.config from in
      let len = sub32 (header_for d).packet_length header_length in
      let c' = extended c d.seq bytes d.bytes in
      let r' : Request = record r { chunks = set r.chunks k c' } in
      let handled =
        on_data-save ext p peer_id i last k r c bytes from (header_for d) (buffer_of d) d.bytes
          d.now s short expected in
      let p' : Peer = record p {
        tracker = (track_data_packet p.tracker peer_id d.seq len d.now).0;
        current_request = some r';
      } in
      (
        p',
        r',
        process_inbound_udp-on_data ext p from d fits low
            ∙ handled
            ∙ ap (λ n. done (p', reply from (make_ack n))) (sym expected),
        record {
          stream = (track_data_packet-in_order p.tracker peer_id i last d.seq len d.now f.stream).1;
          request = refl;
          hash = f.hash;
          asked =
              get_chunk_hash-track_data_packet p.tracker peer_id i last d.seq len d.now f.stream
              ∙ f.asked;
          index = get_chunk_id-set f.hash r k c c' f.in_table refl refl ∙ f.index;
          in_table = get_elem?-set_self r.chunks k c' f.in_range;
          in_range = omega (arith, length-set r.chunks k c', f.in_range);
          small = omega (arith, length-set r.chunks k c', f.small);
          holds = (save_data-Holds c d.seq bytes d.bytes f.holds (omega arith)).1;
        },
        refl,
        refl,
      )

  -- A packet out of order.
  pub step-discard :
      (p : Peer) (d : Datagram)
      → length d.bytes ≤ max_payload_size
      → d.seq < 2 ^ 32
      → {i last k : ℕ} {r : Request} {c : Chunk} {bytes : List ℕ}
      → IsFilling p from i last k r c bytes
      → in_order last d.seq ≢ d.seq
      → (p' : Peer) × (process_inbound_udp ext p from (buffer_of d) d.now
          ≡ done (p', reply from (make_ack last)))
        × IsFilling p' from i (in_order last d.seq) k r c bytes
        × (p'.has_chunk_table ≡ p.has_chunk_table)
  step-discard p d fits low {i} {last} {k} {r} {c} {bytes} f other =
      let s = IsFilling-IsReceiving ext p from d fits low f in
      let peer_id = bt_peer_id p.config from in
      let len = sub32 (header_for d).packet_length header_length in
      (
        _,
        process_inbound_udp-on_data ext p from d fits low
            ∙ on_data-discard ext p peer_id i last k r c bytes from (header_for d) (buffer_of d)
                d.bytes d.now s other,
        record {
          stream = (track_data_packet-in_order p.tracker peer_id i last d.seq len d.now f.stream).1;
          request = f.request;
          hash = f.hash;
          asked =
              get_chunk_hash-track_data_packet p.tracker peer_id i last d.seq len d.now f.stream
              ∙ f.asked;
          index = f.index;
          in_table = f.in_table;
          in_range = f.in_range;
          small = f.small;
          holds = f.holds;
        },
        refl,
      )
