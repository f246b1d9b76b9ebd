-- ===== src/Peer/Inbound/Receive.antt =====
-- peer.c, `case DATA`: what a packet of data does to the chunk that is being received.
use bittorrent_with_congesti.Base.{
  ℕ, ◌+◌, ◌^◌, ◌<◌, ◌≡◌, ◌≢◌, ap, ◌∙◌, some, List, [], ◌++◌, arith, length, if◌then◌else◌, ◌==◌,
  ◌||◌, leb, is_neg, true, false, length-append, sub32, get_elem?, set, slice, done,
}
use bittorrent_with_congesti.Tracker.{Tracker}
use bittorrent_with_congesti.Tracker.Receive.{track_data_packet}
use bittorrent_with_congesti.Tracker.Receive.InOrder.{
  IsTracking, in_order, track_data_packet-in_order,
}
use bittorrent_with_congesti.Tracker.Streams.{get_chunk_hash}
use bittorrent_with_congesti.Chunks.{Chunk, Request, chunk_size, is_owned, get_chunk_id}
use bittorrent_with_congesti.Chunks.Save.{Holds, extended, save_data-Holds, check_chunk-short}
use bittorrent_with_congesti.Wire.{Header}
use bittorrent_with_congesti.Wire.Build.{make_ack}
use bittorrent_with_congesti.Config.{Address}
use bittorrent_with_congesti.Peer.{Externals, Peer}
use bittorrent_with_congesti.Peer.Inbound.{
  reply, payload_size, save_packet, save_expected, on_chunk_data, on_requested_data, on_data,
}

==_self : (n : ℕ) → (n == n) ≡ true
==_self n = ground arith

save_packet-short :
    (ext : Externals) (p : Peer) (r : Request) (k : ℕ) (c : Chunk) (peer_id : ℕ) (from : Address)
    (h : Header) (buf : List ℕ) (now : ℕ) (bytes more : List ℕ)
    → Holds c bytes
    → slice buf h.header_length (payload_size h) ≡ done more
    → length bytes + length more < chunk_size
    → save_packet ext p r k c peer_id from h buf now
      ≡ done (
        record p {
          current_request =
              some (record r { chunks = set r.chunks k (extended c h.seq_number bytes more) });
        },
        [],
      )
unfolding save_packet
save_packet-short ext p r k c peer_id from h buf now bytes more holds read short =
    let (saved, holds') = save_data-Holds c h.seq_number bytes more holds (omega arith) in
    let got : (if is_owned c.state then done [] else slice buf h.header_length (payload_size h))
        ≡ done more =
      rw holds.state read in
    rw got (
      rw saved (
        rw (
          check_chunk-short ext.sha1 (extended c h.seq_number bytes more) (bytes ++ more) holds'
            (omega (arith, length-append bytes more)))))

-- A packet for peer `peer_id` while chunk `k` of the request is received from it: the stream stands
-- at `last`, the chunk holds `bytes`, and the packet brings `more`.
pub record IsReceiving (p : Peer) (peer_id i last k : ℕ) (r : Request) (c : Chunk) (bytes : List ℕ)
    (h : Header) (buf more : List ℕ) : Type 0 where
  pub stream : IsTracking p.tracker peer_id i last
  pub request : p.current_request ≡ some r
  pub hash : List ℕ
  pub asked : get_chunk_hash p.tracker peer_id ≡ some hash
  pub index : get_chunk_id hash (some r) ≡ k
  pub in_table : get_elem? r.chunks k ≡ some c
  pub in_range : k < length r.chunks
  pub small : length r.chunks < 2 ^ 31
  pub holds : Holds c bytes
  pub read : slice buf h.header_length (payload_size h) ≡ done more

module _ (ext : Externals) (p : Peer) (peer_id i last k : ℕ) (r : Request) (c : Chunk)
    (bytes : List ℕ) (from : Address) (h : Header) (buf more : List ℕ) (now : ℕ)
    (s : IsReceiving p peer_id i last k r c bytes h buf more) where
  abbrev pub tracked : Tracker
  tracked =
      (track_data_packet p.tracker peer_id h.seq_number (sub32 h.packet_length h.header_length)
        now).0

  in_range? : (is_neg k || leb (length r.chunks) k) ≡ false
  in_range? = ground (arith, s.in_range, s.small)

  ack_of :
      (track_data_packet p.tracker peer_id h.seq_number
        (sub32 h.packet_length h.header_length)
        now).1
      ≡ in_order last h.seq_number
  ack_of =
      (track_data_packet-in_order p.tracker peer_id i last h.seq_number
        (sub32 h.packet_length h.header_length) now s.stream).0

  on_data-on_chunk_data :
      on_data ext p peer_id from h buf now ≡ on_chunk_data ext p r k peer_id from h buf now
  unfolding on_data on_requested_data
  on_data-on_chunk_data =
      rw (s.asked, on_data)
        (ap (λ q. on_requested_data ext p s.hash q peer_id from h buf now) s.request
          ∙ ap (λ j. on_chunk_data ext p r j peer_id from h buf now) s.index)

  -- A packet whose number is acknowledged is saved.
  pub on_data-expected :
      in_order last h.seq_number ≡ h.seq_number
      → on_data ext p peer_id from h buf now
        ≡ save_expected ext (record p { tracker = tracked }) r k peer_id from h buf h.seq_number now
  unfolding on_chunk_data
  on_data-expected expected =
      on_data-on_chunk_data ∙ rw (in_range?, ack_of, expected, ==_self h.seq_number)

  save_expected-short :
      length bytes + length more < chunk_size
      → save_expected ext (record p { tracker = tracked }) r k peer_id from h buf h.seq_number now
        ≡ done (
          record p {
            tracker = tracked;
            current_request =
                some (record r { chunks = set r.chunks k (extended c h.seq_number bytes more) });
          },
          reply from (make_ack h.seq_number),
        )
  unfolding save_expected
  save_expected-short short =
      rw (s.in_table, save_expected)
        (rw (
          save_packet-short ext (record p { tracker = tracked }) r k c peer_id from h buf now bytes
            more s.holds s.read short))

  -- A stream stands at `last`; its chunk stands in the request's table (of fewer than 2^31 chunks)
  -- at the index that is its id, and holds `bytes`; a packet brings `more`, and the chunk stays
  -- short of a block. If the number of the packet is the next in order, or `last` again, `more`
  -- goes behind `bytes`, the number is acknowledged, and nothing else changes but the stream's
  -- tracking.
  pub on_data-save :
      length bytes + length more < chunk_size
      → in_order last h.seq_number ≡ h.seq_number
      → on_data ext p peer_id from h buf now
        ≡ done (
          record p {
            tracker = tracked;
            current_request =
                some (record r { chunks = set r.chunks k (extended c h.seq_number bytes more) });
          },
          reply from (make_ack h.seq_number),
        )
  on_data-save short expected = on_data-expected expected ∙ save_expected-short short

  -- A stream stands at `last`, and its chunk stands in the request's table (of fewer than 2^31
  -- chunks) at the index that is its id. A packet whose number is neither the next in order nor
  -- `last` leaves the chunk and all else but the stream's tracking as they were, and is answered by
  -- an acknowledgement of `last`.
  pub on_data-discard :
      in_order last h.seq_number ≢ h.seq_number
      → on_data ext p peer_id from h buf now
        ≡ done (record p { tracker = tracked }, reply from (make_ack last))
  unfolding on_chunk_data
  on_data-discard other =
      let kept : in_order last h.seq_number ≡ last = ground arith in
      let differs : (h.seq_number == last) ≡ false = ground arith in
      on_data-on_chunk_data ∙ rw (in_range?, ack_of, kept, differs)
