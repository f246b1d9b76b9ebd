-- ===== src/Peer/Inbound/Printing.antt =====
-- peer.c, `case IHAVE`: the packet is printed before anything else is done with it.
use bittorrent_with_congesti.Base.{
  ℕ, ◌<◌, ◌≡◌, ◌≢◌, ◌∙◌, arith, true, false, List, length, leb, ◌==◌, crash, out_of_bounds,
}
use bittorrent_with_congesti.Wire.{whohas, ihave, Header, data_packet, read_header, validate_packet}
use bittorrent_with_congesti.Wire.Print.{print_incoming_packet, print_incoming_packet-groups}
use bittorrent_with_congesti.Config.{Address, bt_peer_id}
use bittorrent_with_congesti.Peer.{Externals, Peer}
use bittorrent_with_congesti.Peer.Inbound.{on_ihave, dispatch, process_inbound_udp}

print_incoming_packet-long :
    (buf : List ℕ)
    → length buf ≡ 1500
    → (read_header buf).packet_type ≡ ihave
    → 1500 < (read_header buf).packet_length
    → print_incoming_packet buf ≡ crash out_of_bounds
print_incoming_packet-long buf whole kind long =
    let other : (read_header buf).packet_type ≢ data_packet = λ e. omega arith in
    let high : leb (read_header buf).packet_length 1500 ≡ false = ground arith in
    rw (print_incoming_packet-groups buf whole other, high)

on_ihave-long :
    (p : Peer) (peer_id : ℕ) (from : Address) (buf : List ℕ) (now : ℕ)
    → print_incoming_packet buf ≡ crash out_of_bounds
    → on_ihave p peer_id from buf now ≡ crash out_of_bounds
unfolding on_ihave
on_ihave-long p peer_id from buf now e = rw e

dispatch-ihave :
    (ext : Externals) (p : Peer) (peer_id : ℕ) (from : Address) (h : Header) (buf : List ℕ)
    (now : ℕ)
    → h.packet_type ≡ ihave
    → dispatch ext p peer_id from h buf now ≡ on_ihave p peer_id from buf now
unfolding dispatch
dispatch-ihave ext p peer_id from h buf now kind =
    let first : (h.packet_type == whohas) ≡ false = ground arith in
    let second : (h.packet_type == ihave) ≡ true = ground arith in rw (first, second)

process_inbound_udp-dispatch :
    (ext : Externals) (p : Peer) (from : Address) (buf : List ℕ) (now : ℕ)
    → validate_packet (read_header buf) ≡ true
    → process_inbound_udp ext p from buf now
      ≡ dispatch ext p (bt_peer_id p.config from) from (read_header buf) buf now
unfolding process_inbound_udp
process_inbound_udp-dispatch ext p from buf now valid = rw valid

-- A datagram of any peer, in the buffer of 1500 bytes, that is a valid IHAVE packet and claims a
-- length of more than 1500: the receiver reads beyond its buffer.
pub process_inbound_udp-long :
    (ext : Externals) (p : Peer) (from : Address) (buf : List ℕ) (now : ℕ)
    → length buf ≡ 1500
    → validate_packet (read_header buf) ≡ true
    → (read_header buf).packet_type ≡ ihave
    → 1500 < (read_header buf).packet_length
    → process_inbound_udp ext p from buf now ≡ crash out_of_bounds
process_inbound_udp-long ext p from buf now whole valid kind long =
    process_inbound_udp-dispatch ext p from buf now valid
    ∙ dispatch-ihave ext p (bt_peer_id p.config from) from (read_header buf) buf now kind
    ∙ on_ihave-long p (bt_peer_id p.config from) from buf now
        (print_incoming_packet-long buf whole kind long)
