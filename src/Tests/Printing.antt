-- ===== src/Tests/Printing.antt =====
-- network.c: an IHAVE packet with one hash, and one that claims to be longer than the buffer.
use bittorrent_with_congesti.Base.{
  ℕ, ◌≡◌, refl, arith, if◌then◌else◌, leb, List, ◌∷◌, ◌++◌, drop, replicate, done, crash,
  out_of_bounds,
}
use bittorrent_with_congesti.Wire.{ihave, fill_header, read_header, validate_packet}
use bittorrent_with_congesti.Wire.Print.{
  print_incoming_packet, groups, rounds, print_incoming_packet-groups,
}
use bittorrent_with_congesti.Peer.Inbound.{process_inbound_udp}
use bittorrent_with_congesti.Peer.Inbound.Printing.{process_inbound_udp-long}
use bittorrent_with_congesti.Tests.{externals, peer, sender, hash_of}

-- an IHAVE packet of this length, in the buffer of 1500 bytes
abbrev buffer : ℕ → List ℕ
buffer packet_length =
    fill_header ihave packet_length 0 0 ++ ((1 ∷ 0 ∷ 0 ∷ 0 ∷ hash_of 2) ++ replicate 1460 0)

print_incoming_packet-groups_example : print_incoming_packet (buffer 40) ≡ (
    if leb (read_header (buffer 40)).packet_length 1500
    then done (record {
      header = read_header (buffer 40);
      hashes = groups (rounds 20 (read_header (buffer 40)).packet_length) (drop 20 (buffer 40));
    })
    else crash out_of_bounds)
unfolding read_header fill_header
print_incoming_packet-groups_example = print_incoming_packet-groups (buffer 40) refl (λ e. cc)

process_inbound_udp-long_example :
    process_inbound_udp externals peer sender (buffer 1501) 5 ≡ crash out_of_bounds
unfolding read_header fill_header validate_packet
process_inbound_udp-long_example =
    process_inbound_udp-long externals peer sender (buffer 1501) 5 refl refl refl (omega arith)
