-- ===== src/Wire/RoundTrip.antt =====
-- network.c and peer.c: what a peer reads out of a packet that another has built.
use bittorrent_with_congesti.Base.{
  ℕ, ◌+◌, ◌-◌, ◌^◌, ◌<◌, ◌≤◌, ◌≡◌, refl, sym, ap, ◌∙◌, List, ◌++◌, arith, length, length-append,
  take, replicate, slice, done, take-append_self, slice-append, be16_value, be32_value, true,
  read16,
}
use mathlib.Core.List.{append_assoc}
use bittorrent_with_congesti.Wire.{
  header_length, magic_number, version_number, max_payload_size, Header, fill_header, wire_bytes,
  read_header, validate_packet, padded, data_packet,
}
use bittorrent_with_congesti.Wire.Build.{make_data}

abbrev pub header_of : (packet_type packet_length seq_number ack_number : ℕ) → Header
header_of packet_type packet_length seq_number ack_number = record {
  magic = magic_number;
  version = version_number;
  packet_type = packet_type;
  header_length = header_length;
  packet_length = packet_length;
  seq_number = seq_number;
  ack_number = ack_number;
}

-- Every field of a header is read back as it was written, if the length is below 2^16 and the two
-- numbers are below 2^32, whatever follows the header.
pub read_header-fill_header :
    (packet_type packet_length seq_number ack_number : ℕ) (rest : List ℕ)
    → packet_length < 2 ^ 16
    → seq_number < 2 ^ 32
    → ack_number < 2 ^ 32
    → read_header (fill_header packet_type packet_length seq_number ack_number ++ rest)
      ≡ header_of packet_type packet_length seq_number ack_number
unfolding read_header fill_header
read_header-fill_header packet_type packet_length seq_number ack_number rest l s a =
    rw (be16_value packet_length l, be32_value seq_number s, be32_value ack_number a)

length-fill_header :
    (packet_type packet_length seq_number ack_number : ℕ)
    → length (fill_header packet_type packet_length seq_number ack_number) ≡ 16
unfolding fill_header
length-fill_header packet_type packet_length seq_number ack_number = refl

read16-fill_header :
    (packet_type packet_length seq_number ack_number : ℕ)
    → packet_length < 2 ^ 16
    → read16 (fill_header packet_type packet_length seq_number ack_number) 6 ≡ packet_length
unfolding fill_header
read16-fill_header packet_type packet_length seq_number ack_number l = be16_value packet_length l

-- A packet whose length counts the header and the bytes is sent as those.
pub wire_bytes-fill_header :
    (packet_type seq_number ack_number : ℕ) (bytes : List ℕ)
    → length bytes ≤ max_payload_size
    → wire_bytes (record {
      header = fill_header packet_type (length bytes + header_length) seq_number ack_number;
      payload = padded bytes;
    })
      ≡ fill_header packet_type (length bytes + header_length) seq_number ack_number ++ bytes
unfolding wire_bytes
wire_bytes-fill_header packet_type seq_number ack_number bytes fits =
    let h = fill_header packet_type (length bytes + header_length) seq_number ack_number in
    let long : length (h ++ bytes) ≡ length bytes + header_length = omega (
      arith,
      length-append h bytes,
      length-fill_header packet_type (length bytes + header_length) seq_number ack_number,
    ) in
    rw
      (
        read16-fill_header packet_type (length bytes + header_length) seq_number ack_number
            (omega arith),
        ← append_assoc h bytes (replicate (max_payload_size - length bytes) 0),
      )
      (ap (λ n. take n ((h ++ bytes) ++ replicate (max_payload_size - length bytes) 0)) (sym long)
        ∙ take-append_self (h ++ bytes) (replicate (max_payload_size - length bytes) 0))

pub validate_packet-header_of :
    (packet_length seq_number : ℕ)
    → validate_packet (header_of data_packet packet_length seq_number 0) ≡ true
unfolding validate_packet
validate_packet-header_of packet_length seq_number = refl

-- A DATA packet with up to 1484 bytes and a number below 2^32: the receiver, whose buffer holds
-- anything behind the packet, reads its type, length and number, takes it for valid, and finds the
-- bytes that were put in.
pub make_data-read :
    (bytes : List ℕ) (seq_number : ℕ) (rest : List ℕ)
    → length bytes ≤ max_payload_size
    → seq_number < 2 ^ 32
    → let buf = wire_bytes (make_data bytes seq_number) ++ rest in
      (read_header buf ≡ header_of data_packet (length bytes + header_length) seq_number 0)
      × (validate_packet (read_header buf) ≡ true)
      × (slice buf header_length (length bytes) ≡ done bytes)
unfolding make_data
make_data-read bytes seq_number rest fits small =
    let h = fill_header data_packet (length bytes + header_length) seq_number 0 in
    let sent = wire_bytes-fill_header data_packet seq_number 0 bytes fits in
    let header : read_header (h ++ (bytes ++ rest))
        ≡ header_of data_packet (length bytes + header_length) seq_number 0 =
      read_header-fill_header data_packet (length bytes + header_length) seq_number 0
        (bytes ++ rest) (omega arith) small (omega arith) in
    rw (sent, append_assoc h bytes rest)
      (
        header,
        rw header (validate_packet-header_of (length bytes + header_length) seq_number),
        ap (λ n. slice (h ++ (bytes ++ rest)) n (length bytes))
              (sym (length-fill_header data_packet (length bytes + header_length) seq_number 0))
            ∙ slice-append h bytes rest,
      )
