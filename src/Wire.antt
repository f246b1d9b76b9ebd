-- ===== src/Wire.antt =====
-- network.c: the packets on the wire. A header is 16 bytes; a payload is a block of
-- MAX_PAYLOAD_SIZE bytes, of which the packet length says how many are sent.
pub mod Build
pub mod RoundTrip
pub mod Whohas
pub mod Ihave
pub mod Print
use bittorrent_with_congesti.Base.{
  ℕ, ◌+◌, ◌-◌, ◌*◌, ◌%◌, ◌^◌, Bool, true, false, Option, none, some, List, [], ◌∷◌, ◌++◌, ◌==◌,
  ◌&&◌, not, if◌then◌else◌, ltb, leb, take, drop, length, replicate, get_or, be16, be32, read16,
  read32,
}

-- packet types
abbrev pub whohas : ℕ
whohas = 0

abbrev pub ihave : ℕ
ihave = 1

abbrev pub get : ℕ
get = 2

abbrev pub data_packet : ℕ
data_packet = 3

abbrev pub ack : ℕ
ack = 4

abbrev pub denied : ℕ
denied = 5

abbrev pub magic_number : ℕ
magic_number = 15441

abbrev pub version_number : ℕ
version_number = 1

abbrev pub header_length : ℕ
header_length = 16

abbrev pub max_payload_size : ℕ
max_payload_size = 1484

-- CHUNK_NUMBER_AND_PADDING_SIZE
abbrev pub padding_size : ℕ
padding_size = 4

-- CHUNK_PER_PACKET
abbrev pub chunk_per_packet : ℕ
chunk_per_packet = 74

-- `struct packet`
pub record Packet : Type 0 where
  pub header : List ℕ
  pub payload : List ℕ

-- `fill_header`; the lengths and numbers are cut to their fields' width.
unfoldable pub fill_header : (packet_type packet_length seq_number ack_number : ℕ) → List ℕ
fill_header packet_type packet_length seq_number ack_number =
    be16 magic_number
    ++ (version_number ∷ packet_type ∷ [])
    ++ be16 header_length
    ++ be16 packet_length
    ++ be32 seq_number
    ++ be32 ack_number

-- the bytes that `send_packet` hands to the socket
unfoldable pub wire_bytes : Packet → List ℕ
wire_bytes p = take (read16 p.header 6) (p.header ++ p.payload)

-- the fields that `process_inbound_udp` reads out of its buffer
pub record Header : Type 0 where
  pub magic : ℕ
  pub version : ℕ
  pub packet_type : ℕ
  pub header_length : ℕ
  pub packet_length : ℕ
  pub seq_number : ℕ
  pub ack_number : ℕ

unfoldable pub read_header : List ℕ → Header
read_header buf = record {
  magic = read16 buf 0;
  version = get_or buf 2 0;
  packet_type = get_or buf 3 0;
  header_length = read16 buf 4;
  packet_length = read16 buf 6;
  seq_number = read32 buf 8;
  ack_number = read32 buf 12;
}

-- `validate_packet`: 1 is `true`, -1 is `false`
unfoldable pub validate_packet : Header → Bool
validate_packet h =
    (h.magic == magic_number) && (h.version == version_number) && not (ltb 5 h.packet_type)

-- what `memset` and the copies leave in a payload block
abbrev pub padded : List ℕ → List ℕ
padded bytes = bytes ++ replicate (max_payload_size - length bytes) 0
