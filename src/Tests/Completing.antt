-- ===== src/Tests/Completing.antt =====
-- peer.c: the packet that completes a chunk. All but two bytes of the block have been received.
use bittorrent_with_congesti.Base.{
  ℕ, zero, suc, ◌+◌, ◌-◌, ◌≡◌, refl, sym, ap, arith, none, some, List, [], ◌∷◌, ◌++◌, ◌||◌,
  eq_bytes, inl, length, done,
}
use bittorrent_with_congesti.Tracker.{index_of}
use bittorrent_with_congesti.Tracker.Streams.{find_download, get_chunk_hash}
use bittorrent_with_congesti.Chunks.{
  Chunk, Request, receiving, chunk_size, get_chunk_id, find_chunk,
}
use bittorrent_with_congesti.Wire.{Header, magic_number, version_number, data_packet}
use bittorrent_with_congesti.Wire.Build.{make_ack}
use bittorrent_with_congesti.Peer.{Peer, Effect, write_file}
use bittorrent_with_congesti.Peer.Inbound.{reply, on_data}
use bittorrent_with_congesti.Peer.Inbound.Receive.{IsReceiving}
use bittorrent_with_congesti.Peer.Inbound.Complete.{on_data-accept}
use bittorrent_with_congesti.Tests.{download, request, chunk_in, hash_of, externals, peer, sender}

-- Opaque, since it is too long to be computed.
bytes_of : (n : ℕ) → (byte : ℕ) → List ℕ
bytes_of zero byte = []
bytes_of (suc n) byte = byte ∷ bytes_of n byte

length-bytes_of : (n byte : ℕ) → length (bytes_of n byte) ≡ n
unfolding bytes_of
length-bytes_of zero byte = refl
length-bytes_of (suc n) byte = ap suc (length-bytes_of n byte)

-- what has been received, beginning with this byte; the hash of a block is the hash of its first
-- byte
abbrev received : ℕ → List ℕ
received byte = byte ∷ bytes_of (chunk_size - 3) byte

abbrev almost : ℕ → Chunk
almost byte = record (chunk_in receiving 1) {
  buffer = some (received byte);
  received_byte_number = chunk_size - 2;
}

abbrev pending : ℕ → Request
pending byte = record request { chunks = chunk_in receiving 0 ∷ almost byte ∷ [] }

abbrev waiting : ℕ → Peer
waiting byte = record peer { current_request = some (pending byte) }

abbrev header : Header
header = record {
  magic = magic_number;
  version = version_number;
  packet_type = data_packet;
  header_length = 16;
  packet_length = 18;
  seq_number = 1;
  ack_number = 0;
}

abbrev buffer : List ℕ
buffer = 1 ∷ 2 ∷ 3 ∷ 4 ∷ 5 ∷ 6 ∷ 7 ∷ 8 ∷ 9 ∷ 10 ∷ 11 ∷ 12 ∷ 13 ∷ 14 ∷ 15 ∷ 16 ∷ 17 ∷ 18 ∷ 19 ∷ []

length-received : (byte : ℕ) → length (received byte) ≡ chunk_size - 2
length-received byte = omega (arith, length-bytes_of (chunk_size - 3) byte)

waiting-IsReceiving :
    (byte : ℕ)
    → IsReceiving
        (waiting byte)
        7
        0
        0
        1
        (pending byte)
        (almost byte)
        (received byte)
        header
        buffer
        (17 ∷ 18 ∷ [])
unfolding get_chunk_hash find_download index_of get_chunk_id
waiting-IsReceiving byte = record {
  stream = record { found = refl; chain = (download, refl, 1, refl) };
  request = refl;
  hash = hash_of 1;
  asked = refl;
  index = refl;
  in_table = refl;
  in_range = omega arith;
  small = omega arith;
  holds = record { state = refl; buffer = inl refl; count = sym (length-received byte) };
  read = refl;
}

full : (byte : ℕ) → length (received byte) + 2 ≡ chunk_size
full byte = omega (arith, length-received byte)

on_data-accept_example :
    (p' : Peer) × (sent : List Effect) × (on_data externals (waiting 1) 7 sender header buffer 5
      ≡ done (
        p',
        reply sender (make_ack 1)
            ++ (write_file none chunk_size (received 1 ++ (17 ∷ 18 ∷ [])) ∷ sent),
      ))
    × ((hash : List ℕ)
        → find_chunk p'.has_chunk_table hash
          ≡ (find_chunk request hash || eq_bytes hash (hash_of 1)))
on_data-accept_example =
    on_data-accept externals (waiting 1) 7 0 0 1 (pending 1) (almost 1) (received 1) sender header
      buffer (17 ∷ 18 ∷ []) 5 (waiting-IsReceiving 1) (full 1) refl refl
