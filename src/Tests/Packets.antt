-- ===== src/Tests/Packets.antt =====
-- network.c: packets on the wire.
use mathlib.Core.List.{flatten}
use bittorrent_with_congesti.Base.{
  ℕ, ◌≡◌, refl, arith, none, some, List, [], ◌∷◌, ◌++◌, map, replicate, length-replicate, done,
}
use bittorrent_with_congesti.Chunks.{Request, not_started}
use bittorrent_with_congesti.Wire.{
  Header, magic_number, version_number, header_length, whohas, fill_header,
}
use bittorrent_with_congesti.Wire.Build.{make_whohas, make_ihave}
use bittorrent_with_congesti.Wire.Whohas.{
  pending, asking, AreGroups, make_whohas-asking, make_whohas-never,
}
use bittorrent_with_congesti.Wire.Ihave.{owned_of, naming, make_ihave-owned_of}
use bittorrent_with_congesti.Tests.{chunk_in, request, hash_of}

abbrev header : (packet_type packet_length seq_number ack_number : ℕ) → Header
header packet_type packet_length seq_number ack_number = record {
  magic = magic_number;
  version = version_number;
  packet_type = packet_type;
  header_length = header_length;
  packet_length = packet_length;
  seq_number = seq_number;
  ack_number = ack_number;
}

make_whohas-asking_example :
    (gs : List (List (List ℕ))) × (make_whohas 4 request ≡ some (map asking gs))
    × (flatten gs ≡ pending request.chunks)
    × AreGroups gs
make_whohas-asking_example = make_whohas-asking 4 request (omega arith) (omega arith)

abbrev large : Request
large = record request { chunks = replicate 256 (chunk_in not_started 0) }

make_whohas-never_example : make_whohas 1000000 large ≡ none
make_whohas-never_example =
    make_whohas-never 1000000 large (omega (arith, length-replicate 256 (chunk_in not_started 0)))

-- a WHOHAS packet for the hashes 2 and 8
abbrev buffer : List ℕ
buffer =
    fill_header whohas 60 0 0 ++ (2 ∷ 0 ∷ 0 ∷ 0 ∷ []) ++ flatten (hash_of 2 ∷ hash_of 8 ∷ []) ++ []

make_ihave-owned_of_example :
    make_ihave request buffer ≡ done (naming (owned_of request (hash_of 2 ∷ hash_of 8 ∷ [])))
unfolding fill_header
make_ihave-owned_of_example =
    make_ihave-owned_of request buffer (fill_header whohas 60 0 0 ++ (2 ∷ 0 ∷ 0 ∷ 0 ∷ [])) []
      (hash_of 2 ∷ hash_of 8 ∷ []) (refl, (refl, tt)) refl refl refl (omega arith)
