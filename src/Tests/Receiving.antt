-- ===== src/Tests/Receiving.antt =====
-- keep_track.c and peer.c: packets of a stream that is tracked.
use bittorrent_with_congesti.Base.{
  ℕ, ◌≤◌, ◌≡◌, ◌↔◌, refl, arith, some, List, [], ◌∷◌, ◌++◌, inr, done, set,
}
use bittorrent_with_congesti.Tracker.{index_of}
use bittorrent_with_congesti.Tracker.Receive.{track_data_packet}
use bittorrent_with_congesti.Tracker.Receive.InOrder.{
  IsTracking, Arrival, receive_all, HasRun, track_data_packet-HasRun,
}
use bittorrent_with_congesti.Tracker.Streams.{find_download, get_chunk_hash}
use bittorrent_with_congesti.Chunks.{receiving, get_chunk_id}
use bittorrent_with_congesti.Chunks.Save.{extended}
use bittorrent_with_congesti.Wire.{Header, magic_number, version_number, data_packet}
use bittorrent_with_congesti.Wire.Build.{make_ack}
use bittorrent_with_congesti.Peer.Inbound.{reply, on_data}
use bittorrent_with_congesti.Peer.Inbound.Receive.{IsReceiving, on_data-save}
use bittorrent_with_congesti.Tests.{
  tracker, download, request, chunk_in, hash_of, externals, peer, sender,
}

tracker-IsTracking : IsTracking tracker 7 0 0
unfolding index_of
tracker-IsTracking = record { found = refl; chain = (download, refl, 1, refl) }

abbrev arrivals : List Arrival
arrivals = (1, 1484, 5) ∷ (3, 1484, 6) ∷ []

track_data_packet-HasRun_example :
    HasRun 1 2 (arrivals ++ ((2, 1484, 7) ∷ []))
    ↔ (2 ≤ (track_data_packet (receive_all tracker 7 arrivals) 7 2 1484 7).1)
track_data_packet-HasRun_example =
    track_data_packet-HasRun arrivals 2 1484 7 2 tracker 7 0 tracker-IsTracking (omega arith)

abbrev header : ℕ → Header
header seq = record {
  magic = magic_number;
  version = version_number;
  packet_type = data_packet;
  header_length = 16;
  packet_length = 18;
  seq_number = seq;
  ack_number = 0;
}

abbrev buffer : List ℕ
buffer = 1 ∷ 2 ∷ 3 ∷ 4 ∷ 5 ∷ 6 ∷ 7 ∷ 8 ∷ 9 ∷ 10 ∷ 11 ∷ 12 ∷ 13 ∷ 14 ∷ 15 ∷ 16 ∷ 17 ∷ 18 ∷ 19 ∷ []

peer-IsReceiving :
    (seq : ℕ)
    → IsReceiving peer 7 0 0 1 request (chunk_in receiving 1) [] (header seq) buffer (17 ∷ 18 ∷ [])
unfolding get_chunk_hash find_download index_of get_chunk_id
peer-IsReceiving seq = record {
  stream = tracker-IsTracking;
  request = refl;
  hash = hash_of 1;
  asked = refl;
  index = refl;
  in_table = refl;
  in_range = omega arith;
  small = omega arith;
  holds = record { state = refl; buffer = inr (refl, refl); count = refl };
  read = refl;
}

on_data-save_example :
    on_data externals peer 7 sender (header 1) buffer 5
    ≡ done (
      record peer {
        tracker = (track_data_packet tracker 7 1 2 5).0;
        current_request = some (record request {
          chunks = set request.chunks 1 (extended (chunk_in receiving 1) 1 [] (17 ∷ 18 ∷ []));
        });
      },
      reply sender (make_ack 1),
    )
on_data-save_example =
    on_data-save externals peer 7 0 0 1 request (chunk_in receiving 1) [] sender (header 1) buffer
      (17 ∷ 18 ∷ []) 5 (peer-IsReceiving 1) (omega arith) refl
