-- ===== src/Tests/Streams.antt =====
-- keep_track.c and peer.c: streams that start, are acknowledged and end.
use bittorrent_with_congesti.Base.{◌≡◌, refl, arith, some, [], ◌∷◌, true, inl, inr, done}
use bittorrent_with_congesti.Tracker.{Upload, Tracker, clear_download, init_tracker, index_of}
use bittorrent_with_congesti.Tracker.Receive.InOrder.{IsTracking}
use bittorrent_with_congesti.Tracker.Send.{find_upload}
use bittorrent_with_congesti.Tracker.Streams.{
  find_download, get_chunk_hash, start_download, start_upload, abort_upload,
}
use bittorrent_with_congesti.Tracker.Streams.Reach.{
  IsClear, IsReachable, initial, after, start_up, abort_up, IsReachable-IsClear,
}
use bittorrent_with_congesti.Tracker.Streams.Fresh.{start_download-fresh}
use bittorrent_with_congesti.Congestion.{window_control}
use bittorrent_with_congesti.Peer.{Peer}
use bittorrent_with_congesti.Peer.Inbound.{on_ack}
use bittorrent_with_congesti.Peer.Inbound.Acknowledge.{IsAcknowledged, IsMoved, on_ack-IsMoved}
use bittorrent_with_congesti.Tests.{download, upload, tracker, peer, externals, hash_of}

-- the state at the start of a process, and after an upload has come and gone
abbrev begun : Tracker
begun = init_tracker (download ∷ []) (upload ∷ [])

abbrev served : Tracker
served = (abort_upload (start_upload begun 9 2 10).0 9).0

served-IsReachable : IsReachable served
served-IsReachable =
    after
      (after (initial (download ∷ []) (upload ∷ []))
        (start_up begun 9 2 10 (λ e. absurd (omega arith))))
      (abort_up _ 9)

IsReachable-IsClear_example : IsClear served
IsReachable-IsClear_example = IsReachable-IsClear served served-IsReachable

start_download-fresh_example :
    let (t', ok) = start_download begun 7 (hash_of 1) 20 21 in
    (ok ≡ true) × IsTracking t' 7 0 0 × (get_chunk_hash t' 7 ≡ some (hash_of 1))
unfolding find_download index_of init_tracker
start_download-fresh_example =
    start_download-fresh begun 7 (hash_of 1) 20 21 {d = clear_download download}
      (initial (download ∷ []) (upload ∷ [])) refl refl

tracker-IsAcknowledged : IsAcknowledged tracker 9 0 upload 4 5000 3 5
unfolding find_upload index_of
tracker-IsAcknowledged = record {
  found = refl;
  between = record {
    between = (refl, (refl, refl));
    tail = refl;
    size = refl;
    small = omega arith;
  };
  recent = (omega arith, omega arith, (omega arith, omega arith, tt));
  rtt = omega arith;
  clock = omega arith;
  low = omega arith;
  high = omega arith;
  safe = inl (omega arith);
}

on_ack-IsMoved_example :
    (t' : Tracker) × (on_ack externals peer 9 4 5000
      ≡ done (
        record peer { tracker = t'; controller = window_control t' peer.controller 9 1 5000 },
        [],
      ))
    × IsMoved tracker 9 0 4 5 t'
on_ack-IsMoved_example =
    on_ack-IsMoved externals peer 9 4 5000 3 5 tracker-IsAcknowledged (λ e. absurd (omega arith))

-- the last packet of a chunk is outstanding
abbrev last : Upload
last = record upload {
  queue = record { seq = 354; timestamp = 1000 } ∷ [];
  tail = some 354;
  queue_size = 1;
  last_ack = 353;
}

abbrev ending : Peer
ending = record peer { tracker = record tracker { uploads = last ∷ [] } }

ending-IsAcknowledged : IsAcknowledged ending.tracker 9 0 last 354 5000 353 354
unfolding find_upload index_of
ending-IsAcknowledged = record {
  found = refl;
  between = record { between = (refl, refl); tail = refl; size = refl; small = omega arith };
  recent = (omega arith, omega arith, tt);
  rtt = omega arith;
  clock = omega arith;
  low = omega arith;
  high = omega arith;
  safe = inr (λ e. absurd (omega arith));
}
