-- ===== src/Tracker/Streams/Fresh.antt =====
-- keep_track.c: nothing of an earlier stream is left when a stream starts.
use bittorrent_with_congesti.Base.{ℕ, ◌≡◌, none, some, List, true}
use bittorrent_with_congesti.Tracker.{
  id_null, Download, Upload, Tracker, get_download_index_by_id, get_upload_index_by_id,
}
use bittorrent_with_congesti.Tracker.Slots.{All-get_elem?}
use bittorrent_with_congesti.Tracker.Receive.InOrder.{IsTracking}
use bittorrent_with_congesti.Tracker.Send.{find_upload}
use bittorrent_with_congesti.Tracker.Send.Lookup.{find_upload-parts}
use bittorrent_with_congesti.Tracker.Send.Window.{IsWindow}
use bittorrent_with_congesti.Tracker.Streams.{
  find_download, get_chunk_hash, start_download, start_upload,
}
use bittorrent_with_congesti.Tracker.Streams.Start.{
  find_download-parts, start_download-IsTracking, start_upload-IsWindow,
}
use bittorrent_with_congesti.Tracker.Streams.Reach.{
  IsVacant, IsDrained, IsReachable, IsReachable-IsClear,
}

-- After any calls since `init_tracker`, a download for a peer that has none starts if there is a
-- free slot; its stream is tracked from 0 on, and its chunk is the one that was asked for.
pub start_download-fresh :
    (t : Tracker) (peer_id : ℕ) (hash : List ℕ) (now then_ : ℕ) {i : ℕ} {d : Download}
    → IsReachable t
    → find_download t id_null ≡ some (i, d)
    → get_download_index_by_id t peer_id ≡ none
    → let (t', started) = start_download t peer_id hash now then_ in
      (started ≡ true) × IsTracking t' peer_id i 0 × (get_chunk_hash t' peer_id ≡ some hash)
start_download-fresh t peer_id hash now then_ {i} {d} r free new =
    let (_, at, owner) = find_download-parts t id_null free in
    let vacant = All-get_elem? IsVacant t.downloads i d (IsReachable-IsClear t r).downloads at in
    start_download-IsTracking t peer_id hash now then_ free (vacant owner) new

-- After any calls since `init_tracker`, an upload to a peer that has none starts if there is a free
-- slot; its queue is the empty window from 0 to 0, and its chunk is the one that was asked for.
pub start_upload-fresh :
    (t : Tracker) (peer_id chunk_id now : ℕ) {i : ℕ} {u : Upload}
    → IsReachable t
    → find_upload t id_null ≡ some (i, u)
    → get_upload_index_by_id t peer_id ≡ none
    → let (t', started) = start_upload t peer_id chunk_id now in
      (u' : Upload) × (started ≡ true)
      × (find_upload t' peer_id ≡ some (i, u'))
      × (u'.chunk_id ≡ chunk_id)
      × IsWindow u' 0 0
start_upload-fresh t peer_id chunk_id now {i} {u} r free new =
    let (_, at, owner) = find_upload-parts t id_null free in
    let drained =
      All-get_elem? IsDrained t.uploads i u (IsReachable-IsClear t r).uploads at owner in
    start_upload-IsWindow t peer_id chunk_id now free drained.0 drained.1 new
