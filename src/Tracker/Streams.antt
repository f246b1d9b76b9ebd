-- ===== src/Tracker/Streams.antt =====
-- keep_track.c: the start and the end of streams, their lists, and the ones that fell silent.
pub mod Fresh
pub mod Start
pub mod Reach
use bittorrent_with_congesti.Base.{
  ℕ, ◌*◌, Bool, true, false, Option, none, some, List, [], ◌∷◌, ◌==◌, if◌then◌else◌, ltb, ◌&&◌, not,
  ◌%◌, ◌^◌, sub64, to_ulong, get_elem?, set,
}
use bittorrent_with_congesti.Tracker.{
  id_null, Download, Upload, Timers, Tracker, get_download_index_by_id,
}
use bittorrent_with_congesti.Tracker.Receive.{track_data_packet}
use bittorrent_with_congesti.Tracker.Send.{find_upload, put_upload}

unfoldable pub find_download : Tracker → ℕ → Option (ℕ × Download)
find_download t peer_id = elim (get_download_index_by_id t peer_id) [
  | none ↦ none
  | some i ↦ elim (get_elem? t.downloads i) [ none ↦ none | some d ↦ some (i, d) ]
]

abbrev pub put_download : Tracker → ℕ → Download → Tracker
put_download t i d = record t { downloads = set t.downloads i d }

unfoldable pub get_chunk_hash : Tracker → ℕ → Option (List ℕ)
unfolding find_download
get_chunk_hash t peer_id = elim (find_download t peer_id) [
  | none ↦ none
  | some (_, d) ↦ some d.hash
]

-- The free slot is the first whose id is `ID_NULL`. The root record is added by
-- `track_data_packet`, which looks the stream up by its peer again.
unfoldable pub start_download :
    Tracker → (peer_id : ℕ) → (chunk_hash : List ℕ) → (now then_ : ℕ) → Tracker × Bool
unfolding find_download
start_download t peer_id chunk_hash now then_ = elim (find_download t id_null) [
  | none ↦ (t, false)
  | some (i, d) ↦
      let t' = put_download t i (record d { id = peer_id; hash = chunk_hash; last_time = now }) in
      ((track_data_packet t' peer_id 0 1 then_).0, true)
]

unfoldable pub abort_download : Tracker → ℕ → Tracker × Bool
unfolding find_download
abort_download t peer_id = elim (find_download t peer_id) [
  | none ↦ (t, false)
  | some (i, d) ↦ (put_download t i (record d { id = id_null; last_acked_record = [] }), true)
]

-- not called by the program
unfoldable pub finish_download : Tracker → ℕ → Tracker × Bool
finish_download t peer_id = ((abort_download t peer_id).0, true)

unfoldable pub start_upload : Tracker → (peer_id chunk_id now : ℕ) → Tracker × Bool
unfolding find_upload
start_upload t peer_id chunk_id now = elim (find_upload t id_null) [
  | none ↦ (t, false)
  | some (i, u) ↦ (
    put_upload t i (record u {
      id = peer_id;
      chunk_id = chunk_id;
      last_time = now;
      queue_size = 0;
      last_ack = 0;
      dup_ack_count = 0;
    }),
    true,
  )
]

unfoldable pub abort_upload : Tracker → ℕ → Tracker × Bool
unfolding find_upload
abort_upload t peer_id = elim (find_upload t peer_id) [
  | none ↦ (t, false)
  | some (i, u) ↦ (put_upload t i (record u { id = id_null; queue = []; tail = none }), true)
]

-- the time of silence after which a stream is given up: `ABORT_COEFF * RTO`, an `int` product
abbrev pub patience : Timers → ℕ
patience tm = to_ulong ((4 * tm.rto) % 2 ^ 32)

abbrev silent : Timers → (now id last_time : ℕ) → Bool
silent tm now id last_time = not (id == id_null) && ltb (patience tm) (sub64 now last_time)

first_silent_download : Timers → ℕ → List Download → Option Download
first_silent_download tm now [] = none
first_silent_download tm now (d ∷ ds) =
    let rest = first_silent_download tm now ds in
    if silent tm now d.id d.last_time then some d else rest

first_silent_upload : Timers → ℕ → List Upload → Option Upload
first_silent_upload tm now [] = none
first_silent_upload tm now (u ∷ us) =
    let rest = first_silent_upload tm now us in
    if silent tm now u.id u.last_time then some u else rest

-- the peer given up, `ID_NULL` if none, with the hash that it was sending
unfoldable pub clean_download_timeout : Tracker → (now : ℕ) → Tracker × ℕ × Option (List ℕ)
unfolding first_silent_download
clean_download_timeout t now = elim (first_silent_download t.timers now t.downloads) [
  | none ↦ (t, id_null, none)
  | some d ↦ ((abort_download t d.id).0, d.id, some d.hash)
]

unfoldable pub clean_upload_timeout : Tracker → (now : ℕ) → Tracker × ℕ
unfolding first_silent_upload
clean_upload_timeout t now = elim (first_silent_upload t.timers now t.uploads) [
  | none ↦ (t, id_null)
  | some u ↦ ((abort_upload t u.id).0, u.id)
]

-- `get_upload_list` and `get_upload_chunk_list`
unfoldable pub active_uploads : List Upload → List Upload
active_uploads [] = []
active_uploads (u ∷ us) = if u.id == id_null then active_uploads us else u ∷ active_uploads us
