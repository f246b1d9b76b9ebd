-- ===== src/Tracker/Streams/Start.antt =====
-- keep_track.c: a stream that is started in a free slot that is empty.
use bittorrent_with_congesti.Base.{
  ℕ, ◌≡◌, refl, ap, ◌∙◌, arith, none, some, List, [], ◌∷◌, true, get_elem?, get_elem?-set_self,
  Option-cases, inl, inr,
}
use bittorrent_with_congesti.Tracker.{
  id_null, Download, Upload, Tracker, get_download_index_by_id, get_upload_index_by_id,
}
use bittorrent_with_congesti.Tracker.Slots.{
  get_elem?-index_of, index_of-set_self, index_of-set_new, lt_of_index_of,
}
use bittorrent_with_congesti.Tracker.Receive.{track_records, track_data_packet}
use bittorrent_with_congesti.Tracker.Receive.InOrder.{
  IsTracking, track_records-root, track_data_packet-found,
}
use bittorrent_with_congesti.Tracker.Send.{find_upload, put_upload}
use bittorrent_with_congesti.Tracker.Send.Lookup.{find_upload_of_parts, find_upload-parts}
use bittorrent_with_congesti.Tracker.Send.Window.{IsWindow}
use bittorrent_with_congesti.Tracker.Streams.{
  find_download, put_download, get_chunk_hash, start_download, start_upload,
}

module _ (t : Tracker) (peer_id : ℕ) where
  pub find_download_of_parts :
      {i : ℕ} {d : Download}
      → get_download_index_by_id t peer_id ≡ some i
      → get_elem? t.downloads i ≡ some d
      → find_download t peer_id ≡ some (i, d)
  unfolding find_download
  find_download_of_parts e f = rw (e, find_download) (rw (f, find_download))

  find_download_of_none : get_download_index_by_id t peer_id ≡ none → find_download t peer_id ≡ none
  unfolding find_download
  find_download_of_none e = rw (e, find_download)

  pub find_download-parts :
      {i : ℕ} {d : Download}
      → find_download t peer_id ≡ some (i, d)
      → (get_download_index_by_id t peer_id ≡ some i)
        × (get_elem? t.downloads i ≡ some d)
        × (d.id ≡ peer_id)
  find_download-parts {i} {d} h = elim (Option-cases (get_download_index_by_id t peer_id)) [
    | inl e ↦ cc (find_download_of_none e)
    | inr (j, e) ↦
        let (x, f, owner) = get_elem?-index_of Download.id peer_id t.downloads e in
        ground (arith, find_download_of_parts e f)
  ]

start_download-found :
    (t : Tracker) (peer_id : ℕ) (hash : List ℕ) (now then_ : ℕ) {i : ℕ} {d : Download}
    → find_download t id_null ≡ some (i, d)
    → start_download t peer_id hash now then_ ≡ (
      (track_data_packet
          (put_download t i (record d { id = peer_id; hash = hash; last_time = now }))
          peer_id
          0
          1
          then_).0,
      true,
    )
unfolding start_download
start_download-found t peer_id hash now then_ free = rw (free, start_download)

get_chunk_hash-found :
    (t : Tracker) (peer_id : ℕ) {i : ℕ} {d : Download}
    → find_download t peer_id ≡ some (i, d)
    → get_chunk_hash t peer_id ≡ some d.hash
unfolding get_chunk_hash
get_chunk_hash-found t peer_id h = rw (h, get_chunk_hash)

pub start_download-IsTracking :
    (t : Tracker) (peer_id : ℕ) (hash : List ℕ) (now then_ : ℕ) {i : ℕ} {d : Download}
    → find_download t id_null ≡ some (i, d)
    → d.last_acked_record ≡ []
    → get_download_index_by_id t peer_id ≡ none
    → let (t', started) = start_download t peer_id hash now then_ in
      (started ≡ true) × IsTracking t' peer_id i 0 × (get_chunk_hash t' peer_id ≡ some hash)
start_download-IsTracking t peer_id hash now then_ {i} {d} free empty new =
    let (at, e, _) = find_download-parts t id_null free in
    let d₁ : Download = record d { id = peer_id; hash = hash; last_time = now } in
    let t₁ = put_download t i d₁ in
    let lt = lt_of_index_of Download.id id_null t.downloads at in
    let found = index_of-set_new Download.id peer_id id_null t.downloads d₁ at refl new in
    let there = get_elem?-set_self t.downloads i d₁ lt in
    let d₂ : Download = record d₁ {
      last_time = then_;
      last_acked_record = track_records d.last_acked_record 0 1;
    } in
    let again = index_of-set_self Download.id peer_id t₁.downloads d₂ found refl in
    let there' =
      get_elem?-set_self t₁.downloads i d₂
        (lt_of_index_of Download.id peer_id t₁.downloads found) in
    let chain : track_records d.last_acked_record 0 1 ≡ record { seq = 0; length = 1 } ∷ [] =
      ap (λ c. track_records c 0 1) empty ∙ track_records-root in
    rw
      (
        start_download-found t peer_id hash now then_ free,
        track_data_packet-found t₁ peer_id 0 1 then_ found there,
      )
      (
        refl,
        record { found = again; chain = (d₂, there', 1, chain) },
        get_chunk_hash-found (put_download t₁ i d₂) peer_id
            (find_download_of_parts (put_download t₁ i d₂) peer_id again there'),
      )

pub start_upload-IsWindow :
    (t : Tracker) (peer_id chunk_id now : ℕ) {i : ℕ} {u : Upload}
    → find_upload t id_null ≡ some (i, u)
    → u.queue ≡ []
    → u.tail ≡ none
    → get_upload_index_by_id t peer_id ≡ none
    → let (t', started) = start_upload t peer_id chunk_id now in
      (u' : Upload) × (started ≡ true)
      × (find_upload t' peer_id ≡ some (i, u'))
      × (u'.chunk_id ≡ chunk_id)
      × IsWindow u' 0 0
unfolding start_upload
start_upload-IsWindow t peer_id chunk_id now {i} {u} free empty end new =
    let (at, e, _) = find_upload-parts t id_null free in
    let u₁ : Upload = record u {
      id = peer_id;
      chunk_id = chunk_id;
      last_time = now;
      queue_size = 0;
      last_ack = 0;
      dup_ack_count = 0;
    } in
    let found = index_of-set_new Upload.id peer_id id_null t.uploads u₁ at refl new in
    let there = get_elem?-set_self t.uploads i u₁ (lt_of_index_of Upload.id id_null t.uploads at) in
    rw (free, start_upload)
      (
        u₁,
        refl,
        find_upload_of_parts (put_upload t i u₁) peer_id found there,
        refl,
        record {
          between = rw empty refl;
          tail = rw end refl;
          size = rw empty refl;
          small = omega arith;
        },
      )
