-- ===== src/Tracker/Streams/Reach.antt =====
-- keep_track.c: what all states of the tracker have in common, from `init_tracker` on.
use mathlib.Core.Path.{subst}
use bittorrent_with_congesti.Base.{
  ℕ, ◌≡◌, ◌≢◌, refl, sym, ◌∙◌, Bool, true, false, none, some, List, [], Option-cases, inl, inr,
  Outcome, done, crash, Outcome-cases,
}
use bittorrent_with_congesti.Tracker.{
  id_null, Download, Upload, Tracker, clear_download, clear_upload, init_tracker,
  get_download_index_by_id,
}
use bittorrent_with_congesti.Tracker.Slots.{All, All-set, All-map, get_elem?-index_of}
use bittorrent_with_congesti.Tracker.Receive.{track_data_packet}
use bittorrent_with_congesti.Tracker.Receive.InOrder.{
  track_data_packet-found, track_data_packet-missing,
}
use bittorrent_with_congesti.Tracker.Send.{
  Smoothing, find_upload, put_upload, await, acknowledge, get_timeout_seq, wait_ack, receive_ack,
}
use bittorrent_with_congesti.Tracker.Send.Lookup.{find_upload-parts, id-acknowledge}
use bittorrent_with_congesti.Tracker.Streams.{
  find_download, put_download, start_download, abort_download, start_upload, abort_upload,
  clean_download_timeout, clean_upload_timeout, first_silent_download, first_silent_upload,
}

-- A free slot holds nothing of an earlier stream.
abbrev pub IsVacant : Download → Type 0
IsVacant d = d.id ≡ id_null → d.last_acked_record ≡ []

abbrev pub IsDrained : Upload → Type 0
IsDrained u = u.id ≡ id_null → (u.queue ≡ []) × (u.tail ≡ none)

pub record IsClear (t : Tracker) : Type 0 where
  pub downloads : All IsVacant t.downloads
  pub uploads : All IsDrained t.uploads

-- the calls that change the tracker; the peers of streams are not `ID_NULL`
pub data Step : Tracker → Tracker → Type 0 where
  start_down :
      (t : Tracker) (peer_id : ℕ) (hash : List ℕ) (now then_ : ℕ)
      → peer_id ≢ id_null
      → Step t (start_download t peer_id hash now then_).0
  track :
      (t : Tracker) (peer_id seq len now : ℕ)
      → peer_id ≢ id_null
      → Step t (track_data_packet t peer_id seq len now).0
  abort_down : (t : Tracker) (peer_id : ℕ) → Step t (abort_download t peer_id).0
  clean_down : (t : Tracker) (now : ℕ) → Step t (clean_download_timeout t now).0
  start_up :
      (t : Tracker) (peer_id chunk_id now : ℕ)
      → peer_id ≢ id_null
      → Step t (start_upload t peer_id chunk_id now).0
  wait_up :
      (t : Tracker) (peer_id seq : ℕ) (timeout : Bool) (now : ℕ)
      → peer_id ≢ id_null
      → Step t (wait_ack t peer_id seq timeout now).0
  expire_up :
      (t : Tracker) (peer_id now renewed : ℕ)
      → peer_id ≢ id_null
      → Step t (get_timeout_seq t peer_id now renewed).0
  acknowledge_up :
      (sm : Smoothing) (t t' : Tracker) (peer_id seq sampled now count : ℕ)
      → peer_id ≢ id_null
      → receive_ack sm t peer_id seq sampled now ≡ done (t', count)
      → Step t t'
  abort_up : (t : Tracker) (peer_id : ℕ) → Step t (abort_upload t peer_id).0
  clean_up : (t : Tracker) (now : ℕ) → Step t (clean_upload_timeout t now).0

-- the states that a run from `init_tracker` goes through
pub data IsReachable : Tracker → Type 0 where
  initial : (ds : List Download) (us : List Upload) → IsReachable (init_tracker ds us)
  after : {t t' : Tracker} → IsReachable t → Step t t' → IsReachable t'

put_download-IsClear :
    (t : Tracker) (i : ℕ) (d : Download) → IsClear t → IsVacant d → IsClear (put_download t i d)
put_download-IsClear t i d h v = record {
  downloads = All-set IsVacant t.downloads i d h.downloads v;
  uploads = h.uploads;
}

put_upload-IsClear :
    (t : Tracker) (i : ℕ) (u : Upload) → IsClear t → IsDrained u → IsClear (put_upload t i u)
put_upload-IsClear t i u h v = record {
  downloads = h.downloads;
  uploads = All-set IsDrained t.uploads i u h.uploads v;
}

init_tracker-IsClear : (ds : List Download) (us : List Upload) → IsClear (init_tracker ds us)
unfolding init_tracker
init_tracker-IsClear ds us = record {
  downloads = All-map IsVacant clear_download ds (λ d e. refl);
  uploads = All-map IsDrained clear_upload us (λ u e. (refl, refl));
}

-- what a result of `receive_ack` must be like
abbrev Clears : Outcome (Tracker × ℕ) → Type 0
Clears (done (t', _)) = IsClear t'
Clears (crash c) = Unit

module _ (t : Tracker) (h : IsClear t) where
  track_data_packet-IsClear :
      (peer_id seq len now : ℕ)
      → peer_id ≢ id_null
      → IsClear (track_data_packet t peer_id seq len now).0
  track_data_packet-IsClear peer_id seq len now ne =
      elim (Option-cases (get_download_index_by_id t peer_id)) [
        | inl e ↦ rw (track_data_packet-missing t peer_id seq len now e) h
        | inr (i, e) ↦
            let (d, at, owner) = get_elem?-index_of Download.id peer_id t.downloads e in
            rw (track_data_packet-found t peer_id seq len now e at)
              (put_download-IsClear t i _ h (λ zero_id. absurd (ne (sym owner ∙ zero_id))))
      ]

  abort_download-IsClear : (peer_id : ℕ) → IsClear (abort_download t peer_id).0
  unfolding abort_download
  abort_download-IsClear peer_id = elim (Option-cases (find_download t peer_id)) [
    | inl e ↦ rw (e, abort_download) h
    | inr ((i, d), e) ↦ rw (e, abort_download) (put_download-IsClear t i _ h (λ _. refl))
  ]

  abort_upload-IsClear : (peer_id : ℕ) → IsClear (abort_upload t peer_id).0
  unfolding abort_upload
  abort_upload-IsClear peer_id = elim (Option-cases (find_upload t peer_id)) [
    | inl e ↦ rw (e, abort_upload) h
    | inr ((i, u), e) ↦ rw (e, abort_upload) (put_upload-IsClear t i _ h (λ _. (refl, refl)))
  ]

  -- A write to a peer's stream leaves it the peer's.
  put_owner-IsClear :
      (peer_id : ℕ) {i : ℕ} {u : Upload} (u' : Upload)
      → peer_id ≢ id_null
      → find_upload t peer_id ≡ some (i, u)
      → u'.id ≡ u.id
      → IsClear (put_upload t i u')
  put_owner-IsClear peer_id {i} u' ne e same =
      let (_, _, owner) = find_upload-parts t peer_id e in
      put_upload-IsClear t i u' h (λ zero_id. absurd (ne (sym owner ∙ sym same ∙ zero_id)))

  start_upload-IsClear :
      (peer_id chunk_id now : ℕ)
      → peer_id ≢ id_null
      → IsClear (start_upload t peer_id chunk_id now).0
  unfolding start_upload
  start_upload-IsClear peer_id chunk_id now ne = elim (Option-cases (find_upload t id_null)) [
    | inl e ↦ rw (e, start_upload) h
    | inr ((i, u), e) ↦
        rw (e, start_upload) (put_upload-IsClear t i _ h (λ zero_id. absurd (ne zero_id)))
  ]

  receive_ack-Clears :
      (sm : Smoothing) (peer_id seq sampled now : ℕ)
      → peer_id ≢ id_null
      → Clears (receive_ack sm t peer_id seq sampled now)
  unfolding receive_ack
  receive_ack-Clears sm peer_id seq sampled now ne = elim (Option-cases (find_upload t peer_id)) [
    | inl f ↦ rw (f, receive_ack) h
    | inr ((i, u), f) ↦ elim (Outcome-cases (acknowledge sm t.timers u seq sampled now)) [
      | inr (c, g) ↦ rw (f, receive_ack) (rw g tt)
      | inl ((tm, u', k), g) ↦
          let same = id-acknowledge sm t.timers u seq sampled now g in
          let clear = put_owner-IsClear peer_id u' ne f same in
          rw (f, receive_ack)
            (rw g (record { downloads = clear.downloads; uploads = clear.uploads }))
    ]
  ]

  clean_download_timeout-IsClear : (now : ℕ) → IsClear (clean_download_timeout t now).0
  unfolding clean_download_timeout
  clean_download_timeout-IsClear now =
      elim (Option-cases (first_silent_download t.timers now t.downloads)) [
        | inl e ↦ rw (e, clean_download_timeout) h
        | inr (d, e) ↦ rw (e, clean_download_timeout) (abort_download-IsClear d.id)
      ]

  clean_upload_timeout-IsClear : (now : ℕ) → IsClear (clean_upload_timeout t now).0
  unfolding clean_upload_timeout
  clean_upload_timeout-IsClear now =
      elim (Option-cases (first_silent_upload t.timers now t.uploads)) [
        | inl e ↦ rw (e, clean_upload_timeout) h
        | inr (u, e) ↦ rw (e, clean_upload_timeout) (abort_upload-IsClear u.id)
      ]

  id-await :
      (u : Upload) (seq : ℕ) (timeout : Bool) (now : ℕ) → (await u seq timeout now).0.id ≡ u.id
  unfolding await
  id-await u seq true now = refl
  id-await u seq false now = refl

  wait_ack-IsClear :
      (peer_id seq : ℕ) (timeout : Bool) (now : ℕ)
      → peer_id ≢ id_null
      → IsClear (wait_ack t peer_id seq timeout now).0
  unfolding wait_ack
  wait_ack-IsClear peer_id seq timeout now ne = elim (Option-cases (find_upload t peer_id)) [
    | inl e ↦ rw (e, wait_ack) h
    | inr ((i, u), e) ↦
        rw (e, wait_ack) (put_owner-IsClear peer_id _ ne e (id-await u seq timeout now))
  ]

  get_timeout_seq-IsClear :
      (peer_id now renewed : ℕ)
      → peer_id ≢ id_null
      → IsClear (get_timeout_seq t peer_id now renewed).0
  unfolding get_timeout_seq
  get_timeout_seq-IsClear peer_id now renewed ne = elim (Option-cases (find_upload t peer_id)) [
    | inl e ↦ rw (e, get_timeout_seq) h
    | inr ((i, u), e) ↦ rw (e, get_timeout_seq) (put_owner-IsClear peer_id _ ne e refl)
  ]

start_download-IsClear :
    (t : Tracker) (h : IsClear t) (peer_id : ℕ) (hash : List ℕ) (now then_ : ℕ)
    → peer_id ≢ id_null
    → IsClear (start_download t peer_id hash now then_).0
unfolding start_download
start_download-IsClear t h peer_id hash now then_ ne =
    elim (Option-cases (find_download t id_null)) [
      | inl e ↦ rw (e, start_download) h
      | inr ((i, d), e) ↦
          rw (e, start_download)
            (track_data_packet-IsClear _
              (put_download-IsClear t i _ h (λ zero_id. absurd (ne zero_id))) peer_id 0 1 then_ ne)
    ]

Step-IsClear : {t t' : Tracker} → Step t t' → IsClear t → IsClear t'
Step-IsClear (start_down t peer_id hash now then_ ne) h =
    start_download-IsClear t h peer_id hash now then_ ne
Step-IsClear (track t peer_id seq len now ne) h =
    track_data_packet-IsClear t h peer_id seq len now ne
Step-IsClear (abort_down t peer_id) h = abort_download-IsClear t h peer_id
Step-IsClear (clean_down t now) h = clean_download_timeout-IsClear t h now
Step-IsClear (start_up t peer_id chunk_id now ne) h =
    start_upload-IsClear t h peer_id chunk_id now ne
Step-IsClear (wait_up t peer_id seq timeout now ne) h =
    wait_ack-IsClear t h peer_id seq timeout now ne
Step-IsClear (expire_up t peer_id now renewed ne) h =
    get_timeout_seq-IsClear t h peer_id now renewed ne
Step-IsClear (acknowledge_up sm t t' peer_id seq sampled now count ne e) h =
    subst Clears e (receive_ack-Clears t h sm peer_id seq sampled now ne)
Step-IsClear (abort_up t peer_id) h = abort_upload-IsClear t h peer_id
Step-IsClear (clean_up t now) h = clean_upload_timeout-IsClear t h now

-- Whatever calls have been made since `init_tracker`, for peers other than `ID_NULL`: a download
-- slot that is free has no record left, and an upload slot that is free has an empty queue without
-- a tail.
pub IsReachable-IsClear : (t : Tracker) → IsReachable t → IsClear t
IsReachable-IsClear t (initial ds us) = init_tracker-IsClear ds us
IsReachable-IsClear t (after r step) = Step-IsClear step (IsReachable-IsClear _ r)
