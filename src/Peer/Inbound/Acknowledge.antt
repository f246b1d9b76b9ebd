-- ===== src/Peer/Inbound/Acknowledge.antt =====
-- peer.c, `case ACK`: what an acknowledgement does to the stream of its sender.
use bittorrent_with_congesti.Base.{
  ◌∙◌, ℕ, ◌-◌, ◌^◌, ◌<◌, ◌≤◌, ◌≡◌, ◌≢◌, refl, arith, none, some, [], ◌==◌, true, false, ◌⊎◌,
  get_elem?, get_elem?-set_self, done,
}
use bittorrent_with_congesti.Tracker.{id_null, Upload, Timers, Tracker}
use bittorrent_with_congesti.Tracker.Slots.{lt_of_index_of}
use bittorrent_with_congesti.Tracker.Send.{
  Smoothing, find_upload, put_upload, acknowledge, receive_ack,
}
use bittorrent_with_congesti.Tracker.Send.Lookup.{
  find_upload_of_parts, find_upload-parts, find_upload-put_self, find_upload-put_ne, id-acknowledge,
}
use bittorrent_with_congesti.Tracker.Send.Window.{IsWindow, AreRecent}
use bittorrent_with_congesti.Tracker.Send.Window.Acknowledge.{acknowledge-IsWindow}
use bittorrent_with_congesti.Tracker.Streams.{abort_upload}
use bittorrent_with_congesti.Congestion.{Controller, window_control}
use bittorrent_with_congesti.Peer.{Externals, Peer}
use bittorrent_with_congesti.Peer.Transmit.{max_packet_per_chunk}
use bittorrent_with_congesti.Peer.Inbound.{on_ack}

-- The stream of a peer is the window from `base` to `last`, and a number within it is acknowledged
-- that leaves packets outstanding or is no duplicate.
pub record IsAcknowledged (t : Tracker) (peer_id i : ℕ) (u : Upload) (seq now base last : ℕ)
    : Type 0 where
  pub found : find_upload t peer_id ≡ some (i, u)
  pub between : IsWindow u base last
  pub recent : AreRecent now u.queue
  pub rtt : t.timers.rtt < 2 ^ 31
  pub clock : now < 2 ^ 64
  pub low : base ≤ seq
  pub high : seq ≤ last
  pub safe : (seq < last) ⊎ (u.last_ack ≢ seq)

-- What an acknowledgement leaves: the stream is the window from the number on and has noted it, and
-- the uploads to other peers and all downloads are as they were.
abbrev pub IsMoved : Tracker → (peer_id i seq last : ℕ) → Tracker → Type 0
IsMoved t peer_id i seq last t' =
    (u' : Upload) × (find_upload t' peer_id ≡ some (i, u'))
    × IsWindow u' seq last
    × (u'.last_ack ≡ seq)
    × ((other : ℕ) → other ≢ peer_id → find_upload t' other ≡ find_upload t other)
    × (t'.downloads ≡ t.downloads)

find_upload-timers :
    (t : Tracker) (tm : Timers) (peer_id : ℕ)
    → find_upload (record t { timers = tm }) peer_id ≡ find_upload t peer_id
unfolding find_upload
find_upload-timers t tm peer_id = refl

module _ (t : Tracker) (peer_id : ℕ) {i : ℕ} {u : Upload} (seq now base last : ℕ)
    (s : IsAcknowledged t peer_id i u seq now base last) where
  receive_ack-done :
      (sm : Smoothing) {tm' : Timers} {u' : Upload} {count : ℕ}
      → acknowledge sm t.timers u seq now now ≡ done (tm', u', count)
      → receive_ack sm t peer_id seq now now
        ≡ done (put_upload (record t { timers = tm' }) i u', count)
  unfolding receive_ack
  receive_ack-done sm e = rw (s.found, receive_ack) (rw e)

  receive_ack-IsMoved :
      (sm : Smoothing)
      → (t' : Tracker) × (receive_ack sm t peer_id seq now now ≡ done (t', seq - base))
        × IsMoved t peer_id i seq last t'
  receive_ack-IsMoved sm =
      let (tm', u', e, w, a) =
        acknowledge-IsWindow sm t.timers u seq now now base last s.between s.recent s.rtt s.clock
          s.low s.high s.safe in
      let (at, there, owner) = find_upload-parts t peer_id s.found in
      let timed = find_upload_of_parts (record t { timers = tm' }) peer_id at there in
      (
        put_upload (record t { timers = tm' }) i u',
        receive_ack-done sm e,
        (
          u',
          find_upload-put_self (record t { timers = tm' }) peer_id u' timed
              (id-acknowledge sm t.timers u seq now now e),
          w,
          a,
          λ other ne.
              find_upload-put_ne (record t { timers = tm' }) peer_id other u' timed
                (id-acknowledge sm t.timers u seq now now e) ne
              ∙ find_upload-timers t tm' other,
          refl,
        ),
      )

abort_upload-found :
    (t : Tracker) (peer_id : ℕ) {i : ℕ} {u : Upload}
    → find_upload t peer_id ≡ some (i, u)
    → (abort_upload t peer_id).0
      ≡ put_upload t i (record u { id = id_null; queue = []; tail = none })
unfolding abort_upload
abort_upload-found t peer_id h = rw (h, abort_upload)

module _ (ext : Externals) (p : Peer) (peer_id : ℕ) {i : ℕ} {u : Upload} (seq now base last : ℕ)
    (s : IsAcknowledged p.tracker peer_id i u seq now base last) where
  -- The stream of a peer is the window from `base` to `last`, all its packets were sent in the last
  -- 2^31 microseconds, the round-trip estimate is no negative `int`, and a number is acknowledged
  -- from `base` to `last`, but not 354, that leaves packets outstanding or is no duplicate. Then
  -- the stream is the window from this number to `last` and has noted the number, the congestion
  -- window is told how many packets were dropped, the uploads to other peers and all downloads are
  -- as they were, and nothing is sent.
  pub on_ack-IsMoved :
      seq ≢ max_packet_per_chunk
      → (t' : Tracker) × (on_ack ext p peer_id seq now
          ≡ done (
            record p {
              tracker = t';
              controller = window_control t' p.controller peer_id (seq - base) now;
            },
            [],
          ))
        × IsMoved p.tracker peer_id i seq last t'
  unfolding on_ack
  on_ack-IsMoved more =
      let (t', e, moved) =
        receive_ack-IsMoved p.tracker peer_id seq now base last s ext.smoothing in
      let other : (seq == max_packet_per_chunk) ≡ false = ground (arith, more) in
      (t', rw (e, other), moved)

  -- The stream of a peer is the window from `base` to `last`, all its packets were sent in the last
  -- 2^31 microseconds, the round-trip estimate is no negative `int`, and the number 354 of a
  -- chunk's last packet is acknowledged, which lies from `base` to `last` and leaves packets
  -- outstanding or is no duplicate. Then the slot of the stream is free and its queue is empty,
  -- nothing but the tracker and the controller changes, and nothing is sent.
  pub on_ack-finish :
      seq ≡ max_packet_per_chunk
      → (t' : Tracker) × (c' : Controller) × (u' : Upload) × (on_ack ext p peer_id seq now
          ≡ done (record p { tracker = t'; controller = c' }, []))
        × (get_elem? t'.uploads i ≡ some u')
        × (u'.id ≡ id_null)
        × (u'.queue ≡ [])
        × (u'.tail ≡ none)
  unfolding on_ack
  on_ack-finish end =
      let (t', e, (u', found, _, _, _, _)) =
        receive_ack-IsMoved p.tracker peer_id seq now base last s ext.smoothing in
      let same : (seq == max_packet_per_chunk) ≡ true = ground (arith, end) in
      let (at, there, _) = find_upload-parts t' peer_id found in
      let lt = lt_of_index_of Upload.id peer_id t'.uploads at in
      let u'' : Upload = record u' { id = id_null; queue = []; tail = none } in
      (
        put_upload t' i u'',
        window_control t' p.controller peer_id (seq - base) now,
        u'',
        rw (e, same, abort_upload-found t' peer_id found),
        get_elem?-set_self t'.uploads i _ lt,
        refl,
        refl,
        refl,
      )
