-- ===== src/Peer/Transmit/Flow.antt =====
-- network.c: flow control. What a round of `send_data_packets` leaves of a stream.
use native.Mathlib.Decide.{dec_lt}
use bittorrent_with_congesti.Base.{
  ℕ, suc, ◌+◌, ◌<◌, ◌≤◌, ◌≡◌, refl, max, arith, Bool, true, false, none, some, List, [], ◌∷◌,
  length, lt→ltb,
}
use bittorrent_with_congesti.Tracker.{SentPacket, Upload, Tracker}
use bittorrent_with_congesti.Tracker.Send.{
  find_upload, put_upload, expire_head, renew_head, await, wait_ack,
}
use bittorrent_with_congesti.Tracker.Send.Lookup.{find_upload-put_self}
use bittorrent_with_congesti.Tracker.Send.Window.{
  IsBetween, IsWindow, length-IsBetween, await-IsWindow,
}
use bittorrent_with_congesti.Congestion.{Controller}
use bittorrent_with_congesti.Config.{Config}
use bittorrent_with_congesti.Peer.{Externals}
use bittorrent_with_congesti.Peer.Transmit.{Choice, choose, transmit, max_packet_per_chunk}
use bittorrent_with_congesti.Peer.Transmit.Decide.{
  IsOverdue, overdue?, not_lt→ltb, expire_head-due, IsSending, choose-due, choose-not_due,
}

wait_ack-found :
    (t : Tracker) (peer_id seq : ℕ) (timeout : Bool) (now : ℕ) {i : ℕ} {u : Upload}
    → find_upload t peer_id ≡ some (i, u)
    → (wait_ack t peer_id seq timeout now).0 ≡ put_upload t i (await u seq timeout now).0
unfolding wait_ack
wait_ack-found t peer_id seq timeout now h = rw (h, wait_ack)

id-await : (u : Upload) (seq now : ℕ) → (await u seq false now).0.id ≡ u.id
unfolding await
id-await u seq now = refl

renew_head-IsBetween :
    (now base last : ℕ) (queue : List SentPacket)
    → IsBetween base last queue
    → IsBetween base last (renew_head now queue) × (length (renew_head now queue) ≡ length queue)
renew_head-IsBetween now base last [] h = (h, refl)
renew_head-IsBetween now base last (p ∷ ps) h = (h, refl)

-- the bounds that a round keeps
pub record IsBounded (t : Tracker) (peer_id i base limit : ℕ) : Type 0 where
  pub upload : Upload
  pub last : ℕ
  pub found : find_upload t peer_id ≡ some (i, upload)
  pub between : IsWindow upload base last
  pub in_chunk : last ≤ max_packet_per_chunk
  pub limited : length upload.queue ≤ limit

module _ (ext : Externals) (config : Config) (t : Tracker) (c : Controller)
    (peer_id chunk_id now : ℕ) {i : ℕ} {u : Upload} {cwnd base last : ℕ}
    (s : IsSending t c peer_id i u cwnd base last) (in_chunk : last ≤ max_packet_per_chunk) where
  abbrev IsKept : Choice → Type 0
  IsKept ch =
      IsBounded (transmit ext config peer_id chunk_id now ch).0 peer_id i base
        (max (length u.queue) cwnd)

  transmit-IsKept_resend :
      (c' : Controller)
      → IsOverdue t.timers now u.queue
      → IsKept (record {
        tracker = put_upload t i (record u { queue = (expire_head t.timers now now u.queue).0 });
        controller = c';
        packet = some (base, true);
      })
  unfolding transmit await
  transmit-IsKept_resend c' due =
      let u₁ = record u { queue = (expire_head t.timers now now u.queue).0 } in
      let (_, between, count, lt) =
        expire_head-due t.timers now now base last u.queue s.between.between due in
      let (between', count') = renew_head-IsBetween now base last u₁.queue between in
      let found = find_upload-put_self t peer_id u₁ s.found refl in
      rw
        (
          lt→ltb base max_packet_per_chunk (omega arith),
          wait_ack-found _ peer_id (base + 1) true now found,
        )
        (record {
          upload = record u₁ { queue = renew_head now u₁.queue };
          last = last;
          found = find_upload-put_self _ peer_id _ found refl;
          between = record {
            between = between';
            tail = s.between.tail;
            size = omega (arith, s.between.size, count, count');
            small = s.between.small;
          };
          in_chunk = in_chunk;
          limited = omega (arith, count, count');
        })

  transmit-IsKept_idle :
      (c' : Controller)
      → IsKept (record { tracker = put_upload t i u; controller = c'; packet = none })
  unfolding transmit
  transmit-IsKept_idle c' = record {
    upload = u;
    last = last;
    found = find_upload-put_self t peer_id u s.found refl;
    between = s.between;
    in_chunk = in_chunk;
    limited = omega arith;
  }

  transmit-IsKept_advance :
      length u.queue < cwnd
      → IsKept (record { tracker = put_upload t i u; controller = c; packet = some (last, false) })
  unfolding transmit
  transmit-IsKept_advance room = elim (dec_lt last max_packet_per_chunk) [
    | no end ↦ rw (not_lt→ltb last max_packet_per_chunk end) (transmit-IsKept_idle c)
    | yes more ↦
        let found = find_upload-put_self t peer_id u s.found refl in
        let next : last + 1 ≡ suc last = omega arith in
        let w = await-IsWindow u base last now s.between (omega arith) in
        let total = length-IsBetween base last u.queue s.between.between in
        let total' = length-IsBetween base (suc last) _ w.between in
        rw
          (
            lt→ltb last max_packet_per_chunk more,
            wait_ack-found _ peer_id (last + 1) false now found,
            next,
          )
          (record {
            upload = (await u (suc last) false now).0;
            last = suc last;
            found = find_upload-put_self _ peer_id _ found (id-await u (suc last) now);
            between = w;
            in_chunk = more;
            limited = omega (arith, total, total');
          })
  ]

  -- The queue of a stream is the window from `base` to `last`, at most the number of a chunk's last
  -- packet, and the stream has a congestion window of `cwnd`, below 2^31. A round leaves it a window
  -- from the same base to a number at most that of the chunk's last packet, with no more packets
  -- outstanding than there were, or than the congestion window allows if that is more.
  pub transmit-IsBounded :
      IsBounded
        (transmit ext config peer_id chunk_id now (choose t c peer_id now)).0
        peer_id
        i
        base
        (max (length u.queue) cwnd)
  transmit-IsBounded = elim (overdue? t.timers now u.queue) [
    | yes due ↦ rw (choose-due t c peer_id now s due) (transmit-IsKept_resend _ due)
    | no fresh ↦ elim (dec_lt (length u.queue) cwnd) [
      | yes room ↦
          rw (choose-not_due t c peer_id now s fresh, lt→ltb _ _ room)
            (transmit-IsKept_advance room)
      | no full ↦
          rw (choose-not_due t c peer_id now s fresh, not_lt→ltb _ _ full) (transmit-IsKept_idle c)
    ]
  ]
