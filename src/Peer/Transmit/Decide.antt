-- ===== src/Peer/Transmit/Decide.antt =====
-- network.c: which packet a stream picks in a round, before the test against the number of packets
-- of a chunk.
use native.Mathlib.Decide.{dec_lt}
use bittorrent_with_congesti.Base.{
  ℕ, suc, ◌^◌, ◌<◌, ◌≤◌, ◌≡◌, refl, ◌∙◌, arith, Bool, true, false, Bool-cases, Option, none, some,
  List, [], ◌∷◌, if◌then◌else◌, ltb, lt_int-small, sub64, to_ulong, length, inl, inr, ltb→lt,
  lt→ltb,
}
use bittorrent_with_congesti.Tracker.{SentPacket, Upload, Timers, Tracker}
use bittorrent_with_congesti.Tracker.Send.{
  find_upload, put_upload, expire_head, get_timeout_seq, get_queue_size, get_tail_seq_number,
}
use bittorrent_with_congesti.Tracker.Send.Lookup.{find_upload-parts, find_upload-put_self}
use bittorrent_with_congesti.Tracker.Send.Window.{IsBetween, IsWindow, tail_seq, length-IsBetween}
use bittorrent_with_congesti.Congestion.{
  Window, Controller, find_window, get_cwnd_size, window_timeout,
}
use bittorrent_with_congesti.Peer.Transmit.{choose_after, choose}

-- The oldest packet outstanding has waited longer than the timeout.
abbrev pub IsOverdue : Timers → (now : ℕ) → List SentPacket → Type 0
IsOverdue tm now [] = ⊥
IsOverdue tm now (p ∷ ps) = to_ulong tm.rto < sub64 now p.timestamp

-- what a stream with this queue and window, between `base` and `last`, should pick
pub data IsDecision (tm : Timers) (now : ℕ) (u : Upload) (cwnd base last : ℕ)
    : Option (ℕ × Bool) → Type 0 where
  resend :
      IsOverdue tm now u.queue
      → base < last
      → IsDecision tm now u cwnd base last (some (base, true))
  send_next :
      ¬ IsOverdue tm now u.queue
      → length u.queue < cwnd
      → IsDecision tm now u cwnd base last (some (last, false))
  wait :
      ¬ IsOverdue tm now u.queue → cwnd ≤ length u.queue → IsDecision tm now u cwnd base last none

pub overdue? : (tm : Timers) (now : ℕ) (queue : List SentPacket) → Dec (IsOverdue tm now queue)
overdue? tm now [] = no (λ h. h)
overdue? tm now (p ∷ ps) = dec_lt (to_ulong tm.rto) (sub64 now p.timestamp)

pub not_lt→ltb : (a b : ℕ) → ¬ (a < b) → ltb a b ≡ false
not_lt→ltb a b h = ground arith

pub expire_head-due :
    (tm : Timers) (now renewed base last : ℕ) (queue : List SentPacket)
    → IsBetween base last queue
    → IsOverdue tm now queue
    → ((expire_head tm now renewed queue).1 ≡ suc base)
      × IsBetween base last (expire_head tm now renewed queue).0
      × (length (expire_head tm now renewed queue).0 ≡ length queue)
      × (base < last)
unfolding expire_head
expire_head-due tm now renewed base last [] h due = absurd due
expire_head-due tm now renewed base last (p ∷ ps) h due =
    rw (lt→ltb _ _ due) (h.0, h, refl, omega (arith, length-IsBetween (suc base) last ps h.1))

expire_head-not_due :
    (tm : Timers) (now renewed : ℕ) (queue : List SentPacket)
    → ¬ IsOverdue tm now queue
    → expire_head tm now renewed queue ≡ (queue, 0)
unfolding expire_head
expire_head-not_due tm now renewed [] fresh = refl
expire_head-not_due tm now renewed (p ∷ ps) fresh =
    elim (Bool-cases (ltb (to_ulong tm.rto) (sub64 now p.timestamp))) [
      | inl due ↦ absurd (fresh (ltb→lt _ _ due))
      | inr not_due ↦ rw not_due
    ]

get_timeout_seq-found :
    (t : Tracker) (peer_id now renewed : ℕ) {i : ℕ} {u : Upload}
    → find_upload t peer_id ≡ some (i, u)
    → get_timeout_seq t peer_id now renewed ≡ (
      put_upload t i (record u { queue = (expire_head t.timers now renewed u.queue).0 }),
      (expire_head t.timers now renewed u.queue).1,
    )
unfolding get_timeout_seq
get_timeout_seq-found t peer_id now renewed h = rw (h, get_timeout_seq)

get_queue_size-found :
    (t : Tracker) (peer_id : ℕ) {i : ℕ} {u : Upload}
    → find_upload t peer_id ≡ some (i, u)
    → get_queue_size t peer_id ≡ u.queue_size
unfolding get_queue_size
get_queue_size-found t peer_id h = rw (h, get_queue_size)

get_tail_seq_number-found :
    (t : Tracker) (peer_id : ℕ) {i : ℕ} {u : Upload}
    → find_upload t peer_id ≡ some (i, u)
    → get_tail_seq_number t peer_id ≡ tail_seq u.tail
unfolding get_tail_seq_number
get_tail_seq_number-found t peer_id {u} h = rw (h, get_tail_seq_number) (ground arith)

get_cwnd_size-found :
    (t : Tracker) (c : Controller) (peer_id : ℕ) {i : ℕ} {w : Window}
    → find_window t c peer_id ≡ some (i, w)
    → get_cwnd_size t c peer_id ≡ w.cwnd
unfolding get_cwnd_size
get_cwnd_size-found t c peer_id h = rw (h, get_cwnd_size)

-- A write to the stream does not move its window.
pub find_window-put :
    (t : Tracker) (c : Controller) (peer_id : ℕ) {i : ℕ} {u : Upload} (u' : Upload)
    → find_upload t peer_id ≡ some (i, u)
    → u'.id ≡ u.id
    → find_window (put_upload t i u') c peer_id ≡ find_window t c peer_id
unfolding find_window
find_window-put t c peer_id {i} {u} u' h same =
    let old = (find_upload-parts t peer_id h).0 in
    let new =
      (find_upload-parts (put_upload t i u') peer_id
        (find_upload-put_self t peer_id u' h same)).0 in
    rw (new, find_window) (rw (old, find_window))

get_cwnd_size-put :
    (t : Tracker) (c : Controller) (peer_id : ℕ) {i : ℕ} {u : Upload} (u' : Upload)
    → find_upload t peer_id ≡ some (i, u)
    → u'.id ≡ u.id
    → get_cwnd_size (put_upload t i u') c peer_id ≡ get_cwnd_size t c peer_id
unfolding get_cwnd_size
get_cwnd_size-put t c peer_id u' h same = rw (find_window-put t c peer_id u' h same, get_cwnd_size)

-- A stream between `base` and `last`, with its congestion window.
pub record IsSending (t : Tracker) (c : Controller) (peer_id i : ℕ) (u : Upload)
    (cwnd base last : ℕ) : Type 0 where
  pub found : find_upload t peer_id ≡ some (i, u)
  pub between : IsWindow u base last
  pub window : get_cwnd_size t c peer_id ≡ cwnd
  pub small : cwnd < 2 ^ 31

choose_after-expired :
    (t : Tracker) (c : Controller) (peer_id now base : ℕ)
    → base < 2 ^ 31
    → choose_after t c peer_id now (suc base) ≡ record {
      tracker = t;
      controller = window_timeout t c peer_id now;
      packet = some (base, true);
    }
unfolding choose_after
choose_after-expired t c peer_id now base small = ground arith

choose_after-room :
    (t : Tracker) (c : Controller) (peer_id now : ℕ) {i : ℕ} {u : Upload} {cwnd base last : ℕ}
    → IsSending t c peer_id i u cwnd base last
    → choose_after t c peer_id now 0 ≡ (
        if ltb (length u.queue) cwnd
        then record { tracker = t; controller = c; packet = some (last, false) }
        else record { tracker = t; controller = c; packet = none })
unfolding choose_after
choose_after-room t c peer_id now {u} {cwnd} {base} {last} s = rw (
  get_queue_size-found t peer_id s.found,
  s.between.size,
  s.window,
  get_tail_seq_number-found t peer_id s.found,
  s.between.tail,
  lt_int-small (length u.queue) cwnd
      (omega (arith, length-IsBetween base last u.queue s.between.between, s.between.small))
      s.small,
)

module _ (t : Tracker) (c : Controller) (peer_id now : ℕ) {i : ℕ} {u : Upload} {cwnd base last : ℕ}
    (s : IsSending t c peer_id i u cwnd base last) where
  abbrev pub renewed : List SentPacket
  renewed = (expire_head t.timers now now u.queue).0

  pub choose-due :
      IsOverdue t.timers now u.queue
      → choose t c peer_id now ≡ record {
        tracker = put_upload t i (record u { queue = renewed });
        controller = window_timeout (put_upload t i (record u { queue = renewed })) c peer_id now;
        packet = some (base, true);
      }
  unfolding choose
  choose-due due =
      let (head, _, _, lt) =
        expire_head-due t.timers now now base last u.queue s.between.between due in
      rw (get_timeout_seq-found t peer_id now now s.found)
        (rw head (choose_after-expired _ c peer_id now base (omega (arith, s.between.small))))

  still-IsSending : IsSending (put_upload t i u) c peer_id i u cwnd base last
  still-IsSending = record {
    found = find_upload-put_self t peer_id u s.found refl;
    between = s.between;
    window = get_cwnd_size-put t c peer_id u s.found refl ∙ s.window;
    small = s.small;
  }

  pub choose-not_due :
      ¬ IsOverdue t.timers now u.queue
      → choose t c peer_id now ≡ (
          if ltb (length u.queue) cwnd
          then record { tracker = put_upload t i u; controller = c; packet = some (last, false) }
          else record { tracker = put_upload t i u; controller = c; packet = none })
  unfolding choose
  choose-not_due fresh = rw (get_timeout_seq-found t peer_id now now s.found) (
      rw (expire_head-not_due t.timers now now u.queue fresh)
        (choose_after-room (put_upload t i u) c peer_id now still-IsSending))

-- The queue of a stream is the window from `base` to `last`, and the stream has a congestion window
-- below 2^31. `choose` picks its oldest packet outstanding to be sent again if that is overdue;
-- else the packet after the last one if fewer are outstanding than the congestion window allows;
-- else none. Whether a picked packet is still one of the chunk is tested after the choice.
pub choose-IsDecision :
    (t : Tracker) (c : Controller) (peer_id now : ℕ) {i : ℕ} {u : Upload} {cwnd base last : ℕ}
    → IsSending t c peer_id i u cwnd base last
    → IsDecision t.timers now u cwnd base last (choose t c peer_id now).packet
choose-IsDecision t c peer_id now {u} {cwnd} {base} {last} s =
    elim (overdue? t.timers now u.queue) [
      | yes due ↦
          let lt = (expire_head-due t.timers now now base last u.queue s.between.between due).3 in
          rw (choose-due t c peer_id now s due) (resend due lt)
      | no fresh ↦ elim (dec_lt (length u.queue) cwnd) [
        | yes room ↦
            rw (choose-not_due t c peer_id now s fresh, lt→ltb _ _ room) (send_next fresh room)
        | no full ↦
            rw (choose-not_due t c peer_id now s fresh, not_lt→ltb _ _ full)
              (wait fresh (omega arith))
      ]
    ]
