-- ===== src/Tracker/Exchange.antt =====
-- keep_track.c, both sides: a sender with a window of one packet and a
-- receiver, on a network that may lose packets and acknowledgements.
pub mod Estimate
pub mod Progress
use bittorrent_with_congesti.Base.{
  ℕ, Bool, true, false, Option, List, [], ◌∷◌, add32, Outcome, done, ◌>>=◌,
}
use bittorrent_with_congesti.Tracker.{SentPacket, Upload, Timers, Tracker}
use bittorrent_with_congesti.Tracker.Send.{Smoothing, await, acknowledge}
use bittorrent_with_congesti.Tracker.Send.Window.{tail_seq}
use bittorrent_with_congesti.Tracker.Receive.{track_data_packet}

-- what becomes of a packet and its acknowledgement
pub data Fate : Type 0 where
  packet_lost ack_lost delivered : Fate

-- a turn: the packet is sent at `sent`, has `size` bytes and comes at `arrived`; its acknowledgement
-- comes at `sampled`, and is dealt with at `now`.
pub record Turn : Type 0 where
  pub fate : Fate
  pub sent : ℕ
  pub size : ℕ
  pub arrived : ℕ
  pub sampled : ℕ
  pub now : ℕ

-- The packet outstanding is sent again, and else the next one: the stream, and the packet's number.
abbrev pub send_from : Upload → (queue : List SentPacket) → (sent : ℕ) → Upload × ℕ
send_from u [] sent = let seq = add32 (tail_seq u.tail) 1 in ((await u seq false sent).0, seq)
send_from u (p ∷ ps) sent = ((await u p.seq true sent).0, p.seq)

-- the timers and the stream of the sender, and the receiver's tracker
abbrev pub Ends : Type 0
Ends = Timers × Upload × Tracker

abbrev pub answer :
    Smoothing → (peer_id : ℕ) → Turn → Fate → (tm : Timers) → Upload × ℕ → Tracker → Outcome Ends
answer sm peer_id r packet_lost tm (u, seq) t = done (tm, u, t)
answer sm peer_id r ack_lost tm (u, seq) t =
    done (tm, u, (track_data_packet t peer_id seq r.size r.arrived).0)
answer sm peer_id r delivered tm (u, seq) t =
    let (t', ack) = track_data_packet t peer_id seq r.size r.arrived in
    acknowledge sm tm u ack r.sampled r.now >>= λ (tm', u', count). done (tm', u', t')

-- the turns one after the other; the receiver knows the sender as `peer_id`.
unfoldable pub exchange : Smoothing → (peer_id : ℕ) → List Turn → Ends → Outcome Ends
unfolding await acknowledge
exchange sm peer_id [] ends = done ends
exchange sm peer_id (r ∷ rs) (tm, u, t) =
    answer sm peer_id r r.fate tm (send_from u u.queue r.sent) t >>= λ ends.
    exchange sm peer_id rs ends
