-- ===== src/Peer/Transmit/Collapse.antt =====
-- network.c and congestion_control.c: a timeout, and the packets that are outstanding then.
use bittorrent_with_congesti.Base.{ℕ, ◌≡◌, refl, ◌∙◌, some, length}
use bittorrent_with_congesti.Tracker.{Upload, Tracker}
use bittorrent_with_congesti.Tracker.Send.{find_upload, put_upload}
use bittorrent_with_congesti.Tracker.Send.Lookup.{find_upload-put_self}
use bittorrent_with_congesti.Congestion.{Window, Controller, find_window, get_cwnd_size}
use bittorrent_with_congesti.Congestion.Windows.{get_cwnd_size-window_timeout}
use bittorrent_with_congesti.Peer.Transmit.{Choice, choose}
use bittorrent_with_congesti.Peer.Transmit.Decide.{
  IsOverdue, IsSending, renewed, expire_head-due, choose-due, find_window-put,
}

-- The window of a choice is one packet, and this many packets of the stream are outstanding.
pub record IsCollapsed (peer_id i count : ℕ) (ch : Choice) : Type 0 where
  pub window : get_cwnd_size ch.tracker ch.controller peer_id ≡ 1
  pub upload : Upload
  pub found : find_upload ch.tracker peer_id ≡ some (i, upload)
  pub outstanding : length upload.queue ≡ count

-- The queue of a stream is the window from `base` to `last`, its congestion window is below 2^31,
-- and its oldest packet is overdue. The timeout leaves a congestion window of one packet, and as
-- many packets outstanding as there were: more than the window, if there was more than one.
pub choose-IsCollapsed :
    (t : Tracker) (c : Controller) (peer_id now j : ℕ) (w : Window) {i : ℕ} {u : Upload}
    {cwnd base last : ℕ}
    → IsSending t c peer_id i u cwnd base last
    → find_window t c peer_id ≡ some (j, w)
    → IsOverdue t.timers now u.queue
    → IsCollapsed peer_id i (length u.queue) (choose t c peer_id now)
choose-IsCollapsed t c peer_id now j w {i} {u} {cwnd} {base} {last} s window due =
    let u₁ = record u { queue = renewed t c peer_id now s } in
    let t₁ = put_upload t i u₁ in
    let (_, _, same, _) =
      expire_head-due t.timers now now base last u.queue s.between.between due in
    rw (choose-due t c peer_id now s due) (record {
      window =
          get_cwnd_size-window_timeout t₁ peer_id c now
            (find_window-put t c peer_id u₁ s.found refl ∙ window);
      upload = u₁;
      found = find_upload-put_self t peer_id u₁ s.found refl;
      outstanding = same;
    })
