-- ===== src/Tests/Sending.antt =====
-- keep_track.c, congestion_control.c and network.c: a stream that sends.
use bittorrent_with_congesti.Base.{
  some, List, ◌∷◌, ◌+◌, ◌≤◌, ◌≡◌, refl, arith, max, inl, inr, length, [], done, crash, Crash,
}
use bittorrent_with_congesti.Tracker.{Upload, Timers, index_of}
use bittorrent_with_congesti.Tracker.Send.{find_upload, acknowledge}
use bittorrent_with_congesti.Tracker.Send.Window.{IsWindow}
use bittorrent_with_congesti.Tracker.Send.Window.Acknowledge.{
  acknowledge-IsWindow, acknowledge-crash,
}
use bittorrent_with_congesti.Congestion.{
  Window, Controller, find_window, get_cwnd_size, window_control, window_timeout, init_cwnd,
  congestion_avoidance,
}
use bittorrent_with_congesti.Congestion.Growth.{IsSound}
use bittorrent_with_congesti.Congestion.Runs.{
  acked, timed_out, Event, run, earned, run-init_cwnd, window_control-stale,
}
use bittorrent_with_congesti.Peer.Transmit.Collapse.{IsCollapsed, choose-IsCollapsed}
use bittorrent_with_congesti.Peer.Transmit.{choose, transmit}
use bittorrent_with_congesti.Peer.Transmit.Decide.{IsSending, IsDecision, choose-IsDecision}
use bittorrent_with_congesti.Peer.Transmit.Flow.{IsBounded, transmit-IsBounded}
use bittorrent_with_congesti.Tests.{
  upload, timers, tracker, window, controller, config, smoothing, externals,
}

upload-IsWindow : IsWindow upload 3 5
upload-IsWindow = record {
  between = (refl, (refl, refl));
  tail = refl;
  size = refl;
  small = omega arith;
}

acknowledge-IsWindow_example :
    (tm' : Timers) × (u' : Upload) × (acknowledge smoothing timers upload 4 5000 5001
      ≡ done (tm', u', 1))
    × IsWindow u' 4 5
    × (u'.last_ack ≡ 4)
acknowledge-IsWindow_example =
    acknowledge-IsWindow smoothing timers upload 4 5000 5001 3 5 upload-IsWindow
      (omega arith, omega arith, (omega arith, omega arith, tt)) (omega arith) (omega arith)
      (omega arith) (omega arith) (inl (omega arith))

-- all is acknowledged, the last number twice more
abbrev drained : Upload
drained = record upload { queue = []; queue_size = 0; last_ack = 5; dup_ack_count = 2 }

acknowledge-crash_example :
    (c : Crash) × (acknowledge smoothing timers drained 5 5000 5001 ≡ crash c)
acknowledge-crash_example =
    acknowledge-crash smoothing timers drained 5 5000 5001 5 5
      (record { between = refl; tail = refl; size = refl; small = omega arith }) (omega arith)
      (inr refl) refl (omega arith) (omega arith)

tracker-IsSending : IsSending tracker controller 9 0 upload 4 3 5
unfolding find_upload index_of get_cwnd_size find_window
tracker-IsSending = record {
  found = refl;
  between = upload-IsWindow;
  window = refl;
  small = omega arith;
}

choose-IsDecision_example :
    IsDecision timers 5000 upload 4 3 5 (choose tracker controller 9 5000).packet
choose-IsDecision_example = choose-IsDecision tracker controller 9 5000 tracker-IsSending

transmit-IsBounded_example :
    IsBounded
      (transmit externals config 9 2 5000 (choose tracker controller 9 5000)).0
      9
      0
      3
      (max (length upload.queue) 4)
transmit-IsBounded_example =
    transmit-IsBounded externals config tracker controller 9 2 5000 tracker-IsSending (omega arith)

-- slow start, a timeout, and an acknowledgement of two packets
abbrev events : List Event
events = acked 1 100 ∷ acked 2 200 ∷ timed_out 300 ∷ acked 2 400 ∷ []

run-init_cwnd_example :
    let c' = run tracker 9 events (init_cwnd tracker controller 9 50) in
    (w' : Window) × (find_window tracker c' 9 ≡ some (0, w'))
    × IsSound w'
    × (get_cwnd_size tracker c' 9 ≤ earned 0 events + 1)
unfolding find_window index_of
run-init_cwnd_example = run-init_cwnd tracker 9 0 events controller window 50 refl (omega arith)

-- a window of 2 below half of the largest
abbrev narrow : Window
narrow = record { policy = congestion_avoidance; cwnd = 2; max_cwnd = 8; ack_count = 0 }

-- a window on which acknowledgements have been counted before the timeout
abbrev stale : Controller
stale = record controller { windows = record narrow { ack_count = 1 } ∷ [] }

window_control-stale_example :
    get_cwnd_size tracker (window_control tracker (window_timeout tracker stale 9 500) 9 0 600) 9
    ≡ 2
unfolding find_window index_of
window_control-stale_example =
    window_control-stale tracker 9 0 stale (record narrow { ack_count = 1 }) 500 600 refl
      (omega arith) (omega arith) (omega arith)

choose-IsCollapsed_example : IsCollapsed 9 0 2 (choose tracker controller 9 9000000)
unfolding find_window index_of
choose-IsCollapsed_example =
    choose-IsCollapsed tracker controller 9 9000000 0 window tracker-IsSending refl (omega arith)
