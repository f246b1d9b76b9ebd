-- ===== src/Tests/Unused.antt =====
-- connection.c: a connection at its start, which grows, and whose sender falls silent.
use bittorrent_with_congesti.Base.{◌+◌, ◌≤◌, refl, arith, List, [], ◌∷◌, length}
use bittorrent_with_congesti.ConnectionWindow.{WindowConnection, slow_start_state}
use bittorrent_with_congesti.ConnectionWindow.Consistent.{
  Event, up, down, checked, run, IsConsistent, run-IsConsistent,
}

abbrev connection : WindowConnection
connection = record {
  state = slow_start_state;
  ssthresh = 64;
  window_size = 1;
  rtt = 2000000;
  avoidance_usec = 0;
  last_ack_usec = 100;
}

abbrev events : List Event
events = up 200 300 ∷ down ∷ up 400 500 ∷ checked 600000 ∷ []

run-IsConsistent_example :
    IsConsistent (run events connection)
    × ((run events connection).window_size ≤ connection.window_size + length events)
run-IsConsistent_example =
    run-IsConsistent events connection
      (record { open_ = omega arith; threshold = omega arith; small = omega arith; state = refl })
      (omega arith) (omega arith) (omega arith)
