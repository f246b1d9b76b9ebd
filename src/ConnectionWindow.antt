-- ===== src/ConnectionWindow.antt =====
-- connection.c: a second window for each connection, which the program does not use: the Makefile
-- does not name the file. Its second `connection_timeout_sender` calls functions that are not
-- there.
pub mod Consistent
use bittorrent_with_congesti.Base.{
  ℕ, ◌/◌, ◌%◌, ◌^◌, List, [], ◌∷◌, ◌==◌, if◌then◌else◌, add32, sub32, is_neg, lt_int,
}

-- SLOW_START and CONGESTION_AVOIDANCE
abbrev pub slow_start_state : ℕ
slow_start_state = 0

abbrev pub avoidance_state : ℕ
avoidance_state = 1

abbrev pub initial_window_size : ℕ
initial_window_size = 1

-- in microseconds
abbrev pub crash_timeout_threshold : ℕ
crash_timeout_threshold = 5000000

abbrev pub ack_timeout_threshold : ℕ
ack_timeout_threshold = 500000

-- `struct connection`, the fields that connection.c uses. Of a `struct timeval` it reads `tv_usec`
-- only.
pub record WindowConnection : Type 0 where
  pub state : ℕ
  pub ssthresh : ℕ
  pub window_size : ℕ
  pub rtt : ℕ
  pub avoidance_usec : ℕ
  pub last_ack_usec : ℕ

-- the end of both functions: the state by the window and the threshold
unfoldable pub classify : WindowConnection → WindowConnection
classify c = record c {
  state = if lt_int c.window_size c.ssthresh then slow_start_state else avoidance_state;
}

-- the microseconds from one `tv_usec` to another, an `int`
abbrev pub elapsed : (from to : ℕ) → ℕ
elapsed from to = sub32 (to % 2 ^ 32) (from % 2 ^ 32)

-- `connection_scale_up`; the clock is read as `now`, and then as `renewed`.
unfoldable pub connection_scale_up : WindowConnection → (now renewed : ℕ) → WindowConnection
unfolding classify
connection_scale_up c now renewed =
    let wider = record c { window_size = add32 c.window_size 1 } in
    classify (
      if c.state == slow_start_state
      then wider
      else if lt_int c.rtt (elapsed c.avoidance_usec now)
      then record wider { avoidance_usec = renewed }
      else c)

-- an `int` divided by 2, towards 0
abbrev pub half_int : ℕ → ℕ
half_int x = if is_neg x then sub32 0 (sub32 0 x / 2) else x / 2

unfoldable pub connection_scale_down : WindowConnection → WindowConnection
unfolding classify
connection_scale_down c =
    let half = half_int c.window_size in
    classify (record c {
      ssthresh = if lt_int 2 half then half else 2;
      window_size = if c.state == avoidance_state then initial_window_size else c.window_size;
    })

-- the first `connection_timeout_sender`
unfoldable pub connection_timeout_sender : WindowConnection → (now : ℕ) → WindowConnection
unfolding connection_scale_down
connection_timeout_sender c now =
    let silence = elapsed c.last_ack_usec now in
    if lt_int crash_timeout_threshold silence
    then c
    else if lt_int ack_timeout_threshold silence
    then connection_scale_down c
    else c

-- The loop of `remove_connection` from a node on, over addresses. Where it finds the connection, it
-- compares (`==`) instead of assigning; and `head` is its own variable.
remove_behind : (connection : ℕ) → ℕ → List ℕ → List ℕ
remove_behind connection current [] = current ∷ []
remove_behind connection current (next ∷ rest) =
    let later = remove_behind connection next rest in
    if next == connection then current ∷ next ∷ rest else current ∷ later

unfoldable pub remove_connection : (connection : ℕ) → List ℕ → List ℕ
unfolding remove_behind
remove_connection connection [] = []
remove_connection connection (head ∷ rest) =
    if head == connection then head ∷ rest else remove_behind connection head rest
