-- ===== src/ConnectionWindow/Consistent.antt =====
-- connection.c: the state, the threshold and the window of a connection fit one another.
use bittorrent_with_congesti.Base.{
  ℕ, ◌+◌, ◌^◌, ◌<◌, ◌≤◌, ◌≡◌, refl, ap, arith, List, [], ◌∷◌, length, if◌then◌else◌, ltb, ◌==◌,
  Bool-cases, inl, inr,
}
use bittorrent_with_congesti.ConnectionWindow.{
  WindowConnection, slow_start_state, avoidance_state, connection_scale_up, connection_scale_down,
  connection_timeout_sender, remove_behind, remove_connection, ack_timeout_threshold,
}

-- what happens to a connection
pub data Event : Type 0 where
  up : (now renewed : ℕ) → Event
  down : Event
  checked : (now : ℕ) → Event

pub run : List Event → WindowConnection → WindowConnection
run [] c = c
run (up now renewed ∷ es) c = run es (connection_scale_up c now renewed)
run (down ∷ es) c = run es (connection_scale_down c)
run (checked now ∷ es) c = run es (connection_timeout_sender c now)

-- The window is open and the threshold at least two, and the state is slow start exactly if the
-- window is below the threshold.
pub record IsConsistent (c : WindowConnection) : Type 0 where
  pub open_ : 1 ≤ c.window_size
  pub threshold : 2 ≤ c.ssthresh
  pub small : c.ssthresh < 2 ^ 31
  pub state : c.state ≡ (if ltb c.window_size c.ssthresh then slow_start_state else avoidance_state)

scale_up-IsConsistent :
    (c : WindowConnection) (now renewed : ℕ)
    → IsConsistent c
    → c.window_size + 1 < 2 ^ 31
    → IsConsistent (connection_scale_up c now renewed)
      × (connection_scale_up c now renewed).window_size ≤ c.window_size + 1
unfolding connection_scale_up
scale_up-IsConsistent c now renewed s small = ground arith

scale_down-IsConsistent :
    (c : WindowConnection)
    → IsConsistent c
    → c.window_size < 2 ^ 31
    → IsConsistent (connection_scale_down c) × (connection_scale_down c).window_size ≤ c.window_size
unfolding connection_scale_down
scale_down-IsConsistent c s small = ground arith

-- Both readings of the clock are below a second, so that the time between them never is above the
-- threshold of five seconds.
connection_timeout_sender-below_second :
    (c : WindowConnection) (now : ℕ)
    → c.last_ack_usec < 1000000
    → now < 1000000
    → connection_timeout_sender c now
      ≡ (if ltb (c.last_ack_usec + ack_timeout_threshold) now then connection_scale_down c else c)
unfolding connection_timeout_sender
connection_timeout_sender-below_second c now last clock = ground arith

connection_timeout_sender-IsConsistent :
    (c : WindowConnection) (now : ℕ)
    → IsConsistent c
    → c.window_size < 2 ^ 31
    → c.last_ack_usec < 1000000
    → now < 1000000
    → IsConsistent (connection_timeout_sender c now)
      × (connection_timeout_sender c now).window_size ≤ c.window_size
connection_timeout_sender-IsConsistent c now s small last clock =
    let expected = connection_timeout_sender-below_second c now last clock in
    rw expected (elim (Bool-cases (ltb (c.last_ack_usec + ack_timeout_threshold) now)) [
      | inl late ↦ rw late (scale_down-IsConsistent c s small)
      | inr early ↦ rw early (s, omega arith)
    ])

last_ack_usec-scale_up :
    (c : WindowConnection) (now renewed : ℕ)
    → (connection_scale_up c now renewed).last_ack_usec ≡ c.last_ack_usec
unfolding connection_scale_up
last_ack_usec-scale_up c now renewed = ground arith

last_ack_usec-scale_down :
    (c : WindowConnection) → (connection_scale_down c).last_ack_usec ≡ c.last_ack_usec
unfolding connection_scale_down
last_ack_usec-scale_down c = refl

last_ack_usec-timeout :
    (c : WindowConnection) (now : ℕ)
    → (connection_timeout_sender c now).last_ack_usec ≡ c.last_ack_usec
unfolding connection_timeout_sender
last_ack_usec-timeout c now = ground arith

-- The clock is read as microseconds below a second.
abbrev pub AreUsec : List Event → Type 0
AreUsec [] = Unit
AreUsec (up now renewed ∷ es) = (now < 1000000) × (renewed < 1000000) × AreUsec es
AreUsec (down ∷ es) = AreUsec es
AreUsec (checked now ∷ es) = (now < 1000000) × AreUsec es

-- A connection whose state says whether its window is below its threshold, of at least two and
-- below 2^31, keeps to this through any calls of connection_scale_up, connection_scale_down and the
-- first connection_timeout_sender, at readings of the clock below a second. Its window stays open,
-- and each call widens it by one at most, as long as the sum stays below 2^31.
pub run-IsConsistent :
    (es : List Event) (c : WindowConnection)
    → IsConsistent c
    → c.last_ack_usec < 1000000
    → AreUsec es
    → c.window_size + length es < 2 ^ 31
    → IsConsistent (run es c) × (run es c).window_size ≤ c.window_size + length es
unfolding run
run-IsConsistent [] c s last usec small = (s, omega arith)
run-IsConsistent (up now renewed ∷ es) c s last (_, _, usec) small =
    let (s', wider) = scale_up-IsConsistent c now renewed s (omega arith) in
    let (s'', bound) =
      run-IsConsistent es (connection_scale_up c now renewed) s'
        (omega (arith, last_ack_usec-scale_up c now renewed)) usec (omega arith) in
    (s'', omega arith)
run-IsConsistent (down ∷ es) c s last usec small =
    let (s', narrower) = scale_down-IsConsistent c s (omega arith) in
    let (s'', bound) =
      run-IsConsistent es (connection_scale_down c) s' (omega (arith, last_ack_usec-scale_down c))
        usec (omega arith) in
    (s'', omega arith)
run-IsConsistent (checked now ∷ es) c s last (clock, usec) small =
    let (s', narrower) = connection_timeout_sender-IsConsistent c now s (omega arith) last clock in
    let (s'', bound) =
      run-IsConsistent es (connection_timeout_sender c now) s'
        (omega (arith, last_ack_usec-timeout c now)) usec (omega arith) in
    (s'', omega arith)

remove_behind-same :
    (connection current : ℕ) (rest : List ℕ)
    → remove_behind connection current rest ≡ current ∷ rest
unfolding remove_behind
remove_behind-same connection current [] = refl
remove_behind-same connection current (next ∷ rest) = elim (Bool-cases (next == connection)) [
  | inl same ↦ rw same
  | inr other ↦ rw other (ap (λ xs. current ∷ xs) (remove_behind-same connection next rest))
]

-- remove_connection leaves every list of connections as it is, and so removes none.
pub remove_connection-same :
    (connection : ℕ) (connections : List ℕ) → remove_connection connection connections ≡ connections
unfolding remove_connection
remove_connection-same connection [] = refl
remove_connection-same connection (head ∷ rest) = elim (Bool-cases (head == connection)) [
  | inl same ↦ rw same
  | inr other ↦ rw other (remove_behind-same connection head rest)
]
