-- ===== src/Congestion.antt =====
-- congestion_control.c: the congestion window of each upload stream, and window_log.c's record of
-- its sizes. The arrays, indexed as the upload streams are, are one list of records.
pub mod Growth
pub mod Runs
pub mod Windows
use bittorrent_with_congesti.Base.{
  ℕ, ◌+◌, ◌/◌, Bool, true, false, Option, none, some, List, [], ◌∷◌, ◌++◌, if◌then◌else◌, ltb, leb,
  add32, sub32, sub64, minus_one, get_elem?, set,
}
use bittorrent_with_congesti.Tracker.{Tracker, get_upload_index_by_id}

-- `enum cc_policy`; `unset` stands for what fresh memory may hold.
pub data Policy : Type 0 where
  slow_start congestion_avoidance unset : Policy

-- one index of `cc_policies`, `cwnds`, `max_cwnds` and `ack_counts`
pub record Window : Type 0 where
  pub policy : Policy
  pub cwnd : ℕ
  pub max_cwnd : ℕ
  pub ack_count : ℕ

-- a line of the log: peer, size and the time since `open_log`
pub record LogLine : Type 0 where
  pub id : ℕ
  pub size : ℕ
  pub time : ℕ

pub record Controller : Type 0 where
  pub windows : List Window
  pub base_time : ℕ
  pub log : List LogLine

-- `INITIAL_WINDOW`
abbrev pub initial_window : ℕ
initial_window = 1

-- `open_log` and `init_controller`, with what the allocated arrays hold
unfoldable pub init_controller : List Window → (now : ℕ) → Controller
init_controller memory now = record { windows = memory; base_time = now; log = [] }

abbrev pub log_window : Controller → (id size time : ℕ) → Controller
log_window c id size time = record c {
  log = c.log ++ (record { id = id; size = size; time = sub64 time c.base_time } ∷ []);
}

-- `MAX`
abbrev pub larger : ℕ → ℕ → ℕ
larger x y = if ltb y x then x else y

-- `window_control` on one window: the new window, and whether its size is logged
unfoldable pub grow : Policy → Window → (count : ℕ) → Window × Bool
grow slow_start w count =
    let cwnd = add32 w.cwnd count in
    (record w { cwnd = cwnd; max_cwnd = larger cwnd w.max_cwnd }, true)
grow congestion_avoidance w count =
    let acks = add32 w.ack_count count in
    if leb w.cwnd (w.max_cwnd / 2)
    then (if leb w.cwnd acks
        then (record w { cwnd = add32 w.cwnd 1; ack_count = sub32 acks w.cwnd }, true)
        else (record w { ack_count = acks }, false))
    else (record w { cwnd = add32 w.cwnd count }, true)
grow unset w count = (w, false)

-- the window of a peer, with its index
unfoldable pub find_window : Tracker → Controller → ℕ → Option (ℕ × Window)
find_window t c peer_id = elim (get_upload_index_by_id t peer_id) [
  | none ↦ none
  | some i ↦ elim (get_elem? c.windows i) [ none ↦ none | some w ↦ some (i, w) ]
]

abbrev pub put_window : Controller → ℕ → Window → Controller
put_window c i w = record c { windows = set c.windows i w }

unfoldable pub window_control : Tracker → Controller → (peer_id count now : ℕ) → Controller
unfolding find_window grow
window_control t c peer_id count now = elim (find_window t c peer_id) [
  | none ↦ c
  | some (i, w) ↦
      let (w', changed) = grow w.policy w count in
      let c' = put_window c i w' in if changed then log_window c' peer_id w'.cwnd now else c'
]

abbrev pub collapsed : Window → Window
collapsed w = record w { policy = congestion_avoidance; cwnd = initial_window }

unfoldable pub window_timeout : Tracker → Controller → (peer_id now : ℕ) → Controller
unfolding find_window
window_timeout t c peer_id now = elim (find_window t c peer_id) [
  | none ↦ c
  | some (i, w) ↦ log_window (put_window c i (collapsed w)) peer_id initial_window now
]

unfoldable pub get_cwnd_size : Tracker → Controller → ℕ → ℕ
unfolding find_window
get_cwnd_size t c peer_id = elim (find_window t c peer_id) [
  | none ↦ minus_one
  | some (_, w) ↦ w.cwnd
]

abbrev pub fresh_window : Window
fresh_window = record { policy = slow_start; cwnd = initial_window; max_cwnd = 1; ack_count = 0 }

unfoldable pub init_cwnd : Tracker → Controller → (peer_id now : ℕ) → Controller
unfolding find_window
init_cwnd t c peer_id now = elim (find_window t c peer_id) [
  | none ↦ c
  | some (i, _) ↦ log_window (put_window c i fresh_window) peer_id initial_window now
]
