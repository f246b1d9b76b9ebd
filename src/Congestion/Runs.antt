-- ===== src/Congestion/Runs.antt =====
-- congestion_control.c: the window of a stream over all its acknowledgements and timeouts.
use bittorrent_with_congesti.Base.{
  ℕ, ◌+◌, ◌^◌, ◌<◌, ◌≤◌, ◌≡◌, ◌∙◌, refl, arith, max, some, List, [], ◌∷◌,
}
use bittorrent_with_congesti.Tracker.{Tracker}
use bittorrent_with_congesti.Congestion.{
  Window, Controller, grow, find_window, window_control, window_timeout, init_cwnd, collapsed,
  fresh_window, get_cwnd_size,
}
use bittorrent_with_congesti.Congestion.Growth.{IsSound, grow-IsSound}
use bittorrent_with_congesti.Congestion.Windows.{window_control-find_window, get_cwnd_size-found}

-- what comes to a stream: an acknowledgement of `count` packets, or a timeout
pub data Event : Type 0 where
  acked : (count now : ℕ) → Event
  timed_out : (now : ℕ) → Event

pub run : Tracker → (peer_id : ℕ) → List Event → Controller → Controller
run t peer_id [] c = c
run t peer_id (acked count now ∷ es) c = run t peer_id es (window_control t c peer_id count now)
run t peer_id (timed_out now ∷ es) c = run t peer_id es (window_timeout t c peer_id now)

-- What the acknowledgements since the last timeout are good for, after `n` from before: each for the
-- packets that it acknowledges, and for one at least.
abbrev pub earned : (n : ℕ) → List Event → ℕ
earned n [] = n
earned n (acked count now ∷ es) = earned (n + max 1 count) es
earned n (timed_out now ∷ es) = earned 0 es

-- the same, without regard to timeouts
abbrev pub earned_all : List Event → ℕ
earned_all [] = 0
earned_all (acked count now ∷ es) = max 1 count + earned_all es
earned_all (timed_out now ∷ es) = earned_all es

ack_count-grow :
    (w : Window) (count : ℕ)
    → w.ack_count + count < 2 ^ 31
    → w.cwnd < 2 ^ 31
    → (grow w.policy w count).0.ack_count ≤ w.ack_count + count
unfolding grow
ack_count-grow w count few small = ground arith

grow-collapsed :
    (w : Window)
    → 1 ≤ w.ack_count
    → w.ack_count < 2 ^ 31
    → 2 ≤ w.max_cwnd
    → (grow (collapsed w).policy (collapsed w) 0).0.cwnd ≡ 2
unfolding grow
grow-collapsed w some_acks few wide = ground arith

collapsed-IsSound : (w : Window) → IsSound w → IsSound (collapsed w)
collapsed-IsSound w s = record { open_ = omega arith; acks = s.acks; peak = λ e. cc }

fresh_window-IsSound : IsSound fresh_window
fresh_window-IsSound = record { open_ = omega arith; acks = omega arith; peak = λ e. refl }

module _ (t : Tracker) (peer_id i : ℕ) where
  run-IsSound :
      (es : List Event) (c : Controller) (w : Window) (n spent : ℕ)
      → find_window t c peer_id ≡ some (i, w)
      → IsSound w
      → w.cwnd ≤ n + 1
      → n ≤ spent
      → w.ack_count ≤ spent
      → spent + earned_all es + 1 < 2 ^ 31
      → (w' : Window) × (find_window t (run t peer_id es c) peer_id ≡ some (i, w'))
        × IsSound w'
        × (w'.cwnd ≤ earned n es + 1)
  unfolding run
  run-IsSound [] c w n spent found s small before acks few = (w, found, s, small)
  run-IsSound (acked count now ∷ es) c w n spent found s small before acks few =
      let (sound, grows, bound, _) = grow-IsSound w count s (omega arith) (omega arith) in
      let counted = ack_count-grow w count (omega arith) (omega arith) in
      run-IsSound es (window_control t c peer_id count now) (grow w.policy w count).0
        (n + max 1 count) (spent + max 1 count)
        (window_control-find_window t peer_id c count now found).0 sound (omega arith) (omega arith)
        (omega arith) (omega arith)
  run-IsSound (timed_out now ∷ es) c w n spent found s small before acks few =
      run-IsSound es (window_timeout t c peer_id now) (collapsed w) 0 spent
        (window_control-find_window t peer_id c 0 now found).1 (collapsed-IsSound w s) (omega arith)
        (omega arith) (omega arith) few

  -- The window of a stream is reset, as at the start of an upload, and then there are any
  -- acknowledgements and timeouts, fewer than 2^31 - 1 in packets and in number. Then the window is
  -- at least one packet, and at most one and the packets acknowledged since the last timeout, where
  -- an acknowledgement of none counts as one; in slow start it is the largest window so far.
  pub run-init_cwnd :
      (es : List Event) (c : Controller) (w : Window) (now : ℕ)
      → find_window t c peer_id ≡ some (i, w)
      → earned_all es + 1 < 2 ^ 31
      → let c' = run t peer_id es (init_cwnd t c peer_id now) in
        (w' : Window) × (find_window t c' peer_id ≡ some (i, w'))
        × IsSound w'
        × (get_cwnd_size t c' peer_id ≤ earned 0 es + 1)
  run-init_cwnd es c w now found few =
      let (w', found', s, bound) =
        run-IsSound es (init_cwnd t c peer_id now) fresh_window 0 0
          (window_control-find_window t peer_id c 0 now found).2 fresh_window-IsSound (omega arith)
          (omega arith) (omega arith) (omega arith) in
      (
        w',
        found',
        s,
        omega (
          arith,
          get_cwnd_size-found t peer_id (run t peer_id es (init_cwnd t c peer_id now)) found',
        ),
      )

  -- A timeout leaves the count of acknowledged packets as it is. If that is not 0, and the largest
  -- window was of two packets at least, then an acknowledgement of no packet at all, after the
  -- timeout, widens the window from one packet to two.
  pub window_control-stale :
      (c : Controller) (w : Window) (now later : ℕ)
      → find_window t c peer_id ≡ some (i, w)
      → 1 ≤ w.ack_count
      → w.ack_count < 2 ^ 31
      → 2 ≤ w.max_cwnd
      → get_cwnd_size t (window_control t (window_timeout t c peer_id now) peer_id 0 later) peer_id
        ≡ 2
  window_control-stale c w now later found some_acks few wide =
      let timed = (window_control-find_window t peer_id c 0 now found).1 in
      let after =
        (window_control-find_window t peer_id (window_timeout t c peer_id now) 0 later timed).0 in
      get_cwnd_size-found t peer_id _ after ∙ grow-collapsed w some_acks few wide
