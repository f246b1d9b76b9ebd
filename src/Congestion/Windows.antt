-- ===== src/Congestion/Windows.antt =====
-- congestion_control.c: the operations change the window of their peer's stream, and no other.
use bittorrent_with_congesti.Base.{
  ℕ, zero, suc, ◌<◌, ◌≡◌, refl, ap, ◌∙◌, arith, Bool-cases, none, some, Option-cases, inl, inr,
  List, [], ◌∷◌, length, get_elem?, set, get_elem?-set_self, if◌then◌else◌,
}
use bittorrent_with_congesti.Tracker.{Tracker, get_upload_index_by_id}
use bittorrent_with_congesti.Congestion.{
  slow_start, congestion_avoidance, Window, Controller, grow, find_window, put_window, log_window,
  window_control, collapsed, window_timeout, get_cwnd_size, fresh_window, init_cwnd, initial_window,
}

lt_of_get_elem? : (xs : List Window) (i : ℕ) (w : Window) → get_elem? xs i ≡ some w → i < length xs
lt_of_get_elem? [] i w e = cc
lt_of_get_elem? (x ∷ xs) zero w e = omega arith
lt_of_get_elem? (x ∷ xs) (suc i) w e = omega (arith, lt_of_get_elem? xs i w e)

module _ (t : Tracker) (peer_id : ℕ) where
  find_window_of_parts :
      (c : Controller) {i : ℕ} {w : Window}
      → get_upload_index_by_id t peer_id ≡ some i
      → get_elem? c.windows i ≡ some w
      → find_window t c peer_id ≡ some (i, w)
  unfolding find_window
  find_window_of_parts c e f = rw (e, find_window) (rw (f, find_window))

  find_window_of_none :
      (c : Controller) → get_upload_index_by_id t peer_id ≡ none → find_window t c peer_id ≡ none
  unfolding find_window
  find_window_of_none c e = rw (e, find_window)

  find_window_of_missing :
      (c : Controller) {i : ℕ}
      → get_upload_index_by_id t peer_id ≡ some i
      → get_elem? c.windows i ≡ none
      → find_window t c peer_id ≡ none
  unfolding find_window
  find_window_of_missing c e f = rw (e, find_window) (rw (f, find_window))

  find_window-parts :
      (c : Controller) {i : ℕ} {w : Window}
      → find_window t c peer_id ≡ some (i, w)
      → (get_upload_index_by_id t peer_id ≡ some i) × (get_elem? c.windows i ≡ some w)
  find_window-parts c {i} {w} h = elim (Option-cases (get_upload_index_by_id t peer_id)) [
    | inl e ↦ cc (find_window_of_none c e)
    | inr (j, e) ↦ elim (Option-cases (get_elem? c.windows j)) [
      | inl f ↦ cc (find_window_of_missing c e f)
      | inr (x, f) ↦ ground (arith, find_window_of_parts c e f)
    ]
  ]

  -- what a write leaves, whatever is logged
  find_window-put :
      (c : Controller) {i : ℕ} {w : Window} (w' : Window) (c' : Controller)
      → find_window t c peer_id ≡ some (i, w)
      → c'.windows ≡ set c.windows i w'
      → find_window t c' peer_id ≡ some (i, w')
  find_window-put c {i} {w} w' c' h written =
      let (e, f) = find_window-parts c h in
      find_window_of_parts c' e (
        ap (λ ws. get_elem? ws i) written
        ∙ get_elem?-set_self c.windows i w' (lt_of_get_elem? c.windows i w f))

  module _ (c : Controller) (now : ℕ) {i : ℕ} {w : Window}
      (h : find_window t c peer_id ≡ some (i, w)) where
    abbrev control_result : ℕ → Controller
    control_result count =
        let (w', changed) = grow w.policy w count in
        let c' = put_window c i w' in if changed then log_window c' peer_id w'.cwnd now else c'

    window_control-found : (count : ℕ) → window_control t c peer_id count now ≡ control_result count
    unfolding window_control
    window_control-found count = rw (h, window_control)

    window_timeout-found :
        window_timeout t c peer_id now
        ≡ log_window (put_window c i (collapsed w)) peer_id initial_window now
    unfolding window_timeout
    window_timeout-found = rw (h, window_timeout)

    init_cwnd-found :
        init_cwnd t c peer_id now
        ≡ log_window (put_window c i fresh_window) peer_id initial_window now
    unfolding init_cwnd
    init_cwnd-found = rw (h, init_cwnd)

    windows-control_result :
        (count : ℕ) → (control_result count).windows ≡ set c.windows i (grow w.policy w count).0
    windows-control_result count = elim (Bool-cases (grow w.policy w count).1) [
      | inl e ↦ rw e
      | inr e ↦ rw e
    ]

  -- The window of a peer that has one: an acknowledgement grows it, a timeout collapses it to one
  -- packet in congestion avoidance, and the start of an upload resets it to one packet in slow
  -- start.
  pub window_control-find_window :
      (c : Controller) (count now : ℕ) {i : ℕ} {w : Window}
      → find_window t c peer_id ≡ some (i, w)
      → (find_window t (window_control t c peer_id count now) peer_id
          ≡ some (i, (grow w.policy w count).0))
        × (find_window t (window_timeout t c peer_id now) peer_id
            ≡ some (i, record w { policy = congestion_avoidance; cwnd = 1 }))
        × (find_window t (init_cwnd t c peer_id now) peer_id
            ≡ some (i, record { policy = slow_start; cwnd = 1; max_cwnd = 1; ack_count = 0 }))
  window_control-find_window c count now {i} {w} h = (
    rw (window_control-found c now h count) (
        find_window-put c (grow w.policy w count).0 (control_result c now h count) h
          (windows-control_result c now h count)),
    rw (window_timeout-found c now h) (find_window-put c (collapsed w) _ h refl),
    rw (init_cwnd-found c now h) (find_window-put c fresh_window _ h refl),
  )

  pub get_cwnd_size-found :
      (c : Controller) {i : ℕ} {w : Window}
      → find_window t c peer_id ≡ some (i, w)
      → get_cwnd_size t c peer_id ≡ w.cwnd
  unfolding get_cwnd_size
  get_cwnd_size-found c h = rw (h, get_cwnd_size)

  -- After a timeout the peer's window is one packet.
  pub get_cwnd_size-window_timeout :
      (c : Controller) (now : ℕ) {i : ℕ} {w : Window}
      → find_window t c peer_id ≡ some (i, w)
      → get_cwnd_size t (window_timeout t c peer_id now) peer_id ≡ 1
  get_cwnd_size-window_timeout c now h =
      get_cwnd_size-found (window_timeout t c peer_id now) (window_control-find_window c 0 now h).1
