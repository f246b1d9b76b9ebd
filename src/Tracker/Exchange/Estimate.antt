-- ===== src/Tracker/Exchange/Estimate.antt =====
-- keep_track.c: the round-trip estimate stays an `int` that is not negative.
use bittorrent_with_congesti.Base.{
  ℕ, ◌%◌, ◌^◌, ◌<◌, ◌≡◌, refl, ap, arith, Bool-cases, ◌⊎◌, inl, inr, List, [], ◌∷◌, ◌==◌, leb,
  add32, sub32, sub64, is_neg, Outcome, done, crash, exited, >>=-eq-done,
}
use bittorrent_with_congesti.Tracker.{SentPacket, Upload, Timers}
use bittorrent_with_congesti.Tracker.Send.{
  Smoothing, abs_int, estimate, infer_rtt, drop_acked, count_duplicate, acknowledge,
}
use bittorrent_with_congesti.Tracker.Send.Window.{AreRecent}

-- The smoothed round trip of two times that are not negative is not negative.
abbrev pub IsMean : Smoothing → Type 0
IsMean sm = (old new : ℕ) → old < 2 ^ 31 → new < 2 ^ 31 → sm.smooth_rtt old new < 2 ^ 31

abbrev rtt_of : Outcome (Timers × ℕ × List SentPacket) → ℕ
rtt_of (done (tm, count, queue)) = tm.rtt
rtt_of (crash c) = 0

abbrev final_rtt : Outcome (Timers × Upload × ℕ) → ℕ
final_rtt (done (tm, u, count)) = tm.rtt
final_rtt (crash c) = 0

-- what `infer_rtt` may return
infer_rtt-cases :
    (sm : Smoothing) (tm : Timers) (now timestamp : ℕ)
    → ((tm' : Timers) × (infer_rtt sm tm now timestamp ≡ done tm')
        × (tm'.rtt ≡ sm.smooth_rtt tm.rtt (sub64 now timestamp % 2 ^ 32)))
      ⊎ (infer_rtt sm tm now timestamp ≡ crash exited)
unfolding infer_rtt
infer_rtt-cases sm tm now timestamp =
    let new_rtt : ℕ = sub64 now timestamp % 2 ^ 32 in
    let new_dev = abs_int (sub32 new_rtt tm.rtt) in
    elim (Bool-cases (is_neg new_dev)) [
      | inl negative ↦ inr (rw negative)
      | inr sound ↦ inl (estimate sm tm new_rtt new_dev, rw sound, refl)
    ]

module _ (sm : Smoothing) (mean : IsMean sm) (sampled seq : ℕ) where
  drop_acked-rtt :
      (queue : List SentPacket) (tm : Timers) (count : ℕ)
      → AreRecent sampled queue
      → sampled < 2 ^ 64
      → tm.rtt < 2 ^ 31
      → rtt_of (drop_acked sm sampled seq tm count queue) < 2 ^ 31
  unfolding drop_acked
  drop_acked-rtt [] tm count recent s small = small
  drop_acked-rtt (p ∷ ps) tm count recent s small = elim (Bool-cases (leb p.seq seq)) [
    | inr above ↦ rw above small
    | inl below ↦ elim (Bool-cases (p.seq == seq)) [
      | inr other ↦ rw (below, other) (drop_acked-rtt ps tm (add32 count 1) recent.2 s small)
      | inl same ↦
          rw (below, same)
            (elim (infer_rtt-cases sm tm sampled p.timestamp) [
              | inr failed ↦ rw failed (omega arith)
              | inl (tm', timed, e) ↦
                  let bound =
                    mean tm.rtt (sub64 sampled p.timestamp % 2 ^ 32) small
                      (omega (arith, recent.0, recent.1)) in
                  rw timed
                    (drop_acked-rtt ps tm' (add32 count 1) recent.2 s (omega (arith, e, bound)))
            ])
    ]
  ]

  pub acknowledge-rtt :
      (tm : Timers) (u : Upload) (now : ℕ) {r : Timers × Upload × ℕ}
      → AreRecent sampled u.queue
      → sampled < 2 ^ 64
      → tm.rtt < 2 ^ 31
      → acknowledge sm tm u seq sampled now ≡ done r
      → r.0.rtt < 2 ^ 31
  unfolding acknowledge
  acknowledge-rtt tm u now {r} recent s small h =
      let ((tm', count, queue), dropped, rest) =
        >>=-eq-done (drop_acked sm sampled seq tm 0 u.queue) h in
      let ((queue', dups), counted, last) = >>=-eq-done (count_duplicate tm' u seq queue) rest in
      omega
        (arith, drop_acked-rtt u.queue tm 0 recent s small, ap rtt_of dropped, ap final_rtt last)
