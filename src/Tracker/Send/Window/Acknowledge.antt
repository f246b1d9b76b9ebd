-- ===== src/Tracker/Send/Window/Acknowledge.antt =====
-- keep_track.c: what an acknowledgement does to the window of a sender.
use native.Mathlib.Decide.{ℕ_discrete}
use bittorrent_with_congesti.Base.{
  ℕ, suc, ◌+◌, ◌-◌, ◌^◌, ◌%◌, ◌<◌, ◌≤◌, ◌≡◌, ◌≢◌, refl, ap, ◌∙◌, List, [], ◌∷◌, ◌==◌, arith, length,
  Bool-cases, inl, inr, add32, sub32, sub64, is_neg, false, ◌⊎◌, done, crash, Crash, to_ulong,
  null_dereference, exited, leb,
}
use bittorrent_with_congesti.Tracker.{SentPacket, Upload, Timers}
use bittorrent_with_congesti.Tracker.Send.{
  Smoothing, abs_int, estimate, infer_rtt, drop_acked, fast_retransmit, count_duplicate,
  acknowledge,
}
use bittorrent_with_congesti.Tracker.Send.Window.{IsBetween, IsWindow, AreRecent, length-IsBetween}

abs_int-recent :
    (rtt now timestamp : ℕ)
    → rtt < 2 ^ 31
    → timestamp ≤ now
    → now < timestamp + 2 ^ 31
    → now < 2 ^ 64
    → is_neg (abs_int (sub32 (sub64 now timestamp % 2 ^ 32) rtt)) ≡ false
abs_int-recent rtt now timestamp r le lt small = ground arith

infer_rtt-recent :
    (sm : Smoothing) (tm : Timers) (now timestamp : ℕ)
    → tm.rtt < 2 ^ 31
    → timestamp ≤ now
    → now < timestamp + 2 ^ 31
    → now < 2 ^ 64
    → (tm' : Timers) × (infer_rtt sm tm now timestamp ≡ done tm')
unfolding infer_rtt
infer_rtt-recent sm tm now timestamp r le lt small = (
  estimate sm tm (sub64 now timestamp % 2 ^ 32)
      (abs_int (sub32 (sub64 now timestamp % 2 ^ 32) tm.rtt)),
  rw (abs_int-recent tm.rtt now timestamp r le lt small),
)

drop_acked-stop :
    (sm : Smoothing) (sampled seq : ℕ) (tm : Timers) (count : ℕ) (base last : ℕ)
    (queue : List SentPacket)
    → IsBetween base last queue
    → seq ≤ base
    → drop_acked sm sampled seq tm count queue ≡ done (tm, count, queue)
unfolding drop_acked
drop_acked-stop sm sampled seq tm count base last [] h le = refl
drop_acked-stop sm sampled seq tm count base last (p ∷ ps) h le = ground arith

module _ (sm : Smoothing) (sampled seq : ℕ) where
  drop_acked-below :
      (tm : Timers) (count : ℕ) (p : SentPacket) (ps : List SentPacket)
      → p.seq < seq
      → drop_acked sm sampled seq tm count (p ∷ ps)
        ≡ drop_acked sm sampled seq tm (add32 count 1) ps
  unfolding drop_acked
  drop_acked-below tm count p ps lt = ground arith

  drop_acked-match :
      (tm tm' : Timers) (count : ℕ) (p : SentPacket) (ps : List SentPacket)
      → p.seq ≡ seq
      → infer_rtt sm tm sampled p.timestamp ≡ done tm'
      → drop_acked sm sampled seq tm count (p ∷ ps)
        ≡ drop_acked sm sampled seq tm' (add32 count 1) ps
  unfolding drop_acked
  drop_acked-match tm tm' count p ps e timed = ground arith

  -- An acknowledgement within the window drops the packets up to it, and counts them.
  pub drop_acked-IsBetween :
      (queue : List SentPacket) (tm : Timers) (count base last : ℕ)
      → IsBetween base last queue
      → AreRecent sampled queue
      → tm.rtt < 2 ^ 31
      → sampled < 2 ^ 64
      → count + length queue < 2 ^ 32
      → base ≤ seq
      → seq ≤ last
      → (tm' : Timers) × (rest : List SentPacket) × (drop_acked sm sampled seq tm count queue
          ≡ done (tm', count + (seq - base), rest))
        × IsBetween seq last rest
  drop_acked-IsBetween [] tm count base last h recent r s c lo hi = (
    tm,
    [],
    drop_acked-stop sm sampled seq tm count base last [] h (omega arith)
        ∙ ap (λ n. done (tm, n, [])) (omega arith),
    omega arith,
  )
  drop_acked-IsBetween (p ∷ ps) tm count base last h recent r s c lo hi =
      elim (ℕ_discrete seq base) [
        | yes e ↦ (
          tm,
          (p ∷ ps),
          drop_acked-stop sm sampled seq tm count base last (p ∷ ps) h (omega arith)
              ∙ ap (λ n. done (tm, n, p ∷ ps)) (omega arith),
          rw e h,
        )
        | no ne ↦ elim (ℕ_discrete seq (suc base)) [
          | yes e ↦
              let (tm', timed) = infer_rtt-recent sm tm sampled p.timestamp r recent.0 recent.1 s in
              (
                tm',
                ps,
                drop_acked-match tm tm' count p ps (omega arith) timed
                    ∙ drop_acked-stop sm sampled seq tm' (add32 count 1) (suc base) last ps h.1
                        (omega arith)
                    ∙ ap (λ n. done (tm', n, ps)) (omega arith),
                rw e h.1,
              )
          | no more ↦
              let (tm', rest, result, between) =
                drop_acked-IsBetween ps tm (add32 count 1) (suc base) last h.1 recent.2 r s
                  (omega arith) (omega arith) hi in
              (
                tm',
                rest,
                drop_acked-below tm count p ps (omega arith)
                    ∙ result
                    ∙ ap (λ n. done (tm', n, rest)) (omega arith),
                between,
              )
        ]
      ]

-- The head's time may change at the third duplicate, the numbers do not.
count_duplicate-IsBetween :
    (tm : Timers) (u : Upload) (seq last : ℕ) (queue : List SentPacket)
    → IsBetween seq last queue
    → last < 2 ^ 31
    → (seq < last) ⊎ (u.last_ack ≢ seq)
    → (queue' : List SentPacket) × (dups : ℕ) × (count_duplicate tm u seq queue
        ≡ done (queue', dups))
      × IsBetween seq last queue'
unfolding count_duplicate fast_retransmit
count_duplicate-IsBetween tm u seq last [] h small safe = ([], 0, ground arith, h)
count_duplicate-IsBetween tm u seq last (p ∷ ps) h small safe =
    elim (Bool-cases (u.last_ack == seq)) [
      | inr other ↦ (p ∷ ps, 0, rw other, h)
      | inl same ↦ elim (Bool-cases (leb 3 (add32 u.dup_ack_count 1))) [
        | inr few ↦ (p ∷ ps, add32 u.dup_ack_count 1, rw (same, few), h)
        | inl third ↦
            (record p { timestamp = sub64 p.timestamp (to_ulong tm.rto) } ∷ ps, 0, ground arith, h)
      ]
    ]

count_duplicate-crash :
    (tm : Timers) (u : Upload) (seq base last : ℕ) (queue : List SentPacket)
    → IsBetween base last queue
    → last < 2 ^ 31
    → (seq < base) ⊎ (base ≡ last)
    → u.last_ack ≡ seq
    → 2 ≤ u.dup_ack_count
    → u.dup_ack_count < 2 ^ 32 - 1
    → (c : Crash) × (count_duplicate tm u seq queue ≡ crash c)
unfolding count_duplicate fast_retransmit
count_duplicate-crash tm u seq base last [] h small outside same two top =
    (null_dereference, ground arith)
count_duplicate-crash tm u seq base last (p ∷ ps) h small outside same two top =
    (exited, ground (arith, length-IsBetween (suc base) last ps h.1))

abbrev acknowledged : Upload → (seq now count : ℕ) → List SentPacket → ℕ → Upload
acknowledged u seq now count queue dups = record u {
  queue = queue;
  queue_size = sub32 u.queue_size count;
  last_ack = seq;
  dup_ack_count = dups;
  last_time = now;
}

acknowledge-done :
    (sm : Smoothing) (tm : Timers) (u : Upload) (seq sampled now : ℕ) {tm' : Timers}
    {count dups : ℕ} {rest queue : List SentPacket}
    → drop_acked sm sampled seq tm 0 u.queue ≡ done (tm', count, rest)
    → count_duplicate tm' u seq rest ≡ done (queue, dups)
    → acknowledge sm tm u seq sampled now
      ≡ done (tm', acknowledged u seq now count queue dups, count)
unfolding acknowledge
acknowledge-done sm tm u seq sampled now dropped counted = rw dropped (rw counted)

-- The queue of a stream is the window from `base` to `last`, all its packets were sent in the last
-- 2^31 microseconds, and the round-trip estimate is no negative `int`. An acknowledgement of a
-- number from `base` to `last`, that leaves packets outstanding or is no duplicate, does not end
-- the process: it moves the base of the window to the number, notes the number, and returns how
-- many packets it has dropped.
pub acknowledge-IsWindow :
    (sm : Smoothing) (tm : Timers) (u : Upload) (seq sampled now base last : ℕ)
    → IsWindow u base last
    → AreRecent sampled u.queue
    → tm.rtt < 2 ^ 31
    → sampled < 2 ^ 64
    → base ≤ seq
    → seq ≤ last
    → (seq < last) ⊎ (u.last_ack ≢ seq)
    → (tm' : Timers) × (u' : Upload) × (acknowledge sm tm u seq sampled now
        ≡ done (tm', u', seq - base))
      × IsWindow u' seq last
      × (u'.last_ack ≡ seq)
acknowledge-IsWindow sm tm u seq sampled now base last w recent r s lo hi safe =
    let total = length-IsBetween base last u.queue w.between in
    let (tm', rest, dropped, between) =
      drop_acked-IsBetween sm sampled seq u.queue tm 0 base last w.between recent r s
        (omega (arith, total, w.small)) lo hi in
    let (queue', dups, counted, between') =
      count_duplicate-IsBetween tm' u seq last rest between w.small safe in
    let left = length-IsBetween seq last queue' between' in
    (
      tm',
      acknowledged u seq now (seq - base) queue' dups,
      acknowledge-done sm tm u seq sampled now
          (dropped ∙ ap (λ n. done (tm', n, rest)) (omega arith)) counted,
      record {
        between = between';
        tail = w.tail;
        size = omega (arith, left, total, w.size, w.small);
        small = w.small;
      },
      refl,
    )

-- The queue of a stream is the window from `base` to `last`, and two duplicates or more (fewer than
-- 2^32 - 1) are counted. One more duplicate, of a number at most `base`, ends the process if nothing
-- is outstanding or the number lies below `base`.
pub acknowledge-crash :
    (sm : Smoothing) (tm : Timers) (u : Upload) (seq sampled now base last : ℕ)
    → IsWindow u base last
    → seq ≤ base
    → (seq < base) ⊎ (base ≡ last)
    → u.last_ack ≡ seq
    → 2 ≤ u.dup_ack_count
    → u.dup_ack_count < 2 ^ 32 - 1
    → (c : Crash) × (acknowledge sm tm u seq sampled now ≡ crash c)
unfolding acknowledge
acknowledge-crash sm tm u seq sampled now base last w le outside same two top =
    let stop = drop_acked-stop sm sampled seq tm 0 base last u.queue w.between le in
    let (c, e) =
      count_duplicate-crash tm u seq base last u.queue w.between w.small outside same two top in
    (c, rw stop (rw e))
