-- ===== src/Tracker/Send/Nodes/Shorter.antt =====
-- keep_track.c: a call adds one packet to a queue at most.
use bittorrent_with_congesti.Base.{
  ℕ, suc, ◌≤◌, true, false, ◌==◌, leb, ltb, add32, sub64, to_ulong, if◌then◌else◌, Bool-cases,
  length-append, arith, Option, none, some, List, [], ◌∷◌, length, Outcome, done, crash, ◌>>=◌, inl,
  inr,
}
use bittorrent_with_congesti.Tracker.{SentPacket, Timers, Upload}
use bittorrent_with_congesti.Tracker.Send.{
  Smoothing, infer_rtt, expire_head, renew_head, enqueue, await, drop_acked, fast_retransmit,
  count_duplicate, acknowledge,
}
use bittorrent_with_congesti.Tracker.Send.Nodes.Calls.{
  Call, waited, acked, checked, asked, closed, call_list, After,
}

After-map :
    {A : Type 0} {P Q : A → Type 0} (o : Outcome A) → ((a : A) → P a → Q a) → After o P → After o Q
After-map (done a) f h = f a h
After-map (crash c) f h = tt

After-bind :
    {A B : Type 0} (P : B → Type 0) (o : Outcome A) (f : A → Outcome B)
    → After o (λ a. After (f a) P)
    → After (o >>= f) P
After-bind P (done a) f h = h
After-bind P (crash c) f h = tt

After-all : {A : Type 0} (P : A → Type 0) (o : Outcome A) → ((a : A) → P a) → After o P
After-all P (done a) f = f a
After-all P (crash c) f = tt

-- How long the queue can get.
length-drop_acked :
    (sm : Smoothing) (sampled seq : ℕ) (tm : Timers) (count : ℕ) (q : List SentPacket)
    → After (drop_acked sm sampled seq tm count q) (λ (_, _, q'). length q' ≤ length q)
unfolding drop_acked
length-drop_acked sm sampled seq tm count [] = omega arith
length-drop_acked sm sampled seq tm count (x ∷ xs) = elim (Bool-cases (leb x.seq seq)) [
  | inr stays ↦ rw stays (omega arith)
  | inl goes ↦ rw goes (
      After-bind (λ (_, _, q'). length q' ≤ length (x ∷ xs))
        (if x.seq == seq then infer_rtt sm tm sampled x.timestamp else done tm)
        (λ tm'. drop_acked sm sampled seq tm' (add32 count 1) xs)
        (After-all _ (if x.seq == seq then infer_rtt sm tm sampled x.timestamp else done tm) (λ tm'.
          After-map (drop_acked sm sampled seq tm' (add32 count 1) xs) (λ r le. omega arith)
            (length-drop_acked sm sampled seq tm' (add32 count 1) xs))))
]

length-fast_retransmit :
    (tm : Timers) (seq : ℕ) (q : List SentPacket)
    → After (fast_retransmit tm seq q) (λ q'. length q' ≤ length q)
unfolding fast_retransmit
length-fast_retransmit tm seq [] = tt
length-fast_retransmit tm seq (x ∷ xs) = elim (Bool-cases (x.seq == add32 seq 1)) [
  | inl next ↦ rw next (omega arith)
  | inr other ↦ rw other tt
]

length-count_duplicate :
    (tm : Timers) (u : Upload) (seq : ℕ) (q : List SentPacket)
    → After (count_duplicate tm u seq q) (λ (q', _). length q' ≤ length q)
unfolding count_duplicate
length-count_duplicate tm u seq q = elim (Bool-cases (u.last_ack == seq)) [
  | inr fresh ↦ rw fresh (omega arith)
  | inl again ↦ rw again (elim (Bool-cases (leb 3 (add32 u.dup_ack_count 1))) [
    | inr few ↦ rw few (omega arith)
    | inl third ↦ rw third (
        After-bind (λ (q', _). length q' ≤ length q) (fast_retransmit tm seq q) (λ q'. done (q', 0))
          (length-fast_retransmit tm seq q))
  ])
]

length-enqueue :
    (x : SentPacket) (q : List SentPacket) (tail : Option ℕ)
    → length (enqueue x q tail) ≤ suc (length q)
length-enqueue x [] tail = omega arith
length-enqueue x (y ∷ ys) none = omega arith
length-enqueue x (y ∷ ys) (some t) = omega (arith, length-append ys (x ∷ []))

length-renew_head : (now : ℕ) (q : List SentPacket) → length (renew_head now q) ≤ suc (length q)
length-renew_head now [] = omega arith
length-renew_head now (x ∷ xs) = omega arith

length-expire_head :
    (tm : Timers) (now renewed : ℕ) (q : List SentPacket)
    → length (expire_head tm now renewed q).0 ≤ suc (length q)
unfolding expire_head
length-expire_head tm now renewed [] = omega arith
length-expire_head tm now renewed (x ∷ xs) =
    elim (Bool-cases (ltb (to_ulong tm.rto) (sub64 now x.timestamp))) [
      | inl late ↦ rw late (omega arith)
      | inr early ↦ rw early (omega arith)
    ]

pub length-call_list :
    (sm : Smoothing) (c : Call) (tm : Timers) (u : Upload)
    → After (call_list sm c tm u) (λ (_, u', _). length u'.queue ≤ suc (length u.queue))
unfolding await acknowledge
length-call_list sm (waited seq true now new) tm u = length-renew_head now u.queue
length-call_list sm (waited seq false now new) tm u =
    length-enqueue (record { seq = seq; timestamp = now }) u.queue u.tail
length-call_list sm (acked seq sampled now) tm u =
    After-bind (λ (_, u', _). length u'.queue ≤ suc (length u.queue))
      (drop_acked sm sampled seq tm 0 u.queue) _
      (After-map (drop_acked sm sampled seq tm 0 u.queue)
        (λ (tm', count, q) le.
          After-bind (λ (_, u', _). length u'.queue ≤ suc (length u.queue))
            (count_duplicate tm' u seq q) _
            (After-map (count_duplicate tm' u seq q) (λ (q', _) le'. omega arith)
              (length-count_duplicate tm' u seq q)))
        (length-drop_acked sm sampled seq tm 0 u.queue))
length-call_list sm (checked now renewed) tm u = length-expire_head tm now renewed u.queue
length-call_list sm asked tm u = omega arith
length-call_list sm closed tm u = omega arith
