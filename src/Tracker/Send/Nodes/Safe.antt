-- ===== src/Tracker/Send/Nodes/Safe.antt =====
-- keep_track.c: no call reads or frees a node that is not allocated.
use bittorrent_with_congesti.Base.{
  ℕ, ◌+◌, ◌<◌, ◌≢◌, Bool, true, false, List, [], ◌∷◌, length, leb, ◌==◌, if◌then◌else◌, add32,
  Bool-cases, inl, inr, Outcome, done, crash, null_dereference, exited, out_of_bounds, unfinished,
  dangling_pointer, ◌>>=◌,
}
use bittorrent_with_congesti.Tracker.{SentPacket, Timers, Upload}
use bittorrent_with_congesti.Tracker.Send.{
  Smoothing, infer_rtt, drop_acked, fast_retransmit, count_duplicate, acknowledge,
}
use bittorrent_with_congesti.Tracker.Send.Nodes.{Heap, Slot}
use bittorrent_with_congesti.Tracker.Send.Nodes.Drop.{Agrees}
use bittorrent_with_congesti.Tracker.Send.Nodes.Stored.{IsStored}
use bittorrent_with_congesti.Tracker.Send.Nodes.Calls.{
  Call, waited, acked, checked, asked, closed, call_list, run_mem, run_list, AreFresh,
}
use bittorrent_with_congesti.Tracker.Send.Nodes.Refine.{Ran, run_mem-Agrees}

-- If it goes wrong, then by `exit`, or by the dereference of `NULL`.
abbrev IsSafe : {A : Type 0} → Outcome A → Type 0
IsSafe (done a) = Unit
IsSafe (crash null_dereference) = Unit
IsSafe (crash exited) = Unit
IsSafe (crash out_of_bounds) = ⊥
IsSafe (crash unfinished) = ⊥
IsSafe (crash dangling_pointer) = ⊥

IsSafe-bind :
    {A B : Type 0} (o : Outcome A) (f : A → Outcome B)
    → IsSafe o
    → ((a : A) → IsSafe (f a))
    → IsSafe (o >>= f)
IsSafe-bind (done a) f h k = k a
IsSafe-bind (crash null_dereference) f h k = tt
IsSafe-bind (crash exited) f h k = tt
IsSafe-bind (crash out_of_bounds) f h k = absurd h
IsSafe-bind (crash unfinished) f h k = absurd h
IsSafe-bind (crash dangling_pointer) f h k = absurd h

IsSafe-exit : {A : Type 0} (b : Bool) (a : A) → IsSafe (if b then crash exited else done a)
IsSafe-exit true a = tt
IsSafe-exit false a = tt

infer_rtt-IsSafe :
    (sm : Smoothing) (tm : Timers) (now timestamp : ℕ) → IsSafe (infer_rtt sm tm now timestamp)
unfolding infer_rtt
infer_rtt-IsSafe sm tm now timestamp = IsSafe-exit _ _

drop_acked-IsSafe :
    (sm : Smoothing) (sampled seq : ℕ) (tm : Timers) (count : ℕ) (q : List SentPacket)
    → IsSafe (drop_acked sm sampled seq tm count q)
unfolding drop_acked
drop_acked-IsSafe sm sampled seq tm count [] = tt
drop_acked-IsSafe sm sampled seq tm count (x ∷ xs) =
    let timed : Outcome Timers =
      if x.seq == seq then infer_rtt sm tm sampled x.timestamp else done tm in
    let fine : IsSafe timed = elim (Bool-cases (x.seq == seq)) [
      | inl same ↦ rw same (infer_rtt-IsSafe sm tm sampled x.timestamp)
      | inr other ↦ rw other tt
    ] in
    elim (Bool-cases (leb x.seq seq)) [
      | inr stays ↦ rw stays tt
      | inl goes ↦ rw goes (
          IsSafe-bind timed (λ tm'. drop_acked sm sampled seq tm' (add32 count 1) xs) fine
            (λ tm'. drop_acked-IsSafe sm sampled seq tm' (add32 count 1) xs))
    ]

fast_retransmit-IsSafe :
    (tm : Timers) (seq : ℕ) (q : List SentPacket) → IsSafe (fast_retransmit tm seq q)
unfolding fast_retransmit
fast_retransmit-IsSafe tm seq [] = tt
fast_retransmit-IsSafe tm seq (x ∷ xs) = elim (Bool-cases (x.seq == add32 seq 1)) [
  | inl next ↦ rw next tt
  | inr other ↦ rw other tt
]

count_duplicate-IsSafe :
    (tm : Timers) (u : Upload) (seq : ℕ) (q : List SentPacket) → IsSafe (count_duplicate tm u seq q)
unfolding count_duplicate
count_duplicate-IsSafe tm u seq q = elim (Bool-cases (u.last_ack == seq)) [
  | inr fresh ↦ rw fresh tt
  | inl again ↦ rw again (elim (Bool-cases (leb 3 (add32 u.dup_ack_count 1))) [
    | inr few ↦ rw few tt
    | inl third ↦ rw third (
        IsSafe-bind (fast_retransmit tm seq q) (λ q'. done (q', 0))
          (fast_retransmit-IsSafe tm seq q) (λ q'. tt))
  ])
]

call_list-IsSafe :
    (sm : Smoothing) (c : Call) (tm : Timers) (u : Upload) → IsSafe (call_list sm c tm u)
unfolding acknowledge
call_list-IsSafe sm (waited seq timeout now new) tm u = tt
call_list-IsSafe sm (acked seq sampled now) tm u =
    IsSafe-bind (drop_acked sm sampled seq tm 0 u.queue) _
      (drop_acked-IsSafe sm sampled seq tm 0 u.queue)
      (λ (tm', count, q).
        IsSafe-bind (count_duplicate tm' u seq q) _ (count_duplicate-IsSafe tm' u seq q) (λ r. tt))
call_list-IsSafe sm (checked now renewed) tm u = tt
call_list-IsSafe sm asked tm u = tt
call_list-IsSafe sm closed tm u = tt

run_list-IsSafe :
    (sm : Smoothing) (cs : List Call) (tm : Timers) (u : Upload) → IsSafe (run_list sm cs tm u)
unfolding run_list
run_list-IsSafe sm [] tm u = tt
run_list-IsSafe sm (c ∷ cs) tm u =
    IsSafe-bind (call_list sm c tm u) _ (call_list-IsSafe sm c tm u) (λ (tm', u', n).
      IsSafe-bind (run_list sm cs tm' u') _ (run_list-IsSafe sm cs tm' u') (λ r. tt))

IsSafe-Agrees :
    {A B : Type 0} (R : A → B → Type 0) (o : Outcome A) (o' : Outcome B)
    → Agrees R o o'
    → IsSafe o'
    → (o ≢ crash dangling_pointer) × (o ≢ crash unfinished)
IsSafe-Agrees R (done a) (done b) h k = (λ e. cc, λ e. cc)
IsSafe-Agrees R (done a) (crash d) h k = absurd h
IsSafe-Agrees R (crash c) (done b) h k = absurd h
IsSafe-Agrees R (crash c) (crash null_dereference) h k = (λ e. cc, λ e. cc)
IsSafe-Agrees R (crash c) (crash exited) h k = (λ e. cc, λ e. cc)
IsSafe-Agrees R (crash c) (crash out_of_bounds) h k = absurd k
IsSafe-Agrees R (crash c) (crash unfinished) h k = absurd k
IsSafe-Agrees R (crash c) (crash dangling_pointer) h k = absurd k

-- The queue of a stream is stored in memory, with any tail that it has left allocated. In any calls
-- on the stream, `malloc` returns addresses that are not allocated, and the fuel is more than the
-- packets queued and the calls. Then no call reads, writes or frees a node that has been freed or
-- has never been allocated, and the loop of `receive_ack` always ends within the fuel.
pub run_mem-safe :
    (fuel : ℕ) (sm : Smoothing) (cs : List Call) (tm : Timers) (m : Heap) (s : Slot) (u : Upload)
    (nodes : List ℕ)
    → IsStored m s u nodes
    → AreFresh fuel sm cs tm m s
    → length u.queue + length cs < fuel
    → (run_mem fuel sm cs tm m s ≢ crash dangling_pointer)
      × (run_mem fuel sm cs tm m s ≢ crash unfinished)
run_mem-safe fuel sm cs tm m s u nodes st fresh enough =
    IsSafe-Agrees (Ran m s nodes) (run_mem fuel sm cs tm m s) (run_list sm cs tm u)
      (run_mem-Agrees fuel sm cs tm m s u nodes st fresh enough) (run_list-IsSafe sm cs tm u)
