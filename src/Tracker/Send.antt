-- ===== src/Tracker/Send.antt =====
-- keep_track.c, the sending side: the queue of packets that wait for their acknowledgement, the
-- round-trip estimate, timeouts and the fast retransmission.
pub mod Lookup
pub mod Nodes
pub mod Window
use bittorrent_with_congesti.Base.{
  ℕ, ◌+◌, ◌*◌, ◌%◌, ◌^◌, Bool, true, false, Option, none, some, List, [], ◌∷◌, ◌++◌, ◌==◌,
  if◌then◌else◌, ltb, leb, add32, sub32, sub64, is_neg, to_ulong, minus_one, get_elem?, set,
  Outcome, done, crash, exited, null_dereference, ◌>>=◌,
}
use bittorrent_with_congesti.Tracker.{SentPacket, Upload, Timers, Tracker, get_upload_index_by_id}

-- C's `double` arithmetic of the estimate, `(int) (ALPHA * old + (1 - ALPHA) * new)` and the same
-- with `BETA`, is a parameter.
pub record Smoothing : Type 0 where
  pub smooth_rtt : ℕ → ℕ → ℕ
  pub smooth_deviation : ℕ → ℕ → ℕ

-- `ABS` of an `int`
abbrev pub abs_int : ℕ → ℕ
abs_int x = if is_neg x then sub32 0 x else x

abbrev pub estimate : Smoothing → Timers → (new_rtt new_dev : ℕ) → Timers
estimate sm tm new_rtt new_dev =
    let rtt = sm.smooth_rtt tm.rtt new_rtt in
    let deviation = sm.smooth_deviation tm.deviation new_dev in
    record { rtt = rtt; deviation = deviation; rto = (rtt + 4 * deviation) % 2 ^ 32 }

unfoldable pub infer_rtt : Smoothing → Timers → (now timestamp : ℕ) → Outcome Timers
infer_rtt sm tm now timestamp =
    let new_rtt = sub64 now timestamp % 2 ^ 32 in
    let new_dev = abs_int (sub32 new_rtt tm.rtt) in
    if is_neg new_dev then crash exited else done (estimate sm tm new_rtt new_dev)

-- `get_timeout_seq` on the stream's queue: the sequence number to send again, and the queue with
-- the head's time renewed. `now` is the first reading of the clock, `renewed` the last.
unfoldable pub expire_head : Timers → (now renewed : ℕ) → List SentPacket → List SentPacket × ℕ
expire_head tm now renewed [] = ([], 0)
expire_head tm now renewed (p ∷ ps) =
    if ltb (to_ulong tm.rto) (sub64 now p.timestamp)
    then (record p { timestamp = renewed } ∷ ps, p.seq)
    else (p ∷ ps, 0)

-- `wait_ack` on a stream. With `timeout` only the head's time is renewed.
abbrev pub renew_head : ℕ → List SentPacket → List SentPacket
renew_head now [] = []
renew_head now (p ∷ ps) = record p { timestamp = now } ∷ ps

abbrev pub enqueue : SentPacket → List SentPacket → Option ℕ → List SentPacket
enqueue new [] tail = new ∷ []
enqueue new (p ∷ ps) none = new ∷ []
enqueue new (p ∷ ps) (some _) = (p ∷ ps) ++ (new ∷ [])

unfoldable pub await : Upload → (seq : ℕ) → (timeout : Bool) → (now : ℕ) → Upload × ℕ
await u seq true now = (record u { queue = renew_head now u.queue }, 0)
await u seq false now = (
  record u {
    queue = enqueue (record { seq = seq; timestamp = now }) u.queue u.tail;
    tail = some seq;
    queue_size = add32 u.queue_size 1;
  },
  1,
)

-- The loop of `receive_ack`: drops the head while its number is at most `seq`. All readings of
-- the clock in the loop are `sampled`.
unfoldable pub drop_acked :
    Smoothing
    → (sampled seq : ℕ) → Timers
    → (count : ℕ) → List SentPacket
    → Outcome (Timers × ℕ × List SentPacket)
drop_acked sm sampled seq tm count [] = done (tm, count, [])
drop_acked sm sampled seq tm count (p ∷ ps) =
    let timed = if p.seq == seq then infer_rtt sm tm sampled p.timestamp else done tm in
    let rest = timed >>= λ tm'. drop_acked sm sampled seq tm' (add32 count 1) ps in
    if leb p.seq seq then rest else done (tm, count, p ∷ ps)

-- `head -> timestamp -= RTO` at the third duplicate, if the head is the packet after `seq`
unfoldable pub fast_retransmit : Timers → ℕ → List SentPacket → Outcome (List SentPacket)
fast_retransmit tm seq [] = crash null_dereference
fast_retransmit tm seq (p ∷ ps) =
    if p.seq == add32 seq 1
    then done (record p { timestamp = sub64 p.timestamp (to_ulong tm.rto) } ∷ ps)
    else crash exited

-- the new duplicate count and queue
unfoldable pub count_duplicate :
    Timers → Upload → ℕ → List SentPacket → Outcome (List SentPacket × ℕ)
count_duplicate tm u seq queue =
    let dups = add32 u.dup_ack_count 1 in
    let resend = fast_retransmit tm seq queue >>= λ queue'. done (queue', 0) in
    if u.last_ack == seq
    then (if leb 3 dups then resend else done (queue, dups))
    else done (queue, 0)

-- `receive_ack` on a stream
unfoldable pub acknowledge :
    Smoothing → Timers → Upload → (seq sampled now : ℕ) → Outcome (Timers × Upload × ℕ)
acknowledge sm tm u seq sampled now = do
  (tm', count, queue) ← drop_acked sm sampled seq tm 0 u.queue
  (queue', dups) ← count_duplicate tm' u seq queue
  done (
    tm',
    record u {
      queue = queue';
      queue_size = sub32 u.queue_size count;
      last_ack = seq;
      dup_ack_count = dups;
      last_time = now;
    },
    count,
  )

-- the stream of a peer, with its index
unfoldable pub find_upload : Tracker → ℕ → Option (ℕ × Upload)
find_upload t peer_id = elim (get_upload_index_by_id t peer_id) [
  | none ↦ none
  | some i ↦ elim (get_elem? t.uploads i) [ none ↦ none | some u ↦ some (i, u) ]
]

abbrev pub put_upload : Tracker → ℕ → Upload → Tracker
put_upload t i u = record t { uploads = set t.uploads i u }

unfoldable pub get_timeout_seq : Tracker → (peer_id now renewed : ℕ) → Tracker × ℕ
unfolding find_upload expire_head
get_timeout_seq t peer_id now renewed = elim (find_upload t peer_id) [
  | none ↦ (t, 0)
  | some (i, u) ↦
      let (queue, seq) = expire_head t.timers now renewed u.queue in
      (put_upload t i (record u { queue = queue }), seq)
]

unfoldable pub wait_ack : Tracker → (peer_id seq : ℕ) → Bool → (now : ℕ) → Tracker × ℕ
unfolding find_upload await
wait_ack t peer_id seq timeout now = elim (find_upload t peer_id) [
  | none ↦ (t, 0)
  | some (i, u) ↦ let (u', result) = await u seq timeout now in (put_upload t i u', result)
]

unfoldable pub receive_ack :
    Smoothing → Tracker → (peer_id seq sampled now : ℕ) → Outcome (Tracker × ℕ)
unfolding find_upload acknowledge
receive_ack sm t peer_id seq sampled now = elim (find_upload t peer_id) [
  | none ↦ done (t, 0)
  | some (i, u) ↦ acknowledge sm t.timers u seq sampled now >>= λ (tm, u', count).
      done (put_upload (record t { timers = tm }) i u', count)
]

unfoldable pub get_queue_size : Tracker → ℕ → ℕ
unfolding find_upload
get_queue_size t peer_id = elim (find_upload t peer_id) [
  | none ↦ minus_one
  | some (_, u) ↦ u.queue_size
]

unfoldable pub get_tail_seq_number : Tracker → ℕ → ℕ
unfolding find_upload
get_tail_seq_number t peer_id = elim (find_upload t peer_id) [
  | none ↦ minus_one
  | some (_, u) ↦ elim u.tail [ none ↦ 0 | some seq ↦ seq ]
]
