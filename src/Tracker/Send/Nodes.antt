-- ===== src/Tracker/Send/Nodes.antt =====
-- keep_track.c, the queue of a stream as it lies in memory: the nodes that `malloc` has returned,
-- with `sent_queue_head` and `sent_queue_tail` pointing into them.
pub mod Chain
pub mod Drop
pub mod Stored
pub mod Enqueue
pub mod Acked
pub mod Calls
pub mod Shorter
pub mod Refine
pub mod Safe
pub mod Separate
use bittorrent_with_congesti.Base.{
  ℕ, Bool, true, false, Option, none, some, ◌==◌, if◌then◌else◌, ltb, leb, add32, sub32, sub64,
  to_ulong, zero, suc, Outcome, done, crash, exited, null_dereference, unfinished, dangling_pointer,
  ◌>>=◌,
}
use bittorrent_with_congesti.Tracker.{id_null, Timers}
use bittorrent_with_congesti.Tracker.Send.{Smoothing, infer_rtt}

-- `struct sent_packet`, with its `next`
pub record SentNode : Type 0 where
  pub seq : ℕ
  pub timestamp : ℕ
  pub next : Option ℕ

-- What is allocated, by address. What has been freed, or never allocated, is `none`.
abbrev pub Heap : Type 0
Heap = ℕ → Option SentNode

-- one index of the upload arrays, with its two pointers
pub record Slot : Type 0 where
  pub id : ℕ
  pub chunk_id : ℕ
  pub last_time : ℕ
  pub head : Option ℕ
  pub tail : Option ℕ
  pub queue_size : ℕ
  pub last_ack : ℕ
  pub dup_ack_count : ℕ

abbrev pub load : Heap → ℕ → Outcome SentNode
load m a = elim (m a) [ none ↦ crash dangling_pointer | some n ↦ done n ]

-- Every address that is written to has been read before, or has just come from `malloc`.
abbrev pub put : Heap → ℕ → SentNode → Heap
put m a n b = if a == b then some n else m b

abbrev pub erase : Heap → ℕ → Heap
erase m a b = if a == b then none else m b

-- What is freed has to be allocated.
abbrev pub release : Heap → ℕ → Outcome Heap
release m a = load m a >>= λ _. done (erase m a)

-- The state of the stream after an operation, and what the operation returns.
abbrev pub Result : Type 0
Result = Outcome (Heap × Slot × ℕ)

abbrev pub release_tail : Heap → Option ℕ → Outcome Heap
release_tail m none = done m
release_tail m (some t) = release m t

-- `abort_upload`: only the tail is freed.
unfoldable pub abort_upload_mem : Heap → Slot → Result
abort_upload_mem m s = release_tail m s.tail >>= λ m'.
    done (m', record s { id = id_null; head = none; tail = none }, 1)

-- `get_timeout_seq`, at the head
unfoldable pub timeout_at : Timers → (now renewed : ℕ) → Heap → Slot → (head : Option ℕ) → Result
timeout_at tm now renewed m s none = done (m, s, 0)
timeout_at tm now renewed m s (some a) = load m a >>= λ n.
    if ltb (to_ulong tm.rto) (sub64 now n.timestamp)
    then done (put m a (record n { timestamp = renewed }), s, n.seq)
    else done (m, s, 0)

unfoldable pub get_timeout_seq_mem : Timers → (now renewed : ℕ) → Heap → Slot → Result
unfolding timeout_at
get_timeout_seq_mem tm now renewed m s = timeout_at tm now renewed m s s.head

-- `wait_ack` with `timeout`, at the head
unfoldable pub renew_at : (now : ℕ) → Heap → Slot → (head : Option ℕ) → Result
renew_at now m s none = done (m, s, 0)
renew_at now m s (some a) = load m a >>= λ n. done (put m a (record n { timestamp = now }), s, 0)

-- The queue is the new node only.
abbrev pub only_node : Slot → ℕ → Slot
only_node s new = record s { head = some new; tail = some new; queue_size = add32 s.queue_size 1 }

-- `wait_ack` without `timeout`, at the head and the tail; the node `new` has been filled in.
unfoldable pub enqueue_at : (new : ℕ) → Heap → Slot → (head tail : Option ℕ) → Result
enqueue_at new m s none tail = release_tail m tail >>= λ m'. done (m', only_node s new, 1)
enqueue_at new m s (some a) none = done (m, only_node s new, 1)
enqueue_at new m s (some a) (some t) = load m t >>= λ n. done (
  put m t (record n { next = some new }),
  record s { tail = some new; queue_size = add32 s.queue_size 1 },
  1,
)

-- `wait_ack`; `malloc` returns `new`.
unfoldable pub wait_ack_mem : (seq : ℕ) → (timeout : Bool) → (now new : ℕ) → Heap → Slot → Result
unfolding renew_at enqueue_at
wait_ack_mem seq true now new m s = renew_at now m s s.head
wait_ack_mem seq false now new m s =
    enqueue_at new (put m new (record { seq = seq; timestamp = now; next = none })) s s.head s.tail

-- A node that has been dropped is freed unless it is the last one.
unfoldable pub free_next : Heap → ℕ → (next : Option ℕ) → Outcome Heap
free_next m a none = done m
free_next m a (some _) = release m a

-- The loop of `receive_ack`, on fuel
unfoldable pub drop_acked_mem :
    (fuel : ℕ)
    → Smoothing
    → (sampled seq : ℕ) → Timers
    → (count : ℕ) → Heap
    → Option ℕ
    → Outcome (Timers × ℕ × Heap × Option ℕ)
unfolding free_next
drop_acked_mem zero sm sampled seq tm count m head = crash unfinished
drop_acked_mem (suc fuel) sm sampled seq tm count m none = done (tm, count, m, none)
drop_acked_mem (suc fuel) sm sampled seq tm count m (some a) = load m a >>= λ n.
    let timed = if n.seq == seq then infer_rtt sm tm sampled n.timestamp else done tm in
    let rest = timed >>= λ tm'. free_next m a n.next >>= λ m'.
    drop_acked_mem fuel sm sampled seq tm' (add32 count 1) m' n.next in
    if leb n.seq seq then rest else done (tm, count, m, some a)

-- `head -> timestamp -= RTO`
unfoldable pub fast_retransmit_mem : Timers → (seq : ℕ) → Heap → Option ℕ → Outcome Heap
fast_retransmit_mem tm seq m none = crash null_dereference
fast_retransmit_mem tm seq m (some a) = load m a >>= λ n.
    if n.seq == add32 seq 1
    then done (put m a (record n { timestamp = sub64 n.timestamp (to_ulong tm.rto) }))
    else crash exited

-- the new duplicate count
unfoldable pub count_duplicate_mem :
    Timers → Slot → (seq : ℕ) → Heap → Option ℕ → Outcome (Heap × ℕ)
count_duplicate_mem tm s seq m head =
    let dups = add32 s.dup_ack_count 1 in
    let resend = fast_retransmit_mem tm seq m head >>= λ m'. done (m', 0) in
    if s.last_ack == seq then (if leb 3 dups then resend else done (m, dups)) else done (m, 0)

-- `receive_ack`
unfoldable pub receive_ack_mem :
    (fuel : ℕ)
    → Smoothing
    → Timers
    → (seq sampled now : ℕ) → Heap
    → Slot
    → Outcome (Timers × Heap × Slot × ℕ)
receive_ack_mem fuel sm tm seq sampled now m s = do
  (tm', count, m', head) ← drop_acked_mem fuel sm sampled seq tm 0 m s.head
  (m'', dups) ← count_duplicate_mem tm' s seq m' head
  done (
    tm',
    m'',
    record s {
      head = head;
      queue_size = sub32 s.queue_size count;
      last_ack = seq;
      dup_ack_count = dups;
      last_time = now;
    },
    count,
  )

unfoldable pub tail_seq_at : Heap → (tail : Option ℕ) → Outcome ℕ
tail_seq_at m none = done 0
tail_seq_at m (some t) = load m t >>= λ n. done n.seq

-- `get_tail_seq_number`
unfoldable pub get_tail_seq_number_mem : Heap → Slot → Outcome ℕ
unfolding tail_seq_at
get_tail_seq_number_mem m s = tail_seq_at m s.tail
