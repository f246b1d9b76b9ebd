-- ===== src/Tracker/Send/Nodes/Calls.antt =====
-- keep_track.c: calls of the operations on a stream, on the nodes in memory and on the list.
use bittorrent_with_congesti.Base.{ℕ, ◌≡◌, Bool, none, List, [], ◌∷◌, Outcome, done, crash, ◌>>=◌}
use bittorrent_with_congesti.Tracker.{Timers, Upload, id_null}
use bittorrent_with_congesti.Tracker.Send.{Smoothing, expire_head, await, acknowledge}
use bittorrent_with_congesti.Tracker.Send.Window.{tail_seq}
use bittorrent_with_congesti.Tracker.Send.Nodes.{
  Heap, Slot, abort_upload_mem, get_timeout_seq_mem, wait_ack_mem, receive_ack_mem,
  get_tail_seq_number_mem,
}

-- A call of `wait_ack`, `receive_ack`, `get_timeout_seq`, `get_tail_seq_number` or `abort_upload`
-- on a stream, with the readings of the clock. `new` is what `malloc` returns.
pub data Call : Type 0 where
  waited : (seq : ℕ) → (timeout : Bool) → (now new : ℕ) → Call
  acked : (seq sampled now : ℕ) → Call
  checked : (now renewed : ℕ) → Call
  asked : Call
  closed : Call

-- the number that a call returns, and the state after it
abbrev pub call_mem :
    (fuel : ℕ) → Smoothing → Call → Timers → Heap → Slot → Outcome (Timers × Heap × Slot × ℕ)
call_mem fuel sm (waited seq timeout now new) tm m s =
    wait_ack_mem seq timeout now new m s >>= λ (m', s', n). done (tm, m', s', n)
call_mem fuel sm (acked seq sampled now) tm m s = receive_ack_mem fuel sm tm seq sampled now m s
call_mem fuel sm (checked now renewed) tm m s =
    get_timeout_seq_mem tm now renewed m s >>= λ (m', s', n). done (tm, m', s', n)
call_mem fuel sm asked tm m s = get_tail_seq_number_mem m s >>= λ n. done (tm, m, s, n)
call_mem fuel sm closed tm m s = abort_upload_mem m s >>= λ (m', s', n). done (tm, m', s', n)

abbrev pub call_list : Smoothing → Call → Timers → Upload → Outcome (Timers × Upload × ℕ)
call_list sm (waited seq timeout now new) tm u =
    let (u', n) = await u seq timeout now in done (tm, u', n)
call_list sm (acked seq sampled now) tm u = acknowledge sm tm u seq sampled now
call_list sm (checked now renewed) tm u =
    let (queue, n) = expire_head tm now renewed u.queue in done (tm, record u { queue = queue }, n)
call_list sm asked tm u = done (tm, u, tail_seq u.tail)
call_list sm closed tm u = done (tm, record u { id = id_null; queue = []; tail = none }, 1)

-- Calls in turn, and all that they return.
unfoldable pub run_mem :
    (fuel : ℕ)
    → Smoothing
    → List Call
    → Timers
    → Heap
    → Slot
    → Outcome (Timers × Heap × Slot × List ℕ)
run_mem fuel sm [] tm m s = done (tm, m, s, [])
run_mem fuel sm (c ∷ cs) tm m s = do
  (tm', m', s', n) ← call_mem fuel sm c tm m s
  (tm'', m'', s'', ns) ← run_mem fuel sm cs tm' m' s'
  done (tm'', m'', s'', n ∷ ns)

unfoldable pub run_list :
    Smoothing → List Call → Timers → Upload → Outcome (Timers × Upload × List ℕ)
run_list sm [] tm u = done (tm, u, [])
run_list sm (c ∷ cs) tm u = do
  (tm', u', n) ← call_list sm c tm u
  (tm'', u'', ns) ← run_list sm cs tm' u'
  done (tm'', u'', n ∷ ns)

-- `malloc` returns what is not allocated.
abbrev pub IsFresh : Call → Heap → Type 0
IsFresh (waited seq timeout now new) m = m new ≡ none
IsFresh (acked seq sampled now) m = Unit
IsFresh (checked now renewed) m = Unit
IsFresh asked m = Unit
IsFresh closed m = Unit

abbrev pub After : {A : Type 0} → Outcome A → (A → Type 0) → Type 0
After (done a) P = P a
After (crash c) P = Unit

abbrev pub AreFresh : (fuel : ℕ) → Smoothing → List Call → Timers → Heap → Slot → Type 0
AreFresh fuel sm [] tm m s = Unit
AreFresh fuel sm (c ∷ cs) tm m s =
    IsFresh c m
    × After (call_mem fuel sm c tm m s) (λ (tm', m', s', n). AreFresh fuel sm cs tm' m' s')
