-- ===== src/Tests/Queueing.antt =====
-- keep_track.c: a queue in memory. Two packets are sent and both acknowledged, so that the second
-- one's node stays, as the tail; the next packet gets the address of the first, which has been
-- freed.
use bittorrent_with_congesti.Base.{
  some, inr, done, ◌≡◌, ◌≢◌, refl, arith, none, false, List, [], ◌∷◌, crash, unfinished,
  dangling_pointer,
}
use bittorrent_with_congesti.Tracker.{Upload}
use bittorrent_with_congesti.Tracker.Send.{infer_rtt}
use bittorrent_with_congesti.Tracker.Send.Nodes.{
  Heap, Slot, put, wait_ack_mem, renew_at, enqueue_at, receive_ack_mem, drop_acked_mem, free_next,
  count_duplicate_mem, get_tail_seq_number_mem, tail_seq_at, abort_upload_mem,
}
use bittorrent_with_congesti.Tracker.Send.Nodes.Drop.{Agrees}
use bittorrent_with_congesti.Tracker.Send.Nodes.Stored.{IsStored}
use bittorrent_with_congesti.Tracker.Send.Nodes.Calls.{
  Call, waited, acked, asked, closed, run_mem, run_list, AreFresh,
}
use bittorrent_with_congesti.Tracker.Send.Nodes.Refine.{Ran, run_mem-Agrees}
use bittorrent_with_congesti.Tracker.Send.Nodes.Safe.{run_mem-safe}
use bittorrent_with_congesti.Tracker.Send.Nodes.Separate.{
  run_mem-separate, AreAllocated, abort_upload_mem-leak,
}
use bittorrent_with_congesti.Tests.{upload, timers, smoothing}

abbrev calls : List Call
calls =
    waited 1 false 100 10
    ∷ waited 2 false 200 20
    ∷ acked 2 300 300
    ∷ asked
    ∷ waited 3 false 400 10
    ∷ closed
    ∷ []

abbrev nothing : Heap
nothing a = none

abbrev fresh_upload : Upload
fresh_upload = record upload { queue = []; tail = none; queue_size = 0; last_ack = 0 }

abbrev fresh_slot : Slot
fresh_slot = record {
  id = 9;
  chunk_id = 2;
  last_time = 0;
  head = none;
  tail = none;
  queue_size = 0;
  last_ack = 0;
  dup_ack_count = 0;
}

fresh_slot-IsStored : IsStored nothing fresh_slot fresh_upload []
fresh_slot-IsStored = record {
  chain = tt;
  head = refl;
  tail = refl;
  id = refl;
  chunk_id = refl;
  last_time = refl;
  queue_size = refl;
  last_ack = refl;
  dup_ack_count = refl;
}

calls-AreFresh : AreFresh 7 smoothing calls timers nothing fresh_slot
unfolding wait_ack_mem renew_at enqueue_at receive_ack_mem drop_acked_mem free_next
    count_duplicate_mem get_tail_seq_number_mem tail_seq_at abort_upload_mem infer_rtt
calls-AreFresh = (refl, (refl, (tt, (tt, (refl, (tt, tt))))))

run_mem-Agrees_example :
    Agrees
      (Ran nothing fresh_slot [])
      (run_mem 7 smoothing calls timers nothing fresh_slot)
      (run_list smoothing calls timers fresh_upload)
run_mem-Agrees_example =
    run_mem-Agrees 7 smoothing calls timers nothing fresh_slot fresh_upload [] fresh_slot-IsStored
      calls-AreFresh (omega arith)

run_mem-safe_example :
    (run_mem 7 smoothing calls timers nothing fresh_slot ≢ crash dangling_pointer)
    × (run_mem 7 smoothing calls timers nothing fresh_slot ≢ crash unfinished)
run_mem-safe_example =
    run_mem-safe 7 smoothing calls timers nothing fresh_slot fresh_upload [] fresh_slot-IsStored
      calls-AreFresh (omega arith)

-- The queue of another stream, of two packets.
abbrev other_upload : Upload
other_upload = record upload {
  queue = record { seq = 4; timestamp = 1000 } ∷ record { seq = 5; timestamp = 2000 } ∷ [];
  tail = some 5;
}

abbrev other_slot : Slot
other_slot = record fresh_slot { head = some 30; tail = some 40; queue_size = 2; last_ack = 3 }

abbrev occupied : Heap
occupied =
    put (put nothing 30 (record { seq = 4; timestamp = 1000; next = some 40 })) 40
      (record { seq = 5; timestamp = 2000; next = none })

other_slot-IsStored : IsStored occupied other_slot other_upload (30 ∷ 40 ∷ [])
other_slot-IsStored = record {
  chain = (refl, (λ e. omega arith, tt), (refl, tt, tt));
  head = refl;
  tail = (record { seq = 5; timestamp = 2000; next = none }, refl, refl, inr refl);
  id = refl;
  chunk_id = refl;
  last_time = refl;
  queue_size = refl;
  last_ack = refl;
  dup_ack_count = refl;
}

fresh_slot-IsStored_beside : IsStored occupied fresh_slot fresh_upload []
fresh_slot-IsStored_beside = record {
  chain = tt;
  head = refl;
  tail = refl;
  id = refl;
  chunk_id = refl;
  last_time = refl;
  queue_size = refl;
  last_ack = refl;
  dup_ack_count = refl;
}

run_mem-separate_example :
    IsStored
      (put occupied 10 (record { seq = 1; timestamp = 100; next = none }))
      other_slot
      other_upload
      (30 ∷ 40 ∷ [])
unfolding run_mem wait_ack_mem renew_at enqueue_at
run_mem-separate_example =
    run_mem-separate 2 smoothing (waited 1 false 100 10 ∷ []) timers occupied fresh_slot other_slot
      fresh_upload other_upload [] (30 ∷ 40 ∷ []) fresh_slot-IsStored_beside other_slot-IsStored
      (tt, (tt, (tt, tt))) (refl, tt) (omega arith) refl

abort_upload_mem-leak_example :
    (m' : Heap) × (abort_upload_mem occupied other_slot
      ≡ done (m', record other_slot { id = 0; head = none; tail = none }, 1))
    × AreAllocated (30 ∷ []) m'
abort_upload_mem-leak_example =
    abort_upload_mem-leak occupied other_slot other_upload (30 ∷ 40 ∷ []) other_slot-IsStored
