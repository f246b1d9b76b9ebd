-- ===== src/Tracker/Send/Nodes/Refine.antt =====
-- keep_track.c: the queue in memory does what the list does.
use bittorrent_with_congesti.Base.{
  ℕ, suc, ◌+◌, ◌<◌, ◌≤◌, ◌≡◌, refl, sym, ap, ◌∙◌, arith, none, some, List, [], ◌∷◌, length, done,
}
use bittorrent_with_congesti.Tracker.{Timers, Upload, id_null}
use bittorrent_with_congesti.Tracker.Send.{Smoothing, expire_head, await}
use bittorrent_with_congesti.Tracker.Send.Nodes.{
  Heap, SentNode, Slot, abort_upload_mem, get_timeout_seq_mem, wait_ack_mem,
}
use bittorrent_with_congesti.Tracker.Send.Nodes.Chain.{NotIn}
use bittorrent_with_congesti.Tracker.Send.Nodes.Drop.{Agrees, Agrees-then, Agrees-steps}
use bittorrent_with_congesti.Tracker.Send.Nodes.Stored.{IsStored, IsKept, Simulates, footprint}
use bittorrent_with_congesti.Tracker.Send.Nodes.Enqueue.{
  wait_ack_mem-Agrees, abort_upload_mem-Agrees, get_tail_seq_number_mem-done,
}
use bittorrent_with_congesti.Tracker.Send.Nodes.Stored.{get_timeout_seq_mem-Agrees, same-IsKept}
use mathlib.Core.Path.{subst, ap₂}
use bittorrent_with_congesti.Tracker.Send.Nodes.Acked.{receive_ack_mem-Agrees}
use bittorrent_with_congesti.Tracker.Send.Nodes.Shorter.{length-call_list}
use bittorrent_with_congesti.Tracker.Send.Nodes.Calls.{
  Call, waited, acked, checked, asked, closed, call_mem, call_list, run_mem, run_list, IsFresh,
  After, AreFresh,
}

-- the address that a call gets from `malloc`
abbrev fresh_of : Call → List ℕ
fresh_of (waited seq timeout now new) = new ∷ []
fresh_of (acked seq sampled now) = []
fresh_of (checked now renewed) = []
fresh_of asked = []
fresh_of closed = []

abbrev Called :
    Call
    → (m : Heap) (s : Slot) (nodes : List ℕ) → Timers × Heap × Slot × ℕ
    → Timers × Upload × ℕ
    → Type 0
Called c m s nodes (tm, m', s', n) (tm', u', n') =
    (tm ≡ tm') × (n ≡ n') × IsKept m s nodes (fresh_of c) m' s' u'

call_mem-Agrees :
    (fuel : ℕ) (sm : Smoothing) (c : Call) (tm : Timers) (m : Heap) (s : Slot) (u : Upload)
    (nodes : List ℕ)
    → IsStored m s u nodes
    → IsFresh c m
    → length u.queue < fuel
    → Agrees (Called c m s nodes) (call_mem fuel sm c tm m s) (call_list sm c tm u)
call_mem-Agrees fuel sm (waited seq timeout now new) tm m s u nodes st fresh enough =
    Agrees-then (Simulates m s nodes (new ∷ [])) (Called (waited seq timeout now new) m s nodes)
      (wait_ack_mem seq timeout now new m s) (done (await u seq timeout now)) _
      (λ (u', n). done (tm, u', n)) (wait_ack_mem-Agrees seq timeout now new m s u nodes fresh st)
      (λ a b r. (refl, r.0, r.1))
call_mem-Agrees fuel sm (acked seq sampled now) tm m s u nodes st fresh enough =
    receive_ack_mem-Agrees fuel sm tm seq sampled now m s u nodes st enough
call_mem-Agrees fuel sm (checked now renewed) tm m s u nodes st fresh enough =
    Agrees-then (Simulates m s nodes []) (Called (checked now renewed) m s nodes)
      (get_timeout_seq_mem tm now renewed m s)
      (done (
        record u { queue = (expire_head tm now renewed u.queue).0 },
        (expire_head tm now renewed u.queue).1,
      ))
      _ (λ (u', n). done (tm, u', n)) (get_timeout_seq_mem-Agrees tm now renewed m s u nodes st)
      (λ a b r. (refl, r.0, r.1))
call_mem-Agrees fuel sm asked tm m s u nodes st fresh enough =
    rw (get_tail_seq_number_mem-done m s u nodes st) (refl, refl, same-IsKept m s u nodes [] st)
call_mem-Agrees fuel sm closed tm m s u nodes st fresh enough =
    Agrees-then (Simulates m s nodes []) (Called closed m s nodes) (abort_upload_mem m s)
      (done (record u { id = id_null; queue = []; tail = none }, 1)) _ (λ (u', n). done (tm, u', n))
      (abort_upload_mem-Agrees m s u nodes st) (λ a b r. (refl, r.0, r.1))

-- The calls have returned the same, the queue is stored, and what was allocated by others is as it
-- was.
abbrev pub Ran :
    (m : Heap) (s : Slot) (nodes : List ℕ)
    → Timers × Heap × Slot × List ℕ
    → Timers × Upload × List ℕ
    → Type 0
Ran m s nodes (tm, m', s', ns) (tm', u', ns') =
    (tm ≡ tm')
    × (ns ≡ ns')
    × (nodes' : List ℕ) × IsStored m' s' u' nodes'
    × ((b : ℕ) (n : SentNode) → m b ≡ some n → NotIn b (footprint s.tail nodes) → m' b ≡ some n)

-- What is allocated is not what `malloc` returns.
not_fresh :
    (c : Call) (m : Heap) (b : ℕ) (n : SentNode) → IsFresh c m → m b ≡ some n → NotIn b (fresh_of c)
not_fresh (waited seq timeout now new) m b n fresh at =
    (λ e. let held : m new ≡ _ = ap m (sym e) ∙ at in cc, tt)
not_fresh (acked seq sampled now) m b n fresh at = tt
not_fresh (checked now renewed) m b n fresh at = tt
not_fresh asked m b n fresh at = tt
not_fresh closed m b n fresh at = tt

-- The queue of a stream is stored in memory, with any tail that it has left allocated. In any calls
-- on the stream, `malloc` returns addresses that are not allocated, and the fuel is more than the
-- packets queued and the calls. Then the calls on the nodes return the same numbers as on the list,
-- or go wrong in the same way; at the end the queue is stored again and the network parameters are
-- the same, and what was allocated outside of the queue is as it was.
pub run_mem-Agrees :
    (fuel : ℕ) (sm : Smoothing) (cs : List Call) (tm : Timers) (m : Heap) (s : Slot) (u : Upload)
    (nodes : List ℕ)
    → IsStored m s u nodes
    → AreFresh fuel sm cs tm m s
    → length u.queue + length cs < fuel
    → Agrees (Ran m s nodes) (run_mem fuel sm cs tm m s) (run_list sm cs tm u)
unfolding run_mem run_list
run_mem-Agrees fuel sm [] tm m s u nodes st fresh enough = (refl, refl, nodes, st, λ b n at far. at)
run_mem-Agrees fuel sm (c ∷ cs) tm m s u nodes st fresh enough =
    Agrees-steps (Called c m s nodes) (Ran m s nodes) (call_mem fuel sm c tm m s)
      (call_list sm c tm u) _ _ (call_mem-Agrees fuel sm c tm m s u nodes st fresh.0 (omega arith))
      λ (tm₁, m₁, s₁, n₁) (tm₂, u₂, n₂) e e' (same, returned, (nodes₁, st₁, outside)).
        let fresh₁ : AreFresh fuel sm cs tm₁ m₁ s₁ =
          subst (λ o. After o (λ (t, m', s', n). AreFresh fuel sm cs t m' s')) e fresh.1 in
        let longer : length u₂.queue ≤ suc (length u.queue) =
          subst (λ o. After o (λ (t, u', n). length u'.queue ≤ suc (length u.queue))) e'
            (length-call_list sm c tm u) in
        Agrees-then (Ran m₁ s₁ nodes₁) (Ran m s nodes) (run_mem fuel sm cs tm₁ m₁ s₁)
          (run_list sm cs tm₂ u₂) _ _
          (subst
            (λ t. Agrees (Ran m₁ s₁ nodes₁) (run_mem fuel sm cs tm₁ m₁ s₁) (run_list sm cs t u₂))
            same (run_mem-Agrees fuel sm cs tm₁ m₁ s₁ u₂ nodes₁ st₁ fresh₁ (omega arith)))
          λ (tm₃, m₃, s₃, ns) (tm₄, u₄, ns') (same', all, nodes₃, st₃, kept). (
            same',
            ap₂ (λ x xs. x ∷ xs) returned all,
            nodes₃,
            st₃,
            λ b n at far.
                let (left, out) = outside b (not_fresh c m b n fresh.0 at) far in
                kept b n (left ∙ at) out,
          )
