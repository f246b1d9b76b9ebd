-- ===== src/Tracker/Send/Nodes/Stored.antt =====
-- keep_track.c: a queue that is stored in memory, and what the operations on the nodes make of it.
use bittorrent_with_congesti.Base.{
  ℕ, ◌≡◌, refl, sym, ap, ◌∙◌, Option, none, some, List, [], ◌∷◌, ltb, sub64, to_ulong, Bool-cases,
  ◌⊎◌, inl, inr, done,
}
use mathlib.Core.Option.{some-injective}
use native.Mathlib.Decide.{ℕ_discrete}
use bittorrent_with_congesti.Tracker.{SentPacket, Timers, Upload}
use bittorrent_with_congesti.Tracker.Send.{expire_head, renew_head}
use bittorrent_with_congesti.Tracker.Send.Nodes.{
  Heap, SentNode, Slot, load, put, get_timeout_seq_mem, timeout_at, renew_at,
}
use bittorrent_with_congesti.Tracker.Send.Nodes.Chain.{
  NotIn, first, final, holding, IsChain, IsChain-AgreeAt, put_self, put_ne, put-AgreeAt,
}
use bittorrent_with_congesti.Tracker.Send.Nodes.Drop.{Agrees, Agrees-eq}

-- `sent_queue_tail` points at an allocated node with the number that the list model keeps. It is the
-- last node of the queue, if the queue has one.
abbrev pub IsTail : Heap → Option ℕ → Option ℕ → (nodes : List ℕ) → Type 0
IsTail m none none nodes = nodes ≡ []
IsTail m (some t) (some seq) nodes =
    (n : SentNode) × (m t ≡ some n) × (n.seq ≡ seq) × ((nodes ≡ []) ⊎ (final nodes ≡ some t))
IsTail m none (some seq) nodes = ⊥
IsTail m (some t) none nodes = ⊥

-- The queue of a stream is stored in memory, in these nodes.
pub record IsStored (m : Heap) (s : Slot) (u : Upload) (nodes : List ℕ) : Type 0 where
  pub chain : IsChain m nodes u.queue
  pub head : s.head ≡ first nodes
  pub tail : IsTail m s.tail u.tail nodes
  pub id : s.id ≡ u.id
  pub chunk_id : s.chunk_id ≡ u.chunk_id
  pub last_time : s.last_time ≡ u.last_time
  pub queue_size : s.queue_size ≡ u.queue_size
  pub last_ack : s.last_ack ≡ u.last_ack
  pub dup_ack_count : s.dup_ack_count ≡ u.dup_ack_count

-- what a stream has allocated
abbrev pub footprint : Option ℕ → (nodes : List ℕ) → List ℕ
footprint none nodes = nodes
footprint (some t) nodes = t ∷ nodes

-- After an operation the queue is stored again, in nodes that were its own or are `fresh`, and the
-- rest of the memory is as it was.
abbrev pub IsKept : (m : Heap) (s : Slot) (nodes fresh : List ℕ) → Heap → Slot → Upload → Type 0
IsKept m s nodes fresh m' s' u' =
    (nodes' : List ℕ) × IsStored m' s' u' nodes'
    × ((b : ℕ)
        → NotIn b fresh
        → NotIn b (footprint s.tail nodes)
        → (m' b ≡ m b) × NotIn b (footprint s'.tail nodes'))

pub NotIn-footprint :
    (b : ℕ) (t : Option ℕ) (nodes : List ℕ) → NotIn b (footprint t nodes) → NotIn b nodes
NotIn-footprint b none nodes h = h
NotIn-footprint b (some t) nodes h = h.1

-- The head gets another time.
module _ (m : Heap) (x y : SentPacket) (a : ℕ) (rs : List ℕ) where
  pub touch-IsChain :
      (xs : List SentPacket)
      → IsChain m (a ∷ rs) (x ∷ xs)
      → IsChain (put m a (holding y (first rs))) (a ∷ rs) (y ∷ xs)
  touch-IsChain xs (at, distinct, h) = (
    put_self m a (holding y (first rs)),
    distinct,
    IsChain-AgreeAt m (put m a (holding y (first rs))) rs xs
        (put-AgreeAt m a (holding y (first rs)) rs distinct) h,
  )

  pub touch-IsTail :
      (t seq : Option ℕ) (nodes : List ℕ)
      → m a ≡ some (holding x (first rs))
      → y.seq ≡ x.seq
      → IsTail m t seq nodes
      → IsTail (put m a (holding y (first rs))) t seq nodes
  touch-IsTail none none nodes at same h = h
  touch-IsTail none (some seq) nodes at same h = absurd h
  touch-IsTail (some t) none nodes at same h = absurd h
  touch-IsTail (some t) (some seq) nodes at same (n, there, e, last) = elim (ℕ_discrete a t) [
    | yes here ↦
        let whole : holding x (first rs) ≡ n = some-injective _ _ (sym at ∙ ap m here ∙ there) in
        (
          holding y (first rs),
          ap (put m a (holding y (first rs))) (sym here) ∙ put_self m a (holding y (first rs)),
          same ∙ ap SentNode.seq whole ∙ e,
          last,
        )
    | no other ↦ (n, put_ne m a t (holding y (first rs)) other ∙ there, e, last)
  ]

  touch-IsKept :
      (s : Slot) (u : Upload) (xs : List SentPacket) (fresh : List ℕ)
      → y.seq ≡ x.seq
      → IsStored m s (record u { queue = x ∷ xs }) (a ∷ rs)
      → IsKept m s (a ∷ rs) fresh (put m a (holding y (first rs))) s (record u { queue = y ∷ xs })
  touch-IsKept s u xs fresh same st = (
    a ∷ rs,
    record {
      chain = touch-IsChain xs st.chain;
      head = st.head;
      tail = touch-IsTail s.tail u.tail (a ∷ rs) st.chain.0 same st.tail;
      id = st.id;
      chunk_id = st.chunk_id;
      last_time = st.last_time;
      queue_size = st.queue_size;
      last_ack = st.last_ack;
      dup_ack_count = st.dup_ack_count;
    },
    λ b _ far. (
      put_ne m a b (holding y (first rs)) (λ e. (NotIn-footprint b s.tail (a ∷ rs) far).0 (sym e)),
      far,
    ),
  )

-- The results of an operation on the nodes and of the one on the list agree.
abbrev pub Simulates :
    (m : Heap) (s : Slot) (nodes fresh : List ℕ) → Heap × Slot × ℕ → Upload × ℕ → Type 0
Simulates m s nodes fresh (m', s', result) (u', result') =
    (result ≡ result') × IsKept m s nodes fresh m' s' u'

-- Nothing is done.
pub same-IsKept :
    (m : Heap) (s : Slot) (u : Upload) (nodes fresh : List ℕ)
    → IsStored m s u nodes
    → IsKept m s nodes fresh m s u
same-IsKept m s u nodes fresh st = (nodes, st, λ b _ far. (refl, far))

timeout_at-Agrees :
    (tm : Timers) (now renewed : ℕ) (m : Heap) (s : Slot) (u : Upload) (nodes : List ℕ)
    (q : List SentPacket)
    → IsStored m s (record u { queue = q }) nodes
    → Agrees (Simulates m s nodes []) (timeout_at tm now renewed m s (first nodes)) (
        done
          (record u { queue = (expire_head tm now renewed q).0 }, (expire_head tm now renewed q).1))
unfolding timeout_at expire_head
timeout_at-Agrees tm now renewed m s u [] [] st =
    (refl, same-IsKept m s (record u { queue = [] }) [] [] st)
timeout_at-Agrees tm now renewed m s u [] (x ∷ xs) st = absurd st.chain
timeout_at-Agrees tm now renewed m s u (a ∷ rs) [] st = absurd st.chain
timeout_at-Agrees tm now renewed m s u (a ∷ rs) (x ∷ xs) st =
    rw (st.chain.0, load)
      (elim (Bool-cases (ltb (to_ulong tm.rto) (sub64 now x.timestamp))) [
        | inl late ↦
            rw late
              (refl, touch-IsKept m x (record x { timestamp = renewed }) a rs s u xs [] refl st)
        | inr early ↦ rw early (refl, same-IsKept m s (record u { queue = x ∷ xs }) (a ∷ rs) [] st)
      ])

pub get_timeout_seq_mem-Agrees :
    (tm : Timers) (now renewed : ℕ) (m : Heap) (s : Slot) (u : Upload) (nodes : List ℕ)
    → IsStored m s u nodes
    → Agrees (Simulates m s nodes []) (get_timeout_seq_mem tm now renewed m s) (
        done (
          record u { queue = (expire_head tm now renewed u.queue).0 },
          (expire_head tm now renewed u.queue).1,
        ))
unfolding get_timeout_seq_mem
get_timeout_seq_mem-Agrees tm now renewed m s u nodes st =
    Agrees-eq (Simulates m s nodes []) (timeout_at tm now renewed m s s.head)
      (timeout_at tm now renewed m s (first nodes))
      (done (
        record u { queue = (expire_head tm now renewed u.queue).0 },
        (expire_head tm now renewed u.queue).1,
      ))
      (ap (timeout_at tm now renewed m s) st.head)
      (timeout_at-Agrees tm now renewed m s u nodes u.queue st)

pub renew_at-Agrees :
    (now : ℕ) (m : Heap) (s : Slot) (u : Upload) (nodes fresh : List ℕ) (q : List SentPacket)
    → IsStored m s (record u { queue = q }) nodes
    → Agrees
        (Simulates m s nodes fresh)
        (renew_at now m s (first nodes))
        (done (record u { queue = renew_head now q }, 0))
unfolding renew_at
renew_at-Agrees now m s u [] fresh [] st =
    (refl, same-IsKept m s (record u { queue = [] }) [] fresh st)
renew_at-Agrees now m s u [] fresh (x ∷ xs) st = absurd st.chain
renew_at-Agrees now m s u (a ∷ rs) fresh [] st = absurd st.chain
renew_at-Agrees now m s u (a ∷ rs) fresh (x ∷ xs) st =
    rw (st.chain.0, load)
      ((refl, touch-IsKept m x (record x { timestamp = now }) a rs s u xs fresh refl st))
