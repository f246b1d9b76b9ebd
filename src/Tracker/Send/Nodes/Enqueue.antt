-- ===== src/Tracker/Send/Nodes/Enqueue.antt =====
-- keep_track.c: a node that is enqueued, and a queue that is given up.
use bittorrent_with_congesti.Base.{
  ℕ, Bool, ◌≡◌, ◌≢◌, refl, sym, ap, ◌∙◌, Option, none, some, List, [], ◌∷◌, ◌++◌, true, false,
  add32, inl, inr, done,
}
use bittorrent_with_congesti.Tracker.{SentPacket, Upload, id_null}
use bittorrent_with_congesti.Tracker.Send.{renew_head, enqueue, await}
use bittorrent_with_congesti.Tracker.Send.Nodes.{
  Heap, SentNode, Slot, load, put, erase, abort_upload_mem, renew_at, enqueue_at, only_node,
  release_tail, tail_seq_at, wait_ack_mem, get_tail_seq_number_mem,
}
use bittorrent_with_congesti.Tracker.Send.Nodes.Chain.{
  NotIn, first, final, holding, erase_ne, put_self, put_ne, IsChain-append, final-append,
}
use bittorrent_with_congesti.Tracker.Send.Nodes.Drop.{Agrees, Agrees-eq}
use bittorrent_with_congesti.Tracker.Send.Window.{tail_seq}
use bittorrent_with_congesti.Tracker.Send.Nodes.Chain.{NotIn-append}
use bittorrent_with_congesti.Tracker.Send.Nodes.Stored.{
  IsTail, IsStored, footprint, Simulates, renew_at-Agrees,
}

-- The queue is the new node only.
only_node-IsStored :
    (m : Heap) (s : Slot) (u : Upload) (seq now new : ℕ)
    → (st : (s.id ≡ u.id)
        × (s.chunk_id ≡ u.chunk_id)
        × (s.last_time ≡ u.last_time)
        × (s.queue_size ≡ u.queue_size)
        × (s.last_ack ≡ u.last_ack)
        × (s.dup_ack_count ≡ u.dup_ack_count))
    → m new ≡ some (record { seq = seq; timestamp = now; next = none })
    → IsStored m
        (only_node s new)
        (record u {
          queue = record { seq = seq; timestamp = now } ∷ [];
          tail = some seq;
          queue_size = add32 u.queue_size 1;
        })
        (new ∷ [])
only_node-IsStored m s u seq now new (id, chunk_id, last_time, size, last_ack, dups) at = record {
  chain = (at, tt, tt);
  head = refl;
  tail = (record { seq = seq; timestamp = now; next = none }, at, refl, inr refl);
  id = id;
  chunk_id = chunk_id;
  last_time = last_time;
  queue_size = ap (λ n. add32 n 1) size;
  last_ack = last_ack;
  dup_ack_count = dups;
}

abbrev packet : (seq now : ℕ) → SentPacket
packet seq now = record { seq = seq; timestamp = now }

-- the upload after `wait_ack`
abbrev enqueued : Upload → (q : List SentPacket) → (tail : Option ℕ) → (seq now : ℕ) → Upload
enqueued u q tail seq now = record u {
  queue = enqueue (packet seq now) q tail;
  tail = some seq;
  queue_size = add32 u.queue_size 1;
}

module _ (m : Heap) (seq now new : ℕ) (free : m new ≡ none) where
  abbrev filled : Heap
  filled = put m new (holding (packet seq now) none)

  -- What was allocated before is not the new node.
  not_new : (t : ℕ) {n : SentNode} → m t ≡ some n → t ≢ new
  not_new t at = λ e. let held : m new ≡ _ = ap m (sym e) ∙ at in cc

  enqueue_at-Agrees :
      (s : Slot) (u : Upload) (nodes : List ℕ) (q : List SentPacket) (t tail : Option ℕ)
      → IsStored m (record s { tail = t }) (record u { queue = q; tail = tail }) nodes
      → Agrees
          (Simulates m (record s { tail = t }) nodes (new ∷ []))
          (enqueue_at new filled (record s { tail = t }) (first nodes) t)
          (done (enqueued u q tail seq now, 1))
  unfolding enqueue_at
  enqueue_at-Agrees s u [] [] none none st = (
    refl,
    (
      new ∷ [],
      only_node-IsStored filled s u seq now new
          (st.id, st.chunk_id, st.last_time, st.queue_size, st.last_ack, st.dup_ack_count)
          (put_self m new (holding (packet seq now) none)),
      λ b other far. (put_ne m new b _ (λ e. other.0 (sym e)), (other.0, other)),
    ),
  )
  enqueue_at-Agrees s u [] [] none (some seq') st = absurd st.tail
  enqueue_at-Agrees s u [] [] (some t) none st = absurd st.tail
  enqueue_at-Agrees s u [] [] (some t) (some seq') st =
      let (n, at, _, _) = st.tail in
      let apart = not_new t at in
      let there : filled t ≡ some n = put_ne m new t _ (λ e. apart (sym e)) ∙ at in
      rw (there, load)
        (
          refl,
          (
            new ∷ [],
            only_node-IsStored (erase filled t) s u seq now new
                (st.id, st.chunk_id, st.last_time, st.queue_size, st.last_ack, st.dup_ack_count)
                (erase_ne filled t new apart ∙ put_self m new (holding (packet seq now) none)),
            λ b other far. (
              erase_ne filled t b (λ e. far.0 (sym e)) ∙ put_ne m new b _ (λ e. other.0 (sym e)),
              (other.0, other),
            ),
          ),
        )
  enqueue_at-Agrees s u [] (y ∷ ys) t tail st = absurd st.chain
  enqueue_at-Agrees s u (a ∷ rs) [] t tail st = absurd st.chain
  enqueue_at-Agrees s u (a ∷ rs) (y ∷ ys) none none st = let gone = st.tail in cc
  enqueue_at-Agrees s u (a ∷ rs) (y ∷ ys) none (some seq') st = absurd st.tail
  enqueue_at-Agrees s u (a ∷ rs) (y ∷ ys) (some t) none st = absurd st.tail
  enqueue_at-Agrees s u (a ∷ rs) (y ∷ ys) (some t) (some seq') st =
      let (n, at, _, last) = st.tail in
      let apart = not_new t at in
      let there : filled t ≡ some n = put_ne m new t _ (λ e. apart (sym e)) ∙ at in
      let end : final (a ∷ rs) ≡ some t = elim last [ inl gone ↦ cc | inr e ↦ e ] in
      let m' = put filled t (record n { next = some new }) in
      rw (there, load)
        (
          refl,
          (
            (a ∷ rs) ++ (new ∷ []),
            record {
              chain =
                  IsChain-append m (a ∷ rs) (y ∷ ys) t new n (packet seq now) st.chain free end at;
              head = st.head;
              tail = (
                holding (packet seq now) none,
                put_ne filled t new _ apart ∙ put_self m new (holding (packet seq now) none),
                refl,
                inr (final-append (a ∷ rs) new),
              );
              id = st.id;
              chunk_id = st.chunk_id;
              last_time = st.last_time;
              queue_size = ap (λ n. add32 n 1) st.queue_size;
              last_ack = st.last_ack;
              dup_ack_count = st.dup_ack_count;
            },
            λ b other far. (
              put_ne filled t b _ (λ e. far.0 (sym e)) ∙ put_ne m new b _ (λ e. other.0 (sym e)),
              (other.0, NotIn-append b new (a ∷ rs) far.1 other.0),
            ),
          ),
        )

pub wait_ack_mem-Agrees :
    (seq : ℕ) (timeout : Bool) (now new : ℕ) (m : Heap) (s : Slot) (u : Upload) (nodes : List ℕ)
    → m new ≡ none
    → IsStored m s u nodes
    → Agrees
        (Simulates m s nodes (new ∷ []))
        (wait_ack_mem seq timeout now new m s)
        (done (await u seq timeout now))
unfolding wait_ack_mem await
wait_ack_mem-Agrees seq true now new m s u nodes free st =
    Agrees-eq (Simulates m s nodes (new ∷ [])) (renew_at now m s s.head)
      (renew_at now m s (first nodes)) (done (record u { queue = renew_head now u.queue }, 0))
      (ap (renew_at now m s) st.head) (renew_at-Agrees now m s u nodes (new ∷ []) u.queue st)
wait_ack_mem-Agrees seq false now new m s u nodes free st =
    let filled = put m new (holding (packet seq now) none) in
    Agrees-eq (Simulates m s nodes (new ∷ [])) (enqueue_at new filled s s.head s.tail)
      (enqueue_at new filled s (first nodes) s.tail) (done (enqueued u u.queue u.tail seq now, 1))
      (ap (λ h. enqueue_at new filled s h s.tail) st.head)
      (enqueue_at-Agrees m seq now new free s u nodes u.queue s.tail u.tail st)

-- The tail can be freed, whether or not it is in the queue.
release_tail-done :
    (m : Heap) (t seq : Option ℕ) (nodes : List ℕ)
    → IsTail m t seq nodes
    → (m' : Heap) × (release_tail m t ≡ done m')
      × ((b : ℕ) → NotIn b (footprint t nodes) → m' b ≡ m b)
release_tail-done m none none nodes h = (m, refl, λ b far. refl)
release_tail-done m none (some seq) nodes h = absurd h
release_tail-done m (some t) none nodes h = absurd h
release_tail-done m (some t) (some seq) nodes (n, at, _, _) =
    (erase m t, rw (at, load), λ b far. erase_ne m t b (λ e. far.0 (sym e)))

pub abort_upload_mem-Agrees :
    (m : Heap) (s : Slot) (u : Upload) (nodes : List ℕ)
    → IsStored m s u nodes
    → Agrees
        (Simulates m s nodes [])
        (abort_upload_mem m s)
        (done (record u { id = id_null; queue = []; tail = none }, 1))
unfolding abort_upload_mem
abort_upload_mem-Agrees m s u nodes st =
    let (m', e, outside) = release_tail-done m s.tail u.tail nodes st.tail in
    rw e (
      refl,
      (
        [],
        record {
          chain = tt;
          head = refl;
          tail = refl;
          id = refl;
          chunk_id = st.chunk_id;
          last_time = st.last_time;
          queue_size = st.queue_size;
          last_ack = st.last_ack;
          dup_ack_count = st.dup_ack_count;
        },
        λ b _ far. (outside b far, tt),
      ),
    )

tail_seq_at-done :
    (m : Heap) (t seq : Option ℕ) (nodes : List ℕ)
    → IsTail m t seq nodes
    → tail_seq_at m t ≡ done (tail_seq seq)
unfolding tail_seq_at
tail_seq_at-done m none none nodes h = refl
tail_seq_at-done m none (some seq) nodes h = absurd h
tail_seq_at-done m (some t) none nodes h = absurd h
tail_seq_at-done m (some t) (some seq) nodes (n, at, e, _) = rw (at, load) (ap done e)

pub get_tail_seq_number_mem-done :
    (m : Heap) (s : Slot) (u : Upload) (nodes : List ℕ)
    → IsStored m s u nodes
    → get_tail_seq_number_mem m s ≡ done (tail_seq u.tail)
unfolding get_tail_seq_number_mem
get_tail_seq_number_mem-done m s u nodes st = tail_seq_at-done m s.tail u.tail nodes st.tail
