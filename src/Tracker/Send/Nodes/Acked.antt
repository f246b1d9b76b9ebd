-- ===== src/Tracker/Send/Nodes/Acked.antt =====
-- keep_track.c: `receive_ack` on the nodes of a queue.
use bittorrent_with_congesti.Base.{
  ℕ, ◌≡◌, refl, sym, ap, ◌∙◌, Option, none, some, List, [], ◌∷◌, length, leb, ◌==◌, add32, sub32,
  sub64, to_ulong, ◌<◌, Bool-cases, ◌⊎◌, inl, inr, done,
}
use mathlib.Core.Path.{subst, ap₂}
use bittorrent_with_congesti.Tracker.{SentPacket, Timers, Upload}
use bittorrent_with_congesti.Tracker.Send.{
  Smoothing, drop_acked, fast_retransmit, count_duplicate, acknowledge,
}
use bittorrent_with_congesti.Tracker.Send.Nodes.{
  Heap, Slot, load, drop_acked_mem, fast_retransmit_mem, count_duplicate_mem, receive_ack_mem,
}
use bittorrent_with_congesti.Tracker.Send.Nodes.Chain.{
  NotIn, first, final, holding, IsChain, put_ne,
}
use bittorrent_with_congesti.Tracker.Send.Nodes.Drop.{
  Agrees, Agrees-eq, Dropped, drop_acked_mem-Agrees,
}
use bittorrent_with_congesti.Tracker.Send.Nodes.Drop.{Agrees-then, final-none}
use bittorrent_with_congesti.Tracker.Send.Nodes.Stored.{
  IsTail, IsStored, IsKept, footprint, NotIn-footprint, touch-IsChain, touch-IsTail,
}

-- What the loop leaves still has the tail.
Dropped-IsTail :
    (m m' : Heap) (nodes nodes' : List ℕ) (t seq : Option ℕ)
    → (nodes' ≡ []) ⊎ (final nodes' ≡ final nodes)
    → ((t : ℕ) → final nodes ≡ some t → m' t ≡ m t)
    → ((b : ℕ) → NotIn b nodes → (m' b ≡ m b) × NotIn b nodes')
    → IsTail m t seq nodes
    → IsTail m' t seq nodes'
Dropped-IsTail m m' nodes nodes' none none last kept outside h =
    final-none nodes' (elim last [ inl e ↦ inl e | inr e ↦ inr (e ∙ ap final h) ])
Dropped-IsTail m m' nodes nodes' none (some seq) last kept outside h = absurd h
Dropped-IsTail m m' nodes nodes' (some t) none last kept outside h = absurd h
Dropped-IsTail m m' nodes nodes' (some t) (some seq) last kept outside (n, at, e, inr end) =
    (n, kept t end ∙ at, e, elim last [ inl gone ↦ inl gone | inr same ↦ inr (same ∙ end) ])
Dropped-IsTail m m' nodes nodes' (some t) (some seq) last kept outside (n, at, e, inl gone) = (
  n,
  (outside t (subst (NotIn t) (sym gone) tt)).0 ∙ at,
  e,
  inl (final-none nodes' (elim last [ inl f ↦ inl f | inr f ↦ inr (f ∙ ap final gone) ])),
)

footprint-NotIn :
    (b : ℕ) (t : Option ℕ) (nodes nodes' : List ℕ)
    → NotIn b (footprint t nodes)
    → NotIn b nodes'
    → NotIn b (footprint t nodes')
footprint-NotIn b none nodes nodes' far out = out
footprint-NotIn b (some t) nodes nodes' far out = (far.0, out)

-- The nodes hold another queue, with the same tail, and the rest of the memory is as it was.
abbrev Rewritten : Heap → (nodes : List ℕ) → Heap → List SentPacket → Type 0
Rewritten m nodes m' q' =
    IsChain m' nodes q'
    × ((t seq : Option ℕ) → IsTail m t seq nodes → IsTail m' t seq nodes)
    × ((b : ℕ) → NotIn b nodes → m' b ≡ m b)

fast_retransmit_mem-Agrees :
    (tm : Timers) (seq : ℕ) (m : Heap) (nodes : List ℕ) (q : List SentPacket)
    → IsChain m nodes q
    → Agrees
        (Rewritten m nodes)
        (fast_retransmit_mem tm seq m (first nodes))
        (fast_retransmit tm seq q)
unfolding fast_retransmit_mem fast_retransmit
fast_retransmit_mem-Agrees tm seq m [] [] h = refl
fast_retransmit_mem-Agrees tm seq m [] (x ∷ xs) h = absurd h
fast_retransmit_mem-Agrees tm seq m (a ∷ rs) [] h = absurd h
fast_retransmit_mem-Agrees tm seq m (a ∷ rs) (x ∷ xs) h =
    let y : SentPacket = record x { timestamp = sub64 x.timestamp (to_ulong tm.rto) } in
    rw (h.0, load)
      (elim (Bool-cases (x.seq == add32 seq 1)) [
        | inl next ↦ rw next (
          touch-IsChain m x y a rs xs h,
          λ t number old. touch-IsTail m x y a rs t number (a ∷ rs) h.0 refl old,
          λ b far. put_ne m a b (holding y (first rs)) (λ e. far.0 (sym e)),
        )
        | inr other ↦ rw other refl
      ])

abbrev Counted : Heap → (nodes : List ℕ) → Heap × ℕ → List SentPacket × ℕ → Type 0
Counted m nodes (m', dups) (q', dups') = (dups ≡ dups') × Rewritten m nodes m' q'

count_duplicate_mem-Agrees :
    (tm : Timers) (s : Slot) (u : Upload) (seq : ℕ) (m : Heap) (nodes : List ℕ)
    (q : List SentPacket)
    → IsChain m nodes q
    → s.last_ack ≡ u.last_ack
    → s.dup_ack_count ≡ u.dup_ack_count
    → Agrees
        (Counted m nodes)
        (count_duplicate_mem tm s seq m (first nodes))
        (count_duplicate tm u seq q)
unfolding count_duplicate_mem count_duplicate
count_duplicate_mem-Agrees tm s u seq m nodes q h last dups =
    let same : Rewritten m nodes m q = (h, λ t number old. old, λ b far. refl) in
    rw (last, dups)
      (elim (Bool-cases (u.last_ack == seq)) [
        | inr fresh ↦ rw fresh (refl, same)
        | inl again ↦ rw again (elim (Bool-cases (leb 3 (add32 u.dup_ack_count 1))) [
          | inr few ↦ rw few (refl, same)
          | inl third ↦ rw third (
              Agrees-then (Rewritten m nodes) (Counted m nodes)
                (fast_retransmit_mem tm seq m (first nodes)) (fast_retransmit tm seq q)
                (λ m'. done (m', 0)) (λ q'. done (q', 0))
                (fast_retransmit_mem-Agrees tm seq m nodes q h) (λ m' q' r. (refl, r)))
        ])
      ])

-- The results of `receive_ack` on the nodes and on the list agree.
abbrev pub Acked :
    (m : Heap) (s : Slot) (nodes : List ℕ) → Timers × Heap × Slot × ℕ → Timers × Upload × ℕ → Type 0
Acked m s nodes (tm, m', s', count) (tm', u', count') =
    (tm ≡ tm') × (count ≡ count') × IsKept m s nodes [] m' s' u'

pub receive_ack_mem-Agrees :
    (fuel : ℕ) (sm : Smoothing) (tm : Timers) (seq sampled now : ℕ) (m : Heap) (s : Slot)
    (u : Upload) (nodes : List ℕ)
    → IsStored m s u nodes
    → length u.queue < fuel
    → Agrees
        (Acked m s nodes)
        (receive_ack_mem fuel sm tm seq sampled now m s)
        (acknowledge sm tm u seq sampled now)
unfolding receive_ack_mem acknowledge
receive_ack_mem-Agrees fuel sm tm seq sampled now m s u nodes st enough =
    Agrees-then (Dropped m nodes) (Acked m s nodes)
      (drop_acked_mem fuel sm sampled seq tm 0 m s.head) (drop_acked sm sampled seq tm 0 u.queue) _
      _
      (Agrees-eq (Dropped m nodes) (drop_acked_mem fuel sm sampled seq tm 0 m s.head)
        (drop_acked_mem fuel sm sampled seq tm 0 m (first nodes))
        (drop_acked sm sampled seq tm 0 u.queue)
        (ap (drop_acked_mem fuel sm sampled seq tm 0 m) st.head)
        (drop_acked_mem-Agrees fuel sm sampled seq tm 0 m nodes u.queue st.chain enough))
      λ (tm₁, count₁, m₁, head) (tm₂, count₂, q₁)
          (same, counted, nodes₁, at, chain, last, kept, outside).
        Agrees-then (Counted m₁ nodes₁) (Acked m s nodes) (count_duplicate_mem tm₁ s seq m₁ head)
          (count_duplicate tm₂ u seq q₁) _ _
          (Agrees-eq (Counted m₁ nodes₁) (count_duplicate_mem tm₁ s seq m₁ head)
            (count_duplicate_mem tm₂ s seq m₁ (first nodes₁)) (count_duplicate tm₂ u seq q₁)
            (ap₂ (λ t h. count_duplicate_mem t s seq m₁ h) same at)
            (count_duplicate_mem-Agrees tm₂ s u seq m₁ nodes₁ q₁ chain st.last_ack
              st.dup_ack_count))
          λ (m₂, dups) (q₂, dups') (e, (chain', tails, untouched)). (
            same,
            counted,
            (
              nodes₁,
              record {
                chain = chain';
                head = at;
                tail =
                    tails s.tail u.tail
                      (Dropped-IsTail m m₁ nodes nodes₁ s.tail u.tail last kept outside st.tail);
                id = st.id;
                chunk_id = st.chunk_id;
                last_time = refl;
                queue_size = ap₂ sub32 st.queue_size counted;
                last_ack = refl;
                dup_ack_count = e;
              },
              λ b _ far.
                  let (left, out) = outside b (NotIn-footprint b s.tail nodes far) in
                  (untouched b out ∙ left, footprint-NotIn b s.tail nodes nodes₁ far out),
            ),
          )
