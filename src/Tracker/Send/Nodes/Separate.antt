-- ===== src/Tracker/Send/Nodes/Separate.antt =====
-- keep_track.c: the queues of two streams in one memory, and what `abort_upload` leaves in it.
use bittorrent_with_congesti.Base.{
  ℕ, ◌+◌, ◌<◌, ◌≡◌, ◌≢◌, refl, sym, ◌∙◌, Option, none, some, List, [], ◌∷◌, length, Outcome, done,
  crash, ◌⊎◌, inl, inr,
}
use mathlib.Core.Path.{subst}
use bittorrent_with_congesti.Tracker.{id_null, SentPacket, Timers, Upload}
use bittorrent_with_congesti.Tracker.Send.{Smoothing}
use bittorrent_with_congesti.Tracker.Send.Nodes.{
  Heap, SentNode, Slot, load, erase, release_tail, abort_upload_mem,
}
use bittorrent_with_congesti.Tracker.Send.Nodes.Chain.{
  NotIn, final, IsChain, AgreeAt, IsChain-AgreeAt, erase_ne, final-NotIn,
}
use bittorrent_with_congesti.Tracker.Send.Nodes.Drop.{Agrees}
use bittorrent_with_congesti.Tracker.Send.Nodes.Stored.{IsTail, IsStored, footprint}
use bittorrent_with_congesti.Tracker.Send.Nodes.Calls.{Call, run_mem, run_list, AreFresh}
use bittorrent_with_congesti.Tracker.Send.Nodes.Refine.{Ran, run_mem-Agrees}

-- All of these addresses are different from all of those.
abbrev pub AreApart : List ℕ → List ℕ → Type 0
AreApart [] bs = Unit
AreApart (a ∷ rs) bs = NotIn a bs × AreApart rs bs

-- What is allocated outside of `others` stays as it is.
abbrev Keeps : (m m' : Heap) (others : List ℕ) → Type 0
Keeps m m' others = (b : ℕ) (n : SentNode) → m b ≡ some n → NotIn b others → m' b ≡ some n

Keeps-AgreeAt :
    (m m' : Heap) (others nodes : List ℕ) (q : List SentPacket)
    → Keeps m m' others
    → IsChain m nodes q
    → AreApart nodes others
    → AgreeAt nodes m m'
Keeps-AgreeAt m m' others [] q keeps h apart = tt
Keeps-AgreeAt m m' others (a ∷ rs) [] keeps h apart = absurd h
Keeps-AgreeAt m m' others (a ∷ rs) (x ∷ xs) keeps (at, _, h) apart =
    (keeps a _ at apart.0 ∙ sym at, Keeps-AgreeAt m m' others rs xs keeps h apart.1)

AreApart-footprint :
    (t : Option ℕ) (nodes others : List ℕ)
    → AreApart (footprint t nodes) others
    → AreApart nodes others
AreApart-footprint none nodes others h = h
AreApart-footprint (some t) nodes others h = h.1

Keeps-IsTail :
    (m m' : Heap) (others nodes : List ℕ) (t seq : Option ℕ)
    → Keeps m m' others
    → AreApart (footprint t nodes) others
    → IsTail m t seq nodes
    → IsTail m' t seq nodes
Keeps-IsTail m m' others nodes none none keeps apart h = h
Keeps-IsTail m m' others nodes none (some seq) keeps apart h = absurd h
Keeps-IsTail m m' others nodes (some t) none keeps apart h = absurd h
Keeps-IsTail m m' others nodes (some t) (some seq) keeps apart (n, at, e, last) =
    (n, keeps t n at apart.0, e, last)

Keeps-IsStored :
    (m m' : Heap) (others : List ℕ) (s : Slot) (u : Upload) (nodes : List ℕ)
    → Keeps m m' others
    → AreApart (footprint s.tail nodes) others
    → IsStored m s u nodes
    → IsStored m' s u nodes
Keeps-IsStored m m' others s u nodes keeps apart st = record {
  chain =
      IsChain-AgreeAt m m' nodes u.queue
        (Keeps-AgreeAt m m' others nodes u.queue keeps st.chain
          (AreApart-footprint s.tail nodes others apart))
        st.chain;
  head = st.head;
  tail = Keeps-IsTail m m' others nodes s.tail u.tail keeps apart st.tail;
  id = st.id;
  chunk_id = st.chunk_id;
  last_time = st.last_time;
  queue_size = st.queue_size;
  last_ack = st.last_ack;
  dup_ack_count = st.dup_ack_count;
}

Keeps-Agrees :
    (m : Heap) (s : Slot) (nodes : List ℕ) (o : Outcome (Timers × Heap × Slot × List ℕ))
    (o' : Outcome (Timers × Upload × List ℕ)) {tm' : Timers} {m' : Heap} {s' : Slot} {ns : List ℕ}
    → o ≡ done (tm', m', s', ns)
    → Agrees (Ran m s nodes) o o'
    → Keeps m m' (footprint s.tail nodes)
Keeps-Agrees m s nodes o (crash c) e h =
    absurd (subst (λ x. Agrees (Ran m s nodes) x (crash c)) e h)
Keeps-Agrees m s nodes o (done b) e h = (subst (λ x. Agrees (Ran m s nodes) x (done b)) e h).4

-- Two streams have their queues stored in one memory, in nodes and tails that they do not share. In
-- any calls on the first one `malloc` returns addresses that are not allocated, and the fuel is
-- more than its packets queued and the calls. If the calls do not end the process, the queue of the
-- second stream is still stored after them, in the same nodes.
pub run_mem-separate :
    (fuel : ℕ) (sm : Smoothing) (cs : List Call) (tm : Timers) (m : Heap) (s s₂ : Slot)
    (u u₂ : Upload) (nodes nodes₂ : List ℕ)
    → IsStored m s u nodes
    → IsStored m s₂ u₂ nodes₂
    → AreApart (footprint s₂.tail nodes₂) (footprint s.tail nodes)
    → AreFresh fuel sm cs tm m s
    → length u.queue + length cs < fuel
    → {tm' : Timers} {m' : Heap} {s' : Slot} {ns : List ℕ}
    → run_mem fuel sm cs tm m s ≡ done (tm', m', s', ns)
    → IsStored m' s₂ u₂ nodes₂
run_mem-separate fuel sm cs tm m s s₂ u u₂ nodes nodes₂ st st₂ apart fresh enough {m' = m'} e =
    Keeps-IsStored m m' (footprint s.tail nodes) s₂ u₂ nodes₂
      (Keeps-Agrees m s nodes (run_mem fuel sm cs tm m s) (run_list sm cs tm u) e
        (run_mem-Agrees fuel sm cs tm m s u nodes st fresh enough))
      apart st₂

-- The nodes of a chain but the last one.
abbrev pub before_last : List ℕ → List ℕ
before_last [] = []
before_last (a ∷ []) = []
before_last (a ∷ b ∷ bs) = a ∷ before_last (b ∷ bs)

-- These nodes are allocated.
abbrev pub AreAllocated : List ℕ → Heap → Type 0
AreAllocated [] m = Unit
AreAllocated (a ∷ rs) m = (m a ≢ none) × AreAllocated rs m

allocated : (m : Heap) (a : ℕ) {n : SentNode} → m a ≡ some n → m a ≢ none
allocated m a at = λ e. let same : some _ ≡ none = sym at ∙ e in cc

erase-AreAllocated :
    (m : Heap) (t : ℕ) (nodes : List ℕ) (q : List SentPacket)
    → IsChain m nodes q
    → (nodes ≡ []) ⊎ (final nodes ≡ some t)
    → AreAllocated (before_last nodes) (erase m t)
erase-AreAllocated m t [] q h last = tt
erase-AreAllocated m t (a ∷ []) q h last = tt
erase-AreAllocated m t (a ∷ b ∷ bs) [] h last = absurd h
erase-AreAllocated m t (a ∷ b ∷ bs) (x ∷ xs) h (inl gone) = cc
erase-AreAllocated m t (a ∷ b ∷ bs) (x ∷ xs) (at, distinct, h) (inr end) =
    let other = final-NotIn a t (b ∷ bs) distinct end in
    (
      allocated (erase m t) a (erase_ne m t a (λ e. other (sym e)) ∙ at),
      erase-AreAllocated m t (b ∷ bs) xs h (inr end),
    )

release_tail-AreAllocated :
    (m : Heap) (t seq : Option ℕ) (nodes : List ℕ) (q : List SentPacket)
    → IsChain m nodes q
    → IsTail m t seq nodes
    → (m' : Heap) × (release_tail m t ≡ done m') × AreAllocated (before_last nodes) m'
release_tail-AreAllocated m none none nodes q h empty =
    (m, refl, subst (λ rs. AreAllocated (before_last rs) m) (sym empty) tt)
release_tail-AreAllocated m none (some seq) nodes q h tail = absurd tail
release_tail-AreAllocated m (some t) none nodes q h tail = absurd tail
release_tail-AreAllocated m (some t) (some seq) nodes q h (n, at, _, last) =
    (erase m t, rw (at, load), erase-AreAllocated m t nodes q h last)

-- The queue of a stream is stored in memory. abort_upload frees its last node at most: all nodes
-- before the last one are still allocated when the stream has neither a head nor a tail any more.
pub abort_upload_mem-leak :
    (m : Heap) (s : Slot) (u : Upload) (nodes : List ℕ)
    → IsStored m s u nodes
    → (m' : Heap) × (abort_upload_mem m s
        ≡ done (m', record s { id = id_null; head = none; tail = none }, 1))
      × AreAllocated (before_last nodes) m'
unfolding abort_upload_mem
abort_upload_mem-leak m s u nodes st =
    let (m', e, left) = release_tail-AreAllocated m s.tail u.tail nodes u.queue st.chain st.tail in
    (m', rw e, left)
