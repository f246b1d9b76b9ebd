-- ===== src/Tracker/Send/Nodes/Drop.antt =====
-- keep_track.c, the loop of `receive_ack`: it frees what it drops from the chain but the last node.
use bittorrent_with_congesti.Base.{
  ℕ, zero, suc, ◌<◌, ◌≡◌, refl, sym, ◌∙◌, arith, Option, none, some, List, [], ◌∷◌, length, leb,
  ◌==◌, if◌then◌else◌, add32, Bool-cases, ◌⊎◌, inl, inr, Outcome, done, crash, ◌>>=◌,
}
use mathlib.Core.Path.{subst}
use bittorrent_with_congesti.Tracker.{SentPacket, Timers}
use bittorrent_with_congesti.Tracker.Send.{Smoothing, infer_rtt, drop_acked}
use bittorrent_with_congesti.Tracker.Send.Nodes.{
  Heap, load, erase, SentNode, free_next, drop_acked_mem,
}
use bittorrent_with_congesti.Tracker.Send.Nodes.Chain.{
  NotIn, first, final, holding, IsChain, erase_ne, erase-AgreeAt, IsChain-AgreeAt, final-NotIn,
}

-- Two results agree: both are there, and related, or the same has gone wrong.
abbrev pub Agrees : {A B : Type 0} → (A → B → Type 0) → Outcome A → Outcome B → Type 0
Agrees R (done a) (done b) = R a b
Agrees R (crash c) (crash d) = c ≡ d
Agrees R (done a) (crash d) = ⊥
Agrees R (crash c) (done b) = ⊥

module _ {A B : Type 0} where
  pub Agrees-map :
      {R S : A → B → Type 0} (o : Outcome A) (o' : Outcome B)
      → ((a : A) (b : B) → R a b → S a b)
      → Agrees R o o'
      → Agrees S o o'
  Agrees-map (done a) (done b) f h = f a b h
  Agrees-map (crash c) (crash d) f h = h
  Agrees-map (done a) (crash d) f h = absurd h
  Agrees-map (crash c) (done b) f h = absurd h

pub Agrees-eq :
    {A B : Type 0} (R : A → B → Type 0) (o o₁ : Outcome A) (o' : Outcome B)
    → o ≡ o₁
    → Agrees R o₁ o'
    → Agrees R o o'
Agrees-eq R o o₁ o' e h = subst (λ x. Agrees R x o') (sym e) h

pub Agrees-then :
    {A B C D : Type 0} (R : A → B → Type 0) (S : C → D → Type 0) (o : Outcome A) (o' : Outcome B)
    (f : A → Outcome C) (g : B → Outcome D)
    → Agrees R o o'
    → ((a : A) (b : B) → R a b → Agrees S (f a) (g b))
    → Agrees S (o >>= f) (o' >>= g)
Agrees-then R S (done a) (done b) f g h k = k a b h
Agrees-then R S (crash c) (crash d) f g h k = h
Agrees-then R S (done a) (crash d) f g h k = absurd h
Agrees-then R S (crash c) (done b) f g h k = absurd h

pub Agrees-steps :
    {A B C D : Type 0} (R : A → B → Type 0) (S : C → D → Type 0) (o : Outcome A) (o' : Outcome B)
    (f : A → Outcome C) (g : B → Outcome D)
    → Agrees R o o'
    → ((a : A) (b : B) → o ≡ done a → o' ≡ done b → R a b → Agrees S (f a) (g b))
    → Agrees S (o >>= f) (o' >>= g)
Agrees-steps R S (done a) (done b) f g h k = k a b refl refl h
Agrees-steps R S (crash c) (crash d) f g h k = h
Agrees-steps R S (done a) (crash d) f g h k = absurd h
Agrees-steps R S (crash c) (done b) f g h k = absurd h

pub Agrees-bind :
    {A B C : Type 0} (R : A → B → Type 0) (o : Outcome C) (f : C → Outcome A) (g : C → Outcome B)
    → ((c : C) → Agrees R (f c) (g c))
    → Agrees R (o >>= f) (o >>= g)
Agrees-bind R (done c) f g h = h c
Agrees-bind R (crash e) f g h = refl

-- What the loop leaves of a chain: another chain, which is empty or ends with the same node. That
-- node stays allocated and as it is, and so does what is not of the chain.
abbrev pub Dropped :
    (m : Heap) (nodes : List ℕ)
    → Timers × ℕ × Heap × Option ℕ
    → Timers × ℕ × List SentPacket
    → Type 0
Dropped m nodes (tm, count, m', head) (tm', count', q') =
    (tm ≡ tm')
    × (count ≡ count')
    × (nodes' : List ℕ) × (head ≡ first nodes')
    × IsChain m' nodes' q'
    × ((nodes' ≡ []) ⊎ (final nodes' ≡ final nodes))
    × ((t : ℕ) → final nodes ≡ some t → m' t ≡ m t)
    × ((b : ℕ) → NotIn b nodes → (m' b ≡ m b) × NotIn b nodes')

-- One node more in front, which has been freed.
Dropped-cons :
    (m : Heap) (a b : ℕ) (bs : List ℕ) (r : Timers × ℕ × Heap × Option ℕ)
    (r' : Timers × ℕ × List SentPacket)
    → NotIn a (b ∷ bs)
    → Dropped (erase m a) (b ∷ bs) r r'
    → Dropped m (a ∷ b ∷ bs) r r'
Dropped-cons m a b bs r r' distinct (e, f, nodes', h, chain, last, kept, outside) = (
  e,
  f,
  nodes',
  h,
  chain,
  last,
  λ t at. kept t at ∙ erase_ne m a t (final-NotIn a t (b ∷ bs) distinct at),
  λ c far.
      let (left, out) = outside c far.1 in (left ∙ erase_ne m a c (λ same. far.0 (sym same)), out),
)

pub final-none : (nodes : List ℕ) → (nodes ≡ []) ⊎ (final nodes ≡ none) → nodes ≡ []
final-none nodes (inl e) = e
final-none [] (inr e) = refl
final-none (a ∷ []) (inr e) = cc
final-none (a ∷ b ∷ bs) (inr e) = let none_left = final-none (b ∷ bs) (inr e) in cc

-- The last node is dropped, and stays allocated.
Dropped-last :
    (m : Heap) (a : ℕ) (r : Timers × ℕ × Heap × Option ℕ) (r' : Timers × ℕ × List SentPacket)
    → Dropped m [] r r'
    → Dropped m (a ∷ []) r r'
Dropped-last m a r r' (e, f, nodes', h, chain, last, kept, outside) = (
  e,
  f,
  nodes',
  h,
  chain,
  inl (final-none nodes' last),
  λ t at. (outside t tt).0,
  λ c far. outside c tt,
)

-- A node that is dropped is freed if it is not the last, and the loop goes on behind it.
free_next-Agrees :
    (m : Heap) (a : ℕ) (n : SentNode) (rs : List ℕ) (xs : List SentPacket)
    (k : Heap → Outcome (Timers × ℕ × Heap × Option ℕ)) (o : Outcome (Timers × ℕ × List SentPacket))
    → m a ≡ some n
    → NotIn a rs
    → IsChain m rs xs
    → ((m' : Heap) → IsChain m' rs xs → Agrees (Dropped m' rs) (k m') o)
    → Agrees (Dropped m (a ∷ rs)) (free_next m a (first rs) >>= k) o
unfolding free_next
free_next-Agrees m a n [] xs k o at distinct h ih = Agrees-map (k m) o (Dropped-last m a) (ih m h)
free_next-Agrees m a n (b ∷ bs) xs k o at distinct h ih =
    rw (at, load)
      (Agrees-map (k (erase m a)) o (λ r r'. Dropped-cons m a b bs r r' distinct)
        (ih (erase m a)
          (IsChain-AgreeAt m (erase m a) (b ∷ bs) xs (erase-AgreeAt m a (b ∷ bs) distinct) h)))

pub drop_acked_mem-Agrees :
    (fuel : ℕ) (sm : Smoothing) (sampled seq : ℕ) (tm : Timers) (count : ℕ) (m : Heap)
    (nodes : List ℕ) (q : List SentPacket)
    → IsChain m nodes q
    → length q < fuel
    → Agrees
        (Dropped m nodes)
        (drop_acked_mem fuel sm sampled seq tm count m (first nodes))
        (drop_acked sm sampled seq tm count q)
unfolding drop_acked_mem drop_acked
drop_acked_mem-Agrees zero sm sampled seq tm count m nodes q h enough = absurd (omega arith)
drop_acked_mem-Agrees (suc fuel) sm sampled seq tm count m [] [] h enough =
    (refl, refl, [], refl, tt, inl refl, λ t at. refl, λ b far. (refl, tt))
drop_acked_mem-Agrees (suc fuel) sm sampled seq tm count m [] (x ∷ xs) h enough = absurd h
drop_acked_mem-Agrees (suc fuel) sm sampled seq tm count m (a ∷ rs) [] h enough = absurd h
drop_acked_mem-Agrees (suc fuel) sm sampled seq tm count m (a ∷ rs) (x ∷ xs) (at, distinct, h)
      enough =
    rw (at, load)
      (elim (Bool-cases (leb x.seq seq)) [
        | inr stays ↦ rw stays (
          refl,
          refl,
          a ∷ rs,
          refl,
          (at, distinct, h),
          inr refl,
          λ t l. refl,
          λ b far. (refl, far),
        )
        | inl goes ↦ rw goes (
            Agrees-bind (Dropped m (a ∷ rs))
              (if x.seq == seq then infer_rtt sm tm sampled x.timestamp else done tm)
              (λ tm'. free_next m a (first rs) >>= λ m'.
                drop_acked_mem fuel sm sampled seq tm' (add32 count 1) m' (first rs))
              (λ tm'. drop_acked sm sampled seq tm' (add32 count 1) xs)
              (λ tm'.
                free_next-Agrees m a (holding x (first rs)) rs xs
                  (λ m'. drop_acked_mem fuel sm sampled seq tm' (add32 count 1) m' (first rs))
                  (drop_acked sm sampled seq tm' (add32 count 1) xs) at distinct h
                  (λ m' h'.
                    drop_acked_mem-Agrees fuel sm sampled seq tm' (add32 count 1) m' rs xs h'
                      (omega arith))))
      ])
