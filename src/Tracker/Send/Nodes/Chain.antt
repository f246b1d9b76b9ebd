-- ===== src/Tracker/Send/Nodes/Chain.antt =====
-- keep_track.c: a chain of nodes in memory, and what writes and frees elsewhere leave of it.
use bittorrent_with_congesti.Base.{
  ℕ, ◌≡◌, ◌≢◌, refl, sym, ap, ◌∙◌, arith, Option, none, some, List, [], ◌∷◌, ◌++◌,
}
use mathlib.Core.Option.{some-injective}
use bittorrent_with_congesti.Tracker.{SentPacket}
use bittorrent_with_congesti.Tracker.Send.Nodes.{SentNode, Heap, put, erase}

abbrev pub NotIn : ℕ → List ℕ → Type 0
NotIn a [] = Unit
NotIn a (b ∷ bs) = (a ≢ b) × NotIn a bs

abbrev pub first : List ℕ → Option ℕ
first [] = none
first (a ∷ rs) = some a

abbrev pub final : List ℕ → Option ℕ
final [] = none
final (a ∷ []) = some a
final (a ∷ b ∷ bs) = final (b ∷ bs)

abbrev pub holding : SentPacket → Option ℕ → SentNode
holding x next = record { seq = x.seq; timestamp = x.timestamp; next = next }

-- The nodes at these addresses, all different, hold these packets, each node points at the next, and
-- the last one at none.
abbrev pub IsChain : Heap → (nodes : List ℕ) → List SentPacket → Type 0
IsChain m [] [] = Unit
IsChain m [] (x ∷ xs) = ⊥
IsChain m (a ∷ rs) [] = ⊥
IsChain m (a ∷ rs) (x ∷ xs) = (m a ≡ some (holding x (first rs))) × NotIn a rs × IsChain m rs xs

-- Two memories agree at these addresses.
abbrev pub AgreeAt : List ℕ → (m m' : Heap) → Type 0
AgreeAt [] m m' = Unit
AgreeAt (a ∷ rs) m m' = (m' a ≡ m a) × AgreeAt rs m m'

pub put_self : (m : Heap) (a : ℕ) (n : SentNode) → put m a n a ≡ some n
put_self m a n = ground arith

pub put_ne : (m : Heap) (a b : ℕ) (n : SentNode) → a ≢ b → put m a n b ≡ m b
put_ne m a b n ne = ground arith

pub erase_ne : (m : Heap) (a b : ℕ) → a ≢ b → erase m a b ≡ m b
erase_ne m a b ne = ground arith

pub put-AgreeAt :
    (m : Heap) (a : ℕ) (n : SentNode) (nodes : List ℕ) → NotIn a nodes → AgreeAt nodes m (put m a n)
put-AgreeAt m a n [] h = tt
put-AgreeAt m a n (b ∷ bs) h = (put_ne m a b n h.0, put-AgreeAt m a n bs h.1)

pub erase-AgreeAt :
    (m : Heap) (a : ℕ) (nodes : List ℕ) → NotIn a nodes → AgreeAt nodes m (erase m a)
erase-AgreeAt m a [] h = tt
erase-AgreeAt m a (b ∷ bs) h = (erase_ne m a b h.0, erase-AgreeAt m a bs h.1)

pub IsChain-AgreeAt :
    (m m' : Heap) (nodes : List ℕ) (q : List SentPacket)
    → AgreeAt nodes m m'
    → IsChain m nodes q
    → IsChain m' nodes q
IsChain-AgreeAt m m' [] [] g h = tt
IsChain-AgreeAt m m' [] (x ∷ xs) g h = absurd h
IsChain-AgreeAt m m' (a ∷ rs) [] g h = absurd h
IsChain-AgreeAt m m' (a ∷ rs) (x ∷ xs) g (at, new, h) =
    (g.0 ∙ at, new, IsChain-AgreeAt m m' rs xs g.1 h)

-- An address that is free is none of the chain's.
pub IsChain-NotIn :
    (m : Heap) (new : ℕ) (nodes : List ℕ) (q : List SentPacket)
    → m new ≡ none
    → IsChain m nodes q
    → NotIn new nodes
IsChain-NotIn m new [] [] free h = tt
IsChain-NotIn m new [] (x ∷ xs) free h = tt
IsChain-NotIn m new (a ∷ rs) [] free h = absurd h
IsChain-NotIn m new (a ∷ rs) (x ∷ xs) free (at, _, h) =
    (λ e. let held : m new ≡ _ = ap m e ∙ at in cc, IsChain-NotIn m new rs xs free h)

pub NotIn-append :
    (a new : ℕ) (nodes : List ℕ) → NotIn a nodes → a ≢ new → NotIn a (nodes ++ (new ∷ []))
NotIn-append a new [] h ne = (ne, tt)
NotIn-append a new (b ∷ bs) h ne = (h.0, NotIn-append a new bs h.1 ne)

pub final-append : (nodes : List ℕ) (new : ℕ) → final (nodes ++ (new ∷ [])) ≡ some new
final-append [] new = refl
final-append (a ∷ []) new = refl
final-append (a ∷ b ∷ bs) new = final-append (b ∷ bs) new

pub final-NotIn : (a t : ℕ) (nodes : List ℕ) → NotIn a nodes → final nodes ≡ some t → a ≢ t
final-NotIn a t [] h e = cc
final-NotIn a t (b ∷ []) h e = λ same. h.0 (same ∙ sym (some-injective _ _ e))
final-NotIn a t (b ∷ c ∷ bs) h e = final-NotIn a t (c ∷ bs) h.1 e

-- A chain that is not empty gets a node behind its last one.
pub IsChain-append :
    (m : Heap) (nodes : List ℕ) (q : List SentPacket) (t new : ℕ) (n : SentNode) (x : SentPacket)
    → IsChain m nodes q
    → m new ≡ none
    → final nodes ≡ some t
    → m t ≡ some n
    → IsChain
        (put (put m new (holding x none)) t (record n { next = some new }))
        (nodes ++ (new ∷ []))
        (q ++ (x ∷ []))
IsChain-append m [] [] t new n x h free last at = cc
IsChain-append m [] (y ∷ ys) t new n x h free last at = absurd h
IsChain-append m (a ∷ rs) [] t new n x h free last at = absurd h
IsChain-append m (a ∷ []) (y ∷ []) t new n x (there, _, h) free last at =
    let same : a ≡ t = some-injective _ _ last in
    let other : t ≢ new = λ e. let held : m new ≡ _ = ap m (sym e) ∙ at in cc in
    let whole : n ≡ holding y none = some-injective _ _ (sym at ∙ ap m (sym same) ∙ there) in
    let m₁ = put m new (holding x none) in
    (
      ap (put m₁ t (record n { next = some new })) same
          ∙ put_self m₁ t (record n { next = some new })
          ∙ ap (λ (k : SentNode). some (record k { next = some new })) whole,
      (λ e. other (sym same ∙ e), tt),
      (put_ne m₁ t new _ other ∙ put_self m new (holding x none), tt, tt),
    )
IsChain-append m (a ∷ []) (y ∷ z ∷ zs) t new n x (there, _, h) free last at = absurd h
IsChain-append m (a ∷ b ∷ bs) (y ∷ ys) t new n x (there, distinct, h) free last at =
    let m₁ = put m new (holding x none) in
    let apart : a ≢ new = λ e. let held : m new ≡ _ = ap m (sym e) ∙ there in cc in
    let before : a ≢ t = final-NotIn a t (b ∷ bs) distinct last in
    (
      put_ne m₁ t a _ (λ e. before (sym e)) ∙ put_ne m new a _ (λ e. apart (sym e)) ∙ there,
      NotIn-append a new (b ∷ bs) distinct apart,
      IsChain-append m (b ∷ bs) ys t new n x h free last at,
    )
