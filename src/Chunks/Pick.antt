-- ===== src/Chunks/Pick.antt =====
-- util.c: the choice of the next chunk to ask for.
use bittorrent_with_congesti.Base.{
  ℕ, ◌≡◌, refl, ap, Option, none, some, List, [], ◌∷◌, ◌++◌, arith, Bool, true, false, ◌&&◌,
  Bool-cases, inl, inr, done,
}
use bittorrent_with_congesti.Chunks.{Chunk, receiving, is_not_started, pick}

module _ (offered : List ℕ → Bool) where
  abbrev pub is_eligible : Chunk → Bool
  is_eligible c = is_not_started c.state && offered c.hash

  abbrev pub NoneEligible : List Chunk → Type 0
  NoneEligible [] = Unit
  NoneEligible (c ∷ cs) = (is_eligible c ≡ false) × NoneEligible cs

  -- What a choice among chunks results in: nothing if none is eligible, else the first that is,
  -- marked, with the other chunks as they were.
  pub data Picks (cs : List Chunk) : Option Chunk → List Chunk → Type 0 where
    nothing : NoneEligible cs → Picks cs none cs
    first :
        (pre : List Chunk) (c : Chunk) (suf : List Chunk)
        → cs ≡ pre ++ (c ∷ suf)
        → NoneEligible pre
        → is_eligible c ≡ true
        → Picks cs
            (some (record c { state = receiving }))
            (pre ++ (record c { state = receiving } ∷ suf))

  Picks-cons :
      (c : Chunk) {cs cs' : List Chunk} {r : Option Chunk}
      → is_eligible c ≡ false
      → Picks cs r cs'
      → Picks (c ∷ cs) r (c ∷ cs')
  Picks-cons c not_c (nothing h) = nothing (not_c, h)
  Picks-cons c not_c (first pre d suf e h eligible) =
      first (c ∷ pre) d suf (ap (λ xs. c ∷ xs) e) (not_c, h) eligible

  pick-skip :
      (c : Chunk) (cs : List Chunk) {r : Option Chunk} {cs' : List Chunk}
      → is_eligible c ≡ false
      → pick (λ h. done (offered h)) cs ≡ done (r, cs')
      → pick (λ h. done (offered h)) (c ∷ cs) ≡ done (r, c ∷ cs')
  unfolding pick
  pick-skip c cs not_c e = ground arith

  pick-take :
      (c : Chunk) (cs : List Chunk)
      → is_eligible c ≡ true
      → pick (λ h. done (offered h)) (c ∷ cs)
        ≡ done (some (record c { state = receiving }), record c { state = receiving } ∷ cs)
  unfolding pick
  pick-take c cs yes_c = ground arith

  -- The loop over the chunks, if each test of what is offered has a result, picks the first chunk
  -- not started that is offered, marks it as being received and leaves the others as they were; if
  -- there is none, it picks none and changes nothing.
  pub pick-Picks :
      (cs : List Chunk)
      → (r : Option Chunk) × (cs' : List Chunk) × (pick (λ h. done (offered h)) cs ≡ done (r, cs'))
        × Picks cs r cs'
  pick-Picks [] = (none, [], unfold pick in refl, nothing tt)
  pick-Picks (c ∷ cs) = elim (Bool-cases (is_eligible c)) [
    | inl eligible ↦ (
      some (record c { state = receiving }),
      record c { state = receiving } ∷ cs,
      pick-take c cs eligible,
      first [] c cs refl tt eligible,
    )
    | inr not_c ↦
        let (r, cs', e, picks) = pick-Picks cs in
        (r, c ∷ cs', pick-skip c cs not_c e, Picks-cons c not_c picks)
  ]
