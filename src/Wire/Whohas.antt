-- ===== src/Wire/Whohas.antt =====
-- network.c: WHOHAS packets ask for all chunks not started, in order, at most 74 in a packet.
use mathlib.Core.List.{flatten}
use mathlib.Core.Path.{ap₂}
use bittorrent_with_congesti.Base.{
  ℕ, zero, suc, ◌+◌, ◌-◌, ◌*◌, ◌^◌, ◌%◌, ◌<◌, ◌≤◌, ◌≡◌, refl, ap, ◌∙◌, none, some, List, [], ◌∷◌,
  ◌++◌, map, arith, length, take, drop, if◌then◌else◌, ◌==◌, length-drop, length-take,
  take-append-drop, Bool-cases, inl, inr, ◌⊎◌,
}
use bittorrent_with_congesti.Chunks.{Chunk, Request, is_not_started}
use bittorrent_with_congesti.Wire.{chunk_per_packet, Packet}
use bittorrent_with_congesti.Wire.Build.{
  count_unfinished, packets_for, next_hashes, count_in, whohas_packet, fill_whohas, make_whohas,
}

-- the hashes of the chunks not started, in order
abbrev pub pending : List Chunk → List (List ℕ)
pending [] = []
pending (c ∷ cs) = if is_not_started c.state then c.hash ∷ pending cs else pending cs

drop-cases :
    (i : ℕ) (chunks : List Chunk)
    → (length chunks ≤ i) × (drop i chunks ≡ [])
      ⊎ ((c : Chunk) × (drop i chunks ≡ c ∷ drop (suc i) chunks) × (i < length chunks))
drop-cases zero [] = inl (omega arith, refl)
drop-cases zero (c ∷ cs) = inr (c, refl, omega arith)
drop-cases (suc i) [] = inl (omega arith, refl)
drop-cases (suc i) (c ∷ cs) = elim (drop-cases i cs) [
  | inl (le, e) ↦ inl (omega arith, e)
  | inr (d, e, lt) ↦ inr (d, e, omega arith)
]

module _ (fuel : ℕ) (chunks : List Chunk) (i count : ℕ) where
  count_unfinished-end :
      drop i chunks ≡ [] → count_unfinished (suc fuel) chunks i count ≡ some count
  unfolding count_unfinished
  count_unfinished-end e = rw (e, count_unfinished)

  count_unfinished-step :
      {c : Chunk} {cs : List Chunk}
      → drop i chunks ≡ c ∷ cs
      → count_unfinished (suc fuel) chunks i count
        ≡ count_unfinished fuel chunks
            ((i + 1) % 2 ^ 8)
            (if is_not_started c.state then count + 1 else count)
  unfolding count_unfinished
  count_unfinished-step e = rw (e, count_unfinished)

-- While no more than 255 chunks are listed the count ends, and is right.
count_unfinished-pending :
    (fuel : ℕ) (chunks : List Chunk) (i count : ℕ)
    → length chunks < 2 ^ 8
    → i ≤ length chunks
    → length chunks < fuel + i
    → count_unfinished fuel chunks i count ≡ some (count + length (pending (drop i chunks)))
count_unfinished-pending zero chunks i count small le enough = absurd (omega arith)
count_unfinished-pending (suc fuel) chunks i count small at enough = elim (drop-cases i chunks) [
  | inl (le, e) ↦ count_unfinished-end fuel chunks i count e ∙ rw e (ap some (omega arith))
  | inr (c, e, lt) ↦
      let next : (i + 1) % 2 ^ 8 ≡ suc i = omega arith in
      rw (count_unfinished-step fuel chunks i count e, next)
        (rw
          (
            count_unfinished-pending fuel chunks (suc i)
                (if is_not_started c.state then count + 1 else count) small lt (omega arith),
            e,
          )
          (ground arith))
]

-- From 256 chunks on it never does: the counter starts again before it reaches their number.
pub count_unfinished-never :
    (fuel : ℕ) (chunks : List Chunk) (i count : ℕ)
    → 2 ^ 8 ≤ length chunks
    → i < 2 ^ 8
    → count_unfinished fuel chunks i count ≡ none
count_unfinished-never zero chunks i count big lt = unfold count_unfinished in refl
count_unfinished-never (suc fuel) chunks i count big lt = elim (drop-cases i chunks) [
  | inl (le, e) ↦ absurd (omega arith)
  | inr (c, e, _) ↦
      count_unfinished-step fuel chunks i count e
      ∙ count_unfinished-never fuel chunks ((i + 1) % 2 ^ 8) _ big (omega arith)
]

next_hashes-pending :
    (k : ℕ) (chunks : List Chunk)
    → ((next_hashes k chunks).0 ≡ flatten (take k (pending chunks)))
      × (pending (next_hashes k chunks).1 ≡ drop k (pending chunks))
unfolding next_hashes flatten
next_hashes-pending zero chunks = (refl, refl)
next_hashes-pending (suc k) [] = (refl, refl)
next_hashes-pending (suc k) (c ∷ cs) = elim (Bool-cases (is_not_started c.state)) [
  | inl e ↦ rw e (
    ap (λ (hs : List ℕ). c.hash ++ hs) (next_hashes-pending k cs).0,
    (next_hashes-pending k cs).1,
  )
  | inr e ↦ rw e (next_hashes-pending (suc k) cs)
]

-- the first `n` groups of 74 of a list
abbrev groups : ℕ → List (List ℕ) → List (List (List ℕ))
groups zero hs = []
groups (suc n) hs = take chunk_per_packet hs ∷ groups n (drop chunk_per_packet hs)

-- a packet that asks for these hashes
abbrev pub asking : List (List ℕ) → Packet
asking hs = whohas_packet (length hs) (flatten hs)

-- Each group asks for something, and fits a packet.
abbrev pub AreGroups : List (List (List ℕ)) → Type 0
AreGroups [] = Unit
AreGroups (g ∷ gs) = (1 ≤ length g) × (length g ≤ chunk_per_packet) × AreGroups gs

flatten-groups :
    (n : ℕ) (hs : List (List ℕ)) → length hs ≤ n * chunk_per_packet → flatten (groups n hs) ≡ hs
unfolding flatten
flatten-groups zero [] le = refl
flatten-groups zero (h ∷ hs) le = absurd (omega arith)
flatten-groups (suc n) hs le =
    rw
      (flatten-groups n (drop chunk_per_packet hs) (omega (arith, length-drop chunk_per_packet hs)))
      (take-append-drop chunk_per_packet hs)

groups-AreGroups :
    (n : ℕ) (hs : List (List ℕ))
    → n * chunk_per_packet < length hs + chunk_per_packet
    → AreGroups (groups n hs)
groups-AreGroups zero hs lt = tt
groups-AreGroups (suc zero) hs lt = (
  omega (arith, length-take chunk_per_packet hs),
  omega (arith, length-take chunk_per_packet hs),
  tt,
)
groups-AreGroups (suc (suc n)) hs lt = (
  omega (arith, length-take chunk_per_packet hs),
  omega (arith, length-take chunk_per_packet hs),
  groups-AreGroups (suc n) (drop chunk_per_packet hs)
      (omega (arith, length-drop chunk_per_packet hs)),
)

take-length-take : (n : ℕ) (hs : List (List ℕ)) → take (length (take n hs)) hs ≡ take n hs
take-length-take zero hs = refl
take-length-take (suc n) [] = refl
take-length-take (suc n) (h ∷ hs) = ap (λ r. h ∷ r) (take-length-take n hs)

drop-length-take : (n : ℕ) (hs : List (List ℕ)) → drop (length (take n hs)) hs ≡ drop n hs
drop-length-take zero hs = refl
drop-length-take (suc n) [] = refl
drop-length-take (suc n) (h ∷ hs) = drop-length-take n hs

count_in-suc : (n unfinished : ℕ) → count_in (suc n) unfinished ≡ chunk_per_packet
unfolding count_in
count_in-suc n unfinished = ground arith

count_in-take :
    (n : ℕ) (hs : List (List ℕ))
    → suc n * chunk_per_packet < length hs + chunk_per_packet
    → length hs ≤ suc n * chunk_per_packet
    → count_in n (length hs) ≡ length (take chunk_per_packet hs)
unfolding count_in
count_in-take zero hs lo hi = omega (arith, length-take chunk_per_packet hs)
count_in-take (suc n) hs lo hi =
    omega (arith, count_in-suc n (length hs), length-take chunk_per_packet hs)

fill_whohas-step :
    (n unfinished k : ℕ) (chunks : List Chunk)
    → count_in n unfinished ≡ k
    → fill_whohas (suc n) unfinished chunks
      ≡ whohas_packet k (next_hashes k chunks).0
        ∷ fill_whohas n (unfinished - k) (next_hashes k chunks).1
unfolding fill_whohas
fill_whohas-step n unfinished k chunks e = rw e

fill_whohas-groups :
    (n : ℕ) (chunks : List Chunk)
    → n * chunk_per_packet < length (pending chunks) + chunk_per_packet
    → length (pending chunks) ≤ n * chunk_per_packet
    → fill_whohas n (length (pending chunks)) chunks ≡ map asking (groups n (pending chunks))
fill_whohas-groups zero chunks lo hi = unfold fill_whohas in refl
fill_whohas-groups (suc n) chunks lo hi =
    let hs = pending chunks in
    let k = length (take chunk_per_packet hs) in
    let (taken, later) = next_hashes-pending k chunks in
    let left : pending (next_hashes k chunks).1 ≡ drop chunk_per_packet hs =
      later ∙ drop-length-take chunk_per_packet hs in
    let count : length hs - k ≡ length (pending (next_hashes k chunks).1) =
      omega
        (arith, ap length left, length-take chunk_per_packet hs, length-drop chunk_per_packet hs) in
    fill_whohas-step n (length hs) k chunks (count_in-take n hs lo hi)
    ∙ ap₂ ◌∷◌ (ap (whohas_packet k) (taken ∙ ap flatten (take-length-take chunk_per_packet hs))) (
        ap (λ m. fill_whohas n m (next_hashes k chunks).1) count
        ∙ fill_whohas-groups n (next_hashes k chunks).1
            (omega (arith, ap length left, length-drop chunk_per_packet hs))
            (omega (arith, ap length left, length-drop chunk_per_packet hs))
        ∙ ap (λ r. map asking (groups n r)) left)

packets_for-bounds :
    (m : ℕ)
    → (packets_for m * chunk_per_packet < m + chunk_per_packet)
      × (m ≤ packets_for m * chunk_per_packet)
unfolding packets_for
packets_for-bounds m = elim (Bool-cases (m % chunk_per_packet == 0)) [
  | inl e ↦ rw e (ground arith, ground arith)
  | inr e ↦ rw e (ground arith, ground arith)
]

-- With at most 255 chunks in the request, and fuel for them, the packets get made: each asks for 1
-- to 74 hashes, and together they ask for the hashes of the chunks not started, each once and in
-- order.
pub make_whohas-asking :
    (fuel : ℕ) (r : Request)
    → length r.chunks < 2 ^ 8
    → length r.chunks < fuel
    → (gs : List (List (List ℕ))) × (make_whohas fuel r ≡ some (map asking gs))
      × (flatten gs ≡ pending r.chunks)
      × AreGroups gs
unfolding make_whohas
make_whohas-asking fuel r small enough =
    let hs = pending r.chunks in
    let (lo, hi) = packets_for-bounds (length hs) in
    let counted : count_unfinished fuel r.chunks 0 0 ≡ some (length hs) =
      count_unfinished-pending fuel r.chunks 0 0 small (omega arith) (omega arith)
      ∙ ap some (omega arith) in
    (
      groups (packets_for (length hs)) hs,
      rw (counted, make_whohas)
          (ap some (fill_whohas-groups (packets_for (length hs)) r.chunks lo hi)),
      flatten-groups (packets_for (length hs)) hs hi,
      groups-AreGroups (packets_for (length hs)) hs lo,
    )

-- From 256 chunks on the count of the chunks not started never ends, whatever the fuel.
pub make_whohas-never :
    (fuel : ℕ) (r : Request) → 2 ^ 8 ≤ length r.chunks → make_whohas fuel r ≡ none
unfolding make_whohas
make_whohas-never fuel r big =
    rw (count_unfinished-never fuel r.chunks 0 0 big (omega arith), make_whohas)
