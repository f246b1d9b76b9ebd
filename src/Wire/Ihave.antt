-- ===== src/Wire/Ihave.antt =====
-- network.c: the answer to a WHOHAS packet names the hashes of the packet that the peer has.
use mathlib.Core.Path.{ap₂}
use mathlib.Core.List.{flatten, append_assoc, append-nil}
use bittorrent_with_congesti.Base.{
  ℕ, suc, ◌+◌, ◌*◌, ◌^◌, ◌%◌, ◌<◌, ◌≤◌, ◌≡◌, sym, ap, ◌∙◌, Option, none, some, List, [], ◌∷◌, ◌++◌,
  arith, length, length-append, if◌then◌else◌, ◌==◌, leb, true, Bool-cases, inl, inr, slice,
  slice-append, get_or, done,
}
use bittorrent_with_congesti.Chunks.{Request, find_chunk, hash_size}
use bittorrent_with_congesti.Wire.{
  ihave, padding_size, max_payload_size, chunk_per_packet, Packet, fill_header,
}
use bittorrent_with_congesti.Wire.Build.{own_hashes, make_ihave, hash_payload, hashes_length}

-- the hashes of a list that the table has
abbrev pub owned_of : Request → List (List ℕ) → List (List ℕ)
owned_of has [] = []
owned_of has (h ∷ hs) = if find_chunk has h then h ∷ owned_of has hs else owned_of has hs

abbrev pub AreHashes : List (List ℕ) → Type 0
AreHashes [] = Unit
AreHashes (h ∷ hs) = (length h ≡ hash_size) × AreHashes hs

own_hashes-step :
    (has : Request) (buf : List ℕ) (n i count : ℕ) (found hash : List ℕ)
    → slice buf (16 + padding_size + i * hash_size) hash_size ≡ done hash
    → count < chunk_per_packet
    → own_hashes has buf (suc n) i count found ≡ (
        if find_chunk has hash
        then own_hashes has buf n (i + 1) (count + 1) (found ++ hash)
        else own_hashes has buf n (i + 1) count found)
unfolding own_hashes
own_hashes-step has buf n i count found hash e room =
    let wrap : (count + 1) % 2 ^ 8 ≡ count + 1 = omega arith in
    let fits : leb (padding_size + (count + 1) * hash_size) max_payload_size ≡ true =
      ground arith in
    rw (e, wrap, fits)

own_hashes-owned_of :
    (has : Request) (buf : List ℕ) (todo : List (List ℕ)) (i count : ℕ) (found pre rest : List ℕ)
    → AreHashes todo
    → buf ≡ pre ++ (flatten todo ++ rest)
    → length pre ≡ 20 + i * hash_size
    → count + length todo ≤ chunk_per_packet
    → own_hashes has buf (length todo) i count found
      ≡ done (count + length (owned_of has todo), found ++ flatten (owned_of has todo))
unfolding flatten
own_hashes-owned_of has buf [] i count found pre rest sized e at room =
    unfold own_hashes in
    ap₂ (λ (c : ℕ) (f : List ℕ). done (c, f)) (omega arith) (sym (append-nil found))
own_hashes-owned_of has buf (h ∷ hs) i count found pre rest sized e at room =
    let whole : buf ≡ pre ++ (h ++ (flatten hs ++ rest)) =
      e ∙ ap (λ (r : List ℕ). pre ++ r) (append_assoc h (flatten hs) rest) in
    let read : slice buf (16 + padding_size + i * hash_size) hash_size ≡ done h =
      ap (λ b. slice b (16 + padding_size + i * hash_size) hash_size) whole
      ∙ ap₂ (λ j n. slice (pre ++ (h ++ (flatten hs ++ rest))) j n) (omega arith) (sym sized.0)
      ∙ slice-append pre h (flatten hs ++ rest) in
    let next : buf ≡ (pre ++ h) ++ (flatten hs ++ rest) =
      whole ∙ sym (append_assoc pre h (flatten hs ++ rest)) in
    let at' : length (pre ++ h) ≡ 20 + (i + 1) * hash_size =
      omega (arith, length-append pre h, sized.0) in
    own_hashes-step has buf (length hs) i count found h read (omega arith)
    ∙ (elim (Bool-cases (find_chunk has h)) [
      | inl mine ↦ rw mine (
          own_hashes-owned_of has buf hs (i + 1) (count + 1) (found ++ h) (pre ++ h) rest sized.1
            next at' (omega arith)
          ∙ ap₂ (λ (c : ℕ) (f : List ℕ). done (c, f)) (omega arith)
              (append_assoc found h (flatten (owned_of has hs))))
      | inr not_mine ↦ rw not_mine (
          own_hashes-owned_of has buf hs (i + 1) count found (pre ++ h) rest sized.1 next at'
            (omega arith))
    ])

-- the answer that names these hashes, if there are any
abbrev pub naming : List (List ℕ) → Option Packet
naming [] = none
naming (h ∷ hs) = some (record {
  header = fill_header ihave (hashes_length (length (h ∷ hs))) 0 0;
  payload = hash_payload (length (h ∷ hs)) (flatten (h ∷ hs));
})

answer_of :
    (count : ℕ) (hs : List (List ℕ))
    → count ≡ length hs
    → (if count == 0
        then none
        else some (record {
          header = fill_header ihave (hashes_length count) 0 0;
          payload = hash_payload count (flatten hs);
        }))
      ≡ naming hs
answer_of count [] e = rw e
answer_of count (h ∷ hs) e = rw e (ground arith)

-- A buffer that holds a count of up to 74 in its byte 16 and that many hashes of 20 bytes from byte
-- 20 on is answered by a packet that names those of them that the table has, in order; if it has
-- none, by no packet.
pub make_ihave-owned_of :
    (has : Request) (buf pre rest : List ℕ) (hs : List (List ℕ))
    → AreHashes hs
    → buf ≡ pre ++ (flatten hs ++ rest)
    → length pre ≡ 20
    → get_or buf 16 0 ≡ length hs
    → length hs ≤ chunk_per_packet
    → make_ihave has buf ≡ done (naming (owned_of has hs))
unfolding make_ihave
make_ihave-owned_of has buf pre rest hs sized e at count few =
    rw (count, own_hashes-owned_of has buf hs 0 0 [] pre rest sized e (omega arith) (omega arith))
      (ap done (answer_of (0 + length (owned_of has hs)) (owned_of has hs) (omega arith)))
