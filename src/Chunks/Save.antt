-- ===== src/Chunks/Save.antt =====
-- util.c: the bytes of a chunk, from its first packet to the check of its hash.
use mathlib.Core.List.{append_assoc, append-nil}
use bittorrent_with_congesti.Base.{
  ℕ, ◌+◌, ◌<◌, ◌≤◌, ◌≡◌, refl, sym, ap, ◌∙◌, none, some, List, [], ◌∷◌, ◌++◌, arith, length,
  length-append, if◌then◌else◌, ◌==◌, leb, true, false, inl, ◌⊎◌, eq_bytes, Outcome, done, ◌>>=◌,
}
use bittorrent_with_congesti.Chunks.{
  ChunkState, owned, not_started, Chunk, receiving, chunk_size, allocate, save_data, settle, Saved,
  rejected, accepted, incomplete, check_chunk,
}

-- A chunk that is being received holds these bytes.
pub record Holds (c : Chunk) (bytes : List ℕ) : Type 0 where
  pub state : c.state ≡ receiving
  pub buffer : (c.buffer ≡ some bytes) ⊎ ((c.buffer ≡ none) × (bytes ≡ []))
  pub count : c.received_byte_number ≡ length bytes

-- the chunk with this many bytes more
abbrev pub extended : Chunk → (seq : ℕ) → (bytes more : List ℕ) → Chunk
extended c seq bytes more = record c {
  buffer = some (bytes ++ more);
  received_seq_number = seq;
  received_byte_number = c.received_byte_number + length more;
}

allocate-Holds : (c : Chunk) (bytes : List ℕ) → Holds c bytes → allocate c ≡ some bytes
allocate-Holds c bytes h = ground arith

-- The data of a packet goes behind what has been received, if the chunk has room for it.
pub save_data-Holds :
    (c : Chunk) (seq : ℕ) (bytes more : List ℕ)
    → Holds c bytes
    → length bytes + length more ≤ chunk_size
    → (save_data c seq more ≡ done (extended c seq bytes more))
      × Holds (extended c seq bytes more) (bytes ++ more)
unfolding save_data
save_data-Holds c seq bytes more h room =
    let fits : leb (c.received_byte_number + length more) chunk_size ≡ true =
      ground (arith, h.count) in
    (
      rw (allocate-Holds c bytes h, h.state, fits),
      record {
        state = h.state;
        buffer = inl refl;
        count = omega (arith, h.count, length-append bytes more);
      },
    )

-- A chunk short of bytes is not checked.
pub check_chunk-short :
    (sha1 : List ℕ → List ℕ) (c : Chunk) (bytes : List ℕ)
    → Holds c bytes
    → length bytes < chunk_size
    → check_chunk sha1 c ≡ done incomplete
unfolding check_chunk
check_chunk-short sha1 c bytes h short =
    let other : (c.received_byte_number == chunk_size) ≡ false = ground (arith, h.count) in rw other

-- A full chunk is accepted exactly if its bytes have its hash, and emptied to start anew if not.
pub check_chunk-full :
    (sha1 : List ℕ → List ℕ) (c : Chunk) (bytes : List ℕ)
    → c.buffer ≡ some bytes
    → Holds c bytes
    → length bytes ≡ chunk_size
    → check_chunk sha1 c ≡ (
        if eq_bytes (sha1 bytes) c.hash
        then done (accepted (settle c true) bytes)
        else done (rejected (settle c false)))
unfolding check_chunk
check_chunk-full sha1 c bytes b h full =
    let whole : (c.received_byte_number == chunk_size) ≡ true = ground (arith, h.count) in
    rw (whole, b, h.state)

-- Packets of a chunk in the order in which they are saved: number and data. `peer.c` calls
-- `save_chunk` after each of them, which does nothing to a chunk that is short of bytes
-- (`check_chunk-short`); so this is its run only up to the packet that fills the block.
pub save_all : Chunk → List (ℕ × List ℕ) → Outcome Chunk
save_all c [] = done c
save_all c ((seq, bytes) ∷ ps) = save_data c seq bytes >>= λ c'. save_all c' ps

abbrev pub block_of : List (ℕ × List ℕ) → List ℕ
block_of [] = []
block_of ((_, bytes) ∷ ps) = bytes ++ block_of ps

-- a chunk that holds nothing, in this state
abbrev pub emptied : Chunk → ChunkState → Chunk
emptied c state = record c {
  state = state;
  buffer = none;
  received_seq_number = 0;
  received_byte_number = 0;
}

-- what the check makes of a chunk whose block is full: it is owned if the block has its hash, and
-- not started if not
abbrev pub judged : (List ℕ → List ℕ) → Chunk → List ℕ → Outcome Saved
judged sha1 c block =
    if eq_bytes (sha1 block) c.hash
    then done (accepted (emptied c owned) block)
    else done (rejected (emptied c not_started))

save_all-judged :
    (sha1 : List ℕ → List ℕ) (c : Chunk) (bytes : List ℕ) (ps : List (ℕ × List ℕ))
    → c.buffer ≡ some bytes
    → Holds c bytes
    → length (bytes ++ block_of ps) ≡ chunk_size
    → (save_all c ps >>= check_chunk sha1) ≡ judged sha1 c (bytes ++ block_of ps)
unfolding save_all
save_all-judged sha1 c bytes [] b h full =
    check_chunk-full sha1 c bytes b h (omega (arith, length-append bytes (block_of []), full))
    ∙ ap (judged sha1 c) (sym (append-nil bytes))
save_all-judged sha1 c bytes ((seq, more) ∷ ps) b h full =
    let room : length bytes + length more ≤ chunk_size =
      omega (
        arith,
        full,
        length-append bytes (more ++ block_of ps),
        length-append more (block_of ps),
      ) in
    let (saved, holds) = save_data-Holds c seq bytes more h room in
    rw saved (
      save_all-judged sha1 (extended c seq bytes more) (bytes ++ more) ps refl holds
        (ap length (append_assoc bytes more (block_of ps)) ∙ full)
      ∙ ap (judged sha1 c) (append_assoc bytes more (block_of ps)))

-- A chunk that is being received and holds nothing yet, and packets whose data make up a whole
-- block: no write leaves the block, and the check accepts the block exactly if it has the chunk's
-- hash; if not, the chunk starts anew.
pub save_all-check :
    (sha1 : List ℕ → List ℕ) (c : Chunk) (ps : List (ℕ × List ℕ))
    → Holds c []
    → length (block_of ps) ≡ chunk_size
    → (save_all c ps >>= check_chunk sha1) ≡ judged sha1 c (block_of ps)
save_all-check sha1 c [] h full = absurd (omega arith)
save_all-check sha1 c ((seq, more) ∷ ps) h full =
    let room : 0 + length more ≤ chunk_size =
      omega (arith, full, length-append more (block_of ps)) in
    let (saved, holds) = save_data-Holds c seq [] more h room in
    unfold save_all in
    rw saved (save_all-judged sha1 (extended c seq [] more) more ps refl holds full)
