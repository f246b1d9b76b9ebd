-- ===== src/Connections.antt =====
-- util.c: what other peers are known to have, whether they are at work, and the choice of the next
-- chunk. `connections` is a list, the head first; only the hashes of a connection's chunks are read.
use bittorrent_with_congesti.Base.{
  ℕ, zero, suc, ◌+◌, ◌-◌, ◌*◌, ◌/◌, Bool, true, false, Option, none, some, List, [], ◌∷◌, ◌==◌,
  ◌&&◌, if◌then◌else◌, get_or, slice, read16, eq_bytes, Outcome, done, ◌>>=◌,
}
use bittorrent_with_congesti.Chunks.{Chunk, hash_size, pick}

-- WORKING and NOT_WORKING
pub data PeerState : Type 0 where
  working not_working : PeerState

pub record Connection : Type 0 where
  pub peer_id : ℕ
  pub state : PeerState
  pub hashes : List (List ℕ)

-- `mark_peer_state`
unfoldable pub mark_peer_state : ℕ → PeerState → List Connection → List Connection
mark_peer_state peer_id state [] = []
mark_peer_state peer_id state (c ∷ cs) =
    if c.peer_id == peer_id
    then record c { state = state } ∷ cs
    else c ∷ mark_peer_state peer_id state cs

-- the copies of `update_chunks`: `n` hashes from number `i` on
unfoldable pub read_hashes : List ℕ → (n i : ℕ) → Outcome (List (List ℕ))
read_hashes buf zero i = done []
read_hashes buf (suc n) i = do
  hash ← slice buf (20 + i * 20) hash_size
  rest ← read_hashes buf n (i + 1)
  done (hash ∷ rest)

-- `update_chunks`. For a length below 20 the `int` quotient is 0 or -1, and nothing is copied.
unfoldable pub update_chunks : List ℕ → Outcome (List (List ℕ))
unfolding read_hashes
update_chunks buf = read_hashes buf ((read16 buf 6 - 20) / 20) 0

abbrev keep_first : Connection → Option (List Connection) → Option (List Connection)
keep_first c none = none
keep_first c (some cs) = some (c ∷ cs)

replace_hashes : ℕ → List (List ℕ) → List Connection → Option (List Connection)
replace_hashes peer_id hashes [] = none
replace_hashes peer_id hashes (c ∷ cs) =
    let rest = keep_first c (replace_hashes peer_id hashes cs) in
    if c.peer_id == peer_id then some (record c { hashes = hashes } ∷ cs) else rest

-- `update_connections`: a known peer keeps its place and state, a new one comes first.
unfoldable pub update_connections : ℕ → List ℕ → List Connection → Outcome (List Connection)
unfolding replace_hashes
update_connections peer_id buf cs = do
  hashes ← update_chunks buf
  elim (replace_hashes peer_id hashes cs) [
    | some cs' ↦ done cs'
    | none ↦ done (record { peer_id = peer_id; state = not_working; hashes = hashes } ∷ cs)
  ]

abbrev mem_hash : List ℕ → List (List ℕ) → Bool
mem_hash hash [] = false
mem_hash hash (h ∷ hs) = if eq_bytes hash h then true else mem_hash hash hs

-- `peer_contain_chunk`
unfoldable pub peer_contain_chunk : ℕ → List ℕ → List Connection → Bool
peer_contain_chunk peer_id hash [] = false
peer_contain_chunk peer_id hash (c ∷ cs) =
    if (c.peer_id == peer_id) && mem_hash hash c.hashes
    then true
    else peer_contain_chunk peer_id hash cs

-- the loop of `packet_contain_chunk`: `n` hashes of the buffer from number `i` on
unfoldable pub contains_hash : List ℕ → List ℕ → (n i : ℕ) → Outcome Bool
contains_hash buf hash zero i = done false
contains_hash buf hash (suc n) i = do
  other ← slice buf (20 + 20 * i) hash_size
  let rest = contains_hash buf hash n (i + 1)
  if eq_bytes hash other then done true else rest

-- `packet_contain_chunk`
unfoldable pub packet_contain_chunk : List ℕ → List ℕ → Outcome Bool
unfolding contains_hash
packet_contain_chunk buf hash = contains_hash buf hash (get_or buf 16 0) 0

-- `pick_a_chunk`: a chunk that the packet in the buffer offers
unfoldable pub pick_a_chunk : List ℕ → List Chunk → Outcome (Option Chunk × List Chunk)
unfolding pick packet_contain_chunk
pick_a_chunk buf = pick (packet_contain_chunk buf)

-- `pick_a_new_chunk`: a chunk that the peer is known to have
unfoldable pub pick_a_new_chunk :
    ℕ → List Connection → List Chunk → Outcome (Option Chunk × List Chunk)
unfolding pick peer_contain_chunk
pick_a_new_chunk peer_id cs = pick (λ hash. done (peer_contain_chunk peer_id hash cs))

-- `pick_a_chunk_after_crash`: the first idle peer that has a chunk not started. `todo` are the
-- connections still to try. In the result: the chunk with its peer, if any.
unfoldable pub pick_after_crash :
    (todo all : List Connection) → List Chunk → Outcome (Option (Chunk × ℕ) × List Chunk)
unfolding pick_a_new_chunk
pick_after_crash [] all chunks = done (none, chunks)
pick_after_crash (c ∷ cs) all chunks =
    let later = pick_after_crash cs all chunks in
    let attempt = pick_a_new_chunk c.peer_id all chunks >>= λ (found, chunks'). elim found [
      | some chunk ↦ done (some (chunk, c.peer_id), chunks')
      | none ↦ later
    ] in
    elim c.state [ not_working ↦ attempt | working ↦ later ]

-- the loops of `download_peer_crash` over the connections: the first with this peer goes; `none`
-- says that there is none
unfoldable pub remove_connection : ℕ → List Connection → Option (List Connection)
remove_connection peer_id [] = none
remove_connection peer_id (c ∷ cs) =
    let rest = keep_first c (remove_connection peer_id cs) in
    if c.peer_id == peer_id then some cs else rest
