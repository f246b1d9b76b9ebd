-- ===== src/Chunks.antt =====
-- util.c: tables of chunks. A `struct Request` with `chunk_number` chunks is a list of them.
pub mod Pick
pub mod Save
pub mod Tables
use bittorrent_with_congesti.Base.{
  ℕ, ◌+◌, ◌*◌, ◌^◌, Bool, true, false, Option, none, some, List, [], ◌∷◌, ◌++◌, ◌==◌, ◌&&◌, not,
  if◌then◌else◌, ltb, leb, minus_one, length, get_elem?, set, take, Outcome, done, crash,
  null_dereference, out_of_bounds, eq_bytes, ◌>>=◌,
}

-- OWNED, RECEIVING and NOT_STARTED
pub data ChunkState : Type 0 where
  owned receiving not_started : ChunkState

abbrev pub is_owned : ChunkState → Bool
is_owned owned = true
is_owned receiving = false
is_owned not_started = false

abbrev pub is_not_started : ChunkState → Bool
is_not_started owned = false
is_not_started receiving = false
is_not_started not_started = true

-- `struct Chunk`. `buffer` is the block at `data`, as far as it has been written: the
-- `received_byte_number` bytes from its start. `none` is `NULL`.
pub record Chunk : Type 0 where
  pub id : ℕ
  pub hash : List ℕ
  pub state : ChunkState
  pub buffer : Option (List ℕ)
  pub received_seq_number : ℕ
  pub received_byte_number : ℕ

-- `struct Request`
pub record Request : Type 0 where
  pub filename : Option (List ℕ)
  pub chunks : List Chunk

-- `SHA1_HASH_SIZE`
abbrev pub hash_size : ℕ
hash_size = 20

-- `BT_CHUNK_SIZE`
abbrev pub chunk_size : ℕ
chunk_size = 512 * 1024

abbrev pub has_hash : List ℕ → List Chunk → Bool
has_hash hash [] = false
has_hash hash (c ∷ cs) = if eq_bytes hash c.hash then true else has_hash hash cs

-- `find_chunk`: 1 is `true`, -1 is `false`
unfoldable pub find_chunk : Request → List ℕ → Bool
find_chunk has_chunk_table hash = has_hash hash has_chunk_table.chunks

abbrev id_of_hash : List ℕ → List Chunk → ℕ
id_of_hash hash [] = minus_one
id_of_hash hash (c ∷ cs) = if eq_bytes hash c.hash then c.id else id_of_hash hash cs

unfoldable pub get_chunk_id : List ℕ → Option Request → ℕ
get_chunk_id hash none = minus_one
get_chunk_id hash (some table) = id_of_hash hash table.chunks

-- The loop that `pick_a_chunk`, `pick_a_new_chunk` and `pick_a_chunk_after_crash` share: the first
-- chunk not started that `offers` accepts is marked. The result has the chunk as it is marked.
unfoldable pub pick : (List ℕ → Outcome Bool) → List Chunk → Outcome (Option Chunk × List Chunk)
pick offers [] = done (none, [])
pick offers (c ∷ cs) =
    let later = pick offers cs >>= λ (found, cs'). done (found, c ∷ cs') in
    let marked = record c { state = receiving } in
    if is_not_started c.state
    then (offers c.hash >>= λ offered. if offered then done (some marked, marked ∷ cs) else later)
    else later

-- what becomes of the data of a packet: `memcpy` behind what has been received. A write without
-- a buffer, or past the end of the buffer, is a fault.
abbrev pub append_data : Option (List ℕ) → (received : ℕ) → List ℕ → Outcome (Option (List ℕ))
append_data none received bytes = crash null_dereference
append_data (some block) received bytes =
    if leb (received + length bytes) chunk_size
    then done (some (block ++ bytes))
    else crash out_of_bounds

-- `malloc` before the first packet
abbrev pub allocate : Chunk → Option (List ℕ)
allocate c = elim c.buffer [
  | some block ↦ some block
  | none ↦ elim c.state [ receiving ↦ some [] | _ ↦ none ]
]

-- `save_data_packet` on its chunk, with the number and the data that the packet holds
unfoldable pub save_data : Chunk → (seq : ℕ) → List ℕ → Outcome Chunk
save_data c seq bytes =
    let saved = append_data (allocate c) c.received_byte_number bytes >>= λ buffer. done (record c {
      buffer = buffer;
      received_seq_number = seq;
      received_byte_number = c.received_byte_number + length bytes;
    }) in
    if is_owned c.state then done c else saved

-- `update_ihave_table`: the tables of what the peer has and of all chunks
unfoldable pub update_ihave_table : (has total : Request) → Chunk → Request
unfolding get_chunk_id
update_ihave_table has total c =
    let entry : Chunk = record {
      id = get_chunk_id c.hash (some total);
      hash = c.hash;
      state = owned;
      buffer = none;
      received_seq_number = 0;
      received_byte_number = 0;
    } in
    if get_chunk_id c.hash (some has) == minus_one
    then record has { chunks = has.chunks ++ (entry ∷ []) }
    else has

-- the chunk after its bytes have been checked: `verified` says whether their hash is right
abbrev pub settle : Chunk → (verified : Bool) → Chunk
settle c verified = record c {
  state = if verified then owned else not_started;
  buffer = none;
  received_seq_number = 0;
  received_byte_number = 0;
}

abbrev pub is_complete : Chunk → Bool
is_complete c = (c.received_byte_number == chunk_size) && not (is_owned c.state)

-- What `save_chunk` does with one chunk. `sha1` is the hash function. In the result: the chunk,
-- and its bytes if they are right and so go to the file.
pub data Saved : Type 0 where
  incomplete : Saved
  rejected : Chunk → Saved
  accepted : Chunk → List ℕ → Saved

unfoldable pub check_chunk : (sha1 : List ℕ → List ℕ) → Chunk → Outcome Saved
check_chunk sha1 c =
    let checked : Outcome Saved = elim c.buffer [
      | none ↦ crash null_dereference
      | some block ↦
          if eq_bytes (sha1 block) c.hash
          then done (accepted (settle c true) block)
          else done (rejected (settle c false))
    ] in
    if is_complete c then checked else done incomplete

abbrev all_owned : List Chunk → Bool
all_owned [] = true
all_owned (c ∷ cs) = if is_owned c.state then all_owned cs else false

unfoldable pub all_chunk_finished : Option Request → Bool
all_chunk_finished none = false
all_chunk_finished (some r) = all_owned r.chunks

-- the loop of `download_peer_crash` over the chunks: the first with this hash starts anew
unfoldable pub reset_chunk : List ℕ → List Chunk → List Chunk
reset_chunk hash [] = []
reset_chunk hash (c ∷ cs) =
    if eq_bytes hash c.hash then settle c false ∷ cs else c ∷ reset_chunk hash cs
