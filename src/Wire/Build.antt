-- ===== src/Wire/Build.antt =====
-- network.c: `make_packet`, one function for each packet type.
use bittorrent_with_congesti.Base.{
  ℕ, zero, suc, ◌+◌, ◌-◌, ◌*◌, ◌/◌, ◌%◌, ◌^◌, Option, none, some, List, [], ◌∷◌, ◌++◌, ◌==◌,
  if◌then◌else◌, leb, drop, length, get_or, slice, Outcome, done, crash, out_of_bounds, ◌>>=◌,
}
use bittorrent_with_congesti.Chunks.{Chunk, Request, is_not_started, hash_size, find_chunk}
use bittorrent_with_congesti.Wire.{
  whohas, ihave, get, data_packet, ack, header_length, max_payload_size, padding_size,
  chunk_per_packet, Packet, fill_header, padded,
}

-- The loop that counts the chunks not started. Its counter is an `unsigned char`, so it is given
-- fuel: `none` says that the loop still runs.
unfoldable pub count_unfinished : (fuel : ℕ) → List Chunk → (i count : ℕ) → Option ℕ
count_unfinished zero chunks i count = none
count_unfinished (suc fuel) chunks i count = elim (drop i chunks) [
  | [] ↦ some count
  | c ∷ _ ↦
      count_unfinished fuel chunks ((i + 1) % 2 ^ 8)
        (if is_not_started c.state then count + 1 else count)
]

-- the number of packets for that many chunks
unfoldable pub packets_for : ℕ → ℕ
packets_for unfinished =
    if unfinished % chunk_per_packet == 0
    then unfinished / chunk_per_packet
    else unfinished / chunk_per_packet + 1

-- The inner loops: the hashes of the next `k` chunks not started, and the chunks behind the last.
unfoldable pub next_hashes : (k : ℕ) → List Chunk → List ℕ × List Chunk
next_hashes zero chunks = ([], chunks)
next_hashes (suc k) [] = ([], [])
next_hashes (suc k) (c ∷ cs) =
    let taken = next_hashes k cs in
    let skipped = next_hashes (suc k) cs in
    if is_not_started c.state then (c.hash ++ taken.0, taken.1) else skipped

-- a payload that begins with a count of hashes
abbrev pub hash_payload : (count : ℕ) → List ℕ → List ℕ
hash_payload count hashes = padded (count ∷ 0 ∷ 0 ∷ 0 ∷ hashes)

abbrev pub hashes_length : ℕ → ℕ
hashes_length count = count * hash_size + header_length + padding_size

-- The number of hashes of a packet, when `n` packets come after it for `unfinished` chunks.
unfoldable pub count_in : (n unfinished : ℕ) → ℕ
count_in n unfinished = if n == 0 then unfinished % 2 ^ 8 else chunk_per_packet

abbrev pub whohas_packet : (count : ℕ) → List ℕ → Packet
whohas_packet count hashes = record {
  header = fill_header whohas (hashes_length count) 0 0;
  payload = hash_payload count hashes;
}

-- The outer loop: `n` packets are left to fill for `unfinished` chunks.
unfoldable pub fill_whohas : (n unfinished : ℕ) → List Chunk → List Packet
unfolding next_hashes count_in
fill_whohas zero unfinished chunks = []
fill_whohas (suc n) unfinished chunks =
    let count = count_in n unfinished in
    let (hashes, later) = next_hashes count chunks in
    whohas_packet count hashes ∷ fill_whohas n (unfinished - count) later

-- `make_packet(WHOHAS, …)`: the packets, or `none` while the count still runs
unfoldable pub make_whohas : (fuel : ℕ) → Request → Option (List Packet)
unfolding count_unfinished packets_for fill_whohas
make_whohas fuel request = elim (count_unfinished fuel request.chunks 0 0) [
  | none ↦ none
  | some unfinished ↦ some (fill_whohas (packets_for unfinished) unfinished request.chunks)
]

-- The loop of `make_packet(IHAVE, …)` over the hashes of a WHOHAS packet in the buffer: the `n`
-- hashes from number `i` on. The copies go to a block of MAX_PAYLOAD_SIZE bytes.
unfoldable pub own_hashes : Request → List ℕ → (n i count : ℕ) → List ℕ → Outcome (ℕ × List ℕ)
own_hashes has buf zero i count found = done (count, found)
own_hashes has buf (suc n) i count found = do
  hash ← slice buf (16 + padding_size + i * hash_size) hash_size
  let copied = own_hashes has buf n (i + 1) ((count + 1) % 2 ^ 8) (found ++ hash)
  let passed = own_hashes has buf n (i + 1) count found
  let room = leb (padding_size + (count + 1) * hash_size) max_payload_size
  if find_chunk has hash then (if room then copied else crash out_of_bounds) else passed

-- `make_packet(IHAVE, …)`; `none` is `NULL`
unfoldable pub make_ihave : Request → List ℕ → Outcome (Option Packet)
unfolding own_hashes
make_ihave has buf = do
  (count, found) ← own_hashes has buf (get_or buf 16 0) 0 0 []
  done (
      if count == 0
      then none
      else some (record {
        header = fill_header ihave (hashes_length count) 0 0;
        payload = hash_payload count found;
      }))

-- `make_packet(GET, …)`
unfoldable pub make_get : Chunk → Packet
make_get c = record {
  header = fill_header get (hash_size + header_length) 0 0;
  payload = padded c.hash;
}

-- `make_packet(DATA, …)`
unfoldable pub make_data : List ℕ → (seq_number : ℕ) → Packet
make_data bytes seq_number = record {
  header = fill_header data_packet (length bytes + header_length) seq_number 0;
  payload = padded bytes;
}

-- `make_packet(ACK, …)`
unfoldable pub make_ack : (ack_number : ℕ) → Packet
make_ack ack_number = record {
  header = fill_header ack header_length 0 ack_number;
  payload = padded [];
}
