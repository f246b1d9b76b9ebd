-- ===== src/Peer/Inbound/Whole/Transfer.antt =====
-- network.c and peer.c: a chunk on its way from the data file of one peer to the output file of
-- another.
use bittorrent_with_congesti.Base.{
  ℕ, zero, suc, ◌+◌, ◌*◌, ◌%◌, ◌^◌, ◌<◌, ◌≤◌, ◌≡◌, refl, ap, ◌∙◌, arith, true, false, ◌||◌, List,
  [], ◌∷◌, ◌++◌, length, eq_bytes, take, drop, done,
}
use bittorrent_with_congesti.Chunks.{Chunk, Request, chunk_size, find_chunk}
use bittorrent_with_congesti.Chunks.Save.{block_of}
use bittorrent_with_congesti.Config.{Address}
use bittorrent_with_congesti.Peer.{Externals, Peer, Effect, write_file}
use bittorrent_with_congesti.Peer.Transmit.{data_size, data_bytes, max_packet_per_chunk}
use bittorrent_with_congesti.Peer.Transmit.Cover.{
  packets_from, block_of-packets_from, length-block, length-data_bytes,
}
use bittorrent_with_congesti.Peer.Inbound.Complete.{AreSends}
use bittorrent_with_congesti.Peer.Inbound.Whole.{
  Datagram, handle_all, Brings, AreSmall, answers, joined, IsFilling,
}
use bittorrent_with_congesti.Peer.Inbound.Whole.Completed.{AreFull}
use bittorrent_with_congesti.Peer.Inbound.Whole.Judged.{handle_all-accept, handle_all-reject}

-- the data of the packets that a stream sends from offset `seq` on, `n` of them
abbrev pub pieces_from : Externals → (chunk_id n seq : ℕ) → List (List ℕ)
pieces_from ext chunk_id zero seq = []
pieces_from ext chunk_id (suc n) seq =
    data_bytes ext chunk_id seq ∷ pieces_from ext chunk_id n (suc seq)

joined-pieces_from :
    (ext : Externals) (chunk_id n seq : ℕ)
    → joined (pieces_from ext chunk_id n seq) ≡ block_of (packets_from ext chunk_id n seq)
joined-pieces_from ext chunk_id zero seq = refl
joined-pieces_from ext chunk_id (suc n) seq =
    ap (λ bs. data_bytes ext chunk_id seq ++ bs) (joined-pieces_from ext chunk_id n (suc seq))

pub length-pieces_from :
    (ext : Externals) (chunk_id n seq : ℕ) → length (pieces_from ext chunk_id n seq) ≡ n
length-pieces_from ext chunk_id zero seq = refl
length-pieces_from ext chunk_id (suc n) seq = ap suc (length-pieces_from ext chunk_id n (suc seq))

pieces_from-AreFull :
    (ext : Externals) (chunk_id n seq : ℕ)
    → ((s : ℕ) → s < seq + n → 0 < length (data_bytes ext chunk_id s))
    → AreFull (pieces_from ext chunk_id n seq)
pieces_from-AreFull ext chunk_id zero seq h = tt
pieces_from-AreFull ext chunk_id (suc n) seq h =
    (h seq (omega arith), pieces_from-AreFull ext chunk_id n (suc seq) (λ s lt. h s (omega arith)))

data_size_pos : (seq : ℕ) → 0 < data_size seq
data_size_pos seq = ground arith

module _ (source ext : Externals) (file : List ℕ) (p : Peer) (from : Address) (i k : ℕ)
    (r : Request) (c : Chunk) (ds : List Datagram)
    (reads : (size offset : ℕ)
      → offset + size ≤ length file
      → offset < 2 ^ 31
      → source.read_file size offset ≡ take size (drop offset file))
    (low : (c.id + 1) * chunk_size < 2 ^ 31) (present : (c.id + 1) * chunk_size ≤ length file)
    (f : IsFilling p from i 0 k r c []) (small : AreSmall ds)
    (brings : Brings 0 (pieces_from source c.id max_packet_per_chunk 0) ds) where
  abbrev pieces : List (List ℕ)
  pieces = pieces_from source c.id max_packet_per_chunk 0

  abbrev block : List ℕ
  block = take chunk_size (drop (c.id * chunk_size) file)

  whole : joined pieces ≡ block
  whole =
      joined-pieces_from source c.id max_packet_per_chunk 0
      ∙ block_of-packets_from source file c.id reads low present

  pieces-AreFull : AreFull pieces
  pieces-AreFull = pieces_from-AreFull source c.id max_packet_per_chunk 0 (λ s lt. omega (
    arith,
    length-data_bytes source file c.id reads low present s (omega arith),
    data_size_pos s,
  ))

  few : length pieces < 2 ^ 32
  few = omega (arith, length-pieces_from source c.id max_packet_per_chunk 0)

  total : length (joined pieces) ≡ chunk_size
  total = ap length whole ∙ length-block source file c.id reads low present

  place : c.id * chunk_size % 2 ^ 32 ≡ c.id * chunk_size
  place = omega arith

  -- A sender's data file holds the block of a chunk, below 2^31, and its reads within the file,
  -- at offsets below 2^31, bring the file's bytes. A receiver, with a request of fewer than 2^31
  -- chunks where this chunk stands at the index that is its id, has just started it with the peer
  -- at an address. From there the DATA packets that the sender makes of the chunk come in order,
  -- the last one at the end, among other DATA packets whose numbers are neither the last in order
  -- nor the next. All packets have at most 1484 bytes and numbers below 2^32. If the block has
  -- the chunk's hash, the receiver never faults: it answers each packet by the last number in
  -- order, then writes the block to the chunk's place, before whatever else it sends, and the
  -- table of its chunks has the hash of the chunk, and else the hashes that it had.
  pub handle_all-transfer :
      eq_bytes (ext.sha1 (take chunk_size (drop (c.id * chunk_size) file))) c.hash ≡ true
      → (p' : Peer) × (sent : List Effect) × (handle_all ext p from ds
          ≡ done (
            p',
            answers from 0 ds
                ++ (write_file r.filename
                      (c.id * chunk_size)
                      (take chunk_size (drop (c.id * chunk_size) file))
                    ∷ sent),
          ))
        × ((hash : List ℕ)
            → find_chunk p'.has_chunk_table hash
              ≡ (find_chunk p.has_chunk_table hash || eq_bytes hash c.hash))
  handle_all-transfer right =
      let (p', sent, e, table) =
        handle_all-accept ext p from i k r c pieces ds f small pieces-AreFull few brings total
          (ap (λ b. eq_bytes (ext.sha1 b) c.hash) whole ∙ right) in
      let written = λ (n : ℕ) (b : List ℕ). write_file r.filename n b in
      (
        p',
        sent,
        e
            ∙ ap (λ w. done (p', answers from 0 ds ++ (w ∷ sent)))
                (ap (written (c.id * chunk_size % 2 ^ 32)) whole ∙ ap (λ n. written n block) place),
        table,
      )

  -- A sender's data file holds the block of a chunk, below 2^31, and its reads within the file,
  -- at offsets below 2^31, bring the file's bytes. A receiver, with a request of fewer than 2^31
  -- chunks where this chunk stands at the index that is its id, has just started it with the peer
  -- at an address. From there the DATA packets that the sender makes of the chunk come in order,
  -- the last one at the end, among other DATA packets whose numbers are neither the last in order
  -- nor the next. All packets have at most 1484 bytes and numbers below 2^32. If the block does
  -- not have the chunk's hash, the receiver never faults, answers each packet by the last number
  -- in order before whatever else it sends, writes nothing, and leaves the table of its chunks as
  -- it was.
  pub handle_all-corrupt :
      eq_bytes (ext.sha1 (take chunk_size (drop (c.id * chunk_size) file))) c.hash ≡ false
      → (p' : Peer) × (sent : List Effect) × (handle_all ext p from ds
          ≡ done (p', answers from 0 ds ++ sent))
        × (p'.has_chunk_table ≡ p.has_chunk_table)
        × AreSends sent
  handle_all-corrupt wrong =
      handle_all-reject ext p from i k r c pieces ds f small pieces-AreFull few brings total
        (ap (λ b. eq_bytes (ext.sha1 b) c.hash) whole ∙ wrong)
