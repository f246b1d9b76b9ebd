-- ===== src/Peer/Transmit/Cover.antt =====
-- network.c and util.c: the transfer of a chunk, from the file of the sender to the check of the
-- receiver.
use native.Mathlib.Decide.{ℕ_discrete}
use bittorrent_with_congesti.Base.{
  ℕ, zero, suc, ◌+◌, ◌-◌, ◌*◌, ◌^◌, ◌<◌, ◌≤◌, ◌≡◌, refl, sym, ap, ◌∙◌, arith, List, [], ◌∷◌, ◌++◌,
  length, length-take, length-drop, take, drop, take-add, drop-drop, ◌>>=◌,
}
use bittorrent_with_congesti.Chunks.{Chunk, chunk_size, check_chunk}
use bittorrent_with_congesti.Chunks.Save.{Holds, save_all, block_of, judged, save_all-check}
use bittorrent_with_congesti.Wire.{max_payload_size}
use bittorrent_with_congesti.Peer.{Externals}
use bittorrent_with_congesti.Peer.Transmit.{
  data_size, data_offset, data_bytes, max_packet_per_chunk,
}
use mathlib.Core.List.{append-nil}
use mathlib.Core.Path.{ap₂}

-- the packets of a chunk that a stream sends from offset `seq` on, `n` of them: number and data
abbrev pub packets_from : Externals → (chunk_id n seq : ℕ) → List (ℕ × List ℕ)
packets_from ext chunk_id zero seq = []
packets_from ext chunk_id (suc n) seq =
    (seq + 1, data_bytes ext chunk_id seq) ∷ packets_from ext chunk_id n (suc seq)

module _ (ext : Externals) (file : List ℕ) (chunk_id : ℕ)
    (reads : (size offset : ℕ)
      → offset + size ≤ length file
      → offset < 2 ^ 31
      → ext.read_file size offset ≡ take size (drop offset file))
    (small : (chunk_id + 1) * chunk_size < 2 ^ 31)
    (present : (chunk_id + 1) * chunk_size ≤ length file) where
  -- A packet ends within its chunk.
  data_size-le :
      (seq : ℕ) → seq < max_packet_per_chunk → seq * max_payload_size + data_size seq ≤ chunk_size
  data_size-le seq lt = ground arith

  -- what of the chunk lies from offset `seq` on
  abbrev remaining : ℕ → List ℕ
  remaining seq =
      take (chunk_size - seq * max_payload_size)
        (drop (chunk_id * chunk_size + seq * max_payload_size) file)

  data_bytes-take :
      (seq : ℕ)
      → seq < max_packet_per_chunk
      → data_bytes ext chunk_id seq
        ≡ take (data_size seq) (drop (chunk_id * chunk_size + seq * max_payload_size) file)
  data_bytes-take seq lt =
      let at : data_offset chunk_id seq ≡ chunk_id * chunk_size + seq * max_payload_size =
        omega arith in
      let within : data_offset chunk_id seq + data_size seq ≤ length file =
        omega (arith, at, data_size-le seq, present) in
      reads (data_size seq) (data_offset chunk_id seq) within (omega (arith, at))
      ∙ ap (λ o. take (data_size seq) (drop o file)) at

  data_size-last : (seq : ℕ) → seq ≡ 353 → data_size seq ≡ chunk_size - seq * max_payload_size
  data_size-last seq e = ground arith

  data_size-full : (seq : ℕ) → seq < 353 → data_size seq ≡ max_payload_size
  data_size-full seq lt = ground arith

  block_of-remaining :
      (n seq : ℕ)
      → seq + n ≡ max_packet_per_chunk
      → block_of (packets_from ext chunk_id n seq) ≡ remaining seq
  block_of-remaining zero seq e =
      let nothing : chunk_size - seq * max_payload_size ≡ 0 = omega arith in
      sym (ap (λ k. take k (drop (chunk_id * chunk_size + seq * max_payload_size) file)) nothing)
  block_of-remaining (suc n) seq e =
      let from = drop (chunk_id * chunk_size + seq * max_payload_size) file in
      let ih = block_of-remaining n (suc seq) (omega arith) in
      let next = chunk_size - suc seq * max_payload_size in
      let head = data_bytes-take seq (omega arith) in
      elim (ℕ_discrete seq 353) [
        | yes last ↦
            let size = data_size-last seq last in
            let none_left : next ≡ 0 = omega arith in
            let tail : remaining (suc seq) ≡ [] =
              ap (λ k. take k (drop (chunk_id * chunk_size + suc seq * max_payload_size) file))
                none_left in
            ap₂ ◌++◌ (head ∙ ap (λ k. take k from) size) (ih ∙ tail) ∙ append-nil (remaining seq)
        | no more ↦
            let size = data_size-full seq (omega arith) in
            let whole : chunk_size - seq * max_payload_size ≡ max_payload_size + next =
              omega arith in
            let after : (chunk_id * chunk_size + seq * max_payload_size) + max_payload_size
                ≡ chunk_id * chunk_size + suc seq * max_payload_size =
              omega arith in
            let split : remaining seq
                ≡ take max_payload_size from ++ take next (drop max_payload_size from) =
              ap (λ k. take k from) whole ∙ take-add max_payload_size next from in
            let tail : take next (drop max_payload_size from) ≡ remaining (suc seq) =
              ap (take next) (
                drop-drop max_payload_size (chunk_id * chunk_size + seq * max_payload_size) file
                ∙ ap (λ o. drop o file) after) in
            ap₂ ◌++◌ (head ∙ ap (λ k. take k from) size) (ih ∙ sym tail) ∙ sym split
      ]

  -- All packets bring the block.
  pub block_of-packets_from :
      block_of (packets_from ext chunk_id max_packet_per_chunk 0)
      ≡ take chunk_size (drop (chunk_id * chunk_size) file)
  block_of-packets_from =
      let start : chunk_id * chunk_size + 0 * max_payload_size ≡ chunk_id * chunk_size =
        omega arith in
      block_of-remaining max_packet_per_chunk 0 refl ∙ ap (λ o. take chunk_size (drop o file)) start

  pub length-block : length (take chunk_size (drop (chunk_id * chunk_size) file)) ≡ chunk_size
  length-block = omega (
    arith,
    length-take chunk_size (drop (chunk_id * chunk_size) file),
    length-drop (chunk_id * chunk_size) file,
  )

  pub length-data_bytes :
      (seq : ℕ) → seq < max_packet_per_chunk → length (data_bytes ext chunk_id seq) ≡ data_size seq
  length-data_bytes seq lt = omega (
    arith,
    ap length (data_bytes-take seq lt),
    length-take (data_size seq) (drop (chunk_id * chunk_size + seq * max_payload_size) file),
    length-drop (chunk_id * chunk_size + seq * max_payload_size) file,
    data_size-le seq lt,
    present,
  )

-- The packets that a stream sends for a chunk bring exactly the chunk's block of the data file, if
-- a read within the file, at an offset that fits an `int`, leaves the file's bytes there in the
-- buffer, the file holds the block, and the block ends below 2^31. So a receiver that saves them in
-- order, starting from nothing, accepts them exactly if the block has the chunk's hash.
pub packets_from-judged :
    (ext : Externals) (sha1 : List ℕ → List ℕ) (file : List ℕ) (chunk_id : ℕ) (c : Chunk)
    → ((size offset : ℕ)
        → offset + size ≤ length file
        → offset < 2 ^ 31
        → ext.read_file size offset ≡ take size (drop offset file))
    → (chunk_id + 1) * chunk_size < 2 ^ 31
    → (chunk_id + 1) * chunk_size ≤ length file
    → Holds c []
    → (save_all c (packets_from ext chunk_id max_packet_per_chunk 0) >>= check_chunk sha1)
      ≡ judged sha1 c (take chunk_size (drop (chunk_id * chunk_size) file))
packets_from-judged ext sha1 file chunk_id c reads small present holds =
    let sent = block_of-packets_from ext file chunk_id reads small present in
    save_all-check sha1 c (packets_from ext chunk_id max_packet_per_chunk 0) holds
      (ap length sent ∙ length-block ext file chunk_id reads small present)
    ∙ ap (judged sha1 c) sent
