-- ===== src/Peer/Inbound/Whole/Judged.antt =====
-- peer.c, `case DATA`: the check of a chunk when all of its datagrams have come.
use bittorrent_with_congesti.Base.{
  ℕ, ◌+◌, ◌*◌, ◌%◌, ◌^◌, ◌<◌, ◌≡◌, ap, ◌∙◌, arith, true, false, ◌||◌, Option, List, [], ◌∷◌, ◌++◌,
  length, length-append, eq_bytes, done,
}
use bittorrent_with_congesti.Chunks.{Chunk, Request, chunk_size, find_chunk}
use bittorrent_with_congesti.Config.{Address, bt_peer_id}
use bittorrent_with_congesti.Peer.{Externals, Peer, Effect, write_file}
use bittorrent_with_congesti.Peer.Inbound.Complete.{AreSends, on_data-accept, on_data-reject}
use bittorrent_with_congesti.Peer.Inbound.Whole.{
  Datagram, buffer_of, handle_all, Brings, AreSmall, answers, joined, IsFilling, header_for,
  process_inbound_udp-on_data, IsFilling-IsReceiving,
}
use bittorrent_with_congesti.Peer.Inbound.Whole.Completed.{
  AreFull, IsCompleted, handle_all-IsCompleted,
}

write_file-cong :
    {name name' : Option (List ℕ)} {id id' : ℕ} {block block' : List ℕ}
    → name ≡ name'
    → id ≡ id'
    → block ≡ block'
    → write_file name (id * chunk_size % 2 ^ 32) block
      ≡ write_file name' (id' * chunk_size % 2 ^ 32) block'
write_file-cong e f g = rw (e, f, g)

module _ (ext : Externals) (p : Peer) (from : Address) (i k : ℕ) (r : Request) (c : Chunk)
    (pieces : List (List ℕ)) (ds : List Datagram) (f : IsFilling p from i 0 k r c [])
    (small : AreSmall ds) (full : AreFull pieces) (few : length pieces < 2 ^ 32)
    (brings : Brings 0 pieces ds) (total : length (joined pieces) ≡ chunk_size) where
  completed : IsCompleted ext p from i 0 k r c (joined pieces) ds
  completed =
      handle_all-IsCompleted ext from ds pieces p 0 [] f small full (omega arith) brings
        (omega arith) total

  filled : length completed.held + length completed.final.bytes ≡ chunk_size
  filled =
      omega (
        arith,
        length-append completed.held completed.final.bytes,
        ap length completed.whole,
        total,
      )

  -- The slots and the request are as where a chunk has been started, and the datagrams bring the
  -- pieces of a block with its hash in order, with others between them. Then nothing faults. Each
  -- datagram is answered by the last number that has come in order, the block is written to its
  -- place once the last one is in, and the table has the hash of the chunk from then on.
  pub handle_all-accept :
      eq_bytes (ext.sha1 (joined pieces)) c.hash ≡ true
      → (p' : Peer) × (sent : List Effect) × (handle_all ext p from ds
          ≡ done (
            p',
            answers from 0 ds
                ++ (write_file r.filename (c.id * chunk_size % 2 ^ 32) (joined pieces) ∷ sent),
          ))
        × ((hash : List ℕ)
            → find_chunk p'.has_chunk_table hash
              ≡ (find_chunk p.has_chunk_table hash || eq_bytes hash c.hash))
  handle_all-accept right =
      let w = completed in
      let s = IsFilling-IsReceiving ext w.before from w.final w.fits w.low w.filling in
      let peer_id = bt_peer_id w.before.config from in
      let same : eq_bytes (ext.sha1 (w.held ++ w.final.bytes)) w.chunk.hash ≡ true =
        rw (w.whole, w.hash) right in
      let (p', sent, e, table) =
        on_data-accept ext w.before peer_id i w.number k w.request w.chunk w.held from
          (header_for w.final) (buffer_of w.final) w.final.bytes w.final.now s filled w.expected
          same in
      (
        p',
        sent,
        w.rest p' _ (process_inbound_udp-on_data ext w.before from w.final w.fits w.low ∙ e)
            ∙ ap (λ es. done (p', answers from 0 ds ++ (es ∷ sent)))
                (write_file-cong w.filename w.id w.whole),
        λ hash.
            table hash
            ∙ ap (λ t. find_chunk t hash || eq_bytes hash w.chunk.hash) w.table
            ∙ ap (λ h. find_chunk p.has_chunk_table hash || eq_bytes hash h) w.hash,
      )

  -- wrong
  pub handle_all-reject :
      eq_bytes (ext.sha1 (joined pieces)) c.hash ≡ false
      → (p' : Peer) × (sent : List Effect) × (handle_all ext p from ds
          ≡ done (p', answers from 0 ds ++ sent))
        × (p'.has_chunk_table ≡ p.has_chunk_table)
        × AreSends sent
  handle_all-reject wrong =
      let w = completed in
      let s = IsFilling-IsReceiving ext w.before from w.final w.fits w.low w.filling in
      let peer_id = bt_peer_id w.before.config from in
      let other : eq_bytes (ext.sha1 (w.held ++ w.final.bytes)) w.chunk.hash ≡ false =
        rw (w.whole, w.hash) wrong in
      let (p', sent, e, table, sends) =
        on_data-reject ext w.before peer_id i w.number k w.request w.chunk w.held from
          (header_for w.final) (buffer_of w.final) w.final.bytes w.final.now s filled w.expected
          other in
      (
        p',
        sent,
        w.rest p' sent (process_inbound_udp-on_data ext w.before from w.final w.fits w.low ∙ e),
        table ∙ w.table,
        sends,
      )
