-- ===== src/Peer/Inbound/Complete.antt =====
-- peer.c, `case DATA`: the packet that completes a chunk.
use bittorrent_with_congesti.Base.{
  ℕ, ◌+◌, ◌*◌, ◌%◌, ◌^◌, ◌≡◌, refl, ap, ◌∙◌, arith, true, false, ◌||◌, Option, some, Option-cases,
  Bool-cases, inl, inr, List, [], ◌∷◌, ◌++◌, length, length-append, eq_bytes, slice, set,
  if◌then◌else◌, done, ◌>>=◌,
}
use bittorrent_with_congesti.Tracker.Receive.InOrder.{in_order}
use bittorrent_with_congesti.Tracker.Streams.{start_download, abort_download}
use bittorrent_with_congesti.Chunks.{
  Chunk, Request, owned, not_started, chunk_size, is_owned, save_data, check_chunk, find_chunk,
  update_ihave_table,
}
use bittorrent_with_congesti.Chunks.Save.{
  Holds, extended, emptied, judged, save_data-Holds, check_chunk-full,
}
use bittorrent_with_congesti.Chunks.Pick.{pick-Picks}
use bittorrent_with_congesti.Chunks.Tables.{update_ihave_table-find_chunk}
use bittorrent_with_congesti.Connections.{peer_contain_chunk, pick_a_new_chunk}
use bittorrent_with_congesti.Wire.{Header}
use bittorrent_with_congesti.Wire.Build.{make_ack}
use bittorrent_with_congesti.Config.{Address}
use bittorrent_with_congesti.Peer.{Externals, Peer, Effect, send, write_file}
use bittorrent_with_congesti.Peer.Inbound.{
  reply, payload_size, fetch, idle, continue_with, save_packet, save_expected, on_data,
}
use bittorrent_with_congesti.Peer.Inbound.Receive.{IsReceiving, tracked, on_data-expected}

-- Nothing is written to a file.
abbrev pub AreSends : List Effect → Type 0
AreSends [] = Unit
AreSends (send to bytes ∷ es) = AreSends es
AreSends (write_file name offset block ∷ es) = ⊥

fetch-AreSends :
    (p : Peer) (peer_id : ℕ) (to : Option Address) (chunk : Chunk) (now : ℕ)
    → AreSends (fetch p peer_id to chunk now).1
unfolding fetch
fetch-AreSends p peer_id to chunk now =
    elim (Bool-cases (start_download p.tracker peer_id chunk.hash now now).1) [
      | inl e ↦ rw e tt
      | inr e ↦ rw e tt
    ]

-- What goes on after a chunk never faults, writes no file, and leaves the table of the peer's chunks
-- as it is.
continue_with-done :
    (p : Peer) (r : Request) (peer_id : ℕ) (from : Address) (now : ℕ)
    → (p' : Peer) × (sent : List Effect) × (continue_with p r peer_id from now ≡ done (p', sent))
      × (p'.has_chunk_table ≡ p.has_chunk_table)
      × AreSends sent
unfolding continue_with pick_a_new_chunk
continue_with-done p r peer_id from now =
    let (found, chunks, e, _) =
      pick-Picks (λ hash. peer_contain_chunk peer_id hash p.connections) r.chunks in
    let picked = record p {
      tracker = (abort_download p.tracker peer_id).0;
      current_request = some (record r { chunks = chunks });
    } in
    elim (Option-cases found) [
      | inl n ↦ (idle picked peer_id, [], rw (e, n), refl, tt)
      | inr (chunk, y) ↦ (
        (fetch picked peer_id (some from) chunk now).0,
        (fetch picked peer_id (some from) chunk now).1,
        rw (e, y),
        unfold fetch in refl,
        fetch-AreSends picked peer_id (some from) chunk now,
      )
    ]

module _ (ext : Externals) (p : Peer) (r : Request) (k : ℕ) (c : Chunk) (peer_id : ℕ)
    (from : Address) (h : Header) (buf : List ℕ) (now : ℕ) (bytes more : List ℕ)
    (holds : Holds c bytes) (read : slice buf h.header_length (payload_size h) ≡ done more)
    (full : length bytes + length more ≡ chunk_size) where
  got :
      (if is_owned c.state then done [] else slice buf h.header_length (payload_size h)) ≡ done more
  got = rw holds.state read

  saved : save_data c h.seq_number more ≡ done (extended c h.seq_number bytes more)
  saved = (save_data-Holds c h.seq_number bytes more holds (omega arith)).0

  checked :
      check_chunk ext.sha1 (extended c h.seq_number bytes more)
      ≡ judged ext.sha1 (extended c h.seq_number bytes more) (bytes ++ more)
  checked =
      check_chunk-full ext.sha1 (extended c h.seq_number bytes more) (bytes ++ more) refl
        (save_data-Holds c h.seq_number bytes more holds (omega arith)).1
        (omega (arith, length-append bytes more))

  save_packet-right :
      eq_bytes (ext.sha1 (bytes ++ more)) c.hash ≡ true
      → save_packet ext p r k c peer_id from h buf now ≡ (
          continue_with
            (record p {
              has_chunk_table =
                  update_ihave_table p.has_chunk_table p.total_chunk_table (emptied c owned);
            })
            (record r { chunks = set r.chunks k (emptied c owned) })
            peer_id
            from
            now
          >>= λ (p', sent).
              done (p', write_file r.filename (c.id * chunk_size % 2 ^ 32) (bytes ++ more) ∷ sent))
  unfolding save_packet
  save_packet-right right = rw got (rw saved (rw checked (rw right)))

  save_packet-wrong :
      eq_bytes (ext.sha1 (bytes ++ more)) c.hash ≡ false
      → save_packet ext p r k c peer_id from h buf now
        ≡ continue_with p
            (record r { chunks = set r.chunks k (emptied c not_started) })
            peer_id
            from
            now
  unfolding save_packet
  save_packet-wrong wrong = rw got (rw saved (rw checked (rw wrong)))

module _ (ext : Externals) (p : Peer) (peer_id i last k : ℕ) (r : Request) (c : Chunk)
    (bytes : List ℕ) (from : Address) (h : Header) (buf more : List ℕ) (now : ℕ)
    (s : IsReceiving p peer_id i last k r c bytes h buf more)
    (full : length bytes + length more ≡ chunk_size)
    (expected : in_order last h.seq_number ≡ h.seq_number) where
  abbrev received : Peer
  received = record p { tracker = tracked ext p peer_id i last k r c bytes from h buf more now s }

  save_expected-result :
      {p' : Peer} {sent : List Effect}
      → save_packet ext received r k c peer_id from h buf now ≡ done (p', sent)
      → on_data ext p peer_id from h buf now ≡ done (p', reply from (make_ack h.seq_number) ++ sent)
  unfolding save_expected
  save_expected-result e =
      on_data-expected ext p peer_id i last k r c bytes from h buf more now s expected
      ∙ rw (s.in_table, save_expected) (rw e)

  -- A stream stands at `last`; its chunk stands in the request's table (of fewer than 2^31 chunks)
  -- at the index that is its id, and holds `bytes`. A packet, the next in order or `last` again,
  -- brings `more`; the two make up a whole block, which has the chunk's hash. Then the handler does
  -- not fault. It acknowledges the packet and writes the block to the place that the chunk's id
  -- says, before whatever else it sends, and the table of the peer's chunks has the hash of the
  -- chunk, and else the hashes that it had.
  pub on_data-accept :
      eq_bytes (ext.sha1 (bytes ++ more)) c.hash ≡ true
      → (p' : Peer) × (sent : List Effect) × (on_data ext p peer_id from h buf now
          ≡ done (
            p',
            reply from (make_ack h.seq_number)
                ++ (write_file r.filename (c.id * chunk_size % 2 ^ 32) (bytes ++ more) ∷ sent),
          ))
        × ((hash : List ℕ)
            → find_chunk p'.has_chunk_table hash
              ≡ (find_chunk p.has_chunk_table hash || eq_bytes hash c.hash))
  on_data-accept right =
      let entered : Peer = record received {
        has_chunk_table =
            update_ihave_table p.has_chunk_table p.total_chunk_table (emptied c owned);
      } in
      let (p', sent, e, table, sends) =
        continue_with-done entered (record r { chunks = set r.chunks k (emptied c owned) }) peer_id
          from now in
      (
        p',
        sent,
        save_expected-result (
            save_packet-right ext received r k c peer_id from h buf now bytes more s.holds s.read
              full right
            ∙ rw e),
        λ hash.
            ap (λ t. find_chunk t hash) table
            ∙ update_ihave_table-find_chunk p.has_chunk_table p.total_chunk_table (emptied c owned)
                hash,
      )

  -- A stream stands at `last`; its chunk stands in the request's table (of fewer than 2^31 chunks)
  -- at the index that is its id, and holds `bytes`. A packet, the next in order or `last` again,
  -- brings `more`; the two make up a whole block, which does not have the chunk's hash. Then the
  -- handler does not fault, acknowledges the packet before whatever else it sends, writes nothing,
  -- and leaves the table of the peer's chunks as it was.
  pub on_data-reject :
      eq_bytes (ext.sha1 (bytes ++ more)) c.hash ≡ false
      → (p' : Peer) × (sent : List Effect) × (on_data ext p peer_id from h buf now
          ≡ done (p', reply from (make_ack h.seq_number) ++ sent))
        × (p'.has_chunk_table ≡ p.has_chunk_table)
        × AreSends sent
  on_data-reject wrong =
      let (p', sent, e, table, sends) =
        continue_with-done received (record r { chunks = set r.chunks k (emptied c not_started) })
          peer_id from now in
      (
        p',
        sent,
        save_expected-result (
            save_packet-wrong ext received r k c peer_id from h buf now bytes more s.holds s.read
              full wrong
            ∙ e),
        table,
        sends,
      )
