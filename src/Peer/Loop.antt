-- ===== src/Peer/Loop.antt =====
-- peer.c: a user's request, and the end of a round of `peer_run`; util.c: the recovery when
-- a peer that data came from has fallen silent.
use bittorrent_with_congesti.Base.{
  ℕ, Bool, true, false, Option, none, some, List, [], ◌∷◌, ◌++◌, map, ◌==◌, ◌||◌, if◌then◌else◌,
  is_neg, Outcome, done, crash, unfinished, ◌>>=◌,
}
use bittorrent_with_congesti.Tracker.{id_null}
use bittorrent_with_congesti.Tracker.Streams.{clean_download_timeout}
use bittorrent_with_congesti.Chunks.{Request, reset_chunk, all_chunk_finished}
use bittorrent_with_congesti.Connections.{pick_after_crash, remove_connection}
use bittorrent_with_congesti.Wire.{Packet, wire_bytes}
use bittorrent_with_congesti.Wire.Build.{make_whohas}
use bittorrent_with_congesti.Config.{Address, PeerInfo, Config, find_addr}
use bittorrent_with_congesti.Peer.{Peer, Effect, send}
use bittorrent_with_congesti.Peer.Inbound.{Step, fetch}

-- `send_whohas_packet_to_all`
abbrev pub send_all : Address → List Packet → List Effect
send_all addr packets = map (λ p. send (some addr) (wire_bytes p)) packets

unfoldable pub flood : (identity : ℕ) → List PeerInfo → List Packet → List Effect
flood identity [] packets = []
flood identity (q ∷ qs) packets =
    let rest = flood identity qs packets in
    if q.id == identity then rest else send_all q.addr packets ++ rest

-- `whohas_flooding`: every other peer is asked for the chunks not started.
unfoldable pub whohas_flooding : (fuel : ℕ) → Config → Request → Outcome (List Effect)
unfolding flood
whohas_flooding fuel config request = elim (make_whohas fuel request) [
  | none ↦ crash unfinished
  | some packets ↦ done (flood config.identity config.peers packets)
]

-- `process_get`, given what the parser makes of the chunk file
unfoldable pub process_get : (fuel : ℕ) → Peer → (parsed : Option Request) → Step
unfolding whohas_flooding
process_get fuel p parsed = elim p.current_request [
  | some _ ↦ done (p, [])
  | none ↦ elim parsed [
    | none ↦ done (p, [])
    | some r ↦ whohas_flooding fuel p.config r >>= λ sent.
        done (record p { current_request = some r }, sent)
  ]
]

-- `download_peer_crash`: whether a peer has been dropped
unfoldable pub download_peer_crash : Peer → (now : ℕ) → Peer × Bool
download_peer_crash p now =
    let (t, peer_id, lost) = clean_download_timeout p.tracker now in
    let p' = record p { tracker = t } in
    let recovered : Peer × Bool = elim p.current_request [
      | none ↦ (p', false)
      | some r ↦ elim lost [
        | none ↦ (p', false)
        | some hash ↦
            let again = record p' {
              current_request = some (record r { chunks = reset_chunk hash r.chunks });
            } in
            elim p.connections [
              | [] ↦ (p', false)
              | c ∷ cs ↦ elim (remove_connection peer_id (c ∷ cs)) [
                | none ↦ (again, false)
                | some others ↦ (record again { connections = others }, true)
              ]
            ]
      ]
    ] in
    if (peer_id == id_null) || is_neg peer_id then (p', false) else recovered

-- `download_peer_crash_wrapper`: after a loss an idle peer is asked for a chunk.
unfoldable pub download_peer_crash_wrapper : Peer → (now : ℕ) → Step
unfolding download_peer_crash fetch
download_peer_crash_wrapper p now =
    let (p', dropped) = download_peer_crash p now in
    let resumed : Step = elim p'.current_request [
      | none ↦ done (p', [])
      | some r ↦ pick_after_crash p'.connections p'.connections r.chunks >>= λ (found, chunks).
          let picked = record p' { current_request = some (record r { chunks = chunks }) } in
          elim found [
            | none ↦ done (picked, [])
            | some (chunk, peer_id) ↦
                done (fetch picked peer_id (find_addr p.config peer_id) chunk now)
          ]
    ] in
    if dropped then resumed else done (p', [])

-- the end of a round: a request whose chunks are all there is dropped
unfoldable pub finish_request : Peer → Peer
finish_request p =
    if all_chunk_finished p.current_request then record p { current_request = none } else p
