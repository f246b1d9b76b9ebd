-- ===== src/Peer/Run/Typed.antt =====
-- peer.c and input_buffer.c: a user types a request, in as many pieces as it may be.
use mathlib.Core.Path.{subst}
use mathlib.Core.List.{flatten, append-nil}
use bittorrent_with_congesti.Base.{
  ◌≢◌, ◌==◌, Bool-cases, inl, inr, arith, ℕ, ◌+◌, ◌^◌, ◌<◌, ◌≤◌, ◌≡◌, refl, ap, ◌∙◌, false, none,
  some, List, [], ◌∷◌, ◌++◌, map, eq_bytes, length, done,
}
use bittorrent_with_congesti.Chunks.{not_started, chunk_size}
use bittorrent_with_congesti.ChunkFiles.{Memory, listing}
use bittorrent_with_congesti.ChunkFiles.Listing.{AreHashes, table}
use bittorrent_with_congesti.Files.{Disk, create_file}
use bittorrent_with_congesti.Peer.{Peer, Effect, send}
use bittorrent_with_congesti.Config.{PeerInfo}
use bittorrent_with_congesti.Wire.{Packet, wire_bytes}
use bittorrent_with_congesti.Peer.Loop.{flood}
use bittorrent_with_congesti.Peer.Run.{Running, on_input}
use bittorrent_with_congesti.Peer.Startup.{handle_user_input}
use bittorrent_with_congesti.Peer.Startup.Asking.{IsName, get_line, handle_user_input-get_line}
use bittorrent_with_congesti.Text.{newline, space}
use bittorrent_with_congesti.Text.Lines.{AreInLine}
use bittorrent_with_congesti.Text.Words.{AreVisible-AreInLine}
use bittorrent_with_congesti.UserInput.{process_user_input}
use bittorrent_with_congesti.UserInput.Split.{split, split-AreInLine, split-line, AreChars}
use bittorrent_with_congesti.UserInput.Refine.{holding, half, process_user_input-split}
use bittorrent_with_congesti.Wire.Whohas.{asking, AreGroups}

-- a request that is in the buffer up to some place, and comes to its end with what is read
pub record IsTyped (typed read chunkf outf rest : List ℕ) : Type 0 where
  pub text : typed ++ read ≡ get_line chunkf outf ++ (newline ∷ rest)
  pub typed_chars : AreChars typed
  pub read_chars : AreChars read
  pub rest_line : AreInLine rest
  pub short : length typed + length read ≤ half

get_line-AreInLine :
    (chunkf outf : List ℕ) → IsName chunkf → IsName outf → AreInLine (get_line chunkf outf)
get_line-AreInLine chunkf outf c o =
    let outf_line = subst AreInLine (append-nil outf) (AreVisible-AreInLine outf [] o.visible tt) in
    (
      refl,
      (
        refl,
        (refl, (refl, AreVisible-AreInLine chunkf (space ∷ outf) c.visible (refl, outf_line))),
      ),
    )

split-typed :
    (typed read chunkf outf rest : List ℕ)
    → IsName chunkf
    → IsName outf
    → IsTyped typed read chunkf outf rest
    → split (typed ++ read) ≡ (get_line chunkf outf ∷ [], rest)
split-typed typed read chunkf outf rest c o t =
    ap split t.text
    ∙ split-line (get_line chunkf outf) rest (get_line-AreInLine chunkf outf c o)
    ∙ ap (λ (r : List (List ℕ) × List ℕ). (get_line chunkf outf ∷ r.0, r.1))
        (split-AreInLine rest t.rest_line)

on_input-line :
    (m : Memory) (fuel : ℕ) (run : Running) (read line rest : List ℕ) {p : Peer} {d : Disk}
    {out : List Effect}
    → process_user_input fuel run.userbuf read ≡ done (line ∷ [], holding rest)
    → handle_user_input m fuel run.peer run.disk line ≡ done (p, d, out)
    → on_input m fuel run (some read)
      ≡ done (record { peer = p; userbuf = holding rest; disk = d }, out)
on_input-line m fuel run read line rest {p} {d} {out} e f = rw e (
    rw f
      (ap (λ o. done (record { peer = p; userbuf = holding rest; disk = d }, o)) (append-nil out)))

-- Each peer in the list whose identity is another one is sent these packets, at its address and in
-- this order, one peer after the other, and nothing else is sent.
pub data IsAsking (identity : ℕ) (packets : List Packet)
    : List PeerInfo → List Effect → Type 0 where
  nobody : IsAsking identity packets [] []
  asked :
      (q : PeerInfo) {qs : List PeerInfo} {out : List Effect}
      → q.id ≢ identity
      → IsAsking identity packets qs out
      → IsAsking identity packets
          (q ∷ qs)
          (map (λ packet. send (some q.addr) (wire_bytes packet)) packets ++ out)
  skipped :
      (q : PeerInfo) {qs : List PeerInfo} {out : List Effect}
      → q.id ≡ identity
      → IsAsking identity packets qs out
      → IsAsking identity packets (q ∷ qs) out

flood-IsAsking :
    (identity : ℕ) (qs : List PeerInfo) (packets : List Packet)
    → IsAsking identity packets qs (flood identity qs packets)
unfolding flood
flood-IsAsking identity [] packets = nobody
flood-IsAsking identity (q ∷ qs) packets = elim (Bool-cases (q.id == identity)) [
  | inl same ↦ rw same (skipped q (ground (arith, same)) (flood-IsAsking identity qs packets))
  | inr differs ↦
      rw differs (asked q (ground (arith, differs)) (flood-IsAsking identity qs packets))
]

-- The input buffer holds the start of a line "GET <file> <output>" of two different names of 1 to
-- 120 bytes without spaces, and a read brings the rest of it and perhaps the start of another line:
-- at most 4096 bytes in all, without NUL. The peer has no request, and the file is what
-- make_chunks.c prints for at most 255 hashes of 20 bytes; there is fuel for the bytes and the
-- hashes. Then the output file is made, the request is for these chunks, none of them started, with
-- the output file, each peer in the list whose identity is another one is sent, at its address,
-- packets of 1 to 74 hashes each that together ask for each hash once and in order, nothing else is
-- sent, and the buffer holds the start of the other line.
pub on_input-get_line :
    (m : Memory) (fuel : ℕ) (p : Peer) (d : Disk) (typed read chunkf outf rest : List ℕ)
    (hs : List (List ℕ))
    → IsTyped typed read chunkf outf rest
    → length typed + length read < fuel
    → IsName chunkf
    → IsName outf
    → eq_bytes chunkf outf ≡ false
    → p.current_request ≡ none
    → d.contents chunkf ≡ some (listing 0 hs)
    → AreHashes hs
    → length hs < 2 ^ 8
    → length hs < fuel
    → (gs : List (List (List ℕ))) × (flatten gs ≡ hs)
      × AreGroups gs
      × (out : List Effect) × IsAsking p.config.identity (map asking gs) p.config.peers out
      × (on_input m fuel (record { peer = p; userbuf = holding typed; disk = d }) (some read)
          ≡ done (
            record {
              peer = record p {
                current_request =
                    some (record { filename = some outf; chunks = table not_started 0 hs });
              };
              userbuf = holding rest;
              disk = (create_file d outf chunk_size).0;
            },
            out,
          ))
on_input-get_line m fuel p d typed read chunkf outf rest hs t room c o other idle listed ok small
      enough =
    let (gs, all, groups, handled) =
      handle_user_input-get_line m fuel p d chunkf outf hs c o other idle listed ok small enough in
    let lines =
      process_user_input-split fuel typed read t.typed_chars t.read_chars t.short room
      ∙ ap (λ (r : List (List ℕ) × List ℕ). done (r.0, holding r.1))
          (split-typed typed read chunkf outf rest c o t) in
    (
      gs,
      all,
      groups,
      flood p.config.identity p.config.peers (map asking gs),
      flood-IsAsking p.config.identity p.config.peers (map asking gs),
      on_input-line m fuel (record { peer = p; userbuf = holding typed; disk = d }) read
          (get_line chunkf outf) rest lines handled,
    )
