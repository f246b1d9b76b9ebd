-- ===== src/Config/CommandLine/Accept.antt =====
-- bt_parse.c: what holds of a configuration that the start accepts, and one that it does accept.
use mathlib.Core.Path.{subst}
use bittorrent_with_congesti.Base.{
  ℕ, ◌≡◌, ◌≢◌, refl, arith, false, Bool-cases, inl, inr, ◌||◌, Option, none, some, List, [], ◌∷◌,
  ◌==◌, ==_iff, done, >>=-eq-done,
}
use bittorrent_with_congesti.Config.{PeerInfo, info_of, bt_peer_info}
use bittorrent_with_congesti.Config.PeerList.{Scanned, bt_parse_peer_list}
use bittorrent_with_congesti.Config.CommandLine.{
  Settings, apply_options, is_empty, own_port, own_peer, bt_parse_command_line,
}

info_of-id :
    (peer_id : ℕ) (ps : List PeerInfo) {p : PeerInfo} → info_of peer_id ps ≡ some p → p.id ≡ peer_id
unfolding info_of
info_of-id peer_id [] h = cc
info_of-id peer_id (q ∷ qs) {p} h =
    ground (arith, info_of-id peer_id qs {p = p}, ==_iff q.id peer_id)

-- the configuration of a peer that can run
pub record IsAccepted (s : Settings) : Type 0 where
  pub identity : s.config.identity ≢ 0
  pub chunk_file : s.chunk_file ≢ []
  pub has_chunk_file : s.has_chunk_file ≢ []
  pub own :
      (p : PeerInfo) × (bt_peer_info s.config s.config.identity ≡ some p)
      × (p.id ≡ s.config.identity)
      × (s.myport ≡ p.addr.port)

is_empty-ne : (name : List ℕ) → is_empty name ≡ false → name ≢ []
is_empty-ne [] h e = cc
is_empty-ne (c ∷ cs) h e = cc

own_port-IsAccepted :
    (s : Settings) (found : Option PeerInfo) {s' : Settings}
    → s.config.identity ≢ 0
    → bt_peer_info s.config s.config.identity ≡ found
    → own_port s found ≡ done s'
    → IsAccepted s'
unfolding bt_peer_info
own_port-IsAccepted s none ne e h = absurd (cc)
own_port-IsAccepted s (some p) {s'} ne e h =
    elim (Bool-cases (is_empty s.chunk_file || is_empty s.has_chunk_file)) [
      | inl empty ↦ absurd (ground (arith, h, empty))
      | inr full ↦
          let same : record s { myport = p.addr.port } ≡ s' = ground (arith, h, full) in
          let accepted : IsAccepted (record s { myport = p.addr.port }) = record {
            identity = ne;
            chunk_file = is_empty-ne s.chunk_file (ground (arith, full));
            has_chunk_file = is_empty-ne s.has_chunk_file (ground (arith, full));
            own = (p, e, info_of-id s.config.identity s.config.peers e, refl);
          } in
          subst IsAccepted same accepted
    ]

own_peer-IsAccepted : (s : Settings) {s' : Settings} → own_peer s ≡ done s' → IsAccepted s'
own_peer-IsAccepted s {s'} h = elim (Bool-cases (s.config.identity == 0)) [
  | inl null ↦ absurd (ground (arith, h, null))
  | inr other ↦
      own_port-IsAccepted s (bt_peer_info s.config s.config.identity)
        (λ e. ground (arith, other, e)) refl (ground (arith, h, other))
]

-- If the start comes to an end, whatever the options and the files are, the peer has an identity
-- that is not 0, names for the chunk file and the file of its own chunks, an entry among the peers
-- with its identity, and the port of this entry.
pub bt_parse_command_line-IsAccepted :
    (gethostbyname : List ℕ → Option ℕ) (v : Scanned) (contents : List ℕ → Option (List ℕ))
    (settings s : Settings) (options : List (ℕ × List ℕ))
    → bt_parse_command_line gethostbyname v contents settings options ≡ done s
    → IsAccepted s
unfolding bt_parse_command_line
bt_parse_command_line-IsAccepted gethostbyname v contents settings s options h =
    let (s₁, _, rest) = >>=-eq-done (apply_options settings options) h in
    let (peers, _, last) =
      >>=-eq-done (bt_parse_peer_list gethostbyname v (contents s₁.peer_list_file) s₁.config.peers)
        rest in
    own_peer-IsAccepted (record s₁ { config = record s₁.config { peers = peers } }) last
