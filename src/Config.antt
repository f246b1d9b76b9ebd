-- ===== src/Config.antt =====
-- bt_parse.c: the peers of the network, as the configuration lists them.
pub mod CommandLine
pub mod PeerList
use bittorrent_with_congesti.Base.{
  ℕ, Option, none, some, List, [], ◌∷◌, ◌==◌, if◌then◌else◌, minus_one,
}

-- `struct sockaddr_in`, as far as it is read
pub record Address : Type 0 where
  pub ip : ℕ
  pub port : ℕ

-- `bt_peer_t`; the `short` id is kept as the `int` that it is converted to
pub record PeerInfo : Type 0 where
  pub id : ℕ
  pub addr : Address

-- `bt_config_t`, what the program reads after its start
pub record Config : Type 0 where
  pub peers : List PeerInfo
  pub identity : ℕ

pub info_of : ℕ → List PeerInfo → Option PeerInfo
info_of peer_id [] = none
info_of peer_id (p ∷ ps) = if p.id == peer_id then some p else info_of peer_id ps

unfoldable pub bt_peer_info : Config → ℕ → Option PeerInfo
unfolding info_of
bt_peer_info config peer_id = info_of peer_id config.peers

id_at_port : ℕ → List PeerInfo → ℕ
id_at_port port [] = minus_one
id_at_port port (p ∷ ps) = if p.addr.port == port then p.id else id_at_port port ps

-- The peer of an address. Only the port is compared.
unfoldable pub bt_peer_id : Config → Address → ℕ
unfolding id_at_port
bt_peer_id config addr = id_at_port addr.port config.peers

-- network.c's `find_addr`
unfoldable pub find_addr : Config → ℕ → Option Address
unfolding bt_peer_info
find_addr config peer_id = elim (bt_peer_info config peer_id) [ none ↦ none | some p ↦ some p.addr ]
