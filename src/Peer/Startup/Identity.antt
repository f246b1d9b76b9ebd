-- ===== src/Peer/Startup/Identity.antt =====
-- peer.c and bt_parse.c: a peer that starts knows itself.
use mathlib.Core.Path.{subst}
use bittorrent_with_congesti.Base.{
  ℕ, ◌≡◌, ◌≢◌, sym, ap, Option, none, some, List, Outcome, done, crash, >>=-eq-done,
}
use bittorrent_with_congesti.Chunks.{Request}
use bittorrent_with_congesti.ChunkFiles.{parse_has_get_chunk_file, parse_total_chunk_file}
use bittorrent_with_congesti.Config.{PeerInfo, Config, bt_peer_info, find_addr}
use bittorrent_with_congesti.Config.PeerList.{Scanned}
use bittorrent_with_congesti.Config.CommandLine.{Settings, bt_init, bt_parse_command_line}
use bittorrent_with_congesti.Config.CommandLine.Accept.{bt_parse_command_line-IsAccepted}
use bittorrent_with_congesti.Spiffy.{Spiffy, disabled}
use bittorrent_with_congesti.Peer.Startup.{
  Fresh, Started, with_tables, peer_run_start, testing_defaults, main_start,
}

config_of : Config → Outcome (Option Started) → Config
config_of c (done (some st)) = st.peer.config
config_of c (done none) = c
config_of c (crash e) = c

with_tables-config :
    (fresh : Fresh) (s : Settings) (now : ℕ) (spiffy : Spiffy) (master : Option (List ℕ))
    (has total : Option Request) {st : Started}
    → with_tables fresh s now spiffy master has total ≡ done (some st)
    → st.peer.config ≡ s.config
unfolding config_of
with_tables-config fresh s now spiffy master none total h = cc
with_tables-config fresh s now spiffy master (some has) none h = cc
with_tables-config fresh s now spiffy none (some has) (some total) h = cc
with_tables-config fresh s now spiffy (some file) (some has) (some total) h =
    sym (ap (config_of s.config) h)

peer_run_start-config :
    (fresh : Fresh) (contents : List ℕ → Option (List ℕ)) (inet_aton : List ℕ → Option ℕ)
    (router : Option (List ℕ)) (spiffy : Spiffy) (s : Settings) (now : ℕ) {st : Started}
    → peer_run_start fresh contents inet_aton router spiffy s now ≡ done (some st)
    → st.peer.config ≡ s.config
unfolding peer_run_start
peer_run_start-config fresh contents inet_aton router spiffy s now h =
    let (has, _, rest) =
      >>=-eq-done (parse_has_get_chunk_file fresh.memory (contents s.has_chunk_file) none) h in
    let (total, _, last) =
      >>=-eq-done (parse_total_chunk_file fresh.memory (contents s.chunk_file) none) rest in
    with_tables-config fresh s now _ (contents s.chunk_file) has total last

abbrev pub KnowsItself : Config → Type 0
KnowsItself config =
    (config.identity ≢ 0)
    × ((p : PeerInfo) × (bt_peer_info config config.identity ≡ some p)
        × (p.id ≡ config.identity)
        × (find_addr config config.identity ≡ some p.addr))

find_addr-some :
    (config : Config) (peer_id : ℕ) {p : PeerInfo}
    → bt_peer_info config peer_id ≡ some p
    → find_addr config peer_id ≡ some p.addr
unfolding find_addr
find_addr-some config peer_id e = rw (e, find_addr)

-- If a program that is started comes as far as the loop, with whatever options, files and
-- environment, its identity is not 0, and its list of peers has an entry with this identity, at
-- which the peer finds its own address.
pub main_start-KnowsItself :
    (gethostbyname inet_aton : List ℕ → Option ℕ) (v : Scanned) (fresh : Fresh)
    (contents : List ℕ → Option (List ℕ)) (router : Option (List ℕ)) (options : List (ℕ × List ℕ))
    (now : ℕ) (st : Started)
    → main_start gethostbyname inet_aton v fresh contents router options now ≡ done (some st)
    → KnowsItself st.peer.config
unfolding main_start
main_start-KnowsItself gethostbyname inet_aton v fresh contents router options now st h =
    let (s, parsed, run) =
      >>=-eq-done
        (bt_parse_command_line gethostbyname v contents (testing_defaults bt_init) options) h in
    let accepted =
      bt_parse_command_line-IsAccepted gethostbyname v contents (testing_defaults bt_init) s options
        parsed in
    let (p, found, same, _) = accepted.own in
    subst KnowsItself
      (sym (peer_run_start-config fresh contents inet_aton router disabled s now run))
      (accepted.identity, (p, found, same, find_addr-some s.config s.config.identity found))
