-- ===== src/Peer.antt =====
-- peer.c: the state of a peer, and what it does to the world.
pub mod Transmit
pub mod Inbound
pub mod Loop
pub mod Startup
pub mod Run
use bittorrent_with_congesti.Base.{ℕ, Option, List}
use bittorrent_with_congesti.Tracker.{Tracker}
use bittorrent_with_congesti.Tracker.Send.{Smoothing}
use bittorrent_with_congesti.Congestion.{Controller}
use bittorrent_with_congesti.Chunks.{Request}
use bittorrent_with_congesti.Connections.{Connection}
use bittorrent_with_congesti.Config.{Address, Config}

-- What the code calls and does not implement: the arithmetic of the estimate, the hash function of
-- the SHA-1 library, and the bytes that `read_file` leaves in a buffer of `size` bytes when it reads
-- the data file at `offset`.
pub record Externals : Type 0 where
  pub smoothing : Smoothing
  pub sha1 : List ℕ → List ℕ
  pub read_file : (size offset : ℕ) → List ℕ

-- the global variables
pub record Peer : Type 0 where
  pub config : Config
  pub tracker : Tracker
  pub controller : Controller
  pub has_chunk_table : Request
  pub total_chunk_table : Request
  pub current_request : Option Request
  pub connections : List Connection

-- `send_packet` to an address (`NULL` is `none`), and `write_file`
pub data Effect : Type 0 where
  send : Option Address → List ℕ → Effect
  write_file : Option (List ℕ) → (offset : ℕ) → List ℕ → Effect
