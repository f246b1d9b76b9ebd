-- ===== src/Peer/Run.antt =====
-- peer.c: a round of the loop of `peer_run`.
pub mod Typed
use bittorrent_with_congesti.Base.{ℕ, Option, none, some, List, [], ◌∷◌, ◌++◌, Outcome, done, ◌>>=◌}
use bittorrent_with_congesti.ChunkFiles.{Memory}
use bittorrent_with_congesti.Config.{Address}
use bittorrent_with_congesti.Files.{Disk}
use bittorrent_with_congesti.Files.Deposit.{carry_out}
use bittorrent_with_congesti.Peer.{Externals, Peer, Effect}
use bittorrent_with_congesti.Peer.Inbound.{process_inbound_udp}
use bittorrent_with_congesti.Peer.Loop.{download_peer_crash_wrapper, finish_request}
use bittorrent_with_congesti.Peer.Startup.{handle_user_input}
use bittorrent_with_congesti.Peer.Transmit.{send_data_packets}
use bittorrent_with_congesti.Tracker.Streams.{clean_upload_timeout}
use bittorrent_with_congesti.UserInput.{UserBuffer, process_user_input}

-- what the loop works on
pub record Running : Type 0 where
  pub peer : Peer
  pub userbuf : UserBuffer
  pub disk : Disk

abbrev pub Progress : Type 0
Progress = Outcome (Running × List Effect)

-- the calls of `handle_user_input` for the lines, in order
abbrev pub handle_lines : Memory → (fuel : ℕ) → Running → List (List ℕ) → Progress
handle_lines m fuel run [] = done (run, [])
handle_lines m fuel run (l ∷ ls) = do
  (p, d, out) ← handle_user_input m fuel run.peer run.disk l
  (run', later) ← handle_lines m fuel (record run { peer = p; disk = d }) ls
  done (run', out ++ later)

-- the input, if `select` says that there is some
abbrev pub on_input : Memory → (fuel : ℕ) → Running → Option (List ℕ) → Progress
on_input m fuel run none = done (run, [])
on_input m fuel run (some bytes) = do
  (lines, userbuf) ← process_user_input fuel run.userbuf bytes
  handle_lines m fuel (record run { userbuf = userbuf }) lines

-- a datagram, if there is one, and the blocks that it completes
abbrev pub on_datagram : Externals → Running → (now : ℕ) → Option (Address × List ℕ) → Progress
on_datagram ext run now none = done (run, [])
on_datagram ext run now (some (from, buf)) = do
  (p, out) ← process_inbound_udp ext run.peer from buf now
  done (record run { peer = p; disk = carry_out out run.disk }, out)

-- what has come when `select` returns, and the time
pub record Round : Type 0 where
  pub datagram : Option (Address × List ℕ)
  pub input : Option (List ℕ)
  pub now : ℕ

-- One round: a datagram and the input, then the packets that are due and the streams that have
-- fallen silent.
unfoldable pub run_round : Externals → Memory → (fuel : ℕ) → Running → Round → Progress
unfolding handle_user_input process_user_input finish_request
run_round ext m fuel run r = do
  (run₁, out₁) ← on_datagram ext run r.now r.datagram
  (run₂, out₂) ← on_input m fuel run₁ r.input
  let (p₃, out₃) = send_data_packets ext run₂.peer r.now
  let p₄ = record p₃ { tracker = (clean_upload_timeout p₃.tracker r.now).0 }
  (p₅, out₅) ← download_peer_crash_wrapper p₄ r.now
  done (record run₂ { peer = finish_request p₅ }, out₁ ++ out₂ ++ out₃ ++ out₅)
