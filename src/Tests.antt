-- ===== src/Tests.antt =====
-- A peer with two streams and a request of three chunks, on which the modules below run the code.
pub mod Receiving
pub mod Sending
pub mod Storing
pub mod Completing
pub mod Packets
pub mod Streams
pub mod Depositing
pub mod Starting
pub mod Exchanging
pub mod Transferring
pub mod Queueing
pub mod Printing
pub mod Unused
use bittorrent_with_congesti.Base.{
  ℕ, ◌+◌, ◌*◌, ◌/◌, ◌%◌, ◌^◌, Option, none, some, List, [], ◌∷◌, ◌++◌, replicate,
}
use bittorrent_with_congesti.Tracker.{SentPacket, PacketRecord, Download, Upload, Timers, Tracker}
use bittorrent_with_congesti.Tracker.Send.{Smoothing}
use bittorrent_with_congesti.Congestion.{Window, Controller, slow_start}
use bittorrent_with_congesti.Chunks.{Chunk, Request, ChunkState, not_started, receiving}
use bittorrent_with_congesti.Config.{Address, Config}
use bittorrent_with_congesti.Peer.{Externals, Peer}

abbrev pub hash_of : ℕ → List ℕ
hash_of n = replicate 20 n

abbrev pub chunk_in : ChunkState → (id : ℕ) → Chunk
chunk_in state id = record {
  id = id;
  hash = hash_of id;
  state = state;
  buffer = none;
  received_seq_number = 0;
  received_byte_number = 0;
}

abbrev pub request : Request
request = record {
  filename = none;
  chunks = chunk_in not_started 0 ∷ chunk_in receiving 1 ∷ chunk_in not_started 2 ∷ [];
}

abbrev pub download : Download
download = record {
  id = 7;
  hash = hash_of 1;
  last_time = 0;
  last_acked_record = record { seq = 0; length = 1 } ∷ [];
}

-- the numbers 4 and 5 are outstanding
abbrev pub upload : Upload
upload = record {
  id = 9;
  chunk_id = 2;
  last_time = 0;
  queue = record { seq = 4; timestamp = 1000 } ∷ record { seq = 5; timestamp = 2000 } ∷ [];
  tail = some 5;
  queue_size = 2;
  last_ack = 3;
  dup_ack_count = 0;
}

abbrev pub timers : Timers
timers = record { rtt = 800 * 1000; deviation = 200 * 1000; rto = 1600 * 1000 }

abbrev pub tracker : Tracker
tracker = record { downloads = download ∷ []; uploads = upload ∷ []; timers = timers }

abbrev pub window : Window
window = record { policy = slow_start; cwnd = 4; max_cwnd = 4; ack_count = 0 }

abbrev pub controller : Controller
controller = record { windows = window ∷ []; base_time = 0; log = [] }

abbrev pub config : Config
config = record { peers = []; identity = 1 }

-- an estimate that moves by a sixteenth, a hash that repeats the first byte, and a file of zeros
abbrev pub smoothing : Smoothing
smoothing = record {
  smooth_rtt = λ old new. (15 * old + new) / 16;
  smooth_deviation = λ old new. (15 * old + new) / 16;
}

abbrev first_byte : List ℕ → ℕ
first_byte [] = 0
first_byte (b ∷ _) = b

abbrev pub externals : Externals
externals = record {
  smoothing = smoothing;
  sha1 = λ bytes. hash_of (first_byte bytes);
  read_file = λ size offset. replicate size 0;
}

abbrev pub peer : Peer
peer = record {
  config = config;
  tracker = tracker;
  controller = controller;
  has_chunk_table = request;
  total_chunk_table = request;
  current_request = some request;
  connections = [];
}

abbrev pub sender : Address
sender = record { ip = 1; port = 2 }
