-- ===== src/Tracker.antt =====
-- keep_track.c: the state of the streams with other peers, and the lookup of a stream by its peer.
-- The parallel arrays of a direction, indexed by stream, are one list of records here, whose
-- length is `max_conns`. A `NULL`-terminated chain of nodes is a list; `sent_queue_tail[i]` is
-- the sequence number of the node that it points at. Clock readings are arguments.
pub mod Exchange
pub mod Receive
pub mod Send
pub mod Slots
pub mod Streams
use bittorrent_with_congesti.Base.{
  ℕ, zero, suc, ◌+◌, ◌*◌, Option, none, some, List, [], ◌∷◌, map, ◌==◌, if◌then◌else◌,
}

-- `ID_NULL`
abbrev pub id_null : ℕ
id_null = 0

-- `struct packet_record`
pub record PacketRecord : Type 0 where
  pub seq : ℕ
  pub length : ℕ

-- `struct sent_packet`
pub record SentPacket : Type 0 where
  pub seq : ℕ
  pub timestamp : ℕ

-- one index of the download arrays
pub record Download : Type 0 where
  pub id : ℕ
  pub hash : List ℕ
  pub last_time : ℕ
  pub last_acked_record : List PacketRecord

-- one index of the upload arrays
pub record Upload : Type 0 where
  pub id : ℕ
  pub chunk_id : ℕ
  pub last_time : ℕ
  pub queue : List SentPacket
  pub tail : Option ℕ
  pub queue_size : ℕ
  pub last_ack : ℕ
  pub dup_ack_count : ℕ

-- the network parameters, `int`s in microseconds
pub record Timers : Type 0 where
  pub rtt : ℕ
  pub deviation : ℕ
  pub rto : ℕ

pub record Tracker : Type 0 where
  pub downloads : List Download
  pub uploads : List Upload
  pub timers : Timers

-- Memory that `malloc` has returned keeps its values except where `memset` clears it.
abbrev pub clear_download : Download → Download
clear_download d = record d { id = id_null; last_acked_record = [] }

abbrev pub clear_upload : Upload → Upload
clear_upload u = record u { id = id_null; queue = []; tail = none; queue_size = 0 }

-- `init_tracker`, with what the allocated arrays hold; the allocations succeed
unfoldable pub init_tracker : List Download → List Upload → Tracker
init_tracker ds us = record {
  downloads = map clear_download ds;
  uploads = map clear_upload us;
  timers = record { rtt = 800 * 1000; deviation = 200 * 1000; rto = 1600 * 1000 };
}

-- The first index at which an array of ids holds `id`.
abbrev pub next_index : Option ℕ → Option ℕ
next_index none = none
next_index (some i) = some (suc i)

unfoldable pub index_of {ℓ} : {A : Type ℓ} → (A → ℕ) → ℕ → List A → Option ℕ
index_of key id [] = none
index_of key id (x ∷ xs) =
    let rest = next_index (index_of key id xs) in if key x == id then some zero else rest

abbrev pub get_download_index_by_id : Tracker → ℕ → Option ℕ
get_download_index_by_id t id = index_of Download.id id t.downloads

abbrev pub get_upload_index_by_id : Tracker → ℕ → Option ℕ
get_upload_index_by_id t id = index_of Upload.id id t.uploads
