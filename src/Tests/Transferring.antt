-- ===== src/Tests/Transferring.antt =====
-- network.c and peer.c: a whole chunk on its way, with a stray packet before each of its own.
use bittorrent_with_congesti.Base.{
  ℕ, zero, suc, ◌+◌, ◌<◌, ◌≤◌, ◌≡◌, refl, ap, arith, inl, inr, ◌||◌, List, [], ◌∷◌, ◌++◌, length,
  take, drop, eq_bytes, done, some, none, ◌-◌, ◌*◌,
}
use bittorrent_with_congesti.Tracker.{index_of}
use bittorrent_with_congesti.Tracker.Streams.{find_download, get_chunk_hash}
use bittorrent_with_congesti.Chunks.{
  Chunk, Request, receiving, chunk_size, find_chunk, get_chunk_id,
}
use bittorrent_with_congesti.Config.{Config, bt_peer_id}
use bittorrent_with_congesti.Wire.{max_payload_size}
use bittorrent_with_congesti.Peer.{Externals, Peer, Effect, write_file}
use bittorrent_with_congesti.Peer.Transmit.{data_bytes, data_size, max_packet_per_chunk}
use bittorrent_with_congesti.Peer.Transmit.Cover.{length-data_bytes}
use bittorrent_with_congesti.Peer.Inbound.Complete.{AreSends}
use bittorrent_with_congesti.Peer.Inbound.Whole.{
  Datagram, handle_all, Brings, AreSmall, answers, IsFilling,
}
use bittorrent_with_congesti.Peer.Inbound.Whole.Transfer.{
  pieces_from, length-pieces_from, handle_all-transfer, handle_all-corrupt,
}
use bittorrent_with_congesti.Tests.{
  chunk_in, request, tracker, download, externals, hash_of, peer, sender,
}

-- Opaque, since a whole block is too long to be computed.
bytes_of : (n : ℕ) → (byte : ℕ) → List ℕ
bytes_of zero byte = []
bytes_of (suc n) byte = byte ∷ bytes_of n byte

length-bytes_of : (n byte : ℕ) → length (bytes_of n byte) ≡ n
unfolding bytes_of
length-bytes_of zero byte = refl
length-bytes_of (suc n) byte = ap suc (length-bytes_of n byte)

-- A data file of one block, which begins with this byte; its hash is the hash of its first byte.
abbrev file : ℕ → List ℕ
file byte = byte ∷ bytes_of (chunk_size - 1) 0

abbrev uploader : ℕ → Externals
uploader byte = record externals { read_file = λ size offset. take size (drop offset (file byte)) }

-- the packet of each piece, with a stray packet of the number 1000 before it
datagrams : (pieces : List (List ℕ)) → (last : ℕ) → List Datagram
datagrams [] last = []
datagrams (b ∷ bs) last =
    record { seq = 1000; bytes = 5 ∷ []; rest = []; now = last }
    ∷ record { seq = suc last; bytes = b; rest = 9 ∷ []; now = last }
    ∷ datagrams bs (suc last)

datagrams-Brings :
    (pieces : List (List ℕ)) (last : ℕ)
    → last + length pieces < 1000
    → Brings last pieces (datagrams pieces last)
unfolding datagrams
datagrams-Brings [] last h = tt
datagrams-Brings (b ∷ bs) last h = inr (
  λ e. omega arith,
  λ e. omega arith,
  inl (refl, refl, datagrams-Brings bs (suc last) (omega arith)),
)

datagrams-AreSmall :
    (ext : Externals) (n seq : ℕ)
    → ((s : ℕ) → s < seq + n → length (data_bytes ext 0 s) ≤ max_payload_size)
    → seq + n < 1000
    → AreSmall (datagrams (pieces_from ext 0 n seq) seq)
unfolding datagrams
datagrams-AreSmall ext zero seq h few = tt
datagrams-AreSmall ext (suc n) seq h few = (
  omega arith,
  omega arith,
  (
    h seq (omega arith),
    omega arith,
    datagrams-AreSmall ext n (suc seq) (λ s lt. h s (omega arith)) (omega arith),
  ),
)

abbrev begun : Chunk
begun = chunk_in receiving 0

abbrev wanted : Request
wanted = record request { chunks = begun ∷ [] }

abbrev config : Config
config = record { peers = record { id = 7; addr = sender } ∷ []; identity = 1 }

abbrev waiting : Peer
waiting = record peer {
  config = config;
  tracker = record tracker { downloads = record download { hash = hash_of 0 } ∷ [] };
  current_request = some wanted;
}

waiting-IsFilling : IsFilling waiting sender 0 0 0 wanted begun []
unfolding bt_peer_id get_chunk_hash find_download index_of get_chunk_id
waiting-IsFilling = record {
  stream = record { found = refl; chain = (record download { hash = hash_of 0 }, refl, 1, refl) };
  request = refl;
  hash = hash_of 0;
  asked = refl;
  index = refl;
  in_table = refl;
  in_range = omega arith;
  small = omega arith;
  holds = record { state = refl; buffer = inr (refl, refl); count = refl };
}

data_size-le : (seq : ℕ) → data_size seq ≤ max_payload_size
data_size-le seq = ground arith

abbrev arriving : ℕ → List Datagram
arriving byte = datagrams (pieces_from (uploader byte) 0 max_packet_per_chunk 0) 0

present : (byte : ℕ) → (0 + 1) * chunk_size ≤ length (file byte)
present byte = omega (arith, length-bytes_of (chunk_size - 1) 0)

arriving-AreSmall : (byte : ℕ) → AreSmall (arriving byte)
arriving-AreSmall byte =
    datagrams-AreSmall (uploader byte) max_packet_per_chunk 0
      (λ s lt. omega (
        arith,
        length-data_bytes (uploader byte) (file byte) 0 (λ size offset within low. refl)
            (omega arith) (present byte) s (omega arith),
        data_size-le s,
      ))
      (omega arith)

arriving-Brings :
    (byte : ℕ) → Brings 0 (pieces_from (uploader byte) 0 max_packet_per_chunk 0) (arriving byte)
arriving-Brings byte =
    datagrams-Brings (pieces_from (uploader byte) 0 max_packet_per_chunk 0) 0
      (omega (arith, length-pieces_from (uploader byte) 0 max_packet_per_chunk 0))

handle_all-transfer_example :
    (p' : Peer) × (sent : List Effect) × (handle_all externals waiting sender (arriving 0)
      ≡ done (
        p',
        answers sender 0 (arriving 0)
            ++ (write_file none 0 (take chunk_size (drop 0 (file 0))) ∷ sent),
      ))
    × ((hash : List ℕ)
        → find_chunk p'.has_chunk_table hash
          ≡ (find_chunk request hash || eq_bytes hash (hash_of 0)))
handle_all-transfer_example =
    handle_all-transfer (uploader 0) externals (file 0) waiting sender 0 0 wanted begun (arriving 0)
      (λ size offset within low. refl) (omega arith) (present 0) waiting-IsFilling
      (arriving-AreSmall 0) (arriving-Brings 0) refl

handle_all-corrupt_example :
    (p' : Peer) × (sent : List Effect) × (handle_all externals waiting sender (arriving 3)
      ≡ done (p', answers sender 0 (arriving 3) ++ sent))
    × (p'.has_chunk_table ≡ request)
    × AreSends sent
handle_all-corrupt_example =
    handle_all-corrupt (uploader 3) externals (file 3) waiting sender 0 0 wanted begun (arriving 3)
      (λ size offset within low. refl) (omega arith) (present 3) waiting-IsFilling
      (arriving-AreSmall 3) (arriving-Brings 3) refl
