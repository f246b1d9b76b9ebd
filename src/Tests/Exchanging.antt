-- ===== src/Tests/Exchanging.antt =====
-- spiffy.c and keep_track.c: a datagram by way of the router, turns on a network that loses packets,
-- and input_buffer.c: lines that come in pieces.
use bittorrent_with_congesti.Base.{
  ℕ, ◌^◌, ◌≡◌, refl, arith, true, none, some, List, [], ◌∷◌, inl, length, take, done,
}
use bittorrent_with_congesti.Config.{Address}
use bittorrent_with_congesti.Spiffy.{
  Spiffy, inet, family_unset, Datagram, spiffy_sendto, arrived, spiffy_recvfrom,
}
use bittorrent_with_congesti.Spiffy.Envelope.{spiffy_recvfrom-spiffy_sendto}
use bittorrent_with_congesti.Tracker.{Upload, Timers, Tracker, index_of}
use bittorrent_with_congesti.Tracker.Exchange.{packet_lost, ack_lost, delivered, Turn, exchange}
use bittorrent_with_congesti.Tracker.Exchange.Progress.{IsPair, exchange-IsPair}
use bittorrent_with_congesti.UserInput.{create_userbuf, process_user_input}
use bittorrent_with_congesti.UserInput.Refine.{holding, process_user_input-split}
use bittorrent_with_congesti.UserInput.Reads.{process_reads, joined, process_reads-joined}
use bittorrent_with_congesti.UserInput.Split.{split}
use bittorrent_with_congesti.Tests.{smoothing, timers, tracker, upload}

abbrev simulated : Spiffy
simulated = record {
  enabled = true;
  node_id = 3;
  src = record { ip = 0; port = 1111 };
  router = record { ip = 2 ^ 24; port = 12345 };
}

abbrev other : Address
other = record { ip = 5; port = 2222 }

abbrev all_sent : Datagram → ℕ
all_sent d = length d.bytes

abbrev memory : List ℕ
memory = 9 ∷ 9 ∷ 9 ∷ []

spiffy_recvfrom-spiffy_sendto_example :
    (d : Datagram) × (spiffy_sendto simulated all_sent (7 ∷ 8 ∷ []) (inet other) ≡ (some d, 2))
    × (d.to ≡ family_unset simulated.router)
    × ((spiffy_recvfrom simulated memory memory 3 (arrived other d.bytes)).result ≡ 2)
    × (take 2 (spiffy_recvfrom simulated memory memory 3 (arrived other d.bytes)).buffer
        ≡ 7 ∷ 8 ∷ [])
    × ((spiffy_recvfrom simulated memory memory 3 (arrived other d.bytes)).from
        ≡ some simulated.src)
spiffy_recvfrom-spiffy_sendto_example =
    spiffy_recvfrom-spiffy_sendto simulated simulated all_sent (7 ∷ 8 ∷ []) other other memory
      memory 3 (λ x. refl) refl refl (omega arith) (omega arith) (omega arith) (omega arith)

-- a stream that has just been started
abbrev quiet : Upload
quiet = record upload { queue = []; tail = none; queue_size = 0; last_ack = 0 }

-- A packet is lost, then its acknowledgement, then nothing, twice.
abbrev turns : List Turn
turns =
    record { fate = packet_lost; sent = 10; size = 1484; arrived = 11; sampled = 12; now = 12 }
    ∷ record { fate = ack_lost; sent = 20; size = 1484; arrived = 21; sampled = 22; now = 22 }
    ∷ record { fate = delivered; sent = 30; size = 1484; arrived = 31; sampled = 32; now = 32 }
    ∷ record { fate = delivered; sent = 40; size = 1484; arrived = 41; sampled = 42; now = 42 }
    ∷ []

quiet-IsPair : IsPair quiet tracker 7 0 0
unfolding index_of
quiet-IsPair = record {
  window = inl (record { between = refl; tail = refl; size = refl; small = omega arith });
  tracking = inl (record { found = refl; chain = (_, refl, 1, refl) });
  last_ack = omega arith;
}

exchange-IsPair_example :
    (tm' : Timers) × (u' : Upload) × (t' : Tracker) × (exchange smoothing 7 turns
        (timers, quiet, tracker)
      ≡ done (tm', u', t'))
    × IsPair u' t' 7 0 2
exchange-IsPair_example =
    exchange-IsPair smoothing 7 0 0 turns timers quiet tracker (λ old new h k. omega arith)
      (omega arith) (omega arith) quiet-IsPair (omega arith)

-- "GET a" and "b", with the newline in the last piece
abbrev pieces : List (List ℕ)
pieces = (b'G' ∷ b'E' ∷ []) ∷ (b'T' ∷ 10 ∷ b'x' ∷ []) ∷ (10 ∷ b'y' ∷ []) ∷ []

process_reads-joined_example :
    process_reads 100 create_userbuf pieces ≡ process_user_input 100 create_userbuf (joined pieces)
process_reads-joined_example =
    process_reads-joined 100 pieces
      ((refl, (refl, tt)), ((refl, (refl, (refl, tt))), ((refl, (refl, tt)), tt))) (omega arith)
      (omega arith)

process_user_input-split_example :
    process_user_input 100 (holding (b'G' ∷ b'E' ∷ [])) (b'T' ∷ 10 ∷ b'x' ∷ [])
    ≡ (let (ls, rest) = split (b'G' ∷ b'E' ∷ b'T' ∷ 10 ∷ b'x' ∷ []) in done (ls, holding rest))
process_user_input-split_example =
    process_user_input-split 100 (b'G' ∷ b'E' ∷ []) (b'T' ∷ 10 ∷ b'x' ∷ []) (refl, (refl, tt))
      (refl, (refl, (refl, tt))) (omega arith) (omega arith)
