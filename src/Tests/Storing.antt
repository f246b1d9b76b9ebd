-- ===== src/Tests/Storing.antt =====
-- util.c: the data of a chunk, the tables and the choice of a chunk.
use bittorrent_with_congesti.Base.{
  take, drop, ℕ, zero, suc, ◌≡◌, refl, ap, arith, List, [], ◌∷◌, ◌>>=◌, inr, length,
}
use bittorrent_with_congesti.Chunks.{Chunk, chunk_size, receiving, check_chunk}
use bittorrent_with_congesti.Chunks.Save.{save_all, judged}
use bittorrent_with_congesti.Peer.{Externals}
use bittorrent_with_congesti.Peer.Transmit.{max_packet_per_chunk}
use bittorrent_with_congesti.Peer.Transmit.Cover.{packets_from, packets_from-judged}
use bittorrent_with_congesti.Tests.{chunk_in, externals}

-- Opaque, since a whole block is too long to be computed.
block : ℕ → List ℕ
block zero = []
block (suc n) = 0 ∷ block n

length-block : (n : ℕ) → length (block n) ≡ n
unfolding block
length-block zero = refl
length-block (suc n) = ap suc (length-block n)

abbrev fresh : Chunk
fresh = chunk_in receiving 1

abbrev zero_block : List ℕ
zero_block = block chunk_size

-- a sender whose data file is one block
abbrev reader : Externals
reader = record externals { read_file = λ size offset. take size (drop offset zero_block) }

packets_from-judged_example :
    (save_all fresh (packets_from reader 0 max_packet_per_chunk 0) >>= check_chunk externals.sha1)
    ≡ judged externals.sha1 fresh (take chunk_size (drop 0 zero_block))
packets_from-judged_example =
    packets_from-judged reader externals.sha1 zero_block 0 fresh (λ size offset within small. refl)
      (omega arith) (omega (arith, length-block chunk_size))
      (record { state = refl; buffer = inr (refl, refl); count = refl })
