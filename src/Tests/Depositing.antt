-- ===== src/Tests/Depositing.antt =====
-- file.c: a file of two chunks that are written in the wrong order, and an upload out of it.
use bittorrent_with_congesti.Base.{
  ℕ, zero, suc, ◌*◌, ◌≡◌, refl, ap, arith, true, none, some, List, [], ◌∷◌, inl, inr, length, ◌>>=◌,
}
use bittorrent_with_congesti.Chunks.{chunk_size, receiving, check_chunk}
use bittorrent_with_congesti.Chunks.Save.{save_all, judged}
use bittorrent_with_congesti.Files.{Disk, read_file}
use bittorrent_with_congesti.Files.Deposit.{carry_out, StoresBlocks, packets_from-carry_out}
use bittorrent_with_congesti.Peer.{Externals, Effect, send, write_file}
use bittorrent_with_congesti.Peer.Transmit.{max_packet_per_chunk}
use bittorrent_with_congesti.Peer.Transmit.Cover.{packets_from}
use bittorrent_with_congesti.Tests.{chunk_in, externals}

-- Opaque, since a whole block is too long to be computed.
block : (id n : ℕ) → List ℕ
block id zero = []
block id (suc n) = id ∷ block id n

length-block : (id n : ℕ) → length (block id n) ≡ n
unfolding block
length-block id zero = refl
length-block id (suc n) = ap suc (length-block id n)

abbrev blocks : ℕ → List ℕ
blocks id = block id chunk_size

abbrev name : List ℕ
name = b'f' ∷ []

abbrev disk : Disk
disk = record { may_open = λ other. true; contents = λ other. none }

abbrev effects : List Effect
effects =
    write_file (some name) (1 * chunk_size) (blocks 1)
    ∷ send none (4 ∷ [])
    ∷ write_file (some name) (0 * chunk_size) (blocks 0)
    ∷ []

effects-StoresBlocks : StoresBlocks name blocks effects
effects-StoresBlocks =
    ((1, refl, refl, omega arith, refl), ((0, refl, refl, omega arith, refl), tt))

abbrev reader : Externals
reader = record externals {
  read_file = λ size offset. (read_file (carry_out effects disk) name size offset).1;
}

packets_from-carry_out_example :
    (save_all (chunk_in receiving 1) (packets_from reader 1 max_packet_per_chunk 0)
      >>= check_chunk externals.sha1)
    ≡ judged externals.sha1 (chunk_in receiving 1) (blocks 1)
packets_from-carry_out_example =
    packets_from-carry_out reader externals.sha1 name blocks effects disk 1 (chunk_in receiving 1)
      (λ id. length-block id chunk_size) refl effects-StoresBlocks (inl refl) (omega arith)
      (λ size offset all. refl) (record { state = refl; buffer = inr (refl, refl); count = refl })
