-- ===== src/Files/Deposit.antt =====
-- file.c, with util.c's `save_chunk` and network.c's reads: the blocks that downloads write into a
-- file, and the packets that are made of them.
use mathlib.Core.Path.{subst}
use native.Mathlib.Decide.{ℕ_discrete, dec_lt}
use bittorrent_with_congesti.Base.{
  ℕ, ◌+◌, ◌*◌, ◌^◌, ◌≤◌, ◌<◌, ◌≡◌, ◌≢◌, sym, ap, ◌∙◌, arith, ◌⊎◌, inl, inr, Bool, true, Option,
  none, some, List, [], ◌∷◌, length, drop, length-take, length-drop, ◌>>=◌,
}
use bittorrent_with_congesti.Files
use bittorrent_with_congesti.Files.{Disk, file, splice, read_file}
use bittorrent_with_congesti.Files.Blocks.{
  block, block-splice_self, block-splice_before, block-splice_behind, length-splice-le,
  splice-length-le,
}
use bittorrent_with_congesti.Files.Access.{
  write_file-may_open, write_file-file, read_file-block, read_file-count,
}
use bittorrent_with_congesti.Chunks.{Chunk, chunk_size, check_chunk}
use bittorrent_with_congesti.Chunks.Save.{Holds, save_all, judged}
use bittorrent_with_congesti.Peer.{Externals, Effect, send, write_file}
use bittorrent_with_congesti.Peer.Transmit.{max_packet_per_chunk}
use bittorrent_with_congesti.Peer.Transmit.Cover.{packets_from, packets_from-judged}

-- the disk after the writes among a peer's effects; `open(NULL)` fails
pub carry_out : List Effect → Disk → Disk
carry_out [] d = d
carry_out (send addr bytes ∷ es) d = carry_out es d
carry_out (write_file none offset bytes ∷ es) d = carry_out es d
carry_out (write_file (some name) offset bytes ∷ es) d =
    carry_out es (Files.write_file d name bytes offset).0

-- The writes store chunks of one file, as `save_chunk` does: each puts the block of a chunk to the
-- place that its id says.
abbrev pub StoresBlocks : (name : List ℕ) → (blocks : ℕ → List ℕ) → List Effect → Type 0
StoresBlocks name blocks [] = Unit
StoresBlocks name blocks (send addr bytes ∷ es) = StoresBlocks name blocks es
StoresBlocks name blocks (write_file other offset bytes ∷ es) =
    ((id : ℕ) × (other ≡ some name)
      × (offset ≡ id * chunk_size)
      × ((id + 1) * chunk_size < 2 ^ 31)
      × (bytes ≡ blocks id))
    × StoresBlocks name blocks es

-- some write puts the chunk's block to its place
abbrev pub Stores : (id : ℕ) → List Effect → Type 0
Stores id [] = ⊥
Stores id (send addr bytes ∷ es) = Stores id es
Stores id (write_file other offset bytes ∷ es) = (offset ≡ id * chunk_size) ⊎ Stores id es

-- The file has the block of the chunk.
abbrev pub Present : Disk → (name : List ℕ) → (blocks : ℕ → List ℕ) → (id : ℕ) → Type 0
Present d name blocks id =
    ((id + 1) * chunk_size ≤ length (file d name))
    × (block (file d name) (id * chunk_size) chunk_size ≡ blocks id)

length-block : (f : List ℕ) (offset n : ℕ) → offset + n ≤ length f → length (block f offset n) ≡ n
length-block f offset n within = omega (arith, length-take n (drop offset f), length-drop offset f)

module _ (name : List ℕ) (blocks : ℕ → List ℕ)
    (size : (id : ℕ) → length (blocks id) ≡ chunk_size) where
  module _ (d : Disk) (other : ℕ) (allowed : d.may_open name ≡ true)
      (small : (other + 1) * chunk_size < 2 ^ 31) where
    abbrev written : Disk
    written = (Files.write_file d name (blocks other) (other * chunk_size)).0

    written-file : file written name ≡ splice (file d name) (other * chunk_size) (blocks other)
    written-file =
        write_file-file d name allowed (blocks other) (other * chunk_size)
          (omega (arith, size other)) (omega arith)

    written-block :
        (offset n : ℕ)
        → block (file written name) offset n
          ≡ block (splice (file d name) (other * chunk_size) (blocks other)) offset n
    written-block offset n = ap (λ f. block f offset n) written-file

    written-allowed : written.may_open name ≡ true
    written-allowed =
        ap (λ (f : List ℕ → Bool). f name)
          (write_file-may_open d name allowed (blocks other) (other * chunk_size))
        ∙ allowed

    Present-written : Present written name blocks other
    Present-written = (
      omega (
        arith,
        ap length written-file,
        splice-length-le (file d name) (other * chunk_size) (blocks other),
        size other,
      ),
      ap (block (file written name) (other * chunk_size)) (sym (size other))
          ∙ written-block (other * chunk_size) (length (blocks other))
          ∙ block-splice_self (file d name) (other * chunk_size) (blocks other),
    )

    Present-other :
        (id : ℕ) → id ≢ other → Present d name blocks id → Present written name blocks id
    Present-other id ne h = (
      omega (
        arith,
        ap length written-file,
        length-splice-le (file d name) (other * chunk_size) (blocks other),
        h.0,
      ),
      written-block (id * chunk_size) chunk_size
          ∙ elim (dec_lt id other)
              as (λ _.
                block (splice (file d name) (other * chunk_size) (blocks other)) (id * chunk_size)
                  chunk_size
                ≡ block (file d name) (id * chunk_size) chunk_size) [
                  | yes lt ↦
                      block-splice_before (file d name) (other * chunk_size) (blocks other)
                        (id * chunk_size) chunk_size (omega arith) (omega (arith, h.0))
                  | no le ↦
                      block-splice_behind (file d name) (other * chunk_size) (blocks other)
                        (id * chunk_size) chunk_size (omega (arith, size other, ne))
                ]
          ∙ h.1,
    )

    Present-write : (id : ℕ) → Present d name blocks id → Present written name blocks id
    Present-write id h = elim (ℕ_discrete id other) [
      | yes e ↦ subst (Present written name blocks) (sym e) Present-written
      | no ne ↦ Present-other id ne h
    ]

  carry_out-write :
      (es : List Effect) (d : Disk) {other : Option (List ℕ)} {offset : ℕ} {bytes : List ℕ} (id : ℕ)
      → other ≡ some name
      → offset ≡ id * chunk_size
      → bytes ≡ blocks id
      → carry_out (write_file other offset bytes ∷ es) d
        ≡ carry_out es (Files.write_file d name (blocks id) (id * chunk_size)).0
  unfolding carry_out
  carry_out-write es d id e f g = rw (e, carry_out) (rw (f, g))

  -- What is present stays so, and the file can still be opened.
  carry_out-Present :
      (es : List Effect) (d : Disk) (id : ℕ)
      → d.may_open name ≡ true
      → StoresBlocks name blocks es
      → Present d name blocks id
      → (Present (carry_out es d) name blocks id) × ((carry_out es d).may_open name ≡ true)
  unfolding carry_out
  carry_out-Present [] d id allowed ok h = (h, allowed)
  carry_out-Present (send addr bytes ∷ es) d id allowed ok h =
      carry_out-Present es d id allowed ok h
  carry_out-Present (write_file other offset bytes ∷ es) d id allowed ((k, e, f, small, g), ok) h =
      rw (carry_out-write es d k e f g) (
        carry_out-Present es (written d k allowed small) id (written-allowed d k allowed small) ok
          (Present-write d k allowed small id h))

  -- What is stored is present.
  carry_out-Stores :
      (es : List Effect) (d : Disk) (id : ℕ)
      → d.may_open name ≡ true
      → StoresBlocks name blocks es
      → Stores id es
      → (Present (carry_out es d) name blocks id) × ((carry_out es d).may_open name ≡ true)
  unfolding carry_out
  carry_out-Stores [] d id allowed ok h = absurd h
  carry_out-Stores (send addr bytes ∷ es) d id allowed ok h = carry_out-Stores es d id allowed ok h
  carry_out-Stores (write_file other offset bytes ∷ es) d id allowed ((k, e, f, small, g), ok) h =
      let d' = written d k allowed small in
      let still = written-allowed d k allowed small in
      rw (carry_out-write es d k e f g) (elim h [
        | inl at ↦
            let same : k ≡ id = omega (arith, at, f) in
            carry_out-Present es d' id still ok
              (subst (Present d' name blocks) same (Present-written d k allowed small))
        | inr later ↦ carry_out-Stores es d' id still ok later
      ])

-- A peer carries out effects whose writes put chunks, each a block of 512 KiB, into one file to the
-- places that their ids say, in any order and more than once. Then each chunk that has been written
-- is in the file, whatever else has been written before and after, and `read_file` finds it there.
pub carry_out-block :
    (name : List ℕ) (blocks : ℕ → List ℕ) (es : List Effect) (d : Disk) (id : ℕ)
    → ((k : ℕ) → length (blocks k) ≡ chunk_size)
    → d.may_open name ≡ true
    → StoresBlocks name blocks es
    → Stores id es
    → (id + 1) * chunk_size < 2 ^ 31
    → (read_file (carry_out es d) name chunk_size (id * chunk_size)).1 ≡ blocks id
carry_out-block name blocks es d id size allowed ok stored small =
    let (h, still) = carry_out-Stores name blocks size es d id allowed ok stored in
    read_file-block (carry_out es d) name still chunk_size (id * chunk_size) (omega arith) ∙ h.1

-- A file holds what a peer's downloads have written into it, each chunk, a block of 512 KiB, at its
-- place. Another stream uploads one of these chunks out of this file: where `read_file` finds all
-- the bytes that are asked for, they are the bytes in the buffer. Then a receiver that saves the
-- packets in order, starting from nothing, judges exactly the block that was downloaded.
pub packets_from-carry_out :
    (ext : Externals) (sha1 : List ℕ → List ℕ) (name : List ℕ) (blocks : ℕ → List ℕ)
    (es : List Effect) (d : Disk) (id : ℕ) (c : Chunk)
    → ((k : ℕ) → length (blocks k) ≡ chunk_size)
    → d.may_open name ≡ true
    → StoresBlocks name blocks es
    → Stores id es
    → (id + 1) * chunk_size < 2 ^ 31
    → ((size offset : ℕ)
        → (read_file (carry_out es d) name size offset).2 ≡ size
        → ext.read_file size offset ≡ (read_file (carry_out es d) name size offset).1)
    → Holds c []
    → (save_all c (packets_from ext id max_packet_per_chunk 0) >>= check_chunk sha1)
      ≡ judged sha1 c (blocks id)
packets_from-carry_out ext sha1 name blocks es d id c size allowed ok stored small reads holds =
    let d' = carry_out es d in
    let (h, still) = carry_out-Stores name blocks size es d id allowed ok stored in
    packets_from-judged ext sha1 (file d' name) id c
      (λ size offset within fits.
        let found = read_file-block d' name still size offset fits in
        let all =
          read_file-count d' name still size offset
          ∙ ap length found
          ∙ length-block (file d' name) offset size within in
        reads size offset all ∙ found)
      small h.0 holds
    ∙ ap (judged sha1 c) h.1
