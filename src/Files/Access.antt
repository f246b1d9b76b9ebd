-- ===== src/Files/Access.antt =====
-- file.c: what is read after a write.
use bittorrent_with_congesti.Base.{
  ℕ, ◌-◌, ◌^◌, ◌≤◌, ◌<◌, ◌≡◌, refl, sym, ap, ◌∙◌, arith, Bool, true, false, Bool-cases, inl, inr,
  Option, some, List, [], ◌∷◌, is_neg, eq_bytes, eq_bytes_iff, length,
}
use bittorrent_with_congesti.Chunks.{chunk_size}
use bittorrent_with_congesti.Files.{
  Disk, Handle, file, store, splice, open_file, write_to, read_from, write_file, create_file,
  read_file,
}
use bittorrent_with_congesti.Files.Blocks.{block, block-splice_self}

pub file-store_self : (d : Disk) (name bytes : List ℕ) → file (store d name bytes) name ≡ bytes
file-store_self d name bytes = rw ((eq_bytes_iff name name).1 refl)

-- where a file may be opened
module _ (d : Disk) (name : List ℕ) (allowed : d.may_open name ≡ true) where
  abbrev opened : Disk × Option Handle
  opened = (store d name (file d name), some (record { name = name; offset = 0 }))

  open_file-opened : open_file d name ≡ opened
  unfolding open_file
  open_file-opened = rw allowed

  write_file-opened :
      (bytes : List ℕ) (offset : ℕ) → write_file d name bytes offset ≡ write_to opened bytes offset
  unfolding write_file
  write_file-opened bytes offset = ap (λ o. write_to o bytes offset) open_file-opened

  read_file-opened : (size offset : ℕ) → read_file d name size offset ≡ read_from opened size offset
  unfolding read_file
  read_file-opened size offset = ap (λ o. read_from o size offset) open_file-opened

  pub write_file-may_open :
      (bytes : List ℕ) (offset : ℕ) → (write_file d name bytes offset).0.may_open ≡ d.may_open
  write_file-may_open [] offset = ap (λ (r : Disk × ℕ). r.0.may_open) (write_file-opened [] offset)
  write_file-may_open (c ∷ cs) offset =
      ap (λ (r : Disk × ℕ). r.0.may_open) (write_file-opened (c ∷ cs) offset)

  pub write_file-file :
      (bytes : List ℕ) (offset : ℕ)
      → 1 ≤ length bytes
      → offset < 2 ^ 31
      → file (write_file d name bytes offset).0 name ≡ splice (file d name) offset bytes
  write_file-file [] offset some_bytes small = absurd (omega arith)
  write_file-file (c ∷ cs) offset some_bytes small =
      let at : is_neg offset ≡ false = ground arith in
      ap (λ (r : Disk × ℕ). file r.0 name) (write_file-opened (c ∷ cs) offset)
      ∙ rw at (file-store_self opened.0 name (splice (file opened.0 name) offset (c ∷ cs)))
      ∙ ap (λ f. splice f offset (c ∷ cs)) (file-store_self d name (file d name))

  pub write_file-result :
      (bytes : List ℕ) (offset : ℕ) → (write_file d name bytes offset).1 ≡ length bytes
  write_file-result bytes offset = ap (λ (r : Disk × ℕ). r.1) (write_file-opened bytes offset)

  pub read_file-block :
      (size offset : ℕ)
      → offset < 2 ^ 31
      → (read_file d name size offset).1 ≡ block (file d name) offset size
  read_file-block size offset small =
      let at : is_neg offset ≡ false = ground arith in
      ap (λ (r : Disk × List ℕ × ℕ). r.1) (read_file-opened size offset)
      ∙ rw at (ap (λ f. block f offset size) (file-store_self d name (file d name)))

  pub read_file-count :
      (size offset : ℕ) → (read_file d name size offset).2 ≡ length (read_file d name size offset).1
  read_file-count size offset =
      ap (λ (r : Disk × List ℕ × ℕ). r.2) (read_file-opened size offset)
      ∙ sym (ap (λ (r : Disk × List ℕ × ℕ). length r.1) (read_file-opened size offset))

-- The output file of a request: the last byte of a first block is written, and no other file
-- changes.
pub create_file-file :
    (d : Disk) (name : List ℕ)
    → d.may_open name ≡ true
    → file (create_file d name chunk_size).0 name ≡ splice (file d name) (chunk_size - 1) (0 ∷ [])
unfolding create_file write_file
create_file-file d name allowed =
    write_file-file d name allowed (0 ∷ []) (chunk_size - 1) (omega arith) (omega arith)

pub create_file-other :
    (d : Disk) (name other : List ℕ)
    → eq_bytes other name ≡ false
    → (create_file d name chunk_size).0.contents other ≡ d.contents other
unfolding create_file
create_file-other d name other e = elim (Bool-cases (d.may_open name)) [
  | inl allowed ↦ rw (allowed, create_file) (rw e)
  | inr refused ↦ rw (refused, create_file)
]

-- Bytes that are written to a file that may be opened, at an offset that is not negative, are read
-- back from there, and both calls return their number.
pub read_file-write_file :
    (d : Disk) (name bytes : List ℕ) (offset : ℕ)
    → d.may_open name ≡ true
    → 1 ≤ length bytes
    → offset < 2 ^ 31
    → ((write_file d name bytes offset).1 ≡ length bytes)
      × ((read_file (write_file d name bytes offset).0 name (length bytes) offset).1 ≡ bytes)
      × ((read_file (write_file d name bytes offset).0 name (length bytes) offset).2 ≡ length bytes)
read_file-write_file d name bytes offset allowed some_bytes small =
    let d' = (write_file d name bytes offset).0 in
    let still =
      ap (λ (f : List ℕ → Bool). f name) (write_file-may_open d name allowed bytes offset)
      ∙ allowed in
    let found =
      read_file-block d' name still (length bytes) offset small
      ∙ ap (λ f. block f offset (length bytes))
          (write_file-file d name allowed bytes offset some_bytes small)
      ∙ block-splice_self (file d name) offset bytes in
    (
      write_file-result d name allowed bytes offset,
      found,
      read_file-count d' name still (length bytes) offset ∙ ap length found,
    )
