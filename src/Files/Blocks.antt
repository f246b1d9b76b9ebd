-- ===== src/Files/Blocks.antt =====
-- Blocks of a file's bytes: what `splice` puts there, and what it leaves alone.
use bittorrent_with_congesti.Base.{
  ℕ, zero, suc, ◌+◌, ◌-◌, ◌≤◌, ◌≡◌, refl, sym, ap, ◌∙◌, arith, List, [], ◌∷◌, ◌++◌, length,
  length-append, take, drop, replicate, length-take, length-drop, length-replicate, drop-drop,
  take-append-drop, take-append_self, drop-append,
}
use bittorrent_with_congesti.Files.{splice}

-- the `n` bytes from an offset on
abbrev pub block : List ℕ → (offset n : ℕ) → List ℕ
block file offset n = take n (drop offset file)

drop_of : (w rest : List ℕ) (m n : ℕ) → m ≡ length w + n → drop m (w ++ rest) ≡ drop n rest
drop_of w rest m n e = ap (λ k. drop k (w ++ rest)) e ∙ drop-append w rest n

take-append_short : (w rest : List ℕ) (n : ℕ) → n ≤ length w → take n (w ++ rest) ≡ take n w
take-append_short w rest zero h = refl
take-append_short [] rest (suc n) h = absurd (omega arith)
take-append_short (x ∷ xs) rest (suc n) h =
    ap (λ l. x ∷ l) (take-append_short xs rest n (omega arith))

drop-append_short : (w rest : List ℕ) (n : ℕ) → n ≤ length w → drop n (w ++ rest) ≡ drop n w ++ rest
drop-append_short w rest zero h = refl
drop-append_short [] rest (suc n) h = absurd (omega arith)
drop-append_short (x ∷ xs) rest (suc n) h = drop-append_short xs rest n (omega arith)

-- A block of the front part is a block of the whole.
pub block-append :
    (w rest : List ℕ) (offset n : ℕ)
    → offset + n ≤ length w
    → block (w ++ rest) offset n ≡ block w offset n
block-append w rest offset n h =
    ap (take n) (drop-append_short w rest offset (omega arith))
    ∙ take-append_short (drop offset w) rest n (omega (arith, length-drop offset w))

block-take :
    (n m offset : ℕ) (file : List ℕ)
    → offset + n ≤ m
    → offset + n ≤ length file
    → block (take m file) offset n ≡ block file offset n
block-take n m offset file h k =
    sym (block-append (take m file) (drop m file) offset n (omega (arith, length-take m file)))
    ∙ ap (λ f. block f offset n) (take-append-drop m file)

module _ (old : List ℕ) (offset : ℕ) (bytes : List ℕ) where
  front : List ℕ
  front = take offset (old ++ replicate (offset - length old) 0)

  length-front : length front ≡ offset
  unfolding front
  length-front = omega (
    arith,
    length-take offset (old ++ replicate (offset - length old) 0),
    length-append old (replicate (offset - length old) 0),
    length-replicate {A = ℕ} (offset - length old) 0,
  )

  -- What has been written is there.
  pub block-splice_self : block (splice old offset bytes) offset (length bytes) ≡ bytes
  unfolding front
  block-splice_self =
      ap (take (length bytes)) (
        drop_of front (bytes ++ drop (offset + length bytes) old) offset 0
          (omega (arith, length-front)))
      ∙ take-append_self bytes (drop (offset + length bytes) old)

  -- A block before it or behind it stays.
  pub block-splice_before :
      (o n : ℕ)
      → o + n ≤ offset
      → o + n ≤ length old
      → block (splice old offset bytes) o n ≡ block old o n
  unfolding front
  block-splice_before o n h k =
      block-append front (bytes ++ drop (offset + length bytes) old) o n
        (omega (arith, length-front))
      ∙ block-take n offset o (old ++ replicate (offset - length old) 0) h
          (omega (arith, length-append old (replicate (offset - length old) 0)))
      ∙ block-append old (replicate (offset - length old) 0) o n k

  pub block-splice_behind :
      (o n : ℕ) → offset + length bytes ≤ o → block (splice old offset bytes) o n ≡ block old o n
  unfolding front
  block-splice_behind o n h =
      let later : ℕ = o - (offset + length bytes) in
      let rest = drop (offset + length bytes) old in
      ap (take n) (
        drop_of front (bytes ++ rest) o (length bytes + later) (omega (arith, length-front))
        ∙ drop-append bytes rest later
        ∙ drop-drop later (offset + length bytes) old
        ∙ ap (λ m. drop m old) (omega arith))

  -- The file ends where it did, or behind what has been written.
  pub length-splice-le : length old ≤ length (splice old offset bytes)
  unfolding front
  length-splice-le = omega (
    arith,
    length-append front (bytes ++ drop (offset + length bytes) old),
    length-append bytes (drop (offset + length bytes) old),
    length-drop (offset + length bytes) old,
    length-front,
  )

  pub splice-length-le : offset + length bytes ≤ length (splice old offset bytes)
  unfolding front
  splice-length-le = omega (
    arith,
    length-append front (bytes ++ drop (offset + length bytes) old),
    length-append bytes (drop (offset + length bytes) old),
    length-front,
  )
