-- ===== src/Chunks/Tables.antt =====
-- util.c: the table of the chunks that the peer has, after a chunk has been completed.
use bittorrent_with_congesti.Base.{
  ℕ, zero, suc, ◌≡◌, refl, some, List, [], ◌∷◌, ◌++◌, arith, ◌==◌, true, false, ◌||◌, Bool-cases,
  inl, inr, eq_bytes, eq_bytes_iff, minus_one, get_elem?, set,
}
use bittorrent_with_congesti.Chunks.{
  Chunk, Request, has_hash, id_of_hash, find_chunk, get_chunk_id, update_ihave_table,
}

has_hash-append :
    (h : List ℕ) (cs : List Chunk) (c : Chunk)
    → has_hash h (cs ++ (c ∷ [])) ≡ (has_hash h cs || eq_bytes h c.hash)
has_hash-append h [] c = ground arith
has_hash-append h (d ∷ ds) c = ground (arith, has_hash-append h ds c)

-- A hash with an id is in the table.
has_hash_of_id :
    (h : List ℕ) (cs : List Chunk) → (id_of_hash h cs == minus_one) ≡ false → has_hash h cs ≡ true
has_hash_of_id h [] ne = cc
has_hash_of_id h (d ∷ ds) ne = ground (arith, has_hash_of_id h ds)

-- After a chunk has been entered the table has its hash, and else the hashes that it had.
pub update_ihave_table-find_chunk :
    (has total : Request) (c : Chunk) (h : List ℕ)
    → find_chunk (update_ihave_table has total c) h ≡ (find_chunk has h || eq_bytes h c.hash)
unfolding update_ihave_table find_chunk
update_ihave_table-find_chunk has total c h =
    elim (Bool-cases (id_of_hash c.hash has.chunks == minus_one)) [
      | inl new ↦ rw new (has_hash-append h has.chunks _)
      | inr known ↦ rw known (elim (Bool-cases (eq_bytes h c.hash)) [
        | inl same ↦
            rw (same, (eq_bytes_iff h c.hash).0 same, has_hash_of_id c.hash has.chunks known)
        | inr other ↦ ground arith
      ])
    ]

id_of_hash-set :
    (hash : List ℕ) (cs : List Chunk) (k : ℕ) (c c' : Chunk)
    → get_elem? cs k ≡ some c
    → c'.hash ≡ c.hash
    → c'.id ≡ c.id
    → id_of_hash hash (set cs k c') ≡ id_of_hash hash cs
id_of_hash-set hash [] k c c' at same_hash same_id = refl
id_of_hash-set hash (x ∷ cs) zero c c' at same_hash same_id = ground arith
id_of_hash-set hash (x ∷ cs) (suc k) c c' at same_hash same_id =
    ground (arith, id_of_hash-set hash cs k c c')

-- A chunk that keeps its hash and its id does not change what the ids of hashes are.
pub get_chunk_id-set :
    (hash : List ℕ) (r : Request) (k : ℕ) (c c' : Chunk)
    → get_elem? r.chunks k ≡ some c
    → c'.hash ≡ c.hash
    → c'.id ≡ c.id
    → get_chunk_id hash (some (record r { chunks = set r.chunks k c' }))
      ≡ get_chunk_id hash (some r)
unfolding get_chunk_id
get_chunk_id-set hash r k c c' at same_hash same_id =
    id_of_hash-set hash r.chunks k c c' at same_hash same_id
