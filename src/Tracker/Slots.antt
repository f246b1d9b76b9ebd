-- ===== src/Tracker/Slots.antt =====
-- Lookups in an array of streams: what the loops of `get_download_index_by_id` and
-- `get_upload_index_by_id` find, also after a write.
use bittorrent_with_congesti.Base.{
  ℕ, zero, suc, ◌<◌, ◌≡◌, ◌≢◌, refl, none, some, map, List, [], ◌∷◌, arith, get_elem?, set, length,
}
use mathlib.Core.Path.{subst}
use mathlib.Core.Option.{some-injective}
use bittorrent_with_congesti.Tracker.{index_of}

module _ {A : Type 0} (key : A → ℕ) where
  -- The index is in range, and its entry has the id.
  pub get_elem?-index_of :
      (id : ℕ) (xs : List A) {i : ℕ}
      → index_of key id xs ≡ some i
      → (x : A) × (get_elem? xs i ≡ some x) × (key x ≡ id)
  unfolding index_of
  get_elem?-index_of id [] h = cc
  get_elem?-index_of id (x ∷ xs) {i = zero} h = (x, refl, ground arith)
  get_elem?-index_of id (x ∷ xs) {i = suc i} h = get_elem?-index_of id xs {i = i} (ground arith)

  pub index_of-set_self :
      (id : ℕ) (xs : List A) {i : ℕ} (x : A)
      → index_of key id xs ≡ some i
      → key x ≡ id
      → index_of key id (set xs i x) ≡ some i
  unfolding index_of
  index_of-set_self id [] x h k = cc
  index_of-set_self id (y ∷ ys) {i = zero} x h k = ground arith
  index_of-set_self id (y ∷ ys) {i = suc i} x h k =
      ground (arith, index_of-set_self id ys {i = i} x)

  -- A write of an entry for `id` over an entry for `id` does not disturb the others.
  pub index_of-set_ne :
      (id other : ℕ) (xs : List A) {i : ℕ} (x : A)
      → index_of key id xs ≡ some i
      → key x ≡ id
      → other ≢ id
      → index_of key other (set xs i x) ≡ index_of key other xs
  unfolding index_of
  index_of-set_ne id other [] x h k ne = cc
  index_of-set_ne id other (y ∷ ys) {i = zero} x h k ne = ground arith
  index_of-set_ne id other (y ∷ ys) {i = suc i} x h k ne =
      ground (arith, index_of-set_ne id other ys {i = i} x)

  pub lt_of_index_of : (id : ℕ) (xs : List A) {i : ℕ} → index_of key id xs ≡ some i → i < length xs
  unfolding index_of
  lt_of_index_of id [] h = cc
  lt_of_index_of id (x ∷ xs) {i = zero} h = omega arith
  lt_of_index_of id (x ∷ xs) {i = suc i} h =
      omega (arith, lt_of_index_of id xs {i = i} (ground arith))

  -- An entry for a new id takes the place of one that was free.
  pub index_of-set_new :
      (id free : ℕ) (xs : List A) {i : ℕ} (x : A)
      → index_of key free xs ≡ some i
      → key x ≡ id
      → index_of key id xs ≡ none
      → index_of key id (set xs i x) ≡ some i
  unfolding index_of
  index_of-set_new id free [] x h k new = cc
  index_of-set_new id free (y ∷ ys) {i = zero} x h k new = ground arith
  index_of-set_new id free (y ∷ ys) {i = suc i} x h k new =
      ground (arith, index_of-set_new id free ys {i = i} x)

-- All entries of a list have a property.
abbrev pub All : {A : Type 0} → (A → Type 0) → List A → Type 0
All P [] = Unit
All P (x ∷ xs) = P x × All P xs

module _ {A : Type 0} (P : A → Type 0) where
  pub All-get_elem? : (xs : List A) (i : ℕ) (x : A) → All P xs → get_elem? xs i ≡ some x → P x
  All-get_elem? [] i x h e = cc
  All-get_elem? (y ∷ ys) zero x h e = subst P (some-injective _ _ e) h.0
  All-get_elem? (y ∷ ys) (suc i) x h e = All-get_elem? ys i x h.1 e

  pub All-set : (xs : List A) (i : ℕ) (x : A) → All P xs → P x → All P (set xs i x)
  All-set [] i x h p = tt
  All-set (y ∷ ys) zero x h p = (p, h.1)
  All-set (y ∷ ys) (suc i) x h p = (h.0, All-set ys i x h.1 p)

  pub All-map : (f : A → A) (xs : List A) → ((x : A) → P (f x)) → All P (map f xs)
  All-map f [] h = tt
  All-map f (x ∷ xs) h = (h x, All-map f xs h)
