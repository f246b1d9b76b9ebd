-- ===== src/Base/Bytes.antt =====
-- Byte strings: equality, reads out of a buffer, and integers in network byte order.
use Prim.Native.Nat.{ℕ, zero, suc, ◌+◌, ◌*◌, ◌/◌, ◌%◌, ◌^◌, ◌<◌, ◌≤◌}
use mathlib.Core.Path.{◌≡◌, refl, ap, ◌∙◌}
use mathlib.Core.Logic.{◌↔◌}
use mathlib.Core.Bool.{Bool, true, false, ◌&&◌}
use mathlib.Core.List.{List, [], ◌∷◌, ◌++◌}
use native.Mathlib.Omega.{arith}
use bittorrent_with_congesti.Base.Tests.{◌==◌, leb, if◌then◌else◌}
use bittorrent_with_congesti.Base.Lists.{length, length-append, take, drop, get_or}
use bittorrent_with_congesti.Base.Outcomes.{Outcome, done, crash, out_of_bounds}

-- `memcmp` of two blocks of one size, as a test for equality
abbrev pub eq_bytes : List ℕ → List ℕ → Bool
eq_bytes [] [] = true
eq_bytes [] (y ∷ ys) = false
eq_bytes (x ∷ xs) [] = false
eq_bytes (x ∷ xs) (y ∷ ys) = (x == y) && eq_bytes xs ys

pub eq_bytes_iff : (xs ys : List ℕ) → (eq_bytes xs ys ≡ true) ↔ (xs ≡ ys)
eq_bytes_iff [] [] = (λ _. refl, λ _. refl)
eq_bytes_iff [] (y ∷ ys) = (λ h. cc, λ h. cc)
eq_bytes_iff (x ∷ xs) [] = (λ h. cc, λ h. cc)
eq_bytes_iff (x ∷ xs) (y ∷ ys) =
    (λ h. ground (arith, eq_bytes_iff xs ys), λ h. ground (arith, eq_bytes_iff xs ys))

-- The `n` bytes from index `i` on; a read past the end of the buffer is a fault.
abbrev pub slice : List ℕ → (i n : ℕ) → Outcome (List ℕ)
slice buf i n = if leb (i + n) (length buf) then done (take n (drop i buf)) else crash out_of_bounds

-- `htons` and `htonl`, as the bytes that they leave in memory
abbrev pub be16 : ℕ → List ℕ
be16 x = x / 2 ^ 8 % 2 ^ 8 ∷ x % 2 ^ 8 ∷ []

abbrev pub be32 : ℕ → List ℕ
be32 x = x / 2 ^ 24 % 2 ^ 8 ∷ x / 2 ^ 16 % 2 ^ 8 ∷ x / 2 ^ 8 % 2 ^ 8 ∷ x % 2 ^ 8 ∷ []

-- `ntohs` and `ntohl` of the bytes at index `i`
abbrev pub read16 : List ℕ → ℕ → ℕ
read16 buf i = get_or buf i 0 * 2 ^ 8 + get_or buf (suc i) 0

abbrev pub read32 : List ℕ → ℕ → ℕ
read32 buf i =
    get_or buf i 0 * 2 ^ 24
    + get_or buf (suc i) 0 * 2 ^ 16
    + get_or buf (suc (suc i)) 0 * 2 ^ 8
    + get_or buf (suc (suc (suc i))) 0

pub take-append_self {ℓ} : {A : Type ℓ} (xs ys : List A) → take (length xs) (xs ++ ys) ≡ xs
take-append_self [] ys = refl
take-append_self (x ∷ xs) ys = ap (λ zs. x ∷ zs) (take-append_self xs ys)

pub drop-append_self {ℓ} : {A : Type ℓ} (xs ys : List A) → drop (length xs) (xs ++ ys) ≡ ys
drop-append_self [] ys = refl
drop-append_self (x ∷ xs) ys = drop-append_self xs ys

pub take-le {ℓ} : {A : Type ℓ} (n : ℕ) (xs : List A) → length xs ≤ n → take n xs ≡ xs
take-le zero [] h = refl
take-le (suc n) [] h = refl
take-le zero (x ∷ xs) h = absurd (omega arith)
take-le (suc n) (x ∷ xs) h = ap (λ l. x ∷ l) (take-le n xs (omega arith))

-- Behind a first part, at a place in the second part.
pub drop-append {ℓ} :
    {A : Type ℓ} (xs ys : List A) (n : ℕ) → drop (length xs + n) (xs ++ ys) ≡ drop n ys
drop-append [] ys n = ap (λ m. drop m ys) (omega arith)
drop-append (x ∷ xs) ys n =
    let next : suc (length xs) + n ≡ suc (length xs + n) = omega arith in
    ap (λ m. drop m (x ∷ xs ++ ys)) next ∙ drop-append xs ys n

pub take-append {ℓ} :
    {A : Type ℓ} (xs ys : List A) (n : ℕ) → take (length xs + n) (xs ++ ys) ≡ xs ++ take n ys
take-append [] ys n = ap (λ m. take m ys) (omega arith)
take-append (x ∷ xs) ys n =
    let next : suc (length xs) + n ≡ suc (length xs + n) = omega arith in
    ap (λ m. take m (x ∷ xs ++ ys)) next ∙ ap (λ l. x ∷ l) (take-append xs ys n)

-- A read of what stands between a prefix and a rest.
pub slice-append :
    (pre bytes rest : List ℕ)
    → slice (pre ++ (bytes ++ rest)) (length pre) (length bytes) ≡ done bytes
slice-append pre bytes rest =
    let fits : leb (length pre + length bytes) (length (pre ++ (bytes ++ rest))) ≡ true =
      ground (arith, length-append pre (bytes ++ rest), length-append bytes rest) in
    rw (fits, drop-append_self pre (bytes ++ rest), take-append_self bytes rest)

pub be16_value : (x : ℕ) → x < 2 ^ 16 → x / 2 ^ 8 % 2 ^ 8 * 2 ^ 8 + x % 2 ^ 8 ≡ x
be16_value x h = omega arith

pub be32_value :
    (x : ℕ)
    → x < 2 ^ 32
    → x / 2 ^ 24 % 2 ^ 8 * 2 ^ 24
        + x / 2 ^ 16 % 2 ^ 8 * 2 ^ 16
        + x / 2 ^ 8 % 2 ^ 8 * 2 ^ 8
        + x % 2 ^ 8
      ≡ x
be32_value x h = omega arith
