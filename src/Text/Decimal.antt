-- ===== src/Text/Decimal.antt =====
-- What `printf` writes for a number is what `sscanf` reads.
use bittorrent_with_congesti.Base.{
  ℕ, zero, suc, ◌+◌, ◌-◌, ◌*◌, ◌/◌, ◌%◌, ◌^◌, ◌<◌, ◌≤◌, ◌≡◌, refl, sym, ap, ◌∙◌, arith, true, false,
  Bool-cases, inl, inr, some, List, ◌∷◌, ◌++◌, ltb,
}
use bittorrent_with_congesti.Text.{space, is_digit, is_space, scan_digits, scan_int, decimal_onto}

pub decimal_onto-step :
    (fuel n : ℕ) (rest : List ℕ)
    → 10 ≤ n
    → decimal_onto (suc fuel) n rest ≡ decimal_onto fuel (n / 10) ((b'0' + n % 10) ∷ rest)
unfolding decimal_onto
decimal_onto-step fuel n rest h = ground arith

pub decimal_onto-last :
    (fuel n : ℕ) (rest : List ℕ) → n < 10 → decimal_onto (suc fuel) n rest ≡ (b'0' + n) ∷ rest
unfolding decimal_onto
decimal_onto-last fuel n rest h = ground arith

scan_digits-digit :
    (value d : ℕ) (rest : List ℕ)
    → d < 10
    → scan_digits value ((b'0' + d) ∷ rest) ≡ scan_digits (value * 10 + d) rest
scan_digits-digit value d rest h =
    let digit : is_digit (b'0' + d) ≡ true = ground arith in
    let same : value * 10 + (b'0' + d - b'0') ≡ value * 10 + d = omega arith in
    rw digit (ap (λ v. scan_digits v rest) same)

-- The digits of `n` are read as `n`, whatever follows.
pub scan_digits-decimal_onto :
    (fuel n : ℕ) (rest : List ℕ)
    → n < fuel
    → scan_digits 0 (decimal_onto fuel n rest) ≡ scan_digits n rest
scan_digits-decimal_onto zero n rest h = absurd (omega arith)
scan_digits-decimal_onto (suc fuel) n rest h = elim (Bool-cases (ltb n 10)) [
  | inl small ↦
      let lt : n < 10 = ground arith in
      rw (decimal_onto-last fuel n rest lt)
        (scan_digits-digit 0 n rest lt ∙ ap (λ v. scan_digits v rest) (omega arith))
  | inr large ↦
      let le : 10 ≤ n = ground arith in
      let whole : n / 10 * 10 + n % 10 ≡ n = omega arith in
      rw (decimal_onto-step fuel n rest le) (
        scan_digits-decimal_onto fuel (n / 10) ((b'0' + n % 10) ∷ rest) (omega arith)
        ∙ scan_digits-digit (n / 10) (n % 10) rest (omega arith)
        ∙ ap (λ v. scan_digits v rest) whole)
]

-- A number begins with a digit.
pub decimal_onto-cons :
    (fuel n : ℕ) (rest : List ℕ)
    → n < fuel
    → (d : ℕ) × (cs : List ℕ) × (d < 10) × (decimal_onto fuel n rest ≡ (b'0' + d) ∷ cs)
decimal_onto-cons zero n rest h = absurd (omega arith)
decimal_onto-cons (suc fuel) n rest h = elim (Bool-cases (ltb n 10)) [
  | inl small ↦ (n, rest, ground arith, decimal_onto-last fuel n rest (ground arith))
  | inr large ↦
      let le : 10 ≤ n = ground arith in
      let (d, cs, lt, e) = decimal_onto-cons fuel (n / 10) ((b'0' + n % 10) ∷ rest) (omega arith) in
      (d, cs, lt, decimal_onto-step fuel n rest le ∙ e)
]

scan_int-digit :
    (d : ℕ) (cs : List ℕ)
    → d < 10
    → scan_int ((b'0' + d) ∷ cs)
      ≡ (let (value, rest) = scan_digits 0 ((b'0' + d) ∷ cs) in some (value % 2 ^ 32, rest))
scan_int-digit d cs h =
    let visible : is_space (b'0' + d) ≡ false = ground arith in
    let digit : is_digit (b'0' + d) ≡ true = ground arith in ground arith

-- `%d` reads a number below 2^31 that `%d` has written and a byte follows that is no digit.
pub scan_int-decimal_onto_stop :
    (fuel n c : ℕ) (rest : List ℕ)
    → n < fuel
    → n < 2 ^ 31
    → is_digit c ≡ false
    → scan_int (decimal_onto fuel n (c ∷ rest)) ≡ some (n, c ∷ rest)
scan_int-decimal_onto_stop fuel n c rest h small stop =
    let (d, cs, lt, e) = decimal_onto-cons fuel n (c ∷ rest) h in
    let ended : scan_digits n (c ∷ rest) ≡ (n, c ∷ rest) = rw stop in
    let read : scan_digits 0 ((b'0' + d) ∷ cs) ≡ (n, c ∷ rest) =
      ap (scan_digits 0) (sym e) ∙ scan_digits-decimal_onto fuel n (c ∷ rest) h ∙ ended in
    let fits : n % 2 ^ 32 ≡ n = omega arith in
    rw e (scan_int-digit d cs lt ∙ rw read (ap (λ v. some (v, c ∷ rest)) fits))

pub scan_int-decimal_onto :
    (fuel n : ℕ) (rest : List ℕ)
    → n < fuel
    → n < 2 ^ 31
    → scan_int (decimal_onto fuel n (space ∷ rest)) ≡ some (n, space ∷ rest)
scan_int-decimal_onto fuel n rest h small =
    scan_int-decimal_onto_stop fuel n space rest h small refl

-- What follows a number is what it was written in front of.
pub decimal_onto-append :
    (fuel n : ℕ) (rest more : List ℕ)
    → decimal_onto fuel n (rest ++ more) ≡ decimal_onto fuel n rest ++ more
decimal_onto-append zero n rest more = unfold decimal_onto in refl
decimal_onto-append (suc fuel) n rest more = elim (Bool-cases (ltb n 10)) [
  | inl small ↦
      let lt : n < 10 = ground arith in
      decimal_onto-last fuel n (rest ++ more) lt
      ∙ sym (ap (λ (s : List ℕ). s ++ more) (decimal_onto-last fuel n rest lt))
  | inr large ↦
      let le : 10 ≤ n = ground arith in
      decimal_onto-step fuel n (rest ++ more) le
      ∙ decimal_onto-append fuel (n / 10) ((b'0' + n % 10) ∷ rest) more
      ∙ sym (ap (λ (s : List ℕ). s ++ more) (decimal_onto-step fuel n rest le))
]
