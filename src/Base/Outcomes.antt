-- ===== src/Base/Outcomes.antt =====
-- The result of code that may not deliver one: a value, or what stopped it. `unfinished` is a loop
-- that was still running when its fuel was used up.
use mathlib.Core.Path.{◌≡◌, refl}
use mathlib.Core.Logic.{◌⊎◌, inl, inr}

pub data Crash : Type 0 where
  null_dereference : Crash
  exited : Crash
  out_of_bounds : Crash
  unfinished : Crash
  dangling_pointer : Crash

pub data Outcome {ℓ} (A : Type ℓ) : Type ℓ where
  done : A → Outcome A
  crash : Crash → Outcome A

infixl 5 ◌>>=◌
abbrev pub ◌>>=◌ {ℓ κ} : {A : Type ℓ} {B : Type κ} → Outcome A → (A → Outcome B) → Outcome B
done a >>= f = f a
crash c >>= f = crash c

pub Outcome-cases {ℓ} :
    {A : Type ℓ} (o : Outcome A) → ((a : A) × (o ≡ done a)) ⊎ ((c : Crash) × (o ≡ crash c))
Outcome-cases (done a) = inl (a, refl)
Outcome-cases (crash c) = inr (c, refl)

pub >>=-eq-done {ℓ κ} :
    {A : Type ℓ} {B : Type κ} (m : Outcome A) {f : A → Outcome B} {b : B}
    → (m >>= f) ≡ done b
    → (a : A) × (m ≡ done a) × (f a ≡ done b)
>>=-eq-done (done a) h = (a, refl, h)
>>=-eq-done (crash c) h = cc
