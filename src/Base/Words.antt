-- ===== src/Base/Words.antt =====
-- C's fixed-width integers as bit patterns: an `int` or `unsigned` is a number below 2^32, a
-- negative `int` being the pattern of its two's complement; an `unsigned long` is below 2^64.
use Prim.Native.Nat.{ℕ, ◌+◌, ◌-◌, ◌%◌, ◌^◌, ◌<◌}
use mathlib.Core.Path.{◌≡◌}
use mathlib.Core.Bool.{Bool}
use native.Mathlib.Omega.{arith}
use bittorrent_with_congesti.Base.Tests.{ltb, leb, if◌then◌else◌}

-- `-1` as an `int`
abbrev pub minus_one : ℕ
minus_one = 2 ^ 32 - 1

abbrev pub add32 : ℕ → ℕ → ℕ
add32 a b = (a + b) % 2 ^ 32

abbrev pub sub32 : ℕ → ℕ → ℕ
sub32 a b = (a + 2 ^ 32 - b) % 2 ^ 32

abbrev pub sub64 : ℕ → ℕ → ℕ
sub64 a b = (a + 2 ^ 64 - b) % 2 ^ 64

-- `x < 0` for an `int`
abbrev pub is_neg : ℕ → Bool
is_neg x = leb (2 ^ 31) x

-- `a < b` for two `int`s
abbrev pub lt_int : ℕ → ℕ → Bool
lt_int a b = ltb ((a + 2 ^ 31) % 2 ^ 32) ((b + 2 ^ 31) % 2 ^ 32)

-- `(unsigned long) x` for an `int`
abbrev pub to_ulong : ℕ → ℕ
to_ulong x = if is_neg x then x + (2 ^ 64 - 2 ^ 32) else x

-- On small values the signed order is the order of numbers.
pub lt_int-small : (a b : ℕ) → a < 2 ^ 31 → b < 2 ^ 31 → lt_int a b ≡ ltb a b
lt_int-small a b p q = ground arith
