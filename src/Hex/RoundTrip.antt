-- ===== src/Hex/RoundTrip.antt =====
-- chunk.c: the text of a hash is read back as the hash.
use native.Mathlib.Decide.{ℕ_discrete}
use bittorrent_with_congesti.Base.{
  ℕ, zero, suc, ◌+◌, ◌*◌, ◌/◌, ◌%◌, ◌<◌, ◌≡◌, refl, arith, false, List, [], ◌∷◌, ◌==◌,
  if◌then◌else◌, length,
}
use mathlib.Core.Path.{ap₂}
use bittorrent_with_congesti.Hex.{hex_digit, hex_byte, binary2hex, hex2binary}
use bittorrent_with_congesti.Text.Words.{AreVisible}
use bittorrent_with_congesti.Text.{is_space}

-- a byte, written as two digits and read back
write_read : ℕ → ℕ
write_read b = hex_byte (hex_digit (b / 16)) (hex_digit (b % 16))

-- how many of the bytes below a bound are read back as others
misread : (bound : ℕ) → ℕ
unfolding write_read
misread zero = 0
misread (suc b) = misread b + (if write_read b == b then 0 else 1)

misread-zero : (bound b : ℕ) → misread bound ≡ 0 → b < bound → write_read b ≡ b
unfolding misread
misread-zero zero b none lt = absurd (omega arith)
misread-zero (suc top) b none lt = elim (ℕ_discrete b top) [
  | yes e ↦ ground (arith, e, none)
  | no ne ↦ misread-zero top b (omega arith) (omega arith)
]

misread_none : misread 256 ≡ 0
unfolding misread
misread_none = refl

hex_byte-hex_digit : (b : ℕ) → b < 256 → hex_byte (hex_digit (b / 16)) (hex_digit (b % 16)) ≡ b
unfolding write_read
hex_byte-hex_digit b lt = misread-zero 256 b misread_none lt

abbrev pub AreBytes : List ℕ → Type 0
AreBytes [] = Unit
AreBytes (b ∷ bs) = (b < 256) × AreBytes bs

-- Any bytes, written as hexadecimal text, are read back.
pub hex2binary-binary2hex : (bs : List ℕ) → AreBytes bs → hex2binary (binary2hex bs) ≡ bs
unfolding hex2binary binary2hex
hex2binary-binary2hex [] h = refl
hex2binary-binary2hex (b ∷ bs) h = ap₂ ◌∷◌ (hex_byte-hex_digit b h.0) (hex2binary-binary2hex bs h.1)

pub length-binary2hex : (bs : List ℕ) → length (binary2hex bs) ≡ 2 * length bs
unfolding binary2hex
length-binary2hex [] = omega arith
length-binary2hex (b ∷ bs) = omega (arith, length-binary2hex bs)

hex_digit-visible : (d : ℕ) → d < 16 → is_space (hex_digit d) ≡ false
hex_digit-visible d lt = ground arith

pub binary2hex-AreVisible : (bs : List ℕ) → AreBytes bs → AreVisible (binary2hex bs)
unfolding binary2hex
binary2hex-AreVisible [] h = tt
binary2hex-AreVisible (b ∷ bs) h = (
  hex_digit-visible (b / 16) (omega (arith, h.0)),
  (hex_digit-visible (b % 16) (omega arith), binary2hex-AreVisible bs h.1),
)
