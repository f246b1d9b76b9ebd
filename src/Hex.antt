-- ===== src/Hex.antt =====
-- chunk.c: the conversions between a hash and its hexadecimal text.
pub mod RoundTrip
use Prim.Native.Nat.{bit_or}
use bittorrent_with_congesti.Base.{
  ℕ, zero, suc, ◌+◌, ◌-◌, ◌*◌, ◌/◌, ◌%◌, ◌&&◌, ◌||◌, List, [], ◌∷◌, if◌then◌else◌, ltb, leb,
}

-- a digit of `"%.2x"`
abbrev pub hex_digit : ℕ → ℕ
hex_digit d = if ltb d 10 then b'0' + d else b'a' + (d - 10)

-- `binary2hex` on `len` bytes, without the 0 that it puts behind them
unfoldable pub binary2hex : List ℕ → List ℕ
binary2hex [] = []
binary2hex (b ∷ bs) = hex_digit (b / 16) ∷ hex_digit (b % 16) ∷ binary2hex bs

-- `toupper` on the bytes of the C locale
abbrev pub toupper : ℕ → ℕ
toupper c = if leb b'a' c && leb c b'z' then c - 32 else c

-- `_hex2binary`. From 128 on a `char` is negative, and so at most '9'.
abbrev pub hex_value : ℕ → ℕ
hex_value c =
    let u = toupper c in
    if leb u b'9' || leb 128 u then (u + 256 - b'0') % 256 else (u + 256 - (b'A' - 10)) % 256

abbrev pub hex_byte : (high low : ℕ) → ℕ
hex_byte high low = bit_or (hex_value high * 16) (hex_value low) % 256

-- `hex2binary`: `n` bytes from `2 * n` characters
unfoldable pub hex2binary : List ℕ → List ℕ
hex2binary [] = []
hex2binary (c ∷ []) = []
hex2binary (high ∷ low ∷ cs) = hex_byte high low ∷ hex2binary cs
