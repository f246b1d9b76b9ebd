-- ===== src/Wire/Print.antt =====
-- network.c: `print_packet` and `print_incoming_packet`, as far as what they print depends on the
-- packet: the fields of the header, and the bytes that they take for hashes.
use bittorrent_with_congesti.Base.{
  ℕ, zero, suc, ◌+◌, ◌-◌, ◌*◌, ◌/◌, ◌%◌, ◌^◌, ◌<◌, ◌≤◌, ◌≡◌, ◌≢◌, refl, arith, true, false, List,
  [], ◌∷◌, ◌==◌, if◌then◌else◌, ltb, leb, length, take, drop, drop-drop, slice, Bool-cases, inl,
  inr, Outcome, done, crash, out_of_bounds, unfinished, ◌>>=◌,
}
use bittorrent_with_congesti.Hex.{binary2hex}
use bittorrent_with_congesti.Chunks.{hash_size}
use bittorrent_with_congesti.Wire.{data_packet, Header, Packet, read_header}

-- what is printed: the header, and a line for each hash
pub record Printed : Type 0 where
  pub header : Header
  pub hashes : List (List ℕ)

-- The loop over the hashes, with an `unsigned short` for its counter, on fuel.
unfoldable pub hash_lines : (fuel i limit : ℕ) → List ℕ → Outcome (List (List ℕ))
hash_lines zero i limit bytes = crash unfinished
hash_lines (suc fuel) i limit bytes =
    let rest = slice bytes i hash_size >>= λ hash.
    hash_lines fuel ((i + 20) % 2 ^ 16) limit bytes >>= λ lines. done (binary2hex hash ∷ lines) in
    if ltb i limit then rest else done []

-- More than the rounds that the counter takes up to 65520.
abbrev pub print_rounds : ℕ
print_rounds = 3278

unfoldable pub print_incoming_packet : List ℕ → Outcome Printed
print_incoming_packet buf =
    let h = read_header buf in
    let lines = hash_lines print_rounds 20 h.packet_length buf in
    (if h.packet_type == data_packet then done [] else lines) >>= λ hashes.
    done (record { header = h; hashes = hashes })

unfoldable pub print_packet : Packet → Outcome Printed
print_packet p =
    let h = read_header p.header in
    let lines = hash_lines print_rounds 4 (h.packet_length - h.header_length) p.payload in
    (if h.packet_type == data_packet then done [] else lines) >>= λ hashes.
    done (record { header = h; hashes = hashes })

-- the first `n` groups of 20 bytes, in hexadecimal
abbrev pub groups : (n : ℕ) → List ℕ → List (List ℕ)
groups zero bytes = []
groups (suc n) bytes = binary2hex (take 20 bytes) ∷ groups n (drop 20 bytes)

-- the number of groups below a limit, from `i` on
abbrev pub rounds : (i limit : ℕ) → ℕ
rounds i limit = (limit - i + 19) / 20

module _ (buf : List ℕ) (whole : length buf ≡ 1500) (limit : ℕ) where
  slice-group : (i : ℕ) → i + 20 ≤ 1500 → slice buf i hash_size ≡ done (take 20 (drop i buf))
  slice-group i h = ground arith

  hash_lines-groups :
      (k fuel i : ℕ)
      → limit ≤ 1500
      → i % 20 ≡ 0
      → k ≡ rounds i limit
      → k < fuel
      → hash_lines fuel i limit buf ≡ done (groups k (drop i buf))
  unfolding hash_lines
  hash_lines-groups k zero i low even e enough = absurd (omega arith)
  hash_lines-groups zero (suc fuel) i low even e enough =
      let ended : ltb i limit ≡ false = ground arith in rw ended
  hash_lines-groups (suc k) (suc fuel) i low even e enough =
      let more : ltb i limit ≡ true = ground arith in
      let next : (i + 20) % 2 ^ 16 ≡ i + 20 = omega arith in
      let later = hash_lines-groups k fuel (i + 20) low (omega arith) (omega arith) (omega arith) in
      rw (more, slice-group i (omega arith), next, later, drop-drop 20 i buf)

  -- a limit that lies beyond the buffer
  hash_lines-beyond :
      (k fuel i : ℕ)
      → 1500 < limit
      → i + 20 * k ≡ 1500
      → k < fuel
      → hash_lines fuel i limit buf ≡ crash out_of_bounds
  unfolding hash_lines
  hash_lines-beyond k zero i high e enough = absurd (omega arith)
  hash_lines-beyond zero (suc fuel) i high e enough =
      let more : ltb i limit ≡ true = ground arith in
      let outside : leb (i + hash_size) (length buf) ≡ false = ground arith in rw (more, outside)
  hash_lines-beyond (suc k) (suc fuel) i high e enough =
      let more : ltb i limit ≡ true = ground arith in
      let next : (i + 20) % 2 ^ 16 ≡ i + 20 = omega arith in
      rw (
        more,
        slice-group i (omega arith),
        next,
        hash_lines-beyond k fuel (i + 20) high (omega arith) (omega arith),
      )

-- The buffer of 1500 bytes holds a packet that is no DATA packet. If the length that the packet
-- claims is at most 1500, print_incoming_packet prints each group of 20 bytes that begins below
-- this length, from the 20th byte on, and ends; if it is more, a read leaves the buffer.
pub print_incoming_packet-groups :
    (buf : List ℕ)
    → length buf ≡ 1500
    → (read_header buf).packet_type ≢ data_packet
    → print_incoming_packet buf ≡ (
        if leb (read_header buf).packet_length 1500
        then done (record {
          header = read_header buf;
          hashes = groups (rounds 20 (read_header buf).packet_length) (drop 20 buf);
        })
        else crash out_of_bounds)
unfolding print_incoming_packet
print_incoming_packet-groups buf whole other =
    let limit = (read_header buf).packet_length in
    let no_data : ((read_header buf).packet_type == data_packet) ≡ false = ground arith in
    elim (Bool-cases (leb limit 1500)) [
      | inl low ↦
          let fits : limit ≤ 1500 = ground arith in
          rw (
            no_data,
            low,
            hash_lines-groups buf whole limit (rounds 20 limit) print_rounds 20 fits (omega arith)
                refl (omega arith),
          )
      | inr high ↦
          let long : 1500 < limit = ground arith in
          rw (
            no_data,
            high,
            hash_lines-beyond buf whole limit 74 print_rounds 20 long (omega arith) (omega arith),
          )
    ]
