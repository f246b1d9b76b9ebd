-- ===== src/Spiffy/Envelope.antt =====
-- spiffy.c: a datagram by way of the router.
use mathlib.Core.List.{append_assoc}
use bittorrent_with_congesti.Base.{
  ℕ, ◌+◌, ◌-◌, ◌%◌, ◌^◌, ◌<◌, ◌≤◌, ◌≡◌, refl, ap, ◌∙◌, arith, true, some, List, ◌++◌, sub32, length,
  length-append, take, drop, be16_value, be32_value, take-le, take-append, take-append_self,
  drop-append_self,
}
use bittorrent_with_congesti.Config.{Address}
use bittorrent_with_congesti.Spiffy.{
  Spiffy, header_size, envelope, inet, family_unset, Datagram, spiffy_sendto, Received, source,
  arrived, unwrap, without_header, spiffy_recvfrom,
}

length-envelope : (id : ℕ) (src dest : Address) → length (envelope id src dest) ≡ header_size
unfolding envelope
length-envelope id src dest = refl

-- The header tells the address that it has been made for.
source-envelope :
    (id : ℕ) (src dest : Address) (rest : List ℕ)
    → src.ip < 2 ^ 32
    → src.port < 2 ^ 16
    → source (envelope id src dest ++ rest) ≡ src
unfolding envelope
source-envelope id src dest rest ip port =
    λ i. record { ip = be32_value src.ip ip i; port = be16_value src.port port i }

-- what is received where a datagram of this message arrives
module _ (r : Spiffy) (enabled : r.enabled ≡ true) (id : ℕ) (src dest from : Address)
    (msg heap buffer : List ℕ) (size : ℕ) (fits : length msg ≤ size)
    (small : size + header_size < 2 ^ 31) where
  abbrev whole : List ℕ
  whole = envelope id src dest ++ msg

  abbrev behind : List ℕ
  behind = drop (length whole) heap

  abbrev expected : Received
  expected = record {
    buffer = take size (msg ++ behind) ++ drop size buffer;
    from = some (source (envelope id src dest ++ (msg ++ behind)));
    result = length msg;
  }

  newbuf : whole ++ behind ≡ envelope id src dest ++ (msg ++ behind)
  newbuf = append_assoc (envelope id src dest) msg behind

  length-whole : length whole ≡ header_size + length msg
  length-whole =
      length-append (envelope id src dest) msg
      ∙ ap (λ n. n + length msg) (length-envelope id src dest)

  unwrap-whole : unwrap heap buffer size whole ≡ expected
  unfolding envelope
  unwrap-whole =
      let message : drop header_size (whole ++ behind) ≡ msg ++ behind =
        ap (drop header_size) newbuf ∙ drop-append_self (envelope id src dest) (msg ++ behind) in
      let count : sub32 (length whole) header_size ≡ length msg = omega (arith, length-whole) in
      λ i. record {
        buffer = take size (message i) ++ drop size buffer;
        from = some (source (newbuf i));
        result = count i;
      }

  spiffy_recvfrom-envelope : spiffy_recvfrom r heap buffer size (arrived from whole) ≡ expected
  unfolding spiffy_recvfrom
  spiffy_recvfrom-envelope = rw enabled (
      ap (unwrap heap buffer size)
        (take-le (size + header_size) whole (omega (arith, length-whole)))
      ∙ unwrap-whole)

  take-received : take (length msg) expected.buffer ≡ msg
  take-received =
      let front : take size (msg ++ behind) ≡ msg ++ take (size - length msg) behind =
        ap (λ n. take n (msg ++ behind)) (omega arith)
        ∙ take-append msg behind (size - length msg) in
      let rest = take (size - length msg) behind in
      ap (λ b. take (length msg) (b ++ drop size buffer)) front
      ∙ ap (take (length msg)) (append_assoc msg rest (drop size buffer))
      ∙ take-append_self msg (rest ++ drop size buffer)

without_header-longer : (n : ℕ) → n + header_size < 2 ^ 31 → without_header (header_size + n) ≡ n
without_header-longer n small = ground arith

-- With the simulator enabled, and where `sendto` sends every datagram whole, `spiffy_sendto` of a
-- message to an Internet address hands one datagram to `sendto`, with the router's IP address and
-- port and no family set, and returns the message's length. A receiver with the simulator enabled, and room for the message, to which these
-- bytes come from wherever, finds the message at the start of its buffer, the message's length as
-- the result, and the sender's own address.
pub spiffy_recvfrom-spiffy_sendto :
    (s r : Spiffy) (sendto : Datagram → ℕ) (msg : List ℕ) (dest from : Address)
    (heap buffer : List ℕ) (size : ℕ)
    → ((x : Datagram) → sendto x ≡ length x.bytes)
    → s.enabled ≡ true
    → r.enabled ≡ true
    → s.src.ip < 2 ^ 32
    → s.src.port < 2 ^ 16
    → length msg ≤ size
    → size + header_size < 2 ^ 31
    → (d : Datagram) × (spiffy_sendto s sendto msg (inet dest) ≡ (some d, length msg))
      × (d.to ≡ family_unset s.router)
      × ((spiffy_recvfrom r heap buffer size (arrived from d.bytes)).result ≡ length msg)
      × (take (length msg) (spiffy_recvfrom r heap buffer size (arrived from d.bytes)).buffer ≡ msg)
      × ((spiffy_recvfrom r heap buffer size (arrived from d.bytes)).from ≡ some s.src)
unfolding spiffy_sendto
spiffy_recvfrom-spiffy_sendto s r sendto msg dest from heap buffer size all_sent on_s on_r ip port
      fits small =
    let id = s.node_id % 2 ^ 32 in
    let d : Datagram = record {
      to = family_unset s.router;
      bytes = envelope id s.src dest ++ msg;
    } in
    let received =
      spiffy_recvfrom-envelope r on_r id s.src dest from msg heap buffer size fits small in
    (
      d,
      rw on_s (
          ap (λ n. (some d, n))
            (ap without_header (
                all_sent d ∙ length-whole s on_s id s.src dest from msg heap buffer size fits small)
              ∙ without_header-longer (length msg) (omega arith))),
      refl,
      ap (λ (x : Received). x.result) received,
      ap (λ (x : Received). take (length msg) x.buffer) received
          ∙ take-received r on_r id s.src dest from msg heap buffer size fits small,
      ap (λ (x : Received). x.from) received
          ∙ ap some (
              source-envelope id s.src dest
                (msg ++ drop (length (envelope id s.src dest ++ msg)) heap) ip port),
    )
