-- ===== src/Spiffy.antt =====
-- spiffy.c: datagrams by way of the network simulator, which are sent to a router with a header that
-- names the sender and the receiver. The fields of a header stand in network byte order.
pub mod Envelope
use bittorrent_with_congesti.Base.{
  ℕ, zero, suc, ◌+◌, ◌-◌, ◌%◌, ◌^◌, ◌<◌, Bool, true, false, Option, none, some, List, [], ◌∷◌, ◌++◌,
  ◌==◌, if◌then◌else◌, is_neg, leb, sub32, minus_one, length, take, drop, be16, be32, read16,
  read32,
}
use bittorrent_with_congesti.Config.{Address}
use bittorrent_with_congesti.Text.{scan_int}

-- the global variables: `giSpiffyEnabled`, `glNodeID`, `glSrcAddr` with `gsSrcPort`,
-- `gsSpiffyRouter`
pub record Spiffy : Type 0 where
  pub enabled : Bool
  pub node_id : ℕ
  pub src : Address
  pub router : Address

abbrev pub disabled : Spiffy
disabled = record {
  enabled = false;
  node_id = 0;
  src = record { ip = 0; port = 0 };
  router = record { ip = 0; port = 0 };
}

-- the bytes of a `spiffy_header`, `header_size` of them
abbrev pub header_size : ℕ
header_size = 16

unfoldable pub envelope : (id : ℕ) → (src dest : Address) → List ℕ
envelope id src dest =
    be32 id ++ (be32 src.ip ++ (be32 dest.ip ++ (be16 src.port ++ be16 dest.port)))

-- A `struct sockaddr` to send to: of AF_INET, with the family 0 of a global variable that nobody
-- has set, as in `gsSpiffyRouter`, or of another family.
pub data Destination : Type 0 where
  inet : Address → Destination
  family_unset : Address → Destination
  other_family : Destination

-- a call of `sendto`
pub record Datagram : Type 0 where
  pub to : Destination
  pub bytes : List ℕ

abbrev pub without_header : (result : ℕ) → ℕ
without_header result =
    if (result == 0) then result else if is_neg result then result else sub32 result header_size

-- `spiffy_sendto`, given what `sendto` returns for a datagram; the allocation succeeds.
unfoldable pub spiffy_sendto :
    Spiffy → (sendto : Datagram → ℕ) → List ℕ → Destination → Option Datagram × ℕ
unfolding envelope
spiffy_sendto s sendto msg to =
    let direct : Datagram = record { to = to; bytes = msg } in
    let wrapped : Option Datagram × ℕ = elim to [
      | other_family ↦ (none, minus_one)
      | family_unset dest ↦ (none, minus_one)
      | inet dest ↦
          let d : Datagram = record {
            to = family_unset s.router;
            bytes = envelope (s.node_id % 2 ^ 32) s.src dest ++ msg;
          } in
          (some d, without_header (sendto d))
    ] in
    if s.enabled then wrapped else (some direct, sendto direct)

-- What `recvfrom` finds: an error, or a datagram and where it comes from.
pub data Arrival : Type 0 where
  failed : Arrival
  arrived : (from : Address) → (bytes : List ℕ) → Arrival

-- the buffer, the address and the result after a call; an address that is not set is `none`
pub record Received : Type 0 where
  pub buffer : List ℕ
  pub from : Option Address
  pub result : ℕ

abbrev pub source : (newbuf : List ℕ) → Address
source newbuf = record { ip = read32 newbuf 4; port = read16 newbuf 12 }

-- what becomes of the bytes that `recvfrom` has put into the new buffer. `heap` is what that buffer
-- held after `malloc`.
abbrev pub unwrap : (heap buffer : List ℕ) → (size : ℕ) → (got : List ℕ) → Received
unwrap heap buffer size [] = record { buffer = buffer; from = none; result = 0 }
unwrap heap buffer size (c ∷ cs) =
    let newbuf = (c ∷ cs) ++ drop (length (c ∷ cs)) heap in
    record {
      buffer = take size (drop header_size newbuf) ++ drop size buffer;
      from = some (source newbuf);
      result = sub32 (length (c ∷ cs)) header_size;
    }

-- `spiffy_recvfrom` into a buffer with room for `size` bytes
unfoldable pub spiffy_recvfrom : Spiffy → (heap buffer : List ℕ) → (size : ℕ) → Arrival → Received
spiffy_recvfrom s heap buffer size failed = record {
  buffer = buffer;
  from = none;
  result = minus_one;
}
spiffy_recvfrom s heap buffer size (arrived from bytes) =
    let got = take size bytes in
    let direct : Received = record {
      buffer = got ++ drop (length got) buffer;
      from = some from;
      result = length got;
    } in
    if s.enabled then unwrap heap buffer size (take (size + header_size) bytes) else direct

-- `strchr(name, ':')`: what stands in front of it and behind it
abbrev at_colon : List ℕ → Option (List ℕ × List ℕ)
at_colon [] = none
at_colon (c ∷ cs) = elim (at_colon cs) as (λ _. Option (List ℕ × List ℕ)) [
  | none ↦ if c == b':' then some ([], cs) else none
  | some (name, rest) ↦ if c == b':' then some ([], cs) else some (c ∷ name, rest)
]

-- `atoi`
abbrev pub atoi : List ℕ → ℕ
atoi s = elim (scan_int s) [ none ↦ 0 | some (n, rest) ↦ n ]

-- `spiffy_init`, given `SPIFFY_ROUTER`, and `inet_aton` of the C library
unfoldable pub spiffy_init :
    (inet_aton : List ℕ → Option ℕ)
    → Spiffy
    → (router : Option (List ℕ)) → (node_id : ℕ) → Address
    → Spiffy × ℕ
spiffy_init inet_aton s none node_id addr = (s, 1)
spiffy_init inet_aton s (some name) node_id addr = elim (at_colon name) [
  | none ↦ (s, minus_one)
  | some (ip_text, port_text) ↦
      let port = atoi port_text % 2 ^ 16 in
      elim (inet_aton ip_text) [
        | none ↦ (record s { router = record { ip = s.router.ip; port = port } }, minus_one)
        | some ip ↦ (
          record {
            enabled = true;
            node_id = node_id;
            src = addr;
            router = record { ip = ip; port = port };
          },
          0,
        )
      ]
]
