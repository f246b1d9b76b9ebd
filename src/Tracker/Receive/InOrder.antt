-- ===== src/Tracker/Receive/InOrder.antt =====
-- keep_track.c: the receiver is a go-back-N receiver. It acknowledges the last packet up to which
-- everything has arrived in order, and drops what comes early or again.
use bittorrent_with_congesti.Base.{
  none, ℕ, zero, suc, ◌+◌, ◌^◌, ◌<◌, ◌≤◌, ◌≡◌, ◌≢◌, ◌↔◌, refl, ap, some, List, [], ◌∷◌, ◌==◌,
  if◌then◌else◌, arith, get_elem?, set, length, get_elem?-set_self, Bool-cases, inl, inr, add32,
  ◌⊎◌, ◌++◌, length-append,
}
use native.Mathlib.Decide.{ℕ_discrete}
use bittorrent_with_congesti.Tracker.{Download, Tracker, index_of}
use bittorrent_with_congesti.Tracker.Slots.{get_elem?-index_of, index_of-set_self, lt_of_index_of}
use bittorrent_with_congesti.Tracker.Receive.{
  track_records, root_seq, track_download, track_data_packet,
}

-- the automaton of a receiver that takes packets in order only
abbrev pub in_order : ℕ → ℕ → ℕ
in_order last seq = if seq == add32 last 1 then seq else last

-- A stream whose chain is a single record, as every call leaves it.
pub record IsTracking (t : Tracker) (peer_id i last : ℕ) : Type 0 where
  pub found : index_of Download.id peer_id t.downloads ≡ some i
  pub chain :
      (d : Download) × (get_elem? t.downloads i ≡ some d)
      × (len : ℕ) × (d.last_acked_record ≡ record { seq = last; length = len } ∷ [])

-- the root record of a stream that starts
pub track_records-root : track_records [] 0 1 ≡ record { seq = 0; length = 1 } ∷ []
unfolding track_records
track_records-root = refl

track_records_single :
    (last len seq l : ℕ)
    → (m : ℕ) × (track_records (record { seq = last; length = len } ∷ []) seq l
        ≡ record { seq = in_order last seq; length = m } ∷ [])
unfolding track_records
track_records_single last len seq l = elim (Bool-cases (add32 last 1 == seq)) [
  | inl next ↦ (l, ground arith)
  | inr other ↦ (len, ground arith)
]

pub track_data_packet-found :
    (t : Tracker) (peer_id seq len now : ℕ) {i : ℕ} {d : Download}
    → index_of Download.id peer_id t.downloads ≡ some i
    → get_elem? t.downloads i ≡ some d
    → track_data_packet t peer_id seq len now ≡ (
      record t { downloads = set t.downloads i (track_download d seq len now).0 },
      (track_download d seq len now).1,
    )
unfolding track_data_packet
track_data_packet-found t peer_id seq len now f e =
    rw (f, track_data_packet) (rw (e, track_data_packet))

pub track_data_packet-missing :
    (t : Tracker) (peer_id seq len now : ℕ)
    → index_of Download.id peer_id t.downloads ≡ none
    → track_data_packet t peer_id seq len now ≡ (t, seq)
unfolding track_data_packet
track_data_packet-missing t peer_id seq len now f = rw (f, track_data_packet)

-- A packet of a tracked stream is acknowledged with the last number in order, and the stream
-- stays tracked at that number.
pub track_data_packet-in_order :
    (t : Tracker) (peer_id i last seq len now : ℕ)
    → IsTracking t peer_id i last
    → let (t', ack) = track_data_packet t peer_id seq len now in
      (ack ≡ in_order last seq) × IsTracking t' peer_id i (in_order last seq)
track_data_packet-in_order t peer_id i last seq len now h =
    let (d, at, l, e) = h.chain in
    let (m, step) = track_records_single last l seq len in
    let (x, at', k) = get_elem?-index_of Download.id peer_id t.downloads h.found in
    let owner : d.id ≡ peer_id = cc in
    let chain : track_records d.last_acked_record seq len
        ≡ record { seq = in_order last seq; length = m } ∷ [] =
      rw e step in
    rw (track_data_packet-found t peer_id seq len now h.found at) (
      ap root_seq chain,
      record {
        found = index_of-set_self Download.id peer_id t.downloads _ h.found owner;
        chain = (
          _,
          get_elem?-set_self t.downloads i _
              (lt_of_index_of Download.id peer_id t.downloads h.found),
          m,
          chain,
        );
      },
    )

-- Packets of one peer in the order of their arrival: number, length and time.
abbrev pub Arrival : Type 0
Arrival = ℕ × ℕ × ℕ

pub receive_all : Tracker → ℕ → List Arrival → Tracker
receive_all t peer_id [] = t
receive_all t peer_id ((seq, len, now) ∷ ps) =
    receive_all (track_data_packet t peer_id seq len now).0 peer_id ps

-- `ps` has the packets `next`, `next + 1`, … (`count` of them) among it, in that order.
abbrev pub HasRun : (next count : ℕ) → List Arrival → Type 0
HasRun next zero ps = Unit
HasRun next (suc k) [] = ⊥
HasRun next (suc k) ((seq, _, _) ∷ ps) =
    ((seq ≡ next) × HasRun (suc next) k ps) ⊎ HasRun next (suc k) ps

HasRun-cons :
    (next k : ℕ) (p : Arrival) (ps : List Arrival) → HasRun next k ps → HasRun next k (p ∷ ps)
HasRun-cons next zero p ps h = tt
HasRun-cons next (suc k) p ps h = inr h

HasRun-tail : (next k : ℕ) (ps : List Arrival) → HasRun next (suc k) ps → HasRun (suc next) k ps
HasRun-tail next k [] h = absurd h
HasRun-tail next k (p ∷ ps) (inl (e, r)) = HasRun-cons (suc next) k p ps r
HasRun-tail next k (p ∷ ps) (inr r) = HasRun-cons (suc next) k p ps (HasRun-tail next k ps r)

in_order_all : ℕ → List Arrival → ℕ
in_order_all last [] = last
in_order_all last ((seq, _, _) ∷ ps) = in_order_all (in_order last seq) ps

receive_all-IsTracking :
    (ps : List Arrival) (t : Tracker) (peer_id i last : ℕ)
    → IsTracking t peer_id i last
    → IsTracking (receive_all t peer_id ps) peer_id i (in_order_all last ps)
unfolding receive_all in_order_all
receive_all-IsTracking [] t peer_id i last h = h
receive_all-IsTracking ((seq, len, now) ∷ ps) t peer_id i last h =
    receive_all-IsTracking ps _ peer_id i (in_order last seq)
      (track_data_packet-in_order t peer_id i last seq len now h).1

pub in_order-next :
    (last seq : ℕ) → suc last < 2 ^ 32 → seq ≡ suc last → in_order last seq ≡ suc last
in_order-next last seq h e = ground arith

pub in_order-other : (last seq : ℕ) → suc last < 2 ^ 32 → seq ≢ suc last → in_order last seq ≡ last
in_order-other last seq h ne = ground arith

in_order_all-le :
    (ps : List Arrival) (last : ℕ) → last + length ps < 2 ^ 32 → last ≤ in_order_all last ps
unfolding in_order_all
in_order_all-le [] last h = omega arith
in_order_all-le ((seq, l, now) ∷ ps) last h = elim (ℕ_discrete seq (suc last)) [
  | yes e ↦
      rw (in_order-next last seq (omega arith) e)
        (omega (arith, in_order_all-le ps (suc last) (omega arith)))
  | no ne ↦ rw (in_order-other last seq (omega arith) ne) (in_order_all-le ps last (omega arith))
]

in_order_all-HasRun :
    (ps : List Arrival) (last k : ℕ)
    → last + length ps < 2 ^ 32
    → HasRun (suc last) k ps ↔ (last + k ≤ in_order_all last ps)
unfolding in_order_all
in_order_all-HasRun ps last zero h = (λ _. omega (arith, in_order_all-le ps last h), λ _. tt)
in_order_all-HasRun [] last (suc k) h = (λ r. absurd r, λ le. omega arith)
in_order_all-HasRun ((seq, l, now) ∷ ps) last (suc k) h = elim (ℕ_discrete seq (suc last)) [
  | yes e ↦ rw (in_order-next last seq (omega arith) e) (
      let ih = in_order_all-HasRun ps (suc last) k (omega arith) in
      (
        λ r. omega (
          arith,
          ih.0 (elim r [ inl (_, run) ↦ run | inr run ↦ HasRun-tail (suc last) k ps run ]),
        ),
        λ le. inl (e, ih.1 (omega arith)),
      ))
  | no ne ↦ rw (in_order-other last seq (omega arith) ne) (
      let ih = in_order_all-HasRun ps last (suc k) (omega arith) in
      (λ r. ih.0 (elim r [ inl (e, _) ↦ absurd (ne e) | inr run ↦ run ]), λ le. inr (ih.1 le)))
]

in_order_all-append :
    (ps : List Arrival) (last seq len now : ℕ)
    → in_order_all last (ps ++ ((seq, len, now) ∷ [])) ≡ in_order (in_order_all last ps) seq
unfolding in_order_all
in_order_all-append [] last seq len now = refl
in_order_all-append ((s, l, n) ∷ ps) last seq len now =
    in_order_all-append ps (in_order last s) seq len now

-- A stream is tracked from 0 on and any packets of its peer arrive, fewer than 2^32. For every `k`,
-- the number returned for the last of them is at least `k` exactly when the packets 1, …, k have
-- arrived in this order, with any others between them.
pub track_data_packet-HasRun :
    (ps : List Arrival) (seq len now k : ℕ) (t : Tracker) (peer_id i : ℕ)
    → IsTracking t peer_id i 0
    → length ps + 1 < 2 ^ 32
    → HasRun 1 k (ps ++ ((seq, len, now) ∷ []))
      ↔ (k ≤ (track_data_packet (receive_all t peer_id ps) peer_id seq len now).1)
track_data_packet-HasRun ps seq len now k t peer_id i h small =
    let small' : 0 + length (ps ++ ((seq, len, now) ∷ [])) < 2 ^ 32 =
      omega (arith, length-append ps ((seq, len, now) ∷ [])) in
    let spec = in_order_all-HasRun (ps ++ ((seq, len, now) ∷ [])) 0 k small' in
    let tracked = receive_all-IsTracking ps t peer_id i 0 h in
    let ack = (track_data_packet-in_order _ peer_id i _ seq len now tracked).0 in
    let last = in_order_all-append ps 0 seq len now in
    (λ r. omega (arith, spec.0 r, ack, last), λ le. spec.1 (omega (arith, ack, last)))
