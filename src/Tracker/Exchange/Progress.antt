-- ===== src/Tracker/Exchange/Progress.antt =====
-- keep_track.c: stop and wait over a network that loses packets gets every packet across.
use mathlib.Core.Path.{subst}
use bittorrent_with_congesti.Base.{
  ℕ, suc, ◌+◌, ◌^◌, ◌<◌, ◌≤◌, ◌≡◌, refl, sym, ap, ◌∙◌, arith, false, ◌⊎◌, inl, inr, List, [], ◌∷◌,
  add32, length, Outcome, done,
}
use bittorrent_with_congesti.Tracker.{SentPacket, Upload, Timers, Tracker}
use bittorrent_with_congesti.Tracker.Send.{Smoothing, renew_head, enqueue, await, acknowledge}
use bittorrent_with_congesti.Tracker.Send.Window.{
  IsBetween, IsWindow, AreRecent, tail_seq, length-IsBetween, await-IsWindow,
}
use bittorrent_with_congesti.Tracker.Send.Window.Acknowledge.{acknowledge-IsWindow}
use bittorrent_with_congesti.Tracker.Receive.{track_data_packet}
use bittorrent_with_congesti.Tracker.Receive.InOrder.{
  in_order, IsTracking, track_data_packet-in_order,
}
use bittorrent_with_congesti.Tracker.Exchange.{
  Fate, packet_lost, ack_lost, delivered, Turn, send_from, Ends, answer, exchange,
}
use bittorrent_with_congesti.Tracker.Exchange.Estimate.{IsMean, acknowledge-rtt}

-- A sender that has everything up to `base` acknowledged, at most one packet outstanding, and a
-- receiver that has everything up to `base`, or this packet too.
pub record IsPair (u : Upload) (t : Tracker) (peer_id i base : ℕ) : Type 0 where
  pub window : IsWindow u base base ⊎ IsWindow u base (suc base)
  pub tracking : IsTracking t peer_id i base ⊎ IsTracking t peer_id i (suc base)
  pub last_ack : u.last_ack ≤ base

-- the one packet outstanding after a send
abbrev IsSent : Upload × ℕ → (old : Upload) → (base sent : ℕ) → Type 0
IsSent (u, seq) old base sent =
    (seq ≡ suc base)
    × IsWindow u base (suc base)
    × ((sampled : ℕ) → sent ≤ sampled → sampled < sent + 2 ^ 31 → AreRecent sampled u.queue)
    × (u.last_ack ≡ old.last_ack)

module _ (u : Upload) (base sent : ℕ) where
  nothing_out : (queue : List SentPacket) → IsBetween base base queue → queue ≡ []
  nothing_out [] h = refl
  nothing_out (p ∷ ps) h = absurd (omega (arith, length-IsBetween (suc base) base ps h.1))

  one_out :
      (queue : List SentPacket)
      → IsBetween base (suc base) queue
      → (p : SentPacket) × (queue ≡ p ∷ []) × (p.seq ≡ suc base)
  one_out [] h = absurd (omega arith)
  one_out (p ∷ []) h = (p, refl, h.0)
  one_out (p ∷ q ∷ qs) h =
      absurd (omega (arith, length-IsBetween (suc (suc base)) (suc base) qs h.1.1))

  send-next :
      (small : suc base < 2 ^ 31)
      → IsWindow u base base
      → IsSent (send_from u u.queue sent) u base sent
  unfolding await
  send-next small w =
      let empty = nothing_out u.queue w.between in
      let next : add32 (tail_seq u.tail) 1 ≡ suc base = omega (arith, w.tail) in
      let new : SentPacket = record { seq = suc base; timestamp = sent } in
      subst (λ q. IsSent (send_from u q sent) u base sent) (sym empty)
        (subst (λ seq. IsSent ((await u seq false sent).0, seq) u base sent) (sym next)
          (
            refl,
            await-IsWindow u base base sent w small,
            λ sampled le lt.
                subst (λ q. AreRecent sampled (enqueue new q u.tail)) (sym empty) (le, lt, tt),
            refl,
          ))

  send-again : IsWindow u base (suc base) → IsSent (send_from u u.queue sent) u base sent
  unfolding await
  send-again w =
      let (p, one, numbered) = one_out u.queue w.between in
      subst (λ q. IsSent (send_from u q sent) u base sent) (sym one)
        (
          numbered,
          record {
            between =
                subst (λ q. IsBetween base (suc base) (renew_head sent q)) (sym one)
                  (numbered, refl);
            tail = w.tail;
            size = omega (arith, w.size, ap (λ q. length (renew_head sent q)) one, ap length one);
            small = w.small;
          },
          λ sampled le lt.
              subst (λ q. AreRecent sampled (renew_head sent q)) (sym one) (le, lt, tt),
          refl,
        )

-- A turn in time: the acknowledgement comes less than 2^31 microseconds after the packet was sent.
abbrev pub IsTimely : Turn → Type 0
IsTimely r = (r.sent ≤ r.sampled) × (r.sampled < r.sent + 2 ^ 31) × (r.sampled < 2 ^ 64)

abbrev pub AreTimely : List Turn → Type 0
AreTimely [] = Unit
AreTimely (r ∷ rs) = IsTimely r × AreTimely rs

-- the turns in which nothing is lost
abbrev pub one_if_delivered : Fate → ℕ
one_if_delivered packet_lost = 0
one_if_delivered ack_lost = 0
one_if_delivered delivered = 1

abbrev pub deliveries : List Turn → ℕ
deliveries [] = 0
deliveries (r ∷ rs) = one_if_delivered r.fate + deliveries rs

one_if_delivered-le : (f : Fate) → one_if_delivered f ≤ 1
one_if_delivered-le packet_lost = omega arith
one_if_delivered-le ack_lost = omega arith
one_if_delivered-le delivered = omega arith

-- what the ends are after a turn
abbrev Reaches : Outcome Ends → (peer_id i base : ℕ) → Type 0
Reaches o peer_id i base =
    (tm : Timers) × (u : Upload) × (t : Tracker) × (o ≡ done (tm, u, t))
    × IsPair u t peer_id i base
    × (tm.rtt < 2 ^ 31)

module _ (sm : Smoothing) (mean : IsMean sm) (peer_id i base : ℕ) (r : Turn) (tm : Timers)
    (old : Upload) (t : Tracker) (timely : IsTimely r) (rtt : tm.rtt < 2 ^ 31)
    (pair : IsPair old t peer_id i base) (small : suc base < 2 ^ 31) where
  sent_out : IsSent (send_from old old.queue r.sent) old base r.sent
  sent_out = elim pair.window [
    | inl w ↦ send-next old base r.sent small w
    | inr w ↦ send-again old base r.sent w
  ]

  -- The receiver answers with the packet's number, whether it had the packet or not.
  abbrev after_packet : (seq : ℕ) → Tracker × ℕ
  after_packet seq = track_data_packet t peer_id seq r.size r.arrived

  taken_from :
      (last seq : ℕ)
      → IsTracking t peer_id i last
      → in_order last seq ≡ suc base
      → ((after_packet seq).1 ≡ suc base) × IsTracking (after_packet seq).0 peer_id i (suc base)
  taken_from last seq h e =
      let (ack, tracked) = track_data_packet-in_order t peer_id i last seq r.size r.arrived h in
      (ack ∙ e, subst (IsTracking (after_packet seq).0 peer_id i) e tracked)

  taken :
      (seq : ℕ)
      → seq ≡ suc base
      → ((after_packet seq).1 ≡ suc base) × IsTracking (after_packet seq).0 peer_id i (suc base)
  taken seq e = elim pair.tracking [
    | inl h ↦ taken_from base seq h (ground arith)
    | inr h ↦ taken_from (suc base) seq h (ground arith)
  ]

  still :
      {u : Upload} {t' : Tracker} → IsPair u t' peer_id i base → IsPair u t' peer_id i (base + 0)
  still {u} {t'} h = subst (IsPair u t' peer_id i) (omega arith) h

  answer-IsPair :
      (fate : Fate) (sent : Upload × ℕ)
      → IsSent sent old base r.sent
      → Reaches (answer sm peer_id r fate tm sent t) peer_id i (base + one_if_delivered fate)
  answer-IsPair packet_lost (u, seq) s = (
    tm,
    u,
    t,
    refl,
    still (record {
      window = inr s.1;
      tracking = pair.tracking;
      last_ack = omega (arith, s.3, pair.last_ack);
    }),
    rtt,
  )
  answer-IsPair ack_lost (u, seq) s = (
    tm,
    u,
    (after_packet seq).0,
    refl,
    still (record {
      window = inr s.1;
      tracking = inr (taken seq s.0).1;
      last_ack = omega (arith, s.3, pair.last_ack);
    }),
    rtt,
  )
  answer-IsPair delivered (u, seq) s =
      let (ack, tracked) = taken seq s.0 in
      let recent = s.2 r.sampled timely.0 timely.1 in
      let (tm', u', result, window, noted) =
        acknowledge-IsWindow sm tm u (suc base) r.sampled r.now base (suc base) s.1 recent rtt
          timely.2 (omega arith) (omega arith) (inr (λ e. omega (arith, e, s.3, pair.last_ack))) in
      let acked = ap (λ a. acknowledge sm tm u a r.sampled r.now) ack ∙ result in
      (
        tm',
        u',
        (after_packet seq).0,
        rw acked,
        subst (IsPair u' (after_packet seq).0 peer_id i) (omega arith) (record {
          window = inl window;
          tracking = inl tracked;
          last_ack = omega (arith, noted);
        }),
        acknowledge-rtt sm mean r.sampled (suc base) tm u r.now recent timely.2 rtt result,
      )

-- A sender with a window of one packet, and a receiver that has what the sender has acknowledged,
-- or the packet outstanding too, on a network that loses packets and acknowledgements. Each
-- acknowledgement that comes is less than 2^31 microseconds late, the smoothed round trip of two
-- times that are not negative is not negative, and the numbers stay below 2^31. Then the turns come
-- to an end, and each turn in which nothing is lost moves the sender on by one packet and no other
-- turn does. At the end the receiver again has what is acknowledged, or one packet more.
pub exchange-IsPair :
    (sm : Smoothing) (peer_id i base : ℕ) (rs : List Turn) (tm : Timers) (u : Upload) (t : Tracker)
    → IsMean sm
    → AreTimely rs
    → tm.rtt < 2 ^ 31
    → IsPair u t peer_id i base
    → base + length rs < 2 ^ 31
    → (tm' : Timers) × (u' : Upload) × (t' : Tracker) × (exchange sm peer_id rs (tm, u, t)
        ≡ done (tm', u', t'))
      × IsPair u' t' peer_id i (base + deliveries rs)
unfolding exchange
exchange-IsPair sm peer_id i base [] tm u t mean timely rtt pair small =
    (tm, u, t, refl, subst (IsPair u t peer_id i) (omega arith) pair)
exchange-IsPair sm peer_id i base (r ∷ rs) tm u t mean timely rtt pair small =
    let one_turn = answer-IsPair sm mean peer_id i base r tm u t timely.0 rtt pair (omega arith) in
    let (tm₁, u₁, t₁, first, pair₁, rtt₁) =
      one_turn r.fate (send_from u u.queue r.sent)
        (sent_out sm mean peer_id i base r tm u t timely.0 rtt pair (omega arith)) in
    let (tm', u', t', rest, pair') =
      exchange-IsPair sm peer_id i (base + one_if_delivered r.fate) rs tm₁ u₁ t₁ mean timely.1 rtt₁
        pair₁ (omega (arith, one_if_delivered-le r.fate)) in
    (tm', u', t', rw first rest, subst (IsPair u' t' peer_id i) (omega arith) pair')
