-- ===== src/Tracker/Send/Window.antt =====
-- keep_track.c: the queue of a sender is the window between the last number acknowledged and the
-- last number sent.
pub mod Acknowledge
use native.Mathlib.Decide.{ℕ_discrete}
use bittorrent_with_congesti.Base.{
  ℕ, suc, ◌+◌, ◌-◌, ◌^◌, ◌%◌, ◌<◌, ◌≤◌, ◌≡◌, ◌≢◌, refl, ap, sym, ◌∙◌, Option, none, some, List, [],
  ◌∷◌, ◌++◌, ◌==◌, arith, length, Bool-cases, inl, inr, add32, sub32, sub64, is_neg, false, ◌⊎◌,
  length-append, done, crash, Crash, to_ulong, null_dereference, exited, leb,
}
use bittorrent_with_congesti.Tracker.{SentPacket, Upload, Timers}
use bittorrent_with_congesti.Tracker.Send.{
  Smoothing, abs_int, estimate, infer_rtt, await, drop_acked, fast_retransmit, count_duplicate,
  acknowledge, enqueue,
}

-- The numbers of the queue are base + 1, …, last.
abbrev pub IsBetween : (base last : ℕ) → List SentPacket → Type 0
IsBetween base last [] = base ≡ last
IsBetween base last (p ∷ ps) = (p.seq ≡ suc base) × IsBetween (suc base) last ps

-- what `get_tail_seq_number` reads
abbrev pub tail_seq : Option ℕ → ℕ
tail_seq none = 0
tail_seq (some seq) = seq

pub record IsWindow (u : Upload) (base last : ℕ) : Type 0 where
  pub between : IsBetween base last u.queue
  pub tail : tail_seq u.tail ≡ last
  pub size : u.queue_size ≡ length u.queue
  pub small : last < 2 ^ 31

-- Each packet of the queue was sent at most 2^31 microseconds ago.
abbrev pub AreRecent : ℕ → List SentPacket → Type 0
AreRecent now [] = Unit
AreRecent now (p ∷ ps) = (p.timestamp ≤ now) × (now < p.timestamp + 2 ^ 31) × AreRecent now ps

pub length-IsBetween :
    (base last : ℕ) (queue : List SentPacket)
    → IsBetween base last queue
    → base + length queue ≡ last
length-IsBetween base last [] h = omega arith
length-IsBetween base last (p ∷ ps) h = omega (arith, length-IsBetween (suc base) last ps h.1)

IsBetween-append :
    (base last : ℕ) (queue : List SentPacket) (now : ℕ)
    → IsBetween base last queue
    → IsBetween base (suc last) (queue ++ (record { seq = suc last; timestamp = now } ∷ []))
IsBetween-append base last [] now h = (ap suc (sym h), ap suc h)
IsBetween-append base last (p ∷ ps) now h = (h.0, IsBetween-append (suc base) last ps now h.1)

enqueue-IsBetween :
    (queue : List SentPacket) (tail : Option ℕ) (base last now : ℕ)
    → IsBetween base last queue
    → tail_seq tail ≡ last
    → let queue' = enqueue (record { seq = suc last; timestamp = now }) queue tail in
      IsBetween base (suc last) queue' × (length queue' ≡ suc (length queue))
enqueue-IsBetween [] tail base last now h e = ((ap suc (sym h), ap suc h), refl)
enqueue-IsBetween (p ∷ ps) none base last now h e =
    absurd (omega (arith, length-IsBetween base last (p ∷ ps) h))
enqueue-IsBetween (p ∷ ps) (some seq) base last now h e = (
  IsBetween-append base last (p ∷ ps) now h,
  omega (arith, length-append ps (record { seq = suc last; timestamp = now } ∷ [])),
)

-- A packet sent with the number after the last extends the window by one.
pub await-IsWindow :
    (u : Upload) (base last now : ℕ)
    → IsWindow u base last
    → suc last < 2 ^ 31
    → IsWindow (await u (suc last) false now).0 base (suc last)
unfolding await
await-IsWindow u base last now w small =
    let (between, count) = enqueue-IsBetween u.queue u.tail base last now w.between w.tail in
    let total = length-IsBetween base last u.queue w.between in
    record {
      between = between;
      tail = refl;
      size = omega (arith, w.size, count, total);
      small = small;
    }
