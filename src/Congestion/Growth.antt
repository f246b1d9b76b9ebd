-- ===== src/Congestion/Growth.antt =====
-- congestion_control.c: how far an acknowledgement may widen a window.
use bittorrent_with_congesti.Base.{ℕ, ◌+◌, ◌^◌, ◌<◌, ◌≤◌, ◌≡◌, arith, max}
use bittorrent_with_congesti.Congestion.{slow_start, Window, grow}

-- The window is not empty, and in slow start it is the largest so far.
pub record IsSound (w : Window) : Type 0 where
  pub open_ : 1 ≤ w.cwnd
  pub acks : w.ack_count < 2 ^ 31
  pub peak : w.policy ≡ slow_start → w.max_cwnd ≡ w.cwnd

-- An acknowledgement of `count` packets leaves a sound window sound and its policy as it is, does
-- not shrink it, and widens it by at most `count`, or one if that is more, as long as its size and
-- its count of acknowledged packets, with `count` added, stay below 2^31.
pub grow-IsSound :
    (w : Window) (count : ℕ)
    → IsSound w
    → w.cwnd + count < 2 ^ 31
    → w.ack_count + count < 2 ^ 31
    → let w' = (grow w.policy w count).0 in
      IsSound w' × (w.cwnd ≤ w'.cwnd) × (w'.cwnd ≤ w.cwnd + max 1 count) × (w'.policy ≡ w.policy)
unfolding grow
grow-IsSound w count s small acks = ground arith
