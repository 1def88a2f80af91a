-- ===== src/Congestion/Recovery.antt =====
-- A4/Part2/CongestionControl.cpp: entry to fast recovery and exit from it.
use computer_network_course.Prelude.{
  ◌+◌, ◌-◌, ◌/◌, ◌^◌, ◌≤◌, ◌<◌, ◌≡◌, ◌≢◌, ◌↔◌, ◌⊎◌, Bool, true, false, arith,
}
use computer_network_course.Prelude.Int.{ℤ, pos, ◌≤ℤ◌}
use computer_network_course.Congestion.Float.{round_f32_small, round_f32_wrapped, round_f32_huge}
use computer_network_course.Congestion.Bounds.{exit_window}
use computer_network_course.Congestion.{
  CongestionControl, slow_start, congestion_avoidance, fast_recovery, on_packet_acked, on_timeout,
}

-- An acknowledgement ends fast recovery exactly when it is new and no loss is outstanding; the state
-- is then congestion avoidance, and in no case slow start.
pub recovery_left_iff :
    (c : CongestionControl) (dup : Bool) (loss : ℤ)
    → c.state ≡ fast_recovery
    → let d = on_packet_acked c dup loss in
      ((d.state ≡ congestion_avoidance) ↔ ((dup ≡ false) × (loss ≤ℤ pos 0)))
      × ((d.state ≡ congestion_avoidance) ⊎ (d.state ≡ fast_recovery))
unfolding on_packet_acked
recovery_left_iff c true loss e = ground arith
recovery_left_iff c false loss e = ground arith

-- The third duplicate in a row, outside fast recovery, halves the window into the threshold, sets the
-- window three above it and enters fast recovery.
pub third_duplicate :
    (c : CongestionControl) (a b d : ℤ)
    → c.state ≢ fast_recovery
    → c.dup_acks ≡ 0
    → c.cwnd ≤ 2 ^ 24
    → on_packet_acked (on_packet_acked (on_packet_acked c true a) true b) true d
      ≡ record { state = fast_recovery; ssthresh = c.cwnd / 2; cwnd = c.cwnd / 2 + 3; dup_acks = 3 }
unfolding on_packet_acked
third_duplicate c a b d e z w = ground (arith, round_f32_small (c.cwnd / 2 + 3))

-- A new acknowledgement with no loss outstanding ends fast recovery with the window at the threshold:
-- the window is set one below it, and the growth of congestion avoidance follows in the same call.
pub recovery_exit :
    (c : CongestionControl) (loss : ℤ)
    → c.state ≡ fast_recovery
    → loss ≤ℤ pos 0
    → 1 ≤ c.ssthresh
    → c.ssthresh ≤ 2 ^ 23
    → on_packet_acked c false loss
      ≡ record c { state = congestion_avoidance; cwnd = c.ssthresh; dup_acks = 0 }
unfolding on_packet_acked
recovery_exit c loss e l lo hi =
    ground (arith, exit_window c.ssthresh lo hi, round_f32_small (c.ssthresh - 1 + 1))

-- The bug: a third duplicate at a window of at most 1 leaves a threshold of 0, and the end of that
-- recovery wraps the window round to 2 ^ 32.
pub recovery_wraps :
    (c : CongestionControl) (a loss : ℤ)
    → c.state ≢ fast_recovery
    → c.dup_acks ≡ 2
    → c.cwnd ≤ 1
    → loss ≤ℤ pos 0
    → on_packet_acked (on_packet_acked c true a) false loss
      ≡ record { state = congestion_avoidance; ssthresh = 0; cwnd = 2 ^ 32; dup_acks = 0 }
unfolding on_packet_acked
recovery_wraps c a loss e d w l =
    ground (arith, round_f32_small 3, round_f32_wrapped, round_f32_huge)

-- A timeout followed by a new acknowledgement: the threshold is half the old window, and the window
-- is 2, in slow start if that is below the threshold and in congestion avoidance if not.
pub timeout_restart :
    (c : CongestionControl) (loss : ℤ)
    → c.cwnd ≤ 2 ^ 24
    → let d = on_packet_acked (on_timeout c) false loss in
      (d.ssthresh ≡ c.cwnd / 2) × (d.cwnd ≡ 2) × ((d.state ≡ slow_start) ↔ (2 < c.cwnd / 2))
unfolding on_packet_acked on_timeout
timeout_restart c loss w = ground (arith, round_f32_small 2, round_f32_small (c.cwnd / 2))

-- A new acknowledgement with no loss outstanding.
pub new_calms :
    (c : CongestionControl) (loss : ℤ)
    → loss ≤ℤ pos 0
    → let d = on_packet_acked c false loss in (d.state ≢ fast_recovery) × (d.dup_acks ≡ 0)
unfolding on_packet_acked
new_calms c loss l = ground arith

-- The first two duplicates are counted only.
pub duplicate_counts :
    (c : CongestionControl) (loss : ℤ)
    → c.state ≢ fast_recovery
    → c.dup_acks ≤ 1
    → let d = on_packet_acked c true loss in
      (d.state ≢ fast_recovery) × (d.dup_acks ≡ c.dup_acks + 1)
unfolding on_packet_acked
duplicate_counts c loss e l = ground arith

pub duplicate_enters :
    (c : CongestionControl) (loss : ℤ)
    → c.dup_acks ≡ 2
    → (on_packet_acked c true loss).state ≡ fast_recovery
unfolding on_packet_acked
duplicate_enters c loss e = ground arith
