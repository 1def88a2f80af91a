-- ===== src/Congestion.antt =====
-- A4/Part2/CongestionControl.hpp and CongestionControl.cpp: the congestion window of the client.
-- `cwnd_` is a float that only ever holds non-negative integers, so it is the number that it holds,
-- and every assignment to it goes through `round_f32`, the rounding of binary32. `ssthresh_` and
-- `dupAcks_` are uint32_t. The lines printed are left out.
pub mod Float
pub mod Bounds
pub mod SlowStart
pub mod Recovery
mod Tests
use computer_network_course.Prelude.{
  ℕ, ◌+◌, ◌-◌, ◌*◌, ◌/◌, ◌%◌, ◌^◌, Bool, true, false, leb, ◌==◌, if◌then◌else◌,
}
use computer_network_course.Prelude.Int.{ℤ, pos, leb_ℤ}
use Float.{round_f32}

pub data State : Type 0 where
  slow_start congestion_avoidance fast_recovery : State

pub record CongestionControl : Type 0 where
  pub state : State
  pub ssthresh : ℕ
  pub cwnd : ℕ
  pub dup_acks : ℕ

abbrev pub u32 : ℕ
u32 = 2 ^ 32

-- The constructor.
pub init : CongestionControl
init = record { state = slow_start; cwnd = 1; ssthresh = 64; dup_acks = 0 }

enter_slow_start : CongestionControl → CongestionControl
enter_slow_start c = record c { state = slow_start }

enter_congestion_avoidance : CongestionControl → CongestionControl
enter_congestion_avoidance c = record c { state = congestion_avoidance }

-- `cwnd_ / 2` is exact in a float; its conversion to uint32_t drops the half.
enter_fast_recovery : CongestionControl → CongestionControl
enter_fast_recovery c =
    let ssthresh = (c.cwnd / 2) % u32 in
    record c { ssthresh = ssthresh; cwnd = round_f32 ((ssthresh + 3) % u32); state = fast_recovery }

-- `ssthresh_ - 1` is computed in uint32_t, and wraps at 0.
exit_fast_recovery : CongestionControl → CongestionControl
unfolding enter_congestion_avoidance
exit_fast_recovery c =
    enter_congestion_avoidance (record c { cwnd = round_f32 ((c.ssthresh + u32 - 1) % u32) })

-- `cwnd_++` and `cwnd_ += 1`.
grow : CongestionControl → CongestionControl
grow c = record c { cwnd = round_f32 (c.cwnd + 1) }

-- The branch of a duplicate acknowledgement, behind `dupAcks_++`, by the state.
on_duplicate : State → CongestionControl → CongestionControl
unfolding grow enter_fast_recovery
on_duplicate fast_recovery c = grow c
on_duplicate _ c = if c.dup_acks == 3 then enter_fast_recovery c else c

-- The first test of the branch of a new acknowledgement.
leave_recovery : State → ℤ → CongestionControl → CongestionControl
unfolding exit_fast_recovery grow
leave_recovery fast_recovery loss c = if leb_ℤ loss (pos 0) then exit_fast_recovery c else grow c
leave_recovery _ loss c = c

double : CongestionControl → CongestionControl
double c = record c { cwnd = round_f32 (c.cwnd * 2) }

-- `cwnd_ >= ssthresh_` converts `ssthresh_` to float.
past_threshold : CongestionControl → CongestionControl
unfolding enter_congestion_avoidance
past_threshold c = if leb (round_f32 c.ssthresh) c.cwnd then enter_congestion_avoidance c else c

-- The second test, on the state that the first one left.
grow_window : State → CongestionControl → CongestionControl
unfolding double past_threshold grow
grow_window slow_start c = past_threshold (double c)
grow_window congestion_avoidance c = grow c
grow_window fast_recovery c = c

on_new : ℤ → CongestionControl → CongestionControl
unfolding leave_recovery grow_window
on_new loss c =
    let d = leave_recovery c.state loss (record c { dup_acks = 0 }) in grow_window d.state d

unfoldable pub on_packet_acked : CongestionControl → Bool → ℤ → CongestionControl
unfolding on_duplicate on_new
on_packet_acked c true loss = on_duplicate c.state (record c { dup_acks = (c.dup_acks + 1) % u32 })
on_packet_acked c false loss = on_new loss c

unfoldable pub on_timeout : CongestionControl → CongestionControl
unfolding enter_slow_start
on_timeout c = enter_slow_start (record c { ssthresh = (c.cwnd / 2) % u32; cwnd = 1 })

-- `getCwnd` returns the float as a uint32_t.
pub get_cwnd : CongestionControl → ℕ
get_cwnd c = c.cwnd % u32

pub get_state : CongestionControl → State
get_state c = c.state
