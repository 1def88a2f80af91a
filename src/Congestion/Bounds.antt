-- ===== src/Congestion/Bounds.antt =====
-- A4/Part2/CongestionControl.cpp: the range of the window and of the threshold, and the states.
use native.Mathlib.Decide.{dec_lt}
use computer_network_course.Prelude.{
  ℕ, ◌+◌, ◌-◌, ◌%◌, ◌*◌, ◌/◌, ◌^◌, ◌≤◌, ◌<◌, ◌≡◌, ◌⊎◌, inr, ◌≢◌, Bool, true, false, arith,
}
use computer_network_course.Prelude.Int.{ℤ, pos, ◌≤ℤ◌}
use computer_network_course.Congestion.Float.{round_f32, round_f32_small, round_f32_tie}
use computer_network_course.Congestion.{
  CongestionControl, slow_start, fast_recovery, u32, on_packet_acked, on_timeout,
}

-- What holds of the state between two calls.
pub record IsValid (c : CongestionControl) : Type 0 where
  pub positive : 1 ≤ c.cwnd
  pub bounded : c.cwnd ≤ 2 ^ 24
  pub threshold : c.ssthresh ≤ 2 ^ 23
  pub slow : (c.state ≢ slow_start) ⊎ ((c.cwnd ≤ 1) ⊎ (c.cwnd < c.ssthresh))

-- The window grows by one, and stops at 2 ^ 24.
pub round_f32_next : (n : ℕ) → n ≤ 2 ^ 24 → (n ≤ round_f32 (n + 1)) × (round_f32 (n + 1) ≤ 2 ^ 24)
round_f32_next n h = elim (dec_lt n (2 ^ 24)) [
  | yes p ↦ rw (round_f32_small (n + 1) (omega arith)) (omega arith, omega arith)
  | no p ↦ let top : n ≡ 2 ^ 24 = omega arith in rw (top, round_f32_tie) (omega arith, omega arith)
]

duplicate-IsValid :
    (c : CongestionControl) (loss : ℤ) → IsValid c → IsValid (on_packet_acked c true loss)
unfolding on_packet_acked
duplicate-IsValid c loss v = ground (arith, round_f32_small (c.cwnd / 2 + 3), round_f32_next c.cwnd)

-- What `exit_fast_recovery` stores, where the subtraction does not wrap.
pub exit_window : (t : ℕ) → 1 ≤ t → t ≤ 2 ^ 23 → round_f32 ((t + u32 - 1) % u32) ≡ t - 1
exit_window t lo hi =
    let e : (t + u32 - 1) % u32 ≡ t - 1 = omega arith in
    rw e (round_f32_small (t - 1) (omega arith))

-- A new acknowledgement with no loss outstanding, in fast recovery with a threshold of 0.
abbrev pub Wraps : CongestionControl → Bool → ℤ → Type 0
Wraps c dup loss = (dup ≡ false) × (c.state ≡ fast_recovery) × (c.ssthresh ≡ 0) × (loss ≤ℤ pos 0)

new-IsValid :
    (c : CongestionControl) (loss : ℤ)
    → IsValid c
    → Wraps c false loss ⊎ IsValid (on_packet_acked c false loss)
unfolding on_packet_acked
new-IsValid c loss v = ground (
  arith,
  round_f32_small (c.cwnd * 2),
  round_f32_small c.ssthresh,
  exit_window c.ssthresh,
  round_f32_next c.cwnd,
  round_f32_next (c.ssthresh - 1),
)

-- Every call but one keeps 1 ≤ cwnd ≤ 2 ^ 24, ssthresh ≤ 2 ^ 23, and in slow start a window that is
-- 1 or below the threshold. The exception is a new acknowledgement with no loss outstanding, in fast
-- recovery with a threshold of 0.
pub on_packet_acked-IsValid :
    (c : CongestionControl) (dup : Bool) (loss : ℤ)
    → IsValid c
    → (Wraps c dup loss ⊎ IsValid (on_packet_acked c dup loss)) × IsValid (on_timeout c)
unfolding on_timeout
on_packet_acked-IsValid c true loss v = (inr (duplicate-IsValid c loss v), ground arith)
on_packet_acked-IsValid c false loss v = (new-IsValid c loss v, ground arith)
