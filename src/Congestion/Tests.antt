-- ===== src/Congestion/Tests.antt =====
-- Runs of A4/Part2/CongestionControl.cpp, and its theorems at concrete states.
use computer_network_course.Prelude.{◌⊎◌, ◌^◌, ◌≡◌, inl, inr, refl, arith, true, false}
use computer_network_course.Prelude.Int.{pos}
use computer_network_course.Congestion.{
  CongestionControl, slow_start, congestion_avoidance, fast_recovery, init, on_packet_acked,
  on_timeout, get_cwnd, get_state,
}
use computer_network_course.Congestion.Float.{round_f32}
use computer_network_course.Congestion.Bounds.{IsValid, Wraps, on_packet_acked-IsValid}
use computer_network_course.Congestion.SlowStart.{acks}
use computer_network_course.Congestion.Recovery.{recovery_wraps}

abbrev recovering : CongestionControl
recovering = record { state = fast_recovery; ssthresh = 10; cwnd = 13; dup_acks = 3 }

abbrev avoiding : CongestionControl
avoiding = record { state = congestion_avoidance; ssthresh = 10; cwnd = 20; dup_acks = 0 }

-- A state after a timeout, two duplicates later.
abbrev starved : CongestionControl
starved = record { state = slow_start; ssthresh = 0; cwnd = 1; dup_acks = 2 }

first_acks :
    (get_cwnd (acks 7 (pos 0) init) ≡ 65) × (get_state (acks 7 (pos 0) init) ≡ congestion_avoidance)
unfolding acks init on_packet_acked get_cwnd get_state round_f32
first_acks = (refl, refl)

init-IsValid : IsValid init
unfolding init
init-IsValid = record {
  positive = omega arith;
  bounded = omega arith;
  threshold = omega arith;
  slow = inr (inl (omega arith));
}

on_packet_acked-IsValid_example :
    (Wraps recovering false (pos 0) ⊎ IsValid (on_packet_acked recovering false (pos 0)))
    × IsValid (on_timeout recovering)
on_packet_acked-IsValid_example = on_packet_acked-IsValid recovering false (pos 0) (record {
  positive = omega arith;
  bounded = omega arith;
  threshold = omega arith;
  slow = inl (cc);
})

recovery_wraps_example :
    on_packet_acked (on_packet_acked starved true (pos 3)) false (pos 0)
    ≡ record { state = congestion_avoidance; ssthresh = 0; cwnd = 2 ^ 32; dup_acks = 0 }
recovery_wraps_example =
    recovery_wraps starved (pos 3) (pos 0) (cc) refl (omega arith) (omega arith)
