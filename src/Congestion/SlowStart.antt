-- ===== src/Congestion/SlowStart.antt =====
-- A4/Part2/CongestionControl.cpp: runs of new acknowledgements in slow start.
use native.Mathlib.Decide.{dec_lt}
use computer_network_course.Prelude.{
  ◌∙◌, ap, mul_pow_suc, le_mul_pow, ℕ, zero, suc, ◌*◌, ◌^◌, ◌≤◌, ◌<◌, ◌≡◌, refl, arith, false,
}
use computer_network_course.Prelude.Int.{ℤ}
use computer_network_course.Congestion.Float.{round_f32_small}
use computer_network_course.Congestion.{
  CongestionControl, slow_start, congestion_avoidance, on_packet_acked,
}

-- `n` new acknowledgements in a row.
unfoldable pub acks : ℕ → ℤ → CongestionControl → CongestionControl
acks zero loss c = c
acks (suc n) loss c = acks n loss (on_packet_acked c false loss)

-- One acknowledgement in slow start doubles the window, and ends slow start at the threshold.
step_below :
    (c : CongestionControl) (loss : ℤ)
    → c.state ≡ slow_start
    → c.cwnd * 2 < c.ssthresh
    → c.ssthresh ≤ 2 ^ 23
    → on_packet_acked c false loss ≡ record c { cwnd = c.cwnd * 2; dup_acks = 0 }
unfolding on_packet_acked
step_below c loss e h b = ground (arith, round_f32_small (c.cwnd * 2), round_f32_small c.ssthresh)

step_reaching :
    (c : CongestionControl) (loss : ℤ)
    → c.state ≡ slow_start
    → c.ssthresh ≤ c.cwnd * 2
    → c.cwnd * 2 ≤ 2 ^ 24
    → c.ssthresh ≤ 2 ^ 23
    → (on_packet_acked c false loss).state ≡ congestion_avoidance
unfolding on_packet_acked
step_reaching c loss e h w b =
    ground (arith, round_f32_small (c.cwnd * 2), round_f32_small c.ssthresh)

step_avoiding :
    (c : CongestionControl) (loss : ℤ)
    → c.state ≡ congestion_avoidance
    → (on_packet_acked c false loss).state ≡ congestion_avoidance
unfolding on_packet_acked
step_avoiding c loss e = ground arith

acks_avoiding :
    (n : ℕ) (c : CongestionControl) (loss : ℤ)
    → c.state ≡ congestion_avoidance
    → (acks n loss c).state ≡ congestion_avoidance
unfolding acks
acks_avoiding zero c loss e = e
acks_avoiding (suc n) c loss e =
    acks_avoiding n (on_packet_acked c false loss) loss (step_avoiding c loss e)

-- Below the threshold, n new acknowledgements in slow start multiply the window by 2 ^ n, change no
-- other field but the counter of duplicates, which is 0 after the first.
pub acks_doubling :
    (n : ℕ) (c : CongestionControl) (loss : ℤ)
    → c.state ≡ slow_start
    → c.dup_acks ≡ 0
    → c.cwnd * 2 ^ n < c.ssthresh
    → c.ssthresh ≤ 2 ^ 23
    → acks n loss c ≡ record c { cwnd = c.cwnd * 2 ^ n }
unfolding acks
acks_doubling zero c loss e d h b = ground arith
acks_doubling (suc n) c loss e d h b =
    let below : c.cwnd * 2 * 2 ^ n < c.ssthresh = omega (arith, mul_pow_suc c.cwnd n) in
    let first : c.cwnd * 2 < c.ssthresh = omega (arith, le_mul_pow (c.cwnd * 2) n) in
    let next : CongestionControl = record c { cwnd = c.cwnd * 2; dup_acks = 0 } in
    let start : on_packet_acked c false loss ≡ next = step_below c loss e first b in
    ap (acks n loss) start
    ∙ acks_doubling n next loss e refl below b
    ∙ ground (arith, mul_pow_suc c.cwnd n)

-- With a threshold of at most 2 ^ 23, n new acknowledgements reach congestion avoidance as soon as
-- window * 2 ^ n is the threshold or more, from every window of at least 1 below the threshold.
pub acks_ends_slow_start :
    (n : ℕ) (c : CongestionControl) (loss : ℤ)
    → c.state ≡ slow_start
    → 1 ≤ c.cwnd
    → c.cwnd < c.ssthresh
    → c.ssthresh ≤ 2 ^ 23
    → c.ssthresh ≤ c.cwnd * 2 ^ n
    → (acks n loss c).state ≡ congestion_avoidance
unfolding acks
acks_ends_slow_start zero c loss e p w b h = absurd (omega arith)
acks_ends_slow_start (suc n) c loss e p w b h = elim (dec_lt (c.cwnd * 2) c.ssthresh) [
  | yes below ↦
      let next : CongestionControl = record c { cwnd = c.cwnd * 2; dup_acks = 0 } in
      let start : on_packet_acked c false loss ≡ next = step_below c loss e below b in
      ap (λ d. (acks n loss d).state) start
      ∙ acks_ends_slow_start n next loss e (omega arith) below b
          (omega (arith, mul_pow_suc c.cwnd n))
  | no past ↦
      acks_avoiding n (on_packet_acked c false loss) loss
        (step_reaching c loss e (omega arith) (omega arith) b)
]
