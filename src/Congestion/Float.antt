-- ===== src/Congestion/Float.antt =====
-- Binary32 on the non-negative integers: what an integer is after it is stored in a float.
use native.Mathlib.Decide.{dec_lt}
use computer_network_course.Prelude.{
  ℕ, zero, suc, ◌+◌, ◌-◌, ◌*◌, ◌/◌, ◌%◌, ◌^◌, ◌≤◌, ◌<◌, ◌≡◌, refl, arith, ltb, ◌==◌, if◌then◌else◌,
}

-- The gap between the floats next to `n`: a power of two that leaves 24 bits. The fuel is the number
-- of bits that an integer in a float's range has beyond those.
gap : ℕ → ℕ → ℕ
gap zero n = 1
gap (suc fuel) n = let wider = 2 * gap fuel (n / 2) in if ltb n (2 ^ 24) then 1 else wider

-- To the nearest multiple of the gap, and in a tie to the even one.
nearest : ℕ → ℕ → ℕ → ℕ
nearest u q r =
    if ltb (2 * r) u
    then q * u
    else if ltb u (2 * r)
    then (q + 1) * u
    else if q % 2 == 0
    then q * u
    else (q + 1) * u

unfoldable pub round_f32 : ℕ → ℕ
unfolding gap nearest
round_f32 n = let u = gap 104 n in nearest u (n / u) (n % u)

gap_small : (f n : ℕ) → n < 2 ^ 24 → gap (suc f) n ≡ 1
unfolding gap
gap_small f n h = ground arith

nearest_exact : (n : ℕ) → nearest 1 (n / 1) (n % 1) ≡ n
unfolding nearest
nearest_exact n = ground arith

round_below : (n : ℕ) → n < 2 ^ 24 → round_f32 n ≡ n
unfolding round_f32
round_below n h = rw (gap_small 103 n h, nearest_exact n)

round_top : round_f32 (2 ^ 24) ≡ 2 ^ 24
unfolding round_f32
round_top = refl

-- Up to 2 ^ 24 every integer is a float.
pub round_f32_small : (n : ℕ) → n ≤ 2 ^ 24 → round_f32 n ≡ n
round_f32_small n h = elim (dec_lt n (2 ^ 24)) [
  | yes p ↦ round_below n p
  | no p ↦ let top : n ≡ 2 ^ 24 = omega arith in rw (top, round_top)
]

-- One above 2 ^ 24 is a tie, which falls back.
pub round_f32_tie : round_f32 (2 ^ 24 + 1) ≡ 2 ^ 24
unfolding round_f32
round_f32_tie = refl

-- The largest uint32_t becomes 2 ^ 32.
pub round_f32_wrapped : round_f32 (2 ^ 32 - 1) ≡ 2 ^ 32
unfolding round_f32
round_f32_wrapped = refl

pub round_f32_huge : round_f32 (2 ^ 32 + 1) ≡ 2 ^ 32
unfolding round_f32
round_f32_huge = refl
