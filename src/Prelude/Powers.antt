-- ===== src/Prelude/Powers.antt =====
-- Products with powers of two.
use native.Mathlib.Nat.{one-le-pow, pow-succ', mul_assoc}
use Prim.Native.Nat.{ℕ, suc, ◌*◌, ◌^◌, ◌≤◌}
use mathlib.Core.Path.{◌≡◌, sym, ◌∙◌, ap}
use native.Mathlib.Omega.{arith}

pub mul_pow_suc : (a n : ℕ) → a * 2 ^ suc n ≡ a * 2 * 2 ^ n
mul_pow_suc a n = ap (◌*◌ a) (pow-succ' 2 n) ∙ sym (mul_assoc a 2 (2 ^ n))

le_mul : (a b : ℕ) → 1 ≤ b → a ≤ a * b
le_mul a b h = grind arith

pub le_mul_pow : (a n : ℕ) → a ≤ a * 2 ^ n
le_mul_pow a n = le_mul a (2 ^ n) (one-le-pow n 2 (omega arith))
