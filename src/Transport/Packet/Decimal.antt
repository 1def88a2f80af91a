-- ===== src/Transport/Packet/Decimal.antt =====
-- Printing an int and reading it back by `stoi`.
use computer_network_course.Prelude.{
  ℕ, suc, ◌+◌, ◌-◌, ◌*◌, ◌^◌, ◌<◌, ◌≡◌, ◌≢◌, refl, ap, ◌∙◌, arith, true, false, [], ◌∷◌, some, All,
  Lacks, inl,
}
use computer_network_course.Prelude.Int.{ℤ, pos, negsuc}
use computer_network_course.Prelude.Decimal.{
  digits, IsDigit, digits-IsDigit, value, value-digits, digits-ne-nil, digit-Lacks,
}
use computer_network_course.Transport.Packet.{
  Bytes, show_int, stoi, scan, magnitude, signed, skip_space, in_range,
}

-- The ints of 32 bits.
abbrev pub IsInt32 : ℤ → Type 0
IsInt32 (pos n) = n < 2 ^ 31
IsInt32 (negsuc n) = n < 2 ^ 31

scan-value : (xs : Bytes) (acc : ℕ) → All IsDigit xs → scan acc xs ≡ value acc xs
unfolding scan value
scan-value [] acc h = refl
scan-value (x ∷ xs) acc (hx, h) = ground (arith, scan-value xs (acc * 10 + (x - b'0')) h)

magnitude-value : (xs : Bytes) → xs ≢ [] → All IsDigit xs → magnitude xs ≡ some (value 0 xs)
unfolding magnitude
magnitude-value [] h d = absurd (h refl)
magnitude-value (c ∷ s) h (hc, hs) = ground (arith, scan-value (c ∷ s) 0 (hc, hs))

signed-digits :
    (xs : Bytes) → xs ≢ [] → All IsDigit xs → signed (skip_space xs) ≡ in_range false (magnitude xs)
unfolding signed skip_space
signed-digits [] h d = absurd (h refl)
signed-digits (c ∷ s) h (hc, hs) = ground arith

magnitude-digits : (n : ℕ) → magnitude (digits (suc n) n) ≡ some n
magnitude-digits n =
    magnitude-value (digits (suc n) n) (digits-ne-nil n n) (digits-IsDigit (suc n) n)
    ∙ ap some (value-digits (suc n) n (omega arith))

magnitude-digits-suc : (n : ℕ) → magnitude (digits (suc (suc n)) (suc n)) ≡ some (suc n)
magnitude-digits-suc n = magnitude-digits (suc n)

-- `stoi` reads back what `<<` printed.
pub stoi-show_int : (n : ℤ) → IsInt32 n → stoi (show_int n) ≡ some n
unfolding stoi show_int in_range
stoi-show_int (pos n) h =
    signed-digits (digits (suc n) n) (digits-ne-nil n n) (digits-IsDigit (suc n) n)
    ∙ ap (in_range false) (magnitude-digits n)
    ∙ ground arith
stoi-show_int (negsuc n) h =
    unfold signed skip_space in (ap (in_range true) (magnitude-digits-suc n) ∙ ground arith)

-- A printed int holds no byte but digits and a minus sign.
pub show_int-Lacks : (n : ℤ) (b : ℕ) → b < b'-' → Lacks b (show_int n)
unfolding show_int
show_int-Lacks (pos n) b h =
    digit-Lacks b (digits (suc n) n) (inl (omega arith)) (digits-IsDigit (suc n) n)
show_int-Lacks (negsuc n) b h = (
  omega arith,
  digit-Lacks b (digits (suc (suc n)) (suc n)) (inl (omega arith))
      (digits-IsDigit (suc (suc n)) (suc n)),
)
