-- ===== src/Prelude/Decimal.antt =====
-- The decimal digits of a number, as character codes.
use computer_network_course.Prelude.{
  ℕ, zero, suc, ◌+◌, ◌-◌, ◌*◌, ◌/◌, ◌%◌, ◌≤◌, ◌<◌, ◌≡◌, ◌≢◌, refl, arith, List, [], ◌∷◌, ◌++◌, All,
  All-append, Lacks, ltb, if◌then◌else◌, ◌⊎◌,
}

-- The decimal digits of a number; the fuel counts them.
unfoldable pub digits : ℕ → ℕ → List ℕ
digits zero n = []
digits (suc fuel) n =
    let rest = digits fuel (n / 10) in
    if ltb n 10 then (b'0' + n) ∷ [] else rest ++ (b'0' + n % 10) ∷ []

abbrev pub IsDigit : ℕ → Type 0
IsDigit c = (b'0' ≤ c) × (c ≤ b'9')

pub digits-IsDigit : (f n : ℕ) → All IsDigit (digits f n)
unfolding digits
digits-IsDigit zero n = tt
digits-IsDigit (suc f) n = ground (
  arith,
  All-append IsDigit (digits f (n / 10)) ((b'0' + n % 10) ∷ []) (digits-IsDigit f (n / 10)),
)

-- The number that digits spell behind `acc`.
unfoldable pub value : ℕ → List ℕ → ℕ
value acc [] = acc
value acc (c ∷ s) = value (acc * 10 + (c - b'0')) s

value-append : (xs : List ℕ) (acc c : ℕ) → value acc (xs ++ c ∷ []) ≡ value acc xs * 10 + (c - b'0')
unfolding value
value-append [] acc c = refl
value-append (x ∷ xs) acc c = value-append xs (acc * 10 + (x - b'0')) c

pub value-digits : (f n : ℕ) → n < f → value 0 (digits f n) ≡ n
unfolding digits value
value-digits zero n h = absurd (omega arith)
value-digits (suc f) n h =
    ground (arith, value-append (digits f (n / 10)) 0 (b'0' + n % 10), value-digits f (n / 10))

pub digits-ne-nil : (f n : ℕ) → digits (suc f) n ≢ []
unfolding digits
digits-ne-nil f n = ground (arith, append-ne-nil (digits f (n / 10)) (b'0' + n % 10))
  where
    append-ne-nil : (xs : List ℕ) (c : ℕ) → xs ++ c ∷ [] ≢ []
    append-ne-nil [] c e = cc
    append-ne-nil (x ∷ xs) c e = cc

pub digit-Lacks : (b : ℕ) (xs : List ℕ) → (b < b'0') ⊎ (b'9' < b) → All IsDigit xs → Lacks b xs
digit-Lacks b [] h d = tt
digit-Lacks b (x ∷ xs) h (dx, d) = (ground arith, digit-Lacks b xs h d)
