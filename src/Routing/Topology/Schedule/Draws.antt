-- ===== src/Routing/Topology/Schedule/Draws.antt =====
-- A3/main.cpp: the random numbers, their counts, and the calls for them.
use native.Mathlib.Decide.{dec_lt}
use mathlib.Core.Option.{bind}
use computer_network_course.Prelude.{
  ℕ, zero, suc, ◌+◌, ◌-◌, ◌≤◌, ◌<◌, ◌≡◌, refl, ap, ◌∙◌, arith, List, [], ◌∷◌, some, leb, ltb, ◌||◌,
  ◌&&◌, if_true, if_false, if◌then◌else◌, true, false, length, length-append, All, All-append,
}
use computer_network_course.Routing.Topology.Schedule.{
  Slot, start_pcs, generate_poisson_numbers, increment, count_all, zeros, Draw, select_pc_to_send,
  send_times, send_from_pc,
}

abbrev pub InRange : ℕ → ℕ → Type 0
InRange top num = (1 ≤ num) × (num ≤ top)

-- How many of the draws `generatePoissonNumbers` takes.
abbrev pub accepted : ℕ → List ℕ → ℕ
accepted top [] = 0
accepted top (num ∷ draws) =
    if ltb num 1 || ltb top num then accepted top draws else accepted top draws + 1

-- So many numbers come out, all in range.
abbrev pub Generates : ℕ → ℕ → List ℕ → Type 0
Generates top n draws =
    (numbers : List ℕ) × (generate_poisson_numbers top n draws ≡ some numbers)
    × (length numbers ≡ n)
    × All (InRange top) numbers

skip-Generates :
    (top n num : ℕ) (draws : List ℕ)
    → (ltb num 1 || ltb top num) ≡ true
    → Generates top (suc n) draws
    → Generates top (suc n) (num ∷ draws)
unfolding generate_poisson_numbers
skip-Generates top n num draws e (numbers, g, l, r) =
    (numbers, if_true _ _ (ltb num 1 || ltb top num) e ∙ g, l, r)

keep-Generates :
    (top n num : ℕ) (draws : List ℕ)
    → (ltb num 1 || ltb top num) ≡ false
    → InRange top num
    → Generates top n draws
    → Generates top (suc n) (num ∷ draws)
unfolding generate_poisson_numbers bind
keep-Generates top n num draws e range (numbers, g, l, r) = (
  num ∷ numbers,
  if_false _ _ (ltb num 1 || ltb top num) e ∙ ap (λ o. bind o (λ ns. some (num ∷ ns))) g,
  ap suc l,
  (range, r),
)

pub generate_lem : (top n : ℕ) (draws : List ℕ) → n ≤ accepted top draws → Generates top n draws
unfolding generate_poisson_numbers
generate_lem top zero draws h = ([], refl, refl, tt)
generate_lem top (suc n) [] h = absurd (omega arith)
generate_lem top (suc n) (num ∷ draws) h = elim (dec_lt num 1) [
  | yes p ↦
      skip-Generates top n num draws (ground arith)
        (generate_lem top (suc n) draws (ground (arith, h)))
  | no p ↦ elim (dec_lt top num) [
    | yes r ↦
        skip-Generates top n num draws (ground arith)
          (generate_lem top (suc n) draws (ground (arith, h)))
    | no r ↦
        keep-Generates top n num draws (ground arith) (omega arith, omega arith)
          (generate_lem top n draws (ground (arith, h)))
  ]
]

abbrev pub total : List ℕ → ℕ
total [] = 0
total (n ∷ counts) = n + total counts

increment_lem :
    (i : ℕ) (counts : List ℕ)
    → i < length counts
    → (total (increment i counts) ≡ total counts + 1)
      × (length (increment i counts) ≡ length counts)
unfolding increment
increment_lem i [] h = absurd (omega arith)
increment_lem zero (n ∷ counts) h = (omega arith, refl)
increment_lem (suc i) (n ∷ counts) h =
    let (more, same) = increment_lem i counts (omega arith) in (omega (arith, more), ap suc same)

pub total-count_all :
    (top : ℕ) (input counts : List ℕ)
    → length counts ≡ top
    → All (InRange top) input
    → total (count_all top input counts) ≡ total counts + length input
unfolding count_all
total-count_all top [] counts l h = omega arith
total-count_all top (num ∷ input) counts l ((low, high), h) =
    let (more, same) = increment_lem (num - 1) counts (omega arith) in
    ap (λ c. total (count_all top input c)) (if_true _ _ (leb 1 num && leb num top) (ground arith))
    ∙ total-count_all top input (increment (num - 1) counts) (same ∙ l) h
    ∙ omega (arith, more)

pub zeros_lem : (n : ℕ) → (total (zeros n) ≡ 0) × (length (zeros n) ≡ n)
zeros_lem zero = (refl, refl)
zeros_lem (suc n) = let (t, l) = zeros_lem n in (omega (arith, t), ap suc l)

length-send_times : (draw : ℕ → Draw) (k n : ℕ) → length (send_times draw k n) ≡ n
unfolding send_times
length-send_times draw k zero = refl
length-send_times draw k (suc n) = ap suc (length-send_times draw (k + 1) n)

pub length-send_from_pc :
    (draw : ℕ → Draw) (k : ℕ) (counts : List ℕ) → length (send_from_pc draw k counts) ≡ total counts
unfolding send_from_pc
length-send_from_pc draw k [] = refl
length-send_from_pc draw k (cnt ∷ counts) = omega (
  arith,
  length-append (send_times draw k cnt) (send_from_pc draw (k + cnt) counts),
  length-send_times draw k cnt,
  length-send_from_pc draw (k + cnt) counts,
)

pub send_from_pc-All :
    (P : ℕ × Slot → Type 0) (draw : ℕ → Draw) (k : ℕ) (counts : List ℕ)
    → ((k : ℕ) → P ((select_pc_to_send (draw k)).0, start_pcs ((select_pc_to_send (draw k)).1 + 1)))
    → All P (send_from_pc draw k counts)
unfolding send_from_pc send_times
send_from_pc-All P draw k [] h = tt
send_from_pc-All P draw k (cnt ∷ counts) h =
    All-append P (send_times draw k cnt) (send_from_pc draw (k + cnt) counts) (times k cnt)
      (send_from_pc-All P draw (k + cnt) counts h)
  where
    times : (k n : ℕ) → All P (send_times draw k n)
    times k zero = tt
    times k (suc n) = (h k, times (k + 1) n)
