-- ===== src/GoBackN/HostA/Segments.antt =====
-- A4/Part3/HostA.cpp: the packets of a transfer hold the file, and fit their arrays.
use native.Mathlib.Decide.{dec_lt}
use mathlib.Core.List.{flatten}
use computer_network_course.Prelude.{
  ℕ, zero, suc, ◌+◌, ◌-◌, ◌*◌, ◌^◌, ◌≤◌, ◌<◌, ◌≡◌, refl, sym, ap, ◌∙◌, arith, List, [], ◌∷◌, ◌++◌,
  length, take, drop, min, take_all, take-append-drop, drop-drop, length-drop, length-take,
}
use computer_network_course.GoBackN.Datagram.{Bytes, buffer_size}
use computer_network_course.GoBackN.HostA.{total_packets, segment, as_int}

-- Segments n, n + 1, … of a file, k of them.
pub segments : Bytes → ℕ → ℕ → List Bytes
segments file n zero = []
segments file n (suc k) = segment file n ∷ segments file (n + 1) k

take-min {ℓ} :
    {A : Type ℓ} (m : ℕ) (xs : List A) (k : ℕ) → m ≡ min k (length xs) → take m xs ≡ take k xs
take-min m xs k h = elim (dec_lt (length xs) k) [
  | yes p ↦ take_all m xs (omega arith) ∙ sym (take_all k xs (omega arith))
  | no p ↦ ap (λ j. take j xs) (omega arith)
]

-- A number below 2 ^ 32 is its 32 bits.
as_int_small : (n : ℕ) → n < 2 ^ 32 → as_int n ≡ n
as_int_small n h = omega arith

segment_lem :
    (file : Bytes) (n : ℕ)
    → length file + buffer_size ≤ 2 ^ 31
    → n * buffer_size ≤ length file
    → segment file n ≡ take buffer_size (drop (n * buffer_size) file)
unfolding segment
segment_lem file n small low =
    rw
      (
        as_int_small (n * buffer_size) (omega arith),
        as_int_small (n * buffer_size + buffer_size) (omega arith),
        as_int_small (length file) (omega arith),
      )
      (take-min _ (drop (n * buffer_size) file) buffer_size
        (omega (arith, length-drop (n * buffer_size) file)))

-- Whatever the numbers wrap to, a segment fits the array.
pub segment_short : (file : Bytes) (n : ℕ) → length (segment file n) ≤ buffer_size
unfolding segment
segment_short file n =
    let start_pos = as_int (n * buffer_size) in
    let end_pos = min (as_int (start_pos + buffer_size)) (as_int (length file)) in
    omega (arith, length-take (end_pos - start_pos) (drop start_pos file))

drop_beyond {ℓ} : {A : Type ℓ} (n : ℕ) (xs : List A) → length xs ≤ n → drop n xs ≡ []
drop_beyond zero [] h = refl
drop_beyond zero (x ∷ xs) h = absurd (omega arith)
drop_beyond (suc n) [] h = refl
drop_beyond (suc n) (x ∷ xs) h = drop_beyond n xs (omega arith)

total_covers : (file : Bytes) → length file ≤ total_packets file * buffer_size
unfolding total_packets
total_covers file = ground arith

total_above : (file : Bytes) (n : ℕ) → n < total_packets file → n * buffer_size ≤ length file
unfolding total_packets
total_above file n h = ground arith

flatten-segments :
    (file : Bytes) (k n : ℕ)
    → length file + buffer_size ≤ 2 ^ 31
    → n + k ≡ total_packets file
    → flatten (segments file n k) ≡ drop (n * buffer_size) file
unfolding segments flatten
flatten-segments file zero n small h =
    sym (drop_beyond (n * buffer_size) file (omega (arith, total_covers file)))
flatten-segments file (suc k) n small h =
    rw
      (
        segment_lem file n small (total_above file n (omega arith)),
        flatten-segments file k (n + 1) small (omega arith),
      )
      (ap (◌++◌ (take buffer_size (drop (n * buffer_size) file)))
          (ap (λ m. drop m file) (omega arith) ∙ sym (drop-drop buffer_size (n * buffer_size) file))
        ∙ take-append-drop buffer_size (drop (n * buffer_size) file))

-- Where the end of the file and an array behind it fit an int, the segments of the packets 0 up to
-- `totalPackets`, one behind the other, are the file.
pub segments_cover :
    (file : Bytes)
    → length file + buffer_size ≤ 2 ^ 31
    → flatten (segments file 0 (total_packets file)) ≡ file
segments_cover file small = flatten-segments file (total_packets file) 0 small (omega arith)
