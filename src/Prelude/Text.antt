-- ===== src/Prelude/Text.antt =====
-- Texts as lists of character codes.
use Prim.Native.Char.{code}
use Prim.Native.String.{String}
use computer_network_course.Prelude.{
  ℕ, Bool, true, false, ◌&&◌, ◌↔◌, ◌≡◌, arith, List, [], ◌∷◌, ◌==◌, if◌then◌else◌, ◌++◌, refl,
  Lacks,
}

-- The codes of a literal.
abbrev pub codes : String → List ℕ
codes String.[] = []
codes (String.◌∷◌ c s) = code c ∷ codes s

unfoldable pub same_text : List ℕ → List ℕ → Bool
same_text [] [] = true
same_text [] (b ∷ t) = false
same_text (a ∷ s) [] = false
same_text (a ∷ s) (b ∷ t) = a == b && same_text s t

pub same_text_iff : (s t : List ℕ) → (same_text s t ≡ true) ↔ (s ≡ t)
unfolding same_text
same_text_iff [] [] = ground arith
same_text_iff [] (b ∷ t) = ground arith
same_text_iff (a ∷ s) [] = ground arith
same_text_iff (a ∷ s) (b ∷ t) = ground (arith, same_text_iff s t)

-- The C string at the start of an array.
unfoldable pub c_str : List ℕ → List ℕ
c_str [] = []
c_str (c ∷ s) = let rest = c ∷ c_str s in if c == 0 then [] else rest

-- Without a zero byte the C string is the whole array, and with one it stops there.
pub c_str-Lacks : (s : List ℕ) → Lacks 0 s → c_str s ≡ s
unfolding c_str
c_str-Lacks [] h = refl
c_str-Lacks (c ∷ s) (hc, h) = ground (arith, c_str-Lacks s h)

pub c_str_ends : (s rest : List ℕ) → Lacks 0 s → c_str (s ++ 0 ∷ rest) ≡ s
unfolding c_str
c_str_ends [] rest h = refl
c_str_ends (c ∷ s) rest (hc, h) = ground (arith, c_str_ends s rest h)
