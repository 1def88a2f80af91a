-- ===== src/Routing/Text/Plain.antt =====
-- Lists of codes meet the laws of the interface.
use computer_network_course.Prelude.{
  ℕ, suc, ◌≡◌, refl, inl, arith, List, [], ◌∷◌, ◌++◌, Lacks, ◌==◌, if◌then◌else◌,
}
use computer_network_course.Prelude.Decimal.{
  digits, value, value-digits, digits-IsDigit, digits-ne-nil, digit-Lacks,
}
use computer_network_course.Routing.Text.{QtText}
use computer_network_course.Routing.Text.Words.{
  cons_first, scan, scan_last, scan_cons, trimmed, trimmed_space, trimmed_ends,
}

unfoldable pub split : List ℕ → ℕ → List (List ℕ)
unfolding cons_first
split [] c = [] ∷ []
split (x ∷ s) c = let rest = split s c in if x == c then [] ∷ rest else cons_first x rest

unfoldable pub join : List (List ℕ) → ℕ → List ℕ
join [] c = []
join (p ∷ []) c = p
join (p ∷ r ∷ rest) c = p ++ c ∷ join (r ∷ rest) c

unfoldable pub join_text : List (List ℕ) → List ℕ → List ℕ
join_text [] sep = []
join_text (p ∷ []) sep = p
join_text (p ∷ r ∷ rest) sep = p ++ (sep ++ join_text (r ∷ rest) sep)

pub split_last : (p : List ℕ) (c : ℕ) → Lacks c p → split p c ≡ p ∷ []
unfolding split
split_last [] c h = refl
split_last (x ∷ p) c (hx, h) = ground (arith, split_last p c h)

pub split_cons : (p s : List ℕ) (c : ℕ) → Lacks c p → split (p ++ c ∷ s) c ≡ p ∷ split s c
unfolding split
split_cons [] s c h = ground arith
split_cons (x ∷ p) s c (hx, h) = ground (arith, split_cons p s c h)

abbrev pub plain : QtText
unfolding join join_text
plain = record {
  split = split;
  join = join;
  number = λ n. digits (suc n) n;
  to_int = value 0;
  join_nil = λ c. refl;
  join_one = λ p c. refl;
  join_cons = λ p r rest c. refl;
  split_last = split_last;
  split_cons = split_cons;
  to_int-number = λ n. value-digits (suc n) n (omega arith);
  number-ne-nil = λ n. digits-ne-nil n n;
  number-Lacks =
      λ n c h. digit-Lacks c (digits (suc n) n) (inl (omega arith)) (digits-IsDigit (suc n) n);
  split_text = λ s sep. scan 0 sep s;
  join_text = join_text;
  join_text_nil = λ sep. refl;
  join_text_one = λ p sep. refl;
  join_text_cons = λ p r sep rest. refl;
  split_text_last = scan_last;
  split_text_cons = scan_cons;
  trimmed = trimmed;
  trimmed_space = trimmed_space;
  trimmed_ends = λ a b s. trimmed_ends a b s;
}
