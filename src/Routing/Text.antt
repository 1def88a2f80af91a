-- ===== src/Routing/Text.antt =====
-- What A3 relies on of QString and QStringList: `split` and `join` by one character and by a text,
-- `number`, `toInt` and `trimmed`, as the laws of an interface. A text is a list of UTF-16 codes;
-- numbers are not negative. A separator of several characters is split at by one that it has once.
pub mod Words
pub mod Plain
use computer_network_course.Prelude.{ℕ, ◌<◌, ◌≡◌, ◌≢◌, List, [], ◌∷◌, ◌++◌, All, Lacks}

pub record QtText : Type 0 where
  pub split : List ℕ → ℕ → List (List ℕ)
  pub join : List (List ℕ) → ℕ → List ℕ
  pub number : ℕ → List ℕ
  pub to_int : List ℕ → ℕ
  pub join_nil : (c : ℕ) → join [] c ≡ []
  pub join_one : (p : List ℕ) (c : ℕ) → join (p ∷ []) c ≡ p
  pub join_cons :
      (p r : List ℕ) (rest : List (List ℕ)) (c : ℕ)
      → join (p ∷ r ∷ rest) c ≡ p ++ c ∷ join (r ∷ rest) c
  pub split_last : (p : List ℕ) (c : ℕ) → Lacks c p → split p c ≡ p ∷ []
  pub split_cons : (p s : List ℕ) (c : ℕ) → Lacks c p → split (p ++ c ∷ s) c ≡ p ∷ split s c
  pub to_int-number : (n : ℕ) → to_int (number n) ≡ n
  pub number-ne-nil : (n : ℕ) → number n ≢ []
  pub number-Lacks : (n c : ℕ) → c < b'0' → Lacks c (number n)
  pub split_text : List ℕ → List ℕ → List (List ℕ)
  pub join_text : List (List ℕ) → List ℕ → List ℕ
  pub join_text_nil : (sep : List ℕ) → join_text [] sep ≡ []
  pub join_text_one : (p sep : List ℕ) → join_text (p ∷ []) sep ≡ p
  pub join_text_cons :
      (p r sep : List ℕ) (rest : List (List ℕ))
      → join_text (p ∷ r ∷ rest) sep ≡ p ++ (sep ++ join_text (r ∷ rest) sep)
  pub split_text_last :
      (p pre post : List ℕ) (c : ℕ) → Lacks c p → split_text p (pre ++ c ∷ post) ≡ p ∷ []
  pub split_text_cons :
      (p s pre post : List ℕ) (c : ℕ)
      → Lacks c pre
      → Lacks c p
      → split_text (p ++ ((pre ++ c ∷ post) ++ s)) (pre ++ c ∷ post)
        ≡ p ∷ split_text s (pre ++ c ∷ post)
  pub trimmed : List ℕ → List ℕ
  pub trimmed_space : (s : List ℕ) → trimmed (b' ' ∷ s) ≡ trimmed s
  pub trimmed_ends :
      (a b : ℕ) (s : List ℕ) → b' ' < a → b' ' < b → trimmed (a ∷ (s ++ b ∷ [])) ≡ a ∷ (s ++ b ∷ [])
