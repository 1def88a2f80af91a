-- ===== src/Routing/Qt.antt =====
-- What A3 relies on of QHash<int, int>: the documented behaviour of its operations, as the laws of an
-- interface. The order of the keys is any. Node ids, ports and costs are ints that are never negative.
pub mod Assoc
use computer_network_course.Prelude.{
  ℕ, Bool, true, false, ◌||◌, ◌≡◌, List, [], ◌∷◌, Option, none, some, ◌==◌, if◌then◌else◌,
}

abbrev pub elem : ℕ → List ℕ → Bool
elem k [] = false
elem k (x ∷ xs) = x == k || elem k xs

abbrev pub is_some {ℓ} : {A : Type ℓ} → Option A → Bool
is_some none = false
is_some (some a) = true

-- `table[key]` as a value: 0 for a key that the table lacks.
abbrev pub value_or_zero : Option ℕ → ℕ
value_or_zero none = 0
value_or_zero (some v) = v

-- `find` is `contains` and `value` in one; `insert` is the assignment to `table[key]` too.
pub record QHash : Type 1 where
  pub Table : Type 0
  pub empty : Table
  pub find : Table → ℕ → Option ℕ
  pub insert : Table → ℕ → ℕ → Table
  pub keys : Table → List ℕ
  pub find-empty : (k : ℕ) → find empty k ≡ none
  pub find-insert :
      (t : Table) (k v j : ℕ) → find (insert t k v) j ≡ (if k == j then some v else find t j)
  pub elem-keys : (t : Table) (k : ℕ) → elem k (keys t) ≡ is_some (find t k)
