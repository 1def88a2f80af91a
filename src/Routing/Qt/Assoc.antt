-- ===== src/Routing/Qt/Assoc.antt =====
-- Association lists meet the laws of the interface.
use computer_network_course.Prelude.{
  ℕ, ◌≡◌, refl, arith, List, [], ◌∷◌, Option, none, some, ◌==◌, if◌then◌else◌,
}
use computer_network_course.Routing.Qt.{elem, is_some, QHash}

unfoldable pub find : List (ℕ × ℕ) → ℕ → Option ℕ
find [] k = none
find ((j, v) ∷ t) k = if j == k then some v else find t k

unfoldable pub keys : List (ℕ × ℕ) → List ℕ
keys [] = []
keys ((j, v) ∷ t) = j ∷ keys t

pub find-insert :
    (t : List (ℕ × ℕ)) (k v j : ℕ) → find ((k, v) ∷ t) j ≡ (if k == j then some v else find t j)
unfolding find
find-insert t k v j = refl

pub elem-keys : (t : List (ℕ × ℕ)) (k : ℕ) → elem k (keys t) ≡ is_some (find t k)
unfolding find keys
elem-keys [] k = refl
elem-keys ((j, v) ∷ t) k = ground (arith, elem-keys t k)

pub find-empty : (k : ℕ) → find [] k ≡ none
unfolding find
find-empty k = refl

abbrev pub assoc : QHash
assoc = record {
  Table = List (ℕ × ℕ);
  empty = [];
  find = find;
  insert = λ t k v. (k, v) ∷ t;
  keys = keys;
  find-empty = find-empty;
  find-insert = find-insert;
  elem-keys = elem-keys;
}
