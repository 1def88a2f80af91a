-- ===== src/Routing/Records.antt =====
-- A3/rip.cpp and lsp.cpp: the texts of a cost table and of a link-state record.
pub mod RoundTrip
use computer_network_course.Prelude.{ℕ, List, [], ◌∷◌, ◌++◌, Option, none, some, map}
use computer_network_course.Prelude.Text.{codes}
use computer_network_course.Routing.Qt.{QHash, value_or_zero}
use computer_network_course.Routing.Text.{QtText}

-- The separators.
abbrev pub space : List ℕ
space = codes " "

abbrev pub comma_space : List ℕ
comma_space = codes ", "

abbrev pub dollar : List ℕ
dollar = codes " $ "

module _ (q : QHash) where
  pub record Lsp : Type 0 where
    pub table : q.Table
    pub visited_node_ids : List ℕ

module _ (q : QHash) (t : QtText) where
  open q use {Table, empty, find, insert, keys}
  open t use {number, to_int, split_text, join_text}

  unfoldable pub pair_text : Table → ℕ → List ℕ
  pair_text table key = number key ++ (space ++ number (value_or_zero (find table key)))

  -- The iterators of a QHash visit its keys in the order of `keys`.
  unfoldable pub pairs_text : Table → List ℕ
  unfolding pair_text
  pairs_text table = join_text (map (pair_text table) (keys table)) comma_space

  -- A part that is not two words is passed over.
  unfoldable pub add_pair : Table → List (List ℕ) → Table
  add_pair table (key ∷ value ∷ []) = insert table (to_int key) (to_int value)
  add_pair table _ = table

  unfoldable pub add_pairs : Table → List (List ℕ) → Table
  unfolding add_pair
  add_pairs table [] = table
  add_pairs table (pair ∷ pairs) = add_pairs (add_pair table (split_text pair space)) pairs

  unfoldable pub rip_incode : Table → List ℕ
  rip_incode table = pairs_text table

  unfoldable pub rip_decode : List ℕ → Table
  rip_decode line = add_pairs empty (split_text line comma_space)

  unfoldable pub lsp_incode : Lsp q → List ℕ
  lsp_incode p = pairs_text p.table ++ (dollar ++ join_text (map number p.visited_node_ids) space)

  -- `none` is `sections[1]` of a text with no separator, at which the list asserts.
  unfoldable pub lsp_sections : List (List ℕ) → Option (Lsp q)
  lsp_sections (pairs ∷ visited ∷ rest) = some (record {
    table = add_pairs empty (split_text pairs comma_space);
    visited_node_ids = map to_int (split_text visited space);
  })
  lsp_sections _ = none

  unfoldable pub lsp_decode : List ℕ → Option (Lsp q)
  lsp_decode line = lsp_sections (split_text line dollar)
