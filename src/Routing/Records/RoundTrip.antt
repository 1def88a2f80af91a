-- ===== src/Routing/Records/RoundTrip.antt =====
-- A3/rip.cpp and lsp.cpp: what is read back from the text of a table.
use computer_network_course.Prelude.{
  ℕ, ◌<◌, ◌≡◌, ◌≢◌, refl, ap, ap₂, sym, ◌∙◌, arith, List, [], ◌∷◌, ◌++◌, none, some, map, All,
  All-append, Lacks, if◌then◌else◌,
}
use computer_network_course.Prelude.Text.{codes}
use computer_network_course.Routing.Qt.{QHash, elem, value_or_zero}
use computer_network_course.Routing.Text.{QtText}
use computer_network_course.Routing.Records.{
  space, comma_space, dollar, pair_text, pairs_text, add_pair, add_pairs, rip_incode, rip_decode,
  Lsp, lsp_incode, lsp_sections, lsp_decode,
}

-- An empty list is written as an empty text, which is one empty part.
abbrev pub parts_seen : List (List ℕ) → List (List ℕ)
parts_seen [] = [] ∷ []
parts_seen (p ∷ ps) = p ∷ ps

module _ (q : QHash) (t : QtText) where
  open q use {Table, empty, find, insert, keys, find-empty, find-insert, elem-keys}
  open t use {
    number, to_int, split_text, join_text, join_text_nil, join_text_one, join_text_cons,
    split_text_last, split_text_cons, to_int-number, number-Lacks,
  }

  split_text-join_text :
      (ps : List (List ℕ)) (pre post : List ℕ) (c : ℕ)
      → Lacks c pre
      → All (Lacks c) ps
      → split_text (join_text ps (pre ++ c ∷ post)) (pre ++ c ∷ post) ≡ parts_seen ps
  split_text-join_text [] pre post c hp h =
      ap (λ s. split_text s (pre ++ c ∷ post)) (join_text_nil (pre ++ c ∷ post))
      ∙ split_text_last [] pre post c tt
  split_text-join_text (p ∷ []) pre post c hp (hx, h) =
      ap (λ s. split_text s (pre ++ c ∷ post)) (join_text_one p (pre ++ c ∷ post))
      ∙ split_text_last p pre post c hx
  split_text-join_text (p ∷ r ∷ rest) pre post c hp (hx, h) =
      ap (λ s. split_text s (pre ++ c ∷ post)) (join_text_cons p r (pre ++ c ∷ post) rest)
      ∙ split_text_cons p (join_text (r ∷ rest) (pre ++ c ∷ post)) pre post c hp hx
      ∙ ap (◌∷◌ p) (split_text-join_text (r ∷ rest) pre post c hp h)

  join_text-Lacks :
      (ps : List (List ℕ)) (sep : List ℕ) (b : ℕ)
      → Lacks b sep
      → All (Lacks b) ps
      → Lacks b (join_text ps sep)
  join_text-Lacks [] sep b hs h = rw (join_text_nil sep) tt
  join_text-Lacks (p ∷ []) sep b hs (hp, h) = rw (join_text_one p sep) hp
  join_text-Lacks (p ∷ r ∷ rest) sep b hs (hp, h) = rw (join_text_cons p r sep rest) (
      All-append (λ x. x ≢ b) p (sep ++ join_text (r ∷ rest) sep) hp
        (All-append (λ x. x ≢ b) sep (join_text (r ∷ rest) sep) hs
          (join_text-Lacks (r ∷ rest) sep b hs h)))

  pair_text-Lacks :
      (table : Table) (key c : ℕ) → c ≢ b' ' → c < b'0' → Lacks c (pair_text q t table key)
  unfolding pair_text
  pair_text-Lacks table key c ne h =
      All-append (λ x. x ≢ c) (number key) (b' ' ∷ number (value_or_zero (find table key)))
        (number-Lacks key c h)
        ((λ e. ne (sym e)), number-Lacks (value_or_zero (find table key)) c h)

  pair_texts-Lacks :
      (table : Table) (ks : List ℕ) (c : ℕ)
      → c ≢ b' '
      → c < b'0'
      → All (Lacks c) (map (pair_text q t table) ks)
  pair_texts-Lacks table [] c ne h = tt
  pair_texts-Lacks table (k ∷ ks) c ne h =
      (pair_text-Lacks table k c ne h, pair_texts-Lacks table ks c ne h)

  split-pair_text :
      (table : Table) (key : ℕ)
      → split_text (pair_text q t table key) space
        ≡ number key ∷ number (value_or_zero (find table key)) ∷ []
  unfolding pair_text
  split-pair_text table key =
      split_text_cons (number key) (number (value_or_zero (find table key))) [] [] (b' ') tt
        (number-Lacks key (b' ') (omega arith))
      ∙ ap (◌∷◌ (number key)) (
          split_text_last (number (value_or_zero (find table key))) [] [] (b' ')
            (number-Lacks (value_or_zero (find table key)) (b' ') (omega arith)))

  add_pair-pair_text :
      (table into : Table) (key : ℕ)
      → add_pair q t into (split_text (pair_text q t table key) space)
        ≡ insert into key (value_or_zero (find table key))
  unfolding add_pair
  add_pair-pair_text table into key =
      ap (add_pair q t into) (split-pair_text table key)
      ∙ ap₂ (insert into) (to_int-number key) (to_int-number (value_or_zero (find table key)))

  find-add_pairs :
      (table into : Table) (ks : List ℕ) (j : ℕ)
      → find (add_pairs q t into (map (pair_text q t table) ks)) j
        ≡ (if elem j ks then some (value_or_zero (find table j)) else find into j)
  unfolding add_pairs
  find-add_pairs table into [] j = refl
  find-add_pairs table into (k ∷ ks) j =
      ap (λ m. find (add_pairs q t m (map (pair_text q t table) ks)) j)
        (add_pair-pair_text table into k)
      ∙ find-add_pairs table (insert into k (value_or_zero (find table k))) ks j
      ∙ ground (arith, find-insert into k (value_or_zero (find table k)) j)

  find-pairs_seen :
      (table : Table) (ks : List ℕ) (j : ℕ)
      → find (add_pairs q t empty (parts_seen (map (pair_text q t table) ks))) j
        ≡ (if elem j ks then some (value_or_zero (find table j)) else none)
  unfolding add_pairs add_pair
  find-pairs_seen table [] j =
      ap (λ w. find (add_pair q t empty w) j) (split_text_last [] [] [] (b' ') tt) ∙ find-empty j
  find-pairs_seen table (k ∷ ks) j =
      find-add_pairs table empty (k ∷ ks) j ∙ ground (arith, find-empty j)

  -- The table that is read from the pairs of a table has the same entries.
  pub find-decoded_pairs :
      (table : Table) (j : ℕ)
      → find (add_pairs q t empty (split_text (pairs_text q t table) comma_space)) j ≡ find table j
  unfolding pairs_text
  find-decoded_pairs table j =
      ap (λ parts. find (add_pairs q t empty parts) j)
        (split_text-join_text (map (pair_text q t table) (keys table)) [] (codes " ") (b',') tt
          (pair_texts-Lacks table (keys table) (b',') (omega arith) (omega arith)))
      ∙ find-pairs_seen table (keys table) j
      ∙ ground (arith, elem-keys table j)

  -- A cost table is read back from its text with every entry, whatever the order of its keys.
  pub rip_decode-rip_incode :
      (table : Table) (j : ℕ) → find (rip_decode q t (rip_incode q t table)) j ≡ find table j
  unfolding rip_decode rip_incode
  rip_decode-rip_incode table j = find-decoded_pairs table j

  -- The visited ids that are read back: no id is written as an empty text, which is one id 0.
  abbrev pub ids_seen : List ℕ → List ℕ
  ids_seen [] = to_int [] ∷ []
  ids_seen (i ∷ ids) = i ∷ ids

  numbers-Lacks : (ids : List ℕ) (c : ℕ) → c < b'0' → All (Lacks c) (map number ids)
  numbers-Lacks [] c h = tt
  numbers-Lacks (i ∷ ids) c h = (number-Lacks i c h, numbers-Lacks ids c h)

  to_ints_numbers : (ids : List ℕ) → map to_int (map number ids) ≡ ids
  to_ints_numbers [] = refl
  to_ints_numbers (i ∷ ids) = ap₂ ◌∷◌ (to_int-number i) (to_ints_numbers ids)

  to_ints_seen : (ids : List ℕ) → map to_int (parts_seen (map number ids)) ≡ ids_seen ids
  to_ints_seen [] = refl
  to_ints_seen (i ∷ ids) = to_ints_numbers (i ∷ ids)

  visited_read :
      (ids : List ℕ)
      → map to_int (split_text (join_text (map number ids) space) space) ≡ ids_seen ids
  visited_read ids =
      ap (map to_int) (
        split_text-join_text (map number ids) [] [] (b' ') tt
          (numbers-Lacks ids (b' ') (omega arith)))
      ∙ to_ints_seen ids

  pairs_text-Lacks : (table : Table) → Lacks (b'$') (pairs_text q t table)
  unfolding pairs_text
  pairs_text-Lacks table =
      join_text-Lacks (map (pair_text q t table) (keys table)) comma_space (b'$')
        (omega arith, (omega arith, tt))
        (pair_texts-Lacks table (keys table) (b'$') (omega arith) (omega arith))

  ids_text-Lacks : (ids : List ℕ) → Lacks (b'$') (join_text (map number ids) space)
  ids_text-Lacks ids =
      join_text-Lacks (map number ids) space (b'$') (omega arith, tt)
        (numbers-Lacks ids (b'$') (omega arith))

  sections :
      (p : Lsp q)
      → split_text (lsp_incode q t p) dollar
        ≡ pairs_text q t p.table ∷ join_text (map number p.visited_node_ids) space ∷ []
  unfolding lsp_incode
  sections p =
      split_text_cons (pairs_text q t p.table) (join_text (map number p.visited_node_ids) space)
        (codes " ") (codes " ") (b'$') (omega arith, tt) (pairs_text-Lacks p.table)
      ∙ ap (◌∷◌ (pairs_text q t p.table)) (
          split_text_last (join_text (map number p.visited_node_ids) space) (codes " ") (codes " ")
            (b'$') (ids_text-Lacks p.visited_node_ids))

  -- A link-state record is read back from its text with every entry of its table and with its visited
  -- ids, in order; a record with no visited id comes back with one.
  pub lsp_decode-lsp_incode :
      (p : Lsp q)
      → (r : Lsp q) × (lsp_decode q t (lsp_incode q t p) ≡ some r)
        × (r.visited_node_ids ≡ ids_seen p.visited_node_ids)
        × ((j : ℕ) → find r.table j ≡ find p.table j)
  unfolding lsp_decode lsp_sections
  lsp_decode-lsp_incode p = (
    record {
      table = add_pairs q t empty (split_text (pairs_text q t p.table) comma_space);
      visited_node_ids =
          map to_int (split_text (join_text (map number p.visited_node_ids) space) space);
    },
    ap (lsp_sections q t) (sections p),
    visited_read p.visited_node_ids,
    find-decoded_pairs p.table,
  )
