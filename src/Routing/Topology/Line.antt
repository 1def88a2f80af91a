-- ===== src/Routing/Topology/Line.antt =====
-- A3/main.cpp: a line of Topology.txt, and the link that it makes.
use native.Mathlib.Decide.{dec_lt}
use mathlib.Core.Option.{bind}
use computer_network_course.Prelude.{
  ℕ, ◌<◌, ◌≡◌, ◌≢◌, refl, ap, sym, ◌∙◌, subst, arith, List, [], ◌∷◌, ◌++◌, append_assoc, Option,
  some, All, All-append, Lacks, get_elem?,
}
use computer_network_course.Routing.Qt.{QHash}
use computer_network_course.Routing.Text.{QtText}
use computer_network_course.Routing.Ports.{Peer}
use computer_network_course.Routing.Topology.{
  skip_empty, entry, parse_entries, parse_line, two_ends, Node, Nodes, bind_nodes, find_by_id,
  bind_found, bind_by_input_line,
}
use computer_network_course.Routing.Topology.Link.{Fresh}
use computer_network_course.Routing.Topology.Bind.{Links, bind_nodes-Links}

skip_empty_cons :
    (p : List ℕ) (parts : List (List ℕ)) → p ≢ [] → skip_empty (p ∷ parts) ≡ p ∷ skip_empty parts
unfolding skip_empty
skip_empty_cons [] parts h = absurd (h refl)
skip_empty_cons (x ∷ p) parts h = refl

skip_empty_two : (p r : List ℕ) → p ≢ [] → r ≢ [] → skip_empty (p ∷ r ∷ []) ≡ p ∷ r ∷ []
unfolding skip_empty
skip_empty_two p r hp hr = skip_empty_cons p (r ∷ []) hp ∙ ap (◌∷◌ p) (skip_empty_cons r [] hr)

append-ne-nil : (u : List ℕ) (c : ℕ) (v : List ℕ) → u ++ c ∷ v ≢ []
append-ne-nil [] c v e = cc
append-ne-nil (x ∷ u) c v e = cc

-- A text by its last code.
last_of :
    (x : ℕ) (s : List ℕ)
    → All (λ c. b' ' < c) (x ∷ s)
    → (w : List ℕ) × (b : ℕ) × (x ∷ s ≡ w ++ b ∷ []) × (b' ' < b)
last_of x [] (h, t) = ([], x, refl, h)
last_of x (y ∷ s) (h, t) = let (w, b, e, l) = last_of y s t in (x ∷ w, b, ap (◌∷◌ x) e, l)

above_space : (s : List ℕ) → ((c : ℕ) → c < b'0' → Lacks c s) → All (λ c. b' ' < c) s
above_space [] h = tt
above_space (x ∷ s) h = (
  elim (dec_lt (b' ') x) [ yes l ↦ l | no n ↦ absurd ((h x (omega arith)).0 refl) ],
  above_space s (λ c l. (h c l).1),
)

module _ (t : QtText) where
  open t use {
    split, to_int, number, trimmed, split_last, split_cons, to_int-number, number-ne-nil,
    number-Lacks, trimmed_space, trimmed_ends,
  }

  trimmed_words :
      (u v : List ℕ)
      → u ≢ []
      → v ≢ []
      → All (λ c. b' ' < c) u
      → All (λ c. b' ' < c) v
      → trimmed (u ++ b' ' ∷ v) ≡ u ++ b' ' ∷ v
  trimmed_words [] v nu nv hu hv = absurd (nu refl)
  trimmed_words u [] nu nv hu hv = absurd (nv refl)
  trimmed_words (x ∷ u) (y ∷ v) nu nv (hx, hu) hv =
      let (w, b, e, l) = last_of y v hv in
      let whole : x ∷ ((u ++ b' ' ∷ w) ++ b ∷ []) ≡ (x ∷ u) ++ b' ' ∷ (y ∷ v) =
        ap (◌∷◌ x) (append_assoc u (b' ' ∷ w) (b ∷ []) ∙ ap (λ z. u ++ b' ' ∷ z) (sym e)) in
      subst (λ z. trimmed z ≡ z) whole (trimmed_ends x b (u ++ b' ' ∷ w) hx l)

  abbrev pub end_text : ℕ → ℕ → List ℕ
  end_text id port = number id ++ b' ' ∷ number port

  -- A line of the file.
  abbrev pub link_line : ℕ × ℕ → ℕ × ℕ → List ℕ
  link_line one two = end_text one.0 one.1 ++ b',' ∷ (b' ' ∷ end_text two.0 two.1)

  trimmed_end : (id port : ℕ) → trimmed (end_text id port) ≡ end_text id port
  trimmed_end id port =
      trimmed_words (number id) (number port) (number-ne-nil id) (number-ne-nil port)
        (above_space (number id) (number-Lacks id)) (above_space (number port) (number-Lacks port))

  end_text-Lacks : (id port : ℕ) → Lacks (b',') (end_text id port)
  end_text-Lacks id port =
      All-append (λ x. x ≢ b',') (number id) (b' ' ∷ number port)
        (number-Lacks id (b',') (omega arith)) (omega arith, number-Lacks port (b',') (omega arith))

  entry_end :
      (id port : ℕ) → entry t (skip_empty (split (end_text id port) (b' '))) ≡ some (id, port)
  unfolding entry
  entry_end id port =
      ap (λ ps. entry t (skip_empty ps))
        (split_cons (number id) (number port) (b' ') (number-Lacks id (b' ') (omega arith))
          ∙ ap (◌∷◌ (number id))
              (split_last (number port) (b' ') (number-Lacks port (b' ') (omega arith))))
      ∙ ap (entry t)
          (skip_empty_two (number id) (number port) (number-ne-nil id) (number-ne-nil port))
      ∙ ap (λ a. some (a, to_int (number port))) (to_int-number id)
      ∙ ap (λ b. some (id, b)) (to_int-number port)

  parse_line-link_line :
      (one two : ℕ × ℕ) → parse_line t (link_line one two) ≡ some (one ∷ two ∷ [])
  unfolding parse_line parse_entries bind
  parse_line-link_line (a, m) (b, n) =
      ap (λ ps. parse_entries t (skip_empty ps))
        (split_cons (end_text a m) (b' ' ∷ end_text b n) (b',') (end_text-Lacks a m)
          ∙ ap (◌∷◌ (end_text a m))
              (split_last (b' ' ∷ end_text b n) (b',') (omega arith, end_text-Lacks b n)))
      ∙ ap (parse_entries t) (
          skip_empty_two (end_text a m) (b' ' ∷ end_text b n)
            (append-ne-nil (number a) (b' ') (number m)) (λ e. cc))
      ∙ ap (λ z. bind (entry t (skip_empty (split z (b' ')))) one_more) (trimmed_end a m)
      ∙ ap (λ o. bind o one_more) (entry_end a m)
      ∙ ap
          (λ z.
            bind (bind (entry t (skip_empty (split z (b' ')))) (λ p. some (p ∷ [])))
              (λ r. some ((a, m) ∷ r)))
          (trimmed_space (end_text b n) ∙ trimmed_end b n)
      ∙ ap (λ o. bind (bind o (λ p. some (p ∷ []))) (λ r. some ((a, m) ∷ r))) (entry_end b n)
    where
      one_more : ℕ × ℕ → Option (List (ℕ × ℕ))
      one_more pair = bind (parse_entries t ((b' ' ∷ end_text b n) ∷ [])) (λ r. some (pair ∷ r))

module _ (q : QHash) (t : QtText) where
  -- A line with two ids and two port numbers links the two nodes that have the ids, where they are not
  -- the same node and a router among them has no port of its number yet: both ways, with cost 1 in a
  -- router's two tables and its forwarding over the new port, and no other node changes.
  pub bind_by_input_line-Links :
      (unset : Peer) (m n i j : ℕ) (id_one id_two : ℕ) (a b : Node q) (nodes : Nodes q)
      → i ≢ j
      → find_by_id q id_one nodes ≡ some i
      → find_by_id q id_two nodes ≡ some j
      → get_elem? nodes i ≡ some a
      → get_elem? nodes j ≡ some b
      → Fresh q m a
      → Fresh q n b
      → (nodes' : Nodes q) × (bind_by_input_line q t unset
            (link_line t (id_one, m) (id_two, n))
            nodes
          ≡ some nodes')
        × Links q m n i j a b nodes nodes'
  unfolding bind_by_input_line bind two_ends bind_found
  bind_by_input_line-Links unset m n i j id_one id_two a b nodes ne fi fj ei ej fa fb =
      let (nodes', e, links) = bind_nodes-Links q unset m n i j a b nodes ne ei ej fa fb in
      (
        nodes',
        ap (λ o. bind o (λ result. bind (two_ends result) (λ ends. bind_found q unset ends nodes)))
              (parse_line-link_line t (id_one, m) (id_two, n))
            ∙ ap
                (λ o. bind o (λ i.
                  bind (find_by_id q id_two nodes) (λ j. bind_nodes q unset (m, i) (n, j) nodes)))
                fi
            ∙ ap (λ o. bind o (λ j. bind_nodes q unset (m, i) (n, j) nodes)) fj
            ∙ e,
        links,
      )
