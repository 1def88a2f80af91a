-- ===== src/Routing/Topology/Bind.antt =====
-- A3/main.cpp: what `bindNodes` does to the two nodes.
use mathlib.Core.Option.{bind}
use computer_network_course.Prelude.{
  ℕ, zero, suc, ◌≡◌, ◌≢◌, refl, sym, ap, ◌∙◌, List, [], ◌∷◌, Option, some, get_elem?,
  get_elem?-set_ne, set,
}
use computer_network_course.Routing.Qt.{QHash}
use computer_network_course.Routing.Ports.{Port, Peer}
use computer_network_course.Routing.Topology.{
  Node, Nodes, get_id, add_new_port, bind_dest_port, get_port_by_port_number, call, peer, bind_to,
  bind_nodes,
}
use computer_network_course.Routing.Topology.Link.{
  as_of, Fresh, new_port, Linked, linked, linked-Linked, add_new_port_lem,
}

get_elem?-set {ℓ} :
    {A : Type ℓ} (xs : List A) (i : ℕ) (v w : A)
    → get_elem? xs i ≡ some v
    → get_elem? (set xs i w) i ≡ some w
get_elem?-set [] i v w e = cc
get_elem?-set (x ∷ xs) zero v w e = refl
get_elem?-set (x ∷ xs) (suc i) v w e = get_elem?-set xs i v w e

module _ (q : QHash) where
  -- The other end of a port `number` at a node.
  abbrev pub end_at : ℕ → Node q → Peer
  end_at number v = record { node_id = get_id q v; as_id = as_of q v; number = number }

  call_lem :
      (i : ℕ) (f : Node q → Node q) (nodes : Nodes q) (v : Node q)
      → get_elem? nodes i ≡ some v
      → call q i f nodes ≡ some (set nodes i (f v))
  unfolding bind
  call_lem i f nodes v e = ap (λ o. bind o (λ v. some (set nodes i (f v)))) e

  bind_to_lem :
      (number other_number i j : ℕ) (nodes : Nodes q) (u v : Node q) (p : Port)
      → get_elem? nodes i ≡ some u
      → get_elem? nodes j ≡ some v
      → get_port_by_port_number q other_number v ≡ some p
      → bind_to q (number, i) (other_number, j) nodes
        ≡ some (set nodes i (bind_dest_port q number (peer q p) u))
  unfolding bind_to bind
  bind_to_lem number other_number i j nodes u v p ei ej ep =
      ap
        (λ o.
          bind
            (bind o (λ v. bind (get_port_by_port_number q other_number v) (λ p. some (peer q p))))
            (λ dest. call q i (bind_dest_port q number dest) nodes))
        ej
      ∙ ap
          (λ o.
            bind (bind o (λ p. some (peer q p)))
              (λ dest. call q i (bind_dest_port q number dest) nodes))
          ep
      ∙ call_lem i (bind_dest_port q number (peer q p)) nodes u ei

  -- The nodes behind `bindNodes`.
  pub record Links (m n i j : ℕ) (a b : Node q) (nodes nodes' : Nodes q) : Type 0 where
    pub one : Node q
    pub two : Node q
    pub at_one : get_elem? nodes' i ≡ some one
    pub at_two : get_elem? nodes' j ≡ some two
    pub one_linked : Linked q m (end_at n b) a one
    pub two_linked : Linked q n (end_at m a) b two
    pub others : (k : ℕ) → k ≢ i → k ≢ j → get_elem? nodes' k ≡ get_elem? nodes k

  -- Two nodes that are not the same, neither with a port of its number yet, are linked q in both
  -- directions: each gets a port of its number with an empty buffer, whose destination is the other's
  -- new port; a router sets the cost of the other to 1 in both of its tables and forwards over the new
  -- port; and all other nodes stay as they were.
  pub bind_nodes-Links :
      (unset : Peer) (m n i j : ℕ) (a b : Node q) (nodes : Nodes q)
      → i ≢ j
      → get_elem? nodes i ≡ some a
      → get_elem? nodes j ≡ some b
      → Fresh q m a
      → Fresh q n b
      → (nodes' : Nodes q) × (bind_nodes q unset (m, i) (n, j) nodes ≡ some nodes')
        × Links m n i j a b nodes nodes'
  unfolding bind_nodes bind
  bind_nodes-Links unset m n i j a b nodes ne ei ej fa fb = (
    nodes4,
    ap (λ o. bind o (λ ns. bind (call q j (add_new_port q unset n) ns) bind_both))
          (call_lem i (add_new_port q unset m) nodes a ei)
        ∙ ap (λ o. bind o bind_both) (call_lem j (add_new_port q unset n) nodes1 b at_j1)
        ∙ ap (λ o. bind o (λ ns. bind_to q (n, j) (m, i) ns))
            (bind_to_lem m n i j nodes2 a1 b1 (new_port q unset n b) at_i2 at_j2
              (add_new_port_lem q unset n b fb))
        ∙ bind_to_lem n m j i nodes3 b1 a2 (new_port q (end_at n b) m a) at_j3 at_i3 la.port,
    record {
      one = a2;
      two = b2;
      at_one = get_elem?-set_ne nodes3 j i b2 (λ e. ne (sym e)) ∙ at_i3;
      at_two = get_elem?-set nodes3 j b1 b2 at_j3;
      one_linked = la;
      two_linked = linked-Linked q unset (end_at m a) n b fb;
      others = λ k hi hj.
          get_elem?-set_ne nodes3 j k b2 (λ e. hj (sym e))
          ∙ get_elem?-set_ne nodes2 i k a2 (λ e. hi (sym e))
          ∙ get_elem?-set_ne nodes1 j k b1 (λ e. hj (sym e))
          ∙ get_elem?-set_ne nodes i k a1 (λ e. hi (sym e));
    },
  )
    where
      bind_both : Nodes q → Option (Nodes q)
      bind_both ns = bind (bind_to q (m, i) (n, j) ns) (λ ns. bind_to q (n, j) (m, i) ns)

      a1 : Node q
      a1 = add_new_port q unset m a

      b1 : Node q
      b1 = add_new_port q unset n b

      a2 : Node q
      a2 = linked q unset (end_at n b) m a

      b2 : Node q
      b2 = linked q unset (end_at m a) n b

      nodes1 : Nodes q
      nodes1 = set nodes i a1

      nodes2 : Nodes q
      nodes2 = set nodes1 j b1

      nodes3 : Nodes q
      nodes3 = set nodes2 i a2

      nodes4 : Nodes q
      nodes4 = set nodes3 j b2

      la : Linked q m (end_at n b) a a2
      la = linked-Linked q unset (end_at n b) m a fa

      at_j1 : get_elem? nodes1 j ≡ some b
      at_j1 = get_elem?-set_ne nodes i j a1 ne ∙ ej

      at_j2 : get_elem? nodes2 j ≡ some b1
      at_j2 = get_elem?-set nodes1 j b b1 at_j1

      at_i2 : get_elem? nodes2 i ≡ some a1
      at_i2 = get_elem?-set_ne nodes1 j i b1 (λ e. ne (sym e)) ∙ get_elem?-set nodes i a a1 ei

      at_i3 : get_elem? nodes3 i ≡ some a2
      at_i3 = get_elem?-set nodes2 i a1 a2 at_i2

      at_j3 : get_elem? nodes3 j ≡ some b1
      at_j3 = get_elem?-set_ne nodes2 i j a2 ne ∙ at_j2
