-- ===== src/Routing/Topology/Link.antt =====
-- A3/main.cpp: what a new port and its binding do to one node.
use computer_network_course.Prelude.{
  ℕ, ◌≡◌, refl, sym, subst, ◌∙◌, arith, List, [], ◌∷◌, ◌++◌, none, some,
}
use computer_network_course.Routing.Qt.{QHash}
use computer_network_course.Routing.Ports
use computer_network_course.Routing.Ports.{Port, Peer}
use computer_network_course.Routing.Pc
use computer_network_course.Routing.Router
use computer_network_course.Routing.Router.{Router, set_port_dest, bind_found}
use computer_network_course.Routing.Topology.{
  Node, router_node, pc_node, get_id, add_new_port, bind_dest_port, get_port_by_port_number,
}

get_port-append :
    (number : ℕ) (ports : List Port) (p : Port)
    → p.number ≡ number
    → Ports.get_port_by_port_number number ports ≡ none
    → Ports.get_port_by_port_number number (ports ++ p ∷ []) ≡ some p
unfolding Ports.get_port_by_port_number
get_port-append number [] p e h = ground arith
get_port-append number (x ∷ ports) p e h = ground (arith, get_port-append number ports p e)

module _ (q : QHash) where
  open q use {find, insert, find-insert}

  abbrev pub as_of : Node q → ℕ
  as_of (router_node r) = r.as_id
  as_of (pc_node p) = p.as_id

  get_port-set_port_dest :
      (number : ℕ) (dest : Peer) (ports : List Port) (p : Port)
      → Ports.get_port_by_port_number number ports ≡ some p
      → Ports.get_port_by_port_number number (set_port_dest q number dest ports)
        ≡ some (record p { destination = dest })
  unfolding Ports.get_port_by_port_number set_port_dest
  get_port-set_port_dest number dest [] p h = cc
  get_port-set_port_dest number dest (x ∷ ports) p h =
      ground (arith, get_port-set_port_dest number dest ports p)

  -- A router has no port of the number yet.
  abbrev pub Fresh : ℕ → Node q → Type 0
  Fresh number (router_node r) = Ports.get_port_by_port_number number r.ports ≡ none
  Fresh number (pc_node p) = Unit {0}

  abbrev pub new_port : Peer → ℕ → Node q → Port
  new_port dest number v = record {
    number = number;
    node_id = get_id q v;
    as_id = as_of v;
    destination = dest;
    buffer = [];
  }

  -- A router counts the link as 1, and forwards over it.
  abbrev pub Costs : Peer → ℕ → Node q → Type 0
  Costs dest number (router_node r) =
      (find r.distance_vector dest.node_id ≡ some 1)
      × (find r.lsdb.table dest.node_id ≡ some 1)
      × (find r.forwarding_table dest.node_id ≡ some number)
  Costs dest number (pc_node p) = Unit {0}

  pub record Linked (number : ℕ) (dest : Peer) (v u : Node q) : Type 0 where
    pub port : get_port_by_port_number q number u ≡ some (new_port dest number v)
    pub same_id : get_id q u ≡ get_id q v
    pub costs : Costs dest number u

  pub add_new_port_lem :
      (unset : Peer) (number : ℕ) (v : Node q)
      → Fresh number v
      → get_port_by_port_number q number (add_new_port q unset number v)
        ≡ some (new_port unset number v)
  unfolding get_port_by_port_number add_new_port get_id Router.add_new_port Pc.add_new_port
      Pc.get_port_by_port_number
  add_new_port_lem unset number (router_node r) h =
      get_port-append number r.ports (new_port unset number (router_node r)) refl h
  add_new_port_lem unset number (pc_node p) h = refl

  find-insert_self : (table : q.Table) (k v : ℕ) → find (insert table k v) k ≡ some v
  find-insert_self table k v = find-insert table k v k ∙ ground arith

  abbrev pub linked : Peer → Peer → ℕ → Node q → Node q
  linked unset dest number v = bind_dest_port q number dest (add_new_port q unset number v)

  bind_found_lem :
      (number : ℕ) (dest : Peer) (p : Port) (r : Router q)
      → Ports.get_port_by_port_number number r.ports ≡ some p
      → (get_port_by_port_number q number (router_node (bind_found q (some p) number dest r))
          ≡ some (record p { destination = dest }))
        × Costs dest number (router_node (bind_found q (some p) number dest r))
  unfolding get_port_by_port_number bind_found
  bind_found_lem number dest p r e = (
    get_port-set_port_dest number dest r.ports p e,
    (
      find-insert_self r.distance_vector dest.node_id 1,
      find-insert_self r.lsdb.table dest.node_id 1,
      find-insert_self r.forwarding_table dest.node_id number,
    ),
  )

  pub linked-Linked :
      (unset dest : Peer) (number : ℕ) (v : Node q)
      → Fresh number v
      → Linked number dest v (linked unset dest number v)
  unfolding bind_dest_port add_new_port Router.add_new_port Router.bind_dest_port get_id
      get_port_by_port_number bind_found Pc.add_new_port Pc.bind_dest_port
      Pc.get_port_by_port_number
  linked-Linked unset dest number (router_node r) h =
      let r' : Router q = Router.add_new_port q unset number r in
      let found : Ports.get_port_by_port_number number r'.ports
          ≡ some (new_port unset number (router_node r)) =
        add_new_port_lem unset number (router_node r) h in
      let (port, costs) =
        bind_found_lem number dest (new_port unset number (router_node r)) r' found in
      subst (λ o. Linked number dest (router_node r) (router_node (bind_found q o number dest r')))
        (sym found) (record { port = port; same_id = refl; costs = costs })
  linked-Linked unset dest number (pc_node p) h = record { port = refl; same_id = refl; costs = tt }
