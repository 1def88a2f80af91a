-- ===== src/Routing/Topology.antt =====
-- A3/main.cpp: the nodes of the program and the links that Topology.txt lists. A node is the position of
-- its pointer in `nodes`; `none` is a null pointer or a missing part that the code goes on to use.
pub mod Link
pub mod Bind
pub mod Line
pub mod Schedule
pub mod Phases
mod Tests
use mathlib.Core.Option.{bind}
use computer_network_course.Prelude.{
  ℕ, zero, suc, ◌+◌, ◌≡◌, List, [], ◌∷◌, ◌++◌, map, Option, none, some, ◌==◌, if◌then◌else◌,
  get_elem?, set,
}
use computer_network_course.Routing.Qt.{QHash}
use computer_network_course.Routing.Text.{QtText}
use computer_network_course.Routing.Ports
use computer_network_course.Routing.Ports.{Port, Peer}
use computer_network_course.Routing.Pc
use computer_network_course.Routing.Pc.{Pc}
use computer_network_course.Routing.Router
use computer_network_course.Routing.Router.{Router}

-- `split` by one character with `Qt::SkipEmptyParts`.
unfoldable pub skip_empty : List (List ℕ) → List (List ℕ)
skip_empty [] = []
skip_empty ([] ∷ parts) = skip_empty parts
skip_empty ((x ∷ part) ∷ parts) = (x ∷ part) ∷ skip_empty parts

module _ (t : QtText) where
  -- The parts of one entry, `none` where it has fewer than two.
  unfoldable pub entry : List (List ℕ) → Option (ℕ × ℕ)
  entry [] = none
  entry (part ∷ []) = none
  entry (id ∷ port ∷ parts) = some (t.to_int id, t.to_int port)

  unfoldable pub parse_entries : List (List ℕ) → Option (List (ℕ × ℕ))
  unfolding bind
  parse_entries [] = some []
  parse_entries (e ∷ entries) =
      bind (entry (skip_empty (t.split (t.trimmed e) b' ')))
        (λ pair. bind (parse_entries entries) (λ result. some (pair ∷ result)))

  unfoldable pub parse_line : List ℕ → Option (List (ℕ × ℕ))
  parse_line line = parse_entries (skip_empty (t.split line b','))

-- `result[0]` and `result[1]`.
unfoldable pub two_ends : List (ℕ × ℕ) → Option ((ℕ × ℕ) × (ℕ × ℕ))
two_ends [] = none
two_ends (one ∷ []) = none
two_ends (one ∷ two ∷ result) = some (one, two)

module _ (q : QHash) where
  pub data Node : Type 0 where
    router_node : Router q → Node
    pc_node : Pc → Node

  unfoldable pub get_id : Node → ℕ
  get_id (router_node r) = r.id
  get_id (pc_node p) = p.id

  -- The calls that both classes have.
  unfoldable pub add_new_port : Peer → ℕ → Node → Node
  add_new_port unset number (router_node r) = router_node (Router.add_new_port q unset number r)
  add_new_port unset number (pc_node p) = pc_node (Pc.add_new_port unset number p)

  unfoldable pub bind_dest_port : ℕ → Peer → Node → Node
  bind_dest_port number dest (router_node r) = router_node (Router.bind_dest_port q number dest r)
  bind_dest_port number dest (pc_node p) = pc_node (Pc.bind_dest_port number dest p)

  unfoldable pub get_port_by_port_number : ℕ → Node → Option Port
  get_port_by_port_number number (router_node r) = Ports.get_port_by_port_number number r.ports
  get_port_by_port_number number (pc_node p) = some (Pc.get_port_by_port_number number p)

  abbrev pub Nodes : Type 0
  Nodes = List Node

  -- A call that changes the node behind a pointer.
  abbrev pub call : ℕ → (Node → Node) → Nodes → Option Nodes
  unfolding bind
  call i f nodes = bind (get_elem? nodes i) (λ v. some (set nodes i (f v)))

  -- A port as the other end keeps it.
  abbrev pub peer : Port → Peer
  peer p = record { node_id = p.node_id; as_id = p.as_id; number = p.number }

  abbrev pub peer_at : ℕ → ℕ → Nodes → Option Peer
  unfolding bind
  peer_at i number nodes =
      bind (get_elem? nodes i) (λ v. bind (get_port_by_port_number number v) (λ p. some (peer p)))

  -- `bindDestPort` of one node with the other's `getPortByPortNumber`.
  unfoldable pub bind_to : ℕ × ℕ → ℕ × ℕ → Nodes → Option Nodes
  unfolding bind
  bind_to (number, i) (other_number, j) nodes =
      bind (peer_at j other_number nodes) (λ dest. call i (bind_dest_port number dest) nodes)

  unfoldable pub bind_nodes : Peer → ℕ × ℕ → ℕ × ℕ → Nodes → Option Nodes
  unfolding bind
  bind_nodes unset one two nodes = bind (call one.1 (add_new_port unset one.0) nodes) (λ nodes.
      bind (call two.1 (add_new_port unset two.0) nodes)
        (λ nodes. bind (bind_to one two nodes) (λ nodes. bind_to two one nodes)))

  -- The position of the first node of the id.
  unfoldable pub find_by_id : ℕ → Nodes → Option ℕ
  find_by_id id [] = none
  find_by_id id (n ∷ nodes) =
      let rest = map_suc (find_by_id id nodes) in if id == get_id n then some 0 else rest
    where
      map_suc : Option ℕ → Option ℕ
      map_suc none = none
      map_suc (some i) = some (suc i)

  unfoldable pub bind_found : Peer → (ℕ × ℕ) × (ℕ × ℕ) → Nodes → Option Nodes
  unfolding bind
  bind_found unset ((id_one, port_one), (id_two, port_two)) nodes =
      bind (find_by_id id_one nodes) (λ i.
        bind (find_by_id id_two nodes) (λ j. bind_nodes unset (port_one, i) (port_two, j) nodes))

  -- The constructors, with `node::ID`.
  unfoldable initialize_routers : ℕ → ℕ → ℕ → ℕ × Nodes → ℕ × Nodes
  initialize_routers protocol zero as_id s = s
  initialize_routers protocol (suc n) as_id (id, nodes) =
      initialize_routers protocol n as_id
        (id + 1, nodes ++ router_node (Router.new_router q protocol as_id (id + 1)) ∷ [])

  unfoldable initialize_pcs : Port → ℕ → ℕ → ℕ × Nodes → ℕ × Nodes
  initialize_pcs unset zero as_id s = s
  initialize_pcs unset (suc n) as_id (id, nodes) =
      initialize_pcs unset n as_id (id + 1, nodes ++ pc_node (Pc.new_pc unset as_id (id + 1)) ∷ [])

module _ (q : QHash) (t : QtText) where
  unfoldable pub bind_by_input_line : Peer → List ℕ → Nodes q → Option (Nodes q)
  unfolding bind
  bind_by_input_line unset line nodes =
      bind (parse_line t line)
        (λ result. bind (two_ends result) (λ ends. bind_found q unset ends nodes))

  -- The lines of the file, one after another.
  unfoldable create_topology : Peer → List (List ℕ) → Nodes q → Option (Nodes q)
  unfolding bind
  create_topology unset [] nodes = some nodes
  create_topology unset (line ∷ lines) nodes =
      bind (bind_by_input_line unset line nodes) (λ nodes. create_topology unset lines nodes)
