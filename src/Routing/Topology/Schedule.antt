-- ===== src/Routing/Topology/Schedule.antt =====
-- A3/main.cpp: which slots of which nodes are called, and in which order. A queued call is the position
-- of its node with the slot; random numbers come from outside.
pub mod Draws
pub mod Packets
pub mod Walk
use mathlib.Core.Option.{bind}
use computer_network_course.Prelude.{
  ℕ, zero, suc, ◌+◌, ◌-◌, ◌≡◌, Bool, true, false, ◌&&◌, ◌||◌, List, [], ◌∷◌, ◌++◌, map, Option,
  none, some, ◌==◌, leb, ltb, if◌then◌else◌,
}
use computer_network_course.Prelude.Text.{codes, same_text}
use computer_network_course.Routing.Qt.{QHash}
use computer_network_course.Routing.Ports.{Port}
use computer_network_course.Routing.Router.{rip_protocol, ospf_protocol}
use computer_network_course.Routing.Topology.{Nodes, initialize_routers, initialize_pcs}

pub data Slot : Type 0 where
  start_protocol start_pcs : ℕ → Slot
  print_table start_ebgp turn_off_protocols start_ibgp update : Slot

abbrev pub Calls : Type 0
Calls = List (ℕ × Slot)

-- The positions from one on.
abbrev pub positions : ℕ → ℕ → List ℕ
positions start zero = []
positions start (suc n) = start ∷ positions (start + 1) n

-- One slot of every node, by the number of the nodes.
abbrev pub call_all : Slot → ℕ → Calls
call_all slot count = map (λ i. (i, slot)) (positions 0 count)

unfoldable pub update_nodes : ℕ → Calls
update_nodes count = call_all update count

unfoldable pub rip_run : ℕ → ℕ → Calls
rip_run as_id count = call_all (start_protocol as_id) count

unfoldable pub finish_in_as_protocols : ℕ → Calls
finish_in_as_protocols count = call_all turn_off_protocols count

unfoldable pub send_ibgp : ℕ → Calls
send_ibgp count = call_all start_ibgp count

unfoldable pub send_ebgp : List ℕ → Calls
send_ebgp edge_routers = map (λ i. (i, start_ebgp)) edge_routers

-- The walk of OSPF over the routers of a system: what was called, and the flag.
pub record Chain : Type 0 where
  pub index : ℕ
  pub calls : Calls
  pub finish_flag : Bool

-- `runOSPFOnNodesSequentially` at an index.
unfoldable pub run_ospf_on_nodes : ℕ → ℕ → ℕ → Chain → Chain
run_ospf_on_nodes count as_id start c =
    if leb (count + start) c.index
    then record c { calls = c.calls ++ (start, print_table) ∷ []; finish_flag = true }
    else record c { calls = c.calls ++ (c.index, start_protocol as_id) ∷ [] }

-- The node of the index emits `OSPFFinished`.
unfoldable pub on_ospf_finished : ℕ → ℕ → ℕ → Chain → Chain
on_ospf_finished count as_id start c =
    run_ospf_on_nodes count as_id start (record c { index = c.index + 1 })

-- How `main` starts the protocol of a system: RIP at every node, OSPF at the first router.
unfoldable pub start_system : ℕ → ℕ → ℕ → ℕ → ℕ → Calls
unfolding rip_run run_ospf_on_nodes
start_system protocol as_id start count nodes =
    let chain =
      run_ospf_on_nodes count as_id start
        (record { index = start; calls = []; finish_flag = false }) in
    if protocol == rip_protocol then rip_run as_id nodes else chain.calls

-- A tick of the timer of `finishProtocolTimer`, and whether it was the last one; `startIBGP` follows by
-- another timer.
unfoldable pub finish_protocol : Bool → Bool → List ℕ → ℕ → Calls × Bool
unfolding finish_in_as_protocols send_ebgp
finish_protocol one two edge_routers count =
    if one && two
    then (finish_in_as_protocols count ++ send_ebgp edge_routers, true)
    else ([], false)

-- The loop of `generatePoissonNumbers` on what the distribution draws: `none` is a list of draws that
-- is not long enough.
unfoldable pub generate_poisson_numbers : ℕ → ℕ → List ℕ → Option (List ℕ)
unfolding bind
generate_poisson_numbers top zero draws = some []
generate_poisson_numbers top (suc n) [] = none
generate_poisson_numbers top (suc n) (num ∷ draws) =
    let again = generate_poisson_numbers top (suc n) draws in
    let taken = bind (generate_poisson_numbers top n draws) (λ numbers. some (num ∷ numbers)) in
    if ltb num 1 || ltb top num then again else taken

-- `counts[num - 1]++`.
unfoldable pub increment : ℕ → List ℕ → List ℕ
increment i [] = []
increment zero (n ∷ counts) = (n + 1) ∷ counts
increment (suc i) (n ∷ counts) = n ∷ increment i counts

unfoldable pub count_all : ℕ → List ℕ → List ℕ → List ℕ
unfolding increment
count_all top [] counts = counts
count_all top (num ∷ input) counts =
    count_all top input (if leb 1 num && leb num top then increment (num - 1) counts else counts)

abbrev pub zeros : ℕ → List ℕ
zeros zero = []
zeros (suc n) = 0 ∷ zeros n

-- The counts of the numbers from 1 to `top`.
unfoldable pub count_occurrences : ℕ → List ℕ → List ℕ
count_occurrences top input = count_all top input (zeros top)

-- What `selectPCtoSend` draws: one PC of each system, and 1 for the first as the sender.
pub record Draw : Type 0 where
  pub first_pc : ℕ
  pub second_pc : ℕ
  pub side : ℕ

unfoldable pub select_pc_to_send : Draw → ℕ × ℕ
select_pc_to_send d = if d.side == 1 then (d.first_pc, d.second_pc) else (d.second_pc, d.first_pc)

-- The inner loop of `sendFromPC`, from the draw of a number on.
unfoldable pub send_times : (ℕ → Draw) → ℕ → ℕ → Calls
send_times draw k zero = []
send_times draw k (suc n) =
    let ids = select_pc_to_send (draw k) in
    (ids.0, start_pcs (ids.1 + 1)) ∷ send_times draw (k + 1) n

unfoldable pub send_from_pc : (ℕ → Draw) → ℕ → List ℕ → Calls
unfolding send_times
send_from_pc draw k [] = []
send_from_pc draw k (cnt ∷ counts) = send_times draw k cnt ++ send_from_pc draw (k + cnt) counts

-- What `getInputProtocolTypes` makes of an answer, trimmed and in upper case; `none` ends the program.
unfoldable pub protocol_of : List ℕ → Option ℕ
protocol_of answer =
    if same_text answer (codes "RIP")
    then some rip_protocol
    else if same_text answer (codes "OSPF")
    then some ospf_protocol
    else none

-- The check of an id in `printRouterTables`, with `ok` of `toInt`.
unfoldable pub print_router_table : Bool → ℕ → Calls
print_router_table ok id = if ok && ltb 0 id && leb id 24 then (id - 1, print_table) ∷ [] else []

abbrev pub max_number_of_packets : ℕ
max_number_of_packets = 30

-- `nodes` of `main`, with `node::ID`: 16 and 8 routers, then 8 and 5 PCs.
unfoldable pub main_nodes : (q : QHash) → Port → ℕ → ℕ → ℕ × Nodes q
unfolding initialize_routers initialize_pcs
main_nodes q unset one two = initialize_pcs q unset 5 3 (
    initialize_pcs q unset 8 3
      (initialize_routers q two 8 2 (initialize_routers q one 16 1 (0, []))))
