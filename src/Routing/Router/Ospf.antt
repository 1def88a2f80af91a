-- ===== src/Routing/Router/Ospf.antt =====
-- A3/router.cpp: the walk of OSPF: `startOSPF`, `sendLsp`, `lspBackTrack`, `handleOSPFFinish` and
-- `updateOSPF`. `none` is a text that is no link-state record, an index out of
-- range, or a port that is not set.
pub mod Scan
pub mod Last
use computer_network_course.Prelude.{
  ℕ, zero, suc, ◌+◌, Bool, true, false, not, ◌&&◌, ◌||◌, List, [], ◌∷◌, ◌++◌, Option, none, some,
  length, get_elem?, set, drop, ltb, leb, ◌==◌, if◌then◌else◌,
}
use computer_network_course.Routing.Qt.{QHash, elem}
use computer_network_course.Routing.Tables.{update_lsp}
use computer_network_course.Routing.Text.{QtText}
use computer_network_course.Routing.Records.{Lsp, lsp_incode, lsp_decode}
use computer_network_course.Routing.Ports.{Port, Peer, Sends, receive}
use computer_network_course.Routing.Router.{Router, Turn, Signal, ospf_finished, still, join_turns}

-- `isNodeVisited`.
abbrev pub is_node_visited : ℕ → List ℕ → Bool
is_node_visited id visited = elem id visited

-- A neighbour that `sendLsp` sends to.
abbrev pub is_open : ℕ → List ℕ → Port → Bool
is_open as_id visited p =
    not (is_node_visited p.destination.node_id visited) && p.destination.as_id == as_id

-- The calls of `sendLsp` by itself: the index at which they end, and the port there.
unfoldable pub next_port : ℕ → List ℕ → ℕ → List Port → ℕ × Option Port
next_port as_id visited i [] = (i, none)
next_port as_id visited i (p ∷ ports) =
    let rest = next_port as_id visited (i + 1) ports in
    if is_open as_id visited p then (i, some p) else rest

module _ (q : QHash) (t : QtText) where
  open q use {Table}

  send_back : Option Peer → Router q → Option (Turn q)
  send_back none r = none
  send_back (some dest) r = some (record {
    router = record r { send_ospf = false };
    sends = (dest, lsp_incode q t r.lsdb) ∷ [];
    signals = [];
  })

  -- `lspReceivePort` is not set before a first record came in.
  unfoldable pub lsp_back_track : Router q → Option (Turn q)
  unfolding send_back
  lsp_back_track r = send_back r.lsp_receive_port r

  unfoldable pub handle_ospf_finish : Router q → Turn q
  handle_ospf_finish r = record {
    router = record r { send_ospf = false; is_start_ospf = false };
    sends = [];
    signals = ospf_finished ∷ [];
  }

  unfoldable pub send_lsp_to : Option Port → Router q → Option (Turn q)
  send_lsp_to none r = if r.is_start_ospf then some (handle_ospf_finish r) else lsp_back_track r
  send_lsp_to (some p) r =
      some
        (record { router = r; sends = (p.destination, lsp_incode q t r.lsdb) ∷ []; signals = [] })

  unfoldable pub send_lsp : Router q → Option (Turn q)
  send_lsp r =
      let (i, found) =
        next_port r.as_id r.lsdb.visited_node_ids r.lsp_index (drop r.lsp_index r.ports) in
      send_lsp_to found (record r { lsp_index = i })

  unfoldable pub start_ospf : Router q → Option (Turn q)
  start_ospf r = send_lsp (record r {
    lsdb = record { table = r.lsdb.table; visited_node_ids = r.id ∷ [] };
    is_start_ospf = true;
    lsp_index = 0;
    send_ospf = true;
  })

  -- The first branch of `updateOSPF`: a record that opens the walk at this router.
  opened : ℕ → Port → Port → Router q → Option (Lsp q) → Option (Turn q)
  opened i p p' r none = none
  opened i p p' r (some l) =
      let r' : Router q = record r {
        ports = set r.ports i p';
        lsp_index = 0;
        lsp_receive_port = some p.destination;
        send_ospf = true;
        lsdb = record { table = r.lsdb.table; visited_node_ids = l.visited_node_ids ++ r.id ∷ [] };
      } in
      if ltb 1 (length r.ports) then send_lsp r' else lsp_back_track r'

  open_received : ℕ → Port → Router q → Option (List ℕ × Port) → Option (Turn q)
  unfolding opened
  open_received i p r none = some (still q r)
  open_received i p r (some (text, p')) = opened i p p' r (lsp_decode q t text)

  open_at : ℕ → Router q → Option Port → Option (Turn q)
  unfolding open_received
  open_at i r none = some (still q r)
  open_at i r (some p) = open_received i p r (receive p)

  -- Its loop, with `n` ports left.
  unfoldable pub open_ports : ℕ → ℕ → Router q → Option (Turn q)
  unfolding open_at
  open_ports zero i r = some (still q r)
  open_ports (suc n) i r = elim (open_at i r (get_elem? r.ports i)) [
    | none ↦ none
    | some a ↦ join_turns q a (open_ports n (i + 1) a.router)
  ]

  -- The second branch, behind `lspIndex++`.
  unfoldable pub advance_walk : Router q → Option (Turn q)
  advance_walk r =
      if r.is_start_ospf
      then (if leb (length r.ports) r.lsp_index then some (handle_ospf_finish r) else send_lsp r)
      else if leb (length r.ports) (r.lsp_index + 1)
      then lsp_back_track r
      else send_lsp r

  answered : Port → Port → Router q → Option (Lsp q) → Option (Turn q)
  answered p p' r none = none
  answered p p' r (some l) =
      let (table, forwarding) =
        update_lsp q r.id l.table p.number r.lsdb.table r.forwarding_table in
      advance_walk (record r {
        ports = set r.ports r.lsp_index p';
        lsp_index = r.lsp_index + 1;
        lsdb = record { table = table; visited_node_ids = r.lsdb.visited_node_ids };
        forwarding_table = forwarding;
      })

  answer_received : Port → Router q → Option (List ℕ × Port) → Option (Turn q)
  unfolding answered
  answer_received p r none = some (still q r)
  answer_received p r (some (text, p')) = answered p p' r (lsp_decode q t text)

  answer_at : Router q → Option Port → Option (Turn q)
  unfolding answer_received
  answer_at r none = none
  answer_at r (some p) = answer_received p r (receive p)

  unfoldable pub update_ospf : Router q → Option (Turn q)
  unfolding answer_at
  update_ospf r =
      if r.send_ospf
      then answer_at r (get_elem? r.ports r.lsp_index)
      else open_ports (length r.ports) 0 r
