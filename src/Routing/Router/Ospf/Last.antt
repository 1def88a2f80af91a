-- ===== src/Routing/Router/Ospf/Last.antt =====
-- A3/router.cpp: the test for the end of a walk in `updateOSPF`.
use computer_network_course.Prelude.{
  ℕ, ◌+◌, ◌≡◌, ap, ◌∙◌, arith, true, false, List, [], ◌∷◌, ◌++◌, some, length, length-append,
  length-set, set, get_elem?, get_elem?-middle, leb, if_true, if_false,
}
use computer_network_course.Routing.Qt.{QHash}
use computer_network_course.Routing.Text.{QtText}
use computer_network_course.Routing.Tables.{update_lsp}
use computer_network_course.Routing.Records.{Lsp, lsp_decode, lsp_incode}
use computer_network_course.Routing.Ports.{Port, Peer, receive, take_first}
use computer_network_course.Routing.Router.{Router}
use computer_network_course.Routing.Router.Ospf.{
  lsp_back_track, advance_walk, update_ospf, answered, answer_received, answer_at, send_back,
}

module _ (q : QHash) (t : QtText) where
  advance_at_last :
      (r : Router q)
      → r.is_start_ospf ≡ false
      → length r.ports ≡ r.lsp_index + 1
      → advance_walk q t r ≡ lsp_back_track q t r
  unfolding advance_walk
  advance_at_last r start last =
      if_false _ _ r.is_start_ospf start
      ∙ if_true _ _ (leb (length r.ports) (r.lsp_index + 1)) (ground arith)

  -- The answer of the last port but one ends the walk through a router that did not start it: the one
  -- text that is sent is the record, with the answer in its table, and goes back to where the record
  -- came from. So the node behind the last port gets nothing, unless the record came in there.
  pub update_ospf_skips_last :
      (r : Router q) (before : List Port) (p z : Port) (text : List ℕ) (rest : List (List ℕ))
      (l : Lsp q) (dest : Peer)
      → r.send_ospf ≡ true
      → r.is_start_ospf ≡ false
      → r.ports ≡ before ++ p ∷ z ∷ []
      → r.lsp_index ≡ length before
      → p.buffer ≡ text ∷ rest
      → lsp_decode q t text ≡ some l
      → r.lsp_receive_port ≡ some dest
      → let (table, forwarding) =
          update_lsp q r.id l.table p.number r.lsdb.table r.forwarding_table in
        let record_now : Lsp q = record {
          table = table;
          visited_node_ids = r.lsdb.visited_node_ids;
        } in
        update_ospf q t r
        ≡ some (record {
          router = record r {
            ports = set r.ports (length before) (record p { buffer = rest });
            lsp_index = length before + 1;
            lsdb = record_now;
            forwarding_table = forwarding;
            send_ospf = false;
          };
          sends = (dest, lsp_incode q t record_now) ∷ [];
          signals = [];
        })
  unfolding update_ospf answer_at answer_received receive take_first answered lsp_back_track
      send_back
  update_ospf_skips_last r before p z text rest l dest sending start ports index buffer record_of
        back =
      let p' : Port = record p { buffer = rest } in
      let (table, forwarding) =
        update_lsp q r.id l.table p.number r.lsdb.table r.forwarding_table in
      let r' : Router q = record r {
        ports = set r.ports r.lsp_index p';
        lsp_index = r.lsp_index + 1;
        lsdb = record { table = table; visited_node_ids = r.lsdb.visited_node_ids };
        forwarding_table = forwarding;
      } in
      let at : get_elem? r.ports r.lsp_index ≡ some p =
        ap (λ x. get_elem? x r.lsp_index) ports
        ∙ ap (get_elem? (before ++ p ∷ z ∷ [])) index
        ∙ get_elem?-middle before (z ∷ []) p in
      let count : length (set r.ports r.lsp_index p') ≡ r.lsp_index + 1 + 1 =
        length-set r.ports r.lsp_index p'
        ∙ ap length ports
        ∙ omega (arith, length-append before (p ∷ z ∷ []), index) in
      if_true _ _ r.send_ospf sending
      ∙ ap (answer_at q t r) at
      ∙ ap (λ b. answer_received q t p r (take_first b p)) buffer
      ∙ ap (answered q t p p' r) record_of
      ∙ advance_at_last r' start count
      ∙ ap (λ d. send_back q t d r') back
      ∙ ap
          (λ i. some (record {
            router = record r' { ports = set r.ports i p'; lsp_index = i + 1; send_ospf = false };
            sends = (dest, lsp_incode q t r'.lsdb) ∷ [];
            signals = [];
          }))
          index
