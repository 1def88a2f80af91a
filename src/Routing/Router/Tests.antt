-- ===== src/Routing/Router/Tests.antt =====
-- The theorems about one router, with association lists for tables and texts of codes.
use computer_network_course.Prelude.{set, ℕ, ◌≡◌, ◌⊎◌, refl, true, false, List, [], ◌∷◌, some}
use computer_network_course.Routing.Qt.Assoc.{assoc, find}
use computer_network_course.Routing.Text.Plain.{plain}
use computer_network_course.Routing.Records.{Lsp, rip_incode, rip_decode, lsp_incode, lsp_decode}
use computer_network_course.Routing.Records.RoundTrip.{rip_decode-rip_incode, lsp_decode-lsp_incode}
use computer_network_course.Routing.Ports.{Port, Peer}
use computer_network_course.Routing.Router.{Router, ospf_protocol, rip_finished}
use computer_network_course.Routing.Router.Rip.Convergence.{rip_turns, IsRunning, IsStopped}
use computer_network_course.Routing.Router.Rip.Quiet.{Quiets}
use computer_network_course.Routing.Router.Rip.Counting.{rip_turns-Quiets}
use computer_network_course.Routing.Router.Ospf.{update_ospf}
use computer_network_course.Routing.Tables.{update_lsp}
use computer_network_course.Routing.Router.Ospf.Last.{update_ospf_skips_last}

rip_decode-rip_incode_example :
    find (rip_decode assoc plain (rip_incode assoc plain ((2, 1) ∷ (3, 14) ∷ []))) 3
    ≡ find ((2, 1) ∷ (3, 14) ∷ []) 3
rip_decode-rip_incode_example = rip_decode-rip_incode assoc plain ((2, 1) ∷ (3, 14) ∷ []) 3

abbrev record_two : Lsp assoc
record_two = record { table = (2, 1) ∷ (3, 14) ∷ []; visited_node_ids = 1 ∷ 2 ∷ [] }

abbrev port_of : ℕ → ℕ → List (List ℕ) → Port
port_of number b buffer = record {
  number = number;
  node_id = 5;
  as_id = 1;
  destination = record { node_id = b; as_id = 1; number = 1 };
  buffer = buffer;
}

-- Router 5 with three neighbours, in a walk that came from the first of them.
abbrev three : List Port
three = port_of 1 2 [] ∷ port_of 2 3 (lsp_incode assoc plain record_two ∷ []) ∷ port_of 3 4 [] ∷ []

abbrev walking : Router assoc
walking = record {
  id = 5;
  as_id = 1;
  protocol_type = ospf_protocol;
  ports = three;
  forwarding_table = [];
  lsdb = record { table = []; visited_node_ids = 2 ∷ 5 ∷ [] };
  distance_vector = [];
  is_start_ospf = false;
  lsp_index = 1;
  lsp_receive_port = some (record { node_id = 2; as_id = 1; number = 1 });
  send_ospf = true;
  is_rip_finished = false;
  rip_convergence_condition = 0;
  rip_finish_signal_emited = false;
  is_rip_start = true;
  is_ospf_start = true;
  is_ebgp = false;
}

record_two_read :
    (r : Lsp assoc) × (lsp_decode assoc plain (lsp_incode assoc plain record_two) ≡ some r)
record_two_read = let (r, e, visited, same) = lsp_decode-lsp_incode assoc plain record_two in (r, e)

abbrev met : Peer
met = record { node_id = 2; as_id = 1; number = 1 }

update_ospf_skips_last_example :
    let (table, forwarding) = update_lsp assoc 5 record_two_read.0.table 2 [] [] in
    let record_now : Lsp assoc = record { table = table; visited_node_ids = 2 ∷ 5 ∷ [] } in
    update_ospf assoc plain walking
    ≡ some (record {
      router = record walking {
        ports = set three 1 (port_of 2 3 []);
        lsp_index = 2;
        lsdb = record_now;
        forwarding_table = forwarding;
        send_ospf = false;
      };
      sends = (met, lsp_incode assoc plain record_now) ∷ [];
      signals = [];
    })
update_ospf_skips_last_example =
    update_ospf_skips_last assoc plain walking (port_of 1 2 [] ∷ [])
      (port_of 2 3 (lsp_incode assoc plain record_two ∷ [])) (port_of 3 4 [])
      (lsp_incode assoc plain record_two) [] record_two_read.0 met refl refl refl refl refl
      record_two_read.1 refl

-- A text at one port, the same for five turns.
abbrev five_texts : List (List Port)
five_texts = let ports = port_of 2 3 ([] ∷ []) ∷ [] in ports ∷ ports ∷ ports ∷ ports ∷ ports ∷ []

rip_turns-Quiets_example :
    (IsRunning assoc plain (rip_turns assoc plain five_texts walking).0
      × ((rip_turns assoc plain five_texts walking).1 ≡ [])
      × (¬ Quiets assoc plain 5 five_texts walking))
    ⊎ (IsStopped assoc plain (rip_turns assoc plain five_texts walking).0
        × ((rip_turns assoc plain five_texts walking).1 ≡ rip_finished ∷ [])
        × Quiets assoc plain 5 five_texts walking)
rip_turns-Quiets_example =
    rip_turns-Quiets assoc plain five_texts walking
      (record { counted = refl; unsignalled = refl; runs = refl }) refl
