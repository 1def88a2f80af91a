-- ===== src/Routing/Router/Slots.antt =====
-- A3/router.cpp: the slots `update`, `startProtocol`, `startEBGP`, `turnOffProtocols` and `startIBGP`.
use computer_network_course.Prelude.{
  ℕ, true, false, ◌&&◌, List, [], Option, none, some, ◌==◌, if◌then◌else◌,
}
use computer_network_course.Routing.Qt.{QHash}
use computer_network_course.Routing.Tables.Ibgp.{start_ibgp}
use computer_network_course.Routing.Text.{QtText}
use computer_network_course.Routing.Records.{rip_incode}
use computer_network_course.Routing.Ports.{Port, start_ebgp}
use computer_network_course.Routing.Router.{Router, Turn, still, rip_protocol, ospf_protocol}
use computer_network_course.Routing.Router.Rip.{start_rip, update_rip}
use computer_network_course.Routing.Router.Ospf.{start_ospf, update_ospf}
use computer_network_course.Routing.Router.Traffic.{update_forwarding, age_ports}

module _ (q : QHash) (t : QtText) where
  -- A protocol that is neither only prints.
  unfoldable pub start_protocol : ℕ → Router q → Option (Turn q)
  start_protocol as_id r =
      if r.as_id == as_id
      then (if r.protocol_type == ospf_protocol
          then start_ospf q t r
          else if r.protocol_type == rip_protocol
          then some (start_rip q t r)
          else some (still q r))
      else some (still q r)

  unfoldable pub with_ports : Turn q → Option (List Port) → Option (Turn q)
  with_ports a none = none
  with_ports a (some ports) = some (record a { router = record a.router { ports = ports } })

  unfoldable pub age_turn : Option (Turn q) → Option (Turn q)
  unfolding with_ports
  age_turn none = none
  age_turn (some a) = with_ports a (age_ports q t a.router.ports)

  unfoldable pub update : Router q → Option (Turn q)
  unfolding age_turn
  update r =
      if r.protocol_type == ospf_protocol && r.is_ospf_start
      then update_ospf q t r
      else if r.protocol_type == rip_protocol && r.is_rip_start
      then some (update_rip q t r)
      else age_turn (update_forwarding q t r)

  unfoldable pub open_ebgp : Router q → Turn q
  open_ebgp r = record {
    router = record r { is_ebgp = true };
    sends = start_ebgp r.as_id (rip_incode q t r.distance_vector) r.ports;
    signals = [];
  }

  unfoldable pub turn_off_protocols : Router q → Router q
  turn_off_protocols r = record r {
    is_ospf_start = false;
    is_rip_start = false;
    distance_vector = if r.protocol_type == ospf_protocol then r.lsdb.table else r.distance_vector;
  }

  unfoldable pub route_ibgp : Router q → Router q
  route_ibgp r =
      let (costs, forwarding) =
        start_ibgp q r.is_ebgp r.as_id r.distance_vector r.forwarding_table in
      record r { distance_vector = costs; forwarding_table = forwarding }
