-- ===== src/Routing/Router/Rip.antt =====
-- A3/router.cpp: `startRIP`, `updateRIP` and `sendRip`.
pub mod Convergence
pub mod Quiet
pub mod Counting
use computer_network_course.Prelude.{
  ℕ, zero, suc, ◌+◌, Bool, true, false, not, ◌&&◌, ◌||◌, List, [], ◌∷◌, ◌++◌, Option, none, some,
  leb, ◌==◌, if◌then◌else◌,
}
use computer_network_course.Routing.Qt.{QHash}
use computer_network_course.Routing.Tables.{Tables, update_distance_vector}
use computer_network_course.Routing.Text.{QtText}
use computer_network_course.Routing.Records.{rip_incode, rip_decode}
use computer_network_course.Routing.Ports.{Port, Sends, receive, send_rip}
use computer_network_course.Routing.Router.{Router, Turn, Signal, rip_finished, still}

module _ (q : QHash) (t : QtText) where
  open q use {Table}

  unfoldable pub send_table : Router q → Sends
  send_table r = send_rip r.as_id (rip_incode q t r.distance_vector) r.ports

  unfoldable pub start_rip : Router q → Turn q
  start_rip r = record {
    router = record r {
      is_rip_start = true;
      is_rip_finished = false;
      rip_convergence_condition = 0;
      rip_finish_signal_emited = false;
    };
    sends = send_table r;
    signals = [];
  }

  -- The two tables and the two flags of `updateRIP`, as its loop goes over the ports.
  pub record Heard : Type 0 where
    pub costs : Table
    pub forwarding : Table
    pub any_receive : Bool
    pub any_changed : Bool

  unfoldable pub hear_text : ℕ → Option (List ℕ × Port) → Port → Heard → Port × Heard
  hear_text id none p h = (p, h)
  hear_text id (some (text, p')) p h =
      let s = update_distance_vector q id (rip_decode q t text) p.number h.costs h.forwarding in
      (
        p',
        record {
          costs = s.costs;
          forwarding = s.forwarding;
          any_receive = true;
          any_changed = h.any_changed || s.changed;
        },
      )

  -- The loop's body.
  unfoldable pub hear_port : ℕ → Port → Heard → Port × Heard
  unfolding hear_text
  hear_port id p h = hear_text id (receive p) p h

  unfoldable pub hear_ports : ℕ → List Port → Heard → List Port × Heard
  hear_ports id [] h = ([], h)
  hear_ports id (p ∷ ports) h =
      let (p', h') = hear_port id p h in
      let (ports', h'') = hear_ports id ports h' in (p' ∷ ports', h'')

  abbrev pub hear : Router q → List Port × Heard
  hear r = hear_ports r.id r.ports (record {
    costs = r.distance_vector;
    forwarding = r.forwarding_table;
    any_receive = false;
    any_changed = false;
  })

  -- `updateRIP` behind its loop.
  unfoldable pub finish_rip : Router q → Turn q
  finish_rip r =
      if not r.is_rip_finished
      then record { router = r; sends = send_table r; signals = [] }
      else if not r.rip_finish_signal_emited
      then record {
        router = record r { rip_finish_signal_emited = true; is_rip_start = false };
        sends = [];
        signals = rip_finished ∷ [];
      }
      else still q r

  unfoldable pub update_rip : Router q → Turn q
  update_rip r =
      let (ports, h) = hear r in
      let quiet =
        if h.any_receive && not h.any_changed
        then r.rip_convergence_condition + 1
        else r.rip_convergence_condition in
      finish_rip (record r {
        ports = ports;
        distance_vector = h.costs;
        forwarding_table = h.forwarding;
        rip_convergence_condition = quiet;
        is_rip_finished = r.is_rip_finished || leb 5 quiet;
      })
