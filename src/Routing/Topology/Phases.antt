-- ===== src/Routing/Topology/Phases.antt =====
-- A3/main.cpp: the timers and signals of `main` behind the start, as steps in any order. A single-shot
-- timer is a flag that says whether it is set.
pub mod Order
use computer_network_course.Prelude.{ℕ, ◌+◌, ◌≡◌, ◌≢◌, Bool, true, false, not, List, [], ◌∷◌, ◌++◌}
use computer_network_course.Routing.Router.{rip_protocol}
use computer_network_course.Routing.Topology.Schedule.{
  Calls, print_table, Draw, Chain, update_nodes, rip_run, on_ospf_finished, run_ospf_on_nodes,
  finish_protocol, send_ibgp, send_from_pc, print_router_table,
}

-- What `main` fixes of a system: its number, the position of its first router, how many there are, and
-- the protocol.
pub record Plan : Type 0 where
  pub as_id : ℕ
  pub start : ℕ
  pub count : ℕ
  pub protocol : ℕ

-- The flag of a system, the position that its walk of OSPF has come to, and the timer of `setupRipRun`.
pub record System : Type 0 where
  pub finish_flag : Bool
  pub index : ℕ
  pub rip_timer : Bool

-- `polling` is the timer of `finishProtocolTimer`; `console` is `printRouterTables`.
pub record Main : Type 0 where
  pub one : System
  pub two : System
  pub polling : Bool
  pub ibgp_timer : Bool
  pub packets_timer : Bool
  pub console_timer : Bool
  pub calls : Calls

unfoldable pub queue : Calls → Main → Main
queue calls m = record m { calls = m.calls ++ calls }

-- The timer of `setupRipRun`.
unfoldable pub rip_timeout : ℕ → Plan → System → System × Calls
unfolding rip_run
rip_timeout nodes p s = (record s { rip_timer = false }, rip_run p.as_id nodes)

-- `RIPFinished` of the first router.
unfoldable pub rip_finished : Plan → System → System × Calls
rip_finished p s = (record s { finish_flag = true }, (p.start, print_table) ∷ [])

-- `OSPFFinished` of the router that the walk has come to.
unfoldable pub ospf_finished : Plan → System → System × Calls
unfolding on_ospf_finished
ospf_finished p s =
    let c =
      on_ospf_finished p.count p.as_id p.start
        (record { index = s.index; calls = []; finish_flag = s.finish_flag }) in
    (record s { index = c.index; finish_flag = c.finish_flag }, c.calls)

unfoldable pub at_one : System × Calls → Main → Main
unfolding queue
at_one (s, calls) m = queue calls (record m { one = s })

unfoldable pub at_two : System × Calls → Main → Main
unfolding queue
at_two (s, calls) m = queue calls (record m { two = s })

-- A tick of the timer of `finishProtocolTimer`.
unfoldable pub tick : List ℕ → ℕ → Main → Main
unfolding queue finish_protocol
tick edges nodes m =
    let (calls, last) = finish_protocol m.one.finish_flag m.two.finish_flag edges nodes in
    queue calls (record m { polling = not last; ibgp_timer = last })

unfoldable pub ibgp_timeout : ℕ → Main → Main
unfolding queue send_ibgp
ibgp_timeout nodes m =
    queue (send_ibgp nodes) (record m { ibgp_timer = false; packets_timer = true })

-- The random numbers are those of `countOccurrences` and `selectPCtoSend`.
unfoldable pub packets_timeout : (ℕ → Draw) → List ℕ → Main → Main
unfolding queue send_from_pc
packets_timeout draw counts m =
    queue (send_from_pc draw 0 counts) (record m { packets_timer = false; console_timer = true })

module _ (edges : List ℕ) (nodes : ℕ) (p1 p2 : Plan) where
  -- Signals and timers; `updates` is the repeating timer of `setupRepeatingTimer`, `prints` a line at the
  -- console.
  pub data Step : Main → Main → Type 0 where
    updates : (m : Main) → Step m (queue (update_nodes nodes) m)
    rip_one : (m : Main) → m.one.rip_timer ≡ true → Step m (at_one (rip_timeout nodes p1 m.one) m)
    rip_two : (m : Main) → m.two.rip_timer ≡ true → Step m (at_two (rip_timeout nodes p2 m.two) m)
    rip_ends_one :
        (m : Main) → p1.protocol ≡ rip_protocol → Step m (at_one (rip_finished p1 m.one) m)
    rip_ends_two :
        (m : Main) → p2.protocol ≡ rip_protocol → Step m (at_two (rip_finished p2 m.two) m)
    ospf_ends_one :
        (m : Main) → p1.protocol ≢ rip_protocol → Step m (at_one (ospf_finished p1 m.one) m)
    ospf_ends_two :
        (m : Main) → p2.protocol ≢ rip_protocol → Step m (at_two (ospf_finished p2 m.two) m)
    ticks : (m : Main) → m.polling ≡ true → Step m (tick edges nodes m)
    routes : (m : Main) → m.ibgp_timer ≡ true → Step m (ibgp_timeout nodes m)
    sends :
        (m : Main) (draw : ℕ → Draw) (counts : List ℕ)
        → m.packets_timer ≡ true
        → Step m (packets_timeout draw counts m)
    prints :
        (m : Main) (ok : Bool) (id : ℕ)
        → m.console_timer ≡ true
        → Step m (queue (print_router_table ok id) m)

  pub data Reach (s : Main) : Main → Type 0 where
    here : Reach s s
    next : {m u : Main} → Reach s m → Step m u → Reach s u
