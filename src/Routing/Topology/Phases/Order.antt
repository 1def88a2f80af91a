-- ===== src/Routing/Topology/Phases/Order.antt =====
-- A3/main.cpp: the phases come one after the other.
use computer_network_course.Prelude.{
  ℕ, zero, suc, ◌+◌, ◌≡◌, ◌⊎◌, Bool, true, false, List, [], ◌∷◌, ◌++◌, map, if◌then◌else◌, ◌==◌,
}
use computer_network_course.Routing.Topology.Schedule.{
  Slot, Calls, Draw, start_pcs, start_ebgp, turn_off_protocols, start_ibgp, positions,
}
use computer_network_course.Routing.Topology.Phases.{Main}

-- The slots that belong to a phase; the others are `update`, `printTable` and the two starts of protocols.
abbrev pub is_phase : Slot → Bool
is_phase (start_pcs dest) = true
is_phase start_ebgp = true
is_phase turn_off_protocols = true
is_phase start_ibgp = true
is_phase _ = false

unfoldable pub phases : Calls → Calls
phases [] = []
phases ((i, slot) ∷ calls) =
    let rest = phases calls in if is_phase slot then (i, slot) ∷ rest else rest

-- The call that a draw stands for.
abbrev pub call_of : Draw → ℕ × Slot
call_of d =
    if d.side == 1
    then (d.first_pc, start_pcs (d.second_pc + 1))
    else (d.second_pc, start_pcs (d.first_pc + 1))

-- The calls of the draws k, k + 1, …, n of them.
abbrev pub calls_of : (ℕ → Draw) → ℕ → ℕ → Calls
calls_of draw k zero = []
calls_of draw k (suc n) = call_of (draw k) ∷ calls_of draw (k + 1) n

abbrev pub total : List ℕ → ℕ
total [] = 0
total (n ∷ counts) = n + total counts

module _ (edges : List ℕ) (nodes : ℕ) where
  abbrev pub ends : Calls
  ends = map (λ i. (i, turn_off_protocols)) (positions 0 nodes) ++ map (λ i. (i, start_ebgp)) edges

  abbrev pub routing : Calls
  routing = map (λ i. (i, start_ibgp)) (positions 0 nodes)

  -- Where the phases stand, and what was called of them: before the end of both protocols nothing; then
  -- `turnOffProtocols` of every node and `startEBGP` of the edge routers; then `startIBGP` of every node;
  -- then `startPCs` of the drawn senders.
  pub data InPhase : Main → Type 0 where
    running :
        {m : Main}
        → m.polling ≡ true
        → m.ibgp_timer ≡ false
        → m.packets_timer ≡ false
        → m.console_timer ≡ false
        → phases m.calls ≡ []
        → InPhase m
    behind :
        {m : Main}
        → m.polling ≡ false
        → m.one.finish_flag ≡ true
        → m.two.finish_flag ≡ true
        → ((m.ibgp_timer ≡ true)
            × (m.packets_timer ≡ false)
            × (m.console_timer ≡ false)
            × (phases m.calls ≡ ends))
          ⊎ ((m.ibgp_timer ≡ false)
              × (m.packets_timer ≡ true)
              × (m.console_timer ≡ false)
              × (phases m.calls ≡ ends ++ routing))
          ⊎ ((m.ibgp_timer ≡ false)
              × (m.packets_timer ≡ false)
              × (m.console_timer ≡ true)
              × ((draw : ℕ → Draw) × (counts : List ℕ) × (phases m.calls
                    ≡ (ends ++ routing) ++ calls_of draw 0 (total counts))))
        → InPhase m
