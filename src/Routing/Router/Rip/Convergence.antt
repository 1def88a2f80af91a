-- ===== src/Routing/Router/Rip/Convergence.antt =====
-- A3/router.cpp: when RIP comes to its end.
use computer_network_course.Prelude.{
  ℕ, ◌+◌, ◌≤◌, ◌≡◌, refl, sym, subst, ◌∙◌, append-nil, arith, Bool, true, false, not, ◌&&◌, ◌||◌,
  List, [], ◌∷◌, ◌++◌, leb, if◌then◌else◌, Bool-cases, if_true, if_false, ◌⊎◌, inl, inr,
}
use computer_network_course.Routing.Qt.{QHash}
use computer_network_course.Routing.Text.{QtText}
use computer_network_course.Routing.Ports.{Port}
use computer_network_course.Routing.Router.{Router, Signal, rip_finished}
use computer_network_course.Routing.Router.Rip.{update_rip, finish_rip, hear}

module _ (q : QHash) (t : QtText) where
  -- What the buffers of a router become while it waits for its turn.
  abbrev pub with_ports : Router q → List Port → Router q
  with_ports r ports = record r { ports = ports }

  -- The turns of `updateRIP` while `isRIPstart` holds, each behind a change of the buffers; the signals.
  unfoldable pub rip_turns : List (List Port) → Router q → Router q × List Signal
  rip_turns [] r = (r, [])
  rip_turns (ports ∷ rest) r =
      let turn = update_rip q t (with_ports r ports) in
      let (r', signals) = rip_turns rest turn.router in
      if r.is_rip_start then (r', turn.signals ++ signals) else (r, [])

  -- Still running.
  pub record IsRunning (r : Router q) : Type 0 where
    pub counted : r.is_rip_finished ≡ leb 5 r.rip_convergence_condition
    pub unsignalled : r.rip_finish_signal_emited ≡ false
    pub runs : r.is_rip_start ≡ true

  -- Just stopped, by a signal.
  pub record IsStopped (r : Router q) : Type 0 where
    pub counted : 5 ≤ r.rip_convergence_condition
    pub signalled : r.rip_finish_signal_emited ≡ true
    pub stopped : r.is_rip_start ≡ false

  abbrev pub Ended : Router q × List Signal → Type 0
  Ended (r, signals) =
      (IsRunning r × (signals ≡ [])) ⊎ (IsStopped r × (signals ≡ rip_finished ∷ []))

  finish_rip-Ended :
      (r : Router q) → IsRunning r → Ended ((finish_rip q t r).router, (finish_rip q t r).signals)
  unfolding finish_rip
  finish_rip-Ended r h = elim (Bool-cases r.is_rip_finished) [
    | inl done ↦ inr (ground arith)
    | inr going ↦ inl (ground arith)
  ]

  counted_on :
      (finished up : Bool) (n : ℕ)
      → finished ≡ leb 5 n
      → (finished || leb 5 (if up then n + 1 else n)) ≡ leb 5 (if up then n + 1 else n)
  counted_on finished up n h = ground arith

  pub update_rip-Ended :
      (r : Router q) → IsRunning r → Ended ((update_rip q t r).router, (update_rip q t r).signals)
  unfolding update_rip
  update_rip-Ended r h = finish_rip-Ended _ (record {
    counted =
        counted_on r.is_rip_finished ((hear q t r).1.any_receive && not (hear q t r).1.any_changed)
          r.rip_convergence_condition h.counted;
    unsignalled = h.unsignalled;
    runs = h.runs;
  })

  pub stopped_turns :
      (inputs : List (List Port)) (r : Router q)
      → r.is_rip_start ≡ false
      → rip_turns inputs r ≡ (r, [])
  unfolding rip_turns
  stopped_turns [] r h = refl
  stopped_turns (ports ∷ rest) r h = if_false _ _ r.is_rip_start h

  -- A router that runs RIP has either given no signal and still runs, or given one and stopped.
  pub rip_turns-Ended :
      (inputs : List (List Port)) (r : Router q) → IsRunning r → Ended (rip_turns inputs r)
  unfolding rip_turns
  rip_turns-Ended [] r h = inl (h, refl)
  rip_turns-Ended (ports ∷ rest) r h =
      let turn = update_rip q t (with_ports r ports) in
      subst Ended (sym (if_true _ _ r.is_rip_start h.runs))
        (elim (update_rip-Ended (with_ports r ports)
          (record { counted = h.counted; unsignalled = h.unsignalled; runs = h.runs })) [
            | inl (running, none_yet) ↦
                subst
                  (λ l. Ended ((rip_turns rest turn.router).0, l ++ (rip_turns rest turn.router).1))
                  (sym none_yet) (rip_turns-Ended rest turn.router running)
            | inr (stopped, one) ↦
                subst (λ x. Ended (x.0, turn.signals ++ x.1))
                  (sym (stopped_turns rest turn.router stopped.stopped))
                  (inr (stopped, append-nil turn.signals ∙ one))
          ])
