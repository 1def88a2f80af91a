-- ===== src/Routing/Router/Rip/Counting.antt =====
-- A3/router.cpp: `updateRIP` counts just the turns that bring a text and change nothing.
use mathlib.Core.Bool.{true≢false}
use computer_network_course.Prelude.{
  ℕ, zero, suc, ◌+◌, ◌-◌, ◌≤◌, ◌≡◌, ◌≢◌, refl, sym, ap, subst, ◌∙◌, arith, true, false, not, List,
  [], ◌∷◌, Option, none, some, min, ◌==◌, ==_iff, if_false, if◌then◌else◌, Bool-cases, if_true, ◌⊎◌,
  inl, inr, ◌&&◌, ap₂,
}
use computer_network_course.Routing.Qt.{QHash}
use computer_network_course.Routing.Text.{QtText}
use computer_network_course.Routing.Tables.{update_distance_vector}
use computer_network_course.Routing.Tables.Merge.{merge, improves, update_merges, changed_iff}
use computer_network_course.Routing.Records.{rip_decode}
use computer_network_course.Routing.Ports.{Port, receive, take_first}
use computer_network_course.Routing.Router.{Router, Signal, rip_finished}
use computer_network_course.Routing.Router.Rip.{
  Heard, hear_text, hear_port, hear_ports, update_rip, finish_rip,
}
use computer_network_course.Routing.Router.Rip.Convergence.{
  with_ports, rip_turns, IsRunning, IsStopped, update_rip-Ended, rip_turns-Ended, stopped_turns,
}
use computer_network_course.Routing.Router.Rip.Quiet.{
  HasText, IsQuiet, Quiets, turn_parts, turn_counts, stopped_quiet,
}

-- The new cost is no worse.
abbrev AtMost : Option ℕ → Option ℕ → Type 0
AtMost new none = Unit
AtMost none (some m) = ⊥
AtMost (some n) (some m) = n ≤ m

AtMost-refl : (a : Option ℕ) → AtMost a a
AtMost-refl none = tt
AtMost-refl (some n) = omega arith

AtMost-trans : (a b c : Option ℕ) → AtMost a b → AtMost b c → AtMost a c
AtMost-trans a b none h k = tt
AtMost-trans a none (some m) h k = absurd k
AtMost-trans none (some n) (some m) h k = absurd h
AtMost-trans (some l) (some n) (some m) h k = omega arith

AtMost-antisym : (a b : Option ℕ) → AtMost a b → AtMost b a → a ≡ b
AtMost-antisym none none h k = refl
AtMost-antisym none (some n) h k = absurd h
AtMost-antisym (some n) none h k = absurd k
AtMost-antisym (some n) (some m) h k = ap some (omega arith)

merge-AtMost : (old received : Option ℕ) → AtMost (merge old received) old
merge-AtMost old none = AtMost-refl old
merge-AtMost none (some n) = tt
merge-AtMost (some m) (some n) = ground arith

improves_differs :
    (old received : Option ℕ) → improves old received ≡ true → merge old received ≢ old
improves_differs old none e same = true≢false (sym e)
improves_differs none (some n) e same = cc
improves_differs (some m) (some n) e same =
    let lower : min m (n + 1) ≡ m = ground arith in ground arith

module _ (q : QHash) (t : QtText) where
  open q use {Table, find}

  update-AtMost :
      (id : ℕ) (received : Table) (port : ℕ) (costs forwarding : Table) (j : ℕ)
      → AtMost
          (find (update_distance_vector q id received port costs forwarding).costs j)
          (find costs j)
  update-AtMost id received port costs forwarding j =
      subst (λ x. AtMost x (find costs j))
        (sym (update_merges q id received port costs forwarding j).0)
        (elim (Bool-cases (j == id))
          as (λ x.
            AtMost (if j == id then find costs j else merge (find costs j) (find received j))
              (find costs j)) [
                | inl own ↦ rw own (AtMost-refl (find costs j))
                | inr other ↦ rw other (merge-AtMost (find costs j) (find received j))
              ])

  update_same :
      (id : ℕ) (received : Table) (port : ℕ) (costs forwarding : Table)
      → ((j : ℕ)
          → find (update_distance_vector q id received port costs forwarding).costs j
            ≡ find costs j)
      → (update_distance_vector q id received port costs forwarding).changed ≡ false
  update_same id received port costs forwarding same =
      elim (Bool-cases (update_distance_vector q id received port costs forwarding).changed) [
        | inr still_so ↦ still_so
        | inl up ↦
            let (j, other, better) = (changed_iff q id received port costs forwarding).0 up in
            absurd (
              improves_differs (find costs j) (find received j) better (
                sym (
                  if_false _ _ (j == id) (elim (Bool-cases (j == id)) [
                    | inl own ↦ absurd (other ((==_iff j id).0 own))
                    | inr off ↦ off
                  ]))
                ∙ sym (update_merges q id received port costs forwarding j).0
                ∙ same j))
      ]

  hear_text-AtMost :
      (id : ℕ) (o : Option (List ℕ × Port)) (p : Port) (h : Heard q t) (j : ℕ)
      → AtMost (find (hear_text q t id o p h).1.costs j) (find h.costs j)
  unfolding hear_text
  hear_text-AtMost id none p h j = AtMost-refl (find h.costs j)
  hear_text-AtMost id (some (text, p')) p h j =
      update-AtMost id (rip_decode q t text) p.number h.costs h.forwarding j

  hear_ports-AtMost :
      (id : ℕ) (ports : List Port) (h : Heard q t) (j : ℕ)
      → AtMost (find (hear_ports q t id ports h).1.costs j) (find h.costs j)
  unfolding hear_ports hear_port
  hear_ports-AtMost id [] h j = AtMost-refl (find h.costs j)
  hear_ports-AtMost id (p ∷ ports) h j =
      AtMost-trans _ _ _ (hear_ports-AtMost id ports (hear_port q t id p h).1 j)
        (hear_text-AtMost id (receive p) p h j)

  hear_text_same :
      (id : ℕ) (o : Option (List ℕ × Port)) (p : Port) (h : Heard q t)
      → h.any_changed ≡ false
      → ((j : ℕ) → find (hear_text q t id o p h).1.costs j ≡ find h.costs j)
      → (hear_text q t id o p h).1.any_changed ≡ false
  unfolding hear_text
  hear_text_same id none p h e same = e
  hear_text_same id (some (text, p')) p h e same =
      let none_up = update_same id (rip_decode q t text) p.number h.costs h.forwarding same in
      rw (e, none_up) refl

  hear_ports_same :
      (id : ℕ) (ports : List Port) (h : Heard q t)
      → h.any_changed ≡ false
      → ((j : ℕ) → find (hear_ports q t id ports h).1.costs j ≡ find h.costs j)
      → (hear_ports q t id ports h).1.any_changed ≡ false
  unfolding hear_ports hear_port
  hear_ports_same id [] h e same = e
  hear_ports_same id (p ∷ ports) h e same =
      let h' = (hear_text q t id (receive p) p h).1 in
      let first : (j : ℕ) → find h'.costs j ≡ find h.costs j = λ j.
        AtMost-antisym _ _ (hear_text-AtMost id (receive p) p h j)
          (subst (λ x. AtMost x (find h'.costs j)) (same j) (hear_ports-AtMost id ports h' j)) in
      hear_ports_same id ports h' (hear_text_same id (receive p) p h e first)
        (λ j. same j ∙ sym (first j))

  hear_text_heard :
      (id : ℕ) (o : Option (List ℕ × Port)) (p : Port) (h : Heard q t)
      → (h.any_receive ≡ true) ⊎ (o ≢ none)
      → (hear_text q t id o p h).1.any_receive ≡ true
  unfolding hear_text
  hear_text_heard id none p h (inl e) = e
  hear_text_heard id none p h (inr e) = absurd (e refl)
  hear_text_heard id (some x) p h e = refl

  take_first_some : (texts : List (List ℕ)) (p : Port) → texts ≢ [] → take_first texts p ≢ none
  unfolding take_first
  take_first_some [] p e same = e refl
  take_first_some (text ∷ rest) p e same = cc

  hear_ports_heard :
      (id : ℕ) (ports : List Port) (h : Heard q t)
      → (h.any_receive ≡ true) ⊎ HasText ports
      → (hear_ports q t id ports h).1.any_receive ≡ true
  unfolding hear_ports hear_port receive
  hear_ports_heard id [] h (inl e) = e
  hear_ports_heard id [] h (inr e) = absurd e
  hear_ports_heard id (p ∷ ports) h (inl e) =
      hear_ports_heard id ports _ (inl (hear_text_heard id (receive p) p h (inl e)))
  hear_ports_heard id (p ∷ ports) h (inr (inl e)) =
      hear_ports_heard id ports _
        (inl (hear_text_heard id (receive p) p h (inr (take_first_some p.buffer p e))))
  hear_ports_heard id (p ∷ ports) h (inr (inr e)) = hear_ports_heard id ports _ (inr e)

  -- A quiet turn counts.
  quiet_counts :
      (r : Router q) (ports : List Port)
      → IsQuiet q t r ports
      → (update_rip q t (with_ports q t r ports)).router.rip_convergence_condition
        ≡ r.rip_convergence_condition + 1
  quiet_counts r ports (text, same) =
      let (costs, counter) = turn_parts q t r ports in
      counter
      ∙ ap₂
          (λ a b.
            if a && not b then r.rip_convergence_condition + 1 else r.rip_convergence_condition)
          (hear_ports_heard r.id ports _ (inr text))
          (hear_ports_same r.id ports _ refl (λ j. ap (λ c. find c j) (sym costs) ∙ same j))

  finish_rip_going :
      (r : Router q)
      → (finish_rip q t r).router.is_rip_start ≡ true
      → (finish_rip q t r).router.rip_finish_signal_emited ≡ false
      → (finish_rip q t r).router.is_rip_finished ≡ false
  unfolding finish_rip
  finish_rip_going r runs unsignalled = ground arith

  update_rip_going :
      (r : Router q)
      → IsRunning q t (update_rip q t r).router
      → (update_rip q t r).router.rip_convergence_condition ≤ 4
  unfolding update_rip
  update_rip_going r run =
      let going = finish_rip_going _ run.runs run.unsignalled in
      let counted = run.counted in ground arith

  running_quiet :
      (k : ℕ) (inputs : List (List Port)) (r : Router q)
      → IsRunning q t r
      → r.rip_convergence_condition ≤ 4
      → 5 ≤ k + r.rip_convergence_condition
      → IsRunning q t (rip_turns q t inputs r).0
      → ¬ Quiets q t k inputs r
  unfolding rip_turns
  running_quiet zero inputs r run low n ends h = omega (arith, low, n)
  running_quiet (suc k) [] r run low n ends h = h
  running_quiet (suc k) (ports ∷ rest) r run low n ends h =
      let turn = update_rip q t (with_ports q t r ports) in
      let n' = turn.router.rip_convergence_condition in
      let later : IsRunning q t (rip_turns q t rest turn.router).0 =
        subst (λ (x : Router q × List Signal). IsRunning q t x.0)
          (if_true _ _ r.is_rip_start run.runs) ends in
      elim (update_rip-Ended q t (with_ports q t r ports)
        (record { counted = run.counted; unsignalled = run.unsignalled; runs = run.runs })) [
          | inr (stopped, _) ↦ absurd (
              true≢false (
                sym
                  (subst (λ (x : Router q × List Signal). IsRunning q t x.0)
                    (stopped_turns q t rest turn.router stopped.stopped) later).runs
                ∙ stopped.stopped))
          | inl (running, _) ↦
              let low' : n' ≤ 4 = update_rip_going (with_ports q t r ports) running in
              elim h [
                | inl (now, h') ↦
                    let up = quiet_counts r ports now in
                    running_quiet k rest turn.router running low' (omega (arith, n, up)) later h'
                | inr h' ↦
                    let more : r.rip_convergence_condition ≤ n' = elim (turn_counts q t r ports) [
                      | inl same ↦ omega (arith, same)
                      | inr (up, _) ↦ omega (arith, up)
                    ] in
                    running_quiet (suc k) rest turn.router running low' (omega (arith, n, more))
                      later h'
              ]
        ]

  -- However often a router that runs RIP gets its turn from the start on, and whatever its buffers hold
  -- then: it has either given no signal and still runs, and not five of its turns were quiet, or it has
  -- given exactly one and has stopped, and at least five were. A quiet turn is one that finds a text and
  -- leaves every cost as it was.
  pub rip_turns-Quiets :
      (inputs : List (List Port)) (r : Router q)
      → IsRunning q t r
      → r.rip_convergence_condition ≡ 0
      → let (r', signals) = rip_turns q t inputs r in
        (IsRunning q t r' × (signals ≡ []) × (¬ Quiets q t 5 inputs r))
        ⊎ (IsStopped q t r' × (signals ≡ rip_finished ∷ []) × Quiets q t 5 inputs r)
  rip_turns-Quiets inputs r run new = elim (rip_turns-Ended q t inputs r run) [
    | inl (running, none_yet) ↦
        inl (
          running,
          none_yet,
          running_quiet 5 inputs r run (omega (arith, new)) (omega arith) running,
        )
    | inr (stopped, one) ↦
        let five : 5 - r.rip_convergence_condition ≡ 5 = omega (arith, new) in
        inr (
          stopped,
          one,
          subst (λ k. Quiets q t k inputs r) five (stopped_quiet q t inputs r run stopped.stopped),
        )
  ]
