-- ===== src/Routing/Router/Rip/Quiet.antt =====
-- A3/router.cpp: the turns of RIP that bring a text and change nothing.
use mathlib.Core.Bool.{false≢true}
use computer_network_course.Prelude.{
  ℕ, zero, suc, ◌+◌, ◌-◌, ◌≡◌, ◌≢◌, refl, sym, ap, ap₂, subst, ◌∙◌, arith, true, false, not, ◌&&◌,
  List, [], ◌∷◌, Option, none, some, ◌==◌, ==_iff, if◌then◌else◌, Bool-cases, if_true, ◌⊎◌, inl,
  inr,
}
use computer_network_course.Routing.Qt.{QHash}
use computer_network_course.Routing.Text.{QtText}
use computer_network_course.Routing.Tables.{update_distance_vector}
use computer_network_course.Routing.Tables.Merge.{merge, improves, update_merges, changed_iff}
use computer_network_course.Routing.Records.{rip_decode}
use computer_network_course.Routing.Ports.{Port, receive, take_first}
use computer_network_course.Routing.Router.{Router, Signal}
use computer_network_course.Routing.Router.Rip.{
  Heard, hear_text, hear_port, hear_ports, update_rip, finish_rip, hear,
}
use computer_network_course.Routing.Router.Rip.Convergence.{
  with_ports, rip_turns, IsRunning, update_rip-Ended,
}

-- Some port has a text.
abbrev pub HasText : List Port → Type 0
HasText [] = ⊥
HasText (p ∷ ports) = (p.buffer ≢ []) ⊎ HasText ports

merge_same : (old received : Option ℕ) → improves old received ≡ false → merge old received ≡ old
merge_same old none e = refl
merge_same none (some n) e = ground arith
merge_same (some m) (some n) e = ap some (ground arith)

module _ (q : QHash) (t : QtText) where
  open q use {Table, find}

  unchanged_costs :
      (id : ℕ) (received : Table) (port : ℕ) (costs forwarding : Table)
      → (update_distance_vector q id received port costs forwarding).changed ≡ false
      → (j : ℕ)
      → find (update_distance_vector q id received port costs forwarding).costs j ≡ find costs j
  unchanged_costs id received port costs forwarding e j =
      (update_merges q id received port costs forwarding j).0
      ∙ elim (Bool-cases (j == id))
          as (λ x.
            (if j == id then find costs j else merge (find costs j) (find received j))
            ≡ find costs j) [
              | inl own ↦ rw own refl
              | inr other ↦ rw other (
                  merge_same (find costs j) (find received j)
                    (elim (Bool-cases (improves (find costs j) (find received j))) [
                      | inl up ↦ absurd (
                          false≢true (
                            sym e
                            ∙ (changed_iff q id received port costs forwarding).1
                                (j, (λ same. false≢true (sym other ∙ (==_iff j id).1 same)), up)))
                      | inr stays_put ↦ stays_put
                    ]))
            ]

  hear_text_quiet :
      (id : ℕ) (o : Option (List ℕ × Port)) (p : Port) (h : Heard q t)
      → (hear_text q t id o p h).1.any_changed ≡ false
      → (h.any_changed ≡ false)
        × ((j : ℕ) → find (hear_text q t id o p h).1.costs j ≡ find h.costs j)
  unfolding hear_text
  hear_text_quiet id none p h e = (e, λ j. refl)
  hear_text_quiet id (some (text, p')) p h e =
      let s = update_distance_vector q id (rip_decode q t text) p.number h.costs h.forwarding in
      let same : s.changed ≡ false = ground arith in
      (ground arith, unchanged_costs id (rip_decode q t text) p.number h.costs h.forwarding same)

  hear_ports_quiet :
      (id : ℕ) (ports : List Port) (h : Heard q t)
      → (hear_ports q t id ports h).1.any_changed ≡ false
      → (h.any_changed ≡ false)
        × ((j : ℕ) → find (hear_ports q t id ports h).1.costs j ≡ find h.costs j)
  unfolding hear_ports hear_port
  hear_ports_quiet id [] h e = (e, λ j. refl)
  hear_ports_quiet id (p ∷ ports) h e =
      let (later, same) = hear_ports_quiet id ports (hear_port q t id p h).1 e in
      let (before, kept) = hear_text_quiet id (receive p) p h later in
      (before, λ j. same j ∙ kept j)

  hear_text_text :
      (id : ℕ) (o : Option (List ℕ × Port)) (p : Port) (h : Heard q t)
      → (hear_text q t id o p h).1.any_receive ≡ true
      → (h.any_receive ≡ true) ⊎ (o ≢ none)
  unfolding hear_text
  hear_text_text id none p h e = inl e
  hear_text_text id (some x) p h e = inr (λ z. cc)

  hear_ports_text :
      (id : ℕ) (ports : List Port) (h : Heard q t)
      → (hear_ports q t id ports h).1.any_receive ≡ true
      → (h.any_receive ≡ true) ⊎ HasText ports
  unfolding hear_ports hear_port receive take_first
  hear_ports_text id [] h e = inl e
  hear_ports_text id (p ∷ ports) h e = elim (hear_ports_text id ports (hear_port q t id p h).1 e) [
    | inr more ↦ inr (inr more)
    | inl got ↦ elim (hear_text_text id (receive p) p h got) [
      | inl before ↦ inl before
      | inr here ↦ inr (inl (λ empty. here (ap (λ b. take_first b p) empty)))
    ]
  ]

  -- A turn behind a change of the buffers, in which a text was there and every cost stays.
  abbrev pub IsQuiet : Router q → List Port → Type 0
  IsQuiet r ports =
      HasText ports
      × ((j : ℕ)
          → find (update_rip q t (with_ports q t r ports)).router.distance_vector j
            ≡ find r.distance_vector j)

  -- At least so many of the turns are quiet.
  abbrev pub Quiets : ℕ → List (List Port) → Router q → Type 0
  Quiets zero inputs r = Unit
  Quiets (suc k) [] r = ⊥
  Quiets (suc k) (ports ∷ rest) r =
      let r' = (update_rip q t (with_ports q t r ports)).router in
      (IsQuiet r ports × Quiets k rest r') ⊎ Quiets (suc k) rest r'

  quiet_later :
      (k : ℕ) (ports : List Port) (rest : List (List Port)) (r : Router q)
      → Quiets k rest (update_rip q t (with_ports q t r ports)).router
      → Quiets k (ports ∷ rest) r
  quiet_later zero ports rest r h = tt
  quiet_later (suc k) ports rest r h = inr h

  quiet_now :
      (k : ℕ) (ports : List Port) (rest : List (List Port)) (r : Router q)
      → IsQuiet r ports
      → Quiets (k - 1) rest (update_rip q t (with_ports q t r ports)).router
      → Quiets k (ports ∷ rest) r
  quiet_now zero ports rest r now h = tt
  quiet_now (suc k) ports rest r now h =
      let less : suc k - 1 ≡ k = omega arith in
      inl (now, subst (λ n. Quiets n rest (update_rip q t (with_ports q t r ports)).router) less h)

  finish_rip_keeps :
      (r : Router q)
      → ((finish_rip q t r).router.distance_vector ≡ r.distance_vector)
        × ((finish_rip q t r).router.rip_convergence_condition ≡ r.rip_convergence_condition)
  unfolding finish_rip
  finish_rip_keeps r = ground arith

  -- What a turn makes of the costs and of the counter.
  pub turn_parts :
      (r : Router q) (ports : List Port)
      → let h = (hear q t (with_ports q t r ports)).1 in
        let r' = (update_rip q t (with_ports q t r ports)).router in
        (r'.distance_vector ≡ h.costs)
        × (r'.rip_convergence_condition ≡ (
            if h.any_receive && not h.any_changed
            then r.rip_convergence_condition + 1
            else r.rip_convergence_condition))
  unfolding update_rip
  turn_parts r ports = finish_rip_keeps _

  -- A turn that counts is quiet.
  pub turn_counts :
      (r : Router q) (ports : List Port)
      → let r' = (update_rip q t (with_ports q t r ports)).router in
        (r'.rip_convergence_condition ≡ r.rip_convergence_condition)
        ⊎ ((r'.rip_convergence_condition ≡ r.rip_convergence_condition + 1) × IsQuiet r ports)
  turn_counts r ports =
      let h = (hear q t (with_ports q t r ports)).1 in
      let (costs, counter) = turn_parts r ports in
      elim (Bool-cases h.any_receive) [
        | inr none_got ↦ inl (
            counter
            ∙ ap
                (λ b.
                  if b && not h.any_changed
                  then r.rip_convergence_condition + 1
                  else r.rip_convergence_condition)
                none_got)
        | inl got ↦ elim (Bool-cases h.any_changed) [
          | inl up ↦ inl (
              counter
              ∙ ap₂
                  (λ a b.
                    if a && not b
                    then r.rip_convergence_condition + 1
                    else r.rip_convergence_condition)
                  got up)
          | inr same ↦
              let (_, kept) = hear_ports_quiet r.id ports _ same in
              inr (
                counter
                    ∙ ap₂
                        (λ a b.
                          if a && not b
                          then r.rip_convergence_condition + 1
                          else r.rip_convergence_condition)
                        got same,
                (
                  elim (hear_ports_text r.id ports _ got) [
                    | inl never ↦ absurd (false≢true never)
                    | inr text ↦ text
                  ],
                  λ j. ap (λ c. find c j) costs ∙ kept j,
                ),
              )
        ]
      ]

  pub stopped_quiet :
      (inputs : List (List Port)) (r : Router q)
      → IsRunning q t r
      → (rip_turns q t inputs r).0.is_rip_start ≡ false
      → Quiets (5 - r.rip_convergence_condition) inputs r
  unfolding rip_turns
  stopped_quiet [] r run e = absurd (false≢true (sym e ∙ run.runs))
  stopped_quiet (ports ∷ rest) r run e =
      let turn = update_rip q t (with_ports q t r ports) in
      let n = r.rip_convergence_condition in
      let on : (rip_turns q t rest turn.router).0.is_rip_start ≡ false =
        ap (λ (x : Router q × List Signal). x.0.is_rip_start)
          (sym (if_true _ _ r.is_rip_start run.runs))
        ∙ e in
      let later : Quiets (5 - turn.router.rip_convergence_condition) rest turn.router =
        elim (update_rip-Ended q t (with_ports q t r ports)
          (record { counted = run.counted; unsignalled = run.unsignalled; runs = run.runs })) [
            | inl (running, _) ↦ stopped_quiet rest turn.router running on
            | inr (stopped, _) ↦
                let none : 0 ≡ 5 - turn.router.rip_convergence_condition =
                  omega (arith, stopped.counted) in
                subst (λ k. Quiets k rest turn.router) none tt
          ] in
      elim (turn_counts r ports) [
        | inl same ↦
            quiet_later (5 - n) ports rest r
              (subst (λ k. Quiets (5 - k) rest turn.router) same later)
        | inr (up, now) ↦
            let less : 5 - turn.router.rip_convergence_condition ≡ 5 - n - 1 = omega (arith, up) in
            quiet_now (5 - n) ports rest r now (subst (λ k. Quiets k rest turn.router) less later)
      ]
