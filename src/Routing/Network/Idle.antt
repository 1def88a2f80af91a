-- ===== src/Routing/Network/Idle.antt =====
-- A3/router.cpp: ports with empty buffers in a turn of a router.
use computer_network_course.Prelude.{
  ℕ, suc, ◌+◌, ◌≡◌, ◌≢◌, ◌⊎◌, inl, inr, refl, sym, ap, ap₂, subst, ◌∙◌, arith, true, List, [], ◌∷◌,
  ◌++◌, append_assoc, Option, none, some, All, length, length-append, get_elem?, get_elem?-middle,
  ==_iff, Bool-cases, if_true, if_false, ◌==◌,
}
use computer_network_course.Routing.Qt.{QHash, elem}
use computer_network_course.Routing.Text.{QtText}
use computer_network_course.Routing.Ports.{
  numbers, Port, receive, take_first, get_port_by_port_number,
}
use computer_network_course.Routing.Router.{Router, Turn, still, join_turns}
use computer_network_course.Routing.Router.Traffic.{handle_received, handle_at, handle_ports}

abbrev pub IsEmpty : Port → Type 0
IsEmpty p = p.buffer ≡ []

-- One text in the buffers of all ports.
abbrev pub OneText : List ℕ → List Port → Type 0
OneText line [] = ⊥
OneText line (p ∷ ports) =
    ((p.buffer ≡ line ∷ []) × All IsEmpty ports) ⊎ ((p.buffer ≡ []) × OneText line ports)

-- The ports with the buffers as they are when the text was taken.
abbrev pub emptied : List Port → List Port
emptied [] = []
emptied (p ∷ ports) = record p { buffer = [] } ∷ emptied ports

module _ (P : Port → Type 0) where
  pub get_port-All :
      (n : ℕ) (ports : List Port) (p : Port)
      → All P ports
      → get_port_by_port_number n ports ≡ some p
      → P p
  unfolding get_port_by_port_number
  get_port-All n [] p h e = cc
  get_port-All n (x ∷ ports) p (hx, h) e = elim (Bool-cases (x.number == n)) [
    | inl same ↦
        subst (λ o. elim o [ none ↦ Unit {0} | some y ↦ P y ])
          (sym (if_true _ _ (x.number == n) same) ∙ e) hx
    | inr other ↦ get_port-All n ports p h (sym (if_false _ _ (x.number == n) other) ∙ e)
  ]

pub get_port-number :
    (n : ℕ) (ports : List Port) (p : Port) → get_port_by_port_number n ports ≡ some p → p.number ≡ n
unfolding get_port_by_port_number
get_port-number n [] p e = cc
get_port-number n (x ∷ ports) p e = elim (Bool-cases (x.number == n)) [
  | inl same ↦
      subst (λ o. elim o [ none ↦ Unit {0} | some y ↦ y.number ≡ n ])
        (sym (if_true _ _ (x.number == n) same) ∙ e) ((==_iff x.number n).0 same)
  | inr other ↦ get_port-number n ports p (sym (if_false _ _ (x.number == n) other) ∙ e)
]

pub numbered_once :
    (n : ℕ) (ports : List Port) → elem n (numbers ports) ≡ true → All (λ p. p.number ≢ n) ports → ⊥
numbered_once n [] e h = cc
numbered_once n (p ∷ ports) e (hp, h) = numbered_once n ports (ground arith) h

pub emptied_empty : (ports : List Port) → All IsEmpty ports → emptied ports ≡ ports
emptied_empty [] h = refl
emptied_empty (p ∷ ports) (hp, h) =
    ap₂ (λ b ps. record p { buffer = b } ∷ ps) (sym hp) (emptied_empty ports h)

pub emptied-IsEmpty : (ports : List Port) → All IsEmpty (emptied ports)
emptied-IsEmpty [] = tt
emptied-IsEmpty (p ∷ ports) = (refl, emptied-IsEmpty ports)

pub numbers-emptied : (ports : List Port) → numbers (emptied ports) ≡ numbers ports
numbers-emptied [] = refl
numbers-emptied (p ∷ ports) = ap (◌∷◌ p.number) (numbers-emptied ports)

module _ (q : QHash) (t : QtText) where
  open q use {Table, find}

  pub handle_ports-suc :
      (n i : ℕ) (r : Router q) (a : Turn q)
      → handle_at q t i r (get_elem? r.ports i) ≡ some a
      → handle_ports q t (suc n) i r ≡ join_turns q a (handle_ports q t n (i + 1) a.router)
  unfolding handle_ports
  handle_ports-suc n i r a e = rw (e, handle_ports) refl

  pub handle_next :
      (passed rest : List Port) (p : Port) (r : Router q)
      → r.ports ≡ passed ++ p ∷ rest
      → handle_at q t (length passed) r (get_elem? r.ports (length passed))
        ≡ handle_received q t (length passed) r (take_first p.buffer p)
  unfolding handle_at receive
  handle_next passed rest p r e =
      ap (handle_at q t (length passed) r)
        (ap (λ ps. get_elem? ps (length passed)) e ∙ get_elem?-middle passed rest p)

  pub skip_port :
      (passed rest : List Port) (p : Port) (r : Router q)
      → r.ports ≡ passed ++ p ∷ rest
      → IsEmpty p
      → handle_ports q t (suc (length rest)) (length passed) r
        ≡ handle_ports q t (length rest) (length (passed ++ p ∷ [])) r
  unfolding handle_received take_first join_turns
  skip_port passed rest p r e h =
      handle_ports-suc (length rest) (length passed) r (still q r) (
        handle_next passed rest p r e
        ∙ ap (λ b. handle_received q t (length passed) r (take_first b p)) h)
      ∙ joined (handle_ports q t (length rest) (length passed + 1) r)
      ∙ ap (λ i. handle_ports q t (length rest) i r) (omega (arith, length-append passed (p ∷ [])))
    where
      joined : (o : Option (Turn q)) → join_turns q (still q r) o ≡ o
      joined none = refl
      joined (some a) = refl

  -- Ports with empty buffers change nothing.
  pub idle :
      (passed rest : List Port) (r : Router q)
      → r.ports ≡ passed ++ rest
      → All IsEmpty rest
      → handle_ports q t (length rest) (length passed) r ≡ some (still q r)
  unfolding handle_ports
  idle passed [] r e h = refl
  idle passed (p ∷ rest) r e (hp, h) =
      skip_port passed rest p r e hp
      ∙ idle (passed ++ p ∷ []) rest r (e ∙ sym (append_assoc passed (p ∷ []) rest)) h
