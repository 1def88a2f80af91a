-- ===== src/Routing/Topology/Schedule/Packets.antt =====
-- A3/main.cpp: the packets that `sendFromPC` asks for.
use computer_network_course.Prelude.{
  ℕ, zero, suc, ◌+◌, ◌-◌, ◌≤◌, ◌<◌, ◌≡◌, ◌⊎◌, inl, inr, refl, ap, ◌∙◌, arith, List, [], ◌∷◌, some,
  if◌then◌else◌, Bool, true, false, ◌==◌, get_elem?, drop, length, All,
}
use computer_network_course.Routing.Qt.{QHash}
use computer_network_course.Routing.Ports.{Port}
use computer_network_course.Routing.Pc.{Pc, new_pc}
use computer_network_course.Routing.Topology.{Nodes, pc_node, initialize_routers, initialize_pcs}
use computer_network_course.Routing.Topology.Schedule.{
  Slot, start_pcs, generate_poisson_numbers, count_occurrences, zeros, Draw, select_pc_to_send,
  send_from_pc, max_number_of_packets, main_nodes,
}
use computer_network_course.Routing.Topology.Schedule.Draws.{
  accepted, generate_lem, total-count_all, zeros_lem, length-send_from_pc, send_from_pc-All,
}

get_elem?-drop {ℓ} :
    {A : Type ℓ} (n i : ℕ) (xs : List A) → n ≤ i → get_elem? xs i ≡ get_elem? (drop n xs) (i - n)
get_elem?-drop zero i xs h = ap (get_elem? xs) (omega arith)
get_elem?-drop (suc n) i [] h = refl
get_elem?-drop (suc n) zero (x ∷ xs) h = absurd (omega arith)
get_elem?-drop (suc n) (suc i) (x ∷ xs) h =
    get_elem?-drop n i xs (omega arith) ∙ ap (get_elem? (drop n xs)) (omega arith)

if_either : (P : ℕ × ℕ → Type 0) (b : Bool) (x y : ℕ × ℕ) → P x → P y → P (if b then x else y)
if_either P true x y hx hy = hx
if_either P false x y hx hy = hy

-- `bounded(24, 32)` and `bounded(32, 37)`.
abbrev pub InBounds : Draw → Type 0
InBounds d = ((24 ≤ d.first_pc) × (d.first_pc < 32)) × ((32 ≤ d.second_pc) × (d.second_pc < 37))

module _ (q : QHash) (unset : Port) (one two : ℕ) where
  abbrev pub nodes : Nodes q
  nodes = (main_nodes q unset one two).1

  -- The call is of a PC of one system, to send to a PC of the other: those of the first system stand
  -- before position 32.
  pub record Crosses (c : ℕ × Slot) : Type 0 where
    pub sender : Pc
    pub receiver : Pc
    pub at : ℕ
    pub sender_at : get_elem? nodes c.0 ≡ some (pc_node sender)
    pub receiver_at : get_elem? nodes at ≡ some (pc_node receiver)
    pub slot : c.1 ≡ start_pcs receiver.id
    pub apart : ((c.0 < 32) × (32 ≤ at)) ⊎ ((at < 32) × (32 ≤ c.0))

  pcs_from : ℕ → ℕ → Nodes q
  pcs_from id zero = []
  pcs_from id (suc n) = pc_node (new_pc unset 3 (id + 1)) ∷ pcs_from (id + 1) n

  get_elem?-pcs_from :
      (id n k : ℕ)
      → k < n
      → get_elem? (pcs_from id n) k ≡ some (pc_node (new_pc unset 3 (id + k + 1)))
  unfolding pcs_from
  get_elem?-pcs_from id zero k h = absurd (omega arith)
  get_elem?-pcs_from id (suc n) zero h = ap (λ x. some (pc_node (new_pc unset 3 x))) (omega arith)
  get_elem?-pcs_from id (suc n) (suc k) h =
      get_elem?-pcs_from (id + 1) n k (omega arith)
      ∙ ap (λ x. some (pc_node (new_pc unset 3 x))) (omega arith)

  drop-nodes : drop 24 nodes ≡ pcs_from 24 13
  unfolding main_nodes initialize_routers initialize_pcs pcs_from
  drop-nodes = refl

  pc_at : (i : ℕ) → 24 ≤ i → i < 37 → get_elem? nodes i ≡ some (pc_node (new_pc unset 3 (i + 1)))
  pc_at i l h =
      get_elem?-drop 24 i nodes l
      ∙ ap (λ ns. get_elem? ns (i - 24)) drop-nodes
      ∙ get_elem?-pcs_from 24 13 (i - 24) (omega arith)
      ∙ ap (λ x. some (pc_node (new_pc unset 3 x))) (omega arith)

  crossing :
      (i j : ℕ)
      → (24 ≤ i) × (i < 37)
      → (24 ≤ j) × (j < 37)
      → ((i < 32) × (32 ≤ j)) ⊎ ((j < 32) × (32 ≤ i))
      → Crosses (i, start_pcs (j + 1))
  unfolding new_pc
  crossing i j (il, ih) (jl, jh) apart = record {
    sender = new_pc unset 3 (i + 1);
    receiver = new_pc unset 3 (j + 1);
    at = j;
    sender_at = pc_at i il ih;
    receiver_at = pc_at j jl jh;
    slot = refl;
    apart = apart;
  }

  select-Crosses :
      (d : Draw)
      → InBounds d
      → Crosses ((select_pc_to_send d).0, start_pcs ((select_pc_to_send d).1 + 1))
  unfolding select_pc_to_send
  select-Crosses d ((al, ah), (bl, bh)) =
      if_either (λ ids. Crosses (ids.0, start_pcs (ids.1 + 1))) (d.side == 1)
        (d.first_pc, d.second_pc) (d.second_pc, d.first_pc)
        (crossing d.first_pc d.second_pc (al, omega arith) (omega arith, bh) (inl (ah, bl)))
        (crossing d.second_pc d.first_pc (omega arith, bh) (al, omega arith) (inr (ah, bl)))

  -- With 30 draws or more that are in range, the program asks for exactly 30 packets, each from a PC of
  -- one system to the id of a PC of the other.
  pub packets_sent :
      (draws : List ℕ) (draw : ℕ → Draw)
      → max_number_of_packets ≤ accepted max_number_of_packets draws
      → ((k : ℕ) → InBounds (draw k))
      → (numbers : List ℕ) × (generate_poisson_numbers max_number_of_packets max_number_of_packets
            draws
          ≡ some numbers)
        × (length (send_from_pc draw 0 (count_occurrences max_number_of_packets numbers))
            ≡ max_number_of_packets)
        × All Crosses (send_from_pc draw 0 (count_occurrences max_number_of_packets numbers))
  unfolding count_occurrences
  packets_sent draws draw enough bounds =
      let (numbers, e, l, range) = generate_lem 30 30 draws enough in
      let counts : List ℕ = count_occurrences 30 numbers in
      (
        numbers,
        e,
        length-send_from_pc draw 0 counts
            ∙ total-count_all 30 numbers (zeros 30) (zeros_lem 30).1 range
            ∙ omega (arith, l, (zeros_lem 30).0),
        send_from_pc-All Crosses draw 0 counts (λ k. select-Crosses (draw k) (bounds k)),
      )
