-- ===== src/GoBackN/System/Window.antt =====
-- A4/Part3: the window of the sender in every history, and what a loss does.
use computer_network_course.Prelude.{
  ℕ, suc, ◌+◌, ◌≤◌, ◌≡◌, ap, arith, List, [], ◌∷◌, ◌++◌, some, length, length-append,
}
use computer_network_course.GoBackN.Datagram.{Bytes, Packet}
use computer_network_course.GoBackN.HostA
use computer_network_course.GoBackN.HostA.{HostA, advance, next_packet, window, total_packets}
use computer_network_course.GoBackN.HostA.Window.{send_step_inv, advance_fields}
use computer_network_course.GoBackN.Router
use computer_network_course.GoBackN.Router.{Host, host_a, router, host_b}
use computer_network_course.GoBackN.HostB
use computer_network_course.GoBackN.System.{
  System, Step, Move, Reach, a_sends, router_sends, b_sends, arrives, step, lost, here, next, begin,
  post, router_round, b_round, deliver,
}

-- The packets and acknowledgements that the sender still waits for.
abbrev pub in_flight : System → ℕ
in_flight s = length s.net + length s.at_router + length s.at_b

pub record InWindow (s : System) : Type 0 where
  pub counted : s.a.send_base + in_flight s ≤ s.a.next_seq_num
  pub within : s.a.next_seq_num ≤ s.a.send_base + window
  pub bounded : s.a.next_seq_num ≤ total_packets s.a.file

pub length-around {ℓ} :
    {A : Type ℓ} (xs before after : List A) (d : A)
    → xs ≡ before ++ d ∷ after
    → length xs ≡ suc (length (before ++ after))
length-around xs before after d e =
    omega (arith, ap length e, length-append before (d ∷ after), length-append before after)

post-InWindow :
    (to : Host) (p : Packet) (s : System)
    → InWindow s
    → suc (s.a.send_base + in_flight s) ≤ s.a.next_seq_num
    → InWindow (post to p s)
unfolding post
post-InWindow to p s v h = ground (arith, length-append s.net (record { to = to; packet = p } ∷ []))

router_round-InWindow :
    (queue : List Packet) (s : System)
    → InWindow (record s { at_router = queue })
    → InWindow (router_round (record s { at_router = queue }))
unfolding router_round post Router.send
router_round-InWindow [] s v = v
router_round-InWindow (p ∷ queue) s v = ground (
  arith,
  length-append s.net (record { to = host_b; packet = record p { source_id = 2 } } ∷ []),
  length-append s.net (record { to = host_a; packet = record p { source_id = 2 } } ∷ []),
)

b_round-InWindow :
    (queue : List Packet) (s : System)
    → InWindow (record s { at_b = queue })
    → InWindow (b_round (record s { at_b = queue }))
unfolding b_round HostB.send
b_round-InWindow [] s v = v
b_round-InWindow (p ∷ queue) s v =
    post-InWindow router p (record s { at_b = queue }) (ground arith) (ground arith)

deliver-InWindow :
    (to : Host) (p : Packet) (s : System)
    → InWindow s
    → suc (s.a.send_base + in_flight s) ≤ s.a.next_seq_num
    → InWindow (deliver to p s)
unfolding deliver HostA.receive Router.receive HostB.receive
deliver-InWindow host_a p s v h = ground arith
deliver-InWindow router p s v h = ground (arith, length-append s.at_router (p ∷ []))
deliver-InWindow host_b p s v h =
    ground (arith, length-append s.at_b (HostB.acknowledgement p ∷ []))

a_sends-InWindow :
    (s : System) (h : HostA) (p : Packet)
    → HostA.send_step s.a ≡ some (h, p)
    → InWindow s
    → InWindow (post router p (record s { a = h }))
a_sends-InWindow s h p e v =
    let (room, moved, _) = send_step_inv s.a h p e in
    rw moved (
      post-InWindow router p (record s { a = advance s.a }) (ground (arith, advance_fields s.a))
        (ground (arith, advance_fields s.a)))

Step-InWindow : {s t : System} → Step s t → InWindow s → InWindow t
Step-InWindow (a_sends s h p e) v = a_sends-InWindow s h p e v
Step-InWindow (router_sends s _) v = router_round-InWindow s.at_router s v
Step-InWindow (b_sends s _) v = b_round-InWindow s.at_b s v
Step-InWindow (arrives s before after d from to e room) v =
    deliver-InWindow d.to _ (record s { net = before ++ after })
      (ground (arith, length-around s.net before after d e))
      (ground (arith, length-around s.net before after d e))

Move-InWindow : {s t : System} → Move s t → InWindow s → InWindow t
Move-InWindow (step st) v = Step-InWindow st v
Move-InWindow (lost s before after d e) v = ground (arith, length-around s.net before after d e)

-- In every history of the three programs, with losses and in any order of delivery, the sender is at
-- most 4 packets ahead of what was acknowledged and never beyond the file, and it is ahead by at
-- least the number of packets and acknowledgements on their way.
pub Reach-InWindow : (file message : Bytes) {s : System} → Reach (begin file message) s → InWindow s
Reach-InWindow file message here = record {
  counted = omega arith;
  within = omega arith;
  bounded = omega arith;
}
Reach-InWindow file message (next r m) = Move-InWindow m (Reach-InWindow file message r)
