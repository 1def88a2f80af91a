-- ===== src/GoBackN/System/Complete.antt =====
-- A4/Part3: a run in which nothing is lost acknowledges the whole file, in eight steps a packet.
use native.Mathlib.Decide.{dec_lt}
use computer_network_course.Prelude.{
  ℕ, zero, suc, ◌+◌, ◌*◌, ◌≤◌, ◌<◌, ◌≡◌, ◌↔◌, ◌⊎◌, inl, inr, refl, ap, subst, arith, List, [], ◌∷◌,
  length, sum_of-le, replicate, length-replicate, ◌≢◌,
}
use computer_network_course.GoBackN.Datagram.{Bytes, Packet, buffer_size}
use computer_network_course.GoBackN.HostA.{total_packets, advance, next_packet}
use computer_network_course.GoBackN.HostA.Window.{limit, send_step_more, lt-can_send}
use computer_network_course.GoBackN.Router.{Host, host_a, router, host_b}
use computer_network_course.GoBackN.System.{
  Datagram, System, Step, Run, a_sends, router_sends, b_sends, arrives, done, more, begin,
}
use computer_network_course.GoBackN.System.Window.{in_flight}
use computer_network_course.GoBackN.System.Transfer.{
  IsLive, Step-Advances, Run-Advances, begin-IsLive, potential, stage, net_stage, queue_stage,
}

stage-le : (to : Host) (n : ℕ) → stage to n ≤ 7
stage-le router n = ground arith
stage-le host_a n = omega arith
stage-le host_b n = omega arith

queue_stage-le : (p : Packet) → queue_stage p ≤ 7
queue_stage-le p = ground arith

-- The stages made lie between eight for each packet acknowledged, and seven more for each in flight.
potential-le : (s : System) → potential s ≤ 8 * s.a.send_base + 7 * in_flight s
potential-le s = omega (
  arith,
  sum_of-le net_stage 7 s.net (λ d. stage-le d.to d.packet.source_id),
  sum_of-le queue_stage 7 s.at_router queue_stage-le,
)

live-le : (file : Bytes) (s : System) → IsLive file s → potential s ≤ 8 * total_packets file
live-le file s v = ground (arith, potential-le s)

live_complete :
    (file : Bytes) (s : System)
    → IsLive file s
    → (potential s ≡ 8 * total_packets file) ↔ (s.a.send_base ≡ total_packets file)
live_complete file s v = ground (arith, potential-le s)

cons-ne {ℓ} : {A : Type ℓ} {xs q : List A} {x : A} → xs ≡ x ∷ q → xs ≢ []
cons-ne e z = cc

-- Some thread can make a step until everything is acknowledged.
progress :
    (file : Bytes) (s : System)
    → IsLive file s
    → s.a.send_base < total_packets file
    → (t : System) × Step s t
progress file s v h = from_net s.net refl
  where
    room : 1544 ≤ length (replicate {A = ℕ} 1544 0)
    room = omega (arith, length-replicate {0} {A = ℕ} 1544 0)

    from_b :
        (q : List Packet) → s.at_b ≡ q → s.net ≡ [] → s.at_router ≡ [] → (t : System) × Step s t
    from_b [] e n r =
        let free : s.a.next_seq_num < limit s.a =
          ground
            (arith, v.conserved, ap length n, ap length r, ap length e, ap total_packets v.same) in
        (_, a_sends s (advance s.a) (next_packet s.a) (send_step_more s.a (lt-can_send s.a free)))
    from_b (p ∷ q) e n r = (_, b_sends s (cons-ne e))

    from_router : (q : List Packet) → s.at_router ≡ q → s.net ≡ [] → (t : System) × Step s t
    from_router [] e n = from_b s.at_b refl n e
    from_router (p ∷ q) e n = (_, router_sends s (cons-ne e))

    from_net : (q : List Datagram) → s.net ≡ q → (t : System) × Step s t
    from_net [] e = from_router s.at_router refl e
    from_net (d ∷ q) e = (_, arrives s [] q d [] (replicate 1544 0) e room)

-- With nothing lost, and the message array of 1536 bytes, no run of the three programs makes more than
-- 8 steps for each packet of the file; exactly the runs of that length have acknowledged the whole
-- file; and every other run can go on.
pub lossless_transfer :
    (file message : Bytes) {n : ℕ} {s : System}
    → length message ≡ buffer_size
    → Run (begin file message) n s
    → (n ≤ 8 * total_packets file)
      × ((n ≡ 8 * total_packets file) ↔ (s.a.send_base ≡ total_packets file))
      × ((s.a.send_base ≡ total_packets file) ⊎ ((t : System) × Step s t))
lossless_transfer file message {n} {s} e r =
    let (live, at) = Run-Advances file r (begin-IsLive file message e) in
    let made : potential s ≡ n = omega (arith, at) in
    (omega (arith, live-le file s live), rw made at (live_complete file s live), onward live)
  where
    onward : IsLive file s → (s.a.send_base ≡ total_packets file) ⊎ ((t : System) × Step s t)
    onward live = elim (dec_lt s.a.send_base (total_packets file)) [
      | yes p ↦ inr (progress file s live p)
      | no p ↦
          inl (
            ground (arith, potential-le s, live.conserved, ap total_packets live.same, live.within))
    ]

unfinished :
    (file : Bytes) (s : System)
    → IsLive file s
    → potential s < 8 * total_packets file
    → s.a.send_base < total_packets file
unfinished file s v h = ground (arith, potential-le s)

finish :
    (file : Bytes) {s₀ : System} (k : ℕ) {n : ℕ} {s : System}
    → IsLive file s
    → Run s₀ n s
    → potential s + k ≡ 8 * total_packets file
    → (t : System) × Run s₀ (n + k) t × (t.a.send_base ≡ total_packets file)
finish file {s₀} zero {n} {s} live r e =
    (s, subst (λ m. Run s₀ m s) (omega arith) r, (live_complete file s live).0 (omega arith))
finish file {s₀} (suc k) {n} {s} live r e =
    let (u, st) = progress file s live (unfinished file s live (omega arith)) in
    let (live', at) = Step-Advances file st live in
    let (t, r', all) = finish file k live' (more r st) (omega (arith, at)) in
    (t, subst (λ m. Run s₀ m t) (omega arith) r', all)

-- With the message array of 1536 bytes, every file has a run of the three programs, with nothing
-- lost, that has 8 steps for each
-- packet of the file and has acknowledged the whole file.
pub lossless_transfer_exists :
    (file message : Bytes)
    → length message ≡ buffer_size
    → (t : System) × Run (begin file message) (8 * total_packets file) t
      × (t.a.send_base ≡ total_packets file)
lossless_transfer_exists file message e =
    let (t, r, all) =
      finish file (8 * total_packets file) (begin-IsLive file message e) done (omega arith) in
    (t, subst (λ m. Run (begin file message) m t) (omega arith) r, all)
