-- ===== src/GoBackN/System/Loss.antt =====
-- A4/Part3: HostA.cpp keeps no timer and sends nothing twice, so a lost window ends the transfer.
use computer_network_course.Prelude.{
  ℕ, zero, suc, ◌+◌, ◌≤◌, ◌<◌, ◌≡◌, refl, ap, ◌∙◌, arith, List, [], ◌∷◌, ◌++◌, length,
}
use computer_network_course.GoBackN.Datagram.{Bytes}
use computer_network_course.GoBackN.HostA.{HostA, window, total_packets, advance, next_packet}
use computer_network_course.GoBackN.HostA.Window.{
  limit, send_step_inv, send_step_more, advance_fields, lt-can_send,
}
use computer_network_course.GoBackN.Router.{router}
use computer_network_course.GoBackN.System.{
  Datagram, System, Step, Move, Reach, a_sends, router_sends, b_sends, arrives, step, lost, here,
  next, begin, idle, post,
}
use computer_network_course.GoBackN.System.Window.{length-around}

lose_one :
    {s : System} (h : HostA)
    → h.next_seq_num < limit h
    → Reach s (idle h)
    → Reach s (idle (advance h))
unfolding post
lose_one h room r =
    let d : Datagram = record { to = router; packet = next_packet h } in
    next
      (next r (
        step
          (a_sends (idle h) (advance h) (next_packet h) (send_step_more h (lt-can_send h room)))))
      (lost (record (idle (advance h)) { net = d ∷ [] }) [] [] d refl)

lose :
    {s : System} (k : ℕ) (h : HostA)
    → h.next_seq_num + k ≤ limit h
    → Reach s (idle h)
    → (h' : HostA) × Reach s (idle h')
      × (h'.next_seq_num ≡ h.next_seq_num + k)
      × (h'.send_base ≡ h.send_base)
      × (limit h' ≡ limit h)
lose zero h fits r = (h, r, omega arith, refl, refl)
lose (suc k) h fits r =
    let (moved, base, file, _) = advance_fields h in
    let same : limit (advance h) ≡ limit h = rw (base, file) in
    let (h', r', n, b, l) = lose k (advance h) (omega arith) (lose_one h (omega arith) r) in
    (h', r', omega arith, b ∙ base, l ∙ same)

nothing_around {ℓ} :
    {A : Type ℓ} (xs before after : List A) (d : A) → xs ≡ before ++ d ∷ after → xs ≡ [] → ⊥
nothing_around xs before after d e z = omega (arith, length-around xs before after d e, ap length z)

Step-stuck :
    {s t : System}
    → Step s t
    → s.net ≡ []
    → s.at_router ≡ []
    → s.at_b ≡ []
    → limit s.a ≤ s.a.next_seq_num
    → ⊥
Step-stuck (a_sends s h p e) n r b full =
    let (room, _, _) = send_step_inv s.a h p e in absurd (omega arith)
Step-stuck (router_sends s some_left) n r b full = some_left r
Step-stuck (b_sends s some_left) n r b full = some_left b
Step-stuck (arrives s before after d _ _ e _) n r b full = nothing_around s.net before after d e n

stuck :
    {s t : System}
    → Move s t
    → s.net ≡ []
    → s.at_router ≡ []
    → s.at_b ≡ []
    → limit s.a ≤ s.a.next_seq_num
    → ⊥
stuck (step st) n r b full = Step-stuck st n r b full
stuck (lost s before after d e) n r b full = nothing_around s.net before after d e n

-- The bug: for every file of at least 4 packets there is a history that ends for good with no packet
-- acknowledged, since no step at all is left to the three programs or the network.
pub loss_deadlock :
    (file message : Bytes)
    → window ≤ total_packets file
    → (s : System) × Reach (begin file message) s
      × (s.a.send_base ≡ 0)
      × ((t : System) → ¬ Move s t)
loss_deadlock file message big =
    let (h, r, n, b, l) = lose 4 (begin file message).a (omega arith) here in
    (idle h, r, b, λ t m. stuck m refl refl refl (omega arith))
