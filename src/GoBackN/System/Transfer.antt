-- ===== src/GoBackN/System/Transfer.antt =====
-- A4/Part3: runs of the three programs in which the network loses nothing.
use computer_network_course.Prelude.{
  ℕ, suc, ◌+◌, ◌*◌, ◌^◌, ◌≤◌, ◌<◌, ◌≡◌, ◌⊎◌, inl, inr, refl, sym, ap, ◌∙◌, subst, arith, List, [],
  ◌∷◌, ◌++◌, some, length, length-append, All, All-append, All-middle, sum_of, sum_of-append,
  sum_of-middle, ◌==◌, if◌then◌else◌, ◌≢◌,
}
use computer_network_course.GoBackN.Datagram.{Bytes, Packet, buffer_size}
use computer_network_course.GoBackN.Datagram.Wire.{through_wire, through_wire_fields}
use computer_network_course.GoBackN.HostA
use computer_network_course.GoBackN.HostA.{HostA, window, total_packets, advance, next_packet}
use computer_network_course.GoBackN.HostA.Window.{
  limit, send_step_inv, advance_fields, next_packet-Carries,
}
use computer_network_course.GoBackN.Router
use computer_network_course.GoBackN.Router.{Host, host_a, router, host_b}
use computer_network_course.GoBackN.HostB
use computer_network_course.GoBackN.System.{
  Datagram, System, Step, Run, a_sends, router_sends, b_sends, arrives, done, more, begin, post,
  post_some, router_round, b_round, deliver,
}
use computer_network_course.GoBackN.System.Window.{length-around, in_flight}

-- The ids under which packets come to each program.
abbrev pub IsFor : Host → ℕ → Type 0
IsFor router n = (n ≡ 1) ⊎ (n ≡ 3)
IsFor host_a n = n ≡ 2
IsFor host_b n = n ≡ 2

abbrev pub IsInFlight : Datagram → Type 0
IsInFlight d = (length d.packet.message ≡ buffer_size) × IsFor d.to d.packet.source_id

abbrev pub IsQueued : Packet → Type 0
IsQueued p = (length p.message ≡ buffer_size) × IsFor router p.source_id

abbrev pub IsAnswer : Packet → Type 0
IsAnswer p = (length p.message ≡ buffer_size) × (p.source_id ≡ 3)

pub record IsLive (file : Bytes) (s : System) : Type 0 where
  pub same : s.a.file ≡ file
  pub array : length s.a.message ≡ buffer_size
  pub conserved : s.a.send_base + in_flight s ≡ s.a.next_seq_num
  pub within : s.a.next_seq_num ≤ limit s.a
  pub in_net : All IsInFlight s.net
  pub in_router : All IsQueued s.at_router
  pub in_b : All IsAnswer s.at_b

-- How many of the eight stages between two advances of the window a packet is past.
abbrev pub stage : Host → ℕ → ℕ
stage router n = if n == 1 then 1 else 5
stage host_b n = 3
stage host_a n = 7

abbrev pub net_stage : Datagram → ℕ
net_stage d = stage d.to d.packet.source_id

abbrev pub queue_stage : Packet → ℕ
queue_stage p = if p.source_id == 1 then 2 else 6

abbrev pub potential : System → ℕ
potential s =
    8 * s.a.send_base + sum_of net_stage s.net + sum_of queue_stage s.at_router + 4 * length s.at_b

-- A step keeps the invariant and makes one stage.
abbrev pub Advances : Bytes → System → System → Type 0
Advances file s t = IsLive file t × (potential t ≡ potential s + 1)

post-IsLive :
    (file : Bytes) (to : Host) (p : Packet) (s : System)
    → length p.message ≡ buffer_size
    → IsFor to p.source_id
    → s.a.file ≡ file
    → length s.a.message ≡ buffer_size
    → suc (s.a.send_base + in_flight s) ≡ s.a.next_seq_num
    → s.a.next_seq_num ≤ limit s.a
    → All IsInFlight s.net
    → All IsQueued s.at_router
    → All IsAnswer s.at_b
    → IsLive file (post to p s) × (potential (post to p s) ≡ potential s + stage to p.source_id)
unfolding post
post-IsLive file to p s full for e array count within net rq bq =
    let d : Datagram = record { to = to; packet = p } in
    (
      record {
        same = e;
        array = array;
        conserved = omega (arith, length-append s.net (d ∷ []));
        within = within;
        in_net = All-append IsInFlight s.net (d ∷ []) net ((full, for), tt);
        in_router = rq;
        in_b = bq;
      },
      omega (arith, sum_of-append net_stage s.net (d ∷ [])),
    )

IsFor-lt : (to : Host) (n : ℕ) → IsFor to n → n < 2 ^ 32
IsFor-lt router n h = omega arith
IsFor-lt host_a n h = omega arith
IsFor-lt host_b n h = omega arith

a_sends-Advances :
    (file : Bytes) (s : System) (h : HostA) (p : Packet)
    → HostA.send_step s.a ≡ some (h, p)
    → IsLive file s
    → Advances file s (post router p (record s { a = h }))
a_sends-Advances file s h p e v =
    let (room, moved, sent) = send_step_inv s.a h p e in
    let (n, b, f, m) = advance_fields s.a in
    let made = next_packet-Carries s.a v.array in
    let limits : limit (advance s.a) ≡ limit s.a = rw (b, f) in
    let (live, advanced) =
      post-IsLive file router (next_packet s.a) (record s { a = advance s.a }) made.full
        (inl made.own) (f ∙ v.same) (ap length m ∙ made.full) (omega (arith, v.conserved))
        (omega arith) v.in_net v.in_router v.in_b in
    rw (moved, sent) (live, ground (arith, advanced, made.own))

router_round-Advances :
    (file : Bytes) (queue : List Packet) (s : System)
    → queue ≢ []
    → IsLive file (record s { at_router = queue })
    → Advances file (record s { at_router = queue }) (router_round (record s { at_router = queue }))
unfolding router_round Router.send
router_round-Advances file [] s h v = absurd (h refl)
router_round-Advances file (p ∷ queue) s h v = go v.in_router.0.1
  where
    sent :
        (to : Host) (stages : queue_stage p + 1 ≡ stage to 2)
        → IsFor to 2
        → Advances file
            (record s { at_router = p ∷ queue })
            (post to (record p { source_id = 2 }) (record s { at_router = queue }))
    sent to stages for =
        let (live, advanced) =
          post-IsLive file to (record p { source_id = 2 }) (record s { at_router = queue })
            v.in_router.0.0 for v.same v.array (omega (arith, v.conserved)) v.within v.in_net
            v.in_router.1 v.in_b in
        (live, omega (arith, advanced, stages))

    go :
        (p.source_id ≡ 1) ⊎ (p.source_id ≡ 3)
        → Advances file
            (record s { at_router = p ∷ queue })
            (post_some (Router.route p) (record s { at_router = queue }))
    go (inl one) = rw (Router.route_data p one) (sent host_b (ground arith) refl)
    go (inr three) = rw (Router.route_ack p three) (sent host_a (ground arith) refl)

b_round-Advances :
    (file : Bytes) (queue : List Packet) (s : System)
    → queue ≢ []
    → IsLive file (record s { at_b = queue })
    → Advances file (record s { at_b = queue }) (b_round (record s { at_b = queue }))
unfolding b_round HostB.send
b_round-Advances file [] s h v = absurd (h refl)
b_round-Advances file (p ∷ queue) s h v =
    let (live, advanced) =
      post-IsLive file router p (record s { at_b = queue }) v.in_b.0.0 (inr v.in_b.0.1) v.same
        v.array (omega (arith, v.conserved)) v.within v.in_net v.in_router v.in_b.1 in
    (live, ground (arith, advanced, v.in_b.0.1))

-- The datagram is out of the network, and not yet counted where it goes.
deliver-Advances :
    (file : Bytes) (to : Host) (p : Packet) (s : System)
    → length p.message ≡ buffer_size
    → IsFor to p.source_id
    → s.a.file ≡ file
    → length s.a.message ≡ buffer_size
    → suc (s.a.send_base + in_flight s) ≡ s.a.next_seq_num
    → s.a.next_seq_num ≤ limit s.a
    → All IsInFlight s.net
    → All IsQueued s.at_router
    → All IsAnswer s.at_b
    → IsLive file (deliver to p s)
      × (potential (deliver to p s) ≡ potential s + stage to p.source_id + 1)
unfolding deliver
deliver-Advances file host_a p s full for e array count within net rq bq =
    rw (HostA.receive_ack s.a p (ground arith)) (
      record {
        same = e;
        array = array;
        conserved = omega arith;
        within = omega arith;
        in_net = net;
        in_router = rq;
        in_b = bq;
      },
      omega arith,
    )
deliver-Advances file router p s full for e array count within net rq bq =
    rw (Router.receive_new s.at_router p (ground arith)) (
      record {
        same = e;
        array = array;
        conserved = omega (arith, length-append s.at_router (p ∷ []));
        within = within;
        in_net = net;
        in_router = All-append IsQueued s.at_router (p ∷ []) rq ((full, for), tt);
        in_b = bq;
      },
      ground (arith, sum_of-append queue_stage s.at_router (p ∷ [])),
    )
deliver-Advances file host_b p s full for e array count within net rq bq =
    let answer = HostB.acknowledgement p in
    rw (HostB.receive_new s.at_b p (ground arith)) (
      record {
        same = e;
        array = array;
        conserved = omega (arith, length-append s.at_b (answer ∷ []));
        within = within;
        in_net = net;
        in_router = rq;
        in_b = All-append IsAnswer s.at_b (answer ∷ []) bq (HostB.acknowledgement_fields p, tt);
      },
      omega (arith, length-append s.at_b (answer ∷ [])),
    )

pub Step-Advances : (file : Bytes) {s t : System} → Step s t → IsLive file s → Advances file s t
Step-Advances file (a_sends s h p e) v = a_sends-Advances file s h p e v
Step-Advances file (router_sends s h) v = router_round-Advances file s.at_router s h v
Step-Advances file (b_sends s h) v = b_round-Advances file s.at_b s h v
Step-Advances file (arrives s before after d from to e room) v =
    let ((full, for), rest) =
      All-middle IsInFlight before after d (subst (All IsInFlight) e v.in_net) in
    let (id, full') =
      through_wire_fields d.packet from to full (IsFor-lt d.to d.packet.source_id for) room in
    let (live, advanced) =
      deliver-Advances file d.to (through_wire d.packet from to)
        (record s { net = before ++ after }) full' (subst (IsFor d.to) (sym id) for) v.same v.array
        (omega (arith, v.conserved, length-around s.net before after d e)) v.within rest v.in_router
        v.in_b in
    (
      live,
      omega (
        arith,
        advanced,
        ap (stage d.to) id,
        ap (sum_of net_stage) e,
        sum_of-middle net_stage before after d,
      ),
    )

pub begin-IsLive :
    (file message : Bytes) → length message ≡ buffer_size → IsLive file (begin file message)
begin-IsLive file message e = record {
  same = refl;
  array = e;
  conserved = omega arith;
  within = omega arith;
  in_net = tt;
  in_router = tt;
  in_b = tt;
}

pub Run-Advances :
    (file : Bytes) {s : System} {n : ℕ} {t : System}
    → Run s n t
    → IsLive file s
    → IsLive file t × (potential t ≡ potential s + n)
Run-Advances file done v = (v, omega arith)
Run-Advances file (more r st) v =
    let (live, at) = Run-Advances file r v in
    let (live', at') = Step-Advances file st live in (live', omega (arith, at, at'))
