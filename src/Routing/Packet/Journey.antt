-- ===== src/Routing/Packet/Journey.antt =====
-- A3: a packet from one PC to another, through routers that let it wait in their buffers first.
use mathlib.Core.Option.{bind}
use computer_network_course.Prelude.{
  ℕ, zero, suc, ◌+◌, ◌≡◌, refl, sym, ap, ap₂, ◌∙◌, arith, List, [], ◌∷◌, ◌++◌, Option, some, map,
  length, append-nil, append_assoc, Lacks, sum_of,
}
use computer_network_course.Prelude.Text.{codes}
use computer_network_course.Routing.Text.{QtText}
use computer_network_course.Routing.Packet.{
  Packet, hash, comma, packet, ip, incode, decode, increase_time_in_buffer, forwarded, print_packet,
  print_path,
}
use computer_network_course.Routing.Packet.Travel.{
  seen, hop, waited, IsValid, decode-incode, hop-IsValid, waited-IsValid, forwarded-incode,
  increase-incode,
}

-- A router, and how many updates find the packet in its buffer before the one that forwards it.
pub record Stop : Type 0 where
  pub router : ℕ
  pub waits : ℕ

module _ (t : QtText) where
  open t use {number}

  wait : ℕ → List ℕ → Option (List ℕ)
  wait zero line = some line
  wait (suc n) line = bind (increase_time_in_buffer t line) (wait n)

  unfoldable pub travel : List Stop → List ℕ → Option (List ℕ)
  unfolding wait
  travel [] line = some line
  travel (s ∷ stops) line = bind (bind (wait s.waits line) (forwarded t s.router)) (travel stops)

  with_parts :
      {ps rs : List (List ℕ)} {a b : ℕ} (p : Packet)
      → ps ≡ rs
      → a ≡ b
      → record p { routers_in_path = ps; cycle_in_buffer = a }
        ≡ record p { routers_in_path = rs; cycle_in_buffer = b }
  with_parts p e f = ap₂ (λ x y. record p { routers_in_path = x; cycle_in_buffer = y }) e f

  wait-incode :
      (n : ℕ) (p : Packet) → IsValid t p → wait n (incode t p) ≡ some (incode t (waited t n p))
  unfolding wait bind
  wait-incode zero p h = ap (λ r. some (incode t r)) (with_parts p refl (omega arith))
  wait-incode (suc n) p h =
      ap (λ o. bind o (wait n)) (increase-incode t p h)
      ∙ wait-incode n (waited t 1 p) (waited-IsValid t 1 p h)
      ∙ ap (λ r. some (incode t r)) (with_parts p refl (omega arith))

  abbrev pub names : List Stop → List (List ℕ)
  names stops = map (λ s. number s.router) stops

  abbrev pub arrived : List Stop → Packet → Packet
  arrived stops p = record p {
    routers_in_path = seen p.routers_in_path ++ names stops;
    cycle_in_buffer = p.cycle_in_buffer + sum_of (λ s. s.waits) stops;
  }

  pub seen_append :
      (ps : List (List ℕ)) (r : List ℕ) (rest : List (List ℕ))
      → seen (ps ++ r ∷ []) ++ rest ≡ ps ++ r ∷ rest
  seen_append [] r rest = refl
  seen_append (p ∷ ps) r rest = append_assoc (p ∷ ps) (r ∷ []) rest

  travel_arrives :
      (stops : List Stop) (p : Packet)
      → IsValid t p
      → (line : List ℕ) × (travel stops (incode t p) ≡ some line)
        × (decode t line ≡ some (arrived stops p))
  unfolding travel bind
  travel_arrives [] p h = (
    incode t p,
    refl,
    decode-incode t p h
        ∙ ap some (with_parts p (sym (append-nil (seen p.routers_in_path))) (omega arith)),
  )
  travel_arrives (s ∷ stops) p h =
      let w = waited t s.waits p in
      let wh = waited-IsValid t s.waits p h in
      let (line, go, at) = travel_arrives stops (hop t s.router w) (hop-IsValid t s.router w wh) in
      (
        line,
        ap (λ o. bind (bind o (forwarded t s.router)) (travel stops)) (wait-incode s.waits p h)
            ∙ ap (λ o. bind o (travel stops)) (forwarded-incode t s.router w wh)
            ∙ go,
        at
            ∙ ap some (
                with_parts p (seen_append (seen p.routers_in_path) (number s.router) (names stops))
                  (omega arith)),
      )

  length-names : (stops : List Stop) → length (names stops) ≡ length stops
  length-names [] = refl
  length-names (s ∷ stops) = ap suc (length-names stops)

  pub packet-IsValid : (m : List ℕ) (a b : ℕ) → Lacks hash m → IsValid t (packet t m a b)
  unfolding packet
  packet-IsValid m a b h = record {
    source = refl;
    dest = refl;
    message = h;
    path_hash = tt;
    path_comma = tt;
  }

  -- What the PC at the end prints.
  abbrev pub report : List Stop → List ℕ → ℕ → ℕ → List ℕ
  report stops m a b =
      codes "Packet Info: SourceIP:"
      ++ ip t a
      ++ codes " DestIP:"
      ++ ip t b
      ++ codes " Message:"
      ++ m
      ++ codes " RoutersInPath:"
      ++ t.join (names stops) comma
      ++ codes " PathLength:"
      ++ number (length stops + 1)
      ++ codes " CyclesInBuffer:"
      ++ number (sum_of (λ s. s.waits) stops)

  -- A packet whose message has no `#`, sent by a PC, reaches every router of its way and the PC at the
  -- end: no text on the way fails to decode, and the PC prints both addresses, the message, the ids of
  -- exactly the routers passed, in order, their number plus one, and the sum of the waits.
  pub packet_journey :
      (stops : List Stop) (m : List ℕ) (a b : ℕ)
      → Lacks hash m
      → (line : List ℕ) × (p : Packet) × (travel stops (incode t (packet t m a b)) ≡ some line)
        × (decode t line ≡ some p)
        × (print_packet t p ≡ some (report stops m a b, record p { routers_in_path = names stops }))
  unfolding print_packet print_path packet
  packet_journey stops m a b h =
      let (line, go, at) = travel_arrives stops (packet t m a b) (packet-IsValid m a b h) in
      let total : 0 + sum_of (λ s. s.waits) stops ≡ sum_of (λ s. s.waits) stops = omega arith in
      (line, arrived stops (packet t m a b), go, at, rw (length-names stops, total))
