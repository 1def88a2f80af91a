-- ===== src/Transport/Reliable/Exchange/Steps.antt =====
-- A4/Part2/Client.cpp and Server.cpp: rounds in which the next packet is taken, and the three rounds
-- from a lost packet to its retransmission.
use computer_network_course.Prelude.{
  ℕ, zero, suc, ◌+◌, ◌-◌, ◌≤◌, ◌<◌, ◌^◌, ◌≡◌, ◌≢◌, ◌⊎◌, inl, inr, refl, ap, sym, subst, ◌∙◌, arith,
  Bool, true, false, [],
}
use computer_network_course.Prelude.Int.{pos, ◌+ℤ◌, ◌==ℤ◌, pos_suc, pos_part}
use computer_network_course.Congestion.{fast_recovery}
use computer_network_course.Congestion.Recovery.{new_calms, duplicate_counts, duplicate_enters}
use computer_network_course.Transport.Packet.{default_message}
use computer_network_course.Transport.Reliable.Server.{Server, accept, serve}
use computer_network_course.Transport.Reliable.Client.{Client, send_to, count_loss}
use computer_network_course.Transport.Reliable.Client.Rounds.{on_reply_new, on_reply_duplicate}
use computer_network_course.Transport.Reliable.Exchange.{Exchange, answered, round, join_rounds}

-- A server whose last packet is a.
abbrev pub served : ℕ → Bool → Bool → Server
served a f g = record { last_packet_id = pos a; flag7 = f; flag8 = g }

-- A client that has the acknowledgement of a, and counts l losses.
pub record At (a l : ℕ) (c : Client) : Type 0 where
  pub next : c.packet_id ≡ pos (suc a)
  pub acked : c.last_ack_id ≡ pos a
  pub lost : c.loss ≡ pos l
  pub calm : l ≡ 0 → (c.control.state ≢ fast_recovery) × (c.control.dup_acks ≡ 0)

accept_taken :
    (a : ℕ) (f g : Bool)
    → (suc a ≢ 10) ⊎ (f ≡ false)
    → (suc a ≢ 23) ⊎ (g ≡ false)
    → accept (served a f g) (pos (suc a)) ≡ served (suc a) f g
unfolding accept ◌==ℤ◌ ◌+ℤ◌
accept_taken a f g h k = ground arith

count_found : (l : ℕ) → count_loss false (pos l) ≡ pos (l - 1)
unfolding count_loss ◌+ℤ◌
count_found zero = refl
count_found (suc l) = ground arith

count_lost : (l : ℕ) → count_loss true (pos l) ≡ pos (suc l)
unfolding count_loss ◌+ℤ◌
count_lost l = ground arith

-- A round of a packet that is taken; the acknowledgement before it need not have come.
pub taken_round :
    (j a l : ℕ) (f g : Bool) (c : Client)
    → j ≤ 40
    → suc a < 2 ^ 31
    → (suc a ≢ 10) ⊎ (f ≡ false)
    → (suc a ≢ 23) ⊎ (g ≡ false)
    → c.packet_id ≡ pos (suc a)
    → c.last_ack_id ≢ pos (suc a)
    → c.loss ≡ pos l
    → (c' : Client) × Exchange 1 j c (served a f g) (suc j) c' (served (suc a) f g)
      × At (suc a) (l - 1) c'
unfolding send_to
taken_round j a l f g c low small h k next unseen lost =
    let sent = (send_to default_message c).1 in
    let (counter, id, last, loss, control) =
      on_reply_new (pos (suc a)) (pos j) sent (λ e. unseen (sym e)) in
    let left : count_loss false c.loss ≡ pos (l - 1) = ap (count_loss false) lost ∙ count_found l in
    (
      (answered (suc a) j c).1,
      round j (suc a) (suc a) j c (served a f g) (served (suc a) f g) low small small next
          (accept_taken a f g h k) refl counter,
      record {
        next = id ∙ ap (λ i. i +ℤ pos 1) next ∙ pos_suc (suc a) ∙ ap pos (omega arith);
        acked = last;
        lost = loss ∙ left;
        calm = λ none.
            rw control
              (new_calms c.control (count_loss false c.loss) (rw (left, none) (omega arith)));
      },
    )

no_rounds : (j : ℕ) (c : Client) (s : Server) → Exchange 0 j c s j c s
no_rounds j c s = record {
  messages = [];
  replies = [];
  count = refl;
  client_side = λ rest. refl;
  server_side = λ rounds rest. ap (λ k. serve k s rest) (omega arith);
}

-- Rounds of packets that are taken, behind an acknowledgement; the lost ones are not among them.
pub taken_rounds :
    (k j a l j' a' l' : ℕ) (f g : Bool) (c : Client)
    → j + k ≡ j'
    → a + k ≡ a'
    → l - k ≡ l'
    → j' ≤ 41
    → a' < 2 ^ 31
    → (a' < 10) ⊎ (10 ≤ a) ⊎ (f ≡ false)
    → (a' < 23) ⊎ (23 ≤ a) ⊎ (g ≡ false)
    → At a l c
    → (c' : Client) × Exchange k j c (served a f g) j' c' (served a' f g) × At a' l' c'
taken_rounds zero j a l j' a' l' f g c ej ea el low small h i at =
    let ej' : j ≡ j' = omega arith in
    let ea' : a ≡ a' = omega arith in
    let el' : l ≡ l' = omega arith in
    (c, rw (sym ej', sym ea') (no_rounds j c (served a f g)), rw (sym ea', sym el') at)
taken_rounds (suc k) j a l j' a' l' f g c ej ea el low small h i at =
    let (c1, round1, at1) =
      taken_round j a l f g c (omega arith) (omega arith) (ground arith) (ground arith) at.next
        (λ e. omega (arith, ap pos_part (sym at.acked ∙ e))) at.lost in
    let (c2, rounds, at2) =
      taken_rounds k (suc j) (suc a) (l - 1) j' a' l' f g c1 (omega arith) (omega arith)
        (omega arith) low small (ground arith) (ground arith) at1 in
    (c2, join_rounds round1 rounds (omega arith), at2)

-- A client outside fast recovery with d duplicates, whose next packet is n.
record Waits (n a l d : ℕ) (c : Client) : Type 0 where
  next : c.packet_id ≡ pos n
  acked : c.last_ack_id ≡ pos a
  lost : c.loss ≡ pos l
  state : c.control.state ≢ fast_recovery
  dups : c.control.dup_acks ≡ d

-- The first duplicates, of packets that are not taken.
waiting_round :
    (j n a l d : ℕ) (s : Server) (f g : Bool) (c : Client)
    → j ≤ 40
    → n < 2 ^ 31
    → a < 2 ^ 31
    → d ≤ 1
    → accept s (pos n) ≡ served a f g
    → Waits n a l d c
    → (c' : Client) × Exchange 1 j c s (suc j) c' (served a f g)
      × Waits (suc n) a (suc l) (suc d) c'
unfolding send_to
waiting_round j n a l d s f g c low small small' few passed w =
    let sent = (send_to default_message c).1 in
    let (last, loss, control, back) = on_reply_duplicate (pos a) (pos j) sent w.acked in
    let (state, dups) =
      duplicate_counts c.control (c.loss +ℤ pos 1) w.state (omega (arith, w.dups)) in
    let outside : (answered a j c).1.control.state ≢ fast_recovery =
      subst (λ x. x.state ≢ fast_recovery) (sym control) state in
    elim back [
      | inl (inside, _, _) ↦ absurd (outside inside)
      | inr (_, counter, id) ↦ (
        (answered a j c).1,
        round j n a j c s (served a f g) low small small' w.next passed refl counter,
        record {
          next = id ∙ ap (λ i. i +ℤ pos 1) w.next ∙ pos_suc n ∙ ap pos (omega arith);
          acked = last;
          lost = loss ∙ ap (λ i. i +ℤ pos 1) w.lost ∙ pos_suc l ∙ ap pos (omega arith);
          state = outside;
          dups = ap (λ x. x.dup_acks) control ∙ dups ∙ omega (arith, w.dups);
        },
      )
    ]

-- The third one sets the counter and the packet back.
third_round :
    (j n a l : ℕ) (s : Server) (f g : Bool) (c : Client)
    → j ≤ 40
    → n < 2 ^ 31
    → a < 2 ^ 31
    → accept s (pos n) ≡ served a f g
    → Waits n a l 2 c
    → (c' : Client) × Exchange 1 j c s (suc (suc a)) c' (served a f g) × At a (suc l) c'
unfolding send_to
third_round j n a l s f g c low small small' passed w =
    let sent = (send_to default_message c).1 in
    let (last, loss, control, back) = on_reply_duplicate (pos a) (pos j) sent w.acked in
    let inside : (answered a j c).1.control.state ≡ fast_recovery =
      ap (λ x. x.state) control ∙ duplicate_enters c.control (c.loss +ℤ pos 1) w.dups in
    let above : pos a +ℤ pos 1 ≡ pos (suc a) = pos_suc a ∙ ap pos (omega arith) in
    elim back [
      | inr (outside, _, _) ↦ absurd (outside inside)
      | inl (_, counter, id) ↦ (
        (answered a j c).1,
        round j n a (suc a) c s (served a f g) low small small' w.next passed refl
            (counter ∙ above),
        record {
          next = id ∙ above;
          acked = last;
          lost = loss ∙ ap (λ i. i +ℤ pos 1) w.lost ∙ pos_suc l ∙ ap pos (omega arith);
          calm = λ none. absurd (omega arith);
        },
      )
    ]

accept_passed : (a n : ℕ) (f g : Bool) → n ≢ suc a → accept (served a f g) (pos n) ≡ served a f g
unfolding accept ◌==ℤ◌ ◌+ℤ◌
accept_passed a n f g ne = ground arith

-- From a packet that the server loses to its retransmission: three rounds, behind which the counter is
-- one above the id of the packet.
pub lost_rounds :
    (j a : ℕ) (f g f' g' : Bool) (c : Client)
    → j + 2 ≤ 40
    → a + 3 < 2 ^ 31
    → accept (served a f g) (pos (suc a)) ≡ served a f' g'
    → At a 0 c
    → (c' : Client) × Exchange 3 j c (served a f g) (suc (suc a)) c' (served a f' g') × At a 3 c'
lost_rounds j a f g f' g' c low small dropped at =
    let (c1, round1, w1) =
      waiting_round j (suc a) a 0 0 (served a f g) f' g' c (omega arith) (omega arith) (omega arith)
        (omega arith) dropped
        (record {
          next = at.next;
          acked = at.acked;
          lost = at.lost;
          state = (at.calm refl).0;
          dups = (at.calm refl).1;
        }) in
    let (c2, round2, w2) =
      waiting_round (suc j) (suc (suc a)) a 1 1 (served a f' g') f' g' c1 (omega arith)
        (omega arith) (omega arith) (omega arith)
        (accept_passed a (suc (suc a)) f' g' (omega arith)) w1 in
    let (c3, round3, back) =
      third_round (suc (suc j)) (suc (suc (suc a))) a 2 (served a f' g') f' g' c2 (omega arith)
        (omega arith) (omega arith) (accept_passed a (suc (suc (suc a))) f' g' (omega arith)) w2 in
    (c3, join_rounds round1 (join_rounds round2 round3 refl) refl, back)
