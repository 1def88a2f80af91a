-- ===== src/Routing/Network/Delivery.antt =====
-- A3: a packet on its way through routers that have settled.
use mathlib.Core.Option.{bind}
use computer_network_course.Prelude.{
  ℕ, suc, ◌≡◌, ◌≢◌, inl, inr, refl, sym, ap, subst, ◌∙◌, arith, true, List, [], ◌∷◌, ◌++◌,
  append-nil, some, All, map, length, Bool-cases, if_true, if_false, ◌==◌,
}
use native.Mathlib.Decide.{ℕ_discrete}
use computer_network_course.Routing.Qt.{QHash, elem}
use computer_network_course.Routing.Text.{QtText}
use computer_network_course.Routing.Packet.{Packet, incode, decode}
use computer_network_course.Routing.Packet.Travel.{IsValid, hop, hop-IsValid, seen, decode-incode}
use computer_network_course.Routing.Packet.Journey.{seen_append}
use computer_network_course.Routing.Ports.{numbers, Port, Peer, deliver}
use computer_network_course.Routing.Router.{Router, Turn}
use computer_network_course.Routing.Router.Slots.{update}
use computer_network_course.Routing.Network.{
  Net, put, deliver_at, post, post_all, take_turn, take_updates,
}
use computer_network_course.Routing.Network.Posts.{numbers-deliver_at}
use computer_network_course.Routing.Network.Routes.{Route, at_end, through}
use computer_network_course.Routing.Network.Idle.{
  IsEmpty, OneText, emptied, get_port-All, get_port-number, emptied-IsEmpty, numbers-emptied,
}
use computer_network_course.Routing.Network.Forward.{IsOff, update_forwards}

deliver_at-OneText :
    (n : ℕ) (line : List ℕ) (ports : List Port)
    → elem n (numbers ports) ≡ true
    → All IsEmpty ports
    → OneText line (deliver_at n line ports)
unfolding deliver_at deliver
deliver_at-OneText n line [] e h = cc
deliver_at-OneText n line (p ∷ ports) e (hp, h) = elim (Bool-cases (p.number == n)) [
  | inl same ↦ rw same (inl (ap (λ b. b ++ line ∷ []) hp, h))
  | inr other ↦ rw other (inr (hp, deliver_at-OneText n line ports (ground arith) h))
]

module _ (q : QHash) where
  -- The text is in a buffer of `a`, and no other buffer has anything.
  abbrev pub IsAlone : List ℕ → ℕ → Net q → Type 0
  IsAlone line a net = OneText line (net a).ports × ((b : ℕ) → b ≢ a → All IsEmpty (net b).ports)

module _ (q : QHash) (t : QtText) (Link : ℕ → ℕ → Type 0) (far : ℕ → ℕ → ℕ) (s : Net q) where
  open q use {find}

  -- A cable ends at a port that is there.
  abbrev pub IsWired : ℕ → Port → Type 0
  IsWired a p =
      (p.destination.node_id ≡ far a p.number)
      × (elem p.destination.number (numbers (s p.destination.node_id).ports) ≡ true)

  -- A router as it was in `s`, but for its buffers.
  pub record Ready (a : ℕ) (r : Router q) : Type 0 where
    pub id : r.id ≡ a
    pub off : IsOff q t r
    pub entries : r.forwarding_table ≡ (s a).forwarding_table
    pub wired : All (IsWired a) r.ports
    pub same_numbers : numbers r.ports ≡ numbers (s a).ports

  abbrev pub AllReady : Net q → Type 0
  AllReady net = (a : ℕ) → Ready a (net a)

  emptied-IsWired :
      (a : ℕ) (ports : List Port) → All (IsWired a) ports → All (IsWired a) (emptied ports)
  emptied-IsWired a [] h = tt
  emptied-IsWired a (p ∷ ports) (hp, h) = (hp, emptied-IsWired a ports h)

  deliver_at-IsWired :
      (a n : ℕ) (line : List ℕ) (ports : List Port)
      → All (IsWired a) ports
      → All (IsWired a) (deliver_at n line ports)
  unfolding deliver_at deliver
  deliver_at-IsWired a n line [] h = tt
  deliver_at-IsWired a n line (p ∷ ports) (hp, h) = elim (Bool-cases (p.number == n)) [
    | inl same ↦ rw same (hp, h)
    | inr other ↦ rw other (hp, deliver_at-IsWired a n line ports h)
  ]

  emptied-Ready :
      (a : ℕ) (r : Router q) → Ready a r → Ready a (record r { ports = emptied r.ports })
  emptied-Ready a r h = record {
    id = h.id;
    off = h.off;
    entries = h.entries;
    wired = emptied-IsWired a r.ports h.wired;
    same_numbers = numbers-emptied r.ports ∙ h.same_numbers;
  }

  deliver_at-Ready :
      (a n : ℕ) (line : List ℕ) (r : Router q)
      → Ready a r
      → Ready a (record r { ports = deliver_at n line r.ports })
  deliver_at-Ready a n line r h = record {
    id = h.id;
    off = h.off;
    entries = h.entries;
    wired = deliver_at-IsWired a n line r.ports h.wired;
    same_numbers = numbers-deliver_at n line r.ports ∙ h.same_numbers;
  }

  -- What holds of a router that is put, and of the others.
  put-pointwise :
      (P : ℕ → Router q → Type 0) (a : ℕ) (r : Router q) (net : Net q)
      → P a r
      → ((b : ℕ) → b ≢ a → P b (net b))
      → (b : ℕ) → P b (put q a r net b)
  put-pointwise P a r net h others b = elim (ℕ_discrete b a) [
    | yes same ↦
        subst (P b) (sym (if_true r (net b) (b == a) (ground arith)))
          (subst (λ x. P x r) (sym same) h)
    | no other ↦ subst (P b) (sym (if_false r (net b) (b == a) (ground arith))) (others b other)
  ]

  pub delivered-IsAlone :
      (line : List ℕ) (dest : Peer) (net : Net q)
      → ((b : ℕ) → All IsEmpty (net b).ports)
      → elem dest.number (numbers (net dest.node_id).ports) ≡ true
      → IsAlone q line dest.node_id (post q (dest, line) net)
  unfolding post
  delivered-IsAlone line dest net silent has = (
    subst (λ (r : Router q). OneText line r.ports)
        (sym (if_true _ _ (dest.node_id == dest.node_id) (ground arith)))
        (deliver_at-OneText dest.number line (net dest.node_id).ports has (silent dest.node_id)),
    λ b ne.
        subst (λ (r : Router q). All IsEmpty r.ports)
          (sym (if_false _ _ (b == dest.node_id) (ground arith))) (silent b),
  )

  -- The network once the packet was taken from its buffer.
  abbrev pub taken : ℕ → Net q → Net q
  taken a net = put q a (record (net a) { ports = emptied (net a).ports }) net

  taken-AllReady : (a : ℕ) (net : Net q) → AllReady net → AllReady (taken a net)
  taken-AllReady a net ready =
      put-pointwise Ready a _ net (emptied-Ready a (net a) (ready a)) (λ b ne. ready b)

  pub post-AllReady :
      (dest : Peer) (line : List ℕ) (net : Net q)
      → AllReady net
      → AllReady (post q (dest, line) net)
  unfolding post
  post-AllReady dest line net ready =
      put-pointwise Ready dest.node_id _ net
        (deliver_at-Ready dest.node_id dest.number line (net dest.node_id) (ready dest.node_id))
        (λ b ne. ready b)

  emptied-Silent :
      (a : ℕ) (line : List ℕ) (net : Net q)
      → IsAlone q line a net
      → (b : ℕ) → All IsEmpty (taken a net b).ports
  emptied-Silent a line net alone =
      put-pointwise (λ b r. All IsEmpty r.ports) a _ net (emptied-IsEmpty (net a).ports) alone.1

  -- A turn of the router that has the packet.
  packet_moves :
      (a port : ℕ) (p : Packet) (net : Net q)
      → AllReady net
      → IsAlone q (incode t p) a net
      → IsValid t p
      → find (s a).forwarding_table p.dest_id ≡ some port
      → elem port (numbers (s a).ports) ≡ true
      → (turn : Turn q) × (update q t (net a) ≡ some turn)
        × AllReady (take_turn q a turn net)
        × IsAlone q (incode t (hop t a p)) (far a port) (take_turn q a turn net)
  unfolding take_turn post_all
  packet_moves a port p net ready alone valid entry has =
      let r : Ready a (net a) = ready a in
      let sent =
        update_forwards q t port (net a) p r.off alone.0 valid
          (ap (λ f. find f p.dest_id) r.entries ∙ entry) (ap (elem port) r.same_numbers ∙ has) in
      let wired =
        get_port-All (IsWired a) port (emptied (net a).ports) sent.through
          (emptied-IsWired a (net a).ports r.wired) sent.found in
      let number : sent.through.number ≡ port =
        get_port-number port (emptied (net a).ports) sent.through sent.found in
      let dest : Peer = sent.through.destination in
      let text : List ℕ = incode t (hop t (net a).id p) in
      let gone : AllReady (taken a net) = taken-AllReady a net ready in
      (
        _,
        sent.turn,
        post-AllReady dest text (taken a net) gone,
        subst (λ b. IsAlone q (incode t (hop t a p)) b (post q (dest, text) (taken a net)))
            (wired.0 ∙ ap (far a) number)
            (subst
              (λ x.
                IsAlone q (incode t (hop t x p)) dest.node_id (post q (dest, text) (taken a net)))
              r.id
              (delivered-IsAlone text dest (taken a net) (emptied-Silent a (incode t p) net alone)
                (ap (elem dest.number) (gone dest.node_id).same_numbers ∙ wired.1))),
      )

  path_seen :
      (p : Packet) (a : ℕ) (ids : List ℕ)
      → seen (hop t a p).routers_in_path ++ map t.number ids
        ≡ seen p.routers_in_path ++ map t.number (a ∷ ids)
  path_seen p a ids = seen_append t (seen p.routers_in_path) (t.number a) (map t.number ids)

  -- In a network whose protocols are turned off and whose only text is a packet at one router, and where
  -- the forwarding tables lead from there to its destination in `n` hops: `n` routers, each updating
  -- once, bring it there, with exactly their ids behind its path, and no other text is anywhere.
  pub packet_delivered :
      {a j n : ℕ} (p : Packet) (net : Net q)
      → Route q t Link far s a j n
      → AllReady net
      → IsAlone q (incode t p) a net
      → IsValid t p
      → p.dest_id ≡ j
      → (ids : List ℕ) × (u : Net q) × (line : List ℕ) × (length ids ≡ n)
        × (take_updates q t ids net ≡ some u)
        × IsAlone q line j u
        × (decode t line
            ≡ some (record p { routers_in_path = seen p.routers_in_path ++ map t.number ids }))
  unfolding take_updates bind
  packet_delivered p net (at_end a) ready alone valid d = (
    [],
    net,
    incode t p,
    refl,
    refl,
    alone,
    decode-incode t p valid
        ∙ ap (λ ps. some (record p { routers_in_path = ps }))
            (sym (append-nil (seen p.routers_in_path))),
  )
  packet_delivered p net (through {a} {j} port entry has link way) ready alone valid d =
      let (turn, updated, ready', alone') =
        packet_moves a port p net ready alone valid (ap (find (s a).forwarding_table) d ∙ entry)
          has in
      let (ids, u, line, l, turns, there, text) =
        packet_delivered (hop t a p) (take_turn q a turn net) way ready' alone'
          (hop-IsValid t a p valid) d in
      (
        a ∷ ids,
        u,
        line,
        ap suc l,
        ap (λ o. bind o (λ turn. take_updates q t ids (take_turn q a turn net))) updated ∙ turns,
        there,
        text ∙ ap (λ ps. some (record p { routers_in_path = ps })) (path_seen p a ids),
      )
