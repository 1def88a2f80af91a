-- ===== src/Routing/Network/Tidy.antt =====
-- A3: the invariant of the routers while RIP runs, and that what is sent keeps it.
use computer_network_course.Prelude.{
  ℕ, ◌+◌, ◌≤◌, ◌≡◌, refl, sym, ap, ◌∙◌, subst, arith, List, [], ◌∷◌, Option, none, some, All, ◌==◌,
  Bool-cases, min, inl, inr, ==_iff, All-append,
}
use computer_network_course.Routing.Qt.{QHash}
use computer_network_course.Routing.Text.{QtText}
use computer_network_course.Routing.Tables.{update_distance_vector}
use computer_network_course.Routing.Tables.Merge.{merge, update_merges}
use computer_network_course.Routing.Tables.Walks.{Sound}
use computer_network_course.Routing.Records.{rip_decode}
use computer_network_course.Routing.Ports.{Port, Peer, Sends, deliver}
use computer_network_course.Routing.Router.{Router, Turn}
use computer_network_course.Routing.Network.{Net, put, deliver_at, post, post_all, take_turn}

-- `far a n` is the node at the other end of port `n` of `a`.
module _ (q : QHash) (t : QtText) (Link : ℕ → ℕ → Type 0) (far : ℕ → ℕ → ℕ) where
  open q use {Table, find}

  -- A text that came from `b`.
  abbrev pub Told : ℕ → List ℕ → Type 0
  Told b text = Sound q Link b (rip_decode q t text)

  -- A port of `a`: its cable has two ends, is a link, and what lies in its buffer came through it.
  pub record PortIs (a : ℕ) (p : Port) : Type 0 where
    pub there : p.destination.node_id ≡ far a p.number
    pub back : far p.destination.node_id p.destination.number ≡ a
    pub link : Link a p.destination.node_id
    pub told : All (Told p.destination.node_id) p.buffer

  -- Every neighbour has a cost of at most 1.
  abbrev pub Near : ℕ → Table → Type 0
  Near a costs = (b : ℕ) → Link a b → (c : ℕ) × (find costs b ≡ some c) × (c ≤ 1)

  pub record RouterIs (a : ℕ) (r : Router q) : Type 0 where
    pub id : r.id ≡ a
    pub sound : Sound q Link a r.distance_vector
    pub near : Near a r.distance_vector
    pub ports : All (PortIs a) r.ports

  abbrev pub Tidy : Net q → Type 0
  Tidy net = (a : ℕ) → RouterIs a (net a)

  -- A message of `a` on its way.
  abbrev pub SendIs : ℕ → Peer × List ℕ → Type 0
  SendIs a (dest, text) = (far dest.node_id dest.number ≡ a) × Told a text

  merge_near :
      (old new : Option ℕ)
      → (c : ℕ) × (old ≡ some c) × (c ≤ 1)
      → (c : ℕ) × (merge old new ≡ some c) × (c ≤ 1)
  merge_near old none h = h
  merge_near none (some n) (c, e, le) = ground arith
  merge_near (some m) (some n) (c, e, le) = (min m (n + 1), refl, ground arith)

  pub update-Near :
      (a : ℕ) (received : Table) (port : ℕ) (costs forwarding : Table)
      → Near a costs
      → Near a (update_distance_vector q a received port costs forwarding).costs
  update-Near a received port costs forwarding near b l =
      let entry = (update_merges q a received port costs forwarding b).0 in
      let old = near b l in
      elim (Bool-cases (b == a)) [
        | inl same ↦ (old.0, entry ∙ rw same old.1, old.2)
        | inr other ↦
            let (c, e, le) = merge_near (find costs b) (find received b) old in
            (c, entry ∙ rw other e, le)
      ]

  deliver-PortIs :
      (a b : ℕ) (text : List ℕ) (p : Port)
      → PortIs a p
      → far a p.number ≡ b
      → Told b text
      → PortIs a (deliver text p)
  unfolding deliver
  deliver-PortIs a b text p h e told = record {
    there = h.there;
    back = h.back;
    link = h.link;
    told =
        All-append (Told p.destination.node_id) p.buffer (text ∷ []) h.told
          (subst (λ x. Told x text) (sym (h.there ∙ e)) told, tt);
  }

  deliver_at-PortIs :
      (a b number : ℕ) (text : List ℕ) (ports : List Port)
      → All (PortIs a) ports
      → far a number ≡ b
      → Told b text
      → All (PortIs a) (deliver_at number text ports)
  unfolding deliver_at
  deliver_at-PortIs a b number text [] h e told = tt
  deliver_at-PortIs a b number text (p ∷ ports) (hp, h) e told =
      elim (Bool-cases (p.number == number)) [
        | inl same ↦ rw same (
          deliver-PortIs a b text p hp (ap (far a) ((==_iff p.number number).0 same) ∙ e) told,
          h,
        )
        | inr other ↦ rw other (hp, deliver_at-PortIs a b number text ports h e told)
      ]

  pub put-Tidy :
      (a : ℕ) (r : Router q) (net : Net q) → RouterIs a r → Tidy net → Tidy (put q a r net)
  put-Tidy a r net h tidy b = elim (Bool-cases (b == a)) [
    | inl same ↦ rw same (subst (λ x. RouterIs x r) (sym ((==_iff b a).0 same)) h)
    | inr other ↦ rw other (tidy b)
  ]

  pub post-Tidy :
      (a : ℕ) (s : Peer × List ℕ) (net : Net q) → SendIs a s → Tidy net → Tidy (post q s net)
  unfolding post
  post-Tidy a (dest, text) net (e, told) tidy =
      let old = tidy dest.node_id in
      put-Tidy dest.node_id _ net
        (record {
          id = old.id;
          sound = old.sound;
          near = old.near;
          ports =
              deliver_at-PortIs dest.node_id a dest.number text (net dest.node_id).ports old.ports e
                told;
        })
        tidy

  post_all-Tidy :
      (a : ℕ) (sends : Sends) (net : Net q)
      → All (SendIs a) sends
      → Tidy net
      → Tidy (post_all q sends net)
  unfolding post_all
  post_all-Tidy a [] net h tidy = tidy
  post_all-Tidy a (s ∷ sends) net (hs, h) tidy =
      post_all-Tidy a sends (post q s net) h (post-Tidy a s net hs tidy)

  pub take_turn-Tidy :
      (a : ℕ) (turn : Turn q) (net : Net q)
      → RouterIs a turn.router
      → All (SendIs a) turn.sends
      → Tidy net
      → Tidy (take_turn q a turn net)
  unfolding take_turn
  take_turn-Tidy a turn net h sends tidy =
      post_all-Tidy a turn.sends (put q a turn.router net) sends (put-Tidy a turn.router net h tidy)
