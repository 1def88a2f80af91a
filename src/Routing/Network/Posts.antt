-- ===== src/Routing/Network/Posts.antt =====
-- A3: what is sent keeps every hop leading to a nearer router.
use computer_network_course.Prelude.{
  ℕ, ◌≡◌, inl, inr, refl, sym, ap, subst, ◌∙◌, List, [], ◌∷◌, All, All-append, ==_iff, Bool-cases,
  if_true, if_false, ◌==◌,
}
use computer_network_course.Routing.Qt.{QHash}
use computer_network_course.Routing.Text.{QtText}
use computer_network_course.Routing.Ports.{numbers, Port, Peer, Sends, deliver}
use computer_network_course.Routing.Router.{Router}
use computer_network_course.Routing.Network.{Net, put, deliver_at, post, post_all}
use computer_network_course.Routing.Network.Tidy.{PortIs, Tidy, SendIs, post-Tidy}
use computer_network_course.Routing.Network.Downhill.{
  Falls, Behind, HeardBehind, Routes, HeardBehind-Falls, Routes-Falls,
}

pub numbers-deliver_at :
    (number : ℕ) (text : List ℕ) (ports : List Port)
    → numbers (deliver_at number text ports) ≡ numbers ports
unfolding deliver_at deliver
numbers-deliver_at number text [] = refl
numbers-deliver_at number text (p ∷ ports) = elim (Bool-cases (p.number == number)) [
  | inl same ↦ rw same refl
  | inr other ↦ rw other (ap (◌∷◌ p.number) (numbers-deliver_at number text ports))
]

module _ (q : QHash) (t : QtText) (Link : ℕ → ℕ → Type 0) (far : ℕ → ℕ → ℕ) where
  open q use {Table, find}

  abbrev pub costs_of : Net q → ℕ → Table
  costs_of net a = (net a).distance_vector

  -- A router against the costs of all.
  abbrev pub FlowAt : (ℕ → Table) → ℕ → List Port → Table → Table → Type 0
  FlowAt costs a ports table forwarding =
      All (HeardBehind q t Link far costs) ports
      × Routes q t Link far costs (numbers ports) a table forwarding

  abbrev pub FlowIs : (ℕ → Table) → ℕ → Router q → Type 0
  FlowIs costs a r = FlowAt costs a r.ports r.distance_vector r.forwarding_table

  abbrev pub FlowsOver : (ℕ → Table) → Net q → Type 0
  FlowsOver costs net = (a : ℕ) → FlowIs costs a (net a)

  abbrev pub Flows : Net q → Type 0
  Flows net = FlowsOver (costs_of net) net

  pub FlowIs-Falls :
      (old new : ℕ → Table) (a : ℕ) (r : Router q)
      → Falls q t Link far old new
      → FlowIs old a r
      → FlowIs new a r
  FlowIs-Falls old new a r falls (heard, routes) = (
    HeardBehind-Falls q t Link far old new r.ports falls heard,
    Routes-Falls q t Link far old new (numbers r.ports) a r.distance_vector r.forwarding_table falls
        routes,
  )

  pub put-FlowsOver :
      (costs : ℕ → Table) (a : ℕ) (r : Router q) (net : Net q)
      → FlowIs costs a r
      → FlowsOver costs net
      → FlowsOver costs (put q a r net)
  put-FlowsOver costs a r net h flows b = elim (Bool-cases (b == a)) [
    | inl same ↦ rw same (subst (λ x. FlowIs costs x r) (sym ((==_iff b a).0 same)) h)
    | inr other ↦ rw other (flows b)
  ]

  deliver_at-HeardBehind :
      (costs : ℕ → Table) (a b number : ℕ) (text : List ℕ) (ports : List Port)
      → All (PortIs q t Link far a) ports
      → far a number ≡ b
      → Behind q t Link far costs b text
      → All (HeardBehind q t Link far costs) ports
      → All (HeardBehind q t Link far costs) (deliver_at number text ports)
  unfolding deliver_at deliver
  deliver_at-HeardBehind costs a b number text [] hp e told h = tt
  deliver_at-HeardBehind costs a b number text (p ∷ ports) (hp, hps) e told (heard, h) =
      elim (Bool-cases (p.number == number)) [
        | inl same ↦ rw same (
          All-append (Behind q t Link far costs p.destination.node_id) p.buffer (text ∷ []) heard (
            subst (λ x. Behind q t Link far costs x text)
                (sym (hp.there ∙ ap (far a) ((==_iff p.number number).0 same) ∙ e)) told,
            tt,
          ),
          h,
        )
        | inr other ↦
            rw other (heard, deliver_at-HeardBehind costs a b number text ports hps e told h)
      ]

  post-FlowsOver :
      (costs : ℕ → Table) (a : ℕ) (s : Peer × List ℕ) (net : Net q)
      → Tidy q t Link far net
      → far s.0.node_id s.0.number ≡ a
      → Behind q t Link far costs a s.1
      → FlowsOver costs net
      → FlowsOver costs (post q s net)
  unfolding post
  post-FlowsOver costs a (dest, text) net tidy e told flows =
      let (heard, routes) = flows dest.node_id in
      put-FlowsOver costs dest.node_id _ net
        (
          deliver_at-HeardBehind costs dest.node_id a dest.number text (net dest.node_id).ports
              (tidy dest.node_id).ports e told heard,
          subst
              (λ ns.
                Routes q t Link far costs ns dest.node_id (net dest.node_id).distance_vector
                  (net dest.node_id).forwarding_table)
              (sym (numbers-deliver_at dest.number text (net dest.node_id).ports)) routes,
        )
        flows

  pub post_all-FlowsOver :
      (costs : ℕ → Table) (a : ℕ) (sends : Sends) (net : Net q)
      → Tidy q t Link far net
      → All (SendIs q t Link far a) sends
      → All (λ s. Behind q t Link far costs a s.1) sends
      → FlowsOver costs net
      → FlowsOver costs (post_all q sends net)
  unfolding post_all
  post_all-FlowsOver costs a [] net tidy hs told flows = flows
  post_all-FlowsOver costs a (s ∷ sends) net tidy (hs, h) (told, tolds) flows =
      post_all-FlowsOver costs a sends (post q s net) (post-Tidy q t Link far a s net hs tidy) h
        tolds (post-FlowsOver costs a s net tidy hs.0 told flows)

  costs_of-put :
      (a : ℕ) (r : Router q) (net : Net q) (b : ℕ)
      → r.distance_vector ≡ costs_of net a
      → costs_of (put q a r net) b ≡ costs_of net b
  costs_of-put a r net b e = elim (Bool-cases (b == a)) [
    | inl same ↦
        ap (λ x. x.distance_vector) (if_true r (net b) (b == a) same)
        ∙ e
        ∙ ap (costs_of net) (sym ((==_iff b a).0 same))
    | inr other ↦ ap (λ x. x.distance_vector) (if_false r (net b) (b == a) other)
  ]

  costs_of-post :
      (s : Peer × List ℕ) (net : Net q) (b : ℕ) → costs_of (post q s net) b ≡ costs_of net b
  unfolding post
  costs_of-post (dest, text) net b = costs_of-put dest.node_id _ net b refl

  pub costs_of-post_all :
      (sends : Sends) (net : Net q) (b : ℕ) → costs_of (post_all q sends net) b ≡ costs_of net b
  unfolding post_all
  costs_of-post_all [] net b = refl
  costs_of-post_all (s ∷ sends) net b =
      costs_of-post_all sends (post q s net) b ∙ costs_of-post s net b
