-- ===== src/Routing/Network/Downhill.antt =====
-- A3: every hop of a forwarding table leads to a router that is nearer, whatever is still in a buffer.
use computer_network_course.Prelude.{
  ℕ, suc, ◌+◌, ◌≤◌, ◌≡◌, ◌≢◌, ◌⊎◌, inl, inr, refl, sym, ap, subst, ◌∙◌, arith, true, false, List,
  [], ◌∷◌, Option, none, some, All, min, ne→==_false, Bool-cases, ◌==◌, if◌then◌else◌,
}
use native.Mathlib.Decide.{dec_lt}
use computer_network_course.Routing.Qt.{QHash, elem}
use computer_network_course.Routing.Text.{QtText}
use computer_network_course.Routing.Tables.{update_distance_vector}
use computer_network_course.Routing.Tables.Merge.{merge, improves, update_merges}
use computer_network_course.Routing.Records.{rip_decode}
use computer_network_course.Routing.Ports.{Port}

module _ (q : QHash) (t : QtText) (Link : ℕ → ℕ → Type 0) (far : ℕ → ℕ → ℕ) where
  open q use {Table, find}

  -- A cost that is there and at most `n`.
  abbrev pub AtMost : Table → ℕ → ℕ → Type 0
  AtMost costs j n = (c : ℕ) × (find costs j ≡ some c) × (c ≤ n)

  -- No cost of the first tables is lower than, or missing in, the second ones.
  abbrev pub Falls : (ℕ → Table) → (ℕ → Table) → Type 0
  Falls old new = (a j n : ℕ) → find (old a) j ≡ some n → AtMost (new a) j n

  -- What a text says of `b` is what `b` had once: its costs are now at most those.
  abbrev pub Behind : (ℕ → Table) → ℕ → List ℕ → Type 0
  Behind costs b text = (j n : ℕ) → find (rip_decode q t text) j ≡ some n → AtMost (costs b) j n

  abbrev pub HeardBehind : (ℕ → Table) → Port → Type 0
  HeardBehind costs p = All (Behind costs p.destination.node_id) p.buffer

  -- The next hop of `a` for `j`, at a cost of `n`: `j` itself, or a neighbour whose cost is lower.
  pub record Next (costs : ℕ → Table) (ns : List ℕ) (a j : ℕ) (forwarding : Table) (n : ℕ)
      : Type 0 where
    pub port : ℕ
    pub entry : find forwarding j ≡ some port
    pub has_port : elem port ns ≡ true
    pub link : Link a (far a port)
    pub positive : 1 ≤ n
    pub onward : (far a port ≡ j) ⊎ ((m : ℕ) × (find (costs (far a port)) j ≡ some m) × (suc m ≤ n))

  -- The two tables of `a` fit.
  abbrev pub Routes : (ℕ → Table) → List ℕ → ℕ → Table → Table → Type 0
  Routes costs ns a table forwarding =
      (j n : ℕ) → j ≢ a → find table j ≡ some n → Next costs ns a j forwarding n

  Behind-Falls :
      (old new : ℕ → Table) (b : ℕ) (text : List ℕ)
      → Falls old new
      → Behind old b text
      → Behind new b text
  Behind-Falls old new b text falls behind j n e =
      let (c, ec, le) = behind j n e in
      let (d, ed, le') = falls b j c ec in (d, ed, omega (arith, le, le'))

  pub HeardBehind-Falls :
      (old new : ℕ → Table) (ports : List Port)
      → Falls old new
      → All (HeardBehind old) ports
      → All (HeardBehind new) ports
  HeardBehind-Falls old new [] falls h = tt
  HeardBehind-Falls old new (p ∷ ports) falls (hp, h) =
      (buffer p.destination.node_id p.buffer falls hp, HeardBehind-Falls old new ports falls h)
    where
      buffer :
          (b : ℕ) (texts : List (List ℕ))
          → Falls old new
          → All (Behind old b) texts
          → All (Behind new b) texts
      buffer b [] falls h = tt
      buffer b (text ∷ texts) falls (ht, h) =
          (Behind-Falls old new b text falls ht, buffer b texts falls h)

  onward-Falls :
      (old new : ℕ → Table) (b j n : ℕ)
      → Falls old new
      → (b ≡ j) ⊎ ((m : ℕ) × (find (old b) j ≡ some m) × (suc m ≤ n))
      → (b ≡ j) ⊎ ((m : ℕ) × (find (new b) j ≡ some m) × (suc m ≤ n))
  onward-Falls old new b j n falls (inl e) = inl e
  onward-Falls old new b j n falls (inr (m, e, le)) =
      let (c, ec, lec) = falls b j m e in inr (c, ec, omega (arith, le, lec))

  pub Routes-Falls :
      (old new : ℕ → Table) (ns : List ℕ) (a : ℕ) (table forwarding : Table)
      → Falls old new
      → Routes old ns a table forwarding
      → Routes new ns a table forwarding
  Routes-Falls old new ns a table forwarding falls h j n ne e =
      let hop = h j n ne e in
      record {
        port = hop.port;
        entry = hop.entry;
        has_port = hop.has_port;
        link = hop.link;
        positive = hop.positive;
        onward = onward-Falls old new (far a hop.port) j n falls hop.onward;
      }

  -- A port of `a`, with what lies behind its cable.
  pub record Cable (ns : List ℕ) (a b port : ℕ) : Type 0 where
    pub there : far a port ≡ b
    pub link : Link a b
    pub has_port : elem port ns ≡ true

  improved_hop :
      (costs : ℕ → Table) (ns : List ℕ) (a b port j m : ℕ) (forwarding : Table)
      → Cable ns a b port
      → AtMost (costs b) j m
      → find forwarding j ≡ some port
      → Next costs ns a j forwarding (m + 1)
  improved_hop costs ns a b port j m forwarding cable (c, ec, le) e = record {
    port = port;
    entry = e;
    has_port = cable.has_port;
    link = subst (Link a) (sym cable.there) cable.link;
    positive = omega arith;
    onward = inr (c, ap (λ x. find (costs x) j) cable.there ∙ ec, omega (arith, le));
  }

  moved_hop :
      (costs : ℕ → Table) (ns : List ℕ) (a j n : ℕ) (forwarding forwarding' : Table)
      → find forwarding' j ≡ find forwarding j
      → Next costs ns a j forwarding n
      → Next costs ns a j forwarding' n
  moved_hop costs ns a j n forwarding forwarding' e hop = record {
    port = hop.port;
    entry = e ∙ hop.entry;
    has_port = hop.has_port;
    link = hop.link;
    positive = hop.positive;
    onward = hop.onward;
  }

  -- One entry of an update, by the old and the received cost.
  updated_hop :
      (costs : ℕ → Table) (ns : List ℕ) (a b port j n : ℕ) (old new : Option ℕ)
      (forwarding forwarding' : Table)
      → Cable ns a b port
      → ((m : ℕ) → new ≡ some m → AtMost (costs b) j m)
      → ((m : ℕ) → old ≡ some m → Next costs ns a j forwarding m)
      → merge old new ≡ some n
      → find forwarding' j ≡ (if improves old new then some port else find forwarding j)
      → Next costs ns a j forwarding' n
  updated_hop costs ns a b port j n old none forwarding forwarding' cable via own e ef =
      moved_hop costs ns a j n forwarding forwarding' ef (own n e)
  updated_hop costs ns a b port j n none (some m) forwarding forwarding' cable via own e ef =
      subst (Next costs ns a j forwarding') (ground arith)
        (improved_hop costs ns a b port j m forwarding' cable (via m refl) ef)
  updated_hop costs ns a b port j n (some k) (some m) forwarding forwarding' cable via own e ef =
      elim (dec_lt (m + 1) k) [
        | yes p ↦
            subst (Next costs ns a j forwarding') (ground arith)
              (improved_hop costs ns a b port j m forwarding' cable (via m refl) (ground arith))
        | no p ↦
            moved_hop costs ns a j n forwarding forwarding' (ground arith) (own n (ground arith))
      ]

  pub update-Routes :
      (costs : ℕ → Table) (ns : List ℕ) (a b port : ℕ) (received table forwarding : Table)
      → Cable ns a b port
      → ((j m : ℕ) → find received j ≡ some m → AtMost (costs b) j m)
      → Routes costs ns a table forwarding
      → let s = update_distance_vector q a received port table forwarding in
        Routes costs ns a s.costs s.forwarding
  update-Routes costs ns a b port received table forwarding cable via own j n ne e =
      let (entry, route, same) = update_merges q a received port table forwarding j in
      let other : (j == a) ≡ false = ne→==_false j a ne in
      updated_hop costs ns a b port j n (find table j) (find received j) forwarding
        (update_distance_vector q a received port table forwarding).forwarding cable (via j)
        (λ m. own j m ne) (ground arith) (ground arith)

  merged_falls :
      (old new : Option ℕ) (n : ℕ) → old ≡ some n → (c : ℕ) × (merge old new ≡ some c) × (c ≤ n)
  merged_falls old none n e = (n, e, omega arith)
  merged_falls none (some m) n e = cc
  merged_falls (some k) (some m) n e = (min k (m + 1), refl, ground arith)

  -- No update makes a cost higher.
  pub update_falls :
      (a port : ℕ) (received table forwarding : Table) (j n : ℕ)
      → find table j ≡ some n
      → AtMost (update_distance_vector q a received port table forwarding).costs j n
  update_falls a port received table forwarding j n e =
      let (entry, route, same_lsp) = update_merges q a received port table forwarding j in
      elim (Bool-cases (j == a)) [
        | inl same ↦ (n, ground arith, omega arith)
        | inr other ↦
            let (c, ec, le) = merged_falls (find table j) (find received j) n e in
            (c, ground arith, le)
      ]
