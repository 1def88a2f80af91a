-- ===== src/Routing/Tables/Walks.antt =====
-- A3/router.cpp: the costs of the distance-vector update as lengths of walks in the network.
use computer_network_course.Prelude.{
  ℕ, suc, ◌+◌, ◌≤◌, ◌≡◌, ◌≢◌, inl, inr, refl, sym, ap, subst, ◌∙◌, arith, false, Option, none, some,
  Bool-cases,
}
use mathlib.Core.Bool.{false≢true}
use native.Mathlib.Decide.{ℕ_discrete, dec_le}
use computer_network_course.Routing.Qt.{QHash}
use computer_network_course.Routing.Tables.{update_distance_vector}
use computer_network_course.Routing.Tables.Merge.{merge, improves, update_merges, changed_iff}

-- Walks of `n` links between the routers of one autonomous system.
pub data Walk (Link : ℕ → ℕ → Type 0) : ℕ → ℕ → ℕ → Type 0 where
  here : (a : ℕ) → Walk Link a a 0
  next : {a b c n : ℕ} → Link a b → Walk Link b c n → Walk Link a c (suc n)

module _ (q : QHash) (Link : ℕ → ℕ → Type 0) where
  open q use {Table, find}

  -- Every cost in the table of `a` is the length of a walk to the router that it stands for.
  abbrev pub Sound : ℕ → Table → Type 0
  Sound a costs = (j n : ℕ) → find costs j ≡ some n → Walk Link a j n

  merged_sound :
      (a b j n : ℕ) (old new : Option ℕ)
      → Link a b
      → ((m : ℕ) → new ≡ some m → Walk Link b j m)
      → ((m : ℕ) → old ≡ some m → Walk Link a j m)
      → merge old new ≡ some n
      → Walk Link a j n
  merged_sound a b j n old none l via own e = own n e
  merged_sound a b j n none (some m) l via own e =
      subst (Walk Link a j) (ground arith) (next l (via m refl))
  merged_sound a b j n (some k) (some m) l via own e = elim (dec_le k (m + 1)) [
    | yes p ↦ own n (ground arith)
    | no p ↦ subst (Walk Link a j) (ground arith) (next l (via m refl))
  ]

  -- The update with the table of a neighbour keeps every cost the length of some walk.
  pub update-Sound :
      (a b : ℕ) (received : Table) (port : ℕ) (costs forwarding : Table)
      → Link a b
      → Sound b received
      → Sound a costs
      → Sound a (update_distance_vector q a received port costs forwarding).costs
  update-Sound a b received port costs forwarding l via own j n e =
      let entry = (update_merges q a received port costs forwarding j).0 in
      elim (ℕ_discrete j a) [
        | yes same ↦ own j n (ground arith)
        | no other ↦
            merged_sound a b j n (find costs j) (find received j) l (via j) (own j) (ground arith)
      ]

  bounded_unless_improves :
      (old : Option ℕ) (m : ℕ)
      → improves old (some m) ≡ false
      → (c : ℕ) × (old ≡ some c) × (c ≤ m + 1)
  bounded_unless_improves none m e = absurd (false≢true (sym e))
  bounded_unless_improves (some c) m e = (c, refl, ground arith)

  settled_cost :
      (a j m : ℕ) (received : Table) (port : ℕ) (costs forwarding : Table)
      → j ≢ a
      → find received j ≡ some m
      → (update_distance_vector q a received port costs forwarding).changed ≡ false
      → (c : ℕ) × (find costs j ≡ some c) × (c ≤ m + 1)
  settled_cost a j m received port costs forwarding ne e quiet =
      elim (Bool-cases (improves (find costs j) (find received j))) [
        | inl up ↦ absurd (
            false≢true (sym quiet ∙ (changed_iff q a received port costs forwarding).1 (j, ne, up)))
        | inr same ↦
            bounded_unless_improves (find costs j) m (ap (improves (find costs j)) (sym e) ∙ same)
      ]

  -- In a network where every neighbour has a cost of at most 1, where no update with the table of a
  -- neighbour reports a change, and where all costs are lengths of walks, the cost of every router in
  -- reach is there, is the length of a walk, and is at most the length of any walk: the tables at which
  -- RIP comes to rest hold the shortest distances.
  pub stable_tables_shortest :
      (costs forwarding : ℕ → Table) (port : ℕ → ℕ → ℕ)
      → ((a : ℕ) → Sound a (costs a))
      → ((a b : ℕ) → Link a b → (c : ℕ) × (find (costs a) b ≡ some c) × (c ≤ 1))
      → ((a b : ℕ)
          → Link a b
          → (update_distance_vector q a (costs b) (port a b) (costs a) (forwarding a)).changed
            ≡ false)
      → {a j n : ℕ} → Walk Link a j n
      → a ≢ j
      → (c : ℕ) × (find (costs a) j ≡ some c) × Walk Link a j c × (c ≤ n)
  stable_tables_shortest costs forwarding port sound direct stable (here a) ne = absurd (ne refl)
  stable_tables_shortest costs forwarding port sound direct stable {a} {j} {n}
        (next {b = b} {n = k} l w) ne =
      elim (ℕ_discrete b j) [
        | yes there ↦
            let (c, e, le) = direct a b l in
            let at : find (costs a) j ≡ some c = ap (find (costs a)) (sym there) ∙ e in
            (c, at, sound a j c at, ground arith)
        | no onward ↦
            let (m, e, walk, le) =
              stable_tables_shortest costs forwarding port sound direct stable w onward in
            let (c, at, bound) =
              settled_cost a j m (costs b) (port a b) (costs a) (forwarding a) (λ p. ne (sym p)) e
                (stable a b l) in
            (c, at, sound a j c at, ground arith)
      ]
