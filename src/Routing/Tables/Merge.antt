-- ===== src/Routing/Tables/Merge.antt =====
-- A3/router.cpp: what the updates of the tables do to every entry.
use mathlib.Core.Bool.{false≢true}
use computer_network_course.Prelude.{
  ℕ, ◌+◌, ◌≡◌, ◌≢◌, ◌↔◌, inl, inr, refl, sym, ap, ◌∙◌, arith, min, Bool, true, false, not, ◌&&◌,
  ◌||◌, List, [], ◌∷◌, Option, none, some, ltb, ◌==◌, if◌then◌else◌, Bool-cases, Option-cases,
}
use computer_network_course.Routing.Qt.{QHash, elem, is_some}
use computer_network_course.Routing.Tables.{
  Tables, learn, learn_all, update_distance_vector, update_lsp,
}

-- A cost against one more than a received cost.
abbrev pub merge : Option ℕ → Option ℕ → Option ℕ
merge old none = old
merge none (some n) = some (n + 1)
merge (some m) (some n) = some (min m (n + 1))

-- The received cost is better.
abbrev pub improves : Option ℕ → Option ℕ → Bool
improves old none = false
improves none (some n) = true
improves (some m) (some n) = ltb (n + 1) m

module _ (q : QHash) where
  open q use {Table, find, insert, keys, find-insert, elem-keys}

  learn_costs :
      (id : ℕ) (received : Table) (port key : ℕ) (s : Tables q) (n j : ℕ)
      → find received key ≡ some n
      → find (learn q id received port key s).costs j ≡ (
          if (key == j) && not (key == id)
          then merge (find s.costs j) (find received j)
          else find s.costs j)
  unfolding learn
  learn_costs id received port key s n j e = ground (arith, find-insert s.costs key (n + 1) j)

  learn_forwarding :
      (id : ℕ) (received : Table) (port key : ℕ) (s : Tables q) (n j : ℕ)
      → find received key ≡ some n
      → find (learn q id received port key s).forwarding j ≡ (
          if (key == j) && not (key == id) && improves (find s.costs j) (find received j)
          then some port
          else find s.forwarding j)
  unfolding learn
  learn_forwarding id received port key s n j e =
      ground (arith, find-insert s.forwarding key port j)

  -- The keys that a loop goes over are keys of the received table.
  abbrev AllFound : Table → List ℕ → Type 0
  AllFound received [] = Unit
  AllFound received (k ∷ ks) = (is_some (find received k) ≡ true) × AllFound received ks

  merge_all :
      (id : ℕ) (received : Table) (port : ℕ) (ks : List ℕ) (s : Tables q) (j : ℕ)
      → AllFound received ks
      → find (learn_all q id received port ks s).costs j ≡ (
          if elem j ks && not (j == id)
          then merge (find s.costs j) (find received j)
          else find s.costs j)
  unfolding learn_all
  merge_all id received port [] s j h = refl
  merge_all id received port (k ∷ ks) s j (hk, h) = elim (Option-cases (find received k)) [
    | inl e ↦ ground arith
    | inr (n, e) ↦ ground (
      arith,
      merge_all id received port ks (learn q id received port k s) j h,
      learn_costs id received port k s n j e,
    )
  ]

  forward_all :
      (id : ℕ) (received : Table) (port : ℕ) (ks : List ℕ) (s : Tables q) (j : ℕ)
      → AllFound received ks
      → find (learn_all q id received port ks s).forwarding j ≡ (
          if elem j ks && not (j == id) && improves (find s.costs j) (find received j)
          then some port
          else find s.forwarding j)
  unfolding learn_all
  forward_all id received port [] s j h = refl
  forward_all id received port (k ∷ ks) s j (hk, h) = elim (Option-cases (find received k)) [
    | inl e ↦ ground arith
    | inr (n, e) ↦ ground (
      arith,
      forward_all id received port ks (learn q id received port k s) j h,
      learn_costs id received port k s n j e,
      learn_forwarding id received port k s n j e,
    )
  ]

  AllFound-keys : (received : Table) → AllFound received (keys received)
  AllFound-keys received = go (keys received) (λ k e. sym (elem-keys received k) ∙ e)
    where
      go :
          (ks : List ℕ)
          → ((k : ℕ) → elem k ks ≡ true → is_some (find received k) ≡ true)
          → AllFound received ks
      go [] h = tt
      go (k ∷ ks) h = (h k (ground arith), go ks (λ j e. h j (ground arith)))

  -- The update with the costs a neighbour sent: every entry but the router's own becomes the smaller of
  -- its cost and the received cost plus one, and is forwarded to the neighbour's port exactly if that is
  -- smaller; all else stays, the own entry included. Both protocols agree on this.
  pub update_merges :
      (id : ℕ) (received : Table) (port : ℕ) (costs forwarding : Table) (j : ℕ)
      → let s = update_distance_vector q id received port costs forwarding in
        (find s.costs j
          ≡ (if j == id then find costs j else merge (find costs j) (find received j)))
        × (find s.forwarding j ≡ (
            if not (j == id) && improves (find costs j) (find received j)
            then some port
            else find forwarding j))
        × (update_lsp q id received port costs forwarding ≡ (s.costs, s.forwarding))
  unfolding update_distance_vector update_lsp
  update_merges id received port costs forwarding j =
      let s : Tables q = record { costs = costs; forwarding = forwarding; changed = false } in
      let found = AllFound-keys received in
      (
        ground (arith, merge_all id received port (keys received) s j found, elem-keys received j),
        ground
            (arith, forward_all id received port (keys received) s j found, elem-keys received j),
        refl,
      )

  -- The flag of one round and of a loop.
  abbrev pub better : ℕ → Table → Table → ℕ → Bool
  better id costs received j = not (j == id) && improves (find costs j) (find received j)

  learn-better :
      (id : ℕ) (received : Table) (port key : ℕ) (s : Tables q)
      → is_some (find received key) ≡ true
      → (learn q id received port key s).changed ≡ s.changed || better id s.costs received key
  unfolding learn
  learn-better id received port key s h = ground arith

  learn_not_better :
      (id : ℕ) (received : Table) (port key : ℕ) (s : Tables q)
      → is_some (find received key) ≡ true
      → better id s.costs received key ≡ false
      → learn q id received port key s ≡ s
  unfolding learn
  learn_not_better id received port key s h e = ground arith

  changed_stays :
      (id : ℕ) (received : Table) (port : ℕ) (ks : List ℕ) (s : Tables q)
      → AllFound received ks
      → s.changed ≡ true
      → (learn_all q id received port ks s).changed ≡ true
  unfolding learn_all
  changed_stays id received port [] s h e = e
  changed_stays id received port (k ∷ ks) s (hk, h) e =
      changed_stays id received port ks (learn q id received port k s) h
        (ground (arith, learn-better id received port k s hk))

  abbrev pub any_better : ℕ → Table → Table → List ℕ → Bool
  any_better id costs received [] = false
  any_better id costs received (k ∷ ks) =
      better id costs received k || any_better id costs received ks

  changed_all :
      (id : ℕ) (received : Table) (port : ℕ) (ks : List ℕ) (s : Tables q)
      → AllFound received ks
      → (learn_all q id received port ks s).changed ≡ s.changed || any_better id s.costs received ks
  unfolding learn_all
  changed_all id received port [] s h = ground arith
  changed_all id received port (k ∷ ks) s (hk, h) =
      elim (Bool-cases (better id s.costs received k)) [
        | inl up ↦
            changed_stays id received port ks (learn q id received port k s) h
              (ground (arith, learn-better id received port k s hk))
            ∙ ground arith
        | inr same ↦
            ap (λ t. (learn_all q id received port ks t).changed)
              (learn_not_better id received port k s hk same)
            ∙ changed_all id received port ks s h
            ∙ ground arith
      ]

  any_better_sound :
      (id : ℕ) (costs received : Table) (ks : List ℕ)
      → any_better id costs received ks ≡ true
      → (j : ℕ) × (better id costs received j ≡ true)
  any_better_sound id costs received [] e = absurd (false≢true e)
  any_better_sound id costs received (k ∷ ks) e = elim (Bool-cases (better id costs received k)) [
    | inl up ↦ (k, up)
    | inr same ↦ any_better_sound id costs received ks (ground arith)
  ]

  any_better_complete :
      (id : ℕ) (costs received : Table) (ks : List ℕ) (j : ℕ)
      → elem j ks ≡ true
      → better id costs received j ≡ true
      → any_better id costs received ks ≡ true
  any_better_complete id costs received [] j e h = absurd (false≢true e)
  any_better_complete id costs received (k ∷ ks) j e h =
      ground (arith, any_better_complete id costs received ks j)

  -- The update reports a change exactly if some entry, other than the router's own, is new or has become
  -- smaller.
  pub changed_iff :
      (id : ℕ) (received : Table) (port : ℕ) (costs forwarding : Table)
      → ((update_distance_vector q id received port costs forwarding).changed ≡ true)
        ↔ ((j : ℕ) × (j ≢ id) × (improves (find costs j) (find received j) ≡ true))
  unfolding update_distance_vector
  changed_iff id received port costs forwarding =
      let s : Tables q = record { costs = costs; forwarding = forwarding; changed = false } in
      let all = changed_all id received port (keys received) s (AllFound-keys received) in
      (
        λ e.
            let (j, up) = any_better_sound id costs received (keys received) (sym all ∙ e) in
            (j, ground arith, ground arith),
        λ h.
            all
            ∙ any_better_complete id costs received (keys received) h.0
                (ground (arith, elem-keys received h.0, h.2)) (ground (arith, h.1, h.2)),
      )
