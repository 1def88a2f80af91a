-- ===== src/Routing/Tables/Ibgp/Routes.antt =====
-- A3/router.cpp: what `startIBGP` chooses and writes.
use computer_network_course.Prelude.{
  ℕ, zero, suc, ◌+◌, ◌≤◌, ◌≡◌, ◌≢◌, ◌⊎◌, inl, inr, refl, ◌∙◌, arith, Bool, true, false, ◌&&◌, ◌||◌,
  List, [], ◌∷◌, some, ltb, leb, ◌==◌, if◌then◌else◌, Bool-cases, All,
}
use computer_network_course.Routing.Qt.{QHash, elem}
use computer_network_course.Routing.Tables.Ibgp.{
  range, touch, value, nearest, route_via, route_outside, start_ibgp,
}

elem-range : (j first count : ℕ) → elem j (range first count) ≡ leb first j && ltb j (first + count)
elem-range j first zero = ground arith
elem-range j first (suc count) = ground (arith, elem-range j (first + 1) count)

member_step :
    (b best i : ℕ) (rest : List ℕ) (better : Bool)
    → (b ≡ (if better then i else best)) ⊎ (elem b rest ≡ true)
    → (b ≡ best) ⊎ (elem b (i ∷ rest) ≡ true)
member_step b best i rest true (inl e) = inr (ground arith)
member_step b best i rest false (inl e) = inl e
member_step b best i rest _ (inr e) = inr (ground arith)

elsewhere :
    (e a n b m : ℕ)
    → elem e (range a n) ≡ true
    → (a + n ≤ b) ⊎ (b + m ≤ a)
    → elem e (range b m) ≡ false
elsewhere e a n b m at h = ground (arith, elem-range e a n, elem-range e b m, at, h)

module _ (q : QHash) where
  open q use {Table, find, insert, find-insert}

  value-touch : (t : Table) (k j : ℕ) → value q (touch q t k) j ≡ value q t j
  unfolding touch
  value-touch t k j = ground (arith, find-insert t k 0 j)

  find-touch :
      (t : Table) (k j : ℕ)
      → find (touch q t k) j ≡ (if k == j then some (value q t k) else find t j)
  unfolding touch
  find-touch t k j = ground (arith, find-insert t k 0 j)

  find-route_via :
      (t : Table) (border : ℕ) (ids : List ℕ) (j : ℕ)
      → elem border ids ≡ false
      → ids ≢ []
      → find (route_via q t border ids) j
        ≡ (if (j == border) || elem j ids then some (value q t border) else find t j)
  unfolding route_via
  find-route_via t border [] j h ne = absurd (ne refl)
  find-route_via t border (i ∷ []) j h ne =
      ground (arith, find-insert (touch q t border) i (value q t border) j, find-touch t border j)
  find-route_via t border (i ∷ r ∷ rest) j h ne =
      let t' = insert (touch q t border) i (value q t border) in
      ground (
        arith,
        find-route_via t' border (r ∷ rest) j,
        find-insert (touch q t border) i (value q t border) j,
        find-touch t border j,
        find-insert (touch q t border) i (value q t border) border,
        find-touch t border border,
      )

  nearest_least :
      (f : ℕ → ℕ) (costs : Table) (best : ℕ) (is : List ℕ)
      → ((j : ℕ) → value q costs j ≡ f j)
      → let b = (nearest q costs best is).0 in
        (f b ≤ f best) × All (λ i. f b ≤ f i) is × ((b ≡ best) ⊎ (elem b is ≡ true))
  unfolding nearest
  nearest_least f costs best [] h = (omega arith, tt, inl refl)
  nearest_least f costs best (i ∷ rest) h =
      let kept : Table = touch q (touch q costs best) i in
      let best' : ℕ = if ltb (value q costs i) (value q costs best) then i else best in
      let (le, all, at) =
        nearest_least f kept best' rest
          (λ j. value-touch (touch q costs best) i j ∙ value-touch costs best j ∙ h j) in
      let (below, below_i) = smaller (value q costs i) (value q costs best) i best (h i) (h best) in
      (
        omega (arith, le, below),
        (omega (arith, le, below_i), all),
        member_step _ best i rest (ltb (value q costs i) (value q costs best)) at,
      )
    where
      smaller :
          (c d i best : ℕ)
          → c ≡ f i
          → d ≡ f best
          → (f (if ltb c d then i else best) ≤ f best) × (f (if ltb c d then i else best) ≤ f i)
      smaller c d i best p r = elim (Bool-cases (ltb c d)) [
        | inl up ↦ rw up (ground arith, omega arith)
        | inr same ↦ rw same (omega arith, ground arith)
      ]

  -- The border routers and the ids of the other autonomous system, by the router's own.
  abbrev pub first_border : ℕ → ℕ
  first_border as_id = if as_id == 1 then 14 else 17

  abbrev pub outside : ℕ → ℕ → Bool
  outside as_id j =
      if as_id == 1
      then (leb 17 j && leb j 24) || (leb 33 j && leb j 37)
      else (leb 1 j && leb j 16) || (leb 25 j && leb j 32)

  unfoldable pub exit : ℕ → Table → ℕ
  exit first costs = (nearest q costs first (range first 3)).0

  exit_least :
      (first : ℕ) (costs : Table)
      → (elem (exit first costs) (range first 3) ≡ true)
        × All (λ i. value q costs (exit first costs) ≤ value q costs i) (range first 3)
  unfolding exit
  exit_least first costs =
      let (le, all, at) = nearest_least (value q costs) costs first (range first 3) (λ k. refl) in
      (from_range (nearest q costs first (range first 3)).0 at, all)
    where
      from_range :
          (b : ℕ) → (b ≡ first) ⊎ (elem b (range first 3) ≡ true) → elem b (range first 3) ≡ true
      from_range b (inl e) = ground arith
      from_range b (inr e) = e

  route_outside_entry :
      (first : ℕ) (ids others : List ℕ) (costs forwarding : Table) (j : ℕ)
      → elem (exit first costs) ids ≡ false
      → elem (exit first costs) others ≡ false
      → ids ≢ []
      → others ≢ []
      → find (route_outside q first (range first 3) ids others costs forwarding).1 j ≡ (
          if (j == exit first costs) || elem j ids || elem j others
          then some (value q forwarding (exit first costs))
          else find forwarding j)
  unfolding route_outside exit
  route_outside_entry first ids others costs forwarding j hi ho hn on =
      let e = (nearest q costs first (range first 3)).0 in
      ground (
        arith,
        find-route_via (route_via q forwarding e ids) e others j ho on,
        find-route_via forwarding e ids j hi hn,
        find-route_via forwarding e ids e hi hn,
      )

  system_one :
      (costs forwarding : Table) (j : ℕ)
      → find (route_outside q 14 (range 14 3) (range 17 8) (range 33 5) costs forwarding).1 j ≡ (
          if (j == exit 14 costs) || ((leb 17 j && leb j 24) || (leb 33 j && leb j 37))
          then some (value q forwarding (exit 14 costs))
          else find forwarding j)
  system_one costs forwarding j =
      let at = (exit_least 14 costs).0 in
      ground (
        arith,
        route_outside_entry 14 (range 17 8) (range 33 5) costs forwarding j
            (elsewhere (exit 14 costs) 14 3 17 8 at (inl (omega arith)))
            (elsewhere (exit 14 costs) 14 3 33 5 at (inl (omega arith))) (λ e. cc) (λ e. cc),
        elem-range j 17 8,
        elem-range j 33 5,
      )

  system_two :
      (costs forwarding : Table) (j : ℕ)
      → find (route_outside q 17 (range 17 3) (range 1 16) (range 25 8) costs forwarding).1 j ≡ (
          if (j == exit 17 costs) || ((leb 1 j && leb j 16) || (leb 25 j && leb j 32))
          then some (value q forwarding (exit 17 costs))
          else find forwarding j)
  system_two costs forwarding j =
      let at = (exit_least 17 costs).0 in
      ground (
        arith,
        route_outside_entry 17 (range 1 16) (range 25 8) costs forwarding j
            (elsewhere (exit 17 costs) 17 3 1 16 at (inr (omega arith)))
            (elsewhere (exit 17 costs) 17 3 25 8 at (inl (omega arith))) (λ e. cc) (λ e. cc),
        elem-range j 1 16,
        elem-range j 25 8,
      )

  -- A router that is not a border router chooses one of the three border routers of its system, none of
  -- which has a smaller cost, a missing cost counting as 0; and behind the call exactly the ids of the
  -- other system, and the one chosen, are forwarded to the port of the one chosen, 0 if it has none.
  pub start_ibgp_exits :
      (as_id : ℕ) (costs forwarding : Table) (j : ℕ)
      → let e = exit (first_border as_id) costs in
        (elem e (range (first_border as_id) 3) ≡ true)
        × All (λ i. value q costs e ≤ value q costs i) (range (first_border as_id) 3)
        × (find (start_ibgp q false as_id costs forwarding).1 j ≡ (
            if (j == e) || outside as_id j then some (value q forwarding e) else find forwarding j))
  unfolding start_ibgp
  start_ibgp_exits as_id costs forwarding j =
      let (at, all) = exit_least (first_border as_id) costs in
      (
        at,
        all,
        elim (Bool-cases (as_id == 1)) [
          | inl one ↦ rw one (system_one costs forwarding j)
          | inr other ↦ rw other (system_two costs forwarding j)
        ],
      )
