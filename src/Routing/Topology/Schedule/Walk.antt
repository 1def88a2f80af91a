-- ===== src/Routing/Topology/Schedule/Walk.antt =====
-- A3/main.cpp: the walk of OSPF over the routers of a system.
use computer_network_course.Prelude.{
  ℕ, zero, suc, ◌+◌, ◌<◌, ◌≡◌, refl, sym, ap, ap₂, subst, ◌∙◌, arith, true, false, List, [], ◌∷◌,
  ◌++◌, map, leb, if_true, if_false,
}
use computer_network_course.Routing.Topology.Schedule.{
  start_protocol, print_table, Calls, positions, Chain, run_ospf_on_nodes, on_ospf_finished,
}

abbrev pub started : ℕ → List ℕ → Calls
started as_id is = map (λ i. (i, start_protocol as_id)) is

started-positions :
    (as_id start n : ℕ)
    → started as_id (positions start (suc n))
      ≡ started as_id (positions start n) ++ (start + n, start_protocol as_id) ∷ []
started-positions as_id start zero = ap (λ x. (x, start_protocol as_id) ∷ []) (omega arith)
started-positions as_id start (suc n) = ap (◌∷◌ (start, start_protocol as_id)) (
    started-positions as_id (start + 1) n
    ∙ ap (λ x. started as_id (positions (start + 1) n) ++ (x, start_protocol as_id) ∷ [])
        (omega arith))

module _ (count as_id start : ℕ) where
  -- From `main`'s call on, behind so many signals.
  unfoldable pub after : ℕ → Chain
  after zero =
      run_ospf_on_nodes count as_id start
        (record { index = start; calls = []; finish_flag = false })
  after (suc n) = on_ospf_finished count as_id start (after n)

  pub record IsAt (n : ℕ) (c : Chain) : Type 0 where
    pub index : c.index ≡ start + n
    pub calls : c.calls ≡ started as_id (positions start (suc n))
    pub finish_flag : c.finish_flag ≡ false

  run_on :
      (n : ℕ) (c : Chain)
      → n < count
      → c.index ≡ start + n
      → c.calls ≡ started as_id (positions start n)
      → c.finish_flag ≡ false
      → IsAt n (run_ospf_on_nodes count as_id start c)
  unfolding run_ospf_on_nodes
  run_on n c h i e f =
      subst (IsAt n) (sym (if_false _ _ (leb (count + start) c.index) (ground arith))) (record {
        index = i;
        calls =
            ap₂ (λ cs x. cs ++ (x, start_protocol as_id) ∷ []) e i
            ∙ sym (started-positions as_id start n);
        finish_flag = f;
      })

  after-IsAt : (n : ℕ) → n < count → IsAt n (after n)
  unfolding after on_ospf_finished
  after-IsAt zero h =
      run_on 0 (record { index = start; calls = []; finish_flag = false }) h (omega arith) refl refl
  after-IsAt (suc n) h =
      let at = after-IsAt n (omega arith) in
      run_on (suc n) (record (after n) { index = (after n).index + 1 }) h (omega (arith, at.index))
        at.calls at.finish_flag

  run_end :
      (n : ℕ) (c : Chain)
      → n ≡ count
      → c.index ≡ start + n
      → c.calls ≡ started as_id (positions start n)
      → ((run_ospf_on_nodes count as_id start c).finish_flag ≡ true)
        × ((run_ospf_on_nodes count as_id start c).calls
            ≡ started as_id (positions start n) ++ (start, print_table) ∷ [])
  unfolding run_ospf_on_nodes
  run_end n c h i e =
      let last =
        if_true (record c { calls = c.calls ++ (start, print_table) ∷ []; finish_flag = true })
          (record c { calls = c.calls ++ (c.index, start_protocol as_id) ∷ [] })
          (leb (count + start) c.index) (ground arith) in
      (
        ap (λ c. c.finish_flag) last,
        ap (λ c. c.calls) last ∙ ap (λ cs. cs ++ (start, print_table) ∷ []) e,
      )

  after_count :
      (n : ℕ)
      → n ≡ count
      → ((after n).finish_flag ≡ true)
        × ((after n).calls ≡ started as_id (positions start n) ++ (start, print_table) ∷ [])
  unfolding after on_ospf_finished
  after_count zero e =
      run_end 0 (record { index = start; calls = []; finish_flag = false }) e (omega arith) refl
  after_count (suc n) e =
      let at = after-IsAt n (omega arith) in
      run_end (suc n) (record (after n) { index = (after n).index + 1 }) e (omega (arith, at.index))
        at.calls

  -- The routers of a system start OSPF one after another: before the signal of the last one, the
  -- routers up to the one that runs were started once each, in order, and the flag is not set; at that
  -- signal every router was started, the first one's table is printed, and the flag is set.
  pub ospf_walk :
      ((n : ℕ) → n < count → IsAt n (after n))
      × ((after count).finish_flag ≡ true)
      × ((after count).calls ≡ started as_id (positions start count) ++ (start, print_table) ∷ [])
  ospf_walk = let (flag, calls) = after_count count refl in (after-IsAt, flag, calls)
