-- ===== src/Cone/Search/Correct.antt =====
-- What `LogicCone::search` finds.
use tamara.Util.Connections.{Ptr, get_rtlil_name}
use tamara.Cone.Search.Fuel.{unvisited, search_loop-ok}
use tamara.Cone.Node.{Node, null, is_terminal, kind_of, neighbours_of}
use tamara.Cone.Search.First.{IsFresh, first-Good, next}
use tamara.Cone.Search.Loop.{Inputs, Good, search_loop-Good}
use tamara.Cone.Search.Invariant.{IsElement}
use tamara.Cone.Search.Push.{Visits, neighbours_of-all_neighbours}
use tamara.Cone.Search.Round.{is_passed}
use tamara.Common.{
  ℕ, List, length, ◌≡◌, [], ◌≤◌, arith, ok, suc, inl, ◌∷◌, inr, refl, sym, ◌∙◌, In, subst, ◌&&◌,
  ◌↔◌, true, false, ⊎_elim, false≢true, Option, ◌⊎◌, some, none,
}
use tamara.Cone.Search.{
  search, State, start, search_loop, verify_input_nodes, LogicCone, Ptr, Node, all_neighbours,
  consider, store,
}
use tamara.Cone.Search.Behind.{UniqueNames, Behind, beside, beyond, Stands}
use tamara.Rtlil.Platform.{Platform}

module _ (p : Platform) where
  open p use {wire_map, name_set}

  module _ (connections : wire_map.Map) where
    abbrev pub bound : ℕ
    bound = length (all_neighbours p connections)

    unvisited_bound :
        (us : List (Ptr p)) (visited : name_set.Set) → unvisited p us visited ≤ length us
    unvisited_bound [] visited = omega arith
    unvisited_bound (u ∷ us) visited = ground (arith, unvisited_bound us visited)

    pub fuel_enough :
        (c : LogicCone p)
        → c.frontier ≡ []
        → (t : State p) × (search_loop p connections (suc bound) (start p c) ≡ ok t)
    unfolding start
    fuel_enough c empty =
        search_loop-ok p connections (suc bound) (start p c)
          (rw empty (omega (arith, unvisited_bound (all_neighbours p connections) name_set.empty)))

    round_first :
        (fuel : ℕ) (c : LogicCone p)
        → c.frontier ≡ []
        → search_loop p connections (suc fuel) (start p c)
          ≡ search_loop p connections fuel
              (consider p connections (record (start p c) { frontier = [] }) c.output_node)
    unfolding search_loop start
    round_first fuel c empty = rw empty refl

  verify_input_nodes-Inputs :
      (connections : wire_map.Map) (root : Ptr p) (frontier inputs : List (Node p))
      → Inputs p connections root frontier inputs
      → verify_input_nodes p inputs ≡ ok tt
  unfolding verify_input_nodes
  verify_input_nodes-Inputs connections root frontier inputs (inl none_yet) = rw none_yet refl
  verify_input_nodes-Inputs connections root frontier inputs (inr (_, (n, one, terminal, _))) =
      rw (one, terminal) refl

  search_finishes :
      (connections : wire_map.Map) (c : LogicCone p) (t : State p)
      → (null c.frontier && (null c.cone && null c.input_nodes)) ≡ true
      → search_loop p connections (suc (bound connections)) (start p c) ≡ ok t
      → verify_input_nodes p t.input_nodes ≡ ok tt
      → search p connections c ≡ ok (store p c t)
  unfolding search
  search_finishes connections c t fresh ends verified = rw (fresh, ends, verified) refl

  IsFresh-null :
      (c : LogicCone p)
      → IsFresh p c
      → (null c.frontier && (null c.cone && null c.input_nodes)) ≡ true
  IsFresh-null c fresh = rw (fresh.0, fresh.1, fresh.2) refl

  -- a cell or a flip flop behind the root, unless there is none
  abbrev pub CutFound : wire_map.Map → Ptr p → Option (Node p) → Type 0
  CutFound connections root none =
      ¬ ((b : Ptr p) × Behind p connections root b × (is_passed (kind_of p connections b) ≡ false))
  CutFound connections root (some n) =
      (is_passed n.kind ≡ false)
      × (n.kind ≡ kind_of p connections n.obj)
      × Behind p connections root n.obj

  module _ (connections : wire_map.Map) (unique : UniqueNames p connections) (c : LogicCone p)
      (fresh : IsFresh p c) where
    abbrev root : Ptr p
    root = c.output_node.obj

    pub search-stored :
        (t : State p) × (search p connections c ≡ ok (store p c t))
        × (search_loop p connections (bound connections) (next p connections unique c fresh) ≡ ok t)
    search-stored =
        let (t, ends) = fuel_enough connections c fresh.0 in
        let looped = sym (round_first connections (bound connections) c fresh.0) ∙ ends in
        let (good, empty) =
          search_loop-Good p connections unique root (bound connections) _ t
            (first-Good p connections unique c fresh) looped in
        (
          t,
          search_finishes connections c t (IsFresh-null c fresh) ends
              (verify_input_nodes-Inputs connections root t.frontier t.input_nodes good.inputs),
          looped,
        )

    search-Good :
        (t : State p) × (search p connections c ≡ ok (store p c t))
        × Good p connections unique root t
        × (t.frontier ≡ [])
    search-Good =
        let (t, stored, looped) = search-stored in
        let (good, empty) =
          search_loop-Good p connections unique root (bound connections) _ t
            (first-Good p connections unique c fresh) looped in
        (t, stored, good, empty)

    -- what the loop left is the whole of what is behind the root
    module _ (t : State p) (good : Good p connections unique root t) (empty : t.frontier ≡ []) where
      Behind-known : (b : Ptr p) → Behind p connections root b → In b (all_neighbours p connections)
      Behind-known b (beside next) = neighbours_of-all_neighbours p connections root b next
      Behind-known b (beyond behind element next) =
          neighbours_of-all_neighbours p connections _ b next

      element-Stands :
          (b : Ptr p)
          → In b (all_neighbours p connections)
          → Visits p t.visited (get_rtlil_name p b)
          → is_terminal (kind_of p connections b) ≡ false
          → Stands p b t.cone
      element-Stands b known visited element =
          ⊎_elim (λ terminal. absurd (false≢true (sym element ∙ terminal)))
            (⊎_elim (λ waits. absurd (subst (Stands p b) empty waits).1) (λ at. at))
            (good.inv.seen b known visited)

      Behind-Visits :
          (b : Ptr p) → Behind p connections root b → Visits p t.visited (get_rtlil_name p b)
      Behind-Visits b (beside next) = good.inv.rooted b next
      Behind-Visits b (beyond {a} behind element next) =
          let (n, at, is) =
            element-Stands a (Behind-known a behind) (Behind-Visits a behind) element in
          good.inv.closed n b at (subst (λ a. In b (neighbours_of p connections a)) (sym is) next)

      cone-Behind :
          (b : Ptr p)
          → Stands p b t.cone
            ↔ (Behind p connections root b × IsElement p connections unique root b)
      cone-Behind b = (
        λ (n, at, is).
            let (element, behind) = good.inv.collected n at in
            subst
              (λ b. Behind p connections root b × (is_terminal (kind_of p connections b) ≡ false))
              is (behind, element),
        λ (behind, element).
            element-Stands b (Behind-known b behind) (Behind-Visits b behind) element,
      )

      pub cut-CutFound : (cut : Option (Node p)) → t.cut ≡ cut → CutFound connections root cut
      cut-CutFound none unset = λ (b, behind, usable).
          ⊎_elim (λ passed. absurd (false≢true (sym usable ∙ passed)))
            (λ waits. (subst (Stands p b) empty waits).1)
            (good.cuts.unchosen unset b (Behind-known b behind) (Behind-Visits b behind))
      cut-CutFound (some n) set = good.cuts.chosen n set

      one_input :
          (t.input_nodes ≡ [])
          ⊎ ((n : Node p) × (t.input_nodes ≡ n ∷ [])
              × (is_terminal n.kind ≡ true)
              × ((n.obj ≡ root) ⊎ Behind p connections root n.obj))
      one_input = ⊎_elim inl (λ (_, one). inr one) good.inputs

    -- If no two objects share a name, the search on a fresh cone returns with an empty frontier,
    -- and its cone has a node for exactly those objects that are behind the output and are not
    -- terminals.
    pub search-Behind :
        (c' : LogicCone p) × (search p connections c ≡ ok c')
        × (c'.frontier ≡ [])
        × ((b : Ptr p)
            → Stands p b c'.cone
              ↔ (Behind p connections root b × (is_terminal (kind_of p connections b) ≡ false)))
    unfolding store
    search-Behind =
        let (t, ends, good, empty) = search-Good in
        (store p c t, ends, empty, cone-Behind t good empty)

    -- If no two objects share a name, the search on a fresh cone returns, and the voter's cut point
    -- is a cell or a flip flop behind the output; it is unset only if nothing behind the output is
    -- one.
    search-cut :
        (c' : LogicCone p) × (search p connections c ≡ ok c')
        × CutFound connections root c'.voter_cut_point
    unfolding store
    search-cut =
        let (t, ends, good, empty) = search-Good in
        (store p c t, ends, cut-CutFound t good empty t.cut refl)

    -- If no two objects share a name, the search on a fresh cone returns with at most one input
    -- node, a terminal that is behind the output or the output itself.
    pub search-inputs :
        (c' : LogicCone p) × (search p connections c ≡ ok c')
        × ((c'.input_nodes ≡ [])
            ⊎ ((n : Node p) × (c'.input_nodes ≡ n ∷ [])
                × (is_terminal n.kind ≡ true)
                × ((n.obj ≡ root) ⊎ Behind p connections root n.obj)))
    unfolding store
    search-inputs =
        let (t, ends, good, empty) = search-Good in (store p c t, ends, one_input t good empty)
