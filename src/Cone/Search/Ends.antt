-- ===== src/Cone/Search/Ends.antt =====
-- The loop of `LogicCone::search` of src/logic_graph.cpp ends, on every map and every cone.
use tamara.Cone.Search.{
  search, search_loop, start, verify_input_nodes, LogicCone, State, all_neighbours, store,
}
use tamara.Cone.Search.Correct.{fuel_enough}
use tamara.Cone.Node.{Node, null, is_terminal}
use tamara.Common.{
  ◌≡◌, ◌≢◌, List, [], ◌∷◌, Result, ok, err, Error, Bool-cases, inl, inr, true, false, arith, ◌&&◌,
  suc, length, Bool, sym, refl, ◌∙◌,
}
use tamara.Rtlil.Platform.{Platform}

module _ (p : Platform) where
  open p use {wire_map}

  verify-ends : (ns : List (Node p)) → verify_input_nodes p ns ≢ err Error.out_of_fuel
  unfolding verify_input_nodes
  verify-ends [] e = cc
  verify-ends (n ∷ ns) e = elim (Bool-cases (is_terminal n.kind)) [
    | inl terminal ↦ verify-ends ns (ground arith)
    | inr other ↦ ground arith
  ]

  null-empty : (ns : List (Node p)) → null ns ≡ true → ns ≡ []
  null-empty [] e = ground arith
  null-empty (n ∷ ns) e = ground arith

  -- the test with which the search begins
  abbrev is_fresh : LogicCone p → Bool
  is_fresh c = null c.frontier && (null c.cone && null c.input_nodes)

  stale_search :
      (connections : wire_map.Map) (c : LogicCone p)
      → is_fresh c ≡ false
      → search p connections c ≡ err Error.search_not_fresh
  unfolding search
  stale_search connections c stale = rw stale refl

  looped_search :
      (connections : wire_map.Map) (c : LogicCone p) (t : State p)
      → is_fresh c ≡ true
      → search_loop p connections (suc (length (all_neighbours p connections))) (start p c) ≡ ok t
      → search p connections c
        ≡ elim (verify_input_nodes p t.input_nodes) [ err e ↦ err e | ok _ ↦ ok (store p c t) ]
  unfolding search
  looped_search connections c t fresh looped = rw (fresh, looped) refl

  verified-ends :
      (r : Result (Unit {0})) (c : LogicCone p)
      → r ≢ err Error.out_of_fuel
      → (elim r [ err e ↦ err e | ok _ ↦ ok c ]) ≢ err Error.out_of_fuel
  verified-ends (ok _) c ends e = cc
  verified-ends (err x) c ends e = ends (ground arith)

  -- The search returns, with a cone or with one of its own errors, and not because the rounds of its
  -- loop ran out.
  pub search-ends :
      (connections : wire_map.Map) (c : LogicCone p)
      → search p connections c ≢ err Error.out_of_fuel
  search-ends connections c e = elim (Bool-cases (is_fresh c)) [
    | inr stale ↦ let same = sym (stale_search connections c stale) ∙ e in ground arith
    | inl fresh ↦
        let (t, looped) = fuel_enough p connections c (null-empty c.frontier (ground arith)) in
        verified-ends (verify_input_nodes p t.input_nodes) (store p c t) (verify-ends t.input_nodes)
          (sym (looped_search connections c t fresh looped) ∙ e)
  ]
