-- ===== src/Cone/Search/Fuel.antt =====
-- The loop of `LogicCone::search` ends: a round takes a node from the frontier, and an object
-- enters it only under a name that was not visited.
use tamara.Util.Connections.{Ptr, get_rtlil_name}
use tamara.Cone.Search.Round.{front, expands, consider-front_expanded, consider-front_kept}
use tamara.Common.{
  zero, ℕ, List, ◌≤◌, ◌≡◌, In, String, length, ok, ◌∷◌, Bool-cases, List-cases, arith, false,
  if◌then◌else◌, ◌+◌, inl, suc, ap, inr, length-append, [], refl, subst, sym,
}
use tamara.Rtlil.Platform.{Platform}
use tamara.Cone.Node.{Node, get_node_name, compute_neighbours}
use tamara.Cone.Search.{
  Front, State, push_neighbour, push_neighbours, all_neighbours, consider, search_loop, Ptr,
}
use tamara.Cone.Search.Push.{compute_neighbours-In, neighbours_of-all_neighbours}

module _ (p : Platform) where
  open p use {kernel, ptr_set, wire_map, name_set}

  -- the objects whose names are not yet visited
  abbrev pub unvisited : List (Ptr p) → name_set.Set → ℕ
  unvisited [] visited = 0
  unvisited (u ∷ us) visited =
      if name_set.contains visited (get_rtlil_name p u)
      then unvisited us visited
      else suc (unvisited us visited)

  unvisited-insert :
      (us : List (Ptr p)) (name : String) (visited : name_set.Set)
      → unvisited us (name_set.insert name visited) ≤ unvisited us visited
  unvisited-insert [] name visited = omega arith
  unvisited-insert (u ∷ us) name visited = ground (
    arith,
    name_set.contains-insert name (get_rtlil_name p u) visited,
    unvisited-insert us name visited,
  )

  pub unvisited-insert_new :
      (us : List (Ptr p)) (u : Ptr p) (visited : name_set.Set)
      → In u us
      → name_set.contains visited (get_rtlil_name p u) ≡ false
      → suc (unvisited us (name_set.insert (get_rtlil_name p u) visited)) ≤ unvisited us visited
  unvisited-insert_new [] u visited member new = absurd member
  unvisited-insert_new (v ∷ us) u visited (inl e) new = rw (← e) (
      ground (
        arith,
        name_set.contains-insert (get_rtlil_name p v) (get_rtlil_name p v) visited,
        unvisited-insert us (get_rtlil_name p v) visited,
        ap (λ x. name_set.contains visited (get_rtlil_name p x)) e,
      ))
  unvisited-insert_new (v ∷ us) u visited (inr member) new = ground (
    arith,
    name_set.contains-insert (get_rtlil_name p u) (get_rtlil_name p v) visited,
    unvisited-insert_new us u visited member new,
  )

  module _ (us : List (Ptr p)) where
    abbrev pub work : Front p → ℕ
    work f = length f.0 + unvisited us f.1

    push_neighbour-work :
        (f : Front p) (n : Node p) → In n.obj us → work (push_neighbour p f n) ≤ work f
    unfolding push_neighbour
    push_neighbour-work (frontier, visited) n member =
        elim (Bool-cases (name_set.contains visited (get_node_name p n))) [
          | inl old ↦ rw old (omega arith)
          | inr new ↦ rw new (
              omega (
                arith,
                length-append frontier (n ∷ []),
                unvisited-insert_new us n.obj visited member new,
              ))
        ]

    pub push_neighbours-work :
        (ns : List (Node p)) (f : Front p)
        → ((n : Node p) → In n ns → In n.obj us)
        → work (push_neighbours p f ns) ≤ work f
    unfolding push_neighbours
    push_neighbours-work [] f known = omega arith
    push_neighbours-work (n ∷ ns) f known = omega (
      arith,
      push_neighbour-work f n (known n (inl refl)),
      push_neighbours-work ns (push_neighbour p f n) (λ m h. known m (inr h)),
    )

  module _ (connections : wire_map.Map) where
    abbrev rest_work : State p → ℕ
    rest_work s = work (all_neighbours p connections) (front p s)

    consider-work :
        (s : State p) (node : Node p) → rest_work (consider p connections s node) ≤ rest_work s
    consider-work s node =
        let pushed =
          push_neighbours-work (all_neighbours p connections)
            (compute_neighbours p connections s.next_address node) (front p s)
            (λ n member.
              neighbours_of-all_neighbours p connections node.obj n.obj
                (compute_neighbours-In p connections s.next_address node n member).0) in
        elim (Bool-cases (expands p s node)) [
          | inl yes_expands ↦
              subst (λ f. work (all_neighbours p connections) f ≤ rest_work s)
                (sym (consider-front_expanded p connections s node yes_expands)) pushed
          | inr no_expands ↦
              subst (λ f. work (all_neighbours p connections) f ≤ rest_work s)
                (sym (consider-front_kept p connections s node no_expands)) (omega arith)
        ]

    pub search_loop-ok :
        (fuel : ℕ) (s : State p)
        → rest_work s ≤ fuel
        → (t : State p) × (search_loop p connections fuel s ≡ ok t)
    unfolding search_loop
    search_loop-ok zero s h = elim (List-cases s.frontier) [
      | inl empty ↦ (s, simp (empty, search_loop))
      | inr (node, rest, e) ↦ absurd (omega (arith, ap length e))
    ]
    search_loop-ok (suc fuel) s h = elim (List-cases s.frontier) [
      | inl empty ↦ (s, simp (empty, search_loop))
      | inr (node, rest, e) ↦
          let s' = record s { frontier = rest } in
          let (t, ends) =
            search_loop-ok fuel (consider p connections s' node)
              (omega (arith, consider-work s' node, ap length e)) in
          (t, simp (e, search_loop) ends)
    ]
