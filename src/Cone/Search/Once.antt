-- ===== src/Cone/Search/Once.antt =====
-- What `LogicCone::search` puts into a cone, it puts there once.
use tamara.Cone.Search.Fuel.{unvisited, work, push_neighbours-work}
use tamara.Cone.Node.{Node, compute_neighbours, is_terminal}
use tamara.Cone.Search.Behind.{UniqueNames}
use tamara.Cone.Search.First.{IsFresh, next, front-next, popped}
use tamara.Cone.Search.Round.{
  front, consider-first, consider-front_kept, consider-cone_first, consider-cone_terminal,
  consider-front_expanded, consider-cone_element,
}
use tamara.Cone.Search.Correct.{search-stored}
use tamara.Cone.Search.Push.{neighbours_of-all_neighbours, compute_neighbours-In}
use tamara.Cone.Search.Tally.{push_neighbours-tally, tally, tally-append, seen_bit}
use tamara.Cone.Search.Rule.{search_loop-Kept}
use tamara.Common.{
  List, String, ℕ, ◌++◌, ◌+◌, ◌∷◌, ◌≡◌, Bool-cases, [], arith, false, ◌≤◌, length, length-append,
  refl, inl, ok, inr, subst, subst₂, sym, ◌∙◌,
}
use tamara.Cone.Search.{
  search, push_neighbours, Front, Node, State, LogicCone, all_neighbours, start, store, consider,
}
use tamara.Util.Connections.{Ptr}
use tamara.Rtlil.Platform.{Platform}

module _ (p : Platform) where
  open p use {name_set, wire_map}

  module _ (connections : wire_map.Map) where
    -- A name stands once at most in the frontier and the cone together, and only if it was visited;
    -- what stands there and what is not yet visited fit among the neighbours of the map.
    record Once (f : Front p) (cone : List (Node p)) : Type 0 where
      named : (name : String) → tally p name f.0 + tally p name cone ≤ seen_bit p f name
      room :
          work p (all_neighbours p connections) f + length cone
          ≤ length (all_neighbours p connections)

    pushed_work :
        (f : Front p) (address : ℕ) (node : Node p)
        → work p
            (all_neighbours p connections)
            (push_neighbours p f (compute_neighbours p connections address node))
          ≤ work p (all_neighbours p connections) f
    pushed_work f address node =
        push_neighbours-work p (all_neighbours p connections)
          (compute_neighbours p connections address node) f
          (λ n member.
            neighbours_of-all_neighbours p connections node.obj n.obj
              (compute_neighbours-In p connections address node n member).0)

    pushed-Once :
        (f : Front p) (cone : List (Node p)) (address : ℕ) (node : Node p)
        → Once f cone
        → Once (push_neighbours p f (compute_neighbours p connections address node)) cone
    pushed-Once f cone address node once = record {
      named = λ name. omega (
        arith,
        once.named name,
        push_neighbours-tally p name (compute_neighbours p connections address node) f,
      );
      room = omega (arith, once.room, pushed_work f address node);
    }

    -- the node at the head of the frontier moves to the cone, or is dropped
    moved-Once :
        (visited : name_set.Set) (rest cone : List (Node p)) (node : Node p)
        → Once (node ∷ rest, visited) cone
        → Once (rest, visited) (cone ++ node ∷ [])
    moved-Once visited rest cone node once = record {
      named = λ name. omega (arith, once.named name, tally-append p name cone (node ∷ []));
      room = omega (arith, once.room, length-append cone (node ∷ []));
    }

    dropped-Once :
        (visited : name_set.Set) (rest cone : List (Node p)) (node : Node p)
        → Once (node ∷ rest, visited) cone
        → Once (rest, visited) cone
    dropped-Once visited rest cone node once = record {
      named = λ name. omega (arith, once.named name);
      room = omega (arith, once.room);
    }

    consider-Once :
        (s : State p) (node : Node p) (rest : List (Node p))
        → s.first ≡ false
        → s.frontier ≡ node ∷ rest
        → Once (front p s) s.cone
        → let next = consider p connections (record s { frontier = rest }) node in
          Once (front p next) next.cone
    consider-Once s node rest later e once =
        let popped : State p = record s { frontier = rest } in
        let here = subst (λ f. Once (f, s.visited) s.cone) e once in
        elim (Bool-cases (is_terminal node.kind)) [
          | inl ends ↦
              subst₂ Once (sym (consider-front_kept p connections popped node (ground arith)))
                (sym (consider-cone_terminal p connections popped node later ends))
                (dropped-Once s.visited rest s.cone node here)
          | inr goes_on ↦
              subst₂ Once (sym (consider-front_expanded p connections popped node (ground arith)))
                (sym (consider-cone_element p connections popped node later goes_on))
                (pushed-Once (rest, s.visited) _ s.next_address node
                  (moved-Once s.visited rest s.cone node here))
        ]

  module _ (connections : wire_map.Map) (unique : UniqueNames p connections) (c : LogicCone p)
      (fresh : IsFresh p c) where
    nothing_visited : (us : List (Ptr p)) → unvisited p us name_set.empty ≤ length us
    nothing_visited [] = omega arith
    nothing_visited (u ∷ us) = ground (arith, nothing_visited us)

    first-Once :
        Once connections
          (front p (next p connections unique c fresh))
          (next p connections unique c fresh).cone
    unfolding start
    first-Once =
        subst₂ (Once connections) (sym (front-next p connections unique c fresh))
          (sym (
            consider-cone_first p connections (popped p connections unique c fresh) c.output_node
              refl
            ∙ fresh.1))
          (pushed-Once connections ([], name_set.empty) [] c.next_address c.output_node
            (record {
              named = λ name. omega arith;
              room = omega (arith, nothing_visited (all_neighbours p connections));
            }))

    -- If no two objects share a name, the search on a fresh cone returns with a cone in which no
    -- name stands twice, and which has no more nodes than the map has entries for neighbours.
    pub search-once :
        (c' : LogicCone p) × (search p connections c ≡ ok c')
        × ((name : String) → tally p name c'.cone ≤ 1)
        × (length c'.cone ≤ length (all_neighbours p connections))
    unfolding store
    search-once =
        let (t, stored, looped) = search-stored p connections unique c fresh in
        let (once, _) =
          search_loop-Kept p connections (λ s. Once connections (front p s) s.cone)
            (consider-Once connections) _ _ t
            (consider-first p connections (popped p connections unique c fresh) c.output_node)
            first-Once looped in
        (store p c t, stored, λ name. ground (arith, once.named name), omega (arith, once.room))
