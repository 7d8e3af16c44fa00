-- ===== src/Cone/Successors/Explored.antt =====
-- `LogicCone::buildSuccessors` makes a cone of an object once at most.
use tamara.Cone.Search.Fuel.{unvisited, unvisited-insert_new}
use tamara.Util.Connections.{Ptr, is_dff}
use tamara.Cone.Successors.{
  Globals, new_logic_cone, successors_of, Node, has_neighbours, make_cone, wire, cell, is_dff,
}
use tamara.Cone.Node.{Node, get_node_name}
use tamara.Rtlil.Kernel.{wire, cell}
use tamara.Common.{
  List, In, ℕ, IfOk, ◌≡◌, length, true, Option-cases, ◌+◌, Bool-cases, inl, ◌≤◌, arith, false≢true,
  inr, ◌∷◌, [], ap, refl, ◌&&◌, not, succeeds, fails, and_then, ok, IfOk-seq,
}
use tamara.Rtlil.Platform.{Platform}

module _ (p : Platform) where
  open p use {kernel, ptr_set, wire_map, name_set}

  -- the objects that have an entry
  abbrev pub keys : List (Ptr p × ptr_set.Set) → List (Ptr p)
  keys [] = []
  keys ((a, _) ∷ es) = a ∷ keys es

  keys-In :
      (es : List (Ptr p × ptr_set.Set)) (a : Ptr p) (s : ptr_set.Set)
      → In (a, s) es
      → In a (keys es)
  keys-In [] a s member = member
  keys-In ((b, t) ∷ es) a s (inl e) = inl (ap (λ x. x.0) e)
  keys-In ((b, t) ∷ es) a s (inr member) = inr (keys-In es a s member)

  module _ (connections : wire_map.Map) where
    abbrev pub unexplored : Globals p → ℕ
    unexplored g = unvisited p (keys (wire_map.entries connections)) g.explored

    has_neighbours-key :
        (a : Ptr p)
        → has_neighbours p connections a ≡ true
        → In a (keys (wire_map.entries connections))
    has_neighbours-key a h = elim (Option-cases (wire_map.find connections a)) [
      | inl missing ↦ absurd (false≢true (rw (missing, has_neighbours) at h))
      | inr (s, found) ↦
          keys-In (wire_map.entries connections) a s
            ((wire_map.find-entries connections a s).0 found)
    ]

    new_logic_cone-explored :
        (obj : Ptr p) (g : Globals p)
        → IfOk (λ _ g'. g'.explored ≡ g.explored) (new_logic_cone p obj g)
    unfolding new_logic_cone make_cone
    new_logic_cone-explored (wire w) g = succeeds refl
    new_logic_cone-explored (cell c) g = elim (Bool-cases (is_dff kernel c)) [
      | inl dff ↦ rw dff (succeeds refl)
      | inr other ↦ rw other fails
    ]

    -- the round that makes a cone of `n`
    taken_round :
        (n : Node p) (ns : List (Node p)) (g : Globals p)
        → has_neighbours p connections n.obj
            && not (name_set.contains g.explored (get_node_name p n))
          ≡ true
        → ((g : Globals p)
            → IfOk
                (λ cones g'. length cones + unexplored g' ≤ unexplored g)
                (successors_of p connections ns g))
        → IfOk
            (λ cones g'. length cones + unexplored g' ≤ unexplored g)
            (and_then (new_logic_cone p n.obj g) (λ cone g'.
              and_then
                (successors_of p connections ns
                  (record g' { explored = name_set.insert (get_node_name p n) g'.explored }))
                (λ cones g''. ok (cone ∷ cones, g''))))
    taken_round n ns g taken rest =
        let us = keys (wire_map.entries connections) in
        let known = has_neighbours-key n.obj (ground arith) in
        let fewer = unvisited-insert_new p us n.obj g.explored known (ground arith) in
        IfOk-seq (new_logic_cone-explored n.obj g) (λ cone g' same.
          IfOk-seq (rest (record g' { explored = name_set.insert (get_node_name p n) g'.explored }))
            (λ cones g'' h. succeeds (
              omega (
                arith,
                h,
                fewer,
                ap (λ e. unvisited p us (name_set.insert (get_node_name p n) e)) same,
              ))))

    pub successors_of-unexplored :
        (ns : List (Node p)) (g : Globals p)
        → IfOk
            (λ cones g'. length cones + unexplored g' ≤ unexplored g)
            (successors_of p connections ns g)
    unfolding successors_of
    successors_of-unexplored [] g = succeeds (omega arith)
    successors_of-unexplored (n ∷ ns) g =
        elim (Bool-cases (
          has_neighbours p connections n.obj
          && not (name_set.contains g.explored (get_node_name p n)))) [
            | inr passed ↦ rw (passed, successors_of) (successors_of-unexplored ns g)
            | inl taken ↦
                rw (taken, successors_of)
                  (taken_round n ns g taken (λ g'. successors_of-unexplored ns g'))
          ]
