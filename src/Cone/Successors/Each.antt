-- ===== src/Cone/Successors/Each.antt =====
-- The cones that `newLogicCone` and `buildSuccessors` of src/logic_graph.cpp make have a property
-- of objects that their output nodes have.
use tamara.Util.Connections.{Ptr, is_dff}
use tamara.Cone.Search.{LogicCone}
use tamara.Cone.Node.{Kind, Node, get_node_name}
use tamara.Common.{
  List, [], ◌∷◌, In, inl, IfOk, subst, IfOk-seq, inr, succeeds, Bool-cases, ◌&&◌, not, refl, fails,
}
use tamara.Cone.Search.Each.{EachOf, EachNode}
use tamara.Rtlil.Kernel.{wire, cell}
use tamara.Cone.Successors.{
  build_successors, Ptr, LogicCone, make_cone, new_logic_cone, successors_of, Globals, Kind, Node,
  has_neighbours, is_dff,
}
use tamara.Rtlil.Platform.{Platform}

module _ (p : Platform) (connections : p.wire_map.Map) (P : Ptr p → Type 0) where
  make_cone-Each :
      (kind : Kind) (obj : Ptr p) (g : Globals p)
      → P obj
      → IfOk (λ c _. EachOf p connections P c) (make_cone p kind obj g)
  unfolding make_cone
  make_cone-Each kind obj g has = succeeds (record {
    output = has;
    waiting = λ n at. absurd at;
    elements = λ n at. absurd at;
    inputs = λ n at. absurd at;
    cut = λ n e. cc;
  })

  pub new_logic_cone-Each :
      (obj : Ptr p) (g : Globals p)
      → P obj
      → IfOk (λ c _. EachOf p connections P c) (new_logic_cone p obj g)
  unfolding new_logic_cone
  new_logic_cone-Each (wire w) g has = make_cone-Each _ (wire w) g has
  new_logic_cone-Each (cell c) g has = elim (Bool-cases (is_dff p.kernel c)) [
    | inr other ↦ rw (other, new_logic_cone) fails
    | inl flip_flop ↦ rw (flip_flop, new_logic_cone) (make_cone-Each Kind.ff (cell c) g has)
  ]

  abbrev EachCone : List (LogicCone p) → Type 0
  EachCone cones = (x : LogicCone p) → In x cones → EachOf p connections P x

  EachCone-cons :
      (c : LogicCone p) (cones : List (LogicCone p))
      → EachOf p connections P c
      → EachCone cones
      → EachCone (c ∷ cones)
  EachCone-cons c cones first rest x (inl e) = subst (EachOf p connections P) e first
  EachCone-cons c cones first rest x (inr at) = rest x at

  successors_of-Each :
      (ns : List (Node p)) (g : Globals p)
      → EachNode p connections P ns
      → IfOk (λ cones _. EachCone cones) (successors_of p connections ns g)
  unfolding successors_of
  successors_of-Each [] g all = succeeds (λ x at. absurd at)
  successors_of-Each (n ∷ ns) g all =
      elim (Bool-cases (
        has_neighbours p connections n.obj
        && not (p.name_set.contains g.explored (get_node_name p n)))) [
          | inr passed ↦
              rw (passed, successors_of) (successors_of-Each ns g (λ x at. all x (inr at)))
          | inl taken ↦
              rw (taken, successors_of)
                (IfOk-seq (new_logic_cone-Each n.obj g (all n (inl refl))) (λ c g1 each.
                  IfOk-seq (successors_of-Each ns _ (λ x at. all x (inr at)))
                    (λ cones g2 rest. succeeds (EachCone-cons c cones each rest))))
        ]

  pub build_successors-Each :
      (c : LogicCone p) (g : Globals p)
      → EachNode p connections P c.input_nodes
      → IfOk
          (λ cones _. (x : LogicCone p) → In x cones → EachOf p connections P x)
          (build_successors p connections c g)
  unfolding build_successors
  build_successors-Each c g all = successors_of-Each c.input_nodes g all
