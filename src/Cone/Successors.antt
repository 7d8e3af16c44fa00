-- ===== src/Cone/Successors.antt =====
-- `LogicCone`'s constructors, `newLogicCone` and `LogicCone::buildSuccessors` of
-- src/logic_graph.cpp and include/tamara/logic_graph.hpp.
pub mod Explored
pub mod Fresh
pub mod Each
use tamara.Cone.Node.{Node, Kind, get_node_name}
use tamara.Cone.Search.{LogicCone}
use tamara.Util.Connections.{Ptr, is_dff}
use tamara.Rtlil.Kernel.{wire, cell}
use Prim.Native.Nat.{◌%◌, ◌^◌}
use tamara.Common.{
  true, false, List, M, ℕ, Bool, [], ok, none, ◌∷◌, ◌&&◌, ◌+◌, ◌>>◌, not, require, some, ltb, Error,
  and_then, length,
}
use tamara.Rtlil.Platform.{Platform}

module _ (p : Platform) where
  open p use {kernel, ptr_set, wire_map, name_set}
  open kernel use {Wire, Cell, cell_name}

  -- the static members g_cone_ID, a `uint32_t`, and g_explored_successors
  pub record Globals : Type 0 where
    pub next_id : ℕ
    pub explored : name_set.Set

  -- a cone whose output node is of this class, under `nextID`
  unfoldable pub make_cone : Kind → Ptr p → M Globals (LogicCone p)
  make_cone kind obj g =
      let cone : LogicCone p = record {
        id = g.next_id;
        output_node = record { kind = kind; obj = obj; cone_id = g.next_id; address = 0 };
        input_nodes = [];
        cone = [];
        voter_cut_point = none;
        frontier = [];
        next_address = 1;
      } in
      ok (cone, record g { next_id = (g.next_id + 1) % 2 ^ 32 })

  -- LogicCone(RTLIL::Wire *)
  unfoldable pub wire_cone_from : Wire → M Globals (LogicCone p)
  wire_cone_from w = make_cone Kind.io (wire w)

  -- `newLogicCone`, with LogicCone(RTLIL::Cell *)
  unfoldable pub new_logic_cone : Ptr p → M Globals (LogicCone p)
  new_logic_cone (wire w) = make_cone Kind.io (wire w)
  new_logic_cone (cell c) = do
    require (is_dff kernel c) (Error.not_a_dff (cell_name c))
    make_cone Kind.ff (cell c)

  abbrev pub has_neighbours : wire_map.Map → Ptr p → Bool
  has_neighbours connections obj = elim (wire_map.find connections obj) [
    | none ↦ false
    | some s ↦ ltb 0 (length (ptr_set.elements s))
  ]

  -- the loop of `buildSuccessors` over the input nodes
  unfoldable pub successors_of : wire_map.Map → List (Node p) → M Globals (List (LogicCone p))
  successors_of connections [] g = ok ([], g)
  successors_of connections (n ∷ ns) g =
      elim (has_neighbours connections n.obj
        && not (name_set.contains g.explored (get_node_name p n))) [
          | false ↦ successors_of connections ns g
          | true ↦ and_then (new_logic_cone n.obj g) (λ cone g.
              and_then
                (successors_of connections ns
                  (record g { explored = name_set.insert (get_node_name p n) g.explored }))
                (λ cones g. ok (cone ∷ cones, g)))
        ]

  -- `LogicCone::buildSuccessors`
  unfoldable pub build_successors : wire_map.Map → LogicCone p → M Globals (List (LogicCone p))
  build_successors connections c = successors_of connections c.input_nodes
