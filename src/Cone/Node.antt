-- ===== src/Cone/Node.antt =====
-- The nodes of the logic graph (`TMRGraphNode` and its four subclasses) and their neighbours.
use tamara.Rtlil.Kernel.{cell, wire}
use tamara.Common.{
  ℕ, Bool, List, String, none, some, true, false, [], ◌∷◌, if◌then◌else◌, ◌+◌, ◌||◌,
}
use tamara.Rtlil.Platform.{Platform}
use tamara.Util.Connections.{Ptr, is_dff, get_rtlil_name}

-- the subclass of the node
pub data Kind : Type 0 where
  element_cell element_wire ff io : Kind

-- `shouldAddNeighbours`: an IONode or an FFNode is a terminal
abbrev pub is_terminal : Kind → Bool
is_terminal element_cell = false
is_terminal element_wire = false
is_terminal ff = true
is_terminal io = true

abbrev pub is_io : Kind → Bool
is_io io = true
is_io _ = false

abbrev pub is_element_wire : Kind → Bool
is_element_wire element_wire = true
is_element_wire _ = false

abbrev pub null {ℓ} : {A : Type ℓ} → List A → Bool
null [] = true
null (_ ∷ _) = false

module _ (p : Platform) where
  open p use {kernel, ptr_set, wire_map}
  open kernel use {Wire, Cell, wire_name, cell_name, port_input, port_output}

  -- A node, the object that it stands for, the cone that made it, and its own address, since nodes
  -- are shared pointers.
  pub record Node : Type 0 where
    pub kind : Kind
    pub obj : Ptr p
    pub cone_id : ℕ
    pub address : ℕ

  -- `getNodeName`
  abbrev pub get_node_name : Node → String
  get_node_name n = get_rtlil_name p n.obj

  -- `getOrDefault(connections, obj, RTLILAnyPtrSet())`, in the order of iteration
  unfoldable pub neighbours_of : wire_map.Map → Ptr p → List (Ptr p)
  neighbours_of connections obj = elim (wire_map.find connections obj) [
    | none ↦ []
    | some s ↦ ptr_set.elements s
  ]

  has_no_neighbours : wire_map.Map → Ptr p → Bool
  has_no_neighbours connections obj = elim (wire_map.find connections obj) [
    | none ↦ false
    | some s ↦ null (ptr_set.elements s)
  ]

  is_wire_io : Wire → wire_map.Map → Bool
  unfolding has_no_neighbours
  is_wire_io w connections =
      has_no_neighbours connections (wire w) || (port_input w || port_output w)

  -- the class that `newLogicGraphNeighbour` chooses for an object
  unfoldable pub kind_of : wire_map.Map → Ptr p → Kind
  unfolding is_wire_io is_dff
  kind_of connections (cell c) = if is_dff kernel c then ff else element_cell
  kind_of connections (wire w) = if is_wire_io w connections then io else element_wire

  -- `newLogicGraphNeighbour`, at the next free address
  abbrev pub new_logic_graph_neighbour : wire_map.Map → ℕ → ℕ → Ptr p → Node
  new_logic_graph_neighbour connections cone_id address obj = record {
    kind = kind_of connections obj;
    obj = obj;
    cone_id = cone_id;
    address = address;
  }

  unfoldable pub new_neighbours : wire_map.Map → ℕ → ℕ → List (Ptr p) → List Node
  new_neighbours connections cone_id address [] = []
  new_neighbours connections cone_id address (obj ∷ objs) =
      new_logic_graph_neighbour connections cone_id address obj
      ∷ new_neighbours connections cone_id (address + 1) objs

  -- `computeNeighbours`
  unfoldable pub compute_neighbours : wire_map.Map → ℕ → Node → List Node
  unfolding new_neighbours neighbours_of
  compute_neighbours connections address node =
      new_neighbours connections node.cone_id address (neighbours_of connections node.obj)
