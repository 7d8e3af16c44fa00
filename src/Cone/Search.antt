-- ===== src/Cone/Search.antt =====
-- `LogicCone::search` of src/logic_graph.cpp, the backwards breadth-first search.
pub mod Push
pub mod Round
pub mod Fuel
pub mod Behind
pub mod Invariant
pub mod Cut
pub mod Loop
pub mod First
pub mod Correct
pub mod Rule
pub mod Elements
pub mod Tally
pub mod Once
pub mod Each
pub mod Levels
pub mod Nearest
pub mod Closest
pub mod Ends
use tamara.Util.Connections.{Ptr}
use tamara.Common.{
  zero, ℕ, suc, List, Result, if◌then◌else◌, ◌++◌, Bool, Option, foldl, not, ok, ◌∷◌, [], is_some,
  ◌&&◌, err, length, true, ◌+◌, ◌||◌, Error, false, some,
}
use tamara.Rtlil.Platform.{Platform}
use tamara.Cone.Node.{
  Node, compute_neighbours, get_node_name, null, is_io, is_terminal, is_element_wire,
}

module _ (p : Platform) where
  open p use {kernel, ptr_set, wire_map, name_set}
  open kernel use {Wire, Cell, Module}

  -- class LogicCone; `fixWalkers` is the same for all. `next_address` is the model's allocator.
  pub record LogicCone : Type 0 where
    pub id : ℕ
    pub output_node : Node p
    pub input_nodes : List (Node p)
    pub cone : List (Node p)
    pub voter_cut_point : Option (Node p)
    pub frontier : List (Node p)
    pub next_address : ℕ

  -- the loop's state: the members that it writes and its local variables
  pub record State : Type 0 where
    pub frontier : List (Node p)
    pub visited : name_set.Set
    pub first : Bool
    pub cone : List (Node p)
    pub input_nodes : List (Node p)
    pub cut : Option (Node p)
    pub next_address : ℕ

  abbrev pub Front : Type 0
  Front = List (Node p) × name_set.Set

  -- pushes a neighbour whose name was not seen before
  unfoldable pub push_neighbour : Front → Node p → Front
  push_neighbour (frontier, visited) n =
      if name_set.contains visited (get_node_name p n)
      then (frontier, visited)
      else (frontier ++ n ∷ [], name_set.insert (get_node_name p n) visited)

  unfoldable pub push_neighbours : Front → List (Node p) → Front
  unfolding push_neighbour
  push_neighbours = foldl push_neighbour

  -- locates the neighbours of `node`, and adds it to the cone unless it is an IO or the first node
  unfoldable pub expand : wire_map.Map → State → Node p → State
  expand connections s node =
      let neighbours = compute_neighbours p connections s.next_address node in
      let (frontier, visited) = push_neighbours (s.frontier, s.visited) neighbours in
      record s {
        frontier = frontier;
        visited = visited;
        cone = if not (is_io node.kind) && not s.first then s.cone ++ node ∷ [] else s.cone;
        next_address = s.next_address + length neighbours;
      }

  -- the first node after the initial one that is neither a wire nor an IO
  unfoldable pub choose_cut : State → Node p → State
  choose_cut s node =
      if not (is_some s.cut) && not s.first
      then (if is_element_wire node.kind || is_io node.kind
          then s
          else record s { cut = some node })
      else s

  -- when the frontier is empty, a terminal becomes an input node
  unfoldable pub finish : State → Node p → State
  finish s node =
      if null s.frontier && is_terminal node.kind
      then record s { input_nodes = s.input_nodes ++ node ∷ [] }
      else s

  -- one round of the loop, after `node` left the head of the frontier
  unfoldable pub consider : wire_map.Map → State → Node p → State
  consider connections s node =
      let expanded =
        if not (is_terminal node.kind) || s.first then expand connections s node else s in
      record (finish (choose_cut expanded node) node) { first = false }

  -- The `while` loop. Fuel runs out only on a frontier that is not empty.
  unfoldable pub search_loop : wire_map.Map → ℕ → State → Result State
  search_loop connections zero s = elim s.frontier [
    | [] ↦ ok s
    | node ∷ rest ↦ err Error.out_of_fuel
  ]
  search_loop connections (suc fuel) s = elim s.frontier [
    | [] ↦ ok s
    | node ∷ rest ↦
        search_loop connections fuel (consider connections (record s { frontier = rest }) node)
  ]

  pub all_elements : List (Ptr p × ptr_set.Set) → List (Ptr p)
  all_elements [] = []
  all_elements ((_, s) ∷ rest) = ptr_set.elements s ++ all_elements rest

  -- The objects that the map has as somebody's neighbour. Each round takes one node from the
  -- frontier, and each of these enters it once at most, beside the initial node.
  unfoldable pub all_neighbours : wire_map.Map → List (Ptr p)
  unfolding all_elements
  all_neighbours connections = all_elements (wire_map.entries connections)

  -- `verifyInputNodes`
  unfoldable pub verify_input_nodes : List (Node p) → Result (Unit {0})
  verify_input_nodes [] = ok tt
  verify_input_nodes (n ∷ ns) =
      if is_terminal n.kind
      then verify_input_nodes ns
      else err (Error.bad_input_node (get_node_name p n))

  unfoldable pub start : LogicCone → State
  start c = record {
    frontier = c.frontier ++ c.output_node ∷ [];
    visited = name_set.empty;
    first = true;
    cone = c.cone;
    input_nodes = c.input_nodes;
    cut = c.voter_cut_point;
    next_address = c.next_address;
  }

  unfoldable pub store : LogicCone → State → LogicCone
  store c s = record c {
    input_nodes = s.input_nodes;
    cone = s.cone;
    voter_cut_point = s.cut;
    frontier = s.frontier;
    next_address = s.next_address;
  }

  -- `LogicCone::search`
  unfoldable pub search : wire_map.Map → LogicCone → Result LogicCone
  search connections c =
      if null c.frontier && (null c.cone && null c.input_nodes)
      then (elim (search_loop connections (suc (length (all_neighbours connections))) (start c)) [
        | err e ↦ err e
        | ok s ↦ elim (verify_input_nodes s.input_nodes) [ err e ↦ err e | ok _ ↦ ok (store c s) ]
      ])
      else err Error.search_not_fresh
