-- ===== src/Cone/Replicate.antt =====
-- The replication of src/logic_graph.cpp: `replicate` of the nodes, and `LogicCone::replicate`.
pub mod Marks
pub mod Correct
pub mod Searched
pub mod Copies
pub mod Intact
use tamara.Cone.Node.{Node, is_io, null}
use tamara.Cone.Search.{LogicCone}
use tamara.Util.Connections.{Ptr}
use tamara.Util.Names.{to_string, cone_annotation, original_annotation}
use tamara.Rtlil.Kernel.{cell, wire}
use tamara.Common.{
  List, M, String, ℕ, if◌then◌else◌, pure, str_append, ◌==◌, ◌>>◌, ◌∷◌, change, fail, require, ◌++◌,
  ◌>>=◌, Error, [], ok, call,
}
use tamara.Rtlil.Platform.{Platform}

module _ (p : Platform) where
  open p use {kernel}
  open kernel use {
    Wire, Cell, Module, wire_name, cell_name, has_attribute, copy_wire, copy_cell,
    set_string_attribute, set_bool_attribute,
  }

  -- the name of the replica with this number
  abbrev pub replica_name : String → String → ℕ → String
  replica_name name number cone_id =
      str_append (str_append name (str_append "$replica" number))
        (str_append "_cone" (to_string cone_id))

  -- the cone's annotation on both replicas and on the original, and the mark of the original
  unfoldable pub annotate : ℕ → Ptr p → Ptr p → Ptr p → M Module (Unit {0})
  annotate cone_id replica1 replica2 original = do
    change (set_string_attribute replica1 cone_annotation (to_string cone_id))
    change (set_string_attribute replica2 cone_annotation (to_string cone_id))
    change (set_string_attribute original cone_annotation (to_string cone_id))
    change (set_bool_attribute original original_annotation)

  -- `ElementCellNode::replicate`; the result is what it pushes to `replicas`
  unfoldable pub replicate_cell : ℕ → Cell → M Module (List (Ptr p))
  replicate_cell cone_id c m =
      if has_attribute m (cell c) cone_annotation
      then ok ([], m)
      else (do
        replica1 ← call (copy_cell (replica_name (cell_name c) "1" cone_id) c)
        replica2 ← call (copy_cell (replica_name (cell_name c) "2" cone_id) c)
        annotate cone_id (cell replica1) (cell replica2) (cell c)
        pure (cell replica1 ∷ cell replica2 ∷ []))
          m

  -- `ElementWireNode::replicate`
  unfoldable pub replicate_wire : ℕ → Wire → M Module (List (Ptr p))
  replicate_wire cone_id w m =
      if has_attribute m (wire w) cone_annotation
      then ok ([], m)
      else (do
        replica1 ← call (copy_wire (replica_name (wire_name w) "1" cone_id) w)
        replica2 ← call (copy_wire (replica_name (wire_name w) "2" cone_id) w)
        annotate cone_id (wire replica1) (wire replica2) (wire w)
        pure (wire replica1 ∷ wire replica2 ∷ []))
          m

  abbrev pub replicate_obj : ℕ → Ptr p → M Module (List (Ptr p))
  replicate_obj cone_id (cell c) = replicate_cell cone_id c
  replicate_obj cone_id (wire w) = replicate_wire cone_id w

  -- `replicate` of the node's class; an IONode cannot be replicated
  unfoldable pub replicate_node : Node p → M Module (List (Ptr p))
  replicate_node n =
      if is_io n.kind then fail Error.replicated_io else replicate_obj n.cone_id n.obj

  -- The `replicas` of the nodes, by the node's address.
  abbrev pub Replicas : Type 0
  Replicas = ℕ → List (Ptr p)

  abbrev pub push_replicas : ℕ → List (Ptr p) → Replicas → Replicas
  push_replicas address new old a = if a == address then old a ++ new else old a

  unfoldable pub replicate_items : List (Node p) → Replicas → M Module Replicas
  replicate_items [] replicas = pure replicas
  replicate_items (n ∷ ns) replicas = do
    new ← replicate_node n
    replicate_items ns (push_replicas n.address new replicas)

  -- `replicateIfNotIO`
  unfoldable pub replicate_if_not_io : Node p → Replicas → M Module Replicas
  replicate_if_not_io n replicas =
      if is_io n.kind
      then pure replicas
      else (do new ← replicate_node n; pure (push_replicas n.address new replicas))

  unfoldable pub replicate_terminals : List (Node p) → Replicas → M Module Replicas
  replicate_terminals [] replicas = pure replicas
  replicate_terminals (n ∷ ns) replicas = do
    replicas ← replicate_if_not_io n replicas
    replicate_terminals ns replicas

  -- `LogicCone::replicate`
  unfoldable pub replicate : LogicCone p → Replicas → M Module Replicas
  replicate c replicas = if null c.cone then pure replicas else (do
    require (null c.frontier) Error.search_unfinished
    replicas ← replicate_items c.cone replicas
    replicas ← replicate_terminals c.input_nodes replicas
    replicate_if_not_io c.output_node replicas)

  -- `getReplicas`
  unfoldable pub get_replicas : Node p → Replicas → M Module (List (Ptr p))
  get_replicas n replicas =
      if is_io n.kind then fail Error.replicas_of_io else pure (replicas n.address)
