-- ===== src/FixWalker.antt =====
-- src/fix_walker.cpp and include/tamara/fix_walker.hpp: the walk over the netlist, and the rewiring
-- of a wire that three replicas drive and three replicas read.
pub mod Reconnect
pub mod Calm
pub mod Walk
pub mod Once
pub mod Rewire
pub mod Intact
pub mod Kept
use tamara.Rtlil.Ports.{signal_at}
use tamara.Util.Connections.{Ptr, analyse_connections, sig_spec_to_wire, get_rtlil_name}
use tamara.Rtlil.Kernel.{cell, wire}
use tamara.Util.Names.{cone_annotation, tamara_id}
use tamara.Util.Lookups.{rtlil_inverse_lookup}
use tamara.Common.{
  List, M, Option, String, pure, ℕ, ◌++◌, Bool, and_then, fail, if◌then◌else◌, none, ok, some,
  some_or, ◌∷◌, Error, [], err, false, map, str_eq, true, ◌&&◌, ◌==◌, has_part, ◌>>=◌, ◌>>◌, length,
  require, call, change,
}
use tamara.Rtlil.Platform.{Platform}

module _ (p : Platform) where
  open p use {kernel, ptr_set, wire_map}
  open kernel use {
    Wire, Cell, SigSpec, Module, wire_name, cell_name, cell_type, width, same_wire, cell_input,
    cell_output, cell_connections, cells, wires, has_attribute, add_wire, set_port, of_wire,
  }

  -- class FixWalker; what a subclass does not override does nothing
  pub record FixWalker : Type 0 where
    pub process_module : M Module (Unit {0})
    pub process_cell : Cell → M Module (Unit {0})
    pub process_wire : Wire → ℕ → ℕ → wire_map.Map → M Module (Unit {0})

  -- `findByApproxName`
  unfoldable pub find_by_approx_name : List (Ptr p) → String → M Module (Ptr p)
  find_by_approx_name [] name = fail (Error.no_partial_name name)
  find_by_approx_name (obj ∷ objs) name =
      let rest = find_by_approx_name objs name in
      if has_part (get_rtlil_name p obj) name then pure obj else rest

  -- connWire == target
  abbrev pub is_target : Wire → Option Wire → Bool
  is_target target none = false
  is_target target (some w) = same_wire w target

  -- the first port that the test picks among those whose wire is the target
  unfoldable pub port_at : (String → Bool) → Wire → List (String × SigSpec) → Option String
  port_at picks target [] = none
  port_at picks target ((name, signal) ∷ ports) =
      let rest = port_at picks target ports in
      if picks name && is_target target (sig_spec_to_wire kernel signal) then some name else rest

  -- `locateInputPortConnectedToTarget`
  unfoldable pub locate_input_port : Wire → Cell → M Module String
  locate_input_port target c m =
      some_or (port_at (cell_input (cell_type c)) target (cell_connections m c))
        (Error.no_input_port (wire_name target) (cell_name c)) m

  -- `MultiDriverFixer::reconnect`; the wire of the port that it finds is the target
  unfoldable pub reconnect : Wire → Cell → Cell → M Module (Unit {0})
  reconnect target input output m =
      elim (port_at (cell_output (cell_type input)) target (cell_connections m input)) [
        | none ↦ err (Error.no_output_port (cell_name input) (wire_name target))
        | some port ↦
            (do
              output_port ← locate_input_port target output
              name ← tamara_id kernel "MultiDriverFixer"
              w ← call (add_wire name (width target))
              change (set_port input port (of_wire w))
              change (set_port output output_port (of_wire w)))
              m
      ]

  -- std::get<RTLIL::Cell *>
  abbrev pub as_cell : Ptr p → M Module Cell
  as_cell (cell c) = pure c
  as_cell (wire w) = fail Error.bad_variant_access

  -- the part of `rewire` for one replica on either side
  unfoldable pub rewire_replicas : Wire → Ptr p → Ptr p → M Module (Unit {0})
  rewire_replicas target lhs rhs = do
    input ← as_cell lhs
    output ← as_cell rhs
    reconnect target input output

  -- `MultiDriverFixer::rewire`
  unfoldable pub rewire : Wire → wire_map.Map → M Module (Unit {0})
  rewire target connections = do
    inputs ← some_or (wire_map.find connections (wire target)) Error.key_not_found
    let lhs = ptr_set.elements inputs
    let rhs = rtlil_inverse_lookup p connections target
    require (length lhs == 3 && length rhs == 3) Error.bad_rewire_counts
    lhs1 ← find_by_approx_name lhs "replica1"
    rhs1 ← find_by_approx_name rhs "replica1"
    lhs2 ← find_by_approx_name lhs "replica2"
    rhs2 ← find_by_approx_name rhs "replica2"
    rewire_replicas target lhs1 rhs1
    rewire_replicas target lhs2 rhs2

  abbrev pub all_annotated : Module → List (Ptr p) → Bool
  all_annotated m [] = true
  all_annotated m (obj ∷ objs) = has_attribute m obj cone_annotation && all_annotated m objs

  -- `MultiDriverFixer::processWire`
  unfoldable pub process_wire : Wire → ℕ → ℕ → wire_map.Map → M Module (Unit {0})
  process_wire w driver_count driven_count connections m =
      if driver_count == 3 && driven_count == 3
      then elim (wire_map.find connections (wire w)) [
        | none ↦ ok (tt, m)
        | some inputs ↦
            if all_annotated m (ptr_set.elements inputs)
              && all_annotated m (rtlil_inverse_lookup p connections w)
            then rewire w connections m
            else ok (tt, m)
      ]
      else ok (tt, m)

  abbrev pub multi_driver_fixer : FixWalker
  multi_driver_fixer = record {
    process_module = pure tt;
    process_cell = λ _. pure tt;
    process_wire = process_wire;
  }

  module _ (walker : FixWalker) (connections : wire_map.Map) where
    -- a wire is processed once, and only if it has an entry
    unfoldable pub visit_wire : Wire → ptr_set.Set → M Module ptr_set.Set
    visit_wire w processed =
        if ptr_set.contains processed (wire w)
        then pure processed
        else (elim (wire_map.find connections (wire w)) [
          | none ↦ pure processed
          | some drivers ↦ (do
            walker.process_wire w (length (rtlil_inverse_lookup p connections w))
                (length (ptr_set.elements drivers)) connections
            pure (ptr_set.insert (wire w) processed))
        ])

    -- the signal of a port is read at the moment that the loop over the ports comes to it
    abbrev pub wire_at : Option SigSpec → Option Wire
    wire_at none = none
    wire_at (some s) = sig_spec_to_wire kernel s

    unfoldable pub visit_ports : Cell → List String → ptr_set.Set → M Module ptr_set.Set
    visit_ports c [] processed m = ok (processed, m)
    visit_ports c (name ∷ names) processed m =
        elim (wire_at (signal_at name (cell_connections m c))) [
          | none ↦ visit_ports c names processed m
          | some w ↦ and_then (visit_wire w processed m) (visit_ports c names)
        ]

    unfoldable pub visit_cells : List Cell → ptr_set.Set → M Module ptr_set.Set
    visit_cells [] processed m = ok (processed, m)
    visit_cells (c ∷ cs) processed m =
        if ptr_set.contains processed (cell c)
        then visit_cells cs processed m
        else and_then (walker.process_cell c m) (λ _ m.
          and_then
            (visit_ports c (map (λ port. port.0) (cell_connections m c))
              (ptr_set.insert (cell c) processed) m)
            (visit_cells cs))

    unfoldable pub visit_wires : List Wire → ptr_set.Set → M Module ptr_set.Set
    visit_wires [] processed m = ok (processed, m)
    visit_wires (w ∷ ws) processed m = and_then (visit_wire w processed m) (visit_wires ws)

    -- one round of the loop in `FixWalkerManager::execute`
    unfoldable pub run_walker : M Module ptr_set.Set
    run_walker m = and_then (walker.process_module m) (λ _ m.
        and_then (visit_cells (cells m) ptr_set.empty m)
          (λ processed m. visit_wires (wires m) processed m))

  unfoldable pub run_walkers : List FixWalker → wire_map.Map → M Module (Unit {0})
  run_walkers [] connections = pure tt
  run_walkers (walker ∷ walkers) connections = do
    _ ← run_walker walker connections
    run_walkers walkers connections

  -- `FixWalkerManager::execute`
  unfoldable pub execute_walkers : List FixWalker → M Module (Unit {0})
  execute_walkers walkers m = run_walkers walkers (analyse_connections p m).wires m

  -- `FixWalkerManager::add`
  abbrev pub add_walker : List FixWalker → FixWalker → List FixWalker
  add_walker walkers walker = walkers ++ walker ∷ []
