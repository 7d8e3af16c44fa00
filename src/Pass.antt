-- ===== src/Pass.antt =====
-- src/tamara_tmr_pass.cpp: the command tamara_tmr, which drives all the rest.
pub mod Ends
pub mod Sink
pub mod Memories
pub mod Worklist
pub mod Runs
pub mod Refinement
pub mod Complete
pub mod Ballots
pub mod Voted
pub mod Votes
use tamara.Cone.Search.{search, LogicCone}
use tamara.Voter.{VoterBuilder, finalise, new_builder}
use tamara.Cone.Successors.{Globals, new_logic_cone, build_successors}
use tamara.Rtlil.Kernel.{cell, wire}
use tamara.Util.Names.{ignore_annotation, error_sink_annotation}
use tamara.Util.Connections.{analyse_all, Connections}
use tamara.Cone.Replicate.{replicate}
use tamara.Cone.Wiring.{wire_cone}
use tamara.Common.{
  List, Option, Result, foldl, if◌then◌else◌, select, M, none, ok, some, and_then, err, ◌∷◌, Error,
  [], ℕ, ◌++◌, is_some, length, suc, zero, ◌+◌,
}
use tamara.Rtlil.Platform.{Platform}

module _ (p : Platform) where
  open p use {kernel, wire_map}
  open kernel use {
    Wire, Cell, Module, wire_name, port_output, wires, cells, is_mem_cell, has_attribute,
    set_bool_attribute,
  }

  -- what the cones work on: the top module, its voter builder and LogicCone's static members
  pub record Session : Type 0 where
    pub netlist : Module
    pub builder : VoterBuilder kernel
    pub globals : Globals p

  -- `markMemoriesIgnored`
  unfoldable pub mark_memory : Module → Cell → Module
  mark_memory m c = if is_mem_cell c then set_bool_attribute (cell c) ignore_annotation m else m

  unfoldable pub mark_memories_ignored : Module → Module
  unfolding mark_memory
  mark_memories_ignored m = foldl mark_memory m (cells m)

  -- `getOutputPorts`
  unfoldable pub get_output_ports : Module → List Wire
  get_output_ports m = select port_output (wires m)

  -- `locateErrorSink`; `sink` is the one found before
  unfoldable pub sink_among : Module → List Wire → Option Wire → Result (Option Wire)
  sink_among m [] sink = ok sink
  sink_among m (w ∷ ws) sink =
      let next = sink_among m ws (some w) in
      let same = sink_among m ws sink in
      if has_attribute m (wire w) error_sink_annotation
      then (if is_some sink then err (Error.duplicate_error_sink (wire_name w)) else next)
      else same

  unfoldable pub locate_error_sink : Module → Result (Option Wire)
  unfolding sink_among
  locate_error_sink m = sink_among m (wires m) none

  -- the four calls on a cone, which both loops of `execute` make
  unfoldable pub process_cone : Connections p → LogicCone p → M Session (List (LogicCone p))
  process_cone connections c s = elim (search p connections.wires c) [
    | err e ↦ err e
    | ok c ↦ and_then (replicate p c (λ _. []) s.netlist) (λ replicas m.
        and_then (wire_cone p c replicas connections s.builder m) (λ builder m.
          and_then (build_successors p connections.wires c s.globals) (λ cones globals.
            ok (cones, record { netlist = m; builder = builder; globals = globals }))))
  ]

  -- one output port: the error sink is passed over
  unfoldable pub process_output : Connections p → Wire → M Session (List (LogicCone p))
  process_output connections output s =
      if has_attribute s.netlist (wire output) error_sink_annotation
      then ok ([], s)
      else and_then (new_logic_cone p (wire output) s.globals)
          (λ c globals. process_cone connections c (record s { globals = globals }))

  unfoldable pub process_outputs :
      Connections p → List Wire → List (LogicCone p) → M Session (List (LogicCone p))
  process_outputs connections [] successors s = ok (successors, s)
  process_outputs connections (output ∷ outputs) successors s =
      and_then (process_output connections output s)
        (λ cones s. process_outputs connections outputs (successors ++ cones) s)

  -- The loop over the queue of successors, whose rounds are counted; `none` is a loop that goes on.
  unfoldable pub process_successors :
      Connections p → ℕ → List (LogicCone p) → Session → Option (Result (Unit {0} × Session))
  process_successors connections rounds [] s = some (ok (tt, s))
  process_successors connections zero (c ∷ queue) s = none
  process_successors connections (suc rounds) (c ∷ queue) s = elim (process_cone connections c s) [
    | err e ↦ some (err e)
    | ok (cones, s) ↦ process_successors connections rounds (queue ++ cones) s
  ]

  -- Every round takes a cone from the queue, and an object enters the queue once at most.
  abbrev pub enough_rounds : Connections p → List (LogicCone p) → ℕ
  enough_rounds connections queue = length queue + length (wire_map.entries connections.wires)

  -- the end of `execute`: the reports of all voters
  unfoldable pub sink_errors : Option Wire → M Session (Unit {0})
  sink_errors none s = ok (tt, s)
  sink_errors (some sink) s =
      and_then (finalise kernel s.builder sink s.netlist) (λ _ m. ok (tt, record s { netlist = m }))

  abbrev pub sink_after :
      Option Wire → Option (Result (Unit {0} × Session)) → Option (Result (Unit {0} × Session))
  sink_after sink none = none
  sink_after sink (some r) = some (and_then r (λ _ s. sink_errors sink s))

  -- `execute` on the top module, which may be missing
  unfoldable pub run_module :
      Module → Option Wire → Globals p → Option (Result (Unit {0} × Session))
  run_module top sink globals =
      let m = mark_memories_ignored top in
      let connections = analyse_all p m in
      let s : Session = record { netlist = m; builder = new_builder kernel; globals = globals } in
      elim (process_outputs connections (get_output_ports m) [] s) [
        | err e ↦ some (err e)
        | ok (queue, s) ↦
            sink_after sink
              (process_successors connections (enough_rounds connections queue) queue s)
      ]

  unfoldable pub execute : Option Module → Globals p → Option (Result (Unit {0} × Session))
  execute none globals = some (err Error.no_top_module)
  execute (some top) globals = elim (locate_error_sink top) [
    | err e ↦ some (err e)
    | ok sink ↦ run_module top sink globals
  ]
