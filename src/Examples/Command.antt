-- ===== src/Examples/Command.antt =====
-- src/tamara_tmr_pass.cpp on the sample platform.
use tamara.Cone.Successors.{Globals}
use tamara.Sample.Netlist.{Netlist, platform, kernel}
use tamara.Util.Links.{linked}
use tamara.Cone.Search.{LogicCone, search}
use tamara.Sample.Shared.{second_cone, shared, gate, memory, plain}
use tamara.Util.Connections.{analyse_connections}
use tamara.Rtlil.Kernel.{cell, wire}
use tamara.Util.Names.{error_sink_annotation}
use tamara.Sample.Laws.{attributes}
use tamara.Common.{Result, [], some, ◌≡◌, select, ◌∷◌, false, inr, inl, refl, ◌≢◌, err, Error, none}
use tamara.Pass.{execute, Session, locate_error_sink, mark_memories_ignored}
use tamara.Pass.Ends.{execute-Ended}
use tamara.Pass.Sink.{locate_error_sink-only, only_sink}
use tamara.Pass.Memories.{memory-unlinked}

abbrev globals : Globals platform
globals = record { next_id = 0; explored = [] }

abbrev links : platform.wire_map.Map
links = (analyse_connections platform shared).wires

-- the cone of y2 before its search
abbrev unsearched : LogicCone platform
unsearched = record second_cone {
  frontier = [];
  cone = [];
  input_nodes = [];
  voter_cut_point = none;
}

execute-Ended_example :
    (search platform links unsearched ≢ err Error.out_of_fuel)
    × ((r : Result (Unit {0} × Session platform)) × (execute platform (some shared) globals
          ≡ some r))
execute-Ended_example = execute-Ended platform links unsearched (some shared) globals

locate_error_sink-only_example :
    locate_error_sink platform shared
    ≡ only_sink platform (
        select
          (λ w. kernel.has_attribute shared (wire w) error_sink_annotation)
          (kernel.wires shared))
locate_error_sink-only_example = locate_error_sink-only platform shared

abbrev with_memory : Netlist
with_memory = record shared { cells = gate ∷ memory ∷ [] }

memory-unlinked_example :
    (linked platform.ptr_set platform.wire_map
        (analyse_connections platform (mark_memories_ignored platform with_memory)).wires
        (cell memory)
        (wire (plain "t"))
      ≡ false)
    × (linked platform.ptr_set platform.wire_map
          (analyse_connections platform (mark_memories_ignored platform with_memory)).wires
          (wire (plain "t"))
          (cell memory)
        ≡ false)
memory-unlinked_example =
    memory-unlinked platform attributes with_memory memory (wire (plain "t")) (inr (inl refl)) refl
