-- ===== src/Examples/Replication.antt =====
-- The replication and the wiring of src/logic_graph.cpp on the sample circuit.
use tamara.Sample.Shared.{
  shared, second_cone, second_cone-elements, gate_replicated, second_cone-replicated, gate, node,
}
use tamara.Cone.Replicate.{replicate, replicate_node}
use tamara.Cone.Replicate.Marks.{Replicated}
use tamara.Cone.Replicate.Correct.{nodes_of, replicate-Replicated}
use tamara.Cone.Wiring.Shared.{wire_cone-shared_cut}
use tamara.Cone.Wiring.Extract.{Extracts, outputs, extract_replica_wire-Extracts}
use tamara.Cone.Wiring.{extract_replica_wire, wire_cone}
use tamara.Sample.Netlist.{platform, kernel}
use tamara.Sample.Laws.{attributes, copies, port_laws}
use tamara.Cone.Replicate.Copies.{Replicates, replicate_node-Replicates}
use tamara.Rtlil.Kernel.{cell}
use tamara.Util.Connections.{analyse_all}
use tamara.Voter.{new_builder}
use tamara.Cone.Node.{Kind}
use tamara.Common.{Yields, and_then, [], refl, ◌≡◌, err, Error, false}

replicate-Replicated_example :
    Yields
      (λ r' m'.
        Replicated platform attributes shared m'
          (nodes_of platform attributes second_cone)
          (λ _. [])
          r')
      (replicate platform second_cone (λ _. []) shared)
replicate-Replicated_example =
    replicate-Replicated platform attributes second_cone (λ _. []) shared refl refl
      second_cone-elements

wire_cone-shared_cut_example :
    and_then (replicate platform second_cone (λ _. []) gate_replicated) (λ r m'.
      wire_cone platform second_cone r (analyse_all platform shared) (new_builder kernel) m')
    ≡ err Error.replica_count
wire_cone-shared_cut_example =
    wire_cone-shared_cut platform attributes second_cone (node Kind.element_cell (cell gate) 2)
      (analyse_all platform shared) (new_builder kernel) gate_replicated refl refl
      second_cone-elements refl refl second_cone-replicated

extract_replica_wire-Extracts_example :
    Extracts platform port_laws gate shared
      (outputs platform port_laws shared gate)
      (extract_replica_wire platform (cell gate) shared)
extract_replica_wire-Extracts_example = extract_replica_wire-Extracts platform port_laws gate shared

replicate_node-Replicates_example :
    Replicates platform attributes copies
      (node Kind.element_cell (cell gate) 2)
      shared
      false
      false
      (replicate_node platform (node Kind.element_cell (cell gate) 2) shared)
replicate_node-Replicates_example =
    replicate_node-Replicates platform attributes copies (node Kind.element_cell (cell gate) 2)
      shared
