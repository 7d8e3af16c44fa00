-- ===== src/Lib.antt =====
-- TaMaRa adds triple modular redundancy to a netlist, as a plugin of Yosys. Its command tamara_tmr
-- goes backwards from each output port of the top module and collects a logic cone, the cells and
-- wires up to the next flip flops and ports. It replicates the cone twice, puts a majority voter
-- behind the three copies of its cut point, repairs wires that three replicas drive, and goes on
-- with the flip flops where the cone ended. At the end the reports of all voters are joined into
-- the wire that is marked as the error sink.
--
-- The parts, and the files of the repository that they model:
--   Rtlil      what the plugin calls and the repository does not hold: RTLIL of Yosys (Rtlil.Kernel),
--              the meaning of a netlist (Rtlil.Circuit: the values of its wires that its cells and
--              connections allow), of attributes (Rtlil.Attributes), ports and new wires (Rtlil.Ports),
--              and new cells (Rtlil.NewCells), what a growing netlist keeps (Rtlil.Gates), and the
--              hash sets and maps of include/ankerl (Rtlil.Containers). All are records of types,
--              operations and documented laws, and parameters of the rest. Rtlil.Intact has the
--              rules of computations that leave the voters of a netlist as they are; the modules
--              called Intact apply them to each part.
--   Util       src/util.cpp and include/tamara/util.hpp: the annotations and `tamaraId` (Util.Names),
--              the analysis of connections (Util.Connections) with the relations that its maps stand
--              for (Util.Neighbours, Util.Signals, Util.Outputs), the two inverse lookups
--              (Util.Lookups), the texts of the dumps (Util.Dump), and the colours of
--              include/tamara/termcolour.hpp (Util.Terminal)
--   Voter      src/voter_builder.cpp: the voter of one bit, `VoterBuilder::build` and `finalise`, and
--              the voter of src/voter.v with the bypass to it that only TAMARA_DEBUG compiles
--              (Voter.Bypass)
--   Cone       src/logic_graph.cpp and include/tamara/logic_graph.hpp: the nodes (Cone.Node), the
--              search (Cone.Search), replication (Cone.Replicate), voter insertion and wiring
--              (Cone.Wiring), and the successors of a cone (Cone.Successors)
--   FixWalker  src/fix_walker.cpp and include/tamara/fix_walker.hpp: the walk, MultiDriverFixer
--   Pass       src/tamara_tmr_pass.cpp: the command itself. Pass.Worklist is the specification of its
--              work on cones as steps on a board of pending and finished jobs, Pass.Runs the rounds
--              of the two loops, and Pass.Refinement and Pass.Complete relate the three. Pass.Ballots,
--              Pass.Voted and Pass.Votes follow the voters of all cones to the end of the run.
--   Debug      src/tamara_debug.cpp: the command tamara_debug with its tasks
--   Sample     a concrete platform with lists as containers, for the witnesses; Examples has these
--   Common     tests, lists, and computations that can fail
--
-- State and errors. What changes is passed explicitly: the Module, the VoterBuilder, the frontier,
-- the visited names and the other members of a LogicCone, and the static members of LogicCone
-- (Cone.Successors.Globals). Nodes are shared pointers in the source, so a node has an address, and
-- replicas are kept by address. Each `log_error` and each failed `log_assert` is a value of
-- Common.Error and ends the computation.
--
-- Loops. A loop over a container is recursion on its list in the order of iteration. The loop of
-- the search takes one node from its frontier in a round, and an object enters that once at most,
-- so one more round than there are neighbours in the map is enough. The loop over the successors
-- takes one cone from its queue in a round, and an object with neighbours becomes a cone once at
-- most, so the length of the queue and the number of entries of the map are enough.
--
-- Numbers. The id of a cone is a uint32_t and wraps at 2 ^ 32; widths, lengths and the number of
-- voters are natural numbers, far from the ends of their types. `stol` reads decimal digits and
-- knows the end of an int; a negative width is an error value.
--
-- Not modelled: log output, `Module::check` and `Cell::check` (RTLIL's own consistency), the commands
-- of Yosys that tamara_tmr runs in a debug build when the environment asks for it (`read_verilog` on
-- src/voter.v, `opt_clean`), and the scripts under tests and tools. What the environment, the clock,
-- the random generator and the terminal answer are arguments of the dumps and colours, and the
-- commands that the dumps run are their results. Names, types, widths and port flags are read from the
-- object, since nothing writes them after it was made, but for the port flags that mkvoter sets on its
-- five wires; all else is read from the Module.
pub mod Common
pub mod Rtlil
pub mod Util
pub mod Voter
pub mod Sample
pub mod Examples
pub mod FixWalker
pub mod Pass
pub mod Debug
pub mod Cone
