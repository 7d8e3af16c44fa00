-- ===== src/Examples/Whole.antt =====
-- A whole run of `execute` on the sample platform: the input x goes through an inverter, a flip
-- flop and another inverter to the output y, and the port err is marked as the error sink.
use tamara.Sample.Netlist.{
  Netlist, Object, object, empty_netlist, platform, whole, same_object, kernel, set_mark, Signal,
  Gate, joint, Item, numbered,
}
use tamara.Sample.Laws.{port_laws}
use tamara.Util.Connections.{
  Connections, analyse_all, analyse_connections, analyse_cell_outputs, note_cell,
  should_consider_for_tmr, note_port, sig_spec_to_wire, link_wire, link_signal, note_output,
  note_connection, is_dff,
}
use tamara.Cone.Node.{Node, Kind, compute_neighbours, kind_of, neighbours_of, new_neighbours}
use tamara.Cone.Wiring.FlipFlop.{OnlyOutputMoved, connect_voter-flip_flop}
use tamara.Sample.Shared.{node, input, output}
use tamara.Rtlil.Kernel.{wire, cell}
use tamara.Util.Names.{error_sink_annotation, to_string, tamara_id, cone_annotation}
use tamara.Util.Lookups.{rtlil_inverse_lookup, signal_inverse_lookup}
use tamara.Cone.Successors.{
  Globals, build_successors, successors_of, new_logic_cone, make_cone, wire_cone_from,
}
use tamara.Pass.{
  execute, Session, locate_error_sink, sink_among, mark_memories_ignored, mark_memory, run_module,
  process_cone, process_output, process_outputs, process_successors, sink_errors, get_output_ports,
}
use tamara.Voter.{
  make_voter_wire, make_voter_cell, voter_wire, voter_not, voter_and, voter_or, build_bit, vote_bit,
  vote_bits, reduce_errors, or_tree, join_reductions, finalise, build,
}
use tamara.Cone.Search.{
  search, search_loop, start, store, consider, expand, push_neighbours, push_neighbour,
  verify_input_nodes, all_neighbours, finish, choose_cut,
}
use tamara.Cone.Replicate.{
  replicate, annotate, replicate_cell, replicate_wire, replicate_node, replicate_items,
  replicate_if_not_io, replicate_terminals, get_replicas,
}
use tamara.Cone.Wiring.{
  wire_cone, replace_output, replace_outputs, extract_replica_wire, extract_at, insert_voter,
  connect_special, connect_output, connect_voter,
}
use tamara.FixWalker.{
  find_by_approx_name, port_at, locate_input_port, reconnect, rewire_replicas, rewire, process_wire,
  visit_wire, visit_ports, visit_cells, visit_wires, run_walker, run_walkers, execute_walkers,
}
use Prim.Native.Nat.{◌^◌}
use tamara.Sample.Growth.{gates, marks}
use tamara.Sample.Gates.{circuit}
use tamara.Rtlil.Intact.{Plain}
use tamara.Rtlil.Attributes.{Has}
use tamara.Pass.Ballots.{Ballot, Covers}
use tamara.Pass.Votes.{Upheld, execute-Votes}
use tamara.Pass.Worklist.{◌⟶*◌, Job, count, has_id, is_found}
use tamara.Pass.Refinement.{board}
use tamara.Pass.Complete.{Processes, start_board, execute-once, execute-Refines, top_connections}
use tamara.Sample.Objects.{Item, numbered}
use tamara.Common.{
  length, bit, ltb, ◌⊎◌, ◌≤◌, [], false, some, ◌∷◌, if◌then◌else◌, List, ℕ, ◌+◌, ◌≡◌, ok, String,
  refl, In, Option, arith, inl, subst, inr,
}

abbrev inverter : String → Object
inverter name = object name "$not" 0 false false

abbrev flip_flop : Object
flip_flop = object "f" "$dff" 0 false false

abbrev plain : String → Object
plain name = object name "" 1 false false

abbrev ports_of : Object → List (String × Signal)
ports_of c =
    if same_object c (inverter "g")
    then ("A", whole (plain "q")) ∷ ("Y", whole (output "y")) ∷ []
    else if same_object c (inverter "h")
    then ("A", whole (input "x")) ∷ ("Y", whole (plain "d")) ∷ []
    else if same_object c flip_flop
    then ("D", whole (plain "d")) ∷ ("Q", whole (plain "q")) ∷ []
    else []

-- the connections between two whole wires
abbrev whole_joints : List Gate → List (String × String)
whole_joints [] = []
whole_joints (joint (whole l) (whole r) ∷ gates) =
    (kernel.wire_name l, kernel.wire_name r) ∷ whole_joints gates
whole_joints (_ ∷ gates) = whole_joints gates

abbrev design : Netlist
design = set_mark (wire (output "err")) error_sink_annotation "1" (record empty_netlist {
  wires = output "y" ∷ input "x" ∷ plain "q" ∷ plain "d" ∷ output "err" ∷ [];
  cells = inverter "g" ∷ inverter "h" ∷ flip_flop ∷ [];
  ports = ports_of;
})

abbrev unused : Globals platform
unused = record { next_id = 0; explored = [] }

-- the run succeeds
ran : (s : Session platform) × (execute platform (some design) unused ≡ some (ok (tt, s)))
unfolding execute locate_error_sink sink_among run_module mark_memories_ignored mark_memory
    analyse_all process_cone process_output process_outputs process_successors sink_errors
    get_output_ports search search_loop start store consider expand push_neighbours push_neighbour
    verify_input_nodes all_neighbours finish choose_cut compute_neighbours kind_of neighbours_of
    new_neighbours replicate wire_cone build_successors successors_of new_logic_cone make_cone
    wire_cone_from analyse_connections analyse_cell_outputs note_cell should_consider_for_tmr
    note_port sig_spec_to_wire link_wire link_signal note_output note_connection is_dff annotate
    replicate_cell replicate_wire replicate_node replicate_items replicate_if_not_io
    replicate_terminals get_replicas replace_output replace_outputs extract_replica_wire extract_at
    insert_voter connect_special connect_output connect_voter find_by_approx_name port_at
    locate_input_port reconnect rewire_replicas rewire process_wire visit_wire visit_ports
    visit_cells visit_wires run_walker run_walkers execute_walkers make_voter_wire make_voter_cell
    voter_wire voter_not voter_and voter_or build_bit vote_bit vote_bits reduce_errors or_tree
    join_reductions finalise build to_string tamara_id rtlil_inverse_lookup signal_inverse_lookup
ran = (_, refl)

abbrev finished : Session platform
finished = ran.0

-- There is a cone for the port and one for the flip flop, each with a voter of one bit, and both
-- reports come to the error sink.
ran-counts :
    (finished.globals.next_id ≡ 2)
    × (finished.globals.explored ≡ "f" ∷ [])
    × (finished.builder.size ≡ 2)
    × (length finished.builder.reductions ≡ 2)
unfolding ran
ran-counts = (refl, refl, refl, refl)

abbrev replica : String → String → Object
replica name type = object name type 0 false false

abbrev ports_after : Object → List (String × Signal)
ports_after = finished.netlist.ports

-- a wire that the command added, with its number
abbrev made : ℕ → String → Object
made k name = numbered k (plain name)

-- The fix walkers gave the replicas of the flip flop and of the inverter behind it a wire for each
-- pair.
ran-pairs :
    (ports_after (replica "f$replica1_cone0" "$dff")
      ≡ ("D", whole (plain "d")) ∷ ("Q", whole (made 22 "$tmr$MultiDriverFixer$36")) ∷ [])
    × (ports_after (replica "g$replica1_cone0" "$not")
        ≡ ("A", whole (made 22 "$tmr$MultiDriverFixer$36"))
          ∷ ("Y", whole (made 1 "$tmr$eRW$1"))
          ∷ [])
    × (ports_after (replica "f$replica2_cone0" "$dff")
        ≡ ("D", whole (plain "d")) ∷ ("Q", whole (made 23 "$tmr$MultiDriverFixer$37")) ∷ [])
    × (ports_after (replica "g$replica2_cone0" "$not")
        ≡ ("A", whole (made 23 "$tmr$MultiDriverFixer$37"))
          ∷ ("Y", whole (made 2 "$tmr$eRW$2"))
          ∷ [])
unfolding ran
ran-pairs = (refl, refl, refl, refl)

-- The voter of the second cone is on the output Q of its flip flop: Q has a new wire, which is
-- connected to the wire that the voter drives. The wires d and q are driven by nothing any more.
ran-flip_flop :
    (ports_after flip_flop ≡ ("D", whole (plain "d")) ∷ ("Q", whole (made 46 "$tmr$eRW$74")) ∷ [])
    × (ports_after (inverter "h")
        ≡ ("A", whole (input "x")) ∷ ("Y", whole (made 27 "$tmr$eRW$41")) ∷ [])
    × (ports_after (inverter "g")
        ≡ ("A", whole (plain "q")) ∷ ("Y", whole (made 3 "$tmr$eRW$3")) ∷ [])
    × (whole_joints finished.netlist.gates
        ≡ ("$tmr$initial_or_out$75", "err")
          ∷ ("$tmr$eRW$74", "$tmr$eRW$38")
          ∷ ("y", "$tmr$eRW$0")
          ∷ [])
unfolding ran
ran-flip_flop = (refl, refl, refl, refl)

abbrev Witnessed : List (Job platform) → Type 0
Witnessed done = Processes platform design unused done finished

execute-Refines_example :
    (done : List (Job platform)) × Witnessed done
    × ◌⟶*◌ platform (start_board platform unused) (board platform [] done finished.globals)
execute-Refines_example = execute-Refines platform design unused finished ran.1

execute-once_example :
    (done : List (Job platform)) × Witnessed done
    × ((2 ^ 32 ≤ 0 + length done)
        ⊎ ((k : ℕ)
            → count platform (has_id platform k) done + bit (ltb k 0)
              ≡ bit (ltb k finished.globals.next_id)))
    × ((name : String)
        → count platform (is_found platform name) done + 0
          ≡ bit (platform.name_set.contains finished.globals.explored name))
execute-once_example = execute-once platform design unused finished ran.1

abbrev links : Connections platform
links = analyse_all platform design

-- the cone of the flip flop, whose cut point is the inverter before it
abbrev of_flip_flop : Node platform
of_flip_flop = node Kind.ff (cell flip_flop) 0

abbrev before_it : Node platform
before_it = node Kind.element_cell (cell (inverter "h")) 1

voted :
    (m' : Netlist) × (connect_voter platform links before_it of_flip_flop
        (some (plain "voted"))
        design
      ≡ ok (tt, m'))
unfolding connect_voter connect_output extract_replica_wire replace_outputs replace_output tamara_id
    to_string analyse_all analyse_connections note_cell should_consider_for_tmr note_port
    sig_spec_to_wire link_wire link_signal note_connection analyse_cell_outputs note_output
voted = (_, refl)

connect_voter-flip_flop_example :
    OnlyOutputMoved platform port_laws flip_flop "Q" (whole (plain "q")) design voted.0
connect_voter-flip_flop_example =
    connect_voter-flip_flop platform port_laws links before_it of_flip_flop flip_flop "Q"
      (whole (plain "q")) (plain "voted") design voted.0 refl refl voted.1

abbrev PlainItem : Item → Type 0
PlainItem = Plain kernel circuit gates marks

unmarked : (x : Item) → Has kernel design x cone_annotation → PlainItem x
unmarked (wire w) h = tt
unmarked (cell c) h = ground arith

inside : (c : Object) → In c design.cells → PlainItem (cell c)
inside c (inl e) = subst (λ c. PlainItem (cell c)) e refl
inside c (inr (inl e)) = subst (λ c. PlainItem (cell c)) e refl
inside c (inr (inr (inl e))) = subst (λ c. PlainItem (cell c)) e refl
inside c (inr (inr (inr at))) = absurd at

execute-Votes_example :
    (sink : Option Object) × (locate_error_sink platform design ≡ ok sink)
    × (done : List (Job platform)) × Witnessed done
    × (ts : List (Ballot platform)) × Covers platform (top_connections platform design) done ts
    × Upheld platform circuit (top_connections platform design) sink ts finished
execute-Votes_example =
    execute-Votes platform circuit gates marks design unused finished (record { plain = unmarked })
      inside ran.1
