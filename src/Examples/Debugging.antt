-- ===== src/Examples/Debugging.antt =====
-- src/tamara_debug.cpp on the sample platform.
use tamara.Debug.{make_voter, replicate_not, execute_task, Design, voter_made}
use tamara.Debug.Tasks.{execute_task-mkvoter, FiveWires}
use tamara.Util.Names.{to_string}
use tamara.Debug.Voter.{IsVoter, make_voter-IsVoter}
use tamara.Debug.Replicate.{replicate_not-Fails}
use tamara.Sample.Netlist.{Object, platform, empty_netlist, kernel, object, Netlist}
use tamara.Sample.Gates.{circuit}
use tamara.Common.{
  ℕ, Error, Yields, Bool, [], not, some, str_eq, arith, false, ◌∷◌, ◌≡◌, err, none, ok,
}

-- all wires are set but the second
abbrev second_low : Object → ℕ → Bool
second_low w i = not (str_eq (kernel.wire_name w) "\\b")

make_voter-IsVoter_example :
    Yields
      (IsVoter platform circuit second_low 8 empty_netlist)
      (make_voter platform 8 empty_netlist)
make_voter-IsVoter_example =
    make_voter-IsVoter platform circuit second_low 8 empty_netlist (omega arith)

replicate_not-Fails_example :
    (e : Error) × (replicate_not platform
        (record { next_id = 0; explored = [] })
        (some (record empty_netlist { cells = object "n" "$logic_not" 0 false false ∷ [] }))
      ≡ err e)
replicate_not-Fails_example =
    replicate_not-Fails platform (record { next_id = 0; explored = [] })
      (some (record empty_netlist { cells = object "n" "$logic_not" 0 false false ∷ [] }))

abbrev empty_design : Design platform
empty_design = record {
  top = none;
  new_module = empty_netlist;
  globals = record { next_id = 0; explored = [] };
}

execute_task-mkvoter_example :
    (wires : FiveWires platform circuit second_low) × (m : Netlist) × (execute_task platform
        ("tamara_debug" ∷ "mkvoter" ∷ to_string 8 ∷ [])
        empty_design
      ≡ ok (voter_made wires m))
    × IsVoter platform circuit second_low 8 empty_netlist wires m
execute_task-mkvoter_example =
    execute_task-mkvoter platform circuit second_low "tamara_debug" 8 empty_design (omega arith)
      (omega arith)
