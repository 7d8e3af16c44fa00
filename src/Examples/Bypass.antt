-- ===== src/Examples/Bypass.antt =====
-- The debug build of src/voter_builder.cpp and src/voter.v on the sample platform.
use tamara.Sample.Objects.{same_object, numbered}
use tamara.Common.{ℕ, ◌≡◌, Bool, String, Yields, false, true, refl, ok, [], ◌∷◌, ◌||◌}
use tamara.Sample.Netlist.{object, Object, kernel, empty_netlist, whole, Netlist, same_object}
use tamara.Sample.Gates.{circuit}
use tamara.Sample.Laws.{attributes, port_laws, new_cells}
use tamara.Util.Names.{tamara_id, to_string}
use tamara.Voter.{build_bit}
use tamara.Voter.Bypass.{assign_out, assign_err, build_or_bypass, insert_voter_cell}
use tamara.Voter.Bypass.Verilog.{build_bit-assign_out}
use tamara.Voter.Bypass.Instance.{Instance, build_or_bypass-Instance}

abbrev bit_wire : String → Object
bit_wire name = object name "" 1 false false

abbrev last_set : Object → ℕ → Bool
last_set w i = same_object w (bit_wire "c") || same_object w (bit_wire "err")

build_bit-assign_out_example :
    Yields
      (λ _ m'.
        circuit.Allows m' last_set
        → circuit.Allows empty_netlist last_set
          × (false ≡ assign_out false false true)
          × (true ≡ assign_err false false true))
      (build_bit kernel
        (bit_wire "a")
        (bit_wire "b")
        (bit_wire "c")
        (bit_wire "out")
        (bit_wire "err")
        empty_netlist)
build_bit-assign_out_example =
    build_bit-assign_out kernel circuit last_set (bit_wire "a") (bit_wire "b") (bit_wire "c")
      (bit_wire "out") (bit_wire "err") empty_netlist refl refl refl refl refl

build_or_bypass-Instance_example :
    Yields
      (λ _ m'.
        Instance kernel port_laws new_cells attributes
          (whole (bit_wire "a"))
          (whole (bit_wire "b"))
          (whole (bit_wire "c"))
          (whole (bit_wire "out"))
          (whole (bit_wire "err"))
          empty_netlist
          m')
      (build_or_bypass kernel true
        (bit_wire "a")
        (bit_wire "b")
        (bit_wire "c")
        (bit_wire "out")
        (bit_wire "err")
        empty_netlist)
build_or_bypass-Instance_example =
    build_or_bypass-Instance kernel port_laws new_cells attributes (bit_wire "a") (bit_wire "b")
      (bit_wire "c") (bit_wire "out") (bit_wire "err") empty_netlist

bypassed :
    (m' : Netlist) × (build_or_bypass kernel true
        (bit_wire "a")
        (bit_wire "b")
        (bit_wire "c")
        (bit_wire "out")
        (bit_wire "err")
        empty_netlist
      ≡ ok (tt, m'))
unfolding build_or_bypass insert_voter_cell tamara_id to_string
bypassed = (_, refl)

-- one cell and no gates
bypassed-cells :
    (bypassed.0.cells ≡ numbered 0 (object "$tmr$voter$0" "\\VOTER" 0 false false) ∷ [])
    × (bypassed.0.gates ≡ [])
unfolding bypassed
bypassed-cells = (refl, refl)
