-- ===== src/Examples/Voters.antt =====
-- src/voter_builder.cpp on the sample platform.
use tamara.Voter.Bit.{build_bit-majority, majority, disagree}
use tamara.Voter.Build.{build-Voter, Voter}
use tamara.Voter.Branches.{build-Branches}
use tamara.Voter.Finalise.{finalise-any, finalise-Fails, Fails, any_set}
use tamara.Voter.{VoterBuilder, finalise, new_builder, build, build_bit}
use tamara.Common.{
  ℕ, ◌≡◌, Bool, String, Yields, false, str_eq, ◌∷◌, [], true, ◌&&◌, ◌==◌, ◌↔◌, some, ◌≢◌, arith,
  ◌⊎◌, refl, err, Error,
}
use tamara.Sample.Netlist.{object, Object, kernel, empty_netlist}
use tamara.Sample.Gates.{circuit}

abbrev bit_wire : String → Object
bit_wire name = object name "" 1 false false

abbrev byte_wire : String → Object
byte_wire name = object name "" 8 false false

-- the second input is wrong on its lowest bit, and so is what the voter says of it
abbrev upset : Object → ℕ → Bool
upset w i = str_eq (kernel.wire_name w) "b" && i == 0

build_bit-majority_example :
    Yields
      (λ _ m'.
        circuit.Allows m' upset
        → circuit.Allows empty_netlist upset
          × (upset (bit_wire "out") 0 ≡ majority false true false)
          × (upset (bit_wire "err") 0 ≡ disagree false true false))
      (build_bit kernel
        (bit_wire "a")
        (bit_wire "b")
        (bit_wire "c")
        (bit_wire "out")
        (bit_wire "err")
        empty_netlist)
build_bit-majority_example =
    build_bit-majority kernel circuit upset (bit_wire "a") (bit_wire "b") (bit_wire "c")
      (bit_wire "out") (bit_wire "err") empty_netlist refl refl refl refl refl

build-Voter_example :
    Yields
      (Voter kernel circuit upset
        (byte_wire "a")
        (byte_wire "b")
        (byte_wire "c")
        (byte_wire "out")
        (new_builder kernel)
        empty_netlist)
      (build kernel
        (new_builder kernel)
        (some (byte_wire "a"))
        (some (byte_wire "b"))
        (some (byte_wire "c"))
        (some (byte_wire "out"))
        empty_netlist)
build-Voter_example =
    build-Voter kernel circuit upset (byte_wire "a") (byte_wire "b") (byte_wire "c")
      (byte_wire "out") (new_builder kernel) empty_netlist refl refl refl (omega arith)

abbrev reporting : VoterBuilder kernel
reporting = record { size = 2; reductions = bit_wire "b" ∷ bit_wire "r" ∷ bit_wire "s" ∷ [] }

finalise-any_example :
    Yields
      (λ _ m'.
        circuit.Allows m' upset
        → circuit.Allows empty_netlist upset
          × (upset (bit_wire "err") 0 ≡ any_set kernel circuit upset reporting.reductions))
      (finalise kernel reporting (bit_wire "err") empty_netlist)
finalise-any_example =
    finalise-any kernel circuit upset reporting (bit_wire "err") empty_netlist refl (λ e. cc)
      (refl, (refl, (refl, tt)))

finalise-Fails_example :
    Fails kernel (finalise kernel (new_builder kernel) (bit_wire "err") empty_netlist)
    ↔ ((kernel.width (bit_wire "err") ≢ 1) ⊎ ((new_builder kernel).reductions ≡ []))
finalise-Fails_example = finalise-Fails kernel (new_builder kernel) (bit_wire "err") empty_netlist

-- a wire of one bit among wires of eight
build-Branches_example :
    build kernel
      (new_builder kernel)
      (some (byte_wire "a"))
      (some (byte_wire "b"))
      (some (bit_wire "c"))
      (some (byte_wire "out"))
      empty_netlist
    ≡ err Error.input_width_mismatch
build-Branches_example =
    build-Branches kernel (new_builder kernel) (some (byte_wire "a")) (some (byte_wire "b"))
      (some (bit_wire "c")) (some (byte_wire "out")) empty_netlist
