-- ===== src/Voter/Bypass.antt =====
-- src/voter_builder.cpp as TAMARA_DEBUG compiles it: with TAMARA_DEBUG_BYPASS_VOTER in the
-- environment the voter of one bit is a cell of the type VOTER, the module of src/voter.v, in place
-- of the gates. `Cell::check` only asserts RTLIL's own consistency and is left out.
pub mod Verilog
pub mod Instance
use tamara.Common.{Bool, not, ◌&&◌, ◌||◌, String, M, call, change, pure, ◌>>=◌, ◌>>◌, if◌then◌else◌}
use tamara.Rtlil.Kernel.{Kernel, cell}
use tamara.Util.Names.{tamara_id, voter_annotation}
use tamara.Voter.{build_bit}

-- the two assignments of the module VOTER in src/voter.v
unfoldable pub assign_out : Bool → Bool → Bool → Bool
assign_out a b c = ((a && b) || (b && c)) || (a && c)

unfoldable pub assign_err : Bool → Bool → Bool → Bool
assign_err a b c = ((not a && c) || (a && not b)) || (b && not c)

abbrev pub voter_type : String
voter_type = "\\VOTER"

module _ (k : Kernel) where
  open k use {Wire, Cell, SigSpec, Module, of_wire, add_cell, set_port, set_bool_attribute}

  -- `insertVoterCell`
  unfoldable pub insert_voter_cell : SigSpec → SigSpec → SigSpec → SigSpec → SigSpec → M Module Cell
  insert_voter_cell a b c out error = do
    name ← tamara_id k "voter"
    voter ← call (add_cell name voter_type)
    change (set_port voter "\\A" a)
    change (set_port voter "\\B" b)
    change (set_port voter "\\C" c)
    change (set_port voter "\\OUT" out)
    change (set_port voter "\\ERR" error)
    change (set_bool_attribute (cell voter) voter_annotation)
    pure voter

  -- the free function `build`; `bypass` says whether the variable is set
  unfoldable pub build_or_bypass : Bool → Wire → Wire → Wire → Wire → Wire → M Module (Unit {0})
  build_or_bypass bypass a b c out error =
      if bypass
      then (do
        _ ← insert_voter_cell (of_wire a) (of_wire b) (of_wire c) (of_wire out) (of_wire error)
        pure tt)
      else build_bit k a b c out error
