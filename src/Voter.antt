-- ===== src/Voter.antt =====
-- src/voter_builder.cpp and include/tamara/voter_builder.hpp, as a release build compiles them:
-- the debug dumps and TAMARA_DEBUG_BYPASS_VOTER are left out. `Module::check` only asserts RTLIL's
-- own consistency and is left out too.
mod Gates
pub mod Bit
pub mod Bits
pub mod Build
pub mod Finalise
pub mod Branches
pub mod Masking
pub mod Intact
pub mod Cast
pub mod Bypass
use tamara.Common.{
  ℕ, zero, suc, ◌+◌, ◌&&◌, Option, none, some, List, [], ◌∷◌, ◌++◌, String, str_append, Error, M,
  call, change, pure, fail, require, some_or, ◌>>=◌, ◌>>◌, ltb, ◌==◌, if◌then◌else◌,
}
use tamara.Rtlil.Kernel.{wire, cell, Kernel}
use tamara.Util.Names.{voter_annotation, tamara_id, to_string}

module _ (k : Kernel) where
  open k use {
    Wire, Cell, SigSpec, Module, wire_name, width, of_wire, chunk, add_wire, add_logic_not,
    add_logic_and, add_logic_or, add_reduce_or, add_buf, connect, set_bool_attribute,
  }

  -- `makeAsVoter` on a new wire and on a new cell
  unfoldable pub make_voter_wire : Wire → M Module Wire
  make_voter_wire w = do change (set_bool_attribute (wire w) voter_annotation); pure w

  unfoldable pub make_voter_cell : Cell → M Module (Unit {0})
  make_voter_cell c = change (set_bool_attribute (cell c) voter_annotation)

  -- makeAsVoter(module->addWire(tamaraId(label))); the macro WIRE(A, B) has the label A_B_wire
  unfoldable pub voter_wire : String → M Module Wire
  voter_wire label = do name ← tamara_id k label; w ← call (add_wire name 1); make_voter_wire w

  -- the macros NOT, AND and OR
  unfoldable pub voter_not : String → Wire → Wire → M Module (Unit {0})
  voter_not number a y = do
    name ← tamara_id k (str_append "not" number)
    c ← call (add_logic_not name (of_wire a) (of_wire y))
    make_voter_cell c

  unfoldable pub voter_and : String → Wire → Wire → Wire → M Module (Unit {0})
  voter_and number a b y = do
    name ← tamara_id k (str_append "and" number)
    c ← call (add_logic_and name (of_wire a) (of_wire b) (of_wire y))
    make_voter_cell c

  unfoldable pub voter_or : String → Wire → Wire → Wire → M Module (Unit {0})
  voter_or label a b y = do
    name ← tamara_id k label
    c ← call (add_logic_or name (of_wire a) (of_wire b) (of_wire y))
    make_voter_cell c

  -- the free function `build`: the voter of one bit
  unfoldable pub build_bit : Wire → Wire → Wire → Wire → Wire → M Module (Unit {0})
  build_bit a b c out error = do
    not0_and2 ← voter_wire "not0_and2_wire"
    voter_not "0" a not0_and2
    not1_and3 ← voter_wire "not1_and3_wire"
    voter_not "1" b not1_and3
    not2_and5 ← voter_wire "not2_and5_wire"
    voter_not "2" c not2_and5
    and0_or0 ← voter_wire "and0_or0_wire"
    voter_and "0" b c and0_or0
    and1_or0 ← voter_wire "and1_or0_wire"
    voter_and "1" a c and1_or0
    and2_or1 ← voter_wire "and2_or1_wire"
    voter_and "2" not0_and2 c and2_or1
    and3_or1 ← voter_wire "and3_or1_wire"
    voter_and "3" not1_and3 a and3_or1
    and4_or2 ← voter_wire "and4_or2_wire"
    voter_and "4" a b and4_or2
    and5_or3 ← voter_wire "and5_or3_wire"
    voter_and "5" not2_and5 b and5_or3
    or0_or2 ← voter_wire "or0_or2_wire"
    voter_or "or0" and0_or0 and1_or0 or0_or2
    or1_or3 ← voter_wire "or1_or3_wire"
    voter_or "or1" and2_or1 and3_or1 or1_or3
    voter_or "or2" or0_or2 and4_or2 out
    voter_or "or3" or1_or3 and5_or3 error

  -- the body of the loop over the bits in `VoterBuilder::build`
  unfoldable pub vote_bit : Wire → Wire → Wire → Wire → Wire → ℕ → M Module (Unit {0})
  vote_bit a b c out errors bit = do
    w_a ← voter_wire "A"
    w_b ← voter_wire "B"
    w_c ← voter_wire "C"
    w_out ← voter_wire "OUT"
    w_err ← voter_wire "ERR"
    change (connect (of_wire w_a) (chunk a bit 1))
    change (connect (of_wire w_b) (chunk b bit 1))
    change (connect (of_wire w_c) (chunk c bit 1))
    change (connect (chunk out bit 1) (of_wire w_out))
    change (connect (chunk errors bit 1) (of_wire w_err))
    build_bit w_a w_b w_c w_out w_err

  -- class VoterBuilder; its module is the state of the computation
  pub record VoterBuilder : Type 0 where
    pub size : ℕ
    pub reductions : List Wire

  abbrev pub new_builder : VoterBuilder
  new_builder = record { size = 0; reductions = [] }

  -- the rounds `bit`, `bit + 1`, … of the loop, `left` of them; each adds 1 to `size`
  unfoldable pub vote_bits : Wire → Wire → Wire → Wire → Wire → ℕ → ℕ → ℕ → M Module ℕ
  vote_bits a b c out errors bit zero size = pure size
  vote_bits a b c out errors bit (suc left) size = do
    vote_bit a b c out errors bit
    vote_bits a b c out errors (bit + 1) left (size + 1)

  -- the error bits of one cone are OR'ed down to one
  unfoldable pub reduce_errors : ℕ → Wire → Wire → M Module (Unit {0})
  reduce_errors bits errors reduced = do
    name ← tamara_id k "REDUCE"
    if ltb 1 bits
        then (do
          c ← call (add_reduce_or name (of_wire errors) (of_wire reduced))
          make_voter_cell c)
        else (do c ← call (add_buf name (of_wire errors) (of_wire reduced)); make_voter_cell c)

  -- `VoterBuilder::build`
  unfoldable pub build :
      VoterBuilder → Option Wire → Option Wire → Option Wire → Option Wire → M Module VoterBuilder
  build builder a? b? c? out? = do
    a ← some_or a? (Error.unexpected_null "a")
    b ← some_or b? (Error.unexpected_null "b")
    c ← some_or c? (Error.unexpected_null "c")
    out ← some_or out? (Error.unexpected_null "out")
    require (width a == width b && (width a == width c && width b == width c))
        Error.input_width_mismatch
    let bits = width a
    require (width out == bits) Error.output_width_mismatch
    name ← tamara_id k "ERR_INTERMEDIATE"
    errors ← call (add_wire name bits)
    size ← vote_bits a b c out errors 0 bits builder.size
    reduced ← voter_wire "ERR_INTER_OUT"
    reduce_errors bits errors reduced
    pure (record { size = size; reductions = builder.reductions ++ reduced ∷ [] })

  -- The loop of `finalise` over reductions[i], reductions[i + 1], …; `prev` starts as nullptr.
  unfoldable pub or_tree : Wire → Option Wire → ℕ → List Wire → M Module (Option Wire)
  or_tree first prev i [] = pure prev
  or_tree first none i (r ∷ rest) = do
    out ← voter_wire "initial_or_out"
    voter_or "initial_or" first r out
    or_tree first (some out) (i + 1) rest
  or_tree first (some p) i (r ∷ rest) = do
    let label = str_append "or_tree_" (to_string i)
    out ← voter_wire (str_append label "_out")
    voter_or label p r out
    or_tree first (some out) (i + 1) rest

  -- What `finalise` does after its test of the width. One reduction is wired directly; with none
  -- the loop has no round, and NOTNULL(prev) fails.
  unfoldable pub join_reductions : List Wire → Wire → M Module (Unit {0})
  join_reductions [] error = fail (Error.unexpected_null "prev")
  join_reductions (r ∷ []) error = change (connect (of_wire error) (of_wire r))
  join_reductions (r ∷ rs) error = do
    prev? ← or_tree r none 1 rs
    prev ← some_or prev? (Error.unexpected_null "prev")
    change (connect (of_wire prev) (of_wire error))

  -- `VoterBuilder::finalise`
  unfoldable pub finalise : VoterBuilder → Wire → M Module (Unit {0})
  finalise builder error = do
    require (width error == 1) (Error.error_signal_width (wire_name error) (width error))
    join_reductions builder.reductions error
