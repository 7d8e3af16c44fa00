-- ===== src/Debug.antt =====
-- src/tamara_debug.cpp: the command tamara_debug and its tasks.
pub mod Tasks
pub mod Voter
pub mod Replicate
use tamara.Cone.Successors.{Globals, new_logic_cone}
use tamara.Util.Connections.{Ptr}
use tamara.Voter.{build, new_builder, finalise}
use tamara.Cone.Replicate.{replicate_cell}
use tamara.Rtlil.Kernel.{cell}
use tamara.Util.Names.Digits.{stol}
use Prim.Native.Nat.{◌%◌, ◌^◌}
use tamara.Common.{
  List, ℕ, M, Option, length, Result, none, ◌+◌, ◌>>=◌, call, ◌∷◌, err, if◌then◌else◌, Error,
  str_eq, some, [], and_then, ◌>>◌, pure, ok, String, ◌==◌, ltb,
}
use tamara.Rtlil.Platform.{Platform}

module _ (p : Platform) where
  open p use {kernel}
  open kernel use {Wire, Cell, Module, cell_type, cells, wires, add_wire}

  -- The task mkvoter, on the new and empty module. The port flags of the wires are set by the
  -- caller.
  unfoldable pub make_voter : ℕ → M Module (Wire × Wire × Wire × Wire × Wire)
  make_voter bits = do
    a ← call (add_wire "\\a" bits)
    b ← call (add_wire "\\b" bits)
    c ← call (add_wire "\\c" bits)
    out ← call (add_wire "\\out" bits)
    error ← call (add_wire "\\err" 1)
    builder ← build kernel (new_builder kernel) (some a) (some b) (some c) (some out)
    finalise kernel builder error
    pure (a, b, c, out, error)

  -- `findNot`
  unfoldable pub find_not : List Cell → Option Cell
  find_not [] = none
  find_not (c ∷ cs) =
      let rest = find_not cs in if str_eq (cell_type c) "$logic_not" then some c else rest

  -- the task replicateNot: a node of cone 0 for the gate, and then a cone of it, which fails
  unfoldable pub replicate_not : Globals p → Option Module → Result (List (Ptr p) × Module)
  replicate_not globals none = err Error.no_top_module
  replicate_not globals (some top) = elim (find_not (cells top)) [
    | none ↦ err Error.no_not_gate
    | some c ↦
        and_then (replicate_cell p 0 c top)
          (λ replicas m. and_then (new_logic_cone p (cell c) globals) (λ _ _. ok (replicas, m)))
  ]

  -- the task countAll
  unfoldable pub count_all : Module → ℕ
  count_all m = length (cells m) + length (wires m)

  -- what the command leaves and prints: hundredths of a per cent, `none` where it divides 0 by 0
  pub data Outcome : Type 0 where
    voter_made : Wire × Wire × Wire × Wire × Wire → Module → Outcome
    gate_replicated : List (Ptr p) → Module → Outcome
    counted : ℕ → Outcome
    percentage : Option ℕ → Outcome
    waited : Outcome
    unhandled : String → Outcome

  -- the design's top module, the module that `addModule` makes, and LogicCone's static members
  pub record Design : Type 0 where
    pub top : Option Module
    pub new_module : Module
    pub globals : Globals p

  -- the result of a task in the outcome of the command
  abbrev outcome : {A : Type 0} → (A → Module → Outcome) → Result (A × Module) → Result Outcome
  outcome f (ok (a, m)) = ok (f a m)
  outcome f (err e) = err e

  -- `static_cast<int>` of the width; a negative one is no width of a wire
  abbrev make_voter_of_width : ℕ → Module → Result Outcome
  make_voter_of_width n m =
      let bits = n % 2 ^ 32 in
      let made = outcome voter_made (make_voter bits m) in
      if ltb bits (2 ^ 31) then made else err Error.negative_width

  -- args[2] past the end is undefined in the source, and an error here
  unfoldable pub mkvoter : List String → Module → Result Outcome
  mkvoter [] m = err Error.missing_argument
  mkvoter (bits ∷ _) m = elim (stol bits) [
    | none ↦ err Error.bad_number
    | some n ↦ make_voter_of_width n m
  ]

  -- the loop over the cells is empty, so the voter's share is 0
  unfoldable pub percentage_voter : Module → Outcome
  percentage_voter m = percentage (if count_all m == 0 then none else some 0)

  -- a null top module is dereferenced, which is undefined in the source, and an error here
  abbrev on_top : (Module → Outcome) → Option Module → Result Outcome
  on_top f none = err Error.no_top_module
  on_top f (some top) = ok (f top)

  unfoldable pub run_task : String → List String → Design → Result Outcome
  run_task task rest d =
      if str_eq task "mkvoter"
      then mkvoter rest d.new_module
      else if str_eq task "replicateNot"
      then outcome gate_replicated (replicate_not d.globals d.top)
      else if str_eq task "countAll"
      then on_top (λ m. counted (count_all m)) d.top
      else if str_eq task "percentageVoter"
      then on_top percentage_voter d.top
      else if str_eq task "pause"
      then ok waited
      else ok (unhandled task)

  -- `execute`; args[0] is the command's own name
  unfoldable pub execute_task : List String → Design → Result Outcome
  execute_task [] d = err Error.no_debug_task
  execute_task (command ∷ []) d = err Error.no_debug_task
  execute_task (command ∷ task ∷ rest) d = run_task task rest d
