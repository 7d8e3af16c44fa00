-- ===== src/Debug/Tasks.antt =====
-- The command tamara_debug: its tasks by name.
use tamara.Debug.{execute_task, run_task, mkvoter, Design, voter_made, stol, make_voter}
use tamara.Debug.Voter.{IsVoter, make_voter-IsVoter}
use tamara.Util.Names.{to_string}
use Prim.Native.Nat.{◌%◌, ◌^◌}
use tamara.Util.Names.Digits.{stol, stol-to_string}
use tamara.Common.{ℕ, Bool, String, ◌<◌, ◌∷◌, [], ◌≡◌, ok, Yields-runs, some, arith, lt→ltb, refl}
use tamara.Rtlil.Platform.{Platform}
use tamara.Rtlil.Circuit.{Circuit}

module _ (p : Platform) (s : Circuit p.kernel) (v : p.kernel.Wire → ℕ → Bool) where
  abbrev pub FiveWires : Type 0
  FiveWires = p.kernel.Wire × p.kernel.Wire × p.kernel.Wire × p.kernel.Wire × p.kernel.Wire

  mkvoter-made :
      (text : String) (n : ℕ) (fresh m : p.kernel.Module) (wires : FiveWires)
      → stol text ≡ some n
      → n < 2 ^ 31
      → make_voter p n fresh ≡ ok (wires, m)
      → mkvoter p (text ∷ []) fresh ≡ ok (voter_made wires m)
  unfolding mkvoter
  mkvoter-made text n fresh m wires read fits made =
      let small : n % 2 ^ 32 ≡ n = omega arith in
      rw (read, mkvoter) (rw (small, made, lt→ltb n (2 ^ 31) fits) refl)

  -- The command `mkvoter n`, with a positive width that an `int` holds in decimal digits, succeeds,
  -- and makes a majority voter of exactly that width, with its error report, in the new module.
  pub execute_task-mkvoter :
      (command : String) (n : ℕ) (d : Design p)
      → 0 < n
      → n < 2 ^ 31
      → (wires : p.kernel.Wire × p.kernel.Wire × p.kernel.Wire × p.kernel.Wire × p.kernel.Wire)
        × (m : p.kernel.Module) × (execute_task p (command ∷ "mkvoter" ∷ to_string n ∷ []) d
            ≡ ok (voter_made wires m))
        × IsVoter p s v n d.new_module wires m
  unfolding execute_task run_task
  execute_task-mkvoter command n d pos fits =
      let (wires, m, made, voter) = Yields-runs (make_voter-IsVoter p s v n d.new_module pos) in
      (
        wires,
        m,
        mkvoter-made (to_string n) n d.new_module m wires (stol-to_string n (omega arith)) fits
            made,
        voter,
      )
