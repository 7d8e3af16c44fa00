-- ===== src/Voter/Bypass/Verilog.antt =====
-- The gates of src/voter_builder.cpp against the module VOTER of src/voter.v.
use tamara.Voter.Gates.{IsBit}
use tamara.Voter.{build_bit}
use tamara.Common.{ℕ, ◌≡◌, Bool, arith, Yields, weaken, ◌∙◌, sym}
use tamara.Rtlil.Kernel.{Kernel}
use tamara.Rtlil.Circuit.{Circuit}
use tamara.Voter.Bit.{majority, disagree, build_bit-majority}
use tamara.Voter.Bypass.{assign_out, assign_err, build_bit}

-- On every input, the module VOTER and a vote agree: its output is the majority, and its error says
-- that the inputs are not all equal.
assign_out-majority : (a b c : Bool) → assign_out a b c ≡ majority a b c
unfolding assign_out
assign_out-majority a b c = ground arith

assign_err-disagree : (a b c : Bool) → assign_err a b c ≡ disagree a b c
unfolding assign_err
assign_err-disagree a b c = ground arith

module _ (k : Kernel) (s : Circuit k) (v : Kernel.Wire k → ℕ → Bool) where
  open k use {Wire, Module}
  open s use {Allows}

  -- On wires of one bit, the gates of `build` return, and whatever the netlist allows after them
  -- has on `out` and `error` what the module VOTER assigns to its outputs. No constraint is lost.
  pub build_bit-assign_out :
      (a b c out error : Wire) (m : Module)
      → IsBit k s v a
      → IsBit k s v b
      → IsBit k s v c
      → IsBit k s v out
      → IsBit k s v error
      → Yields
          (λ _ m'.
            Allows m' v
            → Allows m v
              × (v out 0 ≡ assign_out (v a 0) (v b 0) (v c 0))
              × (v error 0 ≡ assign_err (v a 0) (v b 0) (v c 0)))
          (build_bit k a b c out error m)
  build_bit-assign_out a b c out error m ha hb hc ho he =
      weaken (build_bit-majority k s v a b c out error m ha hb hc ho he) (λ _ m' voted allowed.
        let (before, majority_out, disagree_error) = voted allowed in
        (
          before,
          majority_out ∙ sym (assign_out-majority _ _ _),
          disagree_error ∙ sym (assign_err-disagree _ _ _),
        ))
