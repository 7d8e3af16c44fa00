-- ===== src/Voter/Bit.antt =====
-- The voter of one bit: `build` of src/voter_builder.cpp against a majority vote.
use tamara.Common.{ℕ, ◌≡◌, Bool, true, false, not, ◌&&◌, ◌||◌, Yields, seq, weaken, arith}
use tamara.Rtlil.Kernel.{Kernel}
use tamara.Rtlil.Circuit.{Circuit}
use tamara.Voter.{build_bit}
use tamara.Voter.Gates.{IsBit, voter_not-Adds, voter_and-Adds, voter_or-Adds, wire_and_gate}

-- Two equal votes decide; `disagree` says that not all three are equal.
abbrev pub majority : Bool → Bool → Bool → Bool
majority true true c = true
majority false false c = false
majority true false c = c
majority false true c = c

abbrev pub disagree : Bool → Bool → Bool → Bool
disagree true true true = false
disagree false false false = false
disagree _ _ _ = true

majority_gates : (a b c : Bool) → (((b && c) || (a && c)) || (a && b)) ≡ majority a b c
majority_gates a b c = ground arith

disagree_gates : (a b c : Bool) → (((not a && c) || (not b && a)) || (not c && b)) ≡ disagree a b c
disagree_gates a b c = ground arith

module _ (k : Kernel) (s : Circuit k) (v : Kernel.Wire k → ℕ → Bool) where
  open k use {Wire, Module}
  open s use {Allows}

  module _ (a b c out error : Wire) (m : Module) where
    -- On wires of one bit, every value that the netlist allows after `build` has the majority of
    -- `a`, `b` and `c` on `out`, and sets `error` exactly if the three are not all equal. `build`
    -- returns, and it removes no constraint that held before.
    pub build_bit-majority :
        IsBit k s v a
        → IsBit k s v b
        → IsBit k s v c
        → IsBit k s v out
        → IsBit k s v error
        → Yields
            (λ _ m'.
              Allows m' v
              → Allows m v
                × (v out 0 ≡ majority (v a 0) (v b 0) (v c 0))
                × (v error 0 ≡ disagree (v a 0) (v b 0) (v c 0)))
            (build_bit k a b c out error m)
    unfolding build_bit
    build_bit-majority ha hb hc ho he =
        wire_and_gate k s v _ {F = Unit {0}} (λ allowed. (allowed, tt))
          (λ y m'. voter_not-Adds k s v "0" a y m' ha)
          λ n0 m0 bn0 h0.
            wire_and_gate k s v _ h0 (λ y m'. voter_not-Adds k s v "1" b y m' hb)
              λ n1 m1 bn1 h1.
                wire_and_gate k s v _ h1 (λ y m'. voter_not-Adds k s v "2" c y m' hc)
                  λ n2 m2 bn2 h2.
                    wire_and_gate k s v _ h2 (λ y m'. voter_and-Adds k s v "0" b c y m' hb hc)
                      λ d0 m3 bd0 h3.
                        wire_and_gate k s v _ h3 (λ y m'. voter_and-Adds k s v "1" a c y m' ha hc)
                          λ d1 m4 bd1 h4.
                            wire_and_gate k s v _ h4
                              (λ y m'. voter_and-Adds k s v "2" n0 c y m' bn0 hc)
                              λ d2 m5 bd2 h5.
                                wire_and_gate k s v _ h5
                                  (λ y m'. voter_and-Adds k s v "3" n1 a y m' bn1 ha)
                                  λ d3 m6 bd3 h6.
                                    wire_and_gate k s v _ h6
                                      (λ y m'. voter_and-Adds k s v "4" a b y m' ha hb)
                                      λ d4 m7 bd4 h7.
                                        wire_and_gate k s v _ h7
                                          (λ y m'. voter_and-Adds k s v "5" n2 b y m' bn2 hb)
                                          λ d5 m8 bd5 h8.
                                            wire_and_gate k s v _ h8
                                              (λ y m'. voter_or-Adds k s v "or0" d0 d1 y m' bd0 bd1)
                                              λ r0 m9 br0 h9.
                                                wire_and_gate k s v _ h9
                                                  (λ y m'.
                                                    voter_or-Adds k s v "or1" d2 d3 y m' bd2 bd3)
                                                  λ r1 m10 br1 h10.
                                                    seq
                                                      (voter_or-Adds k s v "or2" r0 d4 out m10 br0
                                                        bd4 ho)
                                                      λ _ m11 h11.
                                                        weaken
                                                          (voter_or-Adds k s v "or3" r1 d5 error m11
                                                            br1 bd5 he)
                                                          λ _ m12 h12 allowed.
                                                            let (after_or2, e_error) =
                                                            h12 allowed in
                                                            let (after_gates, e_out) =
                                                            h11 after_or2 in
                                                            let (start, gates) = h10 after_gates in
                                                            (
                                                            start,
                                                            ground (
                                                            arith,
                                                            majority_gates (v a 0) (v b 0) (v c 0),
                                                            ),
                                                            ground (
                                                            arith,
                                                            disagree_gates (v a 0) (v b 0) (v c 0),
                                                            ),
                                                            )
