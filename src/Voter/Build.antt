-- ===== src/Voter/Build.antt =====
-- `VoterBuilder::build` of src/voter_builder.cpp: the voter of a whole wire.
use tamara.Common.{
  ℕ, ◌+◌, ◌<◌, ◌≡◌, refl, some, [], ◌∷◌, ◌++◌, Yields, yields, seq, arith, Bool, same_refl,
}
use tamara.Rtlil.Kernel.{Kernel}
use tamara.Rtlil.Circuit.{Circuit}
use tamara.Voter.{VoterBuilder, build}
use tamara.Voter.Gates.{IsBit, voter_wire-Allows, tamara_id-Allows}
use tamara.Voter.Bit.{majority, disagree}
use tamara.Voter.Bits.{any_from, vote_bits-Voted, reduce_errors-any}

module _ (k : Kernel) (s : Circuit k) (v : Kernel.Wire k → ℕ → Bool) where
  open k use {Wire, Module, width, add_wire}
  open s use {Allows}

  module _ (a b c out : Wire) where
    -- What one call of `build` promises: the voter's bits, and the wire on which it reports.
    pub record Voter (old : VoterBuilder k) (m : Module) (new : VoterBuilder k) (m' : Module)
        : Type 0 where
      pub report : Wire
      pub counted : new.size ≡ old.size + width a
      pub reported : new.reductions ≡ old.reductions ++ report ∷ []
      pub bit : IsBit k s v report
      pub before : Allows m' v → Allows m v
      pub votes : Allows m' v → (i : ℕ) → i < width a → v out i ≡ majority (v a i) (v b i) (v c i)
      pub reports :
          Allows m' v → v report 0 ≡ any_from (λ i. disagree (v a i) (v b i) (v c i)) 0 (width a)

    -- On four wires of the same positive width `build` returns; it counts the voters of the bits
    -- and appends one wire of one bit to the reductions. Every value that the netlist then allows
    -- has on each bit of `out` the majority of the three inputs, and has the new wire set exactly
    -- if some bit of the three inputs is not unanimous. Nothing that held before is lost.
    pub build-Voter :
        (old : VoterBuilder k) (m : Module)
        → width b ≡ width a
        → width c ≡ width a
        → width out ≡ width a
        → 0 < width a
        → Yields (Voter old m) (build k old (some a) (some b) (some c) (some out) m)
    unfolding build
    build-Voter old m hb hc ho pos =
        rw (hb, hc, ho, same_refl (width a))
          (seq (tamara_id-Allows k s v "ERR_INTERMEDIATE" m) λ name m₁ h₁.
            let errors = (add_wire name (width a) m₁).0 in
            seq (vote_bits-Voted k s v a b c out errors 0 (width a) old.size _)
              λ size m₂ (counted, h₂).
                seq (voter_wire-Allows k s v "ERR_INTER_OUT" m₂) λ reduced m₃ (bit, h₃).
                  seq
                    (reduce_errors-any k s v (width a) errors reduced
                      (λ i. disagree (v a i) (v b i) (v c i)) m₃
                      (s.width-add_wire name (width a) m₁) pos bit)
                    λ _ m₄ h₄. yields (record {
                      report = reduced;
                      counted = counted;
                      reported = refl;
                      bit = bit;
                      before = λ allowed.
                          h₁ (s.add_wire-Allows name (width a) m₁ v (h₂ (h₃ (h₄ allowed).0)).0);
                      votes = λ allowed i hi.
                          ((h₂ (h₃ (h₄ allowed).0)).1 i (omega arith) (omega arith)).0;
                      reports = λ allowed.
                          (h₄ allowed).1
                            (λ i lo hi. ((h₂ (h₃ (h₄ allowed).0)).1 i lo (omega arith)).1);
                    }))
