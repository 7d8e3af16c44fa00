-- ===== src/Voter/Cast.antt =====
-- A voter that `VoterBuilder::build` of src/voter_builder.cpp made, as part of a netlist that
-- grows.
use tamara.Voter.Bit.{majority, disagree}
use tamara.Voter.{VoterBuilder, build, tamara_id, vote_bits, reduce_errors}
use tamara.Voter.Bits.{any_from}
use tamara.Util.Names.{tamara_id}
use tamara.Voter.Gates.{voter_wire-Allows}
use tamara.Voter.Build.{build-Voter}
use tamara.Common.{
  ℕ, true, false, List, ◌≡◌, Bool, ◌<◌, Error, some, IfOk, ◌++◌, require, ◌∷◌, IfOk-seq, [],
  succeeds, IfOk-any, IfOk-weaken, fails, IfOk-itself, refl, IfOk-at, Yields-IfOk, at_ok, arith, ap,
  sym, ◌∙◌, ◌==◌, ◌&&◌,
}
use tamara.Rtlil.Circuit.{Circuit}
use tamara.Rtlil.Kernel.{Kernel}
use tamara.Rtlil.Gates.{Gates, Marks}
use tamara.Rtlil.Intact.{Intact}

snoc_unique : {A : Type 0} (xs : List A) (x y : A) → xs ++ x ∷ [] ≡ xs ++ y ∷ [] → x ≡ y
snoc_unique [] x y e = cc
snoc_unique (a ∷ xs) x y e = snoc_unique xs x y cc

passed : {S : Type 0} (b : Bool) (e : Error) (s : S) → IfOk (λ _ _. b ≡ true) (require b e s)
passed true e s = succeeds refl
passed false e s = fails

same_sizes :
    (a b c out report : ℕ)
    → (a == b && (a == c && b == c)) ≡ true
    → (out == a) ≡ true
    → report ≡ 1
    → (b ≡ a) × (c ≡ a) × (out ≡ a) × (report ≡ 1)
same_sizes a b c out report same same_out bit = ground arith

module _ (k : Kernel) where
  open k use {Wire, Module, width, add_wire}

  -- the wires of one voter
  pub record Poll : Type 0 where
    pub a : Wire
    pub b : Wire
    pub c : Wire
    pub out : Wire
    pub report : Wire

  -- The output has the majority of the three inputs on each bit, and the report says whether they
  -- differ somewhere.
  abbrev pub IsDecided : (Wire → ℕ → Bool) → Poll → Type 0
  IsDecided v t =
      ((i : ℕ) → i < width t.a → v t.out i ≡ majority (v t.a i) (v t.b i) (v t.c i))
      × (0 < width t.a
          → v t.report 0 ≡ any_from (λ i. disagree (v t.a i) (v t.b i) (v t.c i)) 0 (width t.a))

  abbrev pub IsSized : Poll → Type 0
  IsSized t =
      (width t.b ≡ width t.a)
      × (width t.c ≡ width t.a)
      × (width t.out ≡ width t.a)
      × (width t.report ≡ 1)

  module _ (s : Circuit k) where
    open s use {Allows}

    -- its wires fit, and the netlist allows only what decides it
    pub record Cast (t : Poll) (m : Module) : Type 0 where
      pub sized : IsSized t
      pub decided : (v : Wire → ℕ → Bool) → Allows m v → IsDecided v t

    pub Cast-kept :
        (g : Gates k s) (marks : Marks k) (t : Poll) (m m' : Module)
        → Intact k s g marks m m'
        → Cast t m
        → Cast t m'
    Cast-kept g marks t m m' kept old = record {
      sized = old.sized;
      decided = λ v allowed. old.decided v (kept.before v allowed);
    }

    module _ (old : VoterBuilder k) (a b c out : Wire) (m : Module) where
      abbrev poll : Wire → Poll
      poll report = record { a = a; b = b; c = c; out = out; report = report }

      abbrev Reports : VoterBuilder k → Type 0
      Reports new =
          (report : Wire) × IsSized (poll report) × (new.reductions ≡ old.reductions ++ report ∷ [])

      build-Reports :
          IfOk (λ new m'. Reports new) (build k old (some a) (some b) (some c) (some out) m)
      unfolding build
      build-Reports =
          IfOk-seq (passed (width a == width b && (width a == width c && width b == width c)) _ m)
            (λ _ m1 same. IfOk-seq (passed (width out == width a) _ m1) (λ _ m2 same_out.
              IfOk-seq (IfOk-any (tamara_id k "ERR_INTERMEDIATE" m2)) (λ name m3 _.
                let errors = (add_wire name (width a) m3).0 in
                IfOk-seq (IfOk-any (vote_bits k a b c out errors 0 (width a) old.size _))
                  (λ size m4 _.
                    IfOk-seq (Yields-IfOk (voter_wire-Allows k s (λ _ _. false) "ERR_INTER_OUT" m4))
                      (λ reduced m5 (bit, _).
                        IfOk-seq (IfOk-any (reduce_errors k (width a) errors reduced m5)) (λ _ m6 _.
                          succeeds (reduced, same_sizes _ _ _ _ _ same same_out bit, refl)))))))

      -- what a call that returns has built
      pub build-Cast :
          IfOk
            (λ new m'.
              (report : Wire) × Cast (poll report) m'
              × (new.reductions ≡ old.reductions ++ report ∷ []))
            (build k old (some a) (some b) (some c) (some out) m)
      build-Cast =
          let r = build k old (some a) (some b) (some c) (some out) m in
          IfOk-weaken (IfOk-itself r) (λ new m' returned.
            let (report, sized, reported) = IfOk-at build-Reports returned in
            let (same_b, same_c, same_out, _) = sized in
            let voter = λ (v : Wire → ℕ → Bool) (pos : 0 < width a).
              at_ok (build-Voter k s v a b c out old m same_b same_c same_out pos) returned in
            (
              report,
              record {
                sized = sized;
                decided = λ v allowed. (
                  λ i hi. (voter v (omega (arith, hi))).votes allowed i hi,
                  λ pos.
                      ap (λ w. v w 0)
                        (snoc_unique old.reductions report (voter v pos).report
                          (sym reported ∙ (voter v pos).reported))
                      ∙ (voter v pos).reports allowed,
                );
              },
              reported,
            ))
