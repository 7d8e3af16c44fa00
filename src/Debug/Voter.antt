-- ===== src/Debug/Voter.antt =====
-- The voter that the task mkvoter makes.
use tamara.Debug.{make_voter, new_builder}
use tamara.Voter.Bit.{majority, disagree}
use tamara.Voter.Bits.{any_from}
use tamara.Voter.Build.{build-Voter}
use tamara.Voter.{new_builder}
use tamara.Voter.Finalise.{finalise-any, AllBits, any_set}
use tamara.Common.{
  List, ℕ, Bool, ◌<◌, Yields, ◌≡◌, String, seq, ◌∙◌, sym, arith, yields, subst, ◌||◌, ◌∷◌, [],
  false, ap, ◌≢◌,
}
use tamara.Rtlil.Platform.{Platform}
use tamara.Rtlil.Circuit.{Circuit}

or_false : (b : Bool) → (b || false) ≡ b
or_false b = ground arith

one_report : {A : Type 0} {xs : List A} {x : A} → xs ≡ x ∷ [] → xs ≢ []
one_report e none_there = cc

module _ (p : Platform) (s : Circuit p.kernel) (v : p.kernel.Wire → ℕ → Bool) where
  open p use {kernel}
  open kernel use {Wire, Module, width, add_wire}
  open s use {Allows}

  -- a voter of the width: its output is the majority, its report says whether a bit is in dispute
  abbrev pub IsVoter : ℕ → Module → Wire × Wire × Wire × Wire × Wire → Module → Type 0
  IsVoter bits m (a, b, c, out, error) m' =
      Allows m' v
      → Allows m v
        × ((i : ℕ) → i < bits → v out i ≡ majority (v a i) (v b i) (v c i))
        × (v error 0 ≡ any_from (λ i. disagree (v a i) (v b i) (v c i)) 0 bits)

  -- For a positive width, `make_voter` returns five wires. Whatever the netlist then allows has on
  -- each bit of `out` the majority of `a`, `b` and `c`, and has `err` set exactly if they differ in
  -- some bit.
  pub make_voter-IsVoter :
      (bits : ℕ) (m : Module) → 0 < bits → Yields (IsVoter bits m) (make_voter p bits m)
  unfolding make_voter
  make_voter-IsVoter bits m pos =
      let (a, m1) = add_wire "\\a" bits m in
      let (b, m2) = add_wire "\\b" bits m1 in
      let (c, m3) = add_wire "\\c" bits m2 in
      let (out, m4) = add_wire "\\out" bits m3 in
      let (error, m5) = add_wire "\\err" 1 m4 in
      let wide = λ (name : String) (m : Module). s.width-add_wire name bits m in
      let is_a = wide "\\a" m in
      seq
        (build-Voter kernel s v a b c out (new_builder kernel) m5 (wide "\\b" m1 ∙ sym is_a)
          (wide "\\c" m2 ∙ sym is_a) (wide "\\out" m3 ∙ sym is_a) (omega (arith, is_a, pos)))
        (λ builder m6 voter.
          seq
            (finalise-any kernel s v builder error m6 (s.width-add_wire "\\err" 1 m4)
              (one_report voter.reported)
              (subst (AllBits kernel s v) (sym voter.reported) (voter.bit, tt)))
            (λ _ m7 joined. yields (λ allowed.
              let (x, e) = joined allowed in
              (
                s.add_wire-Allows _ _ m v (
                    s.add_wire-Allows _ _ m1 v (
                      s.add_wire-Allows _ _ m2 v (
                        s.add_wire-Allows _ _ m3 v (s.add_wire-Allows _ _ m4 v (voter.before x))))),
                λ i hi. voter.votes x i (omega (arith, is_a, hi)),
                e
                    ∙ ap (any_set kernel s v) voter.reported
                    ∙ or_false (v voter.report 0)
                    ∙ voter.reports x
                    ∙ ap (any_from (λ i. disagree (v a i) (v b i) (v c i)) 0) is_a,
              ))))
