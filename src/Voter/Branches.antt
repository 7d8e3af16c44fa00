-- ===== src/Voter/Branches.antt =====
-- Every branch of `VoterBuilder::build`: its checks in order, and the builder that it returns.
use tamara.Util.Names.{tamara_id}
use tamara.Voter.{
  VoterBuilder, build, vote_bits, vote_bit, voter_wire, make_voter_wire, make_voter_cell, voter_not,
  voter_and, voter_or, build_bit, reduce_errors,
}
use tamara.Common.{
  ℕ, zero, suc, ◌+◌, Bool, Option, Yields, ◌≡◌, Bool-cases, Result, some, yields, ◌++◌, arith, err,
  ltb, ◌==◌, ◌∷◌, Error, [], inl, weaken, ◌&&◌, inr, none, true, false, seq, refl,
}
use tamara.Rtlil.Kernel.{Kernel}

module _ (k : Kernel) where
  open k use {Wire, Module, width}

  vote_bits-count :
      (a b c out errors : Wire) (from left size : ℕ) (m : Module)
      → Yields (λ size' _. size' ≡ size + left) (vote_bits k a b c out errors from left size m)
  unfolding vote_bits vote_bit voter_wire make_voter_wire make_voter_cell voter_not voter_and
      voter_or build_bit tamara_id
  vote_bits-count a b c out errors from zero size m = yields (omega arith)
  vote_bits-count a b c out errors from (suc left) size m =
      weaken (vote_bits-count a b c out errors (from + 1) left (size + 1) _)
        (λ size' _ counted. omega (arith, counted))

  reduce_errors-returns :
      (bits : ℕ) (errors reduced : Wire) (m : Module)
      → Yields (λ _ _. Unit {0}) (reduce_errors k bits errors reduced m)
  unfolding reduce_errors make_voter_cell tamara_id
  reduce_errors-returns bits errors reduced m = elim (Bool-cases (ltb 1 bits)) [
    | inl many ↦ rw many (yields tt)
    | inr one ↦ rw one (yields tt)
  ]

  -- one more voter per bit, and one more report
  abbrev pub Grown : ℕ → VoterBuilder k → VoterBuilder k → Type 0
  Grown bits old new =
      (new.size ≡ old.size + bits)
      × ((report : Wire) × (new.reductions ≡ old.reductions ++ report ∷ []))

  abbrev Widths : Bool → Bool → ℕ → VoterBuilder k → Result (VoterBuilder k × Module) → Type 0
  Widths false _ bits old r = r ≡ err Error.input_width_mismatch
  Widths true false bits old r = r ≡ err Error.output_width_mismatch
  Widths true true bits old r = Yields (λ new _. Grown bits old new) r

  abbrev pub Branches :
      Option Wire
      → Option Wire
      → Option Wire
      → Option Wire
      → VoterBuilder k
      → Result (VoterBuilder k × Module)
      → Type 0
  Branches none _ _ _ old r = r ≡ err (Error.unexpected_null "a")
  Branches (some a) none _ _ old r = r ≡ err (Error.unexpected_null "b")
  Branches (some a) (some b) none _ old r = r ≡ err (Error.unexpected_null "c")
  Branches (some a) (some b) (some c) none old r = r ≡ err (Error.unexpected_null "out")
  Branches (some a) (some b) (some c) (some out) old r =
      Widths (width a == width b && (width a == width c && width b == width c))
        (width out == width a) (width a) old r

  -- `build` fails on the first of its four wires that is null, on inputs of different widths, and
  -- on an output of another width, in this order. Else it returns, also for the width 0; it has
  -- then one more voter for each bit, and one more report.
  pub build-Branches :
      (old : VoterBuilder k) (a b c out : Option Wire) (m : Module)
      → Branches a b c out old (build k old a b c out m)
  unfolding build voter_wire make_voter_wire tamara_id
  build-Branches old none b c out m = refl
  build-Branches old (some a) none c out m = refl
  build-Branches old (some a) (some b) none out m = refl
  build-Branches old (some a) (some b) (some c) none m = refl
  build-Branches old (some a) (some b) (some c) (some out) m =
      elim (Bool-cases (width a == width b && (width a == width c && width b == width c))) [
        | inr differ ↦ rw (differ, build) refl
        | inl same ↦ elim (Bool-cases (width out == width a)) [
          | inr other ↦ rw (same, other, build) refl
          | inl wide ↦
              rw (same, wide, build)
                (seq (vote_bits-count a b c out _ 0 (width a) old.size _) (λ size m1 counted.
                  seq (reduce_errors-returns (width a) _ _ _)
                    (λ _ m2 _. yields (counted, (_, refl)))))
        ]
      ]
