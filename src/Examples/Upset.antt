-- ===== src/Examples/Upset.antt =====
-- Two votes of one bit on the sample platform, of which one copy is upset.
use tamara.Voter.{
  build, finalise, new_builder, build_bit, vote_bit, vote_bits, reduce_errors, or_tree,
  join_reductions, voter_wire, voter_not, voter_and, voter_or, make_voter_wire, make_voter_cell,
}
use tamara.Voter.Masking.{Vote, build_all, AllOneUpset, IsUpset, Masked, is_wrong, finalise-masks}
use tamara.Sample.Gates.{circuit}
use tamara.Util.Names.{tamara_id, to_string}
use tamara.Sample.Netlist.{Netlist, object, Object, kernel, empty_netlist}
use tamara.Common.{
  false, ◌∷◌, [], List, Result, String, and_then, Yields, inl, ℕ, Bool, subst, yields, ◌≡◌, any_of,
  inr, refl, arith, str_eq, ◌&&◌, ◌==◌,
}

abbrev bit_wire : String → Object
bit_wire name = object name "" 1 false false

abbrev vote_of : Object → Object → Object → Object → Vote kernel
vote_of a b c out = record { a = a; b = b; c = c; out = out; right = λ _. false }

abbrev two_votes : List (Vote kernel)
two_votes =
    vote_of (bit_wire "a") (bit_wire "b") (bit_wire "c") (bit_wire "out")
    ∷ vote_of (bit_wire "x") (bit_wire "y") (bit_wire "z") (bit_wire "w")
    ∷ []

-- the wires that carry a one if `b` does and all other inputs do not
abbrev high : List String
high =
    "b" ∷ "$tmr$B$2" ∷ "$tmr$ERR_INTERMEDIATE$0" ∷ "$tmr$not0_and2_wire$6"
    ∷ "$tmr$not2_and5_wire$10" ∷ "$tmr$and5_or3_wire$22" ∷ "$tmr$ERR$5" ∷ "$tmr$ERR_INTER_OUT$30"
    ∷ "$tmr$not0_and2_wire$38" ∷ "$tmr$not1_and3_wire$40" ∷ "$tmr$not2_and5_wire$42"
    ∷ "$tmr$initial_or_out$64" ∷ "err" ∷ []

abbrev upset : Object → ℕ → Bool
upset w i = any_of (str_eq (kernel.wire_name w)) high && i == 0

abbrev voted : Result (Unit {0} × Netlist)
voted =
    and_then (build_all kernel two_votes (new_builder kernel) empty_netlist)
      (λ builder m1. finalise kernel builder (bit_wire "err") m1)

-- the netlist of the two votes allows these values, with the upset
voted-upset : Yields (λ _ m'. circuit.Allows m' upset) voted
unfolding build build_bit vote_bit vote_bits reduce_errors or_tree join_reductions finalise
    tamara_id voter_wire voter_not voter_and voter_or make_voter_wire make_voter_cell to_string
voted-upset = yields (
  (
    (
      (
        (
          (
            (
              (
                (
                  (
                    (
                      (
                        (
                          (
                            (
                              (
                                (
                                  (
                                    (
                                      (
                                        (
                                          (
                                            (
                                              (
                                                (
                                                  (
                                                    (
                                                      (
                                                        (
                                                          (
                                                            (
                                                            (
                                                            (
                                                            (
                                                            (
                                                            (
                                                            (
                                                            (
                                                            ((tt, λ _. refl), λ _. refl),
                                                            λ _. refl,
                                                            ),
                                                            λ _. refl,
                                                            ),
                                                            λ _. refl,
                                                            ),
                                                            refl,
                                                            ),
                                                            refl,
                                                            ),
                                                            refl,
                                                            ),
                                                            refl,
                                                            ),
                                                            refl,
                                                            ),
                                                            refl,
                                                          ),
                                                          refl,
                                                        ),
                                                        refl,
                                                      ),
                                                      refl,
                                                    ),
                                                    refl,
                                                  ),
                                                  refl,
                                                ),
                                                refl,
                                              ),
                                              refl,
                                            ),
                                            λ _. refl,
                                          ),
                                          λ _. refl,
                                        ),
                                        λ _. refl,
                                      ),
                                      λ _. refl,
                                    ),
                                    λ _. refl,
                                  ),
                                  λ _. refl,
                                ),
                                refl,
                              ),
                              refl,
                            ),
                            refl,
                          ),
                          refl,
                        ),
                        refl,
                      ),
                      refl,
                    ),
                    refl,
                  ),
                  refl,
                ),
                refl,
              ),
              refl,
            ),
            refl,
          ),
          refl,
        ),
        refl,
      ),
      λ _. refl,
    ),
    refl,
  ),
  λ _. refl,
)

two_votes-upset : AllOneUpset kernel circuit upset two_votes
two_votes-upset t (inl e) = subst (IsUpset kernel circuit upset) e (λ i hi. inr (inl (refl, refl)))
two_votes-upset t (inr (inl e)) = subst (IsUpset kernel circuit upset) e (λ i hi. inl (refl, refl))
two_votes-upset t (inr (inr z)) = absurd z

finalise-masks_example :
    Yields
      (λ _ m'.
        circuit.Allows m' upset
        → circuit.Allows empty_netlist upset
          × Masked kernel circuit upset two_votes
          × (upset (bit_wire "err") 0 ≡ any_of (is_wrong kernel circuit upset) two_votes))
      voted
finalise-masks_example =
    finalise-masks kernel circuit upset two_votes (bit_wire "err") empty_netlist (λ e. cc)
      ((refl, refl, refl, omega arith), ((refl, refl, refl, omega arith), tt)) refl two_votes-upset
