-- ===== src/Voter/Finalise.antt =====
-- `VoterBuilder::finalise` of src/voter_builder.cpp: all reports of a module on one error signal.
use tamara.Common.{
  ⊎_elim, ◌==◌, ℕ, ◌+◌, ◌≡◌, ◌≢◌, ◌↔◌, ◌⊎◌, inl, inr, refl, ◌||◌, Option, none, some, List, [], ◌∷◌,
  Error, Result, err, Yields, yields, seq, weaken, any_of, arith, Bool, String, and_then, sym, ◌∙◌,
  ok, ◌>>◌, Bool-cases,
}
use tamara.Rtlil.Kernel.{Kernel}
use tamara.Rtlil.Circuit.{Circuit}
use tamara.Util.Names.{tamara_id}
use tamara.Voter.{
  make_voter_wire, make_voter_cell, VoterBuilder, or_tree, join_reductions, finalise, voter_wire,
  voter_or,
}
use tamara.Voter.Gates.{IsBit, value_bit, voter_wire-Allows, voter_or-Adds}
use tamara.Voter.Bits.{connect_bits}

module _ (k : Kernel) (s : Circuit k) (v : Kernel.Wire k → ℕ → Bool) where
  open k use {Wire, Module, width}
  open s use {Allows}

  abbrev pub AllBits : List Wire → Type 0
  AllBits [] = Unit {0}
  AllBits (w ∷ ws) = IsBit k s v w × AllBits ws

  abbrev pub any_set : List Wire → Bool
  any_set = any_of (λ w. v w 0)

  -- the chain has an end `q` of one bit, and it is `b`
  abbrev Ends : Module → Bool → Option Wire → Module → Type 0
  Ends m b q? m' =
      (q : Wire) × (q? ≡ some q) × IsBit k s v q × (Allows m' v → Allows m v × (v q 0 ≡ b))

  -- a round of the chain, with what comes after it
  or_round :
      (label wire_label : String) (first p r : Wire) (i : ℕ) (rs : List Wire) (m : Module)
      → IsBit k s v p
      → IsBit k s v r
      → ((q : Wire) (m₂ : Module)
          → IsBit k s v q
          → Yields (Ends m₂ (v q 0 || any_set rs)) (or_tree k first (some q) i rs m₂))
      → Yields (Ends m (v p 0 || any_set (r ∷ rs))) (
          and_then
            (voter_wire k wire_label m)
            (λ out. voter_or k label p r out >> or_tree k first (some out) i rs))
  or_round label wire_label first p r i rs m hp hr next =
      seq (voter_wire-Allows k s v wire_label m) λ q m₁ (bit, h₁).
        seq (voter_or-Adds k s v label p r q m₁ hp hr bit) λ _ m₂ h₂.
          weaken (next q m₂ bit) λ end? m' (end, is, bit', h'). (
            end,
            is,
            bit',
            λ allowed. let (x₂, e') = h' allowed in let (x₁, e) = h₂ x₂ in (h₁ x₁, ground arith),
          )

  or_tree-some :
      (first p : Wire) (i : ℕ) (rs : List Wire) (m : Module)
      → IsBit k s v p
      → AllBits rs
      → Yields (Ends m (v p 0 || any_set rs)) (or_tree k first (some p) i rs m)
  unfolding or_tree
  or_tree-some first p i [] m hp hrs = yields (p, refl, hp, λ allowed. (allowed, ground arith))
  or_tree-some first p i (r ∷ rs) m hp hrs =
      or_round _ _ first p r (i + 1) rs m hp hrs.0
        λ q m₂ bit. or_tree-some first q (i + 1) rs m₂ bit hrs.1

  join_reductions-any :
      (rs : List Wire) (error : Wire) (m : Module)
      → rs ≢ []
      → IsBit k s v error
      → AllBits rs
      → Yields
          (λ _ m'. Allows m' v → Allows m v × (v error 0 ≡ any_set rs))
          (join_reductions k rs error m)
  unfolding join_reductions or_tree
  join_reductions-any [] error m some_report he hrs = absurd (some_report refl)
  join_reductions-any (r ∷ []) error m some_report he hrs = yields λ allowed.
      let (x, e) =
        connect_bits k s v _ _ _ _ m (value_bit k s v error he) (value_bit k s v r hrs.0) allowed in
      (x, ground arith)
  join_reductions-any (r ∷ r' ∷ rs) error m some_report he hrs =
      seq
        (or_round _ _ r r r' (1 + 1) rs m hrs.0 hrs.1.0
          λ q m₂ bit. or_tree-some r q (1 + 1) rs m₂ bit hrs.1.1)
        λ q? m' (q, is, bit, h). rw is (
          yields λ allowed.
            let (x, e) =
              connect_bits k s v _ _ _ _ m' (value_bit k s v q bit) (value_bit k s v error he)
                allowed in
            let (x₀, e₀) = h x in (x₀, sym e ∙ e₀))

  -- With an error signal of one bit and at least one report, all of one bit, `finalise` returns,
  -- and every value that the netlist then allows has the error signal set exactly if a report is
  -- set.
  pub finalise-any :
      (builder : VoterBuilder k) (error : Wire) (m : Module)
      → IsBit k s v error
      → builder.reductions ≢ []
      → AllBits builder.reductions
      → Yields
          (λ _ m'. Allows m' v → Allows m v × (v error 0 ≡ any_set builder.reductions))
          (finalise k builder error m)
  unfolding finalise
  finalise-any builder error m he some_report hrs =
      rw he (join_reductions-any builder.reductions error m some_report he hrs)

module _ (k : Kernel) where
  open k use {Wire, Module, width}

  abbrev pub Fails : {S A : Type 0} → Result (A × S) → Type 0
  Fails {S} {A} r = (e : Error) × (r ≡ err e)

  or_tree-ok :
      (rs : List Wire) (first p : Wire) (i : ℕ) (m : Module)
      → (q : Wire) × (m' : Module) × (or_tree k first (some p) i rs m ≡ ok (some q, m'))
  unfolding or_tree voter_wire make_voter_wire voter_or make_voter_cell tamara_id
  or_tree-ok [] first p i m = (p, m, refl)
  or_tree-ok (r ∷ rs) first p i m = or_tree-ok rs first _ (i + 1) _

  or_tree-start :
      (first r : Wire) (rs : List Wire) (m : Module)
      → (q : Wire) × (m' : Module) × (or_tree k first none 1 (r ∷ rs) m ≡ ok (some q, m'))
  unfolding or_tree voter_wire make_voter_wire voter_or make_voter_cell tamara_id
  or_tree-start first r rs m = or_tree-ok rs first _ (1 + 1) _

  join_reductions-Fails :
      (rs : List Wire) (error : Wire) (m : Module)
      → Fails (join_reductions k rs error m) ↔ (rs ≡ [])
  unfolding join_reductions
  join_reductions-Fails [] error m = (λ _. refl, λ _. (Error.unexpected_null "prev", refl))
  join_reductions-Fails (r ∷ []) error m = (λ (e, h). cc, λ h. cc)
  join_reductions-Fails (r ∷ r' ∷ rs) error m =
      let (q, m', returned) = or_tree-start r r' rs m in rw returned (λ (e, h). cc, λ h. cc)

  -- `finalise` fails exactly on an error signal that is not of one bit, and where no voter was
  -- built.
  pub finalise-Fails :
      (builder : VoterBuilder k) (error : Wire) (m : Module)
      → Fails (finalise k builder error m) ↔ ((width error ≢ 1) ⊎ (builder.reductions ≡ []))
  unfolding finalise
  finalise-Fails builder error m = elim (Bool-cases (width error == 1)) [
    | inl one ↦
        let joined = join_reductions-Fails builder.reductions error m in
        rw one (λ f. inr (joined.0 f), ⊎_elim (λ ne. absurd (ne (ground arith))) joined.1)
    | inr other ↦ rw other (λ _. inl (λ e. ground arith), λ _. (_, refl))
  ]
